-- ===== src/Jobs/Info/Kinds/Sync.antt =====
-- corpus/job.go: the record `JobInfo`, with its methods. The type is called `JobInfo` there.
use cnc_masm.Prelude.{ℕ, Bool, true, ◌&&◌, Option, none, some, List, Str}
use cnc_masm.Jobs.Info.{JobInfoCompact, FullInfo, error_to_string}
use cnc_masm.Jobs.Info.Kinds.Base.{is_nil_error}

pub record DirInfo : Type 0 where
  pub path : Str
  pub latest_mod : Str

-- A return code of -1, that no exit code was seen, is `none`.
pub record SyncResponse : Type 0 where
  pub ok : Bool
  pub return_code : Option ℕ
  pub details : List Str
  pub source_dir : DirInfo
  pub destination_dir : DirInfo

unfoldable pub sync_ok : Option SyncResponse → Bool
sync_ok none = true
sync_ok (some r) = r.ok

pub record SyncJobInfo : Type 0 where
  pub id : Str
  pub type : Str
  pub corpus_id : Str
  pub start : ℕ
  pub update : ℕ
  pub finished : Bool
  pub error : Option Str
  pub result : Option SyncResponse
  pub num_restarts : ℕ

unfoldable pub as_finished : ℕ → SyncJobInfo → SyncJobInfo
as_finished now j = record j { update = now; finished = true }

unfoldable pub compact_version : SyncJobInfo → JobInfoCompact
unfolding is_nil_error sync_ok
compact_version j = record {
  id = j.id;
  corpus_id = j.corpus_id;
  type = j.type;
  start = j.start;
  update = j.update;
  finished = j.finished;
  ok = is_nil_error j.error && sync_ok j.result;
}

unfoldable pub full_info : SyncJobInfo → FullInfo (Option SyncResponse)
unfolding is_nil_error error_to_string
full_info j = record {
  id = j.id;
  type = j.type;
  corpus_id = j.corpus_id;
  start = j.start;
  update = j.update;
  finished = j.finished;
  error = error_to_string j.error;
  ok = is_nil_error j.error;
  num_restarts = j.num_restarts;
  extra = j.result;
}

unfoldable pub with_error : ℕ → Option Str → SyncJobInfo → SyncJobInfo
with_error now err j = record {
  id = j.id;
  type = j.type;
  corpus_id = j.corpus_id;
  start = j.start;
  update = now;
  finished = j.finished;
  error = err;
  result = j.result;
  num_restarts = j.num_restarts;
}
