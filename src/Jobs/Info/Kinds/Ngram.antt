-- ===== src/Jobs/Info/Kinds/Ngram.antt =====
-- liveattrs/db/freqdb/job.go: the record `NgramJobInfo`, with its methods. `NgramJobInfoArgs` has no field.
use cnc_masm.Prelude.{ℕ, Bool, true, Option, Str}
use cnc_masm.Jobs.Info.{JobInfoCompact, FullInfo, error_to_string}
use cnc_masm.Jobs.Info.Kinds.Base.{is_nil_error}

pub record GenNgramsStatus : Type 0 where
  pub tables_ready : Bool
  pub num_proc_lines : ℕ
  pub avg_speed_items_per_sec : ℕ
  pub time_estimation_secs : ℕ
  pub error : Option Str

pub record NgramJobInfo : Type 0 where
  pub id : Str
  pub type : Str
  pub corpus_id : Str
  pub start : ℕ
  pub update : ℕ
  pub finished : Bool
  pub error : Option Str
  pub num_restarts : ℕ
  pub result : GenNgramsStatus

unfoldable pub as_finished : ℕ → NgramJobInfo → NgramJobInfo
as_finished now j = record j { update = now; finished = true }

unfoldable pub compact_version : NgramJobInfo → JobInfoCompact
unfolding is_nil_error
compact_version j = record {
  id = j.id;
  corpus_id = j.corpus_id;
  type = j.type;
  start = j.start;
  update = j.update;
  finished = j.finished;
  ok = is_nil_error j.error;
}

unfoldable pub full_info : NgramJobInfo → FullInfo (GenNgramsStatus)
unfolding is_nil_error error_to_string
full_info j = record {
  id = j.id;
  type = j.type;
  corpus_id = j.corpus_id;
  start = j.start;
  update = j.update;
  finished = j.finished;
  error = error_to_string j.error;
  ok = is_nil_error j.error;
  num_restarts = j.num_restarts;
  extra = j.result;
}

unfoldable pub with_error : ℕ → Option Str → NgramJobInfo → NgramJobInfo
with_error now err j = record {
  id = j.id;
  type = j.type;
  corpus_id = j.corpus_id;
  start = j.start;
  update = now;
  finished = j.finished;
  error = err;
  num_restarts = j.num_restarts;
  result = j.result;
}
