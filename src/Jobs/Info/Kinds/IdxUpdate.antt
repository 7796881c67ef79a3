-- ===== src/Jobs/Info/Kinds/IdxUpdate.antt =====
-- liveattrs/idxjob.go: the record `IdxUpdateJobInfo`, with its methods. `args` is `MaxColumns`.
use cnc_masm.Prelude.{ℕ, Bool, true, Option, List, Str}
use cnc_masm.Jobs.Info.{JobInfoCompact, FullInfo, error_to_string}
use cnc_masm.Jobs.Info.Kinds.Base.{is_nil_error}

pub record IdxJobResult : Type 0 where
  pub used_indexes : List Str
  pub removed_indexes : List Str

pub record IdxUpdateJobInfo : Type 0 where
  pub id : Str
  pub type : Str
  pub corpus_id : Str
  pub start : ℕ
  pub update : ℕ
  pub finished : Bool
  pub error : Option Str
  pub num_restarts : ℕ
  pub args : ℕ
  pub result : IdxJobResult

unfoldable pub as_finished : ℕ → IdxUpdateJobInfo → IdxUpdateJobInfo
as_finished now j = record j { update = now; finished = true }

unfoldable pub compact_version : IdxUpdateJobInfo → JobInfoCompact
unfolding is_nil_error
compact_version j = record {
  id = j.id;
  corpus_id = j.corpus_id;
  type = j.type;
  start = j.start;
  update = j.update;
  finished = j.finished;
  ok = is_nil_error j.error;
}

unfoldable pub full_info : IdxUpdateJobInfo → FullInfo (ℕ × IdxJobResult)
unfolding is_nil_error error_to_string
full_info j = record {
  id = j.id;
  type = j.type;
  corpus_id = j.corpus_id;
  start = j.start;
  update = j.update;
  finished = j.finished;
  error = error_to_string j.error;
  ok = is_nil_error j.error;
  num_restarts = j.num_restarts;
  extra = (j.args, j.result);
}

-- `Args` is left at its zero value.
unfoldable pub with_error : ℕ → Option Str → IdxUpdateJobInfo → IdxUpdateJobInfo
with_error now err j = record {
  id = j.id;
  type = j.type;
  corpus_id = j.corpus_id;
  start = j.start;
  update = now;
  finished = j.finished;
  error = err;
  num_restarts = j.num_restarts;
  args = 0;
  result = j.result;
}
