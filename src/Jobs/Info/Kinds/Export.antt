-- ===== src/Jobs/Info/Kinds/Export.antt =====
-- liveattrs/qs/job.go: the record `ExportJobInfo`, with its methods. `args` is `MultiValuesEnabled`.
use cnc_masm.Prelude.{ℕ, Bool, true, false, Option, Str}
use cnc_masm.Jobs.Info.{JobInfoCompact, FullInfo, error_to_string}
use cnc_masm.Jobs.Info.Kinds.Base.{is_nil_error}

pub record ExporterStatus : Type 0 where
  pub tables_ready : Bool
  pub num_proc_lines : ℕ
  pub error : Option Str

pub record ExportJobInfo : Type 0 where
  pub id : Str
  pub type : Str
  pub corpus_id : Str
  pub start : ℕ
  pub update : ℕ
  pub finished : Bool
  pub error : Option Str
  pub num_restarts : ℕ
  pub args : Bool
  pub result : ExporterStatus

unfoldable pub as_finished : ℕ → ExportJobInfo → ExportJobInfo
as_finished now j = record j { update = now; finished = true }

unfoldable pub compact_version : ExportJobInfo → JobInfoCompact
unfolding is_nil_error
compact_version j = record {
  id = j.id;
  corpus_id = j.corpus_id;
  type = j.type;
  start = j.start;
  update = j.update;
  finished = j.finished;
  ok = is_nil_error j.error;
}

unfoldable pub full_info : ExportJobInfo → FullInfo (Bool × ExporterStatus)
unfolding is_nil_error error_to_string
full_info j = record {
  id = j.id;
  type = j.type;
  corpus_id = j.corpus_id;
  start = j.start;
  update = j.update;
  finished = j.finished;
  error = error_to_string j.error;
  ok = is_nil_error j.error;
  num_restarts = j.num_restarts;
  extra = (j.args, j.result);
}

-- `Args` is left at its zero value.
unfoldable pub with_error : ℕ → Option Str → ExportJobInfo → ExportJobInfo
with_error now err j = record {
  id = j.id;
  type = j.type;
  corpus_id = j.corpus_id;
  start = j.start;
  update = now;
  finished = j.finished;
  error = err;
  num_restarts = j.num_restarts;
  args = false;
  result = j.result;
}
