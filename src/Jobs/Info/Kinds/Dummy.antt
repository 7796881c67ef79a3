-- ===== src/Jobs/Info/Kinds/Dummy.antt =====
-- jobs/dummy.go: the record `DummyJobInfo`, with its methods. The result is the payload of `DummyJobResult`.
use cnc_masm.Prelude.{ℕ, Bool, true, ◌&&◌, Option, Str, is_some}
use cnc_masm.Jobs.Info.{JobInfoCompact, FullInfo, error_to_string}
use cnc_masm.Jobs.Info.Kinds.Base.{is_nil_error}

pub record DummyJobInfo : Type 0 where
  pub id : Str
  pub type : Str
  pub corpus_id : Str
  pub start : ℕ
  pub update : ℕ
  pub finished : Bool
  pub error : Option Str
  pub result : Option Str
  pub num_restarts : ℕ

unfoldable pub as_finished : ℕ → DummyJobInfo → DummyJobInfo
as_finished now j = record j { update = now; finished = true }

unfoldable pub compact_version : DummyJobInfo → JobInfoCompact
unfolding is_nil_error
compact_version j = record {
  id = j.id;
  corpus_id = j.corpus_id;
  type = j.type;
  start = j.start;
  update = j.update;
  finished = j.finished;
  ok = is_nil_error j.error && is_some j.result;
}

unfoldable pub full_info : DummyJobInfo → FullInfo (Option Str)
unfolding is_nil_error error_to_string
full_info j = record {
  id = j.id;
  type = j.type;
  corpus_id = j.corpus_id;
  start = j.start;
  update = j.update;
  finished = j.finished;
  error = error_to_string j.error;
  ok = is_nil_error j.error;
  num_restarts = j.num_restarts;
  extra = j.result;
}

unfoldable pub with_error : ℕ → Option Str → DummyJobInfo → DummyJobInfo
with_error now err j = record {
  id = j.id;
  type = j.type;
  corpus_id = j.corpus_id;
  start = j.start;
  update = now;
  finished = j.finished;
  error = err;
  result = j.result;
  num_restarts = j.num_restarts;
}
