-- ===== src/Jobs/Info/Kinds/LiveAttrs.antt =====
-- liveattrs/lajob.go: the record `LiveAttrsJobInfo`, with its methods.
use cnc_masm.Prelude.{ℕ, Bool, true, false, Option, Str, str}
use cnc_masm.Jobs.Info.{JobInfoCompact, FullInfo, error_to_string}
use cnc_masm.Jobs.Info.Kinds.Base.{is_nil_error}

-- `V` is `vteCnf.VTEConf` of vert-tagextract.
pub record JobInfoArgs (V : Type 0) : Type 0 where
  pub append : Bool
  pub vte_conf : V
  pub no_corpus_update : Bool

-- The parameter is `VTEConf.WithoutPasswords` of vert-tagextract.
unfoldable pub args_without_passwords : {V : Type 0} → (V → V) → JobInfoArgs V → JobInfoArgs V
args_without_passwords hide a = record a { vte_conf = hide a.vte_conf }

pub record LiveAttrsJobInfo (V : Type 0) : Type 0 where
  pub id : Str
  pub type : Str
  pub corpus_id : Str
  pub start : ℕ
  pub update : ℕ
  pub finished : Bool
  pub error : Option Str
  pub processed_atoms : ℕ
  pub processed_lines : ℕ
  pub num_restarts : ℕ
  pub args : JobInfoArgs V

module _ {V : Type 0} where
  unfoldable pub as_finished : ℕ → LiveAttrsJobInfo V → LiveAttrsJobInfo V
  as_finished now j = record j { update = now; finished = true }

  unfoldable pub compact_version : LiveAttrsJobInfo V → JobInfoCompact
  unfolding is_nil_error
  compact_version j = record {
    id = j.id;
    corpus_id = j.corpus_id;
    type = j.type;
    start = j.start;
    update = j.update;
    finished = j.finished;
    ok = is_nil_error j.error;
  }

  unfoldable pub full_info : (V → V) → LiveAttrsJobInfo V → FullInfo (ℕ × ℕ × JobInfoArgs V)
  unfolding is_nil_error error_to_string
  full_info hide j = record {
    id = j.id;
    type = j.type;
    corpus_id = j.corpus_id;
    start = j.start;
    update = j.update;
    finished = j.finished;
    error = error_to_string j.error;
    ok = is_nil_error j.error;
    num_restarts = j.num_restarts;
    extra = (j.processed_atoms, j.processed_lines, args_without_passwords hide j.args);
  }

  -- The type is set anew, and `Finished`, `ProcessedAtoms` and `ProcessedLines` are left at zero.
  unfoldable pub with_error : ℕ → Option Str → LiveAttrsJobInfo V → LiveAttrsJobInfo V
  with_error now err j = record {
    id = j.id;
    type = str "liveattrs";
    corpus_id = j.corpus_id;
    start = j.start;
    update = now;
    finished = false;
    error = err;
    processed_atoms = 0;
    processed_lines = 0;
    num_restarts = j.num_restarts;
    args = j.args;
  }
