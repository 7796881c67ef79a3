-- ===== src/Tests/Extraction.antt =====
-- A job for a configuration with an identification in dot notation.
use cnc_masm.Prelude.{
  ℕ, ◌≡◌, ◌≢◌, refl, true, false, Option, none, some, List, [], ◌∷◌, Str, str, str_eq, lookup,
  insert,
}
use cnc_masm.LiveAttrs.Cache.{EmptyQueryCache, new_empty_query_cache}
use cnc_masm.LiveAttrs.Laconf.{ok, PatchArgs, VteConf, BibViewConf, create}
use cnc_masm.LiveAttrs.Sql.{import_key}
use cnc_masm.LiveAttrs.Laconf.Patch.{Env, apply_patch_args, ensure_vertical_file}
use cnc_masm.LiveAttrs.Laconf.Handlers.{Request, create_conf}
use cnc_masm.LiveAttrs.Extraction.{Driver, Job, Upd, no_error, updates, run_job, panicked}
use cnc_masm.LiveAttrs.Extraction.Crash.{created_job-panics}
use cnc_masm.Tests.Laconf.{files, conf, susanne, db_info, env, created}

abbrev bib : BibViewConf
bib = record { cols = []; id_attr = str "doc.id" }

abbrev args : PatchArgs
args = record {
  vertical_files = some (str "susanne.vrt" ∷ []);
  max_num_errors = none;
  atom_structure = some (str "doc");
  self_join = none;
  bib_view = some bib;
  ngrams = none;
}

-- Every file is there.
abbrev with_files : Env
with_files = record env { is_file = λ path. true }

abbrev request : Request
request = record {
  corpus_id = str "susanne";
  corpus_info = ok susanne;
  db_info = ok db_info;
  tagsets = ok [];
  registry = ok [];
  json_args = ok args;
  partial_args = args;
}

abbrev made : VteConf
made = record created {
  vertical_files = str "susanne.vrt" ∷ [];
  structures = (str "doc", str "n" ∷ str "id" ∷ []) ∷ [];
  bib_view = bib;
  self_join = record { arg_columns = []; generator_fn = [] };
}

create_conf_test : create_conf with_files files conf request args ≡ ok made
unfolding create_conf create apply_patch_args ensure_vertical_file lookup insert str_eq import_key
create_conf_test = refl

abbrev fine : ℕ → ℕ × Option Str
fine n = (n, none)

abbrev driver : Driver ℕ
driver = record {
  start_tx = fine;
  exec = λ sql values. fine;
  rollback = λ n. n;
  commit = fine;
  send_soft_reset = fine;
}

abbrev job : Job
job = record {
  id = str "a";
  type = str "liveattrs";
  corpus_id = str "susanne";
  start = 1;
  update = 1;
  finished = false;
  error = none;
  processed_atoms = 0;
  processed_lines = 0;
  num_restarts = 0;
  args = record { append = false; vte_conf = made; no_corpus_update = false };
}

abbrev upds : List Upd
upds = record { processed_atoms = 5; processed_lines = 9; error = no_error } ∷ []

abbrev no_answers : EmptyQueryCache ℕ
no_answers = new_empty_query_cache

has_id : bib.id_attr ≢ []
has_id h = cc

is_mysql_test : str_eq made.db.type (str "mysql") ≡ true
unfolding str_eq
is_mysql_test = refl

created_job-panics_example :
    (run_job driver (λ n. n) (str "corpora") (str "too many") job no_answers 0 (updates upds)).end
    ≡ panicked
created_job-panics_example =
    created_job-panics with_files files conf driver (λ n. n) (str "corpora") request args bib made
      (str "too many") job no_answers 0 upds refl has_id refl create_conf_test is_mysql_test refl
      refl refl refl
