-- ===== src/Tests/Laconf.antt =====
-- Configurations of live attributes of one corpus, over files in memory.
use cnc_masm.Prelude.{
  ◌≡◌, refl, Bool, true, false, Option, none, some, List, [], ◌∷◌, Str, str, str_eq, str_eq_refl,
  str_mem, StrMap, lookup, insert, delete, lookup-insert, is_some, join,
}
use cnc_masm.Corpus.ConcCache.{FileStatus, is_file, no_file}
use cnc_masm.LiveAttrs.Sql.{import_key}
use cnc_masm.LiveAttrs.Sql.Adhoc.{DbInfo}
use cnc_masm.LiveAttrs.Laconf.{
  Result, ok, err, message, pos, DbConf, Conf, CorpusInfo, VteConf, PatchArgs, BibViewConf,
  SelfJoinConf, no_ngrams, create,
}
use cnc_masm.LiveAttrs.Laconf.Created.{Extends, HasBib, HasSelfJoin, create-Extends}
use cnc_masm.LiveAttrs.Laconf.Provider.{
  Files, LiveAttrsBuildConfProvider, get, save, uncache, with_global_db,
  new_live_attrs_build_conf_provider, Op, op_get, op_save, op_uncache, op_clear, run_ops,
}
use cnc_masm.LiveAttrs.Laconf.Provider.Saved.{Keeps, answer, get-save}
use cnc_masm.LiveAttrs.Laconf.Provider.Global.{IsGlobal, run_ops-new_provider}
use cnc_masm.LiveAttrs.Laconf.Patch.{Env, apply_patch_args, ensure_vertical_file}
use cnc_masm.LiveAttrs.Laconf.Handlers.{Request, respond, error_reply, create_conf_action}
use cnc_masm.LiveAttrs.Laconf.Handlers.Patching.{patch_config}
use cnc_masm.LiveAttrs.Laconf.Handlers.Answers.{
  HasNo, create_conf_action-HasNo, patch_config-refused,
}

abbrev pub path_join : List Str → Str
path_join = join 47

abbrev pub Disk : Type 0
Disk = StrMap VteConf

abbrev status_of : Bool → FileStatus
status_of true = is_file
status_of false = no_file

abbrev conf_of : Option VteConf → Result VteConf
conf_of none = err (message (str "no such file"))
conf_of (some c) = ok c

abbrev pub files : Files Disk
files = record {
  status = λ path d. status_of (is_some (lookup path d));
  load_conf = λ path d. conf_of (lookup path d);
  write_file = λ path c d. (insert path c d, none);
  remove = λ path d. (delete path d, none);
}

files-Keeps : Keeps files
files-Keeps = record {
  is_written = λ path c d h. rw (lookup-insert path path c d, str_eq_refl path) refl;
  reads = λ path c d h. rw (lookup-insert path path c d, str_eq_refl path) refl;
}

abbrev pub mysql : DbConf
mysql = record {
  type = str "mysql";
  name = str "la";
  host = str "h";
  user = str "u";
  password = str "p";
  preconf_queries = [];
}

abbrev pub conf : Conf
conf = record {
  db = mysql;
  text_types_db_dir_path = [];
  conf_dir_path = str "confs";
  vert_max_num_errors = pos 100;
  vertical_files_dir_path = str "vert";
}

abbrev pub susanne : CorpusInfo
susanne = record {
  id = str "susanne";
  indexed_structs = str "doc" ∷ str "p" ∷ [];
  subcorp_attrs = (str "doc", str "n" ∷ []) ∷ [];
  vertical_exists = false;
  vertical_path = [];
}

abbrev pub db_info : DbInfo
db_info = record {
  name = str "susanne";
  parallel_corpus = [];
  bib_label_attr = [];
  bib_id_attr = [];
}

abbrev bib : BibViewConf
bib = record { cols = []; id_attr = str "doc.id" }

abbrev joins : SelfJoinConf
joins = record { arg_columns = str "doc.n" ∷ str "p.x" ∷ []; generator_fn = str "identity" }

abbrev args : PatchArgs
args = record {
  vertical_files = none;
  max_num_errors = none;
  atom_structure = some (str "doc");
  self_join = some joins;
  bib_view = some bib;
  ngrams = none;
}

abbrev pub created : VteConf
created = record {
  corpus = str "susanne";
  parallel_corpus = [];
  atom_structure = str "doc";
  atom_parent_structure = [];
  stack_struct_eval = false;
  max_num_errors = pos 100;
  vertical_file = [];
  vertical_files = [];
  ngrams = no_ngrams;
  encoding = str "UTF-8";
  indexed_cols = [];
  structures = (str "doc", str "n" ∷ str "id" ∷ []) ∷ (str "p", str "x" ∷ []) ∷ [];
  bib_view = record { cols = str "doc_n" ∷ []; id_attr = str "doc_id" };
  self_join = record { arg_columns = str "doc_n" ∷ str "p_x" ∷ []; generator_fn = str "identity" };
  db = record {
    type = str "mysql";
    name = str "susanne";
    host = str "h";
    user = str "u";
    password = str "p";
    preconf_queries = [];
  };
}

create_test : create path_join conf susanne db_info args ≡ ok created
unfolding create lookup insert str_eq import_key
create_test = refl

create-Extends_example :
    (str_mem created.atom_structure susanne.indexed_structs ≡ true)
    × Extends susanne.subcorp_attrs created.structures
    × HasBib created.structures args.bib_view
    × HasSelfJoin created.structures args.self_join
create-Extends_example = create-Extends path_join conf susanne db_info args created create_test

abbrev provider : LiveAttrsBuildConfProvider Disk
provider = record {
  conf_dir_path = str "confs";
  global_db_conf = mysql;
  data_ = [];
  heap = created ∷ [];
  disk = [];
}

get-save_example :
    (answer path_join files
        (get path_join files created.corpus (save path_join files (some 0) provider).0)
      ≡ ok (with_global_db mysql created))
    × (answer path_join files (
          get path_join files created.corpus
            (uncache created.corpus (save path_join files (some 0) provider).0).0)
        ≡ ok (with_global_db mysql created))
get-save_example = get-save path_join files files-Keeps 0 created provider refl refl refl

abbrev ops : List Op
ops =
    op_save created
    ∷ op_get (str "susanne")
    ∷ op_uncache (str "susanne")
    ∷ op_get (str "susanne")
    ∷ op_clear (str "x")
    ∷ []

run_ops-new_provider_example :
    IsGlobal mysql
      (run_ops path_join files ops (new_live_attrs_build_conf_provider (str "confs") mysql []))
run_ops-new_provider_example =
    run_ops-new_provider path_join files mysql (str "confs") [] ops
      (refl, (tt, (tt, (tt, (tt, tt)))))

abbrev verticals : VteConf → List Str
verticals c = c.vertical_files

abbrev pub env : Env
env = record {
  ngram_is_zero = λ n. false;
  get_defined_verticals = verticals;
  has_configured_vertical = λ c. true;
  without_passwords = λ c. c;
  is_file = λ path. false;
  path_exists = λ path. false;
  stat = λ path. err (message (str "no such file"));
  intercorp_group = λ corpus. none;
  path_join = path_join;
}

abbrev new_verticals : PatchArgs
new_verticals = record {
  vertical_files = some (str "gone.vrt" ∷ []);
  max_num_errors = none;
  atom_structure = none;
  self_join = none;
  bib_view = none;
  ngrams = none;
}

abbrev request : Request
request = record {
  corpus_id = str "susanne";
  corpus_info = ok susanne;
  db_info = ok db_info;
  tagsets = ok [];
  registry = ok [];
  json_args = ok new_verticals;
  partial_args = new_verticals;
}

create_conf_action-HasNo_example :
    HasNo env files conf 409 (create_conf_action env files conf request provider)
create_conf_action-HasNo_example = create_conf_action-HasNo env files conf request provider tt tt

abbrev cached : LiveAttrsBuildConfProvider Disk
cached = record {
  conf_dir_path = str "confs";
  global_db_conf = mysql;
  data_ = (str "susanne", 0) ∷ [];
  heap = created ∷ [];
  disk = [];
}

abbrev patched : VteConf
patched = record created { vertical_files = str "gone.vrt" ∷ [] }

apply_patch_args_test : apply_patch_args env new_verticals created ≡ ok patched
unfolding apply_patch_args
apply_patch_args_test = refl

in_cache : lookup (str "susanne") cached.data_ ≡ some 0
unfolding lookup str_eq
in_cache = refl

ensure_vertical_file_test :
    ensure_vertical_file env conf susanne patched
    ≡ err (message (str "defined vertical not found: gone.vrt"))
unfolding ensure_vertical_file
ensure_vertical_file_test = refl

patch_config-refused_example :
    ((patch_config env files conf false request cached).1
      ≡ some
          (respond 500 (error_reply (message (str "defined vertical not found: gone.vrt"))) ∷ []))
    × ((patch_config env files conf false request cached).0.disk ≡ cached.disk)
    × (answer path_join files
          (get path_join files (str "susanne") (patch_config env files conf false request cached).0)
        ≡ ok patched)
patch_config-refused_example =
    patch_config-refused env files conf request cached 0 created patched new_verticals susanne
      (message (str "defined vertical not found: gone.vrt")) in_cache refl refl
      apply_patch_args_test refl ensure_vertical_file_test
