-- ===== src/LiveAttrs/Laconf.antt =====
-- liveattrs/laconf/provider.go, patch.go and conf.go of liveattrs: the configurations of
-- vert-tagextract that Create makes. Of the records of that library there are the fields that the
-- code reads or sets.
pub mod Created
pub mod Provider
pub mod Patch
pub mod Handlers
pub use cnc_masm.Prelude.{ℤ, pos, negsuc}
use cnc_masm.Prelude.{
  ℕ, Bool, true, false, Option, none, some, List, [], ◌∷◌, ◌++◌, Str, str, str_eq, str_mem, StrMap,
  lookup, insert, map, split_on, if◌then◌else◌, or_else,
}
use cnc_masm.General.Collections.{slice_contains}
use cnc_masm.LiveAttrs.Sql.{import_key}
use cnc_masm.LiveAttrs.Sql.Adhoc.{DbInfo}

-- Two errors are compared by name, the others by nobody; `wrapped` is `%w`.
pub data Error : Type 0 where
  no_such_config : Error
  missing_vertical : Error
  message : Str → Error
  wrapped : Str → Error → Error

pub data Result (A : Type 0) : Type 0 where
  ok : A → Result A
  err : Error → Result A
  panic : Result A

infixl 5 ◌>>=◌
abbrev pub ◌>>=◌ : {A B : Type 0} → Result A → (A → Result B) → Result B
ok a >>= f = f a
err e >>= f = err e
panic >>= f = panic

pub record VertColumn : Type 0 where
  pub idx : ℕ
  pub role : Str

pub record NgramConf : Type 0 where
  pub ngram_size : ℤ
  pub vert_columns : List VertColumn

pub record SelfJoinConf : Type 0 where
  pub arg_columns : List Str
  pub generator_fn : Str

pub record BibViewConf : Type 0 where
  pub cols : List Str
  pub id_attr : Str

pub record DbConf : Type 0 where
  pub type : Str
  pub name : Str
  pub host : Str
  pub user : Str
  pub password : Str
  pub preconf_queries : List Str

pub record VteConf : Type 0 where
  pub corpus : Str
  pub parallel_corpus : Str
  pub atom_structure : Str
  pub atom_parent_structure : Str
  pub stack_struct_eval : Bool
  pub max_num_errors : ℤ
  pub vertical_file : Str
  pub vertical_files : List Str
  pub ngrams : NgramConf
  pub encoding : Str
  pub indexed_cols : List Str
  pub structures : StrMap (List Str)
  pub bib_view : BibViewConf
  pub self_join : SelfJoinConf
  pub db : DbConf

-- `none` is "do not update this item".
pub record PatchArgs : Type 0 where
  pub vertical_files : Option (List Str)
  pub max_num_errors : Option ℤ
  pub atom_structure : Option Str
  pub self_join : Option SelfJoinConf
  pub bib_view : Option BibViewConf
  pub ngrams : Option NgramConf

abbrev pub no_ngrams : NgramConf
no_ngrams = record { ngram_size = pos 0; vert_columns = [] }

abbrev pub no_self_join : SelfJoinConf
no_self_join = record { arg_columns = []; generator_fn = [] }

abbrev pub no_bib_view : BibViewConf
no_bib_view = record { cols = []; id_attr = [] }

abbrev pub no_db : DbConf
no_db = record { type = []; name = []; host = []; user = []; password = []; preconf_queries = [] }

unfoldable pub get_vertical_files : PatchArgs → List Str
get_vertical_files la = or_else la.vertical_files []

unfoldable pub get_max_num_errors : PatchArgs → ℤ
get_max_num_errors la = or_else la.max_num_errors (pos 0)

unfoldable pub get_atom_structure : PatchArgs → Str
get_atom_structure la = or_else la.atom_structure []

unfoldable pub get_self_join : PatchArgs → SelfJoinConf
get_self_join la = or_else la.self_join no_self_join

unfoldable pub get_bib_view : PatchArgs → BibViewConf
get_bib_view la = or_else la.bib_view no_bib_view

unfoldable pub get_ngrams : PatchArgs → NgramConf
get_ngrams la = or_else la.ngrams no_ngrams

-- `liveattrs.Conf`
pub record Conf : Type 0 where
  pub db : DbConf
  pub text_types_db_dir_path : Str
  pub conf_dir_path : Str
  pub vert_max_num_errors : ℤ
  pub vertical_files_dir_path : Str

-- `corpus.Info`, as the configurations use it.
pub record CorpusInfo : Type 0 where
  pub id : Str
  pub indexed_structs : List Str
  pub subcorp_attrs : StrMap (List Str)
  pub vertical_exists : Bool
  pub vertical_path : Str

abbrev pub cols_of : Str × List Str → List Str
cols_of (stru, attrs) = map (λ attr. stru ++ 95 ∷ attr) attrs

-- `GetSubcorpAttrs`
unfoldable pub get_subcorp_attrs : StrMap (List Str) → List Str
get_subcorp_attrs [] = []
get_subcorp_attrs ((stru, attrs) ∷ structures) =
    map (λ attr. stru ++ 46 ∷ attr) attrs ++ get_subcorp_attrs structures

unfoldable pub bib_cols : StrMap (List Str) → List Str
bib_cols [] = []
bib_cols (s ∷ structures) = cols_of s ++ bib_cols structures

abbrev pub extended : Str → Option (List Str) → List Str
extended attr none = attr ∷ []
extended attr (some attrs) = if slice_contains attrs attr then attrs else attrs ++ attr ∷ []

-- An attribute that is not there is added to those of its structure.
unfoldable pub add_attr : Str → Str → StrMap (List Str) → StrMap (List Str)
add_attr stru attr structures = insert stru (extended attr (lookup stru structures)) structures

-- `bibIdElms[0]` and `bibIdElms[1]`; the first is always there.
abbrev pub first_two : List Str → Result (Str × Str)
first_two (a ∷ b ∷ rest) = ok (a, b)
first_two (a ∷ []) = panic
first_two [] = panic

unfoldable pub with_bib_view : StrMap (List Str) → Option BibViewConf → VteConf → Result VteConf
unfolding bib_cols add_attr import_key
with_bib_view attrs none c = ok c
with_bib_view attrs (some v) c = first_two (split_on 46 v.id_attr) >>= λ elms. ok (record c {
  bib_view = record { cols = bib_cols attrs; id_attr = import_key v.id_attr };
  structures = add_attr elms.0 elms.1 c.structures;
})

abbrev pub only_structure : StrMap (List Str) → Result Str
only_structure ((k, attrs) ∷ []) = ok k
only_structure [] = err (
    message (
      str
        "no atomStructure specified and the value cannot be inferred due to multiple involved structures"))
only_structure (x ∷ y ∷ rest) = err (
    message (
      str
        "no atomStructure specified and the value cannot be inferred due to multiple involved structures"))

unfoldable pub with_atom_structure : Option Str → VteConf → Result VteConf
with_atom_structure none c =
    only_structure c.structures >>= λ k. ok (record c { atom_structure = k })
with_atom_structure (some s) c = ok (record c { atom_structure = s })

unfoldable pub check_atom_structure : CorpusInfo → VteConf → Result VteConf
check_atom_structure info c =
    if str_mem c.atom_structure info.indexed_structs
    then ok c
    else err (
        message (
          str "atom structure '"
          ++ (c.atom_structure ++ (str "' does not exist in corpus " ++ info.id))))

-- `strings.Split(argCol, ".")`, which must have two elements.
abbrev pub merge_attr : Str → List Str → Result (Str × Str)
merge_attr arg_col (a ∷ b ∷ []) = ok (a, b)
merge_attr arg_col [] = err (message (str "invalid mergeAttr format: " ++ arg_col))
merge_attr arg_col (a ∷ []) = err (message (str "invalid mergeAttr format: " ++ arg_col))
merge_attr arg_col (a ∷ b ∷ c ∷ r) = err (message (str "invalid mergeAttr format: " ++ arg_col))

-- The columns of the self join, and the structures with them.
unfoldable pub self_join_columns :
    List Str → StrMap (List Str) → Result (List Str × StrMap (List Str))
unfolding add_attr
self_join_columns [] structures = ok ([], structures)
self_join_columns (arg_col ∷ arg_cols) structures =
    merge_attr arg_col (split_on 46 arg_col) >>= λ elms.
    self_join_columns arg_cols (add_attr elms.0 elms.1 structures) >>= λ rest.
    ok ((elms.0 ++ 95 ∷ elms.1) ∷ rest.0, rest.1)

unfoldable pub with_self_join : Option SelfJoinConf → VteConf → Result VteConf
unfolding self_join_columns
with_self_join none c = ok c
with_self_join (some j) c = self_join_columns j.arg_columns c.structures >>= λ joined.
    ok (record c {
      self_join = record { arg_columns = joined.0; generator_fn = j.generator_fn };
      structures = joined.1;
    })

abbrev pub is_mysql : DbConf → Bool
is_mysql db = str_eq db.type (str "mysql")

unfoldable pub db_of : (List Str → Str) → Conf → CorpusInfo → DbInfo → DbConf
db_of path_join conf info db_info =
    if is_mysql conf.db
    then record {
      type = str "mysql";
      name = elim db_info.parallel_corpus [ [] ↦ info.id | b ∷ s ↦ b ∷ s ];
      host = conf.db.host;
      user = conf.db.user;
      password = conf.db.password;
      preconf_queries = conf.db.preconf_queries;
    }
    else record {
      type = str "sqlite";
      name = path_join (conf.text_types_db_dir_path ∷ (info.id ++ str ".db") ∷ []);
      host = [];
      user = [];
      password = [];
      preconf_queries = [];
    }

unfoldable pub base_conf : Conf → CorpusInfo → DbInfo → PatchArgs → VteConf
unfolding get_ngrams
base_conf conf info db_info args = record {
  corpus = info.id;
  parallel_corpus = db_info.parallel_corpus;
  atom_structure = [];
  atom_parent_structure = [];
  stack_struct_eval = false;
  max_num_errors = or_else args.max_num_errors conf.vert_max_num_errors;
  vertical_file = [];
  vertical_files = [];
  ngrams = get_ngrams args;
  encoding = str "UTF-8";
  indexed_cols = [];
  structures = info.subcorp_attrs;
  bib_view = no_bib_view;
  self_join = no_self_join;
  db = no_db;
}

-- `Create`; `path_join` is `path.Join`. The map of structures is that of `corpusInfo`, which nobody
-- reads afterwards.
unfoldable pub create : (List Str → Str) → Conf → CorpusInfo → DbInfo → PatchArgs → Result VteConf
unfolding base_conf with_bib_view with_atom_structure check_atom_structure with_self_join db_of
create path_join conf info db_info args =
    with_bib_view info.subcorp_attrs args.bib_view (base_conf conf info db_info args)
    >>= with_atom_structure args.atom_structure
    >>= check_atom_structure info
    >>= with_self_join args.self_join
    >>= λ c. ok (record c { db = db_of path_join conf info db_info })
