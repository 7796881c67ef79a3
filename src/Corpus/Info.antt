-- ===== src/Corpus/Info.antt =====
-- corpus/corpus.go with the registry paths of corpus/conf.go: what is known about an installed
-- corpus from its files and from Manatee, and GetCorpusInfo of corpus/actions.go. Closing a corpus is not modelled.
pub mod Attrs
pub mod Installed
pub mod Total
use cnc_masm.Prelude.{
  ℕ, ℤ, pos, negsuc, Bool, true, false, ◌&&◌, ◌||◌, not, Option, none, some, List, [], ◌∷◌, ◌++◌,
  Str, str, StrMap, lookup, insert, ◌⊎◌, inl, inr, has_prefix, split_on, if◌then◌else◌, or_else,
}

-- `CorpusNotFound` is compared by name; the others are texts, and what wraps them.
pub data Failure : Type 0 where
  corpus_not_found : Failure
  message : Str → Failure
  info_error : Failure → Failure
  corpus_error : Failure → Failure
  wrapped : Str → Failure → Failure

pub data Result (A : Type 0) : Type 0 where
  ok : A → Result A
  err : Failure → Result A
  panic : Result A

infixl 5 ◌>>=◌
abbrev pub ◌>>=◌ : {A B : Type 0} → Result A → (A → Result B) → Result B
ok a >>= f = f a
err e >>= f = err e
panic >>= f = panic

-- An error of Manatee or of a function for files, as it is and as an `InfoError`.
abbrev pub answered : {A : Type 0} → A ⊎ Str → Result A
answered (inl a) = ok a
answered (inr e) = err (message e)

abbrev pub map_err : {A : Type 0} → (Failure → Failure) → Result A → Result A
map_err f (ok a) = ok a
map_err f (err e) = err (f e)
map_err f panic = panic

pub record FileMappedValue : Type 0 where
  pub value : Str
  pub path : Str
  pub file_exists : Bool
  pub last_modified : Option Str
  pub size : ℕ

pub record RegistryConf : Type 0 where
  pub paths : List FileMappedValue
  pub vertical : FileMappedValue
  pub encoding : Str
  pub subcorp_attrs : StrMap (List Str)

-- `Data`
pub record CorpusData : Type 0 where
  pub size : ℤ
  pub path : FileMappedValue
  pub manatee_error : Option Str

pub record Info : Type 0 where
  pub id : Str
  pub primary : CorpusData
  pub limited : Option CorpusData
  pub indexed_structs : List Str
  pub registry_conf : RegistryConf

-- The functions for files; times are formatted, and `is_file` answers beside its error.
pub record Files : Type 0 where
  pub path_join : List Str → Str
  pub path_clean : Str → Str
  pub path_exists : Str → Bool
  pub is_file : Str → Bool × Option Str
  pub is_dir : Str → Bool ⊎ Str
  pub get_file_mtime : Str → Str ⊎ Str
  pub file_size : Str → ℕ ⊎ Str

-- Manatee; `C` is an open corpus.
pub record Manatee (C : Type 0) : Type 0 where
  pub open_path : Str → C ⊎ Str
  pub corpus_size : C → ℕ ⊎ Str
  pub corpus_conf : C → Str → Str ⊎ Str

abbrev pub no_file : Str → Str → FileMappedValue
no_file value path = record {
  value = value;
  path = path;
  file_exists = false;
  last_modified = none;
  size = 0;
}

-- `strings.Contains(s, sub)`
unfoldable pub contains_str : Str → Str → Bool
contains_str [] sub = has_prefix [] sub
contains_str (c ∷ s) sub = has_prefix (c ∷ s) sub || contains_str s sub

abbrev pub open_error : (Str → Failure) → Str → Failure
open_error other e = if contains_str e (str "CorpInfoNotFound") then corpus_not_found else other e

-- The parts of one attribute of SUBCORPATTRS.
unfoldable pub add_subcorp_attr : List Str → StrMap (List Str) → Result (StrMap (List Str))
add_subcorp_attr [] m = panic
add_subcorp_attr (a ∷ []) m = panic
add_subcorp_attr (a ∷ b ∷ r) m = ok (insert a (or_else (lookup a m) [] ++ b ∷ []) m)

-- The loop over `strings.Split(attr1, ",")`, and the one over `strings.Split(subcorpAttrsString, "|")`.
unfoldable pub add_subcorp_attrs : List Str → StrMap (List Str) → Result (StrMap (List Str))
unfolding add_subcorp_attr
add_subcorp_attrs [] m = ok m
add_subcorp_attrs (a ∷ rest) m = add_subcorp_attr (split_on 46 a) m >>= add_subcorp_attrs rest

unfoldable pub add_subcorp_groups : List Str → StrMap (List Str) → Result (StrMap (List Str))
unfolding add_subcorp_attrs
add_subcorp_groups [] m = ok m
add_subcorp_groups (g ∷ gs) m = add_subcorp_attrs (split_on 44 g) m >>= add_subcorp_groups gs

unfoldable pub parse_subcorp_attrs : Str → Result (StrMap (List Str))
unfolding add_subcorp_groups
parse_subcorp_attrs [] = ok []
parse_subcorp_attrs (c ∷ s) = add_subcorp_groups (split_on 124 (c ∷ s)) []

-- `nil` for the empty text
unfoldable pub split_list : Str → List Str
split_list [] = []
split_list (c ∷ s) = split_on 44 (c ∷ s)

module _ (f : Files) where
  -- The body of `if isFile`.
  abbrev pub bind_file : Str → Str → Result FileMappedValue
  bind_file value path = do
    mtime ← answered (f.get_file_mtime path)
    size ← answered (f.file_size path)
    ok (record {
      value = value;
      path = path;
      file_exists = true;
      last_modified = some mtime;
      size = size;
    })

  abbrev pub bind_as : Str → Str → Bool × Option Str → Result FileMappedValue
  bind_as value path (b, some e) = err (message e)
  bind_as value path (b, none) = if b then bind_file value path else ok (no_file value path)

  unfoldable pub bind_value_to_path : Str → Str → Result FileMappedValue
  bind_value_to_path value path = bind_as value path (f.is_file path)

  -- `GetFirstValidRegistry`, over `RegistryDirPaths`.
  unfoldable pub get_first_valid_registry : List Str → Str → Str → Str
  get_first_valid_registry [] corpus sub_dir = []
  get_first_valid_registry (dir ∷ dirs) corpus sub_dir =
      let rest = get_first_valid_registry dirs corpus sub_dir in
      let d = f.path_join (dir ∷ sub_dir ∷ corpus ∷ []) in
      if f.path_exists d && (f.is_file d).0 then d else rest

module _ {C : Type 0} (f : Files) (m : Manatee C) where
  -- The data directory, in `getCorpusInfo`.
  abbrev pub data_path : C → Result FileMappedValue
  data_path c = map_err info_error (do
    path ← answered (m.corpus_conf c (str "PATH"))
    mtime ← answered (f.get_file_mtime (f.path_clean path))
    is_dir ← answered (f.is_dir (f.path_clean path))
    size ← answered (f.file_size (f.path_clean path))
    ok (record {
      value = f.path_clean path;
      path = [];
      file_exists = is_dir;
      last_modified = some mtime;
      size = size;
    }))

  abbrev pub data_as : C → ℕ ⊎ Str → Result CorpusData
  data_as c (inr e) = ok (record { size = negsuc 0; path = no_file [] []; manatee_error = some e })
  data_as c (inl n) =
      data_path c >>= λ p. ok (record { size = pos n; path = p; manatee_error = none })

  -- `getCorpusInfo`
  unfoldable pub get_corpus_data : C → Result CorpusData
  get_corpus_data c = data_as c (m.corpus_size c)

  abbrev pub opened : (Str → Failure) → C ⊎ Str → Result C
  opened other (inl c) = ok c
  opened other (inr e) = err (open_error other e)

  -- `openCorpus`
  unfoldable pub open_registry : Str → Result C
  unfolding contains_str
  open_registry path =
      opened (λ e. wrapped (str "Manatee failed to open " ++ path) (message e)) (m.open_path path)

  abbrev pub variant_data : Str → Result (C × CorpusData)
  variant_data path = do
    c ← map_err info_error (open_registry path)
    d ←
        map_err (λ e. info_error (wrapped (str "Failed to get info about " ++ path) e))
          (get_corpus_data c)
    ok (c, d)

  abbrev pub conf_of : C → Str → Result Str
  conf_of c prop = map_err info_error (answered (m.corpus_conf c prop))

  abbrev pub limited_data : List Str → Str → Bool → Result (Option CorpusData)
  limited_data dirs corpus false = ok none
  limited_data dirs corpus true =
      variant_data (get_first_valid_registry f dirs corpus (str "omezeni")) >>= λ (c, d).
      ok (some d)

  -- The items that are read from the registry.
  unfoldable pub read_registry : C → FileMappedValue → Result (List Str × RegistryConf)
  unfolding parse_subcorp_attrs split_list bind_value_to_path
  read_registry c registry = do
    encoding ← conf_of c (str "ENCODING")
    attrs_text ← conf_of c (str "SUBCORPATTRS")
    attrs ← parse_subcorp_attrs attrs_text
    structs ← conf_of c (str "STRUCTLIST")
    reg_vertical ← conf_of c (str "VERTICAL")
    vertical ← map_err info_error (bind_value_to_path f reg_vertical reg_vertical)
    ok (
      split_list structs,
      record {
        paths = registry ∷ [];
        vertical = vertical;
        encoding = encoding;
        subcorp_attrs = attrs;
      },
    )

  unfoldable pub get_corpus_info : List Str → Str → Bool → Result Info
  unfolding get_first_valid_registry bind_value_to_path open_registry get_corpus_data read_registry
  get_corpus_info dirs corpus try_limited =
      let path = get_first_valid_registry f dirs corpus [] in
      do
        registry ← map_err info_error (bind_value_to_path f path path)
        (c, primary) ← variant_data path
        limited ← limited_data dirs corpus try_limited
        (structs, conf) ← read_registry c registry
        ok (record {
          id = corpus;
          primary = primary;
          limited = limited;
          indexed_structs = structs;
          registry_conf = conf;
        })

  abbrev pub open_as : Str → Result C → Bool × Option Str → Result C
  open_as path rest (b, some e) = err (info_error (message e))
  open_as path rest (b, none) =
      if b then opened (λ e. corpus_error (message e)) (m.open_path path) else rest

  unfoldable pub open_corpus : List Str → Str → Result C
  unfolding contains_str
  open_corpus [] corpus = err corpus_not_found
  open_corpus (dir ∷ dirs) corpus =
      let rest = open_corpus dirs corpus in
      let path = f.path_join (dir ∷ corpus ∷ []) in open_as path rest (f.is_file path)

  unfoldable pub get_corpus_attrs : List Str → Str → Result (List Str)
  unfolding open_corpus split_list
  get_corpus_attrs dirs corpus = do
    c ← open_corpus dirs corpus
    attrs ← conf_of c (str "ATTRLIST")
    ok (split_list attrs)

-- What `LoadInfo` gives of the CNC database: that the corpus has a limited variant, or an error.
pub data Loaded : Type 0 where
  loaded : Bool → Loaded
  no_rows : Loaded
  load_failed : Str → Loaded

pub data Answer : Type 0 where
  responds : Info → Answer
  not_found : Answer
  internal_server_error : Answer
  crashes : Answer

unfoldable pub is_corpus_not_found : Failure → Bool
is_corpus_not_found corpus_not_found = true
is_corpus_not_found (message e) = false
is_corpus_not_found (info_error e) = false
is_corpus_not_found (corpus_error e) = false
is_corpus_not_found (wrapped s e) = false

abbrev pub info_answer : Result Info → Answer
info_answer (ok info) = responds info
info_answer (err e) = if is_corpus_not_found e then not_found else internal_server_error
info_answer panic = crashes

module _ {C : Type 0} (f : Files) (m : Manatee C) where
  -- The handler of the same name, in corpus/actions.go.
  unfoldable pub get_corpus_info_action : List Str → Str → Loaded → Answer
  unfolding get_corpus_info is_corpus_not_found
  get_corpus_info_action dirs corpus no_rows = not_found
  get_corpus_info_action dirs corpus (load_failed e) = internal_server_error
  get_corpus_info_action dirs corpus (loaded limited) =
      info_answer (get_corpus_info f m dirs corpus limited)
