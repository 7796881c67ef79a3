-- ===== src/LiveAttrs/Laconf/Patch.antt =====
-- The part of liveattrs/actions/main.go that patches configurations and looks for vertical files,
-- with FindVerticalFile of corpus/corpus.go.
use cnc_masm.Prelude.{
  ℕ, zero, suc, Bool, true, false, ◌||◌, Option, none, some, List, [], ◌∷◌, ◌++◌, Str, str, is_some,
  if◌then◌else◌, or_else,
}
use cnc_masm.Corpus.Info.{FileMappedValue}
use cnc_masm.LiveAttrs.Laconf.{
  Result, missing_vertical, message, ok, err, panic, ◌>>=◌, ℤ, pos, negsuc, Conf, CorpusInfo,
  NgramConf, VteConf, PatchArgs,
}

-- What vert-tagextract, the file system and the regular expression for InterCorp answer:
-- `NgramConf.IsZero`, `GetDefinedVerticals`, `HasConfiguredVertical`, `WithoutPasswords`, `fs.IsFile`;
-- whether a path exists, and its time and size or the error of asking; the group of a name of
-- InterCorp.
pub record Env : Type 0 where
  pub ngram_is_zero : NgramConf → Bool
  pub get_defined_verticals : VteConf → List Str
  pub has_configured_vertical : VteConf → Bool
  pub without_passwords : VteConf → VteConf
  pub is_file : Str → Bool
  pub path_exists : Str → Bool
  pub stat : Str → Result (Str × ℕ)
  pub intercorp_group : Str → Option Str
  pub path_join : List Str → Str

abbrev pub is_positive : ℤ → Bool
is_positive (pos zero) = false
is_positive (pos (suc n)) = true
is_positive (negsuc n) = false

abbrev pub has_columns : NgramConf → Bool
has_columns n = elim n.vert_columns [ [] ↦ false | c ∷ cs ↦ true ]

abbrev pub suffixes : List Str
suffixes =
    str ".tar.gz"
    ∷ str ".tar.bz2"
    ∷ str ".tgz"
    ∷ str ".tbz2"
    ∷ str ".7z"
    ∷ str ".gz"
    ∷ str ".zip"
    ∷ str ".tar"
    ∷ str ".rar"
    ∷ []
    ∷ []

abbrev pub found_file : Str → Str × ℕ → FileMappedValue
found_file full (time, size) = record {
  value = full;
  path = full;
  file_exists = true;
  last_modified = some time;
  size = size;
}

abbrev pub use_found : VteConf → FileMappedValue → Result VteConf
use_found c v =
    if v.file_exists then ok (record c { vertical_file = v.path }) else err missing_vertical

module _ (env : Env) where
  unfoldable pub patch_ngrams : Option NgramConf → VteConf → Result VteConf
  patch_ngrams none c = ok c
  patch_ngrams (some n) c =
      if env.ngram_is_zero n
      then ok (record c { ngrams = n })
      else if has_columns n
      then (if is_positive n.ngram_size
          then ok (record c { ngrams = n })
          else err (message (str "invalid n-gram size")))
      else if is_positive n.ngram_size
      then err (message (str "missing columns to extract n-grams from"))
      else ok c

  -- The items after the n-grams.
  unfoldable pub patch_items : PatchArgs → VteConf → VteConf
  patch_items args c = record c {
    vertical_file = elim args.vertical_files [ none ↦ c.vertical_file | some v ↦ [] ];
    vertical_files = or_else args.vertical_files c.vertical_files;
    atom_structure = or_else args.atom_structure c.atom_structure;
    bib_view = or_else args.bib_view c.bib_view;
    max_num_errors = or_else args.max_num_errors c.max_num_errors;
    self_join = or_else args.self_join c.self_join;
  }

  -- `applyPatchArgs`: an error comes before the first write.
  unfoldable pub apply_patch_args : PatchArgs → VteConf → Result VteConf
  unfolding patch_ngrams patch_items
  apply_patch_args args c = patch_ngrams args.ngrams c >>= λ c'. ok (patch_items args c')

  -- The arguments make `applyPatchArgs` write to its target.
  unfoldable pub writes : PatchArgs → Bool
  writes args =
      (elim args.ngrams [ none ↦ false | some n ↦ env.ngram_is_zero n || has_columns n ])
      || (is_some args.vertical_files
          || (is_some args.atom_structure
              || (is_some args.bib_view
                  || (is_some args.max_num_errors || is_some args.self_join))))

  unfoldable pub try_suffixes : Str → List Str → Result FileMappedValue
  try_suffixes base [] =
      ok (record { value = base; path = []; file_exists = false; last_modified = none; size = 0 })
  try_suffixes base (suff ∷ suffs) =
      let rest = try_suffixes base suffs in
      let full = base ++ suff in
      if env.path_exists full then (env.stat full >>= λ s. ok (found_file full s)) else rest

  unfoldable pub vertical_base : Str → Str → Str
  vertical_base base_path corpus = elim (env.intercorp_group corpus) [
    | some group ↦ env.path_join (base_path ∷ group ∷ corpus ∷ [])
    | none ↦ env.path_join (base_path ∷ corpus ∷ str "vertikala" ∷ [])
  ]

  unfoldable pub find_vertical_file : Str → Str → Result FileMappedValue
  unfolding try_suffixes vertical_base
  find_vertical_file [] corpus = panic
  find_vertical_file (b ∷ base_path) corpus =
      try_suffixes (vertical_base (b ∷ base_path) corpus) suffixes

  -- The loop over the verticals that are defined.
  unfoldable pub check_verticals : List Str → Result (Unit {0})
  check_verticals [] = ok tt
  check_verticals (v ∷ vs) =
      let rest = check_verticals vs in
      if env.is_file v then rest else err (message (str "defined vertical not found: " ++ v))

  unfoldable pub infer_vertical : Conf → CorpusInfo → VteConf → Result VteConf
  unfolding find_vertical_file
  infer_vertical conf info c =
      if info.vertical_exists
      then ok (record c { vertical_file = info.vertical_path })
      else find_vertical_file conf.vertical_files_dir_path info.id >>= use_found c

  abbrev pub ensure_with : Conf → CorpusInfo → VteConf → List Str → Result VteConf
  ensure_with conf info c [] = infer_vertical conf info c
  ensure_with conf info c (v ∷ vs) = check_verticals (v ∷ vs) >>= λ done. ok c

  -- `ensureVerticalFile`
  unfoldable pub ensure_vertical_file : Conf → CorpusInfo → VteConf → Result VteConf
  unfolding check_verticals infer_vertical
  ensure_vertical_file conf info c = ensure_with conf info c (env.get_defined_verticals c)
