-- ===== src/LiveAttrs/Laconf/Handlers.antt =====
-- liveattrs/actions/conf.go, and Create of data.go up to its job: the handlers of configurations.
-- A handler gives the provider and the answers that it writes, in order; `none` is a panic.
pub mod Patching
pub mod Answers
use cnc_masm.Prelude.{
  ℕ, suc, Bool, true, false, not, ◌&&◌, ◌||◌, Option, none, some, List, [], ◌∷◌, ◌++◌, Str, str,
  str_eq, map, length, get_elem?, set, if◌then◌else◌, or_else, ◌==◌,
}
use cnc_masm.LiveAttrs.Sql.Adhoc.{DbInfo}
use cnc_masm.LiveAttrs.Ngrams.{QsAttributes, get_col_indexes}
use cnc_masm.LiveAttrs.Laconf.{
  Error, Result, no_such_config, missing_vertical, message, wrapped, ok, err, panic, ◌>>=◌, pos,
  Conf, CorpusInfo, NgramConf, VertColumn, VteConf, PatchArgs, create,
}
use cnc_masm.LiveAttrs.Laconf.Provider.{
  Files, LiveAttrsBuildConfProvider, get, get_without_passwords, get_uncached_without_passwords,
  save, clear, uncache,
}
use cnc_masm.LiveAttrs.Laconf.Patch.{Env, apply_patch_args, writes, ensure_vertical_file}

pub data Reply : Type 0 where
  error_reply : Error → Reply
  no_error : Reply
  conf_reply : VteConf → Reply
  null_reply : Reply
  ok_reply : Reply

pub record Response : Type 0 where
  pub status : ℕ
  pub body : Reply

abbrev pub respond : ℕ → Reply → Response
respond status body = record { status = status; body = body }

abbrev pub Handled : Type 0 → Type 0
Handled D = LiveAttrsBuildConfProvider D × Option (List Response)

abbrev pub failing : {D : Type 0} → LiveAttrsBuildConfProvider D → ℕ → Error → Handled D
failing p status e = (p, some (respond status (error_reply e) ∷ []))

abbrev pub is_no_such_config : Error → Bool
is_no_such_config no_such_config = true
is_no_such_config missing_vertical = false
is_no_such_config (message m) = false
is_no_such_config (wrapped m e) = false

abbrev pub is_missing_vertical : Error → Bool
is_missing_vertical missing_vertical = true
is_missing_vertical no_such_config = false
is_missing_vertical (message m) = false
is_missing_vertical (wrapped m e) = false

-- `fmt.Errorf` with `%w`
abbrev pub wrap : {A : Type 0} → Str → Result A → Result A
wrap m (ok a) = ok a
wrap m (err e) = err (wrapped m e)
wrap m panic = panic

-- Known tagsets, and the empty value.
unfoldable pub is_supported : Str → Bool
is_supported t =
    str_eq t (str "cs_cnc2000_spk")
    || (str_eq t (str "cs_cnc2000") || (str_eq t (str "cs_cnc2020") || str_eq t []))

unfoldable pub get_first_supported_tagset : List Str → Str
get_first_supported_tagset [] = []
get_first_supported_tagset (v ∷ vs) =
    let rest = get_first_supported_tagset vs in if is_supported v then v else rest

abbrev pub set_column : Str → ℕ → QsAttributes → QsAttributes
set_column name i q =
    if str_eq name (str "word")
    then record q { word = i }
    else if str_eq name (str "sublemma")
    then record q { sublemma = i }
    else if str_eq name (str "lemma")
    then record q { lemma = i }
    else if str_eq name (str "tag")
    then record q { tag = i }
    else q

-- The loop of `InferQSAttrMapping` over the positional attributes, each with its name and its property
-- DYNAMIC; `i` counts those that are not dynamic.
unfoldable pub infer_columns : ℕ → List (Str × Str) → QsAttributes → QsAttributes
infer_columns i [] q = q
infer_columns i ((name, []) ∷ attrs) q = infer_columns (suc i) attrs (set_column name i q)
infer_columns i ((name, b ∷ dynamic) ∷ attrs) q = infer_columns i attrs q

abbrev pub no_columns : QsAttributes
no_columns = record { word = 0; sublemma = 0; lemma = 0; tag = 0 }

unfoldable pub infer_qs_attr_mapping : Result (List (Str × Str)) → Result QsAttributes
unfolding infer_columns
infer_qs_attr_mapping doc = wrap (str "failed to infer qs attribute mapping: ") doc >>= λ attrs.
    ok (infer_columns 0 attrs no_columns)

abbrev pub column : ℕ → VertColumn
column i = record { idx = i; role = [] }

-- The n-gram arguments with the inferred columns in place of those that are there.
unfoldable pub with_columns : List ℕ → PatchArgs → PatchArgs
with_columns idxs args = record args {
  ngrams = some (record { ngram_size = pos 1; vert_columns = map column idxs });
}

-- `GetCorpusInfo` and `LoadInfo` of the corpus, the stored tagsets and the positional attributes of
-- its registry file, and the body of the request.
pub record Request : Type 0 where
  pub corpus_id : Str
  pub corpus_info : Result CorpusInfo
  pub db_info : Result DbInfo
  pub tagsets : Result (List Str)
  pub registry : Result (List (Str × Str))
  pub json_args : Result PatchArgs
  pub partial_args : PatchArgs

-- The columns of `auto-kontext-setup`; the error for an unknown tagset is nil.
unfoldable pub infer_args : Request → PatchArgs → Result (Option PatchArgs)
unfolding get_first_supported_tagset infer_qs_attr_mapping with_columns
infer_args r args = r.tagsets >>= λ sets. elim (get_first_supported_tagset sets) [
  | [] ↦ ok none
  | b ∷ tagset ↦
      infer_qs_attr_mapping r.registry >>= λ q. ok (some (with_columns (get_col_indexes q) args))
]

module _ {D : Type 0} (env : Env) (f : Files D) (conf : Conf) where
  -- `a.createConf`
  unfoldable pub create_conf : Request → PatchArgs → Result VteConf
  unfolding apply_patch_args ensure_vertical_file
  create_conf r args = r.corpus_info >>= λ info. r.db_info >>= λ db_info.
      create env.path_join conf info db_info args >>= λ c.
      wrap (str "failed to create conf: ")
        (apply_patch_args env args c >>= ensure_vertical_file env conf info)

  abbrev pub viewed : LiveAttrsBuildConfProvider D × Result VteConf → Handled D
  viewed (p, ok c) = (p, some (respond 200 (conf_reply c) ∷ []))
  viewed (p, err e) =
      if is_no_such_config e
      then (p, some (respond 404 (error_reply e) ∷ respond 200 null_reply ∷ []))
      else failing p 400 e
  viewed (p, panic) = (p, none)

  -- `ViewConf`: the 404 is followed by an answer with null.
  unfoldable pub view_conf : Bool → Request → LiveAttrsBuildConfProvider D → Handled D
  view_conf no_cache r p =
      if no_cache
      then viewed
          (get_uncached_without_passwords env.path_join f env.without_passwords r.corpus_id p)
      else viewed (get_without_passwords env.path_join f env.without_passwords r.corpus_id p)

  -- A pointer to a new configuration.
  abbrev pub allocated : VteConf → LiveAttrsBuildConfProvider D → LiveAttrsBuildConfProvider D
  allocated c p = record p { heap = p.heap ++ c ∷ [] }

  abbrev pub conf_at : ℕ → LiveAttrsBuildConfProvider D → List Response
  conf_at a p = elim (get_elem? p.heap a) [
    | none ↦ []
    | some c ↦ respond 200 (conf_reply (env.without_passwords c)) ∷ []
  ]

  abbrev pub after_save :
      List Response → ℕ → LiveAttrsBuildConfProvider D × Result (Unit {0}) → Handled D
  after_save before a (p, ok u) = (p, some (before ++ conf_at a p))
  after_save before a (p, err e) = (p, some (before ++ respond 400 (error_reply e) ∷ []))
  after_save before a (p, panic) = (p, none)

  abbrev pub after_clear :
      List Response → VteConf → LiveAttrsBuildConfProvider D × Result (Unit {0}) → Handled D
  after_clear before c (p, ok u) =
      after_save before (length p.heap)
        (save env.path_join f (some (length p.heap)) (allocated c p))
  after_clear before c (p, err e) = (p, some (before ++ respond 400 (error_reply e) ∷ []))
  after_clear before c (p, panic) = (p, none)

  abbrev pub store_created :
      List Response → Str → LiveAttrsBuildConfProvider D → Result VteConf → Handled D
  store_created before corpus p (ok c) = after_clear before c (clear env.path_join f corpus p)
  store_created before corpus p (err e) = (
    p,
    some (before ++ respond (if is_missing_vertical e then 409 else 400) (error_reply e) ∷ []),
  )
  store_created before corpus p panic = (p, none)

  abbrev pub create_decoded : Request → LiveAttrsBuildConfProvider D → Result PatchArgs → Handled D
  create_decoded r p (ok args) = store_created [] r.corpus_id p (create_conf r args)
  create_decoded r p (err e) =
      store_created (respond 400 (error_reply e) ∷ []) r.corpus_id p (create_conf r r.partial_args)
  create_decoded r p panic = (p, none)

  -- `CreateConf`. It goes on after the answer to arguments that cannot be decoded, with what was
  -- decoded.
  unfoldable pub create_conf_action : Request → LiveAttrsBuildConfProvider D → Handled D
  unfolding create_conf
  create_conf_action r p = create_decoded r p r.json_args

  unfoldable pub flush_cache : Request → LiveAttrsBuildConfProvider D → Handled D
  unfolding uncache
  flush_cache r p =
      let (p', there) = uncache r.corpus_id p in
      if there
      then (p', some (respond 200 ok_reply ∷ []))
      else failing p' 404 (message (str "config not in cache"))
