-- ===== src/Corpus/Info/Installed.antt =====
-- corpus/corpus.go and corpus/actions.go: when GetCorpusInfo returns, and what its errors are.
use cnc_masm.Prelude.{
  Bool, true, false, none, some, List, [], ◌∷◌, ◌++◌, Str, str, StrMap, split_on, ◌≡◌, ◌≢◌, refl,
}
use cnc_masm.Corpus.Info.{
  Failure, info_error, wrapped, Result, ok, err, panic, ◌>>=◌, answered, map_err, Files, Manatee,
  Info, FileMappedValue, add_subcorp_attr, add_subcorp_attrs, add_subcorp_groups,
  parse_subcorp_attrs, bind_value_to_path, get_first_valid_registry, get_corpus_data, open_registry,
  variant_data, limited_data, read_registry, get_corpus_info, conf_of, Loaded, no_rows, loaded,
  load_failed, not_found, get_corpus_info_action, info_answer, is_corpus_not_found,
}

-- A result whose error is an `InfoError`.
data AsInfo {A : Type 0} : Result A → Type 0 where
  as_ok : (a : A) → AsInfo (ok a)
  as_info : (e : Failure) → AsInfo (err (info_error e))
  as_panic : AsInfo panic

>>=-AsInfo :
    {A B : Type 0} {r : Result A} {k : A → Result B}
    → AsInfo r
    → ((a : A) → AsInfo (k a))
    → AsInfo (r >>= k)
>>=-AsInfo (as_ok a) next = next a
>>=-AsInfo (as_info e) next = as_info e
>>=-AsInfo as_panic next = as_panic

map_err-AsInfo :
    {A : Type 0} (g : Failure → Failure) (r : Result A) → AsInfo (map_err (λ e. info_error (g e)) r)
map_err-AsInfo g (ok a) = as_ok a
map_err-AsInfo g (err e) = as_info (g e)
map_err-AsInfo g panic = as_panic

add_attr-AsInfo : (parts : List Str) (m : StrMap (List Str)) → AsInfo (add_subcorp_attr parts m)
unfolding add_subcorp_attr
add_attr-AsInfo [] m = as_panic
add_attr-AsInfo (a ∷ []) m = as_panic
add_attr-AsInfo (a ∷ b ∷ r) m = as_ok _

add_attrs-AsInfo : (ps : List Str) (m : StrMap (List Str)) → AsInfo (add_subcorp_attrs ps m)
unfolding add_subcorp_attrs
add_attrs-AsInfo [] m = as_ok m
add_attrs-AsInfo (p ∷ ps) m = >>=-AsInfo (add_attr-AsInfo (split_on 46 p) m) (add_attrs-AsInfo ps)

add_groups-AsInfo : (gs : List Str) (m : StrMap (List Str)) → AsInfo (add_subcorp_groups gs m)
unfolding add_subcorp_groups
add_groups-AsInfo [] m = as_ok m
add_groups-AsInfo (g ∷ gs) m =
    >>=-AsInfo (add_attrs-AsInfo (split_on 44 g) m) (add_groups-AsInfo gs)

parse-AsInfo : (s : Str) → AsInfo (parse_subcorp_attrs s)
unfolding parse_subcorp_attrs
parse-AsInfo [] = as_ok []
parse-AsInfo (c ∷ s) = add_groups-AsInfo (split_on 124 (c ∷ s)) []

module _ {C : Type 0} (f : Files) (m : Manatee C) where
  variant_data-AsInfo : (path : Str) → AsInfo (variant_data f m path)
  variant_data-AsInfo path = >>=-AsInfo (map_err-AsInfo (λ e. e) (open_registry f m path)) λ c.
      >>=-AsInfo
        (map_err-AsInfo (wrapped (str "Failed to get info about " ++ path)) (get_corpus_data f m c))
        λ d. as_ok (c, d)

  limited_data-AsInfo :
      (dirs : List Str) (corpus : Str) (b : Bool) → AsInfo (limited_data f m dirs corpus b)
  limited_data-AsInfo dirs corpus false = as_ok none
  limited_data-AsInfo dirs corpus true =
      >>=-AsInfo (variant_data-AsInfo (get_first_valid_registry f dirs corpus (str "omezeni")))
        λ (c, d). as_ok (some d)

  conf_of-AsInfo : (c : C) (prop : Str) → AsInfo (conf_of f m c prop)
  conf_of-AsInfo c prop = map_err-AsInfo (λ e. e) (answered (m.corpus_conf c prop))

  read_registry-AsInfo : (c : C) (r : FileMappedValue) → AsInfo (read_registry f m c r)
  unfolding read_registry
  read_registry-AsInfo c r = >>=-AsInfo (conf_of-AsInfo c (str "ENCODING")) λ encoding.
      >>=-AsInfo (conf_of-AsInfo c (str "SUBCORPATTRS")) λ text.
        >>=-AsInfo (parse-AsInfo text) λ attrs.
          >>=-AsInfo (conf_of-AsInfo c (str "STRUCTLIST")) λ structs.
            >>=-AsInfo (conf_of-AsInfo c (str "VERTICAL")) λ v.
              >>=-AsInfo (map_err-AsInfo (λ e. e) (bind_value_to_path f v v)) λ vertical. as_ok _

  get_corpus_info-AsInfo :
      (dirs : List Str) (corpus : Str) (b : Bool) → AsInfo (get_corpus_info f m dirs corpus b)
  unfolding get_corpus_info
  get_corpus_info-AsInfo dirs corpus b =
      let path = get_first_valid_registry f dirs corpus [] in
      >>=-AsInfo (map_err-AsInfo (λ e. e) (bind_value_to_path f path path)) λ registry.
        >>=-AsInfo (variant_data-AsInfo path) λ (c, primary).
          >>=-AsInfo (limited_data-AsInfo dirs corpus b)
            λ limited. >>=-AsInfo (read_registry-AsInfo c registry) λ (structs, conf). as_ok _

  info_answer-not_found : {r : Result Info} → AsInfo r → info_answer r ≢ not_found
  unfolding is_corpus_not_found
  info_answer-not_found (as_ok a) e = cc
  info_answer-not_found (as_info e) h = cc
  info_answer-not_found as_panic e = cc

  -- GetCorpusInfo answers with 404 only if the database does not have the corpus: not for a corpus
  -- that is not installed, although it compares the error with CorpusNotFound.
  pub get_corpus_info_action-not_found :
      (dirs : List Str) (corpus : Str) (l : Loaded)
      → get_corpus_info_action f m dirs corpus l ≡ not_found
      → l ≡ no_rows
  unfolding get_corpus_info_action
  get_corpus_info_action-not_found dirs corpus no_rows h = refl
  get_corpus_info_action-not_found dirs corpus (load_failed e) h = absurd (cc)
  get_corpus_info_action-not_found dirs corpus (loaded b) h =
      absurd (info_answer-not_found (get_corpus_info-AsInfo dirs corpus b) h)
