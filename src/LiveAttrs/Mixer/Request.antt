-- ===== src/LiveAttrs/Mixer/Request.antt =====
-- liveattrs/actions/subcmixer.go: the categories of a request. The loop over the grouped ratios takes
-- the groups in an arbitrary order, which is that of the list here.
use cnc_masm.Prelude.{
  ℕ, suc, ◌&&◌, not, Option, none, some, List, [], ◌∷◌, ◌++◌, Str, str, str_eq, StrMap,
  if◌then◌else◌, length, ◌+◌, ◌==◌, ◌⊎◌, inl, inr,
}
use cnc_masm.General.Collections.Multidict
use cnc_masm.LiveAttrs.Mixer.Expressions.{
  CategoryExpression, atom, zero_expression, new_category_expression,
}
use cnc_masm.LiveAttrs.Mixer.Categories.{TaskArgs}

pub record SubcmixerRatio (F : Type 0) : Type 0 where
  pub attr_name : Str
  pub attr_value : Str
  pub ratio : F

-- `strings.Split(name, ".")[0]`
abbrev pub structure_of : Str → Str
structure_of [] = []
structure_of (b ∷ s) = let rest = structure_of s in if b == 46 then [] else b ∷ rest

abbrev pub validate_from : {F : Type 0} → Str → List (SubcmixerRatio F) → Option Str
validate_from curr [] = none
validate_from curr (tt_ ∷ rest) =
    let strc = structure_of tt_.attr_name in
    let others = validate_from strc rest in
    if not (str_eq curr []) && not (str_eq curr strc)
    then some
        (str "the ratio rules for subcmixer may contain only attributes of a single structure")
    else others

-- The error, if there is one.
unfoldable pub validate : {F : Type 0} → List (SubcmixerRatio F) → Option Str
validate text_types = validate_from [] text_types

-- The categories, or an error.
abbrev pub Made : Type 0 → Type 0
Made F = List (TaskArgs F) ⊎ Str

abbrev pub joined_made : {F : Type 0} → Made F → Made F → Made F
joined_made (inl xs) (inl ys) = inl (xs ++ ys)
joined_made (inl xs) (inr e) = inr e
joined_made (inr e) ys = inr e

abbrev pub after_level : {F : Type 0} → Made F → (List (TaskArgs F) → Made F) → Made F
after_level (inl tmp) f = f tmp
after_level (inr e) f = inr e

module _ {F : Type 0} (one : F) (percent : F → F) where
  abbrev pub grouped_from :
      StrMap (List (SubcmixerRatio F)) → List (SubcmixerRatio F) → StrMap (List (SubcmixerRatio F))
  grouped_from md [] = md
  grouped_from md (item ∷ rest) = grouped_from (Multidict.add item.attr_name item md) rest

  abbrev pub and_category : ℕ → ℕ → F → CategoryExpression × Option Str → Made F → Made F
  and_category id parent ratio (sm, none) (inl rest) = inl (
      record { node_id = id; parent_id = some parent; ratio = percent ratio; expression = atom sm }
      ∷ rest)
  and_category id parent ratio (sm, none) (inr e) = inr e
  and_category id parent ratio (sm, some e) rest = inr e

  -- The categories below one of the last level, numbered from `counter`.
  unfoldable pub below_one : ℕ → ℕ → List (SubcmixerRatio F) → Made F
  unfolding new_category_expression
  below_one counter parent [] = inl []
  below_one counter parent (item ∷ items) =
      and_category counter parent item.ratio
        (new_category_expression item.attr_name (str "==") item.attr_value)
        (below_one (suc counter) parent items)

  unfoldable pub next_level : ℕ → List (TaskArgs F) → List (SubcmixerRatio F) → Made F
  unfolding below_one
  next_level counter [] expressions = inl []
  next_level counter (pg ∷ prev) expressions =
      joined_made (below_one counter pg.node_id expressions)
        (next_level (counter + length expressions) prev expressions)

  abbrev pub root_category : TaskArgs F
  root_category = record {
    node_id = 0;
    parent_id = none;
    ratio = one;
    expression = atom zero_expression;
  }

  -- The rounds of `ForEach`: a level, and the levels below it.
  unfoldable pub levels : ℕ → List (TaskArgs F) → StrMap (List (SubcmixerRatio F)) → Made F
  unfolding next_level
  levels counter prev [] = inl []
  levels counter prev ((k, expressions) ∷ groups) =
      after_level (next_level counter prev expressions)
        (λ tmp. joined_made (inl tmp) (levels (counter + length tmp) tmp groups))

  unfoldable pub import_task_args : List (SubcmixerRatio F) → Made F
  unfolding levels
  import_task_args text_types =
      joined_made (inl (root_category ∷ []))
        (levels 1 (root_category ∷ []) (grouped_from [] text_types))
