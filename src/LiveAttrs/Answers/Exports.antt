-- ===== src/LiveAttrs/Answers/Exports.antt =====
-- What an export shows of a listing.
use cnc_masm.Prelude.{
  ℕ, suc, ◌+◌, ◌≤◌, ◌≡◌, refl, sym, ap, ◌∙◌, true, false, Option, none, some, List, [], ◌∷◌, Str,
  str_eq, str_eq_iff, str_mem, StrMap, lookup, arith, subst, Bool-cases, inl, inr, ◌⊎◌, length,
}
use cnc_masm.General.Collections.Set.{str_ltb}
use cnc_masm.LiveAttrs.Answers.{
  ListedValue, Column, listed, number, summarized, sort_labels, insert_label, export_column,
  export_attr_values, is_listed,
}
use cnc_masm.LiveAttrs.Answers.Listings.{positions}

str_ltb_asym : (x y : Str) → str_ltb x y ≡ true → str_ltb y x ≡ false
unfolding str_ltb
str_ltb_asym [] [] h = refl
str_ltb_asym [] (b ∷ y) h = refl
str_ltb_asym (a ∷ x) [] h = ground (arith, h)
str_ltb_asym (a ∷ x) (b ∷ y) h = ground (arith, h, str_ltb_asym x y)

-- No label comes before the one in front of it.
abbrev pub HasSortedLabels : List ListedValue → Type 0
HasSortedLabels [] = Unit {0}
HasSortedLabels (v ∷ []) = Unit {0}
HasSortedLabels (v ∷ w ∷ l) = (str_ltb w.label v.label ≡ false) × HasSortedLabels (w ∷ l)

insert_label-HasSortedLabels :
    (v : ListedValue) (l : List ListedValue)
    → HasSortedLabels l
    → HasSortedLabels (insert_label v l)
unfolding insert_label
insert_label-HasSortedLabels v [] h = tt
insert_label-HasSortedLabels v (w ∷ []) h = ground (arith, str_ltb_asym w.label v.label)
insert_label-HasSortedLabels v (w ∷ x ∷ l) h =
    ground (arith, h, str_ltb_asym w.label v.label, insert_label-HasSortedLabels v (x ∷ l) h.1)

insert_label-positions :
    (v : ListedValue) (l : List ListedValue)
    → (positions (insert_label v l) ≡ v.count + positions l)
      × (length (insert_label v l) ≡ suc (length l))
unfolding insert_label
insert_label-positions v [] = (refl, refl)
insert_label-positions v (w ∷ l) = ground (arith, insert_label-positions v l)

sort_labels-HasSortedLabels : (l : List ListedValue) → HasSortedLabels (sort_labels l)
unfolding sort_labels
sort_labels-HasSortedLabels [] = tt
sort_labels-HasSortedLabels (v ∷ l) =
    insert_label-HasSortedLabels v (sort_labels l) (sort_labels-HasSortedLabels l)

sort_labels-positions :
    (l : List ListedValue)
    → (positions (sort_labels l) ≡ positions l) × (length (sort_labels l) ≡ length l)
unfolding sort_labels
sort_labels-positions [] = (refl, refl)
sort_labels-positions (v ∷ l) =
    let (p, n) = insert_label-positions v (sort_labels l) in
    let (q, m) = sort_labels-positions l in (omega (arith, p, q), omega (arith, n, m))

-- An exported listing: the values sorted by their labels, if there are fewer of them than the limit,
-- there is none, or the attribute is expanded; and otherwise their number.
abbrev pub Shows : List Str → ℕ → Str → List ListedValue → Column → Type 0
Shows expand max k l (listed r) =
    HasSortedLabels r
    × (positions r ≡ positions l)
    × (length r ≡ length l)
    × ((max ≡ 0) ⊎ ((suc (length r) ≤ max) ⊎ (str_mem k expand ≡ true)))
Shows expand max k l (number n) = 1 ≤ 0
Shows expand max k l (summarized n) =
    (n ≡ length l) × (1 ≤ max) × (max ≤ n) × (str_mem k expand ≡ false)

why_listed :
    (expand : List Str) (max : ℕ) (k : Str) (l : List ListedValue)
    → is_listed expand max k l ≡ true
    → (max ≡ 0) ⊎ ((suc (length l) ≤ max) ⊎ (str_mem k expand ≡ true))
unfolding is_listed
why_listed expand max k l e = ground (arith, e)

why_summarized :
    (expand : List Str) (max : ℕ) (k : Str) (l : List ListedValue)
    → is_listed expand max k l ≡ false
    → (1 ≤ max) × (max ≤ length l) × (str_mem k expand ≡ false)
unfolding is_listed
why_summarized expand max k l e = ground (arith, e)

export_column-Shows :
    (expand : List Str) (max : ℕ) (k : Str) (l : List ListedValue)
    → Shows expand max k l (export_column expand max k (listed l))
unfolding export_column is_listed
export_column-Shows expand max k l = elim (Bool-cases (is_listed expand max k l)) [
  | inl e ↦ rw e (
    sort_labels-HasSortedLabels l,
    (sort_labels-positions l).0,
    (sort_labels-positions l).1,
    subst (λ n. (max ≡ 0) ⊎ ((suc n ≤ max) ⊎ (str_mem k expand ≡ true)))
        (sym (sort_labels-positions l).1) (why_listed expand max k l e),
  )
  | inr e ↦ let (a, b, c) = why_summarized expand max k l e in rw e (refl, a, b, c)
]

abbrev exported : List Str → ℕ → Str → Option Column → Option Column
exported expand max k none = none
exported expand max k (some v) = some (export_column expand max k v)

lookup-export :
    (expand : List Str) (max : ℕ) (k : Str) (m : StrMap Column)
    → lookup k (export_attr_values expand max m) ≡ exported expand max k (lookup k m)
unfolding lookup export_attr_values
lookup-export expand max k [] = refl
lookup-export expand max k ((j, w) ∷ m) = elim (Bool-cases (str_eq j k)) [
  | inl e ↦ rw (e, (str_eq_iff j k).0 e) refl
  | inr e ↦ rw e (lookup-export expand max k m)
]

-- The export of a listing is the values sorted by their labels, with the same positions altogether,
-- if there are fewer of them than the limit, the limit is 0, or the attribute is to be expanded;
-- otherwise it is their number, which is not under the limit.
pub export_attr_values-Shows :
    (expand : List Str) (max : ℕ) (k : Str) (l : List ListedValue) (m : StrMap Column)
    → lookup k m ≡ some (listed l)
    → (v : Column) × (lookup k (export_attr_values expand max m) ≡ some v) × Shows expand max k l v
export_attr_values-Shows expand max k l m h = (
  export_column expand max k (listed l),
  lookup-export expand max k m ∙ ap (exported expand max k) h,
  export_column-Shows expand max k l,
)
