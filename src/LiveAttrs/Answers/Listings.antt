-- ===== src/LiveAttrs/Answers/Listings.antt =====
-- The listings of an answer: what is moved to them, and what an export shows of them.
use cnc_masm.Prelude.{
  ℕ, ◌+◌, ◌≡◌, refl, ap, ◌∙◌, true, false, Option, none, some, List, [], ◌∷◌, ◌++◌, Str, str_eq,
  str_eq_iff, str_eq_refl, str_eq_sym, str_mem, StrMap, lookup, insert, lookup-insert,
  if◌then◌else◌, is_some, arith, subst, Bool-cases, inl, inr, ◌⊎◌,
}
use cnc_masm.LiveAttrs.Answers.{
  ListedValue, Column, listed, number, summarized, ResultRow, Collected, add_rows, add_listed_value,
  add_all_values, move_values, start, listings, to_listing, empty_listings,
}
use cnc_masm.LiveAttrs.Answers.Totals.{
  value_total, col_total, rows_weight, all_positions, IsListings, add_rows-Adds,
}

-- The positions of a listing.
abbrev pub positions : List ListedValue → ℕ
positions [] = 0
positions (v ∷ l) = v.count + positions l

positions-append : (l r : List ListedValue) → positions (l ++ r) ≡ positions l + positions r
positions-append [] r = omega arith
positions-append (v ∷ l) r = omega (arith, positions-append l r)

-- The column `k` has a listing of `n` positions.
abbrev pub HasListing : Str → ℕ → StrMap Column → Type 0
HasListing k n m = (l : List ListedValue) × (lookup k m ≡ some (listed l)) × (positions l ≡ n)

-- One more value of `attr`, in terms of the column that there is.
add_listed-other :
    (k attr : Str) (v : ListedValue) (o : Option Column) (m : StrMap Column)
    → str_eq attr k ≡ false
    → lookup k (to_listing attr v o m) ≡ lookup k m
add_listed-other k attr v none m d = refl
add_listed-other k attr v (some (listed l)) m d =
    lookup-insert attr k (listed (l ++ v ∷ [])) m
    ∙ ap (λ b. if b then some (listed (l ++ v ∷ [])) else lookup k m) d
add_listed-other k attr v (some (number n)) m d = refl
add_listed-other k attr v (some (summarized n)) m d = refl

add_listed-same :
    (k : Str) (v : ListedValue) (l : List ListedValue) (m : StrMap Column)
    → lookup k m ≡ some (listed l)
    → lookup k (add_listed_value k v m) ≡ some (listed (l ++ v ∷ []))
unfolding add_listed_value
add_listed-same k v l m e =
    ap (λ o. lookup k (to_listing k v o m)) e
    ∙ lookup-insert k k (listed (l ++ v ∷ [])) m
    ∙ ap (λ b. if b then some (listed (l ++ v ∷ [])) else lookup k m) (str_eq_refl k)

add_listed-HasListing :
    (k attr : Str) (v : ListedValue) (n : ℕ) (m : StrMap Column)
    → HasListing k n m
    → HasListing k (n + (if str_eq attr k then v.count else 0)) (add_listed_value attr v m)
unfolding add_listed_value
add_listed-HasListing k attr v n m (l, e, p) = elim (Bool-cases (str_eq attr k)) [
  | inl same ↦ rw same (
    l ++ v ∷ [],
    ap (λ j. lookup k (add_listed_value j v m)) ((str_eq_iff attr k).0 same)
        ∙ add_listed-same k v l m e,
    omega (arith, p, positions-append l (v ∷ [])),
  )
  | inr other ↦
      rw other (l, add_listed-other k attr v (lookup attr m) m other ∙ e, omega (arith, p))
]

add_all-HasListing :
    (k attr : Str) (vs : StrMap ListedValue) (n : ℕ) (m : StrMap Column)
    → HasListing k n m
    → HasListing k (n + (if str_eq attr k then value_total vs else 0)) (add_all_values attr vs m)
unfolding add_all_values
add_all-HasListing k attr [] n m h = subst (λ i. HasListing k i m) (ground arith) h
add_all-HasListing k attr ((i, c) ∷ vs) n m h =
    subst (λ j. HasListing k j (add_all_values attr vs (add_listed_value attr c m))) (ground arith)
      (add_all-HasListing k attr vs _ (add_listed_value attr c m)
        (add_listed-HasListing k attr c n m h))

move-HasListing :
    (k : Str) (tmp : StrMap (StrMap ListedValue)) (n : ℕ) (m : StrMap Column)
    → HasListing k n m
    → HasListing k (n + col_total k tmp) (move_values tmp m)
unfolding move_values
move-HasListing k [] n m h = subst (λ i. HasListing k i m) (omega arith) h
move-HasListing k ((attr, vs) ∷ tmp) n m h =
    subst (λ j. HasListing k j (move_values tmp (add_all_values attr vs m))) (omega arith)
      (move-HasListing k tmp _ (add_all_values attr vs m) (add_all-HasListing k attr vs n m h))

insert-IsListings :
    (k : Str) (l : List ListedValue) (m : StrMap Column)
    → IsListings m
    → IsListings (insert k (listed l) m)
unfolding insert
insert-IsListings k l [] h = (refl, tt)
insert-IsListings k l ((j, v) ∷ m) (h, hs) = elim (Bool-cases (str_eq j k)) [
  | inl e ↦ rw e (refl, hs)
  | inr e ↦ rw e (h, insert-IsListings k l m hs)
]

empty-IsListings :
    (attrs : List Str) (m : StrMap Column) → IsListings m → IsListings (empty_listings attrs m)
empty-IsListings [] m h = h
empty-IsListings (a ∷ attrs) m h =
    empty-IsListings attrs (insert a (listed []) m) (insert-IsListings a [] m h)

empty-step :
    (k a : Str) (attrs : List Str) (m : StrMap Column)
    → (str_mem k (a ∷ attrs) ≡ true) ⊎ (lookup k m ≡ some (listed []))
    → (str_mem k attrs ≡ true) ⊎ (lookup k (insert a (listed []) m) ≡ some (listed []))
empty-step k a attrs m h = ground (arith, h, lookup-insert a k (listed []) m, str_eq_sym a k)

empty-lookup :
    (k : Str) (attrs : List Str) (m : StrMap Column)
    → (str_mem k attrs ≡ true) ⊎ (lookup k m ≡ some (listed []))
    → lookup k (empty_listings attrs m) ≡ some (listed [])
empty-lookup k [] m (inl h) = ground (arith, h)
empty-lookup k [] m (inr h) = h
empty-lookup k (a ∷ attrs) m h =
    empty-lookup k attrs (insert a (listed []) m) (empty-step k a attrs m h)

-- When all the rows are read into an answer for the attributes, there is no error, the answer has the
-- positions of all the rows, and the values listed for each of the attributes have together the
-- positions of the rows that have a value for it.
pub listings-total :
    (bib_label bib_id : Str) (attrs : List Str) (rows : List ResultRow) (k : Str)
    → str_mem k attrs ≡ true
    → (c : Collected) × (add_rows bib_label bib_id rows (start attrs) ≡ some c)
      × (c.poscount ≡ all_positions rows)
      × HasListing k (rows_weight k rows) (listings c)
listings-total bib_label bib_id attrs rows k h =
    let at = empty-lookup k attrs [] (inl h) in
    let (c, e, a, t, p) =
      add_rows-Adds bib_label bib_id k rows (start attrs) (empty-IsListings attrs [] tt)
        (ap is_some at) in
    (
      c,
      e,
      omega (arith, p),
      subst (λ n. HasListing k n (listings c)) (omega (arith, t))
          (move-HasListing k c.tmp_ans 0 c.attr_values ([], ap (lookup k) a ∙ at, refl)),
    )
