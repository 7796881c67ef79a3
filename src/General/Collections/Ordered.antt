-- ===== src/General/Collections/Ordered.antt =====
-- What is in a set, and the order of `ToOrderedSlice`.
use cnc_masm.Prelude.{
  ◌≡◌, refl, Bool, true, false, ◌||◌, none, List, [], ◌∷◌, Str, str_eq, str_eq_sym, str_mem, lookup,
  insert, has_key, lookup-insert, HasDistinctKeys, insert-HasDistinctKeys, arith,
}
use cnc_masm.General.Collections.Set.{
  Set, str_ltb, contains, to_slice, add_all, new_set, union, insert_sorted, sort, to_ordered_slice,
}

str_ltb_total : (x y : Str) → str_eq x y ≡ false → str_ltb x y ≡ false → str_ltb y x ≡ true
unfolding str_ltb str_eq
str_ltb_total [] [] d l = cc
str_ltb_total [] (b ∷ y) d l = cc
str_ltb_total (a ∷ x) [] d l = refl
str_ltb_total (a ∷ x) (b ∷ y) d l = ground (arith, str_ltb_total x y)

-- Every element is less than the next.
abbrev pub IsAscending : List Str → Type 0
IsAscending [] = Unit {0}
IsAscending (x ∷ []) = Unit {0}
IsAscending (x ∷ y ∷ r) = (str_ltb x y ≡ true) × IsAscending (y ∷ r)

insert_sorted-IsAscending :
    (x : Str) (ys : List Str)
    → str_mem x ys ≡ false
    → IsAscending ys
    → IsAscending (insert_sorted x ys)
unfolding insert_sorted
insert_sorted-IsAscending x [] o s = tt
insert_sorted-IsAscending x (y ∷ []) o s = ground (arith, str_ltb_total x y)
insert_sorted-IsAscending x (y ∷ z ∷ r) o s =
    ground (arith, str_ltb_total x y, insert_sorted-IsAscending x (z ∷ r))

mem-insert_sorted :
    (v x : Str) (ys : List Str) → str_mem v (insert_sorted x ys) ≡ (str_eq v x || str_mem v ys)
unfolding insert_sorted
mem-insert_sorted v x [] = refl
mem-insert_sorted v x (y ∷ ys) = ground (arith, mem-insert_sorted v x ys)

mem-sort : (v : Str) (xs : List Str) → str_mem v (sort xs) ≡ str_mem v xs
unfolding sort
mem-sort v [] = refl
mem-sort v (x ∷ xs) = ground (arith, mem-insert_sorted v x (sort xs), mem-sort v xs)

mem-to_slice : (v : Str) (s : Set) → str_mem v (to_slice s) ≡ has_key v s
unfolding has_key lookup
mem-to_slice v [] = refl
mem-to_slice v ((k, b) ∷ s) = ground (arith, mem-to_slice v s, str_eq_sym v k)

absent_key : (k : Str) (s : Set) → lookup k s ≡ none → has_key k s ≡ false
unfolding has_key
absent_key k s e = rw e refl

sort-IsAscending : (s : Set) → HasDistinctKeys s → IsAscending (sort (to_slice s))
unfolding sort
sort-IsAscending [] d = tt
sort-IsAscending ((k, b) ∷ s) d =
    insert_sorted-IsAscending k (sort (to_slice s)) apart (sort-IsAscending s d.1)
  where
    apart : str_mem k (sort (to_slice s)) ≡ false
    apart = ground (arith, mem-sort k (to_slice s), mem-to_slice k s, absent_key k s d.0)

-- `ToOrderedSlice` of a set has the elements of the set, each once, in ascending order.
pub to_ordered_slice-IsAscending :
    (s : Set)
    → HasDistinctKeys s
    → IsAscending (to_ordered_slice s) × ((v : Str) → str_mem v (to_ordered_slice s) ≡ contains v s)
unfolding to_ordered_slice contains
to_ordered_slice-IsAscending s d =
    (sort-IsAscending s d, λ v. ground (arith, mem-sort v (to_slice s), mem-to_slice v s))

add_all-HasDistinctKeys :
    (vs : List Str) (s : Set) → HasDistinctKeys s → HasDistinctKeys (add_all vs s)
unfolding add_all
add_all-HasDistinctKeys [] s d = d
add_all-HasDistinctKeys (v ∷ vs) s d =
    add_all-HasDistinctKeys vs (insert v true s) (insert-HasDistinctKeys v true s d)

has_key-add_all :
    (v : Str) (vs : List Str) (s : Set) → has_key v (add_all vs s) ≡ (str_mem v vs || has_key v s)
unfolding add_all has_key
has_key-add_all v [] s = refl
has_key-add_all v (w ∷ vs) s =
    ground (arith, has_key-add_all v vs (insert w true s), lookup-insert w v true s, str_eq_sym v w)

no_key : (v : Str) → has_key {V = Bool} v [] ≡ false
unfolding has_key lookup
no_key v = refl

-- `Union` of any two sets has the elements of both, each once.
pub union_lem :
    (s other : Set)
    → HasDistinctKeys (union s other)
      × ((v : Str) → contains v (union s other) ≡ (contains v s || contains v other))
unfolding union contains
union_lem s other = (
  add_all-HasDistinctKeys (to_slice other) (add_all (to_slice s) [])
      (add_all-HasDistinctKeys (to_slice s) [] tt),
  λ v. ground (
    arith,
    has_key-add_all v (to_slice other) (add_all (to_slice s) []),
    has_key-add_all v (to_slice s) [],
    mem-to_slice v other,
    mem-to_slice v s,
    no_key v,
  ),
)

-- `NewSet` has the given elements.
pub new_set_lem : (vs : List Str) (v : Str) → contains v (new_set vs) ≡ str_mem v vs
unfolding contains new_set
new_set_lem vs v = ground (arith, has_key-add_all v vs [], no_key v)
