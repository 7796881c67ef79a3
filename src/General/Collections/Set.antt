-- ===== src/General/Collections/Set.antt =====
-- general/collections/set.go with strings for elements. A method that changes a set returns the
-- new one.
use cnc_masm.Prelude.{
  Bool, true, false, List, [], ◌∷◌, map, Str, StrMap, insert, delete, has_key, if◌then◌else◌, ltb,
  ◌==◌,
}

abbrev pub Set : Type 0
Set = StrMap Bool

-- `<` on strings
unfoldable pub str_ltb : Str → Str → Bool
str_ltb s [] = false
str_ltb [] (b ∷ t) = true
str_ltb (a ∷ s) (b ∷ t) = let rest = str_ltb s t in if a == b then rest else ltb a b

unfoldable pub add : Str → Set → Set
add value s = insert value true s

unfoldable pub remove : Str → Set → Set
remove value s = delete value s

unfoldable pub contains : Str → Set → Bool
contains value s = has_key value s

abbrev pub to_slice : Set → List Str
to_slice = map (λ (k, b). k)

unfoldable pub add_all : List Str → Set → Set
unfolding add
add_all [] s = s
add_all (v ∷ vs) s = add_all vs (add v s)

unfoldable pub new_set : List Str → Set
unfolding add_all
new_set values = add_all values []

-- `ForEach` with `ans.Add` for its function
unfoldable pub union : Set → Set → Set
unfolding new_set add_all
union s other = add_all (to_slice other) (new_set (to_slice s))

unfoldable pub insert_sorted : Str → List Str → List Str
insert_sorted x [] = x ∷ []
insert_sorted x (y ∷ ys) = if str_ltb x y then x ∷ y ∷ ys else y ∷ insert_sorted x ys

unfoldable pub sort : List Str → List Str
unfolding insert_sorted
sort [] = []
sort (x ∷ xs) = insert_sorted x (sort xs)

unfoldable pub to_ordered_slice : Set → List Str
unfolding sort
to_ordered_slice s = sort (to_slice s)
