-- ===== src/Prelude/Maps.antt =====
-- Go maps with string keys, as association lists. A `range` over such a map takes the entries in
-- the order of the list; the order of the list is arbitrary.
use mathlib.Core.Path.{◌≡◌, refl}
use mathlib.Core.Bool.{Bool}
use mathlib.Core.List.{List, [], ◌∷◌}
use mathlib.Core.Option.{Option, none, some}
use native.Mathlib.Omega.{arith}
use cnc_masm.Prelude.Tests.{if◌then◌else◌, is_some}
use cnc_masm.Prelude.Strs.{Str, str_eq, str_eq_iff, str_eq_sym}

abbrev pub StrMap {ℓ} : Type ℓ → Type ℓ
StrMap V = List (Str × V)

module _ {ℓ} {V : Type ℓ} where
  -- `m[k]`
  unfoldable pub lookup : Str → StrMap V → Option V
  lookup k [] = none
  lookup k ((j, v) ∷ m) = if str_eq j k then some v else lookup k m

  -- `m[k] = v`
  unfoldable pub insert : Str → V → StrMap V → StrMap V
  insert k v [] = (k, v) ∷ []
  insert k v ((j, w) ∷ m) = if str_eq j k then (j, v) ∷ m else (j, w) ∷ insert k v m

  -- `delete(m, k)`
  unfoldable pub delete : Str → StrMap V → StrMap V
  delete k [] = []
  delete k ((j, w) ∷ m) = if str_eq j k then delete k m else (j, w) ∷ delete k m

  unfoldable pub has_key : Str → StrMap V → Bool
  unfolding lookup
  has_key k m = is_some (lookup k m)

  pub lookup-insert :
      (k j : Str) (v : V) (m : StrMap V)
      → lookup j (insert k v m) ≡ (if str_eq k j then some v else lookup j m)
  unfolding lookup insert
  lookup-insert k j v [] = refl
  lookup-insert k j v ((i, w) ∷ m) =
      ground (arith, str_eq_iff k j, str_eq_iff i k, str_eq_iff i j, lookup-insert k j v m)

  pub lookup-delete :
      (k j : Str) (m : StrMap V) → lookup j (delete k m) ≡ (if str_eq k j then none else lookup j m)
  unfolding lookup delete
  lookup-delete k j [] = ground arith
  lookup-delete k j ((i, w) ∷ m) =
      ground (arith, str_eq_iff k j, str_eq_iff i k, str_eq_iff i j, lookup-delete k j m)

  -- The keys are distinct.
  abbrev pub HasDistinctKeys : StrMap V → Type ℓ
  HasDistinctKeys [] = Unit {ℓ}
  HasDistinctKeys ((k, v) ∷ m) = (lookup k m ≡ none) × HasDistinctKeys m

  pub insert-HasDistinctKeys :
      (k : Str) (v : V) (m : StrMap V) → HasDistinctKeys m → HasDistinctKeys (insert k v m)
  unfolding lookup insert
  insert-HasDistinctKeys k v [] h = (refl, tt)
  insert-HasDistinctKeys k v ((i, w) ∷ m) h =
      ground (arith, str_eq_sym i k, lookup-insert k i v m, insert-HasDistinctKeys k v m h.1)

  pub delete-HasDistinctKeys :
      (k : Str) (m : StrMap V) → HasDistinctKeys m → HasDistinctKeys (delete k m)
  unfolding delete
  delete-HasDistinctKeys k [] h = tt
  delete-HasDistinctKeys k ((i, w) ∷ m) h =
      ground (arith, lookup-delete k i m, delete-HasDistinctKeys k m h.1)
