-- ===== src/Prelude/Strs.antt =====
-- Go strings: sequences of bytes. `strings.HasPrefix`, `strings.Join` and
-- `strings.Replace(s, old, new, 1)` for one-byte `old` and `new`.
use Prim.Native.Nat.{ℕ}
use Prim.Native.Char.{code}
use Prim.Native.String.{String}
use mathlib.Core.Path.{◌≡◌, refl}
use mathlib.Core.Logic.{◌↔◌}
use mathlib.Core.Bool.{Bool, true, false, ◌&&◌, ◌||◌}
use mathlib.Core.List.{List, [], ◌∷◌, ◌++◌}
use native.Mathlib.Omega.{arith}
use cnc_masm.Prelude.Tests.{◌==◌, if◌then◌else◌}
use cnc_masm.Prelude.Lists.{any, any-append}

abbrev pub Str : Type 0
Str = List ℕ

-- The bytes of an ASCII literal.
abbrev pub str : String → Str
str String.[] = []
str (String.◌∷◌ c s) = code c ∷ str s

unfoldable pub str_eq : Str → Str → Bool
str_eq [] [] = true
str_eq [] (b ∷ t) = false
str_eq (a ∷ s) [] = false
str_eq (a ∷ s) (b ∷ t) = (a == b) && str_eq s t

pub str_eq_iff : (s t : Str) → (str_eq s t ≡ true) ↔ (s ≡ t)
unfolding str_eq
str_eq_iff [] [] = ground arith
str_eq_iff [] (b ∷ t) = ground arith
str_eq_iff (a ∷ s) [] = ground arith
str_eq_iff (a ∷ s) (b ∷ t) = ground (arith, str_eq_iff s t)

pub str_eq_refl : (s : Str) → str_eq s s ≡ true
str_eq_refl s = (str_eq_iff s s).1 refl

pub str_eq_sym : (s t : Str) → str_eq s t ≡ str_eq t s
str_eq_sym s t = ground (arith, str_eq_iff s t, str_eq_iff t s)

-- `strings.HasPrefix(s, p)`.
abbrev pub has_prefix : Str → Str → Bool
has_prefix s [] = true
has_prefix [] (b ∷ p) = false
has_prefix (a ∷ s) (b ∷ p) = (a == b) && has_prefix s p

pub has_prefix_refl : (s : Str) → has_prefix s s ≡ true
has_prefix_refl [] = refl
has_prefix_refl (a ∷ s) = ground (arith, has_prefix_refl s)

abbrev pub str_mem : Str → List Str → Bool
str_mem s = any (str_eq s)

pub str_mem-append :
    (s : Str) (xs ys : List Str) → str_mem s (xs ++ ys) ≡ (str_mem s xs || str_mem s ys)
str_mem-append s xs ys = any-append (str_eq s) xs ys

-- `strings.Join(xs, sep)` for a separator of one byte.
abbrev pub join : ℕ → List Str → Str
join sep [] = []
join sep (x ∷ []) = x
join sep (x ∷ y ∷ r) = x ++ sep ∷ join sep (y ∷ r)

-- `strings.Replace(s, old, new, 1)` for an `old` and a `new` of one byte.
abbrev pub replace_one : ℕ → ℕ → Str → Str
replace_one old new [] = []
replace_one old new (a ∷ s) = if a == old then new ∷ s else a ∷ replace_one old new s

-- `strings.Join(xs, sep)`
abbrev pub join_by : Str → List Str → Str
join_by sep [] = []
join_by sep (x ∷ []) = x
join_by sep (x ∷ y ∷ r) = x ++ (sep ++ join_by sep (y ∷ r))

-- `strings.Split(w, " ")`
abbrev pub put_first : ℕ → List Str → List Str
put_first a [] = (a ∷ []) ∷ []
put_first a (x ∷ xs) = (a ∷ x) ∷ xs

abbrev pub split_words : Str → List Str
split_words [] = [] ∷ []
split_words (a ∷ s) = let rest = split_words s in if a == 32 then [] ∷ rest else put_first a rest

-- `strings.Split(s, sep)` for a separator of one byte
abbrev pub split_on : ℕ → Str → List Str
split_on sep [] = [] ∷ []
split_on sep (a ∷ s) = let rest = split_on sep s in if a == sep then [] ∷ rest else put_first a rest
