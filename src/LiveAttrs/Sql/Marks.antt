-- ===== src/LiveAttrs/Sql/Marks.antt =====
-- Counting placeholders.
use cnc_masm.Prelude.{
  ℕ, zero, suc, ◌+◌, ◌/◌, ◌%◌, ◌<◌, ◌≡◌, refl, List, [], ◌∷◌, ◌++◌, Str, arith, join_by, ap, ◌∙◌,
  false, ◌==◌,
}
use cnc_masm.LiveAttrs.Sql.{marks, digits, decimal, import_key, cmp_operator}

pub marks-append : (s t : Str) → marks (s ++ t) ≡ marks s + marks t
marks-append [] t = omega arith
marks-append (b ∷ s) t = ground (arith, marks-append s t)

-- The placeholders of a list of strings.
abbrev pub all_marks : List Str → ℕ
all_marks [] = 0
all_marks (x ∷ xs) = marks x + all_marks xs

pub all_marks-append : (xs ys : List Str) → all_marks (xs ++ ys) ≡ all_marks xs + all_marks ys
all_marks-append [] ys = omega arith
all_marks-append (x ∷ xs) ys = omega (arith, all_marks-append xs ys)

pub marks-join_by :
    (sep : Str) (xs : List Str) → marks sep ≡ 0 → marks (join_by sep xs) ≡ all_marks xs
marks-join_by sep [] e = refl
marks-join_by sep (x ∷ []) e = omega arith
marks-join_by sep (x ∷ y ∷ r) e =
    marks-append x (sep ++ join_by sep (y ∷ r))
    ∙ ap (λ n. marks x + n) (marks-append sep (join_by sep (y ∷ r)))
    ∙ omega (arith, marks-join_by sep (y ∷ r) e)

pub marks-import_key : (s : Str) → marks (import_key s) ≡ marks s
unfolding import_key
marks-import_key [] = refl
marks-import_key (b ∷ s) = ground (arith, marks-import_key s)

pub marks-cmp_operator : (s : Str) → marks (cmp_operator s) ≡ 0
unfolding cmp_operator
marks-cmp_operator s = ground arith

digit_marks : (m : ℕ) → m < 10 → ((48 + m) == 63) ≡ false
digit_marks m l = ground arith

marks-digits : (fuel n : ℕ) (acc : Str) → marks (digits fuel n acc) ≡ marks acc
marks-digits zero n acc = refl
marks-digits (suc fuel) n acc = ground (
  arith,
  digit_marks n,
  digit_marks (n % 10) (omega arith),
  marks-digits fuel (n / 10) ((48 + n % 10) ∷ acc),
)

pub marks-decimal : (n : ℕ) → marks (decimal n) ≡ 0
unfolding decimal
marks-decimal n = marks-digits (suc n) n []

-- A text before a dot, and what follows.
pub marks-dotted : (s t : Str) → marks s ≡ 0 → marks (s ++ 46 ∷ t) ≡ marks t
marks-dotted s t e = marks-append s (46 ∷ t) ∙ omega arith
