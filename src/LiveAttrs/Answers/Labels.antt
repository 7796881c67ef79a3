-- ===== src/LiveAttrs/Answers/Labels.antt =====
-- How long a short label can be.
use cnc_masm.Prelude.{
  ℕ, zero, suc, ◌+◌, ◌≤◌, ◌≡◌, refl, ◌∙◌, not, List, [], ◌∷◌, ◌++◌, Str, str, arith, Bool-cases,
  inl, inr, length, ◌==◌, tally, ltb, leb, split_words, join, put_first,
}
use cnc_masm.LiveAttrs.Answers.{shorten_val, shorten_words, cut_at, first_bytes}

-- The bytes that are no spaces.
abbrev pub letters : Str → ℕ
letters = tally (λ b. not (b == 32))

letters-append : (s t : Str) → letters (s ++ t) ≡ letters s + letters t
letters-append [] t = omega arith
letters-append (b ∷ s) t = ground (arith, letters-append s t)

letters-le : (s : Str) → letters s ≤ length s
letters-le [] = omega arith
letters-le (b ∷ s) = ground (arith, letters-le s)

abbrev all_letters : List Str → ℕ
all_letters [] = 0
all_letters (w ∷ ws) = letters w + all_letters ws

abbrev all_lengths : List Str → ℕ
all_lengths [] = 0
all_lengths (w ∷ ws) = length w + all_lengths ws

all_lengths-append :
    (xs : List Str) (w : Str) → all_lengths (xs ++ w ∷ []) ≡ all_lengths xs + length w
all_lengths-append [] w = omega arith
all_lengths-append (x ∷ xs) w = omega (arith, all_lengths-append xs w)

all_letters-le : (ws : List Str) → all_letters ws ≤ all_lengths ws
all_letters-le [] = omega arith
all_letters-le (w ∷ ws) = omega (arith, letters-le w, all_letters-le ws)

letters-join : (ws : List Str) → letters (join 32 ws) ≡ all_letters ws
letters-join [] = refl
letters-join (w ∷ []) = omega arith
letters-join (w ∷ x ∷ ws) =
    letters-append w (32 ∷ join 32 (x ∷ ws)) ∙ omega (arith, letters-join (x ∷ ws))

letters-put_first :
    (a : ℕ) (ws : List Str) → all_letters (put_first a ws) ≡ letters (a ∷ []) + all_letters ws
letters-put_first a [] = ground arith
letters-put_first a (w ∷ ws) = ground arith

letters-split_words : (s : Str) → all_letters (split_words s) ≡ letters s
letters-split_words [] = refl
letters-split_words (a ∷ s) =
    ground (arith, letters-split_words s, letters-put_first a (split_words s))

length-first_bytes : (n : ℕ) (s : Str) → length (first_bytes n s) ≤ n
length-first_bytes zero s = omega arith
length-first_bytes (suc n) [] = omega arith
length-first_bytes (suc n) (b ∷ s) = omega (arith, length-first_bytes n s)

cut_at-letters :
    (max : ℕ) (done : List Str) (w : Str)
    → all_lengths done ≤ max
    → letters (cut_at max done w) ≤ max + 3
cut_at-letters max [] w h = omega (
  arith,
  letters-append (first_bytes max w) (str "..."),
  letters-le (first_bytes max w),
  length-first_bytes max w,
)
cut_at-letters max (d ∷ done) w h = omega (
  arith,
  h,
  letters-append (join 32 (d ∷ done)) (str "..."),
  letters-join (d ∷ done),
  all_letters-le (d ∷ done),
)

shorten_words-letters :
    (max : ℕ) (v : Str) (done : List Str) (len : ℕ) (words : List Str)
    → len ≡ all_lengths done
    → len ≤ max
    → letters v ≤ len + all_letters words
    → letters (shorten_words max v done len words) ≤ max + 3
shorten_words-letters max v done len [] e l h = omega (arith, l, h)
shorten_words-letters max v done len (w ∷ words) e l h =
    elim (Bool-cases (ltb max (len + length w))) [
      | inl long ↦ rw long (cut_at-letters max done w (omega (arith, e, l)))
      | inr fits ↦ rw fits (
          shorten_words-letters max v (done ++ w ∷ []) (len + length w) words
            (omega (arith, e, all_lengths-append done w)) (ground (arith, fits))
            (omega (arith, h, letters-le w)))
    ]

-- A short label has at most three bytes more than the limit, spaces aside; with the spaces it can be
-- as long as the label.
pub letters-shorten_val : (v : Str) (max : ℕ) → letters (shorten_val v max) ≤ max + 3
unfolding shorten_val
letters-shorten_val v max = elim (Bool-cases (leb (length v) max)) [
  | inl short ↦ rw short (ground (arith, short, letters-le v))
  | inr long ↦ rw long (
      shorten_words-letters max v [] 0 (split_words v) refl (omega arith)
        (omega (arith, letters-split_words v)))
]
