-- ===== src/LiveAttrs/Export/Ids.antt =====
-- liveattrs/qs/qs.go: the identifiers of mkID as numbers of six digits in base 62.
use cnc_masm.Prelude.{
  ℕ, zero, suc, ◌+◌, ◌*◌, ◌/◌, ◌%◌, ◌≤◌, ◌<◌, ◌≡◌, refl, ap, ◌∙◌, Bool, true, ◌&&◌, [], ◌∷◌, Str,
  length, if◌then◌else◌, ◌==◌, ==_iff, Bool-cases, inl, inr, arith,
}
use cnc_masm.Jobs.Table.{value, panic}
use cnc_masm.LiveAttrs.Export.{key_alphabet, letter_at, zeros, write_digits, mk_id}

-- The position of a letter, and the number that digits after `acc` stand for.
unfoldable index_in : Str → ℕ → ℕ
index_in [] c = 0
index_in (b ∷ bs) c = if b == c then 0 else suc (index_in bs c)

unfoldable pub decode : ℕ → Str → ℕ
unfolding index_in
decode acc [] = acc
decode acc (c ∷ s) = decode (acc * 62 + index_in key_alphabet c) s

-- The number of identifiers of `k` digits.
unfoldable pub ids : ℕ → ℕ
ids zero = 1
ids (suc k) = 62 * ids k

ids-pos : (k : ℕ) → 0 < ids k
unfolding ids
ids-pos zero = omega arith
ids-pos (suc k) = omega (arith, ids-pos k)

-- The letters from the number `start` on, `k` of them, are found at their own positions.
letters_agree : ℕ → ℕ → Bool
letters_agree start zero = true
letters_agree start (suc k) =
    (index_in key_alphabet (letter_at key_alphabet start) == start) && letters_agree (suc start) k

alphabet_table : letters_agree 0 62 ≡ true
unfolding letters_agree index_in letter_at
alphabet_table = refl

letters_agree_at :
    (start k d : ℕ)
    → start ≤ d
    → d < start + k
    → letters_agree start k ≡ true
    → index_in key_alphabet (letter_at key_alphabet d) ≡ d
unfolding letters_agree
letters_agree_at start zero d from to agree = absurd (omega arith)
letters_agree_at start (suc k) d from to agree = elim (Bool-cases (d == start)) [
  | inl first ↦
      let same : d ≡ start = (==_iff d start).0 first in
      rw same ((==_iff _ start).0 (ground (arith, agree)))
  | inr other ↦
      letters_agree_at (suc start) k d (ground (arith, other)) (omega arith) (ground (arith, agree))
]

index_in-letter_at : (d : ℕ) → d < 62 → index_in key_alphabet (letter_at key_alphabet d) ≡ d
index_in-letter_at d h = letters_agree_at 0 62 d (omega arith) (omega arith) alphabet_table

decode-zeros : (k : ℕ) (s : Str) → decode 0 (zeros k s) ≡ decode 0 s
unfolding decode index_in
decode-zeros zero s = refl
decode-zeros (suc k) s = decode-zeros k s

length-zeros : (k : ℕ) (s : Str) → length (zeros k s) ≡ k + length s
length-zeros zero s = omega arith
length-zeros (suc k) s = omega (arith, length-zeros k s)

decode-letter :
    (x : ℕ) (w : Str) → decode (x / 62) (letter_at key_alphabet (x % 62) ∷ w) ≡ decode x w
unfolding decode
decode-letter x w = ap (λ n. decode n w) (omega (arith, index_in-letter_at (x % 62) (omega arith)))

write_digits_lem :
    (k x : ℕ) (w : Str)
    → x < ids k
    → (s : Str) × (write_digits k x w ≡ value s)
      × (length s ≡ k + length w)
      × (decode 0 s ≡ decode x w)
unfolding write_digits ids
write_digits_lem zero x w h = (w, ground arith, omega arith, ap (λ n. decode n w) (omega arith))
write_digits_lem (suc k) x w h = elim (Bool-cases (x == 0)) [
  | inl none_left ↦ (
    zeros (suc k) w,
    rw none_left,
    length-zeros (suc k) w,
    decode-zeros (suc k) w ∙ ap (λ n. decode n w) (ground (arith, none_left)),
  )
  | inr more ↦
      let (s, e, l, d) =
        write_digits_lem k (x / 62) (letter_at key_alphabet (x % 62) ∷ w) (omega (arith, h)) in
      (s, rw more e, omega (arith, l), d ∙ decode-letter x w)
]

write_digits-panics : (k x : ℕ) (w : Str) → ids k ≤ x → write_digits k x w ≡ panic
unfolding write_digits ids
write_digits-panics zero x w h = ground arith
write_digits-panics (suc k) x w h =
    let rest =
      write_digits-panics k (x / 62) (letter_at key_alphabet (x % 62) ∷ w) (omega (arith, h)) in
    ground (arith, rest, ids-pos k)

-- mkID gives a number below 62^6 an identifier of six letters, from which the number can be read
-- back.
pub decode-mk_id :
    (x : ℕ) → x < 56800235584 → (s : Str) × (mk_id x ≡ value s) × (length s ≡ 6) × (decode 0 s ≡ x)
unfolding mk_id decode ids
decode-mk_id x h = write_digits_lem 6 x [] h

-- It panics for all other numbers.
pub mk_id-panics : (x : ℕ) → 56800235584 ≤ x → mk_id x ≡ panic
unfolding mk_id ids
mk_id-panics x h = write_digits-panics 6 x [] h
