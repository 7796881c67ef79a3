-- ===== src/Jobs/Queue/Swap.antt =====
-- Lists with their last two elements swapped, and heaps after a write.
use cnc_masm.Prelude.{
  ℕ, suc, ◌≤◌, ◌<◌, ◌≡◌, refl, false, none, some, List, [], ◌∷◌, ◌++◌, arith, length, length-append,
  ap, ◌==◌,
}
use cnc_masm.Jobs.Queue.{JobEntry, Heap, write}
use cnc_masm.Jobs.Queue.Chain.{
  Cell, Below, has, head_ptr, last_ptr, Distinct, Below-append, Below-back, has-append,
}

pub eq_false_sym : (a b : ℕ) → (a == b) ≡ false → (b == a) ≡ false
eq_false_sym a b o = ground arith

-- The last two elements change places.
abbrev pub swap_last_two : {A : Type 0} → List A → List A
swap_last_two [] = []
swap_last_two (x ∷ []) = x ∷ []
swap_last_two (x ∷ y ∷ []) = y ∷ x ∷ []
swap_last_two (x ∷ y ∷ z ∷ r) = x ∷ swap_last_two (y ∷ z ∷ r)

module _ {A : Type 0} where
  pub swap_last_two-append :
      (vs : List A) (x y : A) → swap_last_two (vs ++ x ∷ y ∷ []) ≡ vs ++ y ∷ x ∷ []
  swap_last_two-append [] x y = refl
  swap_last_two-append (v ∷ []) x y = refl
  swap_last_two-append (v ∷ w ∷ []) x y = refl
  swap_last_two-append (v ∷ w ∷ u ∷ vs) x y =
      ap (λ ys. v ∷ ys) (swap_last_two-append (w ∷ u ∷ vs) x y)

  pub split_three :
      (a b c : A) (r : List A)
      → (ws : List A) × (z : A) × (x : A) × (y : A) × (a ∷ b ∷ c ∷ r ≡ (ws ++ z ∷ []) ++ x ∷ y ∷ [])
  split_three a b c [] = ([], a, b, c, refl)
  split_three a b c (d ∷ r) =
      let (ws, z, x, y, e) = split_three b c d r in (a ∷ ws, z, x, y, ap (λ ys. a ∷ ys) e)

module _ {F J : Type 0} where
  pub has-swap :
      (a : ℕ) (vs : List (Cell F J)) (x y : Cell F J)
      → has a (vs ++ y ∷ x ∷ []) ≡ has a (vs ++ x ∷ y ∷ [])
  has-swap a [] x y = ground arith
  has-swap a (v ∷ vs) x y = ground (arith, has-swap a vs x y)

  pub Distinct-swap :
      (vs : List (Cell F J)) (x y : Cell F J)
      → Distinct (vs ++ x ∷ y ∷ [])
      → Distinct (vs ++ y ∷ x ∷ [])
  Distinct-swap [] x y d = ground arith
  Distinct-swap (v ∷ vs) x y d = (rw (has-swap v.0 vs x y) d.0, Distinct-swap vs x y d.1)

  pub enough_rounds :
      (ws : List (Cell F J)) (z x y : Cell F J) (n : ℕ)
      → length ((ws ++ z ∷ []) ++ x ∷ y ∷ []) ≤ n
      → (suc (length (ws ++ z ∷ [])) < suc n) × (length ws < suc n)
  enough_rounds ws z x y n l =
      omega (arith, length-append (ws ++ z ∷ []) (x ∷ y ∷ []), length-append ws (z ∷ []))

  pub Below-swap :
      (n : ℕ) (vs : List (Cell F J)) (x y : Cell F J)
      → Below n (vs ++ x ∷ y ∷ [])
      → Below n (vs ++ y ∷ x ∷ [])
  Below-swap n vs x y b =
      let (front, back) = Below-back n vs (x ∷ y ∷ []) b in
      Below-append n vs (y ∷ x ∷ []) front (omega arith)

  pub length-swap :
      (vs : List (Cell F J)) (x y : Cell F J)
      → length (vs ++ y ∷ x ∷ []) ≡ length (vs ++ x ∷ y ∷ [])
  length-swap vs x y = omega (arith, length-append vs (y ∷ x ∷ []), length-append vs (x ∷ y ∷ []))

  pub last_ptr-two :
      (vs : List (Cell F J)) (x y : Cell F J) → last_ptr (vs ++ x ∷ y ∷ []) ≡ some y.0
  last_ptr-two [] x y = refl
  last_ptr-two (v ∷ []) x y = refl
  last_ptr-two (v ∷ w ∷ vs) x y = last_ptr-two (w ∷ vs) x y

  pub write_same : (m : Heap F J) (p : ℕ) (e : JobEntry F J) → write m p e p ≡ some e
  unfolding write
  write_same m p e = ground arith

  pub write_other :
      (m : Heap F J) (p a : ℕ) (e : JobEntry F J) → (a == p) ≡ false → write m p e a ≡ m a
  unfolding write
  write_other m p a e o = rw o

  pub Distinct-front : (xs ys : List (Cell F J)) → Distinct (xs ++ ys) → Distinct xs
  Distinct-front [] ys d = tt
  Distinct-front (x ∷ xs) ys d = (ground (arith, has-append x.0 xs ys), Distinct-front xs ys d.1)

  pub ne_last :
      (p : ℕ) (ws : List (Cell F J)) (z : Cell F J)
      → has p (ws ++ z ∷ []) ≡ false
      → (p == z.0) ≡ false
  ne_last p ws z o = ground (arith, has-append p ws (z ∷ []))

  pub head_ptr-swap :
      (ws : List (Cell F J)) (z x y : Cell F J)
      → head_ptr ((ws ++ z ∷ []) ++ x ∷ y ∷ []) none ≡ head_ptr ((ws ++ z ∷ []) ++ y ∷ x ∷ []) none
  head_ptr-swap [] z x y = refl
  head_ptr-swap (w ∷ ws) z x y = refl
