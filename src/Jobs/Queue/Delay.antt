-- ===== src/Jobs/Queue/Delay.antt =====
-- `DelayNext` on the heap against a list: it swaps the last two entries.
use cnc_masm.Prelude.{
  ℕ, suc, ◌≡◌, refl, none, some, Option, List, [], ◌∷◌, ◌++◌, arith, length, ◌∙◌, sym, subst,
}
use cnc_masm.Jobs.Queue.{
  JobQueue, ok, size, delay_many, delay_next, QueueError, empty_queue, peek, delay_by_size,
}
use cnc_masm.Jobs.Queue.Chain.{Cell, Holds}
use cnc_masm.Jobs.Queue.Refine.{size-length, peek-first}
use cnc_masm.Jobs.Queue.Swap.{swap_last_two, swap_last_two-append, split_three}
use cnc_masm.Jobs.Queue.Relink.{delay_two-swap, delay_many-swap}

module _ {F J : Type 0} where
  abbrev pub delay_error : List (Cell F J) → Option QueueError
  delay_error [] = some empty_queue
  delay_error (x ∷ xs) = none

  delay_next-step :
      (q p : JobQueue F J) (a n : ℕ)
      → q.first_entry ≡ some a
      → size q ≡ ok n
      → delay_by_size n q ≡ ok p
      → delay_next q ≡ ok (none, p)
  unfolding delay_next
  delay_next-step q p a n f s d = rw (s, d) (rw f refl)

  delay_by_size-many :
      (q : JobQueue F J) (n : ℕ) → delay_by_size (suc (suc (suc n))) q ≡ delay_many q
  unfolding delay_by_size
  delay_by_size-many q n = ground arith

  Swaps : JobQueue F J → List (Cell F J) → Type 0
  Swaps q xs = (p : JobQueue F J) × (delay_many q ≡ ok p) × Holds p (swap_last_two xs)

  many-swap :
      (q : JobQueue F J) (x y c : Cell F J) (r : List (Cell F J))
      → Holds q (x ∷ y ∷ c ∷ r)
      → Swaps q (x ∷ y ∷ c ∷ r)
  unfolding Swaps
  many-swap q x y c r h =
      let (ws, z, u, v, e) = split_three x y c r in
      let (p, d, h') = delay_many-swap q ws z u v (subst (Holds q) e h) in
      (
        p,
        d,
        subst (λ ys. Holds p (swap_last_two ys)) (sym e)
            (subst (Holds p) (sym (swap_last_two-append (ws ++ z ∷ []) u v)) h'),
      )

  -- `DelayNext` on a queue that holds a list of entries returns, reports an error exactly on the
  -- empty queue, and leaves a queue that holds the list with its last two entries swapped.
  pub delay_next-swap :
      (q : JobQueue F J) (xs : List (Cell F J))
      → Holds q xs
      → (p : JobQueue F J) × (delay_next q ≡ ok (delay_error xs, p)) × Holds p (swap_last_two xs)
  unfolding delay_next delay_by_size Swaps
  delay_next-swap q [] h = (q, rw h.first refl, h)
  delay_next-swap q (x ∷ []) h =
      (q, delay_next-step q q x.0 1 h.first (size-length q (x ∷ []) h) refl, h)
  delay_next-swap q (x ∷ y ∷ []) h =
      let (p, e, h') = delay_two-swap q x y h in
      (p, delay_next-step q p x.0 2 h.first (size-length q (x ∷ y ∷ []) h) e, h')
  delay_next-swap q (x ∷ y ∷ c ∷ r) h =
      let (p, e, h') = many-swap q x y c r h in
      (
        p,
        delay_next-step q p x.0 (suc (suc (suc (length r)))) h.first
            (size-length q (x ∷ y ∷ c ∷ r) h) (delay_by_size-many q (length r) ∙ e),
        h',
      )

  -- On a queue that holds three entries or more `DelayNext` returns no error, and the entry at the
  -- front is still at the front afterwards.
  pub delay_next-keeps_front :
      (q : JobQueue F J) (x y c : Cell F J) (r : List (Cell F J))
      → Holds q (x ∷ y ∷ c ∷ r)
      → (p : JobQueue F J) × (delay_next q ≡ ok (none, p)) × (peek p ≡ peek q)
  delay_next-keeps_front q x y c r h =
      let (p, e, h') = delay_next-swap q (x ∷ y ∷ c ∷ r) h in
      (
        p,
        e,
        peek-first p x.0 x.1 x.2 (swap_last_two (y ∷ c ∷ r)) h'
            ∙ sym (peek-first q x.0 x.1 x.2 (y ∷ c ∷ r) h),
      )
