-- ===== src/Jobs/Queue/Walk.antt =====
-- The loops of jobs/queue.go on a chain: each ends within its rounds, at the entry it looks for.
use cnc_masm.Prelude.{
  ℕ, zero, suc, ◌+◌, ◌<◌, ◌≡◌, refl, false, none, some, List, [], ◌∷◌, ◌++◌, arith, length, ap, ◌∙◌,
}
use cnc_masm.Jobs.Queue.{
  write, set_next, JobEntry, Heap, Ptr, ok, load, size_loop, penultimate_loop, before_loop,
}
use cnc_masm.Jobs.Queue.Chain.{
  Cell, has, head_ptr, cell_entry, Chain, Chain-append, Chain-write, Chain-front,
}

pub load-ok :
    {F J : Type 0} (h : Heap F J) (p : ℕ) (e : JobEntry F J) → h p ≡ some e → load h (some p) ≡ ok e
unfolding load
load-ok h p e c = ground arith

pub set_next-ok :
    {F J : Type 0} (h : Heap F J) (p : ℕ) (e : JobEntry F J) (q : Ptr)
    → h p ≡ some e
    → set_next h (some p) q ≡ ok (write h p (record e { next = q }))
unfolding set_next
set_next-ok h p e q c = rw (load-ok h p e c) refl

-- The last cell of a chain can be led elsewhere.
pub Chain-relink :
    {F J : Type 0} (h : Heap F J) (ws : List (Cell F J)) (z : Cell F J) (stop q : Ptr)
    → has z.0 ws ≡ false
    → Chain h (ws ++ z ∷ []) stop
    → Chain (write h z.0 (cell_entry q z.1 z.2)) (ws ++ z ∷ []) q
unfolding write
Chain-relink h ws z stop q o c =
    Chain-append _ ws (z ∷ []) q
      (Chain-write h z.0 _ ws (some z.0) o (Chain-front h ws (z ∷ []) stop c)) (ground arith, tt)

module _ {F J : Type 0} (h : Heap F J) where
  pub size_loop-length :
      (n acc : ℕ) (xs : List (Cell F J))
      → Chain h xs none
      → length xs < n
      → size_loop h n (head_ptr xs none) acc ≡ ok (acc + length xs)
  unfolding size_loop
  size_loop-length zero acc xs c l = absurd (omega arith)
  size_loop-length (suc n) acc [] c l = ap ok (omega arith)
  size_loop-length (suc n) acc ((a, f, j) ∷ xs) c l =
      rw (load-ok _ _ _ c.0)
        (size_loop-length n (acc + 1) xs c.1 (omega arith) ∙ ap ok (omega arith))

  pub penultimate_loop-lem :
      (n : ℕ) (prev : Ptr) (ws : List (Cell F J)) (x y : Cell F J)
      → Chain h (ws ++ x ∷ y ∷ []) none
      → suc (length ws) < n
      → penultimate_loop h n prev (head_ptr (ws ++ x ∷ y ∷ []) none) ≡ ok (some x.0)
  unfolding penultimate_loop
  penultimate_loop-lem zero prev ws x y c l = absurd (omega arith)
  penultimate_loop-lem (suc zero) prev ws x y c l = absurd (omega arith)
  penultimate_loop-lem (suc (suc n)) prev [] x y c l =
      rw (load-ok _ _ _ c.0) (rw (load-ok _ _ _ c.1.0) refl)
  penultimate_loop-lem (suc (suc n)) prev ((a, f, j) ∷ []) x y c l =
      rw (load-ok _ _ _ c.0) (penultimate_loop-lem (suc n) (some a) [] x y c.1 (omega arith))
  penultimate_loop-lem (suc (suc n)) prev ((a, f, j) ∷ w ∷ ws) x y c l =
      rw (load-ok _ _ _ c.0) (penultimate_loop-lem (suc n) (some a) (w ∷ ws) x y c.1 (omega arith))

  pub before_loop-lem :
      (n : ℕ) (p : ℕ) (ws : List (Cell F J)) (z : Cell F J)
      → Chain h (ws ++ z ∷ []) (some p)
      → has p (ws ++ z ∷ []) ≡ false
      → length ws < n
      → before_loop h n (some p) (head_ptr (ws ++ z ∷ []) (some p)) ≡ ok (some z.0)
  unfolding before_loop
  before_loop-lem zero p ws z c o l = absurd (omega arith)
  before_loop-lem (suc n) p [] z c o l = rw (load-ok _ _ _ c.0) (ground arith)
  before_loop-lem (suc n) p ((a, f, j) ∷ []) z c o l =
      rw (load-ok _ _ _ c.0) (ground (arith, before_loop-lem n p [] z c.1))
  before_loop-lem (suc n) p ((a, f, j) ∷ w ∷ ws) z c o l =
      rw (load-ok _ _ _ c.0) (ground (arith, before_loop-lem n p (w ∷ ws) z c.1))
