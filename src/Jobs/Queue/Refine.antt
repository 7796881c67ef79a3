-- ===== src/Jobs/Queue/Refine.antt =====
-- `Enqueue`, `Dequeue`, `Size` and `PeekID` on the heap against the operations of a list.
use cnc_masm.Prelude.{
  if◌then◌else◌, ◌⊎◌, inl, inr, sym, subst, ℕ, suc, ◌≡◌, refl, none, some, List, [], ◌∷◌, ◌++◌,
  arith, length, length-append, ap, ◌∙◌,
}
use cnc_masm.Jobs.Queue.{
  JobQueue, ok, write, empty, size, enqueue, dequeue, peek, peek_at, dequeue_at, is_nil,
}
use cnc_masm.Jobs.Queue.Chain.{
  Cell, head_ptr, cell_entry, Holds, Chain-append, Chain-write, Chain-back, Below-has, Below-mono,
  Below-append, Distinct-concat, last_ptr-concat, Distinct-apart, Below-back, head_ptr-append,
}
use cnc_masm.Jobs.Queue.Walk.{load-ok, set_next-ok, Chain-relink, size_loop-length}

concat-cases :
    {A : Type 0} (xs : List A) → (xs ≡ []) ⊎ ((ws : List A) × (c : A) × (xs ≡ ws ++ c ∷ []))
concat-cases [] = inl refl
concat-cases (x ∷ xs) = inr (elim (concat-cases xs) [
  | inl e ↦ ([], x, ap (λ ys. x ∷ ys) e)
  | inr (ws, c, e) ↦ (x ∷ ws, c, ap (λ ys. x ∷ ys) e)
])

module _ {F J : Type 0} where
  pub empty-Holds : Holds (empty {F = F} {J = J}) []
  unfolding empty
  empty-Holds = record {
    first = refl;
    last = refl;
    chain = tt;
    distinct = tt;
    below = tt;
    room = omega arith;
  }

  -- A queue that holds a list of entries has the length of the list for its size.
  pub size-length : (q : JobQueue F J) (xs : List (Cell F J)) → Holds q xs → size q ≡ ok (length xs)
  unfolding size
  size-length q xs h = rw h.first (
      size_loop-length q.heap (suc q.fresh) 0 xs h.chain (omega (arith, h.room))
      ∙ ap ok (omega arith))

  pub peek-first :
      (q : JobQueue F J) (a : ℕ) (f : F) (j : J) (xs : List (Cell F J))
      → Holds q ((a, f, j) ∷ xs)
      → peek q ≡ ok (some j)
  unfolding peek
  peek-first q a f j xs h = ap (peek_at q.heap) h.first ∙ rw (load-ok _ _ _ h.chain.0) refl

  pub peek-empty : (q : JobQueue F J) → Holds q [] → peek q ≡ ok none
  unfolding peek
  peek-empty q h = rw h.first refl

  -- `Dequeue` on a queue that holds a nonempty list returns the function and the state of the first
  -- entry and a queue that holds the rest.
  pub dequeue-cons :
      (q : JobQueue F J) (a : ℕ) (f : F) (j : J) (xs : List (Cell F J))
      → Holds q ((a, f, j) ∷ xs)
      → (q' : JobQueue F J) × (dequeue q ≡ ok (some (f, j), q')) × Holds q' xs
  unfolding dequeue
  dequeue-cons q a f j [] h = (
    record q { first_entry = none; last_entry = none },
    ap (dequeue_at q) h.first ∙ rw (load-ok _ _ _ h.chain.0) refl,
    record { first = refl; last = refl; chain = tt; distinct = tt; below = tt; room = omega arith },
  )
  dequeue-cons q a f j ((b, g, k) ∷ xs) h = (
    record q { first_entry = some b },
    ap (dequeue_at q) h.first ∙ rw (load-ok _ _ _ h.chain.0) refl,
    record {
      first = refl;
      last = h.last;
      chain = h.chain.1;
      distinct = h.distinct.1;
      below = h.below.1;
      room = omega (arith, h.room);
    },
  )

  pub dequeue-empty : (q : JobQueue F J) → Holds q [] → dequeue q ≡ ok (none, q)
  unfolding dequeue
  dequeue-empty q h = ap (dequeue_at q) h.first

  abbrev pub Enqueues : JobQueue F J → F → J → List (Cell F J) → Type 0
  Enqueues q f j xs =
      (q' : JobQueue F J) × (enqueue f j q ≡ ok q') × Holds q' (xs ++ (q.fresh, f, j) ∷ [])

  enqueue-first : (q : JobQueue F J) (f : F) (j : J) → Holds q [] → Enqueues q f j []
  unfolding enqueue
  enqueue-first q f j h = (
    record {
      first_entry = some q.fresh;
      last_entry = some q.fresh;
      heap = write q.heap q.fresh (cell_entry none f j);
      fresh = suc q.fresh;
    },
    rw (h.first, h.last) refl,
    record {
      first = refl;
      last = refl;
      chain = (unfold write in ground arith, tt);
      distinct = (refl, tt);
      below = omega arith;
      room = omega arith;
    },
  )

  enqueue-next :
      (q : JobQueue F J) (f : F) (j : J) (ws : List (Cell F J)) (c : Cell F J)
      → Holds q (ws ++ c ∷ [])
      → Enqueues q f j (ws ++ c ∷ [])
  unfolding enqueue
  enqueue-next q f j ws c h =
      let n = q.fresh in
      let new = cell_entry none f j in
      let h₁ = write q.heap n new in
      let (lower, at_c) = Below-back n ws (c ∷ []) h.below in
      let front =
        Chain-write q.heap n new (ws ++ c ∷ []) none
          (Below-has n n (ws ++ c ∷ []) h.below (omega arith)) h.chain in
      let old = Chain-back h₁ ws (c ∷ []) none front in
      let apart = Distinct-apart ws (c ∷ []) c.0 h.distinct (ground arith) in
      let linked = Chain-relink h₁ ws c none (some n) apart front in
      (
        record {
          first_entry = if is_nil q.first_entry then some n else q.first_entry;
          last_entry = some n;
          heap = write h₁ c.0 (cell_entry (some n) c.1 c.2);
          fresh = suc n;
        },
        rw (h.last ∙ last_ptr-concat ws c.0 c.1 c.2)
            (rw (set_next-ok h₁ c.0 (cell_entry none c.1 c.2) (some n) old.0) refl),
        record {
          first = rw (h.first, head_ptr-append ws (c ∷ []) none) (first_of ws c);
          last = sym (last_ptr-concat (ws ++ c ∷ []) n f j);
          chain =
              Chain-append _ (ws ++ c ∷ []) ((n, f, j) ∷ []) none linked
                (unfold write in ground arith, tt);
          distinct =
              Distinct-concat (ws ++ c ∷ []) n f j h.distinct
                (Below-has n n (ws ++ c ∷ []) h.below (omega arith));
          below =
              Below-append (suc n) (ws ++ c ∷ []) ((n, f, j) ∷ [])
                (Below-mono n (ws ++ c ∷ []) h.below) (omega arith);
          room = omega (arith, h.room, length-append (ws ++ c ∷ []) ((n, f, j) ∷ []));
        },
      )
    where
      first_of :
          (vs : List (Cell F J)) (d : Cell F J)
          → (if is_nil (head_ptr vs (some d.0)) then some q.fresh else head_ptr vs (some d.0))
            ≡ head_ptr ((vs ++ d ∷ []) ++ (q.fresh, f, j) ∷ []) none
      first_of [] d = refl
      first_of (v ∷ vs) d = refl

  -- `Enqueue` on a queue that holds a list of entries returns a queue that holds the list with the
  -- new entry, at the fresh address, at its end.
  pub enqueue-append :
      (q : JobQueue F J) (f : F) (j : J) (xs : List (Cell F J)) → Holds q xs → Enqueues q f j xs
  enqueue-append q f j xs h = elim (concat-cases xs) [
    | inl e ↦ subst (λ ys. Enqueues q f j ys) (sym e) (enqueue-first q f j (subst (Holds q) e h))
    | inr (ws, c, e) ↦
        subst (λ ys. Enqueues q f j ys) (sym e) (enqueue-next q f j ws c (subst (Holds q) e h))
  ]
