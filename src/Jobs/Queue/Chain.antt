-- ===== src/Jobs/Queue/Chain.antt =====
-- What a queue in the heap stands for: the cells on the way from its first entry.
use cnc_masm.Prelude.{
  ℕ, suc, ◌≤◌, ◌<◌, ◌≡◌, refl, Bool, true, false, ◌||◌, none, some, List, [], ◌∷◌, ◌++◌, arith,
  ◌==◌, length,
}
use cnc_masm.Jobs.Queue.{Ptr, JobEntry, Heap, JobQueue, write}

-- The address of an entry, its function and its initial state.
abbrev pub Cell : Type 0 → Type 0 → Type 0
Cell F J = ℕ × F × J

module _ {F J : Type 0} where
  abbrev pub has : ℕ → List (Cell F J) → Bool
  has a [] = false
  has a ((b, f, j) ∷ xs) = (a == b) || has a xs

  abbrev pub Below : ℕ → List (Cell F J) → Type 0
  Below n [] = Unit {0}
  Below n ((a, f, j) ∷ xs) = (a < n) × Below n xs

  abbrev pub head_ptr : List (Cell F J) → Ptr → Ptr
  head_ptr [] stop = stop
  head_ptr ((a, f, j) ∷ xs) stop = some a

  abbrev pub last_ptr : List (Cell F J) → Ptr
  last_ptr [] = none
  last_ptr ((a, f, j) ∷ []) = some a
  last_ptr (c ∷ d ∷ xs) = last_ptr (d ∷ xs)

  abbrev pub cell_entry : Ptr → F → J → JobEntry F J
  cell_entry q f j = record { next = q; job = f; initial_state = j }

  -- The entries of the cells lead to one another, and the last one to `stop`.
  abbrev pub Chain : Heap F J → List (Cell F J) → Ptr → Type 0
  Chain h [] stop = Unit {0}
  Chain h ((a, f, j) ∷ xs) stop = (h a ≡ some (cell_entry (head_ptr xs stop) f j)) × Chain h xs stop

  abbrev pub Distinct : List (Cell F J) → Type 0
  Distinct [] = Unit {0}
  Distinct ((a, f, j) ∷ xs) = (has a xs ≡ false) × Distinct xs

  pub has-append : (a : ℕ) (xs ys : List (Cell F J)) → has a (xs ++ ys) ≡ (has a xs || has a ys)
  has-append a [] ys = refl
  has-append a ((b, f, j) ∷ xs) ys = ground (arith, has-append a xs ys)

  pub head_ptr-append :
      (xs ys : List (Cell F J)) (stop : Ptr)
      → head_ptr (xs ++ ys) stop ≡ head_ptr xs (head_ptr ys stop)
  head_ptr-append [] ys stop = refl
  head_ptr-append (c ∷ xs) ys stop = refl

  pub last_ptr-concat :
      (xs : List (Cell F J)) (a : ℕ) (f : F) (j : J) → last_ptr (xs ++ (a, f, j) ∷ []) ≡ some a
  last_ptr-concat [] a f j = refl
  last_ptr-concat (c ∷ []) a f j = refl
  last_ptr-concat (c ∷ d ∷ xs) a f j = last_ptr-concat (d ∷ xs) a f j

  -- A chain survives a write elsewhere.
  pub Chain-write :
      (h : Heap F J) (p : ℕ) (e : JobEntry F J) (xs : List (Cell F J)) (stop : Ptr)
      → has p xs ≡ false
      → Chain h xs stop
      → Chain (write h p e) xs stop
  unfolding write
  Chain-write h p e [] stop out c = tt
  Chain-write h p e ((a, f, j) ∷ xs) stop out c =
      (ground arith, Chain-write h p e xs stop (ground arith) c.1)

  pub Chain-append :
      (h : Heap F J) (xs ys : List (Cell F J)) (stop : Ptr)
      → Chain h xs (head_ptr ys stop)
      → Chain h ys stop
      → Chain h (xs ++ ys) stop
  Chain-append h [] ys stop c d = d
  Chain-append h (x ∷ xs) ys stop c d =
      (ground (arith, head_ptr-append xs ys stop), Chain-append h xs ys stop c.1 d)

  pub Chain-front :
      (h : Heap F J) (xs ys : List (Cell F J)) (stop : Ptr)
      → Chain h (xs ++ ys) stop
      → Chain h xs (head_ptr ys stop)
  Chain-front h [] ys stop c = tt
  Chain-front h (x ∷ xs) ys stop c =
      (ground (arith, head_ptr-append xs ys stop), Chain-front h xs ys stop c.1)

  pub Chain-back :
      (h : Heap F J) (xs ys : List (Cell F J)) (stop : Ptr)
      → Chain h (xs ++ ys) stop
      → Chain h ys stop
  Chain-back h [] ys stop c = c
  Chain-back h (x ∷ xs) ys stop c = Chain-back h xs ys stop c.1

  pub Below-has : (n a : ℕ) (xs : List (Cell F J)) → Below n xs → n ≤ a → has a xs ≡ false
  Below-has n a [] b h = refl
  Below-has n a ((c, f, j) ∷ xs) b h = ground (arith, Below-has n a xs b.1)

  pub Below-mono : (n : ℕ) (xs : List (Cell F J)) → Below n xs → Below (suc n) xs
  Below-mono n [] b = tt
  Below-mono n (x ∷ xs) b = (omega arith, Below-mono n xs b.1)

  pub Below-append :
      (n : ℕ) (xs ys : List (Cell F J)) → Below n xs → Below n ys → Below n (xs ++ ys)
  Below-append n [] ys b c = c
  Below-append n (x ∷ xs) ys b c = (b.0, Below-append n xs ys b.1 c)

  pub Below-back : (n : ℕ) (xs ys : List (Cell F J)) → Below n (xs ++ ys) → Below n xs × Below n ys
  Below-back n [] ys b = (tt, b)
  Below-back n (x ∷ xs) ys b = let (c, d) = Below-back n xs ys b.1 in ((b.0, c), d)

  pub Distinct-concat :
      (xs : List (Cell F J)) (a : ℕ) (f : F) (j : J)
      → Distinct xs
      → has a xs ≡ false
      → Distinct (xs ++ (a, f, j) ∷ [])
  Distinct-concat [] a f j d out = (refl, tt)
  Distinct-concat ((b, g, k) ∷ xs) a f j d out = (
    ground (arith, has-append b xs ((a, f, j) ∷ [])),
    Distinct-concat xs a f j d.1 (ground arith),
  )

  pub Distinct-back : (xs ys : List (Cell F J)) → Distinct (xs ++ ys) → Distinct ys
  Distinct-back [] ys d = d
  Distinct-back (x ∷ xs) ys d = Distinct-back xs ys d.1

  -- No cell of the front has the address of a cell of the back.
  pub Distinct-apart :
      (xs ys : List (Cell F J)) (a : ℕ) → Distinct (xs ++ ys) → has a ys ≡ true → has a xs ≡ false
  Distinct-apart [] ys a d i = refl
  Distinct-apart ((b, f, j) ∷ xs) ys a d i =
      ground (arith, Distinct-apart xs ys a d.1 i, has-append b xs ys)

  -- The queue holds these cells.
  pub record Holds (q : JobQueue F J) (xs : List (Cell F J)) : Type 0 where
    pub first : q.first_entry ≡ head_ptr xs none
    pub last : q.last_entry ≡ last_ptr xs
    pub chain : Chain q.heap xs none
    pub distinct : Distinct xs
    pub below : Below q.fresh xs
    pub room : length xs ≤ q.fresh

  abbrev pub items : List (Cell F J) → List (F × J)
  items [] = []
  items ((a, f, j) ∷ xs) = (f, j) ∷ items xs
