-- ===== src/Jobs/Queue.antt =====
-- jobs/queue.go: a singly linked queue. Entries stand at addresses of an explicit heap, `none` is
-- the nil pointer, and a method that mutates `*JobQueue` returns the new queue. A loop over the
-- entries takes one round for each address handed out so far and one more.
pub mod Chain
pub mod Walk
pub mod Refine
pub mod Swap
pub mod Relink
pub mod Delay
use cnc_masm.Prelude.{
  ℕ, zero, suc, ◌+◌, Bool, true, false, Option, none, some, ◌==◌, if◌then◌else◌, ltb,
}

abbrev pub Ptr : Type 0
Ptr = Option ℕ

abbrev pub is_nil : Ptr → Bool
is_nil none = true
is_nil (some a) = false

abbrev pub ptr_eq : Ptr → Ptr → Bool
ptr_eq none none = true
ptr_eq none (some b) = false
ptr_eq (some a) none = false
ptr_eq (some a) (some b) = a == b

-- `job` is a pointer to the function to run.
pub record JobEntry (F J : Type 0) : Type 0 where
  pub next : Ptr
  pub job : F
  pub initial_state : J

abbrev pub Heap : Type 0 → Type 0 → Type 0
Heap F J = ℕ → Option (JobEntry F J)

-- `fresh` is the next address that an allocation hands out.
pub record JobQueue (F J : Type 0) : Type 0 where
  pub first_entry : Ptr
  pub last_entry : Ptr
  pub heap : Heap F J
  pub fresh : ℕ

-- The outcome of a method: `nil_deref` is the run-time panic of a nil pointer, `diverges` a loop
-- that is not over when its rounds are.
pub data Run (A : Type 0) : Type 0 where
  ok : A → Run A
  nil_deref : Run A
  diverges : Run A

infixl 5 ◌>>=◌
abbrev pub ◌>>=◌ : {A B : Type 0} → Run A → (A → Run B) → Run B
ok a >>= f = f a
nil_deref >>= f = nil_deref
diverges >>= f = diverges

pub data QueueError : Type 0 where
  empty_queue : QueueError

module _ {F J : Type 0} where
  unfoldable pub write : Heap F J → ℕ → JobEntry F J → Heap F J
  write h p e a = if a == p then some e else h a

  unfoldable pub load : Heap F J → Ptr → Run (JobEntry F J)
  load h none = nil_deref
  load h (some p) = elim (h p) [ none ↦ nil_deref | some e ↦ ok e ]

  -- `p.next = q`
  unfoldable pub set_next : Heap F J → Ptr → Ptr → Run (Heap F J)
  unfolding load
  set_next h none q = nil_deref
  set_next h (some p) q = do e ← load h (some p); ok (write h p (record e { next = q }))

  unfoldable pub empty : JobQueue F J
  empty = record { first_entry = none; last_entry = none; heap = λ a. none; fresh = 0 }

  abbrev pub rounds : JobQueue F J → ℕ
  rounds q = suc q.fresh

  unfoldable pub size_loop : Heap F J → ℕ → Ptr → ℕ → Run ℕ
  size_loop h zero curr ans = diverges
  size_loop h (suc n) none ans = ok ans
  size_loop h (suc n) (some p) ans = do e ← load h (some p); size_loop h n e.next (ans + 1)

  unfoldable pub size : JobQueue F J → Run ℕ
  unfolding size_loop
  size q = size_loop q.heap (rounds q) q.first_entry 0

  -- `jq.lastEntry.next = entry`, unless the queue has no last entry.
  pub link_last : Heap F J → Ptr → Ptr → Run (Heap F J)
  link_last h none entry = ok h
  link_last h (some l) entry = set_next h (some l) entry

  unfoldable pub enqueue : F → J → JobQueue F J → Run (JobQueue F J)
  unfolding link_last write
  enqueue item initial_state q = do
    let entry = some q.fresh
    let allocated =
        write q.heap q.fresh (record { next = none; job = item; initial_state = initial_state })
    h ← link_last allocated q.last_entry entry
    ok (record {
      first_entry = if is_nil q.first_entry then entry else q.first_entry;
      last_entry = entry;
      heap = h;
      fresh = suc q.fresh;
    })

  pub penultimate_loop : Heap F J → ℕ → Ptr → Ptr → Run Ptr
  penultimate_loop h zero prev curr = diverges
  penultimate_loop h (suc n) prev none = ok prev
  penultimate_loop h (suc n) prev (some p) = do
    e ← load h (some p)
    if is_nil e.next then ok prev else penultimate_loop h n (some p) e.next

  unfoldable pub get_penultimate : JobQueue F J → Run Ptr
  unfolding penultimate_loop
  get_penultimate q = penultimate_loop q.heap (rounds q) none q.first_entry

  -- `for pupu = first; pupu != nil && pupu.next != pu; pupu = pupu.next {}`
  pub before_loop : Heap F J → ℕ → Ptr → Ptr → Run Ptr
  before_loop h zero pu pupu = diverges
  before_loop h (suc n) pu none = ok none
  before_loop h (suc n) pu (some p) = do
    e ← load h (some p)
    if ptr_eq e.next pu then ok (some p) else before_loop h n pu e.next

  -- The branch of `DelayNext` for two entries.
  pub delay_two : JobQueue F J → Run (JobQueue F J)
  unfolding set_next
  delay_two q = do
    let first = q.first_entry
    h ← set_next q.heap q.last_entry first
    h' ← set_next h first none
    ok (record q { first_entry = q.last_entry; last_entry = first; heap = h' })

  -- The branch for more than two.
  pub delay_many : JobQueue F J → Run (JobQueue F J)
  unfolding set_next get_penultimate before_loop
  delay_many q = do
    pu ← get_penultimate q
    let last = q.last_entry
    h ← set_next q.heap pu none
    pupu ← before_loop h (rounds q) pu q.first_entry
    h' ← set_next h pupu last
    h'' ← set_next h' last pu
    ok (record q { last_entry = pu; heap = h'' })

  pub delay_by_size : ℕ → JobQueue F J → Run (JobQueue F J)
  delay_by_size n q = if n == 2 then delay_two q else if ltb 2 n then delay_many q else ok q

  unfoldable pub delay_next : JobQueue F J → Run (Option QueueError × JobQueue F J)
  delay_next q =
      if is_nil q.first_entry
      then ok (some empty_queue, q)
      else do n ← size q; q' ← delay_by_size n q; ok (none, q')

  dequeue_at : JobQueue F J → Ptr → Run (Option (F × J) × JobQueue F J)
  dequeue_at q none = ok (none, q)
  dequeue_at q (some p) = do
    ret ← load q.heap (some p)
    let rest =
        if is_nil ret.next
        then record q { first_entry = none; last_entry = none }
        else record q { first_entry = ret.next }
    ok (some (ret.job, ret.initial_state), rest)

  -- `none` stands for `ErrorEmptyQueue`.
  unfoldable pub dequeue : JobQueue F J → Run (Option (F × J) × JobQueue F J)
  unfolding dequeue_at
  dequeue q = dequeue_at q q.first_entry

  peek_at : Heap F J → Ptr → Run (Option J)
  peek_at h none = ok none
  peek_at h (some p) = do ret ← load h (some p); ok (some ret.initial_state)

  -- `PeekID` without the call of `GetID`; `none` stands for `ErrorEmptyQueue`.
  unfoldable pub peek : JobQueue F J → Run (Option J)
  unfolding peek_at
  peek q = peek_at q.heap q.first_entry
