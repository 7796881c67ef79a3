-- ===== src/Jobs/Dispatch/Tick.antt =====
-- The ticks: the limit of concurrent jobs, and the lock that a tick may leave held.
use cnc_masm.Prelude.{
  ℕ, suc, ◌≤◌, ◌<◌, ◌≡◌, refl, true, false, Option, none, some, List, [], ◌∷◌, Str, StrMap, insert,
  arith, Bool-cases, inl, inr, ltb, subst, sym,
}
use cnc_masm.Jobs.Queue.{Run, ok, nil_deref, diverges}
use cnc_masm.Jobs.Queue.Chain.{Cell, Holds}
use cnc_masm.Jobs.Queue.Swap.{swap_last_two}
use cnc_masm.Jobs.Info.{GeneralJobInfo}
use cnc_masm.Jobs.Table.{num_of_unfinished_jobs, value, panic}
use cnc_masm.Jobs.Dispatch.{
  Actions, TableUpdate, update_job, finish_job, clear_old_jobs, tick, enqueue_job, equeue_job_after,
  apply_update,
}
use cnc_masm.Jobs.Dispatch.Effect.{Effect, idle, starts, fails, waits, dispatch-Round, failure}

module _ {J : Type 0} (g : GeneralJobInfo J) where
  num-insert :
      (k : Str) (j : J) (m : StrMap J)
      → num_of_unfinished_jobs g (insert k j m) ≤ suc (num_of_unfinished_jobs g m)
  unfolding num_of_unfinished_jobs insert
  num-insert k j [] = ground arith
  num-insert k j ((i, v) ∷ m) = ground (arith, num-insert k j m)

module _ {F J : Type 0} (g : GeneralJobInfo J) where
  -- The number of unfinished jobs is within the limit, and the queue holds jobs.
  pub record Inv (a : Actions F J) : Type 0 where
    pub limit : num_of_unfinished_jobs g a.job_list ≤ a.conf.max_num_concurrent_jobs
    pub cells : List (Cell F J)
    pub queue : Holds a.job_queue cells

  Effect-Inv :
      (now : ℕ) (a b : Actions F J) (xs : List (Cell F J))
      → Holds a.job_queue xs
      → num_of_unfinished_jobs g a.job_list < a.conf.max_num_concurrent_jobs
      → Effect g now a b xs
      → Inv b
  Effect-Inv now a b [] h l (idle e) =
      subst Inv (sym e) (record { limit = omega arith; cells = []; queue = h })
  Effect-Inv now a b (c ∷ rest) h l (starts s) = record {
    limit = ground (arith, s.table, s.keeps.conf, num-insert g (g.get_id c.2) c.2 a.job_list);
    cells = rest;
    queue = s.queue;
  }
  Effect-Inv now a b (c ∷ rest) h l (fails s) = record {
    limit = ground (
      arith,
      s.table,
      s.keeps.conf,
      num-insert g (g.get_id (failure g now c.2)) (failure g now c.2) a.job_list,
    );
    cells = rest;
    queue = s.queue;
  }
  Effect-Inv now a b (c ∷ rest) h l (waits s) = record {
    limit = ground (arith, s.table, s.keeps.conf);
    cells = swap_last_two (c ∷ rest);
    queue = s.queue;
  }

  abbrev pub AfterTick : Actions F J → Option (Actions F J) → Type 0
  AfterTick a none = a.queue_locked ≡ true
  AfterTick a (some b) = Inv b

  -- A tick on a state within the limit of concurrent jobs whose queue holds jobs returns: it waits
  -- if the lock is held, and else leaves such a state.
  pub tick-Inv :
      (now : ℕ) (a : Actions F J)
      → Inv a
      → (r : Option (Actions F J)) × (tick g now a ≡ ok r) × AfterTick a r
  unfolding tick
  tick-Inv now a v = elim (Bool-cases a.queue_locked) [
    | inl held ↦ (none, rw held refl, held)
    | inr open_lock ↦
        elim (Bool-cases
          (ltb (num_of_unfinished_jobs g a.job_list) a.conf.max_num_concurrent_jobs)) [
            | inl room ↦
                let (b, e, f) =
                  dispatch-Round g now (record a { queue_locked = true }) v.cells v.queue in
                let w =
                  Effect-Inv now (record a { queue_locked = true }) b v.cells v.queue (ground arith)
                    f in
                (
                  some (record b { queue_locked = false }),
                  rw (open_lock, room, e) refl,
                  record { limit = w.limit; cells = w.cells; queue = w.queue },
                )
            | inr full ↦ (
              some (record a { queue_locked = true }),
              rw (open_lock, full) refl,
              record { limit = v.limit; cells = v.cells; queue = v.queue },
            )
          ]
  ]

  -- A tick that finds as many unfinished jobs as may run leaves the lock of the queue held.
  pub full_tick_locks :
      (now : ℕ) (a : Actions F J)
      → a.queue_locked ≡ false
      → a.conf.max_num_concurrent_jobs ≤ num_of_unfinished_jobs g a.job_list
      → tick g now a ≡ ok (some (record a { queue_locked = true }))
  unfolding tick
  full_tick_locks now a e l = ground arith

pub data Op (F J : Type 0) : Type 0 where
  ticks : ℕ → Op F J
  enqueues : F → J → Op F J
  enqueues_after : ℕ → F → J → Str → Op F J
  updates : ℕ → TableUpdate J → Op F J

-- The service goes on, with the state that an operation left or, where it has to wait, with the
-- state that it found; or it is brought down.
pub data Outcome (F J : Type 0) : Type 0 where
  next : Actions F J → Outcome F J
  crash : Outcome F J

module _ {F J : Type 0} (g : GeneralJobInfo J) where
  abbrev pub settle_run : Actions F J → Run (Option (Actions F J)) → Outcome F J
  settle_run a (ok none) = next a
  settle_run a (ok (some b)) = next b
  settle_run a nil_deref = crash
  settle_run a diverges = crash

  unfoldable pub perform : Op F J → Actions F J → Outcome F J
  perform (ticks now) a = settle_run a (tick g now a)
  perform (enqueues fn init) a = settle_run a (enqueue_job g fn init a)
  perform (enqueues_after now fn init parent) a =
      settle_run a (equeue_job_after g now fn init parent a)
  perform (updates now u) a = elim (apply_update g now u a) [ value b ↦ next b | panic ↦ crash ]

  abbrev pub then_perform : Op F J → Outcome F J → Outcome F J
  then_perform o crash = crash
  then_perform o (next a) = perform o a

  unfoldable pub history : List (Op F J) → Outcome F J → Outcome F J
  history [] r = r
  history (o ∷ os) r = history os (then_perform o r)

  -- The queue is locked, and neither it nor the list of started jobs has changed.
  abbrev pub Stopped : Actions F J → Outcome F J → Type 0
  Stopped a crash = Unit {0}
  Stopped a (next b) =
      (b.queue_locked ≡ true) × (b.job_queue ≡ a.job_queue) × (b.started ≡ a.started)

  tick_locked : (now : ℕ) (b : Actions F J) → b.queue_locked ≡ true → tick g now b ≡ ok none
  unfolding tick
  tick_locked now b e = rw e refl

  enqueue_locked :
      (fn : F) (init : J) (b : Actions F J)
      → b.queue_locked ≡ true
      → enqueue_job g fn init b ≡ ok none
  unfolding enqueue_job
  enqueue_locked fn init b e = rw e refl

  enqueue_after_locked :
      (now : ℕ) (fn : F) (init : J) (parent : Str) (b : Actions F J)
      → b.queue_locked ≡ true
      → equeue_job_after g now fn init parent b ≡ ok none
  unfolding equeue_job_after
  enqueue_after_locked now fn init parent b e = rw (enqueue_locked fn init b e) refl

  perform-Stopped : (o : Op F J) (a b : Actions F J) → Stopped a (next b) → Stopped a (perform o b)
  unfolding perform apply_update
  perform-Stopped (ticks now) a b s = rw (tick_locked now b s.0) s
  perform-Stopped (enqueues fn init) a b s = rw (enqueue_locked fn init b s.0) s
  perform-Stopped (enqueues_after now fn init parent) a b s =
      rw (enqueue_after_locked now fn init parent b s.0) s
  perform-Stopped (updates now (update_job item_id upd)) a b s = ground arith
  perform-Stopped (updates now (finish_job item_id none)) a b s = ground arith
  perform-Stopped (updates now (finish_job item_id (some last))) a b s = ground arith
  perform-Stopped (updates now clear_old_jobs) a b s = s

  history-Stopped :
      (os : List (Op F J)) (a : Actions F J) (r : Outcome F J)
      → Stopped a r
      → Stopped a (history os r)
  unfolding history
  history-Stopped [] a r s = s
  history-Stopped (o ∷ os) a crash s = history-Stopped os a crash s
  history-Stopped (o ∷ os) a (next b) s =
      history-Stopped os a (perform o b) (perform-Stopped o a b s)

  -- Once a tick that takes the lock has found as many unfinished jobs as may run, then after any
  -- sequence of operations the queue is locked and neither it nor the list of started jobs has
  -- changed, unless the service was brought down.
  pub full_tick_stops :
      (now : ℕ) (a : Actions F J) (os : List (Op F J))
      → a.queue_locked ≡ false
      → a.conf.max_num_concurrent_jobs ≤ num_of_unfinished_jobs g a.job_list
      → Stopped a (history (ticks now ∷ os) (next a))
  unfolding history perform
  full_tick_stops now a os e l =
      rw (full_tick_locks g now a e l)
        (history-Stopped os a (next (record a { queue_locked = true })) (refl, refl, refl))
