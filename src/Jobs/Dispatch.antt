-- ===== src/Jobs/Dispatch.antt =====
-- The dispatcher of jobs/actions.go: enqueueing jobs, the tick of the second ticker in `NewActions`
-- and the goroutine that applies the updates of the table. Goroutines are the operations here, in
-- any order; the mutex `jobQueueLock` is a Boolean of the state, and an operation that has to wait
-- for it does not happen.
pub mod Effect
pub mod Failures
pub mod Tick
use cnc_masm.Prelude.{
  ℕ, Bool, true, false, not, ◌&&◌, ◌||◌, Option, none, some, List, [], ◌∷◌, ◌++◌, Str, str, StrMap,
  has_key, if◌then◌else◌, ltb, is_some,
}
use cnc_masm.Jobs.Queue.{JobQueue, Run, ok, nil_deref, diverges, ◌>>=◌, QueueError}
use cnc_masm.Jobs.Queue
use cnc_masm.Jobs.Deps.{JobsDeps, DepsError}
use cnc_masm.Jobs.Deps
use cnc_masm.Jobs.Info.{GeneralJobInfo}
use cnc_masm.Jobs.Table.{Checked, value, panic}
use cnc_masm.Jobs.Table
use cnc_masm.Jobs.Notify.{Recipients, mailed_to}

pub record Conf : Type 0 where
  pub max_num_concurrent_jobs : ℕ
  pub max_num_restarts : ℕ

-- A message to the goroutine of the table. The end of a job has the last item that it sent, and
-- none if it sent nothing.
pub data TableUpdate (J : Type 0) : Type 0 where
  update_job : Str → J → TableUpdate J
  finish_job : Str → Option J → TableUpdate J
  clear_old_jobs : TableUpdate J

-- `started` are the functions that were given a goroutine, and `pending` the updates that the
-- dispatcher itself has sent and that the table has still to take.
pub record Actions (F J : Type 0) : Type 0 where
  pub conf : Conf
  pub job_list : StrMap J
  pub detached_jobs : StrMap J
  pub job_queue : JobQueue F J
  pub queue_locked : Bool
  pub job_deps : JobsDeps
  pub recipients : Recipients
  pub started : List (F × Str)
  pub pending : List (TableUpdate J)

-- `fmt.Errorf("failed to run job %s due to failed parent(s): %w", nextJobID, err)` with a nil
-- `err`.
abbrev pub failed_parent_msg : Str → Str
failed_parent_msg job_id =
    str "failed to run job " ++ job_id ++ str " due to failed parent(s): %!w(<nil>)"

abbrev pub no_status_msg : Str → Str
no_status_msg job_id =
    str "failed to obtain waiting status for job " ++ job_id ++ str ": no such dependecy"

abbrev pub no_parents_msg : Str → Str
no_parents_msg job_id = str "failed to check parents of job " ++ job_id ++ str ": no such dependecy"

module _ {F J : Type 0} (g : GeneralJobInfo J) where
  unfoldable pub with_job : J → Actions F J → Actions F J
  with_job j a =
      let (detached, table) = Table.add_job_info g j (a.detached_jobs, a.job_list) in
      record a { detached_jobs = detached; job_list = table }

  -- The rest of `dequeueAndRunJob`, after `Dequeue`.
  unfoldable pub run_dequeued : Actions F J → Option (F × J) × JobQueue F J → Actions F J
  unfolding with_job
  run_dequeued a (none, q) = record a { job_queue = q }
  run_dequeued a (some (fn, init), q) =
      with_job init (record a { job_queue = q; started = a.started ++ (fn, g.get_id init) ∷ [] })

  unfoldable pub dequeue_and_run_job : Actions F J → Run (Actions F J)
  unfolding run_dequeued
  dequeue_and_run_job a = do r ← Queue.dequeue a.job_queue; ok (run_dequeued a r)

  -- The state after `dequeueJobAsFailed`. The channel that it sends on is never closed, so the
  -- update is all that the table hears of the job.
  unfoldable pub failed_with : ℕ → Str → Actions F J → J → JobQueue F J → Actions F J
  unfolding with_job
  failed_with now err a init q =
      let final = g.with_error now (some err) init in
      with_job final (record a {
        job_queue = q;
        pending = a.pending ++ update_job (g.get_id final) (g.as_finished now final) ∷ [];
      })

  unfoldable pub fail_dequeued :
      ℕ → Str → Actions F J → Option (F × J) × JobQueue F J → Run (Actions F J)
  unfolding failed_with
  fail_dequeued now err a (none, q) = nil_deref
  fail_dequeued now err a (some (fn, init), q) = ok (failed_with now err a init q)

  unfoldable pub dequeue_job_as_failed : ℕ → Str → Actions F J → Run (Actions F J)
  unfolding fail_dequeued
  dequeue_job_as_failed now err a = do r ← Queue.dequeue a.job_queue; fail_dequeued now err a r

  -- The branch for a job that does not wait.
  unfoldable pub after_parents : ℕ → Str → Option Bool → Actions F J → Run (Actions F J)
  after_parents now job_id none a = dequeue_job_as_failed now (no_parents_msg job_id) a
  after_parents now job_id (some true) a = dequeue_job_as_failed now (failed_parent_msg job_id) a
  after_parents now job_id (some false) a = dequeue_and_run_job a

  unfoldable pub delay : Actions F J → Run (Actions F J)
  delay a = do r ← Queue.delay_next a.job_queue; ok (record a { job_queue = r.1 })

  unfoldable pub by_waiting : ℕ → Str → Option Bool → Actions F J → Run (Actions F J)
  by_waiting now job_id none a = dequeue_job_as_failed now (no_status_msg job_id) a
  by_waiting now job_id (some true) a = delay a
  by_waiting now job_id (some false) a =
      after_parents now job_id (Deps.has_failed_parent a.job_deps job_id) a

  unfoldable pub next_job : ℕ → Option J → Actions F J → Run (Actions F J)
  next_job now none a = ok a
  next_job now (some j) a =
      if has_key (g.get_id j) a.job_deps
      then by_waiting now (g.get_id j) (Deps.must_wait a.job_deps (g.get_id j)) a
      else dequeue_and_run_job a

  -- The body of the loop when the lock is held and a job may start.
  unfoldable pub dispatch : ℕ → Actions F J → Run (Actions F J)
  dispatch now a = do next ← Queue.peek a.job_queue; next_job now next a

  -- One tick. The lock is released only where a job may start; `none` stands for a goroutine that
  -- waits for the lock.
  unfoldable pub tick : ℕ → Actions F J → Run (Option (Actions F J))
  tick now a =
      if a.queue_locked
      then ok none
      else (if ltb (Table.num_of_unfinished_jobs g a.job_list) a.conf.max_num_concurrent_jobs
          then (do
            a' ← dispatch now (record a { queue_locked = true })
            ok (some (record a' { queue_locked = false })))
          else ok (some (record a { queue_locked = true })))

  -- `EnqueueJob`
  unfoldable pub enqueue_job : F → J → Actions F J → Run (Option (Actions F J))
  enqueue_job fn init a =
      if a.queue_locked
      then ok none
      else (do q ← Queue.enqueue fn init a.job_queue; ok (some (record a { job_queue = q })))

  unfoldable pub with_deps :
      Actions F J → Option (Option DepsError × JobsDeps) → Run (Option (Actions F J))
  with_deps a none = diverges
  with_deps a (some (e, deps)) = ok (some (record a { job_deps = deps }))

  unfoldable pub with_parent : ℕ → J → Str → Option (Actions F J) → Run (Option (Actions F J))
  unfolding with_deps
  with_parent now init parent none = ok none
  with_parent now init parent (some a) =
      with_deps a (Deps.add now (g.get_id init) parent a.job_deps)

  -- `EqueueJobAfter`; the error of `Add` is ignored.
  unfoldable pub equeue_job_after : ℕ → F → J → Str → Actions F J → Run (Option (Actions F J))
  unfolding with_parent
  equeue_job_after now fn init parent a = do
    r ← enqueue_job fn init a
    with_parent now init parent r

  -- The end of `tableActionFinishJob`; `upd.data.GetError()` on a nil item is a panic.
  unfoldable pub after_finish : Str → Option J → Actions F J → Checked (Actions F J)
  after_finish item_id none a = panic
  after_finish item_id (some last) a = value (record a {
    job_deps = (Deps.set_parent_finished item_id (is_some (g.get_error last)) a.job_deps).1;
  })

  -- The goroutine of the table. The mail of a finished job goes to `mailed_to`.
  unfoldable pub apply_update : ℕ → TableUpdate J → Actions F J → Checked (Actions F J)
  unfolding after_finish
  apply_update now (update_job item_id upd) a =
      Table.◌>>=◌ (Table.update_job g now item_id upd a.job_list)
        (λ m. value (record a { job_list = m }))
  apply_update now (finish_job item_id last) a =
      Table.◌>>=◌ (Table.finish_job g now item_id a.job_list)
        (λ m. after_finish item_id last (record a { job_list = m }))
  apply_update now clear_old_jobs a =
      value (record a { job_list = Table.clear_old_jobs g now a.job_list })
