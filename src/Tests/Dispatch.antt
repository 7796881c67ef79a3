-- ===== src/Tests/Dispatch.antt =====
-- The dispatcher with a queue of three jobs.
use cnc_masm.Prelude.{
  ℕ, ◌≡◌, refl, true, false, ◌||◌, Option, some, [], ◌∷◌, str, str_eq, StrMap, lookup, has_key, all,
  arith,
}
use cnc_masm.Jobs.Queue.{ok}
use cnc_masm.Jobs.Deps.{JobsDeps, parents_of, must_wait, has_failed_parent}
use cnc_masm.Jobs.Deps.Waiting.{is_done}
use cnc_masm.Jobs.Info.General.{Job, job_info}
use cnc_masm.Jobs.Info.Contract.{Job-IsJobInfo}
use cnc_masm.Jobs.Table.{value, num_of_unfinished_jobs}
use cnc_masm.Jobs.Dispatch.{
  Actions, TableUpdate, failed_parent_msg, dispatch, tick, finish_job, apply_update,
}
use cnc_masm.Jobs.Dispatch.Effect.{Effect, dispatch-Round}
use cnc_masm.Jobs.Dispatch.Tick.{
  Inv, AfterTick, tick-Inv, Stopped, full_tick_stops, history, ticks, updates, enqueues, next,
}
use cnc_masm.Jobs.Dispatch.Failures.{EndsWith, failed_job_blocks_dependents}
use cnc_masm.Tests.Data.{
  job_of, job_a, job_b, three_queue, three_cells, three_Holds, cell_a, cell_b, cell_c, a_after_b,
  two_jobs,
}

abbrev state_of : ℕ → StrMap (Job ℕ) → JobsDeps → Actions ℕ (Job ℕ)
state_of limit jobs deps = record {
  conf = record { max_num_concurrent_jobs = limit; max_num_restarts = 3 };
  job_list = jobs;
  detached_jobs = [];
  job_queue = three_queue;
  queue_locked = false;
  job_deps = deps;
  recipients = [];
  started = [];
  pending = [];
}

abbrev waiting : Actions ℕ (Job ℕ)
waiting = state_of 4 two_jobs a_after_b

dispatch-Round_example :
    (b : Actions ℕ (Job ℕ)) × (dispatch job_info 8 waiting ≡ ok b)
    × Effect job_info 8 waiting b three_cells
dispatch-Round_example = dispatch-Round job_info 8 waiting three_cells three_Holds

two_unfinished : num_of_unfinished_jobs job_info two_jobs ≡ 2
unfolding num_of_unfinished_jobs
two_unfinished = refl

waiting-Inv : Inv job_info waiting
waiting-Inv = record {
  limit = omega (arith, two_unfinished);
  cells = three_cells;
  queue = three_Holds;
}

tick-Inv_example :
    (r : Option (Actions ℕ (Job ℕ))) × (tick job_info 8 waiting ≡ ok r)
    × AfterTick job_info waiting r
tick-Inv_example = tick-Inv job_info 8 waiting waiting-Inv

abbrev full : Actions ℕ (Job ℕ)
full = state_of 2 two_jobs a_after_b

full_tick_stops_example : Stopped job_info full (
    history job_info
      (ticks 8 ∷ updates 9 (finish_job (str "a1") (some job_a)) ∷ ticks 10 ∷ enqueues 14 job_b ∷ [])
      (next full))
full_tick_stops_example =
    full_tick_stops job_info 8 full
      (updates 9 (finish_job (str "a1") (some job_a)) ∷ ticks 10 ∷ enqueues 14 job_b ∷ []) refl
      (omega (arith, two_unfinished))

abbrev b_failed : Job ℕ
b_failed = job_of true (str "b1") 3 false (some (str "disk full"))

-- `b1` has reported an error, and `a1` waits for it.
abbrev b_reported : Actions ℕ (Job ℕ)
b_reported = state_of 4 ((str "a1", job_a) ∷ (str "b1", b_failed) ∷ []) a_after_b

b_at : lookup (str "b1") b_reported.job_list ≡ some b_failed
unfolding lookup str_eq
b_at = refl

a_known : has_key (str "a1") a_after_b ≡ true
unfolding has_key lookup str_eq
a_known = refl

only_b : all (λ d. str_eq d.job_id (str "b1") || is_done d) (parents_of a_after_b (str "a1")) ≡ true
unfolding parents_of lookup str_eq
only_b = refl

-- `a1` has a failed parent, and is taken off.
abbrev a_barred : Actions ℕ (Job ℕ)
a_barred = state_of 4 [] (
    (str "a1", record { created_at = 1; job_id = str "b1"; finished = true; has_error = true } ∷ [])
    ∷ [])

a_barred_decided : must_wait a_barred.job_deps (str "a1") ≡ some false
unfolding must_wait lookup str_eq
a_barred_decided = refl

a_barred_failed : has_failed_parent a_barred.job_deps (str "a1") ≡ some true
unfolding has_failed_parent lookup str_eq
a_barred_failed = refl

failed_job_blocks_dependents_example :
    (b d : Actions ℕ (Job ℕ)) × (message : TableUpdate (Job ℕ)) × (dispatch job_info 8 a_barred
      ≡ ok b)
    × (b.pending ≡ message ∷ [])
    × (apply_update job_info 9 message b ≡ value d)
    × EndsWith job_info d (str "a1") (some (failed_parent_msg (str "a1")))
    × (d.job_deps ≡ a_barred.job_deps)
failed_job_blocks_dependents_example =
    failed_job_blocks_dependents job_info Job-IsJobInfo 8 9 a_barred cell_a (cell_b ∷ cell_c ∷ [])
      three_Holds a_barred_decided a_barred_failed
