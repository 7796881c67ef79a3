-- ===== src/Tests/Data.antt =====
-- Data that the tests share: jobs, a queue of three of them, dependencies and a job table.
use cnc_masm.Prelude.{
  ℕ, zero, suc, refl, Bool, true, false, Option, none, some, [], ◌∷◌, Str, str, StrMap, arith, List,
}
use cnc_masm.Jobs.Queue.{JobEntry, Heap, JobQueue}
use cnc_masm.Jobs.Queue.Chain.{Cell, Holds}
use cnc_masm.Jobs.Deps.{JobsDeps, DepInfo}
use cnc_masm.Jobs.Info.General.{Job, dummy}

abbrev pub job_of : Bool → Str → ℕ → Bool → Option Str → Job ℕ
job_of pointer id start finished error = dummy pointer (record {
  id = id;
  type = str "dummy-job";
  corpus_id = str "syn";
  start = start;
  update = start;
  finished = finished;
  error = error;
  result = none;
  num_restarts = 0;
})

abbrev pub job_a : Job ℕ
job_a = job_of true (str "a1") 5 false none

abbrev pub job_b : Job ℕ
job_b = job_of true (str "b1") 3 false none

abbrev pub job_c : Job ℕ
job_c = job_of true (str "c1") 9 false none

abbrev pub entry_of : Option ℕ → ℕ → Job ℕ → Option (JobEntry ℕ (Job ℕ))
entry_of next fn j = some (record { next = next; job = fn; initial_state = j })

abbrev pub three_heap : Heap ℕ (Job ℕ)
three_heap zero = entry_of (some 1) 10 job_a
three_heap (suc zero) = entry_of (some 2) 11 job_b
three_heap (suc (suc zero)) = entry_of none 12 job_c
three_heap _ = none

abbrev pub three_queue : JobQueue ℕ (Job ℕ)
three_queue = record { first_entry = some 0; last_entry = some 2; heap = three_heap; fresh = 3 }

abbrev pub cell_a : Cell ℕ (Job ℕ)
cell_a = (0, 10, job_a)

abbrev pub cell_b : Cell ℕ (Job ℕ)
cell_b = (1, 11, job_b)

abbrev pub cell_c : Cell ℕ (Job ℕ)
cell_c = (2, 12, job_c)

abbrev pub three_cells : List (Cell ℕ (Job ℕ))
three_cells = cell_a ∷ cell_b ∷ cell_c ∷ []

pub three_Holds : Holds three_queue three_cells
three_Holds = record {
  first = refl;
  last = refl;
  chain = (refl, (refl, (refl, tt)));
  distinct = (refl, (refl, (refl, tt)));
  below = (omega arith, (omega arith, (omega arith, tt)));
  room = omega arith;
}

abbrev pub dep_on : Str → DepInfo
dep_on parent = record { created_at = 1; job_id = parent; finished = false; has_error = false }

-- `a1` waits for `b1`.
abbrev pub a_after_b : JobsDeps
a_after_b = (str "a1", dep_on (str "b1") ∷ []) ∷ []

abbrev pub two_jobs : StrMap (Job ℕ)
two_jobs = (str "a1", job_a) ∷ (str "b1", job_b) ∷ []
