-- ===== src/Tests/Queue.antt =====
-- jobs/queue.go on a queue of three jobs.
use cnc_masm.Prelude.{ℕ, ◌≡◌, refl, none, some, [], ◌∷◌}
use cnc_masm.Jobs.Queue.{JobQueue, ok, size, size_loop, load, enqueue, peek, dequeue, delay_next}
use cnc_masm.Jobs.Queue.Chain.{Holds}
use cnc_masm.Jobs.Queue.Refine.{size-length, peek-first, dequeue-cons, enqueue-append}
use cnc_masm.Jobs.Queue.Delay.{delay_next-swap}
use cnc_masm.Jobs.Info.General.{Job}
use cnc_masm.Tests.Data.{
  job_a, job_b, three_queue, three_cells, three_Holds, cell_a, cell_b, cell_c,
}

size_three : size three_queue ≡ ok 3
unfolding size size_loop load
size_three = refl

size-length_example : size three_queue ≡ ok 3
size-length_example = size-length three_queue three_cells three_Holds

peek-first_example : peek three_queue ≡ ok (some job_a)
peek-first_example = peek-first three_queue 0 10 job_a (cell_b ∷ cell_c ∷ []) three_Holds

dequeue-cons_example :
    (q : JobQueue ℕ (Job ℕ)) × (dequeue three_queue ≡ ok (some (10, job_a), q))
    × Holds q (cell_b ∷ cell_c ∷ [])
dequeue-cons_example = dequeue-cons three_queue 0 10 job_a (cell_b ∷ cell_c ∷ []) three_Holds

enqueue-append_example :
    (q : JobQueue ℕ (Job ℕ)) × (enqueue 13 job_b three_queue ≡ ok q)
    × Holds q (cell_a ∷ cell_b ∷ cell_c ∷ (3, 13, job_b) ∷ [])
enqueue-append_example = enqueue-append three_queue 13 job_b three_cells three_Holds

delay_next-swap_example :
    (q : JobQueue ℕ (Job ℕ)) × (delay_next three_queue ≡ ok (none, q))
    × Holds q (cell_a ∷ cell_c ∷ cell_b ∷ [])
delay_next-swap_example = delay_next-swap three_queue three_cells three_Holds
