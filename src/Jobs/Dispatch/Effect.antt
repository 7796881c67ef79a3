-- ===== src/Jobs/Dispatch/Effect.antt =====
-- What one round of the dispatcher does, by the job at the front of the queue.
use cnc_masm.Prelude.{
  ℕ, ◌≡◌, refl, Bool, true, false, Option, none, some, List, [], ◌∷◌, ◌++◌, Str, insert, has_key,
  all, arith, Bool-cases, inl, inr, ◌⊎◌,
}
use cnc_masm.Jobs.Queue.{Run, ok}
use cnc_masm.Jobs.Queue.Chain.{Cell, Holds}
use cnc_masm.Jobs.Queue.Swap.{swap_last_two}
use cnc_masm.Jobs.Queue.Delay
use cnc_masm.Jobs.Queue.Refine
use cnc_masm.Jobs.Deps.{JobsDeps, parents_of, must_wait, has_failed_parent}
use cnc_masm.Jobs.Deps.Waiting.{is_done, runnable_parents_done}
use cnc_masm.Jobs.Info.{GeneralJobInfo}
use cnc_masm.Jobs.Table.{add_job_info}
use cnc_masm.Jobs.Dispatch.{
  Actions, update_job, dispatch, next_job, by_waiting, after_parents, delay, dequeue_and_run_job,
  dequeue_job_as_failed, run_dequeued, failed_with, failed_parent_msg,
}

both_or_neither :
    (jd : JobsDeps) (k : Str) → must_wait jd k ≡ some false → has_failed_parent jd k ≡ none → ⊥
unfolding must_wait has_failed_parent
both_or_neither jd k w f = ground arith

waiting_known :
    (jd : JobsDeps) (k : Str)
    → has_key k jd ≡ true
    → (must_wait jd k ≡ some true) ⊎ (must_wait jd k ≡ some false)
unfolding must_wait has_key
waiting_known jd k e = ground arith

known_if_decided : (jd : JobsDeps) (k : Str) → must_wait jd k ≡ some false → has_key k jd ≡ true
unfolding must_wait has_key
known_if_decided jd k w = ground arith

-- The record of a job that is taken off because of a failed parent.
abbrev pub failure : {J : Type 0} → GeneralJobInfo J → ℕ → J → J
failure g now j = g.with_error now (some (failed_parent_msg (g.get_id j))) j

module _ {F J : Type 0} (g : GeneralJobInfo J) (now : ℕ) where
  -- What a round leaves alone.
  pub record Keeps (a b : Actions F J) : Type 0 where
    pub conf : b.conf ≡ a.conf
    pub deps : b.job_deps ≡ a.job_deps
    pub recipients : b.recipients ≡ a.recipients

  -- The front job runs: it has no entry in the dependencies, or parents that are all done.
  pub record Starts (a b : Actions F J) (c : Cell F J) (rest : List (Cell F J)) : Type 0 where
    pub keeps : Keeps a b
    pub queue : Holds b.job_queue rest
    pub started : b.started ≡ a.started ++ (c.1, g.get_id c.2) ∷ []
    pub table : b.job_list ≡ insert (g.get_id c.2) c.2 a.job_list
    pub pending : b.pending ≡ a.pending
    pub ready : all is_done (parents_of a.job_deps (g.get_id c.2)) ≡ true

  -- The front job has a failed parent and is taken off as failed.
  pub record Fails (a b : Actions F J) (c : Cell F J) (rest : List (Cell F J)) : Type 0 where
    pub keeps : Keeps a b
    pub queue : Holds b.job_queue rest
    pub started : b.started ≡ a.started
    pub table : b.job_list ≡ insert (g.get_id (failure g now c.2)) (failure g now c.2) a.job_list
    pub pending :
        b.pending
        ≡ a.pending
          ++ update_job (g.get_id (failure g now c.2)) (g.as_finished now (failure g now c.2)) ∷ []
    pub reason : has_failed_parent a.job_deps (g.get_id c.2) ≡ some true

  -- The front job waits for a parent.
  pub record Waits (a b : Actions F J) (c : Cell F J) (rest : List (Cell F J)) : Type 0 where
    pub keeps : Keeps a b
    pub queue : Holds b.job_queue (swap_last_two (c ∷ rest))
    pub started : b.started ≡ a.started
    pub table : b.job_list ≡ a.job_list
    pub pending : b.pending ≡ a.pending
    pub reason : must_wait a.job_deps (g.get_id c.2) ≡ some true

  pub data Effect (a b : Actions F J) : List (Cell F J) → Type 0 where
    idle : b ≡ a → Effect a b []
    starts : {c : Cell F J} {rest : List (Cell F J)} → Starts a b c rest → Effect a b (c ∷ rest)
    fails : {c : Cell F J} {rest : List (Cell F J)} → Fails a b c rest → Effect a b (c ∷ rest)
    waits : {c : Cell F J} {rest : List (Cell F J)} → Waits a b c rest → Effect a b (c ∷ rest)

  abbrev pub Round : Actions F J → List (Cell F J) → Run (Actions F J) → Type 0
  Round a xs r = (b : Actions F J) × (r ≡ ok b) × Effect a b xs

  module _ (a : Actions F J) (c : Cell F J) (rest : List (Cell F J))
      (h : Holds a.job_queue (c ∷ rest)) where
    run_Round :
        all is_done (parents_of a.job_deps (g.get_id c.2)) ≡ true
        → Round a (c ∷ rest) (dequeue_and_run_job g a)
    unfolding dequeue_and_run_job add_job_info
    run_Round ready =
        let (q, e, h') = Refine.dequeue-cons a.job_queue c.0 c.1 c.2 rest h in
        (
          run_dequeued g a (some (c.1, c.2), q),
          rw e refl,
          starts (record {
            keeps = record { conf = refl; deps = refl; recipients = refl };
            queue = h';
            started = refl;
            table = refl;
            pending = refl;
            ready = ready;
          }),
        )

    dequeue_failed-Fails :
        has_failed_parent a.job_deps (g.get_id c.2) ≡ some true
        → (b : Actions F J) × (dequeue_job_as_failed g now (failed_parent_msg (g.get_id c.2)) a
            ≡ ok b)
          × Fails a b c rest
    unfolding dequeue_job_as_failed add_job_info
    dequeue_failed-Fails reason =
        let (q, e, h') = Refine.dequeue-cons a.job_queue c.0 c.1 c.2 rest h in
        (
          failed_with g now (failed_parent_msg (g.get_id c.2)) a c.2 q,
          rw e refl,
          record {
            keeps = record { conf = refl; deps = refl; recipients = refl };
            queue = h';
            started = refl;
            table = refl;
            pending = refl;
            reason = reason;
          },
        )

    fail_Round :
        has_failed_parent a.job_deps (g.get_id c.2) ≡ some true
        → Round a (c ∷ rest) (dequeue_job_as_failed g now (failed_parent_msg (g.get_id c.2)) a)
    fail_Round reason = let (b, e, f) = dequeue_failed-Fails reason in (b, e, fails f)

    -- A round for a job whose parents have all ended, one of them with an error.
    pub dispatch-Fails :
        must_wait a.job_deps (g.get_id c.2) ≡ some false
        → has_failed_parent a.job_deps (g.get_id c.2) ≡ some true
        → (b : Actions F J) × (dispatch g now a ≡ ok b) × Fails a b c rest
    unfolding dispatch next_job by_waiting after_parents
    dispatch-Fails w f =
        let (b, e, fs) = dequeue_failed-Fails f in
        (
          b,
          rw (Refine.peek-first a.job_queue c.0 c.1 c.2 rest h)
              (rw (known_if_decided a.job_deps (g.get_id c.2) w, w, f) e),
          fs,
        )

    wait_Round : must_wait a.job_deps (g.get_id c.2) ≡ some true → Round a (c ∷ rest) (delay g a)
    unfolding delay
    wait_Round reason =
        let (q, e, h') = Delay.delay_next-swap a.job_queue (c ∷ rest) h in
        (
          record a { job_queue = q },
          rw e refl,
          waits (record {
            keeps = record { conf = refl; deps = refl; recipients = refl };
            queue = h';
            started = refl;
            table = refl;
            pending = refl;
            reason = reason;
          }),
        )

    -- A job without an entry in the dependencies has no parents.
    no_entry :
        has_key (g.get_id c.2) a.job_deps ≡ false
        → all is_done (parents_of a.job_deps (g.get_id c.2)) ≡ true
    unfolding has_key parents_of
    no_entry e = ground arith

    parents_Round :
        must_wait a.job_deps (g.get_id c.2) ≡ some false
        → Round a
            (c ∷ rest)
            (after_parents g now (g.get_id c.2) (has_failed_parent a.job_deps (g.get_id c.2)) a)
    unfolding after_parents
    parents_Round w = elim (decided (has_failed_parent a.job_deps (g.get_id c.2)) refl) [
      | inl f ↦ rw f (fail_Round f)
      | inr f ↦ rw f (run_Round (runnable_parents_done a.job_deps (g.get_id c.2) w f))
    ]
      where
        decided :
            (o : Option Bool)
            → has_failed_parent a.job_deps (g.get_id c.2) ≡ o
            → (has_failed_parent a.job_deps (g.get_id c.2) ≡ some true)
              ⊎ (has_failed_parent a.job_deps (g.get_id c.2) ≡ some false)
        decided (some true) e = inl e
        decided (some false) e = inr e
        decided none e = absurd (both_or_neither a.job_deps (g.get_id c.2) w e)

    entry_Round :
        has_key (g.get_id c.2) a.job_deps ≡ true
        → Round a
            (c ∷ rest)
            (by_waiting g now (g.get_id c.2) (must_wait a.job_deps (g.get_id c.2)) a)
    unfolding by_waiting
    entry_Round k = elim (waiting_known a.job_deps (g.get_id c.2) k) [
      | inl w ↦ rw w (wait_Round w)
      | inr w ↦ rw w (parents_Round w)
    ]

    front_Round : Round a (c ∷ rest) (next_job g now (some c.2) a)
    unfolding next_job
    front_Round = elim (Bool-cases (has_key (g.get_id c.2) a.job_deps)) [
      | inl k ↦ rw k (entry_Round k)
      | inr k ↦ rw k (run_Round (no_entry k))
    ]

  -- With a queue that holds jobs the dispatcher returns, neither by a nil pointer nor in an endless
  -- loop, and has one of four effects: none on an empty queue; the front job is started, and then
  -- all its parents have finished without error; it is taken off as failed, and then a parent of
  -- it has failed; or the last two jobs of the queue are swapped, and then the front job has to
  -- wait.
  pub dispatch-Round :
      (a : Actions F J) (xs : List (Cell F J))
      → Holds a.job_queue xs
      → Round a xs (dispatch g now a)
  unfolding dispatch next_job
  dispatch-Round a [] h = (a, rw (Refine.peek-empty a.job_queue h) refl, idle refl)
  dispatch-Round a (c ∷ rest) h =
      rw (Refine.peek-first a.job_queue c.0 c.1 c.2 rest h) (front_Round a c rest h)
