-- ===== src/Jobs/Table.antt =====
-- The job table of jobs/jobs.go and jobs/actions.go: finding, listing and clearing jobs, and the
-- updates that the jobs send. Everything is generic in the job records, an implementation `g` of
-- `GeneralJobInfo`. The iteration order of a map is that of its list of entries.
pub mod Updates
pub mod Clearing
pub mod Latest
pub mod Find
use cnc_masm.Prelude.{
  ℕ, ◌+◌, ◌*◌, Bool, true, false, not, ◌&&◌, ◌||◌, Option, none, some, List, [], ◌∷◌, ◌++◌, map,
  Str, str, str_eq, has_prefix, StrMap, lookup, insert, delete, has_key, if◌then◌else◌, ltb, leb,
  is_some, keep, tally,
}
use cnc_masm.Jobs.Info.{GeneralJobInfo}

-- The result of code that may panic.
pub data Checked (A : Type 0) : Type 0 where
  value : A → Checked A
  panic : Checked A

infixl 5 ◌>>=◌
abbrev pub ◌>>=◌ : {A B : Type 0} → Checked A → (A → Checked B) → Checked B
value a >>= f = f a
panic >>= f = panic

-- 168 hours in nanoseconds
abbrev pub max_age : ℕ
max_age = 168 * 3600 * 1000000000

module _ {J : Type 0} (g : GeneralJobInfo J) where
  abbrev pub entry_finished : Str × J → Bool
  entry_finished (k, v) = g.is_finished v

  -- `createJobList`
  unfoldable pub create_job_list : Bool → StrMap J → List J
  create_job_list unfinished_only m =
      map (λ (k, v). v) (keep (λ e. not unfinished_only || not (entry_finished e)) m)

  -- The test of `clearOldJobs`, `curr.Sub(v.GetStartDT()) > 168h`.
  abbrev pub is_old : ℕ → J → Bool
  is_old curr v = ltb (g.get_start_dt v + max_age) curr

  unfoldable pub clear_old_jobs : ℕ → StrMap J → StrMap J
  clear_old_jobs curr = keep (λ (k, v). not (is_old curr v))

  find_loop : Option J → Str → StrMap J → Option J
  find_loop ans job_id [] = ans
  find_loop ans job_id ((ident, job) ∷ m) =
      let fits = has_prefix ident job_id in
      let rest = find_loop (if fits then some job else ans) job_id m in
      if fits && is_some ans then none else rest

  -- `FindJob`
  unfoldable pub find_job : StrMap J → Str → Option J
  unfolding find_loop
  find_job m job_id = find_loop none job_id m

  clear_found : StrMap J → Str → Option J → (Option J × Bool) × StrMap J
  clear_found m job_id none = ((none, false), m)
  clear_found m job_id (some job) =
      if g.is_finished job then ((some job, true), delete job_id m) else ((some job, false), m)

  -- `ClearFinishedJob`: the job, whether it was removed, and the table afterwards.
  unfoldable pub clear_finished_job : StrMap J → Str → (Option J × Bool) × StrMap J
  unfolding clear_found
  clear_finished_job m job_id = clear_found m job_id (lookup job_id m)

  -- `numOfUnfinishedJobs`
  unfoldable pub num_of_unfinished_jobs : StrMap J → ℕ
  num_of_unfinished_jobs = tally (λ e. not (entry_finished e))

  -- The part of the loop's test in `LastUnfinishedJobOfType` that is about the job alone.
  unfoldable pub is_candidate : Str → Str → J → Bool
  is_candidate corpus_id job_type v =
      str_eq (g.get_corpus v) corpus_id && str_eq (g.get_type v) job_type && not (g.is_finished v)

  -- `reflect.ValueOf(tmp).IsNil()`: false for a pointer, a panic for a record.
  unfoldable pub reflect_is_nil : J → Checked Bool
  reflect_is_nil v = if g.is_pointer v then value false else panic

  -- `tmp == nil || reflect.ValueOf(tmp).IsNil() || v.GetStartDT().Before(tmp.GetStartDT())`
  unfoldable pub is_better : Option J → J → Checked Bool
  unfolding reflect_is_nil
  is_better none v = value true
  is_better (some tmp) v = do
    missing ← reflect_is_nil tmp
    value (missing || ltb (g.get_start_dt v) (g.get_start_dt tmp))

  unfoldable pub latest_end : Option J → Checked (Option J)
  unfolding reflect_is_nil
  latest_end none = value none
  latest_end (some tmp) = do
    missing ← reflect_is_nil tmp
    value (if missing then none else some tmp)

  pub latest_loop : Str → Str → Option J → StrMap J → Checked (Option J)
  unfolding latest_end is_better
  latest_loop corpus_id job_type tmp [] = latest_end tmp
  latest_loop corpus_id job_type tmp ((k, v) ∷ m) =
      let skip = latest_loop corpus_id job_type tmp m in
      let take = latest_loop corpus_id job_type (some v) m in
      if is_candidate corpus_id job_type v
      then (is_better tmp v >>= λ better. if better then take else skip)
      else skip

  -- `LastUnfinishedJobOfType`; `none` stands for the result `false`.
  unfoldable pub last_unfinished_job_of_type : StrMap J → Str → Str → Checked (Option J)
  unfolding latest_loop
  last_unfinished_job_of_type m corpus_id job_type = latest_loop corpus_id job_type none m

  -- `GetJob`
  unfoldable pub get_job : StrMap J → Str → Option J
  get_job m job_id = lookup job_id m

  -- `ClearDetachedJob`
  unfoldable pub clear_detached_job : StrMap J → Str → Bool × StrMap J
  clear_detached_job m job_id = (has_key job_id m, delete job_id m)

  -- `TestAllowsJobRestart`; `none` stands for the nil error.
  unfoldable pub test_allows_job_restart : ℕ → J → Option Str
  test_allows_job_restart max_num_restarts j =
      if leb max_num_restarts (g.get_num_restarts j)
      then some (str "cannot restart job " ++ g.get_id j ++ str " - max. num. of restarts reached")
      else none

  -- The loop of `NewActions` over the jobs that were stored at the last exit.
  unfoldable pub load_detached : List (Option J) → StrMap J → StrMap J
  load_detached [] m = m
  load_detached (none ∷ js) m = load_detached js m
  load_detached (some j ∷ js) m = load_detached js (insert (g.get_id j) j m)

  -- The two maps of `addJobInfo`: the detached jobs and the table.
  unfoldable pub add_job_info : J → StrMap J × StrMap J → StrMap J × StrMap J
  add_job_info j (detached, table) = (
    if has_key (g.get_id j) detached then delete (g.get_id j) detached else detached,
    insert (g.get_id j) j table,
  )

  -- `tableActionUpdateJob`: the method call on a missing entry is a nil dereference.
  unfoldable pub update_entry : ℕ → J → Option J → Checked J
  update_entry now upd none = panic
  update_entry now upd (some curr) = value (
      if is_some (g.get_error curr) && not (is_some (g.get_error upd))
      then g.with_error now (g.get_error curr) upd
      else upd)

  unfoldable pub update_job : ℕ → Str → J → StrMap J → Checked (StrMap J)
  unfolding update_entry
  update_job now item_id upd m = do
    j ← update_entry now upd (lookup item_id m)
    value (insert item_id j m)

  -- `tableActionFinishJob`, its effect on the table.
  unfoldable pub finish_entry : ℕ → Option J → Checked J
  finish_entry now none = panic
  finish_entry now (some j) = value (g.as_finished now j)

  unfoldable pub finish_job : ℕ → Str → StrMap J → Checked (StrMap J)
  unfolding finish_entry
  finish_job now item_id m = do j ← finish_entry now (lookup item_id m); value (insert item_id j m)
