-- ===== src/Jobs/Table/Clearing.antt =====
-- `clearOldJobs` and what it means for a job that still runs.
use cnc_masm.Prelude.{
  ℕ, ◌+◌, ◌<◌, ◌≤◌, Bool-cases, inl, inr, ◌≡◌, refl, false, Option, none, some, [], ◌∷◌, Str,
  str_eq_iff, StrMap, lookup, if◌then◌else◌, arith, HasDistinctKeys, ◌∙◌,
}
use cnc_masm.Jobs.Info.{GeneralJobInfo}
use cnc_masm.Jobs.Table.{panic, is_old, clear_old_jobs, update_job, finish_job, max_age}
use cnc_masm.Jobs.Table.Updates.{missing_job_panics}

module _ {J : Type 0} (g : GeneralJobInfo J) where
  abbrev pub unless_old : ℕ → Option J → Option J
  unless_old curr none = none
  unless_old curr (some j) = if is_old g curr j then none else some j

  lookup-keep_none :
      (curr : ℕ) (k : Str) (m : StrMap J)
      → lookup k m ≡ none
      → lookup k (clear_old_jobs g curr m) ≡ none
  unfolding clear_old_jobs lookup
  lookup-keep_none curr k [] e = refl
  lookup-keep_none curr k ((i, j) ∷ m) e = ground (arith, lookup-keep_none curr k m)

  unless_old-lookup :
      (curr : ℕ) (k : Str) (m : StrMap J)
      → HasDistinctKeys m
      → lookup k (clear_old_jobs g curr m) ≡ unless_old curr (lookup k m)
  unfolding clear_old_jobs lookup
  unless_old-lookup curr k [] h = refl
  unless_old-lookup curr k ((i, j) ∷ m) h =
      ground (arith, str_eq_iff i k, lookup-keep_none curr k m, unless_old-lookup curr k m h.1)

  -- What a table has under a key before and after `clearOldJobs`; 168 hours are 604,800,000,000,000
  -- nanoseconds.
  pub data IsCleared (curr : ℕ) (before after : Option J) : Type 0 where
    absent : before ≡ none → after ≡ none → IsCleared curr before after
    stays :
        (j : J)
        → before ≡ some j
        → curr ≤ g.get_start_dt j + 604800000000000
        → after ≡ some j
        → IsCleared curr before after
    goes :
        (j : J)
        → before ≡ some j
        → g.get_start_dt j + 604800000000000 < curr
        → after ≡ none
        → IsCleared curr before after

  unless_old-IsCleared : (curr : ℕ) (o : Option J) → IsCleared curr o (unless_old curr o)
  unless_old-IsCleared curr none = absent refl refl
  unless_old-IsCleared curr (some j) = elim (Bool-cases (is_old g curr j)) [
    | inl old ↦ goes j refl (ground (arith, old)) (rw old refl)
    | inr young ↦ stays j refl (ground (arith, young)) (rw young refl)
  ]

  -- In a table with distinct keys `clearOldJobs` removes a job exactly if it started more than 168
  -- hours ago, finished or not, and leaves the others as they are.
  pub lookup-clear_old_jobs :
      (curr : ℕ) (k : Str) (m : StrMap J)
      → HasDistinctKeys m
      → IsCleared curr (lookup k m) (lookup k (clear_old_jobs g curr m))
  lookup-clear_old_jobs curr k m h =
      rw (unless_old-lookup curr k m h) (unless_old-IsCleared curr (lookup k m))

  -- In a table with distinct keys, after `clearOldJobs` any update of a job that was unfinished more
  -- than 168 hours after its start is a panic, as is its end.
  pub long_job_panics :
      (curr now : ℕ) (item_id : Str) (j upd : J) (m : StrMap J)
      → HasDistinctKeys m
      → lookup item_id m ≡ some j
      → g.is_finished j ≡ false
      → g.get_start_dt j + max_age < curr
      → (update_job g now item_id upd (clear_old_jobs g curr m) ≡ panic)
        × (finish_job g now item_id (clear_old_jobs g curr m) ≡ panic)
  long_job_panics curr now item_id j upd m h e u l =
      missing_job_panics g now item_id upd (clear_old_jobs g curr m)
        (unless_old-lookup curr item_id m h ∙ ground arith)
