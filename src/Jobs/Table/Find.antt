-- ===== src/Jobs/Table/Find.antt =====
-- `FindJob` and `ClearFinishedJob`.
use cnc_masm.Prelude.{
  ◌≡◌, refl, Bool, false, ◌&&◌, Option, none, some, [], ◌∷◌, Str, str_eq, has_prefix, StrMap,
  lookup, lookup-delete, if◌then◌else◌, arith, keep, sym,
}
use cnc_masm.Jobs.Info.{GeneralJobInfo}
use cnc_masm.Jobs.Table.{find_loop, find_job, clear_found, clear_finished_job}

-- The job of the only entry of a map.
abbrev pub the_only : {J : Type 0} → StrMap J → Option J
the_only [] = none
the_only ((k, v) ∷ []) = some v
the_only (e ∷ f ∷ m) = none

-- The entries whose key begins with an identifier.
abbrev pub matches : {J : Type 0} → Str → StrMap J → StrMap J
matches job_id = keep (λ (k, v). has_prefix k job_id)

module _ {J : Type 0} (g : GeneralJobInfo J) where
  abbrev after_found : Option J → StrMap J → Option J
  after_found none m = the_only m
  after_found (some v) [] = some v
  after_found (some v) (e ∷ m) = none

  find_loop-matches :
      (ans : Option J) (job_id : Str) (m : StrMap J)
      → find_loop g ans job_id m ≡ after_found ans (matches job_id m)
  unfolding find_loop
  find_loop-matches none job_id [] = refl
  find_loop-matches (some v) job_id [] = refl
  find_loop-matches none job_id ((k, w) ∷ m) =
      ground (arith, find_loop-matches none job_id m, find_loop-matches (some w) job_id m)
  find_loop-matches (some v) job_id ((k, w) ∷ m) =
      ground (arith, find_loop-matches (some v) job_id m)

  -- `FindJob` returns the job of the only entry whose identifier begins with the given text, and
  -- nothing if there is no such entry or more than one.
  pub find_job-only :
      (m : StrMap J) (job_id : Str) → find_job g m job_id ≡ the_only (matches job_id m)
  unfolding find_job
  find_job-only m job_id = find_loop-matches none job_id m

  abbrev pub finished_entry : Option J → Bool
  finished_entry none = false
  finished_entry (some j) = g.is_finished j

  -- What `ClearFinishedJob` does: it returns the job of the table, says whether it is finished,
  -- removes it if so, and changes nothing else.
  pub record Cleared (m : StrMap J) (job_id : Str) (r : (Option J × Bool) × StrMap J) : Type 0 where
    pub found : r.0.0 ≡ lookup job_id m
    pub removed : r.0.1 ≡ finished_entry (lookup job_id m)
    pub table : (k : Str) → lookup k r.1 ≡ (if r.0.1 && str_eq job_id k then none else lookup k m)

  clear_found-Cleared :
      (m : StrMap J) (job_id : Str) (o : Option J)
      → lookup job_id m ≡ o
      → Cleared m job_id (clear_found g m job_id o)
  unfolding clear_found
  clear_found-Cleared m job_id none e = record {
    found = sym e;
    removed = rw e refl;
    table = λ k. refl;
  }
  clear_found-Cleared m job_id (some j) e = record {
    found = ground arith;
    removed = ground arith;
    table = λ k. ground (arith, lookup-delete job_id k m);
  }

  -- `ClearFinishedJob` returns the job that the table has, says that it removed it exactly if it is
  -- finished, removes it then, and leaves every other entry as it is.
  pub clear_finished_job-Cleared :
      (m : StrMap J) (job_id : Str) → Cleared m job_id (clear_finished_job g m job_id)
  unfolding clear_finished_job
  clear_finished_job-Cleared m job_id = clear_found-Cleared m job_id (lookup job_id m) refl
