-- ===== src/Tests/Table.antt =====
-- The job table on small maps.
use cnc_masm.Prelude.{
  ℕ, ◌≡◌, refl, true, false, none, some, [], ◌∷◌, str, str_eq, StrMap, lookup, arith, any,
  HasDistinctKeys, ◌+◌,
}
use cnc_masm.Jobs.Info.General.{Job, job_info}
use cnc_masm.Jobs.Info.Contract.{Job-IsJobInfo}
use cnc_masm.Jobs.Table.{
  value, panic, max_age, is_candidate, clear_old_jobs, update_job, finish_job,
}
use cnc_masm.Jobs.Table.Updates.{Holds, update_job-keeps_error}
use cnc_masm.Jobs.Table.Clearing.{IsCleared, lookup-clear_old_jobs, long_job_panics}
use cnc_masm.Tests.Data.{job_of, job_a, job_b, two_jobs}

abbrev failed_b : Job ℕ
failed_b = job_of true (str "b1") 3 false (some (str "disk full"))

abbrev one_failed : StrMap (Job ℕ)
one_failed = (str "a1", job_a) ∷ (str "b1", failed_b) ∷ []

at_b : lookup (str "b1") one_failed ≡ some failed_b
unfolding lookup str_eq
at_b = refl

update_job-keeps_error_example :
    (m : StrMap (Job ℕ)) × (update_job job_info 7 (str "b1") job_b one_failed ≡ value m)
    × Holds job_info (str "b1") (some (str "disk full")) one_failed m
update_job-keeps_error_example =
    update_job-keeps_error job_info Job-IsJobInfo 7 (str "b1") job_b failed_b one_failed at_b

abbrev held_by_value : StrMap (Job ℕ)
held_by_value = (str "a1", job_of false (str "a1") 5 false none) ∷ []

by_value_fits :
    any (λ e. is_candidate job_info (str "syn") (str "dummy-job") e.1) held_by_value ≡ true
unfolding is_candidate str_eq
by_value_fits = refl

at_a : lookup (str "a1") two_jobs ≡ some job_a
unfolding lookup str_eq
at_a = refl

two_jobs-HasDistinctKeys : HasDistinctKeys two_jobs
unfolding lookup str_eq
two_jobs-HasDistinctKeys = (refl, (refl, tt))

lookup-clear_old_jobs_example :
    IsCleared job_info
      (max_age + 6)
      (lookup (str "a1") two_jobs)
      (lookup (str "a1") (clear_old_jobs job_info (max_age + 6) two_jobs))
lookup-clear_old_jobs_example =
    lookup-clear_old_jobs job_info (max_age + 6) (str "a1") two_jobs two_jobs-HasDistinctKeys

long_job_panics_example :
    (update_job job_info 9 (str "a1") job_a (clear_old_jobs job_info (max_age + 6) two_jobs)
      ≡ panic)
    × (finish_job job_info 9 (str "a1") (clear_old_jobs job_info (max_age + 6) two_jobs) ≡ panic)
long_job_panics_example =
    long_job_panics job_info (max_age + 6) 9 (str "a1") job_a job_a two_jobs
      two_jobs-HasDistinctKeys at_a refl (omega arith)
