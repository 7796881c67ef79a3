-- ===== src/Tests/Notify.antt =====
-- Notifications for two jobs.
use cnc_masm.Prelude.{
  ◌≡◌, refl, true, false, some, [], ◌∷◌, str, Str, str_eq, is_some, arith, lookup,
}
use cnc_masm.Jobs.Info.General.{job_info}
use cnc_masm.Jobs.Table.{find_job}
use cnc_masm.Jobs.Notify.{Recipients, mailed_to}
use cnc_masm.Jobs.Notify.Recipients.{IsClean}
use cnc_masm.Jobs.Table.Find.{find_job-only}
use cnc_masm.Tests.Data.{job_a, two_jobs}

abbrev kim : Str
kim = str "kim@x.cz"

abbrev lee : Str
lee = str "lee@x.cz"

abbrev registered_kim : Recipients
registered_kim = (str "a1", kim ∷ []) ∷ []

finds_a1 : is_some (find_job job_info two_jobs (str "a1")) ≡ true
finds_a1 = rw (find_job-only job_info two_jobs (str "a1")) refl

finds_a : find_job job_info two_jobs (str "a") ≡ some job_a
finds_a = find_job-only job_info two_jobs (str "a")

kim-IsClean : IsClean registered_kim
unfolding mailed_to lookup
kim-IsClean k = ground arith

prefix_differs : str_eq (str "a") (str "a1") ≡ false
unfolding str_eq
prefix_differs = refl
