-- ===== src/Jobs/Notify.antt =====
-- The e-mail notifications of jobs/actions.go: `AddNotification`, `GetNotifications`,
-- `CheckNotification` and `RemoveNotification`, and whom the end of a job is mailed to.
pub mod Recipients
use cnc_masm.Prelude.{
  Bool, true, false, ◌&&◌, Option, none, some, List, [], ◌∷◌, ◌++◌, Str, str_eq, str_mem, StrMap,
  lookup, insert, if◌then◌else◌, is_some, or_else,
}
use cnc_masm.Jobs.Info.{GeneralJobInfo}
use cnc_masm.Jobs.Table.{find_job}

-- `notificationRecipients`
abbrev pub Recipients : Type 0
Recipients = StrMap (List Str)

-- The responses: `registered` with status 200 or 404, or the error `job not found`.
pub data Response : Type 0 where
  registered : Bool → Response
  not_registered : Response
  recipients : List Str → Response
  job_not_found : Response

-- `recipients[:i]` and `recipients[i+1:]` at the first `addr`.
pub remove_first : Str → List Str → List Str
remove_first addr [] = []
remove_first addr (x ∷ xs) = if str_eq x addr then xs else x ∷ remove_first addr xs

unfoldable pub with_address : Str → Option (List Str) → List Str
with_address addr none = addr ∷ []
with_address addr (some xs) = if str_mem addr xs then xs else xs ++ addr ∷ []

unfoldable pub without_address : Str → Str → Recipients → Option (List Str) → Recipients
unfolding remove_first
without_address job_id addr rs none = rs
without_address job_id addr rs (some xs) = insert job_id (remove_first addr xs) rs

module _ {J : Type 0} (g : GeneralJobInfo J) (jobs : StrMap J) where
  -- The recipients are stored under the text of the request.
  unfoldable pub add_notification : Str → Str → Recipients → Response × Recipients
  unfolding with_address
  add_notification job_id addr rs =
      if is_some (find_job g jobs job_id)
      then (registered true, insert job_id (with_address addr (lookup job_id rs)) rs)
      else (job_not_found, rs)

  -- The recipients are read under the identifier of the job.
  unfoldable pub get_notifications : Str → Recipients → Response
  get_notifications job_id rs = elim (find_job g jobs job_id) [
    | none ↦ job_not_found
    | some job ↦ recipients (or_else (lookup (g.get_id job) rs) [])
  ]

  unfoldable pub check_notification : Str → Str → Recipients → Response
  check_notification job_id addr rs =
      if is_some (find_job g jobs job_id)
      then (if str_mem addr (or_else (lookup job_id rs) [])
          then registered true
          else not_registered)
      else job_not_found

  unfoldable pub remove_notification : Str → Str → Recipients → Response × Recipients
  unfolding without_address
  remove_notification job_id addr rs =
      if is_some (find_job g jobs job_id)
      then (registered false, without_address job_id addr rs (lookup job_id rs))
      else (job_not_found, rs)

-- Whom the end of a job is mailed to, in `tableActionFinishJob`.
unfoldable pub mailed_to : Str → Recipients → List Str
mailed_to item_id rs = or_else (lookup item_id rs) []
