-- ===== src/Jobs/Notify/Recipients.antt =====
-- Whom the notifications reach.
use cnc_masm.Prelude.{
  ◌≡◌, refl, true, false, ◌||◌, ◌&&◌, Option, none, some, List, [], ◌∷◌, ◌++◌, Str, str_eq,
  str_eq_iff, str_eq_refl, str_eq_sym, str_mem, str_mem-append, StrMap, lookup, lookup-insert,
  if◌then◌else◌, is_some, or_else, arith, ap, Option-cases, inl, inr,
}
use cnc_masm.Jobs.Info.{GeneralJobInfo}
use cnc_masm.Jobs.Table.{find_job}
use cnc_masm.Jobs.Notify.{
  Recipients, registered, remove_first, with_address, without_address, add_notification,
  check_notification, remove_notification, mailed_to,
}

abbrev pub NoDup : List Str → Type 0
NoDup [] = Unit {0}
NoDup (x ∷ xs) = (str_mem x xs ≡ false) × NoDup xs

-- No address is registered twice for one job.
abbrev pub IsClean : Recipients → Type 0
IsClean rs = (k : Str) → NoDup (mailed_to k rs)

NoDup-concat : (x : Str) (xs : List Str) → NoDup xs → str_mem x xs ≡ false → NoDup (xs ++ x ∷ [])
NoDup-concat x [] d o = (refl, tt)
NoDup-concat x (y ∷ xs) d o = (
  ground (arith, str_mem-append y xs (x ∷ []), str_eq_sym x y),
  NoDup-concat x xs d.1 (ground arith),
)

mem-remove_first :
    (x y : Str) (xs : List Str) → str_mem x xs ≡ false → str_mem x (remove_first y xs) ≡ false
unfolding remove_first
mem-remove_first x y [] o = refl
mem-remove_first x y (z ∷ xs) o = ground (arith, mem-remove_first x y xs)

NoDup-remove_first : (x : Str) (xs : List Str) → NoDup xs → NoDup (remove_first x xs)
unfolding remove_first
NoDup-remove_first x [] d = tt
NoDup-remove_first x (y ∷ xs) d = ground (arith, NoDup-remove_first x xs, mem-remove_first y x xs)

-- What is removed from a list without repetitions is gone, and the rest stays.
pub mem-remove_first_iff :
    (x y : Str) (xs : List Str)
    → NoDup xs
    → str_mem x (remove_first y xs) ≡ (if str_eq x y then false else str_mem x xs)
unfolding remove_first
mem-remove_first_iff x y [] d = ground arith
mem-remove_first_iff x y (z ∷ xs) d = ground (
  arith,
  mem-remove_first_iff x y xs,
  str_eq_iff x y,
  str_eq_iff z y,
  str_eq_iff x z,
  str_eq_iff z x,
)

module _ {J : Type 0} (g : GeneralJobInfo J) (jobs : StrMap J) (job_id addr : Str) where
  with_address-NoDup : (o : Option (List Str)) → NoDup (or_else o []) → NoDup (with_address addr o)
  unfolding with_address
  with_address-NoDup none d = (refl, tt)
  with_address-NoDup (some xs) d = ground (arith, NoDup-concat addr xs d)

  mem-with_address :
      (a : Str) (o : Option (List Str))
      → str_mem a (with_address addr o) ≡ (str_eq a addr || str_mem a (or_else o []))
  unfolding with_address
  mem-with_address a none = ground arith
  mem-with_address a (some xs) = ground (
    arith,
    str_eq_iff a addr,
    str_mem-append a xs (addr ∷ []),
    ap (λ x. str_mem x xs) {x = a} {y = addr},
  )

  -- `AddNotification` for a job that it finds adds the address to those that stand under the text
  -- of the request, and changes nobody else's.
  pub add_notification-mailed_to :
      (rs : Recipients) (k a : Str)
      → is_some (find_job g jobs job_id) ≡ true
      → str_mem a (mailed_to k (add_notification g jobs job_id addr rs).1) ≡ (
          if str_eq job_id k
          then (str_eq a addr || str_mem a (mailed_to k rs))
          else str_mem a (mailed_to k rs))
  unfolding add_notification mailed_to
  add_notification-mailed_to rs k a f = ground (
    arith,
    lookup-insert job_id k (with_address addr (lookup job_id rs)) rs,
    mem-with_address a (lookup job_id rs),
    str_eq_iff job_id k,
  )

  -- Where no address is registered twice for one job, `RemoveNotification` for a job that it finds
  -- takes the address away from those under the text of the request, and changes nobody else's.
  pub remove_notification-mailed_to :
      (rs : Recipients) (k a : Str)
      → IsClean rs
      → is_some (find_job g jobs job_id) ≡ true
      → str_mem a (mailed_to k (remove_notification g jobs job_id addr rs).1)
        ≡ (if str_eq job_id k && str_eq a addr then false else str_mem a (mailed_to k rs))
  unfolding remove_notification mailed_to without_address
  remove_notification-mailed_to rs k a c f = elim (Option-cases (lookup job_id rs)) [
    | inl e ↦ ground (arith, str_eq_iff job_id k)
    | inr (xs, e) ↦ ground (
      arith,
      lookup-insert job_id k (remove_first addr xs) rs,
      mem-remove_first_iff a addr xs,
      c job_id,
      str_eq_iff job_id k,
    )
  ]

  -- Where no address is registered twice for one job, none is after `AddNotification` or
  -- `RemoveNotification`.
  pub notifications-IsClean :
      (rs : Recipients)
      → IsClean rs
      → IsClean (add_notification g jobs job_id addr rs).1
        × IsClean (remove_notification g jobs job_id addr rs).1
  unfolding add_notification remove_notification without_address mailed_to
  notifications-IsClean rs c = (
    λ k. ground (
      arith,
      lookup-insert job_id k (with_address addr (lookup job_id rs)) rs,
      with_address-NoDup (lookup job_id rs),
      c k,
      c job_id,
    ),
    λ k. elim (Option-cases (lookup job_id rs)) [
      | inl e ↦ ground (arith, c k)
      | inr (xs, e) ↦ ground (
        arith,
        lookup-insert job_id k (remove_first addr xs) rs,
        NoDup-remove_first addr xs,
        c k,
        c job_id,
      )
    ],
  )

  -- An address that is registered by a text other than the identifier of the job that it finds is
  -- confirmed by `CheckNotification` with the same text, but the recipients of the mail at the end
  -- of the job stay as they were.
  pub prefix_registration_lost :
      (rs : Recipients) (job : J)
      → find_job g jobs job_id ≡ some job
      → str_eq job_id (g.get_id job) ≡ false
      → let rs' = (add_notification g jobs job_id addr rs).1 in
        (check_notification g jobs job_id addr rs' ≡ registered true)
        × (mailed_to (g.get_id job) rs' ≡ mailed_to (g.get_id job) rs)
  unfolding add_notification check_notification mailed_to
  prefix_registration_lost rs job f o = (
    ground (
      arith,
      lookup-insert job_id job_id (with_address addr (lookup job_id rs)) rs,
      str_eq_refl job_id,
      str_eq_refl addr,
      mem-with_address addr (lookup job_id rs),
    ),
    ground (arith, lookup-insert job_id (g.get_id job) (with_address addr (lookup job_id rs)) rs),
  )
