-- ===== src/Jobs/Deps/Waiting.antt =====
-- `MustWait`, `HasFailedParent` and `SetParentFinished`.
use cnc_masm.Prelude.{
  ◌≡◌, refl, Bool, true, false, not, ◌&&◌, ◌||◌, none, some, List, [], ◌∷◌, map, arith, Str, str_eq,
  str_eq_iff, lookup, any, or_else, subst, str_mem, all, has_key,
}
use cnc_masm.Jobs.Deps.{
  JobsDeps, DepInfo, parents_of, get_parent_ids, ids, set_parent_finished, mark_finished, must_wait,
  has_failed_parent, waits_on, no_such_job_dependency,
}
use cnc_masm.Jobs.Deps.Graph.{Acyclic, IsParent, Walk-mono}

module _ (parent : Str) (failed : Bool) where
  abbrev marked : List DepInfo → List DepInfo
  marked = map (mark_finished parent failed)

  lookup-set_parent_finished :
      (jd : JobsDeps) (k : Str)
      → lookup k (set_parent_finished parent failed jd).1
        ≡ elim (lookup k jd) [ none ↦ none | some v ↦ some (marked v) ]
  unfolding set_parent_finished lookup
  lookup-set_parent_finished [] k = refl
  lookup-set_parent_finished ((j, v) ∷ jd) k = ground (arith, lookup-set_parent_finished jd k)

  ids-marked : (v : List DepInfo) → ids (marked v) ≡ ids v
  unfolding mark_finished
  ids-marked [] = refl
  ids-marked (d ∷ v) = ground (arith, ids-marked v)

  -- `SetParentFinished` leaves the parents of every job as they are.
  pub get_parent_ids-set_parent_finished :
      (jd : JobsDeps) (k : Str)
      → get_parent_ids (set_parent_finished parent failed jd).1 k ≡ get_parent_ids jd k
  unfolding get_parent_ids
  get_parent_ids-set_parent_finished jd k =
      ground (arith, lookup-set_parent_finished jd k, ids-marked (or_else (lookup k jd) []))

  -- On a map where no job is its own ancestor `SetParentFinished` leaves such a map.
  pub set_parent_finished-Acyclic :
      (jd : JobsDeps) → Acyclic jd → Acyclic (set_parent_finished parent failed jd).1
  set_parent_finished-Acyclic jd h a w = h a (
      Walk-mono
        (λ x y p. subst (λ l. str_mem y l ≡ true) (get_parent_ids-set_parent_finished jd x) p) w)

  -- `SetParentFinished` reports an error on every map.
  pub set_parent_finished_error :
      (jd : JobsDeps) → (set_parent_finished parent failed jd).0 ≡ no_such_job_dependency
  unfolding set_parent_finished
  set_parent_finished_error jd = refl

abbrev pub is_done : DepInfo → Bool
is_done d = d.finished && not d.has_error

runnable_done :
    (v : List DepInfo)
    → waits_on v ≡ false
    → any (λ d. d.has_error) v ≡ false
    → all is_done v ≡ true
runnable_done v w f = unfinished_only v (ground arith) f
  where
    unfinished_only :
        (u : List DepInfo)
        → any (λ d. not d.finished) u ≡ false
        → any (λ d. d.has_error) u ≡ false
        → all is_done u ≡ true
    unfinished_only [] a b = refl
    unfinished_only (d ∷ u) a b = ground (arith, unfinished_only u)

-- A job that neither waits nor has a failed parent has parents that all finished without error.
pub runnable_parents_done :
    (jd : JobsDeps) (k : Str)
    → must_wait jd k ≡ some false
    → has_failed_parent jd k ≡ some false
    → all is_done (parents_of jd k) ≡ true
unfolding must_wait has_failed_parent parents_of
runnable_parents_done jd k w f = ground (arith, runnable_done (or_else (lookup k jd) []))

failed_in :
    (p : Str) (v : List DepInfo)
    → str_mem p (ids v) ≡ true
    → any (λ d. d.has_error) (marked p true v) ≡ true
unfolding mark_finished
failed_in p [] m = cc
failed_in p (d ∷ v) m = ground (arith, failed_in p v, str_eq_iff p d.job_id, str_eq_iff d.job_id p)

-- Once one of its parents is reported as failed, a job does not wait any more and has a failed
-- parent, whatever its other parents do.
pub failed_parent_decides :
    (jd : JobsDeps) (k p : Str)
    → IsParent jd k p
    → (must_wait (set_parent_finished p true jd).1 k ≡ some false)
      × (has_failed_parent (set_parent_finished p true jd).1 k ≡ some true)
unfolding must_wait has_failed_parent get_parent_ids
failed_parent_decides jd k p m =
    ground (arith, lookup-set_parent_finished p true jd k, failed_in p (or_else (lookup k jd) []))

done_after :
    (p : Str) (v : List DepInfo)
    → all (λ d. str_eq d.job_id p || is_done d) v ≡ true
    → (any (λ d. not d.finished) (marked p false v) ≡ false)
      × (any (λ d. d.has_error) (marked p false v) ≡ false)
unfolding mark_finished
done_after p [] a = (refl, refl)
done_after p (d ∷ v) a = ground (arith, done_after p v)

-- A job with an entry in the map, all of whose parents are done but for one: once that one is
-- reported as finished without error, the job neither waits nor has a failed parent.
pub last_parent_unblocks :
    (jd : JobsDeps) (k p : Str)
    → has_key k jd ≡ true
    → all (λ d. str_eq d.job_id p || is_done d) (parents_of jd k) ≡ true
    → (must_wait (set_parent_finished p false jd).1 k ≡ some false)
      × (has_failed_parent (set_parent_finished p false jd).1 k ≡ some false)
unfolding must_wait has_failed_parent parents_of has_key
last_parent_unblocks jd k p h a =
    ground (arith, lookup-set_parent_finished p false jd k, done_after p (or_else (lookup k jd) []))
