-- ===== src/Jobs/Deps/Acyclic.antt =====
-- `Add` and `SetParentFinished` never make a job its own ancestor.
use cnc_masm.Prelude.{
  ℕ, ◌≡◌, refl, Bool, true, false, Option, none, some, arith, Str, str_eq, str_eq_iff, str_mem, sym,
  Bool-cases, inl, inr, ◌⊎◌, subst,
}
use cnc_masm.Jobs.Deps.{
  JobsDeps, DepsError, get_parent_ids, with_entry, settle, add, find_circle, duplicate_dependency,
  circular_job_dependency,
}
use cnc_masm.Jobs.Deps.Graph.{
  IsParent, Walk, edge, step, Acyclic, SameParents-Acyclic, with_entry-SameParents, Added, entered,
  extended, grown, restored,
}
use cnc_masm.Jobs.Deps.Circle.{find_circle-total, find_circle_sound}

Walk-append : {jd : JobsDeps} (b c : Str) {a : Str} → Walk jd b a → Walk jd c b → Walk jd c a
Walk-append b c (edge p) v = step p v
Walk-append b c (step p w) v = step p (Walk-append b c w v)

-- A walk of the new map is one of the old map, or passes the job that was given a parent.
module _ (jd jd' : JobsDeps) (k : Str)
    (old : (x y : Str) → str_eq k x ≡ false → IsParent jd' x y → IsParent jd x y) where
  through :
      (b : Str) {a : Str}
      → Walk jd' b a
      → Walk jd b a ⊎ ((str_eq k a ≡ true) ⊎ Walk jd' k a) × Walk jd' b k
  through b (edge {a} p) = elim (Bool-cases (str_eq k a)) [
    | inl here ↦ inr (inl here, subst (Walk jd' b) (sym ((str_eq_iff k a).0 here)) (edge p))
    | inr away ↦ inl (edge (old a b away p))
  ]
  through b (step {a} {c} p w) = elim (Bool-cases (str_eq k a)) [
    | inl here ↦ inr (inl here, subst (Walk jd' b) (sym ((str_eq_iff k a).0 here)) (step p w))
    | inr away ↦ elim (through b w) [
      | inl v ↦ inl (step (old a c away p) v)
      | inr (inl at, v) ↦
          inr (inr (edge (subst (IsParent jd' a) (sym ((str_eq_iff k c).0 at)) p)), v)
      | inr (inr u, v) ↦ inr (inr (step p u), v)
    ]
  ]

  Acyclic-extend : Acyclic jd → ¬ Walk jd' k k → Acyclic jd'
  Acyclic-extend h none_at_k a w = elim (through a w) [
    | inl v ↦ h a v
    | inr (inl at, v) ↦ none_at_k (subst (λ x. Walk jd' x k) (sym ((str_eq_iff k a).0 at)) v)
    | inr (inr u, v) ↦ none_at_k (Walk-append a k v u)
  ]

module _ (now : ℕ) (k parent : Str) (jd : JobsDeps) where
  abbrev AddReturns : Option (Option DepsError × JobsDeps) → Type 0
  AddReturns o =
      (r : Option DepsError × JobsDeps) × (o ≡ some r)
      × Added now k parent jd r.0 r.1
      × (Acyclic jd → Acyclic r.1)

  others_keep :
      (x y : Str) → str_eq k x ≡ false → IsParent (extended now k parent jd) x y → IsParent jd x y
  unfolding get_parent_ids
  others_keep x y away p = ground (arith, grown now k parent jd x)

  settle-returns :
      (b : Bool)
      → find_circle (extended now k parent jd) k ≡ some b
      → AddReturns (settle (extended now k parent jd) k (some b))
  unfolding settle
  settle-returns false e = (
    (none, extended now k parent jd),
    refl,
    grown now k parent jd,
    λ h.
        Acyclic-extend jd (extended now k parent jd) k others_keep h
          (find_circle_sound (extended now k parent jd) k e),
  )
  settle-returns true e = (
    (some circular_job_dependency, _),
    refl,
    restored now k parent jd,
    SameParents-Acyclic jd _ (restored now k parent jd),
  )

  add_lem : AddReturns (add now k parent jd)
  unfolding add entered extended
  add_lem = elim (Bool-cases (str_mem parent (get_parent_ids (with_entry jd k) k))) [
    | inl known ↦ rw known (
      (some duplicate_dependency, with_entry jd k),
      refl,
      with_entry-SameParents jd k,
      SameParents-Acyclic jd _ (with_entry-SameParents jd k),
    )
    | inr new ↦
        let (b, e) = find_circle-total (extended now k parent jd) k in
        rw (new, e) (settle-returns b e)
  ]

  -- On a map where no job is its own ancestor, `Add` returns, and no job is its own ancestor
  -- afterwards. On success the job has one more parent and every other job the parents that it
  -- had; on an error every job has the parents that it had.
  pub add-Acyclic :
      Acyclic jd
      → (e : Option DepsError) × (jd' : JobsDeps) × (add now k parent jd ≡ some (e, jd'))
        × Added now k parent jd e jd'
        × Acyclic jd'
  add-Acyclic h = let (r, eq, added, keeps) = add_lem in (r.0, r.1, eq, added, keeps h)
