-- ===== src/Jobs/Table/Latest.antt =====
-- `LastUnfinishedJobOfType` returns the candidate that started first, and panics on records.
use cnc_masm.Prelude.{
  ◌≤◌, ◌≡◌, refl, Bool, true, false, Option, none, some, [], ◌∷◌, Str, StrMap, arith, ltb, All, any,
  Bool-cases, inl, inr, ◌⊎◌,
}
use cnc_masm.Jobs.Info.{GeneralJobInfo}
use cnc_masm.Jobs.Table.{
  value, panic, is_candidate, reflect_is_nil, is_better, latest_end, latest_loop,
  last_unfinished_job_of_type,
}

module _ {J : Type 0} (g : GeneralJobInfo J) (corpus_id job_type : Str) where
  abbrev fits : J → Bool
  fits = is_candidate g corpus_id job_type

  -- Every candidate of the table is held as `held` says: true for pointers, false for records.
  abbrev pub HeldAs : Bool → StrMap J → Type 0
  HeldAs held = All (λ e. (fits e.1 ≡ false) ⊎ (g.is_pointer e.1 ≡ held))

  held_at :
      {v : J} {held : Bool}
      → fits v ≡ true
      → (fits v ≡ false) ⊎ (g.is_pointer v ≡ held)
      → g.is_pointer v ≡ held
  held_at good (inl bad) = cc
  held_at good (inr e) = e

  -- No candidate of the table started before the job.
  abbrev pub IsFirst : J → StrMap J → Type 0
  IsFirst j = All (λ e. (fits e.1 ≡ false) ⊎ (g.get_start_dt j ≤ g.get_start_dt e.1))

  -- The table has the job.
  abbrev pub IsIn : J → StrMap J → Type 0
  IsIn j [] = ⊥
  IsIn j ((k, v) ∷ m) = (j ≡ v) ⊎ IsIn j m

  abbrev pub Found : StrMap J → Option J → Type 0
  Found m none = All (λ e. fits e.1 ≡ false) m
  Found m (some j) = (fits j ≡ true) × IsFirst j m × IsIn j m

  -- What the loop returns when it starts from `tmp`.
  abbrev Returns : Option J → StrMap J → Option J → Type 0
  Returns none m r = Found m r
  Returns (some t) m none = ⊥
  Returns (some t) m (some j) =
      (fits j ≡ true) × (g.get_start_dt j ≤ g.get_start_dt t) × IsFirst j m × ((j ≡ t) ⊎ IsIn j m)

  abbrev Ok : Option J → Type 0
  Ok none = Unit {0}
  Ok (some t) = (fits t ≡ true) × (g.is_pointer t ≡ true)

  behind :
      {j t : J} (i : Str) (v : J) (m : StrMap J)
      → (j ≡ t) ⊎ IsIn j m
      → (j ≡ t) ⊎ IsIn j ((i, v) ∷ m)
  behind i v m (inl e) = inl e
  behind i v m (inr w) = inr (inr w)

  -- One more candidate that is later than the result, or no candidate.
  weaken :
      (tmp : Option J) (i : Str) (v : J) (m : StrMap J) (r : Option J)
      → (fits v ≡ false) ⊎ (t : J) × (tmp ≡ some t) × (g.get_start_dt t ≤ g.get_start_dt v)
      → Returns tmp m r
      → Returns tmp ((i, v) ∷ m) r
  weaken none i v m none (inl o) p = (o, p)
  weaken none i v m (some j) (inl o) p = (p.0, (inl o, p.1), inr p.2)
  weaken none i v m r (inr (t, e, l)) p = cc
  weaken (some t) i v m none c p = p
  weaken (some t) i v m (some j) (inl o) p = (p.0, p.1, (inl o, p.2), behind i v m p.3)
  weaken (some t) i v m (some j) (inr (u, e, l)) p =
      (p.0, p.1, (inr (ground arith), p.2), behind i v m p.3)

  -- The candidate became the best so far.
  taken :
      (tmp : Option J) (i : Str) (v : J) (m : StrMap J) (r : Option J)
      → (tmp ≡ none) ⊎ (t : J) × (tmp ≡ some t) × (g.get_start_dt v ≤ g.get_start_dt t)
      → Returns (some v) m r
      → Returns tmp ((i, v) ∷ m) r
  taken tmp i v m none c p = absurd p
  taken none i v m (some j) c p = (p.0, (inr p.1, p.2), p.3)
  taken (some t) i v m (some j) (inl e) p = cc
  taken (some t) i v m (some j) (inr (u, e, l)) p = (p.0, ground arith, (inr p.1, p.2), inr p.3)

  abbrev LoopReturns : Option J → StrMap J → Type 0
  LoopReturns tmp m =
      (r : Option J) × (latest_loop g corpus_id job_type tmp m ≡ value r) × Returns tmp m r

  latest_loop-Returns : (tmp : Option J) (m : StrMap J) → Ok tmp → HeldAs true m → LoopReturns tmp m
  unfolding latest_loop latest_end is_better reflect_is_nil
  latest_loop-Returns none [] k h = (none, refl, tt)
  latest_loop-Returns (some t) [] k h = (some t, ground arith, ground arith)
  latest_loop-Returns none ((i, v) ∷ m) k h = elim (Bool-cases (fits v)) [
    | inl good ↦
        let (r, e, p) = latest_loop-Returns (some v) m (good, held_at good h.0) h.1 in
        (r, rw good e, taken none i v m r (inl refl) p)
    | inr bad ↦
        let (r, e, p) = latest_loop-Returns none m tt h.1 in
        (r, rw bad e, weaken none i v m r (inl bad) p)
  ]
  latest_loop-Returns (some t) ((i, v) ∷ m) k h = elim (Bool-cases (fits v)) [
    | inl good ↦ elim (Bool-cases (ltb (g.get_start_dt v) (g.get_start_dt t))) [
      | inl earlier ↦
          let (r, e, p) = latest_loop-Returns (some v) m (good, held_at good h.0) h.1 in
          (r, rw (good, k.1, earlier) e, taken (some t) i v m r (inr (t, refl, ground arith)) p)
      | inr later ↦
          let (r, e, p) = latest_loop-Returns (some t) m k h.1 in
          (r, rw (good, k.1, later) e, weaken (some t) i v m r (inr (t, refl, ground arith)) p)
    ]
    | inr bad ↦
        let (r, e, p) = latest_loop-Returns (some t) m k h.1 in
        (r, rw bad e, weaken (some t) i v m r (inl bad) p)
  ]

  -- If every candidate is held by a pointer, then `LastUnfinishedJobOfType` returns: nothing if
  -- there is no unfinished job of the corpus and type, and else one of the table that no other such
  -- job of the table started before.
  pub last_unfinished_job_of_type-Found :
      (m : StrMap J)
      → HeldAs true m
      → (r : Option J) × (last_unfinished_job_of_type g m corpus_id job_type ≡ value r) × Found m r
  unfolding last_unfinished_job_of_type
  last_unfinished_job_of_type-Found m h = latest_loop-Returns none m tt h

  records_panic_from :
      (t : J) (m : StrMap J)
      → g.is_pointer t ≡ false
      → HeldAs false m
      → latest_loop g corpus_id job_type (some t) m ≡ panic
  unfolding latest_loop latest_end is_better reflect_is_nil
  records_panic_from t [] k h = rw k refl
  records_panic_from t ((i, v) ∷ m) k h = elim (Bool-cases (fits v)) [
    | inl good ↦ rw (good, k) refl
    | inr bad ↦ rw bad (records_panic_from t m k h.1)
  ]

  -- If the candidates are held as records and there is one, then `LastUnfinishedJobOfType` panics.
  pub records_panic :
      (m : StrMap J)
      → HeldAs false m
      → any (λ e. fits e.1) m ≡ true
      → last_unfinished_job_of_type g m corpus_id job_type ≡ panic
  unfolding last_unfinished_job_of_type latest_loop is_better
  records_panic [] h a = cc
  records_panic ((i, v) ∷ m) h a = elim (Bool-cases (fits v)) [
    | inl good ↦ rw good (records_panic_from v m (held_at good h.0) h.1)
    | inr bad ↦ rw bad (records_panic m h.1 (ground arith))
  ]
