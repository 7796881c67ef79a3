-- ===== src/Jobs/Deps/Graph.antt =====
-- The relation of a job to its parents, the walks along it, and what `Add` does to it.
use cnc_masm.Prelude.{
  ℕ, ◌≡◌, refl, true, Option, none, some, List, [], ◌∷◌, ◌++◌, arith, Str, str_eq, str_eq_iff,
  str_eq_refl, str_mem, insert, lookup-insert, if◌then◌else◌, ap, ◌∙◌, sym, has_key,
}
use cnc_masm.Jobs.Deps.{
  JobsDeps, DepInfo, DepsError, parents_of, get_parent_ids, ids, with_entry, with_parent,
  without_last, new_dep,
}

abbrev pub IsParent : JobsDeps → Str → Str → Type 0
IsParent jd a b = str_mem b (get_parent_ids jd a) ≡ true

-- A walk from a job to one of its ancestors, `b`.
pub data Walk (jd : JobsDeps) (b : Str) : Str → Type 0 where
  edge : {a : Str} → IsParent jd a b → Walk jd b a
  step : {a c : Str} → IsParent jd a c → Walk jd b c → Walk jd b a

abbrev pub Acyclic : JobsDeps → Type 0
Acyclic jd = (a : Str) → ¬ Walk jd a a

-- Both maps give every job the same parents.
abbrev pub SameParents : JobsDeps → JobsDeps → Type 0
SameParents jd jd' = (a : Str) → parents_of jd' a ≡ parents_of jd a

pub Walk-mono :
    {jd jd' : JobsDeps} {b a : Str}
    → ((x y : Str) → IsParent jd x y → IsParent jd' x y)
    → Walk jd b a
    → Walk jd' b a
Walk-mono f (edge p) = edge (f _ _ p)
Walk-mono f (step p w) = step (f _ _ p) (Walk-mono f w)

pub SameParents-Acyclic : (jd jd' : JobsDeps) → SameParents jd jd' → Acyclic jd → Acyclic jd'
unfolding get_parent_ids
SameParents-Acyclic jd jd' e h a w =
    h a (Walk-mono (λ x y p. ap (λ v. str_mem y (ids v)) (sym (e x)) ∙ p) w)

pub ids-append : (u v : List DepInfo) → ids (u ++ v) ≡ ids u ++ ids v
ids-append [] v = refl
ids-append (d ∷ u) v = ap (λ r. d.job_id ∷ r) (ids-append u v)

pub parents_of-insert :
    (jd : JobsDeps) (k a : Str) (v : List DepInfo)
    → parents_of (insert k v jd) a ≡ (if str_eq k a then v else parents_of jd a)
unfolding parents_of
parents_of-insert jd k a v = ground (arith, lookup-insert k a v jd)

pub with_entry-SameParents : (jd : JobsDeps) (k : Str) → SameParents jd (with_entry jd k)
unfolding with_entry has_key parents_of
with_entry-SameParents jd k a = ground (arith, lookup-insert k a [] jd, str_eq_iff k a)

pub without_last-append : {A : Type 0} (xs : List A) (x : A) → without_last (xs ++ x ∷ []) ≡ xs
without_last-append [] x = refl
without_last-append (y ∷ []) x = refl
without_last-append (y ∷ z ∷ r) x = ap (λ s. y ∷ s) (without_last-append (z ∷ r) x)

pub parents_of-with_parent :
    (now : ℕ) (k parent : Str) (jd : JobsDeps) (a : Str)
    → parents_of (with_parent now jd k parent) a
      ≡ (if str_eq k a then parents_of jd k ++ new_dep now parent ∷ [] else parents_of jd a)
unfolding with_parent
parents_of-with_parent now k parent jd a = parents_of-insert jd k a _

module _ (now : ℕ) (k parent : Str) (jd : JobsDeps) where
  -- What `Add` leaves behind: on success the job has one more parent, on an error every job has
  -- the parents that it had.
  abbrev pub Added : Option DepsError → JobsDeps → Type 0
  Added none jd' =
      (a : Str)
      → parents_of jd' a
        ≡ (if str_eq k a then parents_of jd k ++ new_dep now parent ∷ [] else parents_of jd a)
  Added (some e) jd' = SameParents jd jd'

  -- The map that `Add` makes of `jd` first, and the one with the new parent in it.
  unfoldable pub entered : JobsDeps
  entered = with_entry jd k

  unfoldable pub extended : JobsDeps
  unfolding entered
  extended = with_parent now entered k parent

  pub grown :
      (a : Str)
      → parents_of extended a
        ≡ (if str_eq k a then parents_of jd k ++ new_dep now parent ∷ [] else parents_of jd a)
  unfolding entered extended
  grown a =
      parents_of-with_parent now k parent entered a
      ∙ ground (arith, with_entry-SameParents jd k a, with_entry-SameParents jd k k)

  pub restored :
      (a : Str)
      → parents_of (insert k (without_last (parents_of extended k)) extended) a ≡ parents_of jd a
  restored a = ground (
    arith,
    parents_of-insert extended k a (without_last (parents_of extended k)),
    grown a,
    grown k,
    str_eq_refl k,
    str_eq_iff k a,
    without_last-append (parents_of jd k) (new_dep now parent),
  )
