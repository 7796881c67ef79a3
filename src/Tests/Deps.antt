-- ===== src/Tests/Deps.antt =====
-- jobs/dependecies.go on small maps.
use cnc_masm.Prelude.{
  ◌≡◌, refl, Bool, true, false, ◌||◌, Option, some, [], ◌∷◌, str, all, lookup, arith, str_eq,
  has_key, str_eq_iff, Str,
}
use cnc_masm.Jobs.Deps.{
  JobsDeps, DepsError, add, find_circle, parents_of, must_wait, has_failed_parent,
  set_parent_finished, get_parent_ids, circle_loop,
}
use cnc_masm.Jobs.Deps.Graph.{Walk, edge, step, Acyclic, IsParent, Added}
use cnc_masm.Jobs.Deps.Circle.{find_circle-total, find_circle_complete}
use cnc_masm.Jobs.Deps.Acyclic.{add-Acyclic}
use cnc_masm.Jobs.Deps.Waiting.{is_done, last_parent_unblocks}
use cnc_masm.Tests.Data.{a_after_b, dep_on}

abbrev loop_a_b : JobsDeps
loop_a_b = (str "a1", dep_on (str "b1") ∷ []) ∷ (str "b1", dep_on (str "a1") ∷ []) ∷ []

-- Two parents with a common parent are reported as a circle.
diamond_reported :
    find_circle
      ((str "d", dep_on (str "b") ∷ dep_on (str "c") ∷ [])
        ∷ (str "b", dep_on (str "a") ∷ [])
        ∷ (str "c", dep_on (str "a") ∷ [])
        ∷ [])
      (str "d")
    ≡ some true
unfolding find_circle circle_loop get_parent_ids parents_of lookup str_eq
diamond_reported = refl

no_loop : find_circle a_after_b (str "a1") ≡ some false
unfolding find_circle circle_loop get_parent_ids parents_of lookup str_eq
no_loop = refl

only_parent :
    (a b : Str)
    → IsParent a_after_b a b
    → (str_eq (str "a1") a ≡ true) × (str_eq b (str "b1") ≡ true)
unfolding get_parent_ids parents_of lookup
only_parent a b p = ground arith

apart : (c : Str) → str_eq (str "a1") c ≡ true → str_eq c (str "b1") ≡ true → ⊥
unfolding str_eq
apart c e f = ground (arith, str_eq_iff (str "a1") c)

only-Walk :
    (b : Str) {a : Str}
    → Walk a_after_b b a
    → (str_eq (str "a1") a ≡ true) × (str_eq b (str "b1") ≡ true)
only-Walk b (edge {a} p) = only_parent a b p
only-Walk b (step {a} {c} p w) = absurd (apart c (only-Walk b w).0 (only_parent a c p).1)

a_b-Acyclic : Acyclic a_after_b
a_b-Acyclic a w = apart a (only-Walk a w).0 (only-Walk a w).1

add-Acyclic_example :
    (e : Option DepsError) × (jd' : JobsDeps) × (add 2 (str "b1") (str "a1") a_after_b
      ≡ some (e, jd'))
    × Added 2 (str "b1") (str "a1") a_after_b e jd'
    × Acyclic jd'
add-Acyclic_example = add-Acyclic 2 (str "b1") (str "a1") a_after_b a_b-Acyclic

find_circle-total_example : (b : Bool) × (find_circle loop_a_b (str "a1") ≡ some b)
find_circle-total_example = find_circle-total loop_a_b (str "a1")

a_b-IsParent : IsParent loop_a_b (str "a1") (str "b1")
unfolding get_parent_ids parents_of lookup str_eq
a_b-IsParent = refl

b_a-IsParent : IsParent loop_a_b (str "b1") (str "a1")
unfolding get_parent_ids parents_of lookup str_eq
b_a-IsParent = refl

find_circle_complete_example : find_circle loop_a_b (str "a1") ≡ some true
find_circle_complete_example =
    find_circle_complete loop_a_b (str "a1") (step a_b-IsParent (edge b_a-IsParent))

abbrev b_done : JobsDeps
b_done =
    (
      str "a1",
      record { created_at = 1; job_id = str "b1"; finished = true; has_error = false } ∷ [],
    )
    ∷ []

b_done-waits : must_wait b_done (str "a1") ≡ some false
unfolding must_wait lookup str_eq
b_done-waits = refl

b_done-fails : has_failed_parent b_done (str "a1") ≡ some false
unfolding has_failed_parent lookup str_eq
b_done-fails = refl

a_waits-IsParent : IsParent a_after_b (str "a1") (str "b1")
unfolding get_parent_ids parents_of lookup str_eq
a_waits-IsParent = refl

a_known : has_key (str "a1") a_after_b ≡ true
unfolding has_key lookup str_eq
a_known = refl

no_others :
    all (λ d. str_eq d.job_id (str "b1") || is_done d) (parents_of a_after_b (str "a1")) ≡ true
unfolding parents_of lookup str_eq
no_others = refl

last_parent_unblocks_example :
    (must_wait (set_parent_finished (str "b1") false a_after_b).1 (str "a1") ≡ some false)
    × (has_failed_parent (set_parent_finished (str "b1") false a_after_b).1 (str "a1") ≡ some false)
last_parent_unblocks_example =
    last_parent_unblocks a_after_b (str "a1") (str "b1") a_known no_others
