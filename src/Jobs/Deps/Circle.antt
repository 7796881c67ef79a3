-- ===== src/Jobs/Deps/Circle.antt =====
-- `findCircle`: the breadth-first search ends, and reports a job that is its own ancestor.
use cnc_masm.Prelude.{
  ℕ, zero, suc, ◌≤◌, ◌<◌, ◌≡◌, refl, Bool, true, false, not, Option, some, List, [], ◌∷◌, ◌++◌,
  arith, Str, str_eq_iff, str_eq_refl, str_mem, str_mem-append, lookup, length, ap, Bool-cases, inl,
  inr, ◌⊎◌, tally,
}
use cnc_masm.Jobs.Deps.{JobsDeps, get_parent_ids, ids, all_parent_ids, circle_loop, find_circle}
use cnc_masm.Jobs.Deps.Graph.{IsParent, Walk, edge, step}

-- The entries of a list that are not visited yet.
abbrev unseen : List Str → List Str → ℕ
unseen us visited = tally (λ u. not (str_mem u visited)) us

unseen-le : (us visited : List Str) (c : Str) → unseen us (c ∷ visited) ≤ unseen us visited
unseen-le [] visited c = omega arith
unseen-le (u ∷ us) visited c = ground (arith, unseen-le us visited c)

unseen-lt :
    (us visited : List Str) (c : Str)
    → str_mem c us ≡ true
    → str_mem c visited ≡ false
    → unseen us (c ∷ visited) < unseen us visited
unseen-lt [] visited c m o = cc
unseen-lt (u ∷ us) visited c m o = ground (
  arith,
  str_eq_iff c u,
  str_eq_refl c,
  unseen-lt us visited c,
  unseen-le us visited c,
  ap (λ x. str_mem x visited) {x = c} {y = u},
)

unseen-nil : (us : List Str) → unseen us [] ≡ length us
unseen-nil [] = refl
unseen-nil (u ∷ us) = ap suc (unseen-nil us)

parent_in_all :
    (jd : JobsDeps) (a x : Str)
    → str_mem x (get_parent_ids jd a) ≡ true
    → str_mem x (all_parent_ids jd) ≡ true
unfolding get_parent_ids lookup
parent_in_all [] a x m = m
parent_in_all ((k, v) ∷ jd) a x m =
    ground (arith, str_mem-append x (ids v) (all_parent_ids jd), parent_in_all jd a x)

module _ (jd : JobsDeps) (k : Str) where
  abbrev universe : List Str
  universe = k ∷ all_parent_ids jd

  circle_loop-total :
      (n : ℕ) (visited queue : List Str)
      → ((x : Str) → str_mem x queue ≡ true → str_mem x universe ≡ true)
      → unseen universe visited < n
      → (b : Bool) × (circle_loop jd n visited queue ≡ some b)
  unfolding circle_loop
  circle_loop-total n visited [] sub l = (false, refl)
  circle_loop-total zero visited (c ∷ queue) sub l = absurd (omega arith)
  circle_loop-total (suc n) visited (c ∷ queue) sub l = elim (Bool-cases (str_mem c visited)) [
    | inl old ↦ (true, rw old refl)
    | inr new ↦
        let known = sub c (ground (arith, str_eq_refl c)) in
        let (b, e) =
          circle_loop-total n (c ∷ visited) (queue ++ get_parent_ids jd c)
            (λ x m.
              ground
                (arith, str_mem-append x queue (get_parent_ids jd c), sub x, parent_in_all jd c x))
            (omega (arith, unseen-lt universe visited c known new)) in
        (b, rw new e)
  ]

  -- The search of `findCircle` ends on every map.
  pub find_circle-total : (b : Bool) × (find_circle jd k ≡ some b)
  unfolding find_circle
  find_circle-total =
      circle_loop-total (suc (suc (length (all_parent_ids jd)))) [] (k ∷ []) (λ x m. ground arith)
        (omega (arith, unseen-nil universe))

  -- What holds between two rounds once the job itself was visited.
  record Search (visited queue : List Str) : Type 0 where
    seen : str_mem k visited ≡ true
    closed :
        (v w : Str)
        → str_mem v visited ≡ true
        → IsParent jd v w
        → (str_mem w visited ≡ true) ⊎ (str_mem w queue ≡ true)
    back : (v : Str) → str_mem v visited ≡ true → IsParent jd v k → str_mem k queue ≡ true

  start-Search : Search (k ∷ []) ([] ++ get_parent_ids jd k)
  start-Search = record {
    seen = ground (arith, str_eq_refl k);
    closed = λ v w m p. inr (ground (arith, str_eq_iff v k));
    back = λ v m p. ground (arith, str_eq_iff v k);
  }

  next-Search :
      (visited queue : List Str) (c : Str)
      → str_mem c visited ≡ false
      → Search visited (c ∷ queue)
      → Search (c ∷ visited) (queue ++ get_parent_ids jd c)
  next-Search visited queue c new s = record {
    seen = ground (arith, s.seen);
    closed = λ v w m p. ground (
      arith,
      s.closed v w,
      str_eq_iff v c,
      str_eq_iff w c,
      str_mem-append w queue (get_parent_ids jd c),
    );
    back = λ v m p. ground (
      arith,
      s.back v,
      s.seen,
      str_eq_iff v c,
      str_eq_iff k c,
      str_mem-append k queue (get_parent_ids jd c),
    );
  }

  Search-done :
      (n : ℕ) (visited queue : List Str)
      → Search visited queue
      → circle_loop jd n visited queue ≡ some false
      → (vs : List Str) × Search vs []
  unfolding circle_loop
  Search-done n visited [] s e = (visited, s)
  Search-done zero visited (c ∷ queue) s e = cc
  Search-done (suc n) visited (c ∷ queue) s e = elim (Bool-cases (str_mem c visited)) [
    | inl old ↦ absurd (some_true (rw old at e))
    | inr new ↦
        Search-done n (c ∷ visited) (queue ++ get_parent_ids jd c)
          (next-Search visited queue c new s) (rw new at e)
  ]
    where
      some_true : ¬ (◌≡◌ {A = Option Bool} (some true) (some false))
      some_true x = cc

  no-Walk : (vs : List Str) → Search vs [] → {a : Str} → Walk jd k a → str_mem a vs ≡ true → ⊥
  no-Walk vs s (edge {a} p) m = ground (arith, s.back a m p)
  no-Walk vs s (step {a} {c} p w) m = elim (s.closed a c m p) [
    | inl seen ↦ no-Walk vs s w seen
    | inr waiting ↦ ground arith
  ]

  -- If `findCircle` reports nothing, then the job is not among its own ancestors.
  pub find_circle_sound : find_circle jd k ≡ some false → ¬ Walk jd k k
  unfolding find_circle circle_loop
  find_circle_sound e w =
      let (vs, s) =
        Search-done (suc (length (all_parent_ids jd))) (k ∷ []) ([] ++ get_parent_ids jd k)
          start-Search e in
      no-Walk vs s w s.seen

  -- `findCircle` reports a job that is among its own ancestors.
  pub find_circle_complete : Walk jd k k → find_circle jd k ≡ some true
  find_circle_complete w = report find_circle-total.0 find_circle-total.1
    where
      report : (b : Bool) → find_circle jd k ≡ some b → find_circle jd k ≡ some true
      report true e = e
      report false e = absurd (find_circle_sound e w)
