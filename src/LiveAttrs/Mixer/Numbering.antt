-- ===== src/LiveAttrs/Mixer/Numbering.antt =====
-- The categories that a tree can be built of: numbered in their order, and each below one before it.
use cnc_masm.Prelude.{
  ℕ, suc, ◌+◌, ◌≤◌, ◌<◌, ◌≡◌, refl, ap, ◌∙◌, false, none, some, List, [], ◌∷◌, if◌then◌else◌, ◌==◌,
  ltb, is_some, arith, subst, Option-cases, inl, inr, length,
}
use cnc_masm.LiveAttrs.Mixer.{value}
use cnc_masm.LiveAttrs.Mixer.Expressions.{is_empty}
use cnc_masm.LiveAttrs.Mixer.Categories.{TaskArgs}
use cnc_masm.LiveAttrs.Mixer.Tree.{
  Node, get_node_by_id, append_child, add_category, build_from, new_node, NodeInfo,
}
use cnc_masm.LiveAttrs.Mixer.Ids.{count_id, Has, get_node_by_id-Has, append_child-count, leaf-count}

sum_at :
    (j k a b : ℕ)
    → a ≡ (if ltb j k then 1 else 0)
    → b ≡ (if k == j then 1 else 0)
    → a + b ≡ (if ltb j (suc k) then 1 else 0)
sum_at j k a b h i = ground (arith, h, i)

module _ {F : Type 0} where
  abbrev pub IsReady : ℕ → TaskArgs F → Type 0
  IsReady k c =
      (c.node_id ≡ k) × (v : ℕ) × (c.parent_id ≡ some v) × (v < k) × (is_empty c.expression ≡ false)

  -- From the number `k` on.
  abbrev pub AreReady : ℕ → List (TaskArgs F) → Type 0
  AreReady k [] = Unit
  AreReady k (c ∷ cats) = IsReady k c × AreReady (suc k) cats

  -- The root comes first.
  abbrev pub AreCategories : List (TaskArgs F) → Type 0
  AreCategories [] = 1 ≤ 0
  AreCategories (c ∷ cats) = (c.node_id ≡ 0) × (c.parent_id ≡ none) × AreReady 1 cats

  -- The nodes are numbered below `k`, each number once.
  abbrev pub IsNumbered : ℕ → Node F → Type 0
  IsNumbered k t = (j : ℕ) → count_id j t ≡ (if ltb j k then 1 else 0)

  found :
      (t : Node F) (v : ℕ)
      → count_id v t ≡ 1
      → (parent : NodeInfo F) × (get_node_by_id t v ≡ some parent)
  found t v h = elim (Option-cases (get_node_by_id t v)) [
    | inl e ↦ ground (arith, h, subst (λ o. Has v o (count_id v t)) e (get_node_by_id-Has t v))
    | inr p ↦ p
  ]

  -- The tree is built whole: it has a node for each category.
  add_category-total :
      (k : ℕ) (c : TaskArgs F) (t : Node F)
      → IsReady k c
      → IsNumbered k t
      → (t' : Node F) × (add_category c t ≡ value t') × IsNumbered (suc k) t'
  unfolding add_category
  add_category-total k c t (id, v, par, below, ne) h =
      let (parent, e) = found t v (h v ∙ ground (arith, below)) in
      (
        append_child v (new_node c parent) t,
        rw (ne, par, e) refl,
        λ j.
            append_child-count j v (new_node c parent) t (ap is_some e)
            ∙ sum_at j k (count_id j t) (count_id j (new_node c parent)) (h j)
                (leaf-count j _ ∙ ap (λ n. if n == j then 1 else 0) id),
      )

  pub build_from-total :
      (k : ℕ) (cats : List (TaskArgs F)) (t : Node F)
      → AreReady k cats
      → IsNumbered k t
      → (t' : Node F) × (build_from cats t ≡ value t') × IsNumbered (k + length cats) t'
  unfolding build_from
  build_from-total k [] t r h =
      (t, refl, λ j. h j ∙ ap (λ n. if ltb j n then 1 else 0) (omega arith))
  build_from-total k (c ∷ cats) t (r, rs) h =
      let (t1, e, h1) = add_category-total k c t r h in
      let (t2, e2, h2) = build_from-total (suc k) cats t1 rs h1 in
      (t2, rw e e2, λ j. h2 j ∙ ap (λ n. if ltb j n then 1 else 0) (omega arith))
