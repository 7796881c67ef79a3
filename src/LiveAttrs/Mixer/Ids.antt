-- ===== src/LiveAttrs/Mixer/Ids.antt =====
-- The numbers of the nodes of a tree of categories: the search finds them, and each category that is
-- built in adds one.
use cnc_masm.Prelude.{
  ℕ, ◌+◌, ◌≤◌, ◌≡◌, refl, sym, ap, ◌∙◌, Bool, true, false, Option, none, some, if◌then◌else◌, ◌==◌,
  is_some, arith, subst, Bool-cases, inl, inr, ==_iff,
}
use cnc_masm.LiveAttrs.Mixer.Tree.{
  NodeInfo, Node, node, Nodes, leaf, child, get_node_by_id, get_among, with_id, append_child,
  append_among, add_last,
}

mutual
  pub count_id : {F : Type 0} → ℕ → Node F → ℕ
  count_id k (node i cs) = (if i.node_id == k then 1 else 0) + count_among k cs

  pub count_among : {F : Type 0} → ℕ → Nodes F → ℕ
  count_among k leaf = 0
  count_among k (child n ns) = count_id k n + count_among k ns

abbrev pub Has : {F : Type 0} → ℕ → Option (NodeInfo F) → ℕ → Type 0
Has w none c = c ≡ 0
Has w (some n) c = (n.node_id ≡ w) × (1 ≤ c)

with_id-Has :
    {F : Type 0} (w : ℕ) (o rest : Option (NodeInfo F)) (c d : ℕ)
    → Has w o c
    → Has w rest d
    → Has w (with_id w o rest) (c + d)
with_id-Has w none none c d h i = omega (arith, h, i)
with_id-Has w none (some m) c d h i = (i.0, omega (arith, i.1))
with_id-Has w (some n) rest c d h i = ground (arith, h)

with_id-rest :
    {F : Type 0} (w : ℕ) (o rest : Option (NodeInfo F))
    → is_some o ≡ false
    → with_id w o rest ≡ rest
with_id-rest w none rest h = refl
with_id-rest w (some n) rest h = ground (arith, h)

node-Has :
    {F : Type 0} (b : Bool) (i : NodeInfo F) (o : Option (NodeInfo F)) (w c : ℕ)
    → (b ≡ true → i.node_id ≡ w)
    → Has w o c
    → Has w (if b then some i else o) ((if b then 1 else 0) + c)
node-Has true i o w c h r = (h refl, omega arith)
node-Has false i none w c h r = omega (arith, r)
node-Has false i (some m) w c h r = (r.0, omega (arith, r.1))

module _ {F : Type 0} where
  -- The search gives a node with the number, and none only if no node has it.
  mutual
    unfolding get_node_by_id count_id

    pub get_node_by_id-Has : (t : Node F) (w : ℕ) → Has w (get_node_by_id t w) (count_id w t)
    get_node_by_id-Has (node i cs) w =
        node-Has (i.node_id == w) i (get_among cs w) w (count_among w cs) ((==_iff i.node_id w).0)
          (get_among-Has cs w)

    get_among-Has : (ts : Nodes F) (w : ℕ) → Has w (get_among ts w) (count_among w ts)
    get_among-Has leaf w = refl
    get_among-Has (child n ns) w =
        with_id-Has w (get_node_by_id n w) (get_among ns w) (count_id w n) (count_among w ns)
          (get_node_by_id-Has n w) (get_among-Has ns w)

  add_last-count :
      (k : ℕ) (ts : Nodes F) (c : Node F)
      → count_among k (add_last ts c) ≡ count_among k ts + count_id k c
  unfolding count_id
  add_last-count k leaf c = omega arith
  add_last-count k (child n ns) c = omega (arith, add_last-count k ns c)

  mutual
    unfolding append_child count_id get_node_by_id

    pub append_child-count :
        (k w : ℕ) (c t : Node F)
        → is_some (get_node_by_id t w) ≡ true
        → count_id k (append_child w c t) ≡ count_id k t + count_id k c
    append_child-count k w c (node i cs) h = elim (Bool-cases (i.node_id == w)) [
      | inl here ↦ rw here (omega (arith, add_last-count k cs c))
      | inr below ↦ rw below (
          omega (
            arith,
            append_among-count k w c cs
                (subst (λ b. is_some (if b then some i else get_among cs w) ≡ true) below h),
          ))
    ]

    append_among-count :
        (k w : ℕ) (c : Node F) (ts : Nodes F)
        → is_some (get_among ts w) ≡ true
        → count_among k (append_among w c ts) ≡ count_among k ts + count_id k c
    append_among-count k w c leaf h = ground (arith, h)
    append_among-count k w c (child n ns) h = elim (Bool-cases (is_some (get_node_by_id n w))) [
      | inl here ↦ rw here (omega (arith, append_child-count k w c n here))
      | inr there ↦ rw there (
          omega (
            arith,
            append_among-count k w c ns
                (ap is_some (sym (with_id-rest w (get_node_by_id n w) (get_among ns w) there)) ∙ h),
          ))
    ]

  pub leaf-count :
      (k : ℕ) (i : NodeInfo F) → count_id k (node i leaf) ≡ (if i.node_id == k then 1 else 0)
  unfolding count_id
  leaf-count k i = omega arith
