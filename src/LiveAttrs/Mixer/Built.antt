-- ===== src/LiveAttrs/Mixer/Built.antt =====
-- From the ratios of a request to the tree of its categories.
use cnc_masm.Prelude.{
  lookup, ℕ, suc, ◌+◌, ◌≤◌, ◌<◌, ◌≡◌, refl, sym, ap, ◌∙◌, some, List, [], ◌∷◌, ◌++◌, arith, subst,
  inl, length, All, str, str_eq, StrMap,
}
use cnc_masm.LiveAttrs.Mixer.{value}
use cnc_masm.LiveAttrs.Mixer.Expressions.{atom, is_empty, new_category_expression}
use cnc_masm.LiveAttrs.Mixer.Categories.{TaskArgs}
use cnc_masm.LiveAttrs.Mixer.Tree.{Node, category_tree, build, root_of}
use cnc_masm.LiveAttrs.Mixer.Request.{
  SubcmixerRatio, joined_made, after_level, below_one, next_level, levels, import_task_args,
  root_category, grouped_from,
}
use cnc_masm.LiveAttrs.Mixer.Numbering.{AreReady, AreCategories, IsNumbered, build_from-total}
use cnc_masm.LiveAttrs.Mixer.Virtual.{add_virtual_cats-total}
use cnc_masm.LiveAttrs.Mixer.Ids.{leaf-count}

module _ {F : Type 0} where
  append-AreReady :
      (k : ℕ) (xs ys : List (TaskArgs F))
      → AreReady k xs
      → AreReady (k + length xs) ys
      → AreReady k (xs ++ ys)
  append-AreReady k [] ys h r = subst (λ n. AreReady n ys) (omega arith) r
  append-AreReady k (x ∷ xs) ys (h, hs) r =
      (h, append-AreReady (suc k) xs ys hs (subst (λ n. AreReady n ys) (omega arith) r))

  abbrev AreBelow : ℕ → List (TaskArgs F) → Type 0
  AreBelow n cats = All (λ c. c.node_id < n) cats

  ready-AreBelow :
      (k n : ℕ) (xs : List (TaskArgs F)) → AreReady k xs → k + length xs ≤ n → AreBelow n xs
  ready-AreBelow k n [] h l = tt
  ready-AreBelow k n (x ∷ xs) ((id, v, par, below, ne), hs) l =
      (omega (arith, id, l), ready-AreBelow (suc k) n xs hs (omega (arith, l)))

  AreBelow-more : (k n : ℕ) (xs : List (TaskArgs F)) → AreBelow k xs → k ≤ n → AreBelow n xs
  AreBelow-more k n [] h l = tt
  AreBelow-more k n (x ∷ xs) (h, hs) l = (omega (arith, h, l), AreBelow-more k n xs hs l)

  build-total :
      (list : List (TaskArgs F)) (t : Node F)
      → AreCategories list
      → IsNumbered 1 t
      → (t' : Node F) × (build list t ≡ value t') × IsNumbered (length list) t'
  unfolding build
  build-total [] t h r = ground (arith, h)
  build-total (c ∷ list) t (id, par, h) r =
      let (t', e, n) = build_from-total 1 list t h r in
      (t', e, subst (λ k. IsNumbered k t') (omega arith) n)

  category_tree-total :
      (nought : F) (cats : List (TaskArgs F))
      → AreCategories cats
      → (list : List (TaskArgs F)) × (t : Node F) × (category_tree nought cats ≡ value (list, t))
        × (length cats ≤ length list)
        × IsNumbered (length list) t
  unfolding category_tree
  category_tree-total nought [] h = ground (arith, h)
  category_tree-total nought (c ∷ cats) (id, par, h) =
      let (list, e, ready, longer) = add_virtual_cats-total nought (c ∷ cats) (id, par, h) in
      let (t, e2, n) =
        build-total list (root_of c) ready (λ j. leaf-count j _ ∙ ground (arith, id)) in
      (list, t, rw (e, e2) refl, longer, n)

  module _ (one : F) (percent : F → F) where
    below_one-ready :
        (k parent : ℕ) (items : List (SubcmixerRatio F))
        → parent < k
        → (xs : List (TaskArgs F)) × (below_one one percent k parent items ≡ inl xs)
          × AreReady k xs
          × (length xs ≡ length items)
    unfolding below_one new_category_expression is_empty str_eq lookup
    below_one-ready k parent [] l = ([], refl, tt, refl)
    below_one-ready k parent (item ∷ items) l =
        let (xs, e, r, n) = below_one-ready (suc k) parent items (omega (arith, l)) in
        let made = new_category_expression item.attr_name (str "==") item.attr_value in
        (
          record {
            node_id = k;
            parent_id = some parent;
            ratio = percent item.ratio;
            expression = atom made.0;
          }
              ∷ xs,
          rw e refl,
          ((refl, parent, refl, l, ground arith), r),
          ap suc n,
        )

    next_level-ready :
        (k : ℕ) (prev : List (TaskArgs F)) (items : List (SubcmixerRatio F))
        → AreBelow k prev
        → (xs : List (TaskArgs F)) × (next_level one percent k prev items ≡ inl xs) × AreReady k xs
    unfolding next_level
    next_level-ready k [] items h = ([], refl, tt)
    next_level-ready k (p ∷ prev) items (h, hs) =
        let (xs, e, r, n) = below_one-ready k p.node_id items h in
        let (ys, e2, r2) =
          next_level-ready (k + length items) prev items
            (AreBelow-more k (k + length items) prev hs (omega arith)) in
        (
          xs ++ ys,
          rw (e, e2) refl,
          append-AreReady k xs ys r (subst (λ m. AreReady (k + m) ys) (sym n) r2),
        )

    levels-ready :
        (k : ℕ) (prev : List (TaskArgs F)) (groups : StrMap (List (SubcmixerRatio F)))
        → AreBelow k prev
        → (xs : List (TaskArgs F)) × (levels one percent k prev groups ≡ inl xs) × AreReady k xs
    unfolding levels
    levels-ready k prev [] h = ([], refl, tt)
    levels-ready k prev ((name, items) ∷ groups) h =
        let (xs, e, r) = next_level-ready k prev items h in
        let (ys, e2, r2) =
          levels-ready (k + length xs) xs groups
            (ready-AreBelow k (k + length xs) xs r (omega arith)) in
        (
          xs ++ ys,
          ap
                (λ m.
                  after_level m
                    (λ tmp. joined_made (inl tmp) (levels one percent (k + length tmp) tmp groups)))
                e
              ∙ ap (joined_made (inl xs)) e2,
          append-AreReady k xs ys r r2,
        )

    import_task_args-ready :
        (ratios : List (SubcmixerRatio F))
        → (cats : List (TaskArgs F)) × (import_task_args one percent ratios ≡ inl cats)
          × AreCategories cats
    unfolding import_task_args
    import_task_args-ready ratios =
        let root : TaskArgs F = root_category one percent in
        let (xs, e, r) =
          levels-ready 1 (root ∷ []) (grouped_from one percent [] ratios) (omega arith, tt) in
        (root ∷ xs, ap (joined_made (inl (root ∷ []))) e, (refl, refl, r))

    -- The ratios of every request give categories without an error, and the tree of the categories is
    -- built without a panic: it has a node for each of the categories, those of the request and the
    -- virtual ones, and the numbers of its nodes are those below the number of the categories, each
    -- once.
    pub category_tree-import_task_args :
        (nought : F) (ratios : List (SubcmixerRatio F))
        → (cats list : List (TaskArgs F)) × (t : Node F) × (import_task_args one percent ratios
            ≡ inl cats)
          × (category_tree nought cats ≡ value (list, t))
          × (length cats ≤ length list)
          × IsNumbered (length list) t
    category_tree-import_task_args nought ratios =
        let (cats, e, ready) = import_task_args-ready ratios in
        let (list, t, e2, longer, n) = category_tree-total nought cats ready in
        (cats, list, t, e, e2, longer, n)
