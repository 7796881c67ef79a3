-- ===== src/LiveAttrs/Mixer/Virtual.antt =====
-- `addVirtualCats` keeps what a tree needs of its categories.
use cnc_masm.Prelude.{
  str, str_eq, ℕ, zero, suc, ◌+◌, ◌≤◌, ◌<◌, ◌≡◌, refl, sym, ap, ◌∙◌, Bool, true, false, Option,
  none, some, List, [], ◌∷◌, ◌++◌, arith, subst, length, length-append, All,
}
use cnc_masm.LiveAttrs.Mixer.{value}
use cnc_masm.LiveAttrs.Mixer.Expressions.{is_empty, joined, Items, no_items, item}
use cnc_masm.LiveAttrs.Mixer.Categories.{
  TaskArgs, add_virtual_cat, add_virtual_cats, add_virtual_loop, virtual_cat, negated_siblings,
  flag_at, raise_at, mark, all_false,
}
use cnc_masm.LiveAttrs.Mixer.Numbering.{IsReady, AreReady, AreCategories}

joined-not-empty : (items : Items) → is_empty (joined (str "AND") items) ≡ false
unfolding is_empty str_eq
joined-not-empty no_items = refl
joined-not-empty (item e es) = refl

flag_at-total :
    (flags : List Bool) (v : ℕ) → v < length flags → (b : Bool) × (flag_at flags v ≡ some b)
flag_at-total [] v h = ground (arith, h)
flag_at-total (b ∷ flags) zero h = (b, refl)
flag_at-total (b ∷ flags) (suc v) h = flag_at-total flags v (omega (arith, h))

length-raise_at : (flags : List Bool) (v : ℕ) → length (raise_at flags v) ≡ length flags
length-raise_at [] v = refl
length-raise_at (b ∷ flags) zero = refl
length-raise_at (b ∷ flags) (suc v) = ap suc (length-raise_at flags v)

-- The parent of a category, if there is one, is among the first `n`.
abbrev ParentWithin : ℕ → Option ℕ → Type 0
ParentWithin n none = Unit {0}
ParentWithin n (some v) = v < n

module _ {F : Type 0} where
  -- Adding a virtual category.
  snoc-AreReady :
      (k : ℕ) (cats : List (TaskArgs F)) (c : TaskArgs F)
      → AreReady k cats
      → IsReady (k + length cats) c
      → AreReady k (cats ++ c ∷ [])
  snoc-AreReady k [] c h r = (subst (λ n. IsReady n c) (omega arith) r, tt)
  snoc-AreReady k (x ∷ cats) c (h, hs) r =
      (h, snoc-AreReady (suc k) cats c hs (subst (λ n. IsReady n c) (omega arith) r))

  snoc-AreCategories :
      (cats : List (TaskArgs F)) (c : TaskArgs F)
      → AreCategories cats
      → IsReady (length cats) c
      → AreCategories (cats ++ c ∷ [])
  snoc-AreCategories [] c h r = ground (arith, h)
  snoc-AreCategories (x ∷ cats) c (id, par, h) r =
      (id, par, snoc-AreReady 1 cats c h (subst (λ n. IsReady n c) (omega arith) r))

  length-all_false :
      (nought : F) (cats : List (TaskArgs F)) → length (all_false nought cats) ≡ length cats
  length-all_false nought [] = refl
  length-all_false nought (c ∷ cats) = ap suc (length-all_false nought cats)

  -- The state of the loop over `n` categories.
  record InLoop (n : ℕ) (u : List (TaskArgs F) × List Bool) : Type 0 where
    categories : AreCategories u.0
    longer : n ≤ length u.0
    flags : length u.1 ≡ n

  virtual-IsReady :
      (nought : F) (cats : List (TaskArgs F)) (k v : ℕ)
      → v < k
      → IsReady k (virtual_cat nought cats k (some v))
  unfolding virtual_cat
  virtual-IsReady nought cats k v l =
      (refl, v, refl, l, joined-not-empty (negated_siblings nought (some v) cats no_items))

  mark-InLoop :
      (nought : F) (cats : List (TaskArgs F)) (n v : ℕ) (b : Bool)
      (u : List (TaskArgs F) × List Bool)
      → v < n
      → InLoop n u
      → (u' : List (TaskArgs F) × List Bool) × (mark nought cats v (some b) u ≡ value u')
        × InLoop n u'
  mark-InLoop nought cats n v true u l h = (u, refl, h)
  mark-InLoop nought cats n v false (list, flags) l h = (
    (list ++ virtual_cat nought cats (length list) (some v) ∷ [], raise_at flags v),
    refl,
    record {
      categories =
          snoc-AreCategories list (virtual_cat nought cats (length list) (some v)) h.categories
            (virtual-IsReady nought cats (length list) v (omega (arith, h.longer, l)));
      longer = omega (
        arith,
        h.longer,
        length-append list (virtual_cat nought cats (length list) (some v) ∷ []),
      );
      flags = length-raise_at flags v ∙ h.flags;
    },
  )

  add_virtual_cat-InLoop :
      (nought : F) (cats : List (TaskArgs F)) (n : ℕ) (o : Option ℕ)
      (u : List (TaskArgs F) × List Bool)
      → ParentWithin n o
      → InLoop n u
      → (u' : List (TaskArgs F) × List Bool) × (add_virtual_cat nought cats o u ≡ value u')
        × InLoop n u'
  unfolding add_virtual_cat
  add_virtual_cat-InLoop nought cats n none u p h = (u, refl, h)
  add_virtual_cat-InLoop nought cats n (some zero) u p h = (u, refl, h)
  add_virtual_cat-InLoop nought cats n (some (suc v)) u p h =
      let (b, e) = flag_at-total u.1 (suc v) (omega (arith, p, h.flags)) in
      let (u', e', h') = mark-InLoop nought cats n (suc v) b u p h in
      (u', ap (λ o. mark nought cats (suc v) o u) e ∙ e', h')

  add_virtual_loop-InLoop :
      (nought : F) (cats rest : List (TaskArgs F)) (n : ℕ) (u : List (TaskArgs F) × List Bool)
      → All (λ c. ParentWithin n c.parent_id) rest
      → InLoop n u
      → (u' : List (TaskArgs F) × List Bool) × (add_virtual_loop nought cats rest u ≡ value u')
        × InLoop n u'
  unfolding add_virtual_loop
  add_virtual_loop-InLoop nought cats [] n u p h = (u, refl, h)
  add_virtual_loop-InLoop nought cats (c ∷ rest) n u (p, ps) h =
      let (u1, e1, h1) = add_virtual_cat-InLoop nought cats n c.parent_id u p h in
      let (u2, e2, h2) = add_virtual_loop-InLoop nought cats rest n u1 ps h1 in (u2, rw e1 e2, h2)

  ready-within :
      (k n : ℕ) (cats : List (TaskArgs F))
      → AreReady k cats
      → k + length cats ≤ n
      → All (λ c. ParentWithin n c.parent_id) cats
  ready-within k n [] h l = tt
  ready-within k n (c ∷ cats) ((id, v, par, below, ne), h) l = (
    subst (ParentWithin n) (sym par) (omega (arith, below, l)),
    ready-within (suc k) n cats h (omega (arith, l)),
  )

  -- The virtual categories come after the others, with numbers and parents as a tree needs them.
  pub add_virtual_cats-total :
      (nought : F) (cats : List (TaskArgs F))
      → AreCategories cats
      → (list : List (TaskArgs F)) × (add_virtual_cats nought cats ≡ value list)
        × AreCategories list
        × (length cats ≤ length list)
  unfolding add_virtual_cats
  add_virtual_cats-total nought [] h = ground (arith, h)
  add_virtual_cats-total nought (c ∷ cats) (id, par, h) =
      let n = suc (length cats) in
      let u0 : List (TaskArgs F) × List Bool = (c ∷ cats, all_false nought (c ∷ cats)) in
      let (u, e, inv) =
        add_virtual_loop-InLoop nought (c ∷ cats) (c ∷ cats) n u0
          (subst (ParentWithin n) (sym par) tt, ready-within 1 n cats h (omega arith))
          (record {
            categories = (id, par, h);
            longer = omega arith;
            flags = length-all_false nought (c ∷ cats);
          }) in
      (u.0, rw e refl, inv.categories, inv.longer)
