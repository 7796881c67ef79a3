-- ===== src/LiveAttrs/Mixer/Panics.antt =====
-- The requests that end with a panic when the sizes of the categories are looked up.
use cnc_masm.Prelude.{
  ℕ, ◌≡◌, refl, Bool, true, false, Option, none, List, [], ◌∷◌, Str, str, any, all, arith,
  Bool-cases, inl, inr,
}
use cnc_masm.LiveAttrs.Mixer.{panic}
use cnc_masm.LiveAttrs.Mixer.Expressions.{
  Expression, CategoryExpression, atom, joined, Items, no_items, item, add_item, negate, get_atoms,
  collect_atoms_recursive, is_empty,
}
use cnc_masm.LiveAttrs.Mixer.Categories.{TaskArgs, same_parent, negated_siblings, virtual_cat}
use cnc_masm.LiveAttrs.Mixer.Tree.{conditions_for}
use cnc_masm.LiveAttrs.Mixer.Queries.{append_aligned_corp_sql, all_atoms, no_nil, category_size_sql}

-- With an aligned corpus.
pub aligned_panics :
    (table corpus ac : Str) (aligned : List Str) (mc : List Expression)
    → category_size_sql table corpus (ac ∷ aligned) mc ≡ panic
unfolding category_size_sql append_aligned_corp_sql
aligned_panics table corpus ac aligned mc = refl

-- The first of the items of a join is an atom.
abbrev pub starts_with_atom : Items → Bool
starts_with_atom no_items = false
starts_with_atom (item (atom ce) es) = true
starts_with_atom (item (joined op es) rest) = false

add_item-starts :
    (e : Expression) (es : Items)
    → starts_with_atom es ≡ true
    → starts_with_atom (add_item e es) ≡ true
unfolding add_item
add_item-starts e no_items h = ground (arith, h)
add_item-starts e (item (atom ce) es) h = refl
add_item-starts e (item (joined op xs) es) h = ground (arith, h)

-- The categories of a request have atoms for conditions.
abbrev pub is_atom : Expression → Bool
is_atom (atom ce) = true
is_atom (joined op es) = false

-- The first of the atoms of conditions is nil.
abbrev pub StartsWithNil : List Expression → Type 0
StartsWithNil mc = (rest : List (Option CategoryExpression)) × (all_atoms mc ≡ none ∷ rest)

atoms-StartsWithNil :
    (op : Str) (es : Items) (mc : List Expression)
    → starts_with_atom es ≡ true
    → StartsWithNil (joined op es ∷ mc)
unfolding all_atoms get_atoms collect_atoms_recursive
atoms-StartsWithNil op no_items mc h = absurd (cc)
atoms-StartsWithNil op (item (atom ce) es) mc h = (_, refl)
atoms-StartsWithNil op (item (joined o xs) es) mc h = absurd (cc)

conditions-StartsWithNil :
    (op : Str) (es : Items) (pmc : List Expression)
    → starts_with_atom es ≡ true
    → StartsWithNil (conditions_for (joined op es) pmc)
unfolding conditions_for
conditions-StartsWithNil op es [] h = atoms-StartsWithNil op es [] h
conditions-StartsWithNil op es (x ∷ pmc) h = elim (Bool-cases (is_empty x)) [
  | inl e ↦ rw e (atoms-StartsWithNil op es [] h)
  | inr e ↦ rw e (atoms-StartsWithNil op es (x ∷ pmc) h)
]

size_sql-nil :
    (table corpus : Str) (aligned : List Str) (mc : List Expression)
    → StartsWithNil mc
    → category_size_sql table corpus aligned mc ≡ panic
unfolding category_size_sql append_aligned_corp_sql no_nil
size_sql-nil table corpus [] mc (rest, e) = rw e refl
size_sql-nil table corpus (ac ∷ aligned) mc h = refl

module _ {F : Type 0} (nought : F) where
  siblings_keep :
      (par : Option ℕ) (cats : List (TaskArgs F)) (mdc : Items)
      → starts_with_atom mdc ≡ true
      → starts_with_atom (negated_siblings nought par cats mdc) ≡ true
  unfolding negated_siblings
  siblings_keep par [] mdc h = h
  siblings_keep par (c ∷ cats) mdc h = elim (Bool-cases (same_parent c.parent_id par)) [
    | inl e ↦ rw e (
        siblings_keep par cats (add_item (negate c.expression) mdc)
          (add_item-starts (negate c.expression) mdc h))
    | inr e ↦ rw e (siblings_keep par cats mdc h)
  ]

  first-starts :
      (e : Expression) → is_atom e ≡ true → starts_with_atom (add_item (negate e) no_items) ≡ true
  unfolding negate add_item
  first-starts (atom ce) h = refl
  first-starts (joined op es) h = ground (arith, h)

  siblings-starts :
      (par : Option ℕ) (cats : List (TaskArgs F))
      → all (λ c. is_atom c.expression) cats ≡ true
      → any (λ c. same_parent c.parent_id par) cats ≡ true
      → starts_with_atom (negated_siblings nought par cats no_items) ≡ true
  unfolding negated_siblings
  siblings-starts par [] h i = ground (arith, i)
  siblings-starts par (c ∷ cats) h i = elim (Bool-cases (same_parent c.parent_id par)) [
    | inl e ↦ rw e (
        siblings_keep par cats (add_item (negate c.expression) no_items)
          (first-starts c.expression (ground (arith, h))))
    | inr e ↦ rw e (siblings-starts par cats (ground (arith, h)) (ground (arith, i, e)))
  ]

  -- If the conditions of all categories of the request are atoms, and one of the categories has a
  -- given parent, the first of the atoms of the virtual category of that parent is nil, whatever
  -- the conditions of the parent are. getCategorySize panics for it, with aligned corpora and
  -- without.
  pub virtual_cat_panics :
      (table corpus : Str) (aligned : List Str) (id : ℕ) (par : Option ℕ) (cats : List (TaskArgs F))
      (pmc : List Expression)
      → all (λ c. is_atom c.expression) cats ≡ true
      → any (λ c. same_parent c.parent_id par) cats ≡ true
      → let mc = conditions_for (virtual_cat nought cats id par).expression pmc in
        StartsWithNil mc × (category_size_sql table corpus aligned mc ≡ panic)
  unfolding virtual_cat
  virtual_cat_panics table corpus aligned id par cats pmc h i =
      let mc = conditions_for (virtual_cat nought cats id par).expression pmc in
      let first_nil =
        conditions-StartsWithNil (str "AND") (negated_siblings nought par cats no_items) pmc
          (siblings-starts par cats h i) in
      (first_nil, size_sql-nil table corpus aligned mc first_nil)
