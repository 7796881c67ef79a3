-- ===== src/LiveAttrs/Mixer/Categories.antt =====
-- liveattrs/subcmixer/ctree.go: the categories, and those that `addVirtualCats` adds. The numbers of
-- nodes are not negative.
use cnc_masm.Prelude.{
  ℕ, zero, suc, Bool, true, false, Option, none, some, List, [], ◌∷◌, ◌++◌, str, if◌then◌else◌,
  length, ◌==◌,
}
use cnc_masm.LiveAttrs.Mixer.{Checked, value, panic, ◌>>=◌}
use cnc_masm.LiveAttrs.Mixer.Expressions.{Expression, joined, Items, no_items, add_item, negate}

pub record TaskArgs (F : Type 0) : Type 0 where
  pub node_id : ℕ
  pub parent_id : Option ℕ
  pub ratio : F
  pub expression : Expression

abbrev pub same_parent : Option ℕ → Option ℕ → Bool
same_parent none none = true
same_parent (some a) (some b) = a == b
same_parent _ _ = false

-- `catsUpdated[v]`; `none` is out of range.
abbrev pub flag_at : List Bool → ℕ → Option Bool
flag_at [] v = none
flag_at (b ∷ bs) zero = some b
flag_at (b ∷ bs) (suc v) = flag_at bs v

abbrev pub raise_at : List Bool → ℕ → List Bool
raise_at [] v = []
raise_at (b ∷ bs) zero = true ∷ bs
raise_at (b ∷ bs) (suc v) = b ∷ raise_at bs v

module _ {F : Type 0} (nought : F) where
  -- The items of the join of the negations, in the order of the list.
  unfoldable pub negated_siblings : Option ℕ → List (TaskArgs F) → Items → Items
  negated_siblings par [] mdc = mdc
  negated_siblings par (other ∷ cats) mdc =
      negated_siblings par cats
        (if same_parent other.parent_id par then add_item (negate other.expression) mdc else mdc)

  unfoldable pub virtual_cat : List (TaskArgs F) → ℕ → Option ℕ → TaskArgs F
  unfolding negated_siblings
  virtual_cat cats id par = record {
    node_id = id;
    parent_id = par;
    ratio = nought;
    expression = joined (str "AND") (negated_siblings par cats no_items);
  }

  abbrev pub Updated : Type 0
  Updated = List (TaskArgs F) × List Bool

  abbrev pub mark : List (TaskArgs F) → ℕ → Option Bool → Updated → Checked Updated
  mark cats v none u = panic
  mark cats v (some true) u = value u
  mark cats v (some false) (list, flags) =
      value (list ++ virtual_cat cats (length list) (some v) ∷ [], raise_at flags v)

  -- One round of the loop.
  unfoldable pub add_virtual_cat : List (TaskArgs F) → Option ℕ → Updated → Checked Updated
  unfolding virtual_cat
  add_virtual_cat cats none u = value u
  add_virtual_cat cats (some zero) u = value u
  add_virtual_cat cats (some (suc v)) u = mark cats (suc v) (flag_at u.1 (suc v)) u

  unfoldable pub add_virtual_loop :
      List (TaskArgs F) → List (TaskArgs F) → Updated → Checked Updated
  unfolding add_virtual_cat
  add_virtual_loop cats [] u = value u
  add_virtual_loop cats (cat ∷ rest) u =
      add_virtual_cat cats cat.parent_id u >>= λ u'. add_virtual_loop cats rest u'

  abbrev pub all_false : List (TaskArgs F) → List Bool
  all_false [] = []
  all_false (cat ∷ rest) = false ∷ all_false rest

  unfoldable pub add_virtual_cats : List (TaskArgs F) → Checked (List (TaskArgs F))
  unfolding add_virtual_loop
  add_virtual_cats cats =
      add_virtual_loop cats cats (cats, all_false cats) >>= λ (list, flags). value list
