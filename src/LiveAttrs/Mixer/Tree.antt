-- ===== src/LiveAttrs/Mixer/Tree.antt =====
-- liveattrs/subcmixer/ctree.go: the tree of categories. A node is found by a search that takes the
-- node first and then its children in order, and is changed in its place.
use cnc_masm.Prelude.{ℕ, Option, none, some, List, [], ◌∷◌, if◌then◌else◌, ◌==◌, is_some}
use cnc_masm.LiveAttrs.Mixer.{Checked, value, panic, ◌>>=◌}
use cnc_masm.LiveAttrs.Mixer.Expressions.{Expression, is_empty}
use cnc_masm.LiveAttrs.Mixer.Categories.{TaskArgs, add_virtual_cats}

pub record NodeInfo (F : Type 0) : Type 0 where
  pub node_id : ℕ
  pub parent_id : Option ℕ
  pub ratio : F
  pub metadata_condition : List Expression
  pub size : ℕ

mutual
  pub data Node (F : Type 0) : Type 0 where
    node : NodeInfo F → Nodes F → Node F

  pub data Nodes (F : Type 0) : Type 0 where
    leaf : Nodes F
    child : Node F → Nodes F → Nodes F

-- The test after the recursive call.
abbrev pub with_id :
    {F : Type 0} → ℕ → Option (NodeInfo F) → Option (NodeInfo F) → Option (NodeInfo F)
with_id wanted none rest = rest
with_id wanted (some n) rest = if n.node_id == wanted then some n else rest

unfoldable mutual
  pub get_node_by_id : {F : Type 0} → Node F → ℕ → Option (NodeInfo F)
  get_node_by_id (node i cs) wanted =
      let below = get_among cs wanted in if i.node_id == wanted then some i else below

  pub get_among : {F : Type 0} → Nodes F → ℕ → Option (NodeInfo F)
  get_among leaf wanted = none
  get_among (child n ns) wanted = with_id wanted (get_node_by_id n wanted) (get_among ns wanted)

abbrev pub add_last : {F : Type 0} → Nodes F → Node F → Nodes F
add_last leaf c = child c leaf
add_last (child n ns) c = child n (add_last ns c)

-- `append` to the children of the node that `getNodeByID` finds.
unfoldable mutual
  pub append_child : {F : Type 0} → ℕ → Node F → Node F → Node F
  append_child wanted c (node i cs) =
      let below = append_among wanted c cs in
      if i.node_id == wanted then node i (add_last cs c) else node i below

  pub append_among : {F : Type 0} → ℕ → Node F → Nodes F → Nodes F
  append_among wanted c leaf = leaf
  append_among wanted c (child n ns) =
      let here = append_child wanted c n in
      let there = append_among wanted c ns in
      if is_some (get_node_by_id n wanted) then child here ns else child n there

-- The conditions of the parent follow, unless the first of them is empty.
unfoldable pub conditions_for : Expression → List Expression → List Expression
conditions_for e [] = e ∷ []
conditions_for e (x ∷ pmc) = if is_empty x then e ∷ [] else e ∷ x ∷ pmc

module _ {F : Type 0} where
  abbrev pub new_node : TaskArgs F → NodeInfo F → Node F
  new_node cat parent =
      node
        (record {
          node_id = cat.node_id;
          parent_id = cat.parent_id;
          ratio = cat.ratio;
          metadata_condition = conditions_for cat.expression parent.metadata_condition;
          size = 0;
        })
        leaf

  abbrev pub with_parent : TaskArgs F → ℕ → Node F → Option (NodeInfo F) → Checked (Node F)
  with_parent cat pid root none = panic
  with_parent cat pid root (some parent) = value (append_child pid (new_node cat parent) root)

  -- One round of `build`; a parent that is not found is a nil pointer.
  abbrev pub add_below : TaskArgs F → Option ℕ → Node F → Checked (Node F)
  add_below cat none root = value root
  add_below cat (some pid) root = with_parent cat pid root (get_node_by_id root pid)

  unfoldable pub add_category : TaskArgs F → Node F → Checked (Node F)
  unfolding get_node_by_id append_child conditions_for
  add_category cat root =
      if is_empty cat.expression then value root else add_below cat cat.parent_id root

  unfoldable pub build_from : List (TaskArgs F) → Node F → Checked (Node F)
  unfolding add_category
  build_from [] root = value root
  build_from (cat ∷ cats) root = add_category cat root >>= λ root'. build_from cats root'

  -- `ct.CategoryList[1:]`
  unfoldable pub build : List (TaskArgs F) → Node F → Checked (Node F)
  unfolding build_from
  build [] root = panic
  build (cat ∷ cats) root = build_from cats root

  abbrev pub root_of : TaskArgs F → Node F
  root_of cat =
      node
        (record {
          node_id = cat.node_id;
          parent_id = cat.parent_id;
          ratio = cat.ratio;
          metadata_condition = [];
          size = 0;
        })
        leaf

  -- `NewCategoryTree` before the sizes are looked up.
  unfoldable pub category_tree : F → List (TaskArgs F) → Checked (List (TaskArgs F) × Node F)
  unfolding add_virtual_cats build
  category_tree nought [] = panic
  category_tree nought (cat ∷ cats) = add_virtual_cats nought (cat ∷ cats) >>= λ list.
      build list (root_of cat) >>= λ root. value (list, root)
