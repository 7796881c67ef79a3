-- ===== src/LiveAttrs/Mixer/Expressions.antt =====
-- liveattrs/subcmixer/cexpression.go and ctnode.go: the conditions on texts.
use cnc_masm.Prelude.{
  ◌++◌, Bool, false, ◌&&◌, Option, none, some, List, [], ◌∷◌, Str, str, str_eq, StrMap, lookup,
  if◌then◌else◌, or_else, is_some, map,
}
use cnc_masm.LiveAttrs.Sql.{import_key}

pub record CategoryExpression : Type 0 where
  pub attr : Str
  pub op : Str
  pub value : Str

-- An `AbstractExpression` is a pointer to a `CategoryExpression` or to an `ExpressionJoin`.
mutual
  pub data Expression : Type 0 where
    atom : CategoryExpression → Expression
    joined : (op : Str) → Items → Expression

  pub data Items : Type 0 where
    no_items : Items
    item : Expression → Items → Items

abbrev pub operators : StrMap Str
operators =
    (str "==", str "<>") ∷ (str "<>", str "==") ∷ (str "<=", str ">=") ∷ (str ">=", str "<=") ∷ []

abbrev pub zero_expression : CategoryExpression
zero_expression = record { attr = []; op = []; value = [] }

-- With an error, which is `none` when there is none.
unfoldable pub new_category_expression : Str → Str → Str → CategoryExpression × Option Str
new_category_expression attr op value =
    if is_some (lookup op operators)
    then (record { attr = import_key attr; op = op; value = value }, none)
    else (zero_expression, some (str "invalid operator: " ++ op))

unfoldable pub is_empty_atom : CategoryExpression → Bool
is_empty_atom ce = str_eq ce.attr [] && (str_eq ce.op [] && str_eq ce.value [])

unfoldable pub is_empty : Expression → Bool
unfolding is_empty_atom
is_empty (atom ce) = is_empty_atom ce
is_empty (joined op no_items) = str_eq op []
is_empty (joined op (item e es)) = false

-- The negation of a join keeps its items.
unfoldable pub negated_join : Str → Str
negated_join op =
    if str_eq op (str "OR") then str "AND" else if str_eq op (str "AND") then str "OR" else []

unfoldable pub negate_atom : CategoryExpression → CategoryExpression
unfolding new_category_expression
negate_atom ce = (new_category_expression ce.attr (or_else (lookup ce.op operators) []) ce.value).0

unfoldable pub negate : Expression → Expression
unfolding negate_atom negated_join
negate (atom ce) = atom (negate_atom ce)
negate (joined op items) = joined (negated_join op) items

unfoldable pub op_sql : CategoryExpression → Str
op_sql ce = if str_eq ce.op (str "==") then str "=" else ce.op

-- A value of type `any`: `&tCurrent` is a pointer to the variable that has the pointer.
pub data AnyValue : Type 0 where
  pointer : CategoryExpression → AnyValue
  pointer_to_pointer : CategoryExpression → AnyValue

-- The loop returns in its first round.
unfoldable pub collect_atoms_recursive : Expression → List AnyValue
collect_atoms_recursive (atom ce) = pointer_to_pointer ce ∷ []
collect_atoms_recursive (joined op no_items) = []
collect_atoms_recursive (joined op (item e es)) = collect_atoms_recursive e

-- `v.(*CategoryExpression)`, with nil where it fails
abbrev pub as_category_expression : AnyValue → Option CategoryExpression
as_category_expression (pointer ce) = some ce
as_category_expression (pointer_to_pointer ce) = none

-- `none` is a nil interface.
unfoldable pub get_atoms : Expression → List (Option CategoryExpression)
unfolding collect_atoms_recursive
get_atoms (atom ce) = some ce ∷ []
get_atoms (joined op items) = map as_category_expression (collect_atoms_recursive (joined op items))

unfoldable pub add_item : Expression → Items → Items
add_item e no_items = item e no_items
add_item e (item x xs) = item x (add_item e xs)
