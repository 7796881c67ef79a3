-- ===== src/LiveAttrs/Mixer/Atoms.antt =====
-- What negation and `GetAtoms` do.
use cnc_masm.Prelude.{
  ◌≡◌, refl, ap, Bool, true, Option, [], Str, str, str_eq, str_eq_iff, lookup, is_some, arith, ◌⊎◌,
  inl, inr, map, all, not, or_else, ◌∙◌,
}
use cnc_masm.LiveAttrs.Sql.{import_key}
use cnc_masm.LiveAttrs.Mixer.Expressions.{
  CategoryExpression, Expression, atom, joined, Items, no_items, item, operators, negate,
  negate_atom, negated_join, new_category_expression, get_atoms, collect_atoms_recursive,
  as_category_expression,
}

-- The operator is one that can be negated, and the name of the attribute is that of a column.
abbrev pub IsProper : Expression → Type 0
IsProper (atom ce) = (is_some (lookup ce.op operators) ≡ true) × (import_key ce.attr ≡ ce.attr)
IsProper (joined op items) = (op ≡ str "AND") ⊎ (op ≡ str "OR")

operator-cases :
    (op : Str)
    → is_some (lookup op operators) ≡ true
    → (op ≡ str "==") ⊎ ((op ≡ str "<>") ⊎ ((op ≡ str "<=") ⊎ (op ≡ str ">=")))
unfolding lookup
operator-cases op h = ground (
  arith,
  h,
  str_eq_iff (str "==") op,
  str_eq_iff (str "<>") op,
  str_eq_iff (str "<=") op,
  str_eq_iff (str ">=") op,
)

-- The two tables of a negation, for an operator that can be negated.
operator-negated :
    (op : Str)
    → is_some (lookup op operators) ≡ true
    → let back = or_else (lookup op operators) [] in
      (is_some (lookup back operators) ≡ true) × (or_else (lookup back operators) [] ≡ op)
unfolding lookup str_eq
operator-negated op h = elim (operator-cases op h) [
  | inl e ↦ rw e (refl, refl)
  | inr (inl e) ↦ rw e (refl, refl)
  | inr (inr (inl e)) ↦ rw e (refl, refl)
  | inr (inr (inr e)) ↦ rw e (refl, refl)
]

negate-proper :
    (ce : CategoryExpression)
    → IsProper (atom ce)
    → negate_atom ce
      ≡ record { attr = ce.attr; op = or_else (lookup ce.op operators) []; value = ce.value }
unfolding negate_atom new_category_expression lookup str_eq
negate-proper ce (h, a) = rw ((operator-negated ce.op h).0, a) refl

-- The negation of a negation is the expression, if its operator can be negated and its attribute
-- is named as a column.
pub negate-negate : (e : Expression) → IsProper e → negate (negate e) ≡ e
unfolding negate negated_join str_eq
negate-negate (atom ce) (h, a) =
    let back = or_else (lookup ce.op operators) [] in
    let mid : CategoryExpression = record { attr = ce.attr; op = back; value = ce.value } in
    let (ok1, ok2) = operator-negated ce.op h in
    ap atom (
      ap negate_atom (negate-proper ce (h, a))
      ∙ negate-proper mid (ok1, a)
      ∙ ap (λ o. record { attr = ce.attr; op = o; value = ce.value }) ok2)
negate-negate (joined op items) (inl h) = rw h refl
negate-negate (joined op items) (inr h) = rw h refl

abbrev pub is_nil_atom : Option CategoryExpression → Bool
is_nil_atom a = not (is_some a)

pointers-nil :
    (e : Expression)
    → all is_nil_atom (map as_category_expression (collect_atoms_recursive e)) ≡ true
unfolding collect_atoms_recursive
pointers-nil (atom ce) = refl
pointers-nil (joined op no_items) = refl
pointers-nil (joined op (item e es)) = pointers-nil e

-- None of the atoms of a join is one.
pub joined-atoms-nil :
    (op : Str) (items : Items) → all is_nil_atom (get_atoms (joined op items)) ≡ true
unfolding get_atoms
joined-atoms-nil op items = pointers-nil (joined op items)
