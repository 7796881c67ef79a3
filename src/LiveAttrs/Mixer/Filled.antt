-- ===== src/LiveAttrs/Mixer/Filled.antt =====
-- The query for the size of a category without a join has a value for each placeholder.
use cnc_masm.Prelude.{
  ◌≡◌, refl, ◌∙◌, List, [], ◌∷◌, ◌++◌, Str, str, arith, map, length, length-append, join_by, All,
}
use cnc_masm.LiveAttrs.Sql.{marks}
use cnc_masm.LiveAttrs.Sql.Marks.{marks-append, marks-join_by, all_marks}
use cnc_masm.LiveAttrs.Mixer.{value}
use cnc_masm.LiveAttrs.Mixer.Expressions.{CategoryExpression, atom, get_atoms, op_sql}
use cnc_masm.LiveAttrs.Mixer.Queries.{
  append_aligned_corp_sql, all_atoms, no_nil, where_item, value_of, size_text, category_size_sql,
}

-- Neither the attribute nor the operator has a question mark.
abbrev pub IsUnmarked : CategoryExpression → Type 0
IsUnmarked a = (marks a.attr ≡ 0) × (marks a.op ≡ 0)

no_nil-atoms : (atoms : List CategoryExpression) → no_nil (all_atoms (map atom atoms)) ≡ value atoms
unfolding no_nil all_atoms get_atoms
no_nil-atoms [] = refl
no_nil-atoms (a ∷ atoms) = rw (no_nil-atoms atoms) refl

marks-op_sql : (a : CategoryExpression) → marks a.op ≡ 0 → marks (op_sql a) ≡ 0
unfolding op_sql
marks-op_sql a h = ground (arith, h)

marks-where_item : (a : CategoryExpression) → IsUnmarked a → marks (where_item a) ≡ 1
unfolding where_item
marks-where_item a (h, o) =
    marks-append a.attr (str " " ++ (op_sql a ++ str " ?"))
    ∙ omega (arith, h, marks-append (op_sql a) (str " ?"), marks-op_sql a o)

all_marks-where :
    (atoms : List CategoryExpression)
    → All IsUnmarked atoms
    → all_marks (map where_item atoms) ≡ length (map value_of atoms)
all_marks-where [] h = refl
all_marks-where (a ∷ atoms) (h, hs) = omega (arith, marks-where_item a h, all_marks-where atoms hs)

-- If there are no aligned corpora and every condition is an atom, the size of a category is asked for
-- by a query with as many placeholders as it has values, if the name of the table, the attributes
-- and the operators have no question mark.
pub category_size_sql-placeholders :
    (table corpus : Str) (atoms : List CategoryExpression)
    → marks table ≡ 0
    → All IsUnmarked atoms
    → (text : Str) × (args : List Str) × (category_size_sql table corpus [] (map atom atoms)
        ≡ value (text, args))
      × (marks text ≡ length args)
unfolding category_size_sql append_aligned_corp_sql
category_size_sql-placeholders table corpus atoms h hs =
    let sqle = str "SELECT SUM(m1.poscount) FROM " ++ (table ++ str " as m1") in
    let joined = join_by (str " AND ") (map where_item atoms) in
    (
      size_text table corpus [] sqle atoms,
      map value_of atoms ++ corpus ∷ [],
      rw (no_nil-atoms atoms) refl,
      marks-append sqle (str " WHERE " ++ (joined ++ str " AND m1.corpus_id = ?"))
          ∙ omega (
            arith,
            h,
            marks-append table (str " as m1"),
            marks-append joined (str " AND m1.corpus_id = ?"),
            marks-join_by (str " AND ") (map where_item atoms) refl,
            all_marks-where atoms hs,
            length-append (map value_of atoms) (corpus ∷ []),
          ),
    )
