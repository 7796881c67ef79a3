-- ===== src/LiveAttrs/Mixer/Queries.antt =====
-- liveattrs/subcmixer/ctree.go and mmodel.go: the queries for the sizes of categories and texts, with
-- their arguments.
use cnc_masm.Prelude.{Option, none, some, List, [], ◌∷◌, ◌++◌, Str, str, join_by, map}
use cnc_masm.LiveAttrs.Sql.{import_key}
use cnc_masm.LiveAttrs.Mixer.{Checked, value, panic, ◌>>=◌}
use cnc_masm.LiveAttrs.Mixer.Expressions.{CategoryExpression, Expression, get_atoms, op_sql}
use cnc_masm.LiveAttrs.Mixer.Tree.{Node, node, Nodes, leaf, child}

-- `appendAlignedCorpSQL` takes the builder by value: the first write to the copy of a builder that
-- is not empty is a panic, and what is written to the copy of an empty one is lost.
unfoldable pub append_aligned_corp_sql : List Str → Str → List Str → Checked (Str × List Str)
append_aligned_corp_sql [] sqle args = value (sqle, args)
append_aligned_corp_sql (ac ∷ aligned) [] args = value ([], args ++ ac ∷ aligned)
append_aligned_corp_sql (ac ∷ aligned) (b ∷ sqle) args = panic

-- The atoms of the conditions, one condition after the other.
unfoldable pub all_atoms : List Expression → List (Option CategoryExpression)
all_atoms [] = []
all_atoms (subl ∷ mc) = get_atoms subl ++ all_atoms mc

abbrev pub and_atom :
    CategoryExpression → List CategoryExpression → Checked (List CategoryExpression)
and_atom a rest = value (a ∷ rest)

-- A method of a nil atom is a panic.
unfoldable pub no_nil : List (Option CategoryExpression) → Checked (List CategoryExpression)
no_nil [] = value []
no_nil (none ∷ rest) = panic
no_nil (some a ∷ rest) = no_nil rest >>= and_atom a

unfoldable pub where_item : CategoryExpression → Str
unfolding op_sql
where_item a = str "m1." ++ (a.attr ++ (str " " ++ (op_sql a ++ str " ?")))

abbrev pub value_of : CategoryExpression → Str
value_of a = a.value

module _ (table corpus : Str) (aligned : List Str) where
  abbrev pub size_text : Str → List CategoryExpression → Str
  size_text sqle atoms =
      sqle
      ++ (str " WHERE "
          ++ (join_by (str " AND ") (map where_item atoms) ++ str " AND m1.corpus_id = ?"))

  -- `getCategorySize` up to the query.
  unfoldable pub category_size_sql : List Expression → Checked (Str × List Str)
  unfolding append_aligned_corp_sql no_nil all_atoms where_item
  category_size_sql mc =
      append_aligned_corp_sql aligned
        (str "SELECT SUM(m1.poscount) FROM " ++ (table ++ str " as m1")) []
      >>= λ (sqle, args). no_nil (all_atoms mc) >>= λ atoms.
          value (size_text sqle atoms, args ++ (map value_of atoms ++ corpus ∷ []))

  -- `initializeBounds`, the query for what is available.
  unfoldable pub available_sql : Checked (Str × List Str)
  unfolding append_aligned_corp_sql
  available_sql =
      append_aligned_corp_sql aligned
        (str "SELECT SUM(m1.poscount) FROM " ++ (table ++ str " AS m1")) []
      >>= λ (sqle, args). value (sqle ++ str " WHERE m1.corpus_id = ?", args ++ corpus ∷ [])

  abbrev pub texts_text : Str → List CategoryExpression → Str
  texts_text id_attr atoms =
      str "SELECT MIN(m1.id) AS db_id, SUM(poscount) FROM "
      ++ (table
          ++ (str " AS m1  WHERE m1.corpus_id = ? AND ("
              ++ (join_by (str " OR ") (map (λ a. a.attr ++ str " = ?") atoms)
                  ++ (str ") GROUP BY " ++ (import_key id_attr ++ str " ORDER BY db_id")))))

  -- `getTextSizes` up to the query, for the conditions of the whole tree.
  unfoldable pub text_sizes_sql : Str → Checked (List CategoryExpression) → Checked (Str × List Str)
  text_sizes_sql id_attr conditions =
      conditions >>= λ atoms. value (texts_text id_attr atoms, corpus ∷ map value_of atoms)

  abbrev pub rows_text : Str → Str → List CategoryExpression → Str
  rows_text id_attr sqle atoms =
      sqle
      ++ (str "WHERE "
          ++ (join_by (str " AND ") (map where_item atoms)
              ++ (str " AND m1.corpus_id = ? GROUP BY "
                  ++ (import_key id_attr ++ str " ORDER BY db_id"))))

  -- `initAB` up to the query, for the conditions of a node.
  unfoldable pub init_ab_sql : Str → List Expression → Checked (Str × List Str)
  unfolding append_aligned_corp_sql no_nil all_atoms where_item
  init_ab_sql id_attr mc = no_nil (all_atoms mc) >>= λ atoms.
      append_aligned_corp_sql aligned
        (str "SELECT m1.id AS db_id, SUM(m1.poscount) FROM " ++ (table ++ str " AS m1 ")) []
      >>= λ (sqle, args).
          value (rows_text id_attr sqle atoms, args ++ (map value_of atoms ++ corpus ∷ []))

abbrev pub joined_atoms :
    Checked (List CategoryExpression)
    → Checked (List CategoryExpression)
    → Checked (List CategoryExpression)
joined_atoms here below = here >>= λ xs. below >>= λ ys. value (xs ++ ys)

-- The attributes and values of the conditions of a node and those below it.
unfoldable mutual
  pub get_all_conditions : {F : Type 0} → Node F → Checked (List CategoryExpression)
  get_all_conditions (node i cs) =
      joined_atoms (no_nil (all_atoms i.metadata_condition)) (conditions_below cs)

  pub conditions_below : {F : Type 0} → Nodes F → Checked (List CategoryExpression)
  conditions_below leaf = value []
  conditions_below (child n ns) = joined_atoms (get_all_conditions n) (conditions_below ns)
