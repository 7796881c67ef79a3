-- ===== src/LiveAttrs/Usage.antt =====
-- liveattrs/db/usage.go and fillattrs.go: the usage of columns and the indexes for those used most,
-- and the filling of attributes from the values of another. The database is a parameter.
use cnc_masm.Prelude.{
  ℕ, ◌≡◌, Option, none, some, List, [], ◌∷◌, ◌++◌, Str, str, str_eq, StrMap, insert, if◌then◌else◌,
  join_by, map, length, arith,
}
use cnc_masm.LiveAttrs.Sql.{Attrs, import_key, marks}
use cnc_masm.LiveAttrs.Sql.Marks.{marks-append}
use cnc_masm.LiveAttrs.Sql.Adhoc.{DbInfo, grouped_name}
use cnc_masm.LiveAttrs.Documents.{mk_placeholder, entry_table}
use cnc_masm.LiveAttrs.Documents.Filled.{marks-mk_placeholder, length-map}
use cnc_masm.LiveAttrs.Ngrams.Tx.{ok, Tx, ◌>>=◌, ◌>>◌, returns}

-- `begin_`, `run` and the queries may fail; the error of `Commit` is not looked at.
pub record Driver (D : Type 0) : Type 0 where
  pub select_used : Str → ℕ → Tx D (List Str)
  pub select_unused : Str → List Str → Tx D (List Str)
  pub begin_ : Tx D (Unit {0})
  pub run : Str → List Str → Tx D (Unit {0})
  pub commit : D → D

unfoldable pub autoindex : Str → Str
autoindex column = column ++ str "_autoindex"

-- With `corpus_id` where several corpora share a table.
unfoldable pub create_index_sql : DbInfo → Str → Str
unfolding autoindex
create_index_sql info column =
    str "CREATE INDEX IF NOT EXISTS `"
    ++ (autoindex column
        ++ (str "` ON "
            ++ (entry_table info
                ++ (str " (`"
                    ++ (column
                        ++ (if str_eq (grouped_name info) info.name
                            then str "`)"
                            else str "`, `corpus_id`)"))))))

unfoldable pub unused_sql : ℕ → Str
unfolding mk_placeholder
unused_sql n =
    str
      "SELECT INDEX_NAME FROM information_schema.statistics where TABLE_NAME = ? AND INDEX_NAME LIKE '%_autoindex' AND INDEX_NAME NOT IN ("
    ++ (mk_placeholder n ++ str ")")

unfoldable pub drop_index_sql : DbInfo → Str → Str
drop_index_sql info index = str "DROP INDEX " ++ (index ++ (str " ON " ++ entry_table info))

abbrev pub usage_sql : Str
usage_sql =
    str
      "INSERT INTO `usage` (`corpus_id`, `structattr_name`) VALUES (?, ?) ON DUPLICATE KEY UPDATE `num_used`=`num_used`+1"

abbrev pub unused_args : DbInfo → List Str → List Str
unused_args info columns = entry_table info ∷ map autoindex columns

module _ {D : Type 0} (v : Driver D) where
  unfoldable pub run_each : (Str → Str) → List Str → Tx D (Unit {0})
  run_each sql [] = returns tt
  run_each sql (x ∷ xs) = v.run (sql x) [] >> run_each sql xs

  abbrev pub commit_all : Tx D (Unit {0})
  commit_all d = (v.commit d, ok tt)

  -- `UpdateIndexes`: the used and the removed indexes, or the error.
  unfoldable pub update_indexes : DbInfo → ℕ → Tx D (List Str × List Str)
  unfolding run_each unused_sql autoindex
  update_indexes info max_columns = v.select_used info.name max_columns >>= λ columns.
      v.begin_
      >> run_each (create_index_sql info) columns
      >> commit_all
      >> v.select_unused (unused_sql (length columns)) (unused_args info columns)
      >>= λ unused.
          v.begin_
          >> run_each (drop_index_sql info) unused
          >> commit_all
          >> returns (map autoindex columns, unused)

  unfoldable pub run_usage : {U : Type 0} → Str → Attrs U → Tx D (Unit {0})
  run_usage corpus [] = returns tt
  run_usage corpus ((attr, values) ∷ attrs) =
      v.run usage_sql (corpus ∷ import_key attr ∷ []) >> run_usage corpus attrs

  -- `StructAttrUsage.save`
  unfoldable pub save : {U : Type 0} → Str → Attrs U → Tx D (Unit {0})
  unfolding run_usage
  save corpus attrs = v.begin_ >> run_usage corpus attrs >> commit_all

-- The query that `UpdateIndexes` looks for unused indexes with has a value for each placeholder.
pub unused_sql-placeholders :
    (info : DbInfo) (columns : List Str)
    → marks (unused_sql (length columns)) ≡ length (unused_args info columns)
unfolding unused_sql
unused_sql-placeholders info columns = omega (
  arith,
  marks-append (mk_placeholder (length columns)) (str ")"),
  marks-mk_placeholder (length columns),
  length-map autoindex columns,
)

-- `FillAttrs`, up to the query
unfoldable pub fill_attrs_sql : DbInfo → Str → List Str → List Str → Str × List Str
unfolding mk_placeholder
fill_attrs_sql info search fill values = (
  str "SELECT "
      ++ (join_by (str ", ") (import_key search ∷ map import_key fill)
          ++ (str " FROM "
              ++ (entry_table info
                  ++ (str " WHERE "
                      ++ (import_key search
                          ++ (str " IN (" ++ (mk_placeholder (length values) ++ str ")"))))))),
  values,
)

unfoldable pub filled : List Str → List (Option Str) → StrMap Str → StrMap Str
filled [] vals ans = ans
filled (a ∷ attrs) [] ans = ans
filled (a ∷ attrs) (none ∷ vals) ans = filled attrs vals ans
filled (a ∷ attrs) (some v ∷ vals) ans = filled attrs vals (insert a v ans)

-- The loop over the rows, each with the value searched and the values to fill; the keys of the inner
-- maps are the names of columns.
unfoldable pub fill_rows :
    List Str → List (Str × List (Option Str)) → StrMap (StrMap Str) → StrMap (StrMap Str)
unfolding filled
fill_rows fill [] ans = ans
fill_rows fill ((srch, vals) ∷ rows) ans =
    fill_rows fill rows (insert srch (filled (map import_key fill) vals []) ans)

-- `none` is `ErrorEmptyResult`.
unfoldable pub fill_attrs : List Str → List (Str × List (Option Str)) → Option (StrMap (StrMap Str))
unfolding fill_rows
fill_attrs fill [] = none
fill_attrs fill (r ∷ rows) = some (fill_rows fill (r ∷ rows) [])
