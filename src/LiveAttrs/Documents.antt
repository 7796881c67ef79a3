-- ===== src/LiveAttrs/Documents.antt =====
-- liveattrs/db/biblio.go: the queries for bibliographies and documents, and the documents that the
-- rows of a result give.
pub mod Filled
use cnc_masm.Prelude.{
  ℕ, zero, suc, ◌+◌, Bool, true, false, Option, none, some, List, [], ◌∷◌, ◌++◌, Str, str, str_eq,
  StrMap, lookup, insert, if◌then◌else◌, or_else, join_by, map, length,
}
use cnc_masm.LiveAttrs.Sql.{
  JsonItem, text, other, AttrValue, listing, single, object, anything, Attrs, import_key,
  export_key, decimal,
}
use cnc_masm.LiveAttrs.Sql.Adhoc.{DbInfo, grouped_name}

-- A panic, or the text of a query and its arguments.
pub data Query (V : Type 0) : Type 0 where
  query : Str → List V → Query V
  panic : Query V

abbrev pub entry_table : DbInfo → Str
entry_table info = str "`" ++ (grouped_name info ++ str "_liveattrs_entry`")

-- `GetBibliography`, for an attribute that identifies documents; otherwise it is an error.
unfoldable pub bibliography_sql : DbInfo → List Str → Str → Option (Query Str)
bibliography_sql info subcorp_attrs item_id =
    if str_eq info.bib_id_attr []
    then none
    else some (
        query
          (str "SELECT "
            ++ (join_by (str ", ") (map import_key subcorp_attrs)
                ++ (str " FROM "
                    ++ (entry_table info
                        ++ (str " WHERE "
                            ++ (import_key info.bib_id_attr ++ str " = ? LIMIT 1"))))))
          (item_id ∷ []))

-- The values that are not NULL, under the names of the attributes.
unfoldable pub bibliography : List Str → List (Option Str) → StrMap Str → StrMap Str
bibliography [] vals ans = ans
bibliography (a ∷ attrs) [] ans = ans
bibliography (a ∷ attrs) (none ∷ vals) ans = bibliography attrs vals ans
bibliography (a ∷ attrs) (some v ∷ vals) ans =
    bibliography attrs vals (insert (export_key (import_key a)) v ans)

abbrev pub repeated : ℕ → List Str
repeated zero = []
repeated (suc n) = str "?" ∷ repeated n

unfoldable pub mk_placeholder : ℕ → Str
mk_placeholder times = join_by (str ", ") (repeated times)

-- `FindBibTitles`, up to the query
unfoldable pub bib_titles_sql : DbInfo → List Str → Option (Query Str)
unfolding mk_placeholder
bib_titles_sql info item_ids =
    if str_eq info.bib_id_attr []
    then none
    else if str_eq info.bib_label_attr []
    then none
    else some (
        query
          (str "SELECT "
            ++ (import_key info.bib_id_attr
                ++ (str ", "
                    ++ (import_key info.bib_label_attr
                        ++ (str " FROM "
                            ++ (entry_table info
                                ++ (str " WHERE "
                                    ++ (import_key info.bib_id_attr
                                        ++ (str " IN ("
                                            ++ (mk_placeholder (length item_ids)
                                                ++ str ")"))))))))))
          item_ids)

abbrev pub attrs_with_prefix : List Str → List Str
attrs_with_prefix = map (λ a. str "t1." ++ import_key a)

abbrev pub text_of : {U : Type 0} → Option (JsonItem U) → Str
text_of (some (text s)) = s
text_of _ = []

unfoldable pub extract_regexp : {U : Type 0} → StrMap (JsonItem U) → Str
extract_regexp v = text_of (lookup (str "regexp") v)

abbrev pub Items : Type 0 → Type 0
Items U = List Str × List (JsonItem U)

abbrev pub regexp_item : {U : Type 0} → Str → Str → Items U
regexp_item attr [] = ([], [])
regexp_item attr (b ∷ v) =
    ((str "t1." ++ (import_key attr ++ str " REGEXP ?")) ∷ [], text (b ∷ v) ∷ [])

abbrev pub inner_join : DbInfo → ℕ → Str
inner_join info n =
    str "INNER JOIN "
    ++ (entry_table info
        ++ (str " AS t"
            ++ (decimal n
                ++ (str " ON t1.item_id = t"
                    ++ (decimal n
                        ++ (str ".item_id AND t" ++ (decimal n ++ str ".corpus_id = ?")))))))

unfoldable pub inner_joins : DbInfo → ℕ → List Str → Str
inner_joins info n [] = []
inner_joins info n (item ∷ aligned) = inner_join info n ++ inner_joins info (suc n) aligned

module _ {U : Type 0} where
  -- The conditions and values of one attribute; `none` is the panic.
  unfoldable pub listing_item : Str → List (JsonItem U) → Items U
  unfolding mk_placeholder
  listing_item attr [] = ([], [])
  listing_item attr (v ∷ vs) = (
    (str " t1."
          ++ (import_key attr ++ (str " IN (" ++ (mk_placeholder (suc (length vs)) ++ str ") "))))
        ∷ [],
    v ∷ vs,
  )

  unfoldable pub attr_items : Str → AttrValue U → Option (Items U)
  unfolding listing_item extract_regexp
  attr_items attr (listing vs) = some (listing_item attr vs)
  attr_items attr (object tm) = some (regexp_item attr (extract_regexp tm))
  attr_items attr (single v) = none
  attr_items attr (anything u) = none

  abbrev pub and_items : Option (Items U) → Option (Items U) → Option (Items U)
  and_items (some (sql, vals)) (some (sql', vals')) = some (sql ++ sql', vals ++ vals')
  and_items _ _ = none

  unfoldable pub all_items : Attrs U → Option (Items U)
  unfolding attr_items
  all_items [] = some ([], [])
  all_items ((attr, values) ∷ attrs) = and_items (attr_items attr values) (all_items attrs)

  abbrev pub joined_items : Option (Items U) → Option (Str × List (JsonItem U))
  joined_items none = none
  joined_items (some (sql, vals)) = some (join_by (str " AND ") sql, vals)

  -- `attrsToSQL`
  unfoldable pub attrs_to_sql : Attrs U → Option (Str × List (JsonItem U))
  unfolding all_items
  attrs_to_sql [] = some (str "1", [])
  attrs_to_sql (a ∷ attrs) = joined_items (all_items (a ∷ attrs))

  abbrev pub with_attrs :
      List Str → DbInfo → List Str → Option (Str × List (JsonItem U)) → Query (JsonItem U)
  with_attrs selection info aligned none = panic
  with_attrs selection info aligned (some (a_sql, a_values)) =
      query
        (str "SELECT "
          ++ (join_by (str ", ") selection
              ++ (str " FROM "
                  ++ (entry_table info
                      ++ (str " AS t1 "
                          ++ (inner_joins info 2 aligned
                              ++ (str " WHERE t1.corpus_id = ?  AND "
                                  ++ (a_sql
                                      ++ (str " GROUP BY t1."
                                          ++ import_key info.bib_id_attr)))))))))
        (map text aligned ++ text info.name ∷ a_values)

  -- `buildQuery`; `whereSQL` stays empty.
  unfoldable pub build_query : List Str → DbInfo → List Str → Attrs U → Query (JsonItem U)
  unfolding attrs_to_sql inner_joins
  build_query selection info aligned filter_attrs =
      with_attrs selection info aligned (attrs_to_sql filter_attrs)

  abbrev pub counted : Query (JsonItem U) → Query (JsonItem U)
  counted (query sql args) =
      query (str "SELECT COUNT(*) FROM (" ++ (sql ++ str ") AS docitems")) args
  counted panic = panic

  -- `GetNumOfDocuments`, up to the query
  unfoldable pub num_documents_sql : DbInfo → List Str → Attrs U → Query (JsonItem U)
  unfolding build_query
  num_documents_sql info aligned attrs = counted (build_query (str "t1.*" ∷ []) info aligned attrs)

  -- `GetDocuments`, up to the query
  unfoldable pub documents_sql : DbInfo → List Str → List Str → Attrs U → Query (JsonItem U)
  unfolding build_query
  documents_sql info view_attrs aligned filter_attrs =
      build_query
        ((str "t1." ++ (import_key info.bib_id_attr ++ str " AS item_id"))
          ∷ (str "t1." ++ (import_key info.bib_label_attr ++ str " AS item_label"))
          ∷ str "SUM(t1.poscount)"
          ∷ attrs_with_prefix view_attrs)
        info aligned filter_attrs

pub record DocumentRow : Type 0 where
  pub idx : ℕ
  pub id : Str
  pub label : Str
  pub attrs : StrMap Str
  pub num_pos : ℕ

-- What `Scan` gives for a row.
pub record Scanned : Type 0 where
  pub item_id : Str
  pub item_label : Option Str
  pub poscount : ℕ
  pub values : List (Option Str)

unfoldable pub mk_attrs : List Str → StrMap Str → StrMap Str
mk_attrs [] ans = ans
mk_attrs (v ∷ attrs) ans = mk_attrs attrs (insert v [] ans)

unfoldable pub with_values : List Str → List (Option Str) → StrMap Str → StrMap Str
with_values [] vals ans = ans
with_values (a ∷ attrs) [] ans = ans
with_values (a ∷ attrs) (none ∷ vals) ans = with_values attrs vals ans
with_values (a ∷ attrs) (some v ∷ vals) ans = with_values attrs vals (insert a v ans)

-- The loop over the rows; `docEntryLabel.Valid` is read before `Scan` sets it.
unfoldable pub documents : List Str → ℕ → List Scanned → List DocumentRow
unfolding mk_attrs with_values
documents view_attrs i [] = []
documents view_attrs i (r ∷ rows) =
    record {
      idx = i;
      id = r.item_id;
      label = [];
      attrs = with_values view_attrs r.values (mk_attrs view_attrs []);
      num_pos = r.poscount;
    }
    ∷ documents view_attrs (suc i) rows
