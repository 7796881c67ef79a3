-- ===== src/LiveAttrs/Sql/Laquery.antt =====
-- liveattrs/db/qbuilder/laquery: the listing of attribute values under a selection (args.go,
-- lafilter.go).
pub mod Filled
use cnc_masm.Prelude.{
  ℕ, ◌+◌, Bool, true, false, not, ◌&&◌, List, [], ◌∷◌, ◌++◌, map, Str, str, str_eq, StrMap, join_by,
  if◌then◌else◌,
}
use cnc_masm.General.Collections.{slice_contains}
use cnc_masm.General.Collections.Set.{Set, add, new_set, union, to_ordered_slice}
use cnc_masm.LiveAttrs.Sql.{AttrValue, Attrs, attr_sql, with_items, import_key}
use cnc_masm.LiveAttrs.Sql.Adhoc.{DbInfo, grouped_name, joins, aligned_where}

pub record PredicateArgs (U : Type 0) : Type 0 where
  pub data_ : Attrs U
  pub bib_id : Str
  pub bib_label : Str
  pub autocomplete_attr : Str
  pub empty_val_placeholder : Str

pub record QueryComponents : Type 0 where
  pub sql_template : Str
  pub selected_attrs : List Str
  pub hidden_attrs : List Str
  pub where_values : List Str

pub record LaFilter (U : Type 0) : Type 0 where
  pub corpus_info : DbInfo
  pub attr_map : Attrs U
  pub search_attrs : List Str
  pub aligned_corpora : List Str
  pub autocomplete_attr : Str
  pub empty_val_placeholder : Str

-- The attribute for which the loop goes on to the next one.
abbrev pub is_skipped : {U : Type 0} → PredicateArgs U → Str → Bool
is_skipped args dkey =
    str_eq args.autocomplete_attr args.bib_label && str_eq (import_key dkey) args.bib_id

-- `attrToSQL`
abbrev pub attr_to_sql : Str → List Str → List Str
attr_to_sql prefix = map (λ v. prefix ++ 46 ∷ import_key v)

module _ {U : Type 0} (print : U → Str) where
  unfoldable pub export_loop : PredicateArgs U → Str → Attrs U → List Str × List Str
  export_loop args prefix [] = ([], [])
  export_loop args prefix ((dkey, v) ∷ m) =
      let (items, values) =
        attr_sql print prefix args.bib_label args.empty_val_placeholder args.data_ dkey v in
      let (ws, rest) = export_loop args prefix m in
      if is_skipped args dkey then (ws, rest) else (with_items items ws, values ++ rest)

  -- `ExportSQL`
  unfoldable pub export_sql : PredicateArgs U → Str → Str → Str × List Str
  unfolding export_loop
  export_sql args prefix corpus_id =
      let (ws, values) = export_loop args prefix args.data_ in
      (
        join_by (str " AND ") (ws ++ (prefix ++ str ".corpus_id = ?") ∷ []),
        values ++ corpus_id ∷ [],
      )

  abbrev pub filter_args : LaFilter U → PredicateArgs U
  filter_args b = record {
    data_ = b.attr_map;
    bib_id = import_key b.corpus_info.bib_id_attr;
    bib_label = import_key b.corpus_info.bib_label_attr;
    autocomplete_attr = b.autocomplete_attr;
    empty_val_placeholder = b.empty_val_placeholder;
  }

  unfoldable pub hidden_attrs_of : LaFilter U → Set
  unfolding new_set add
  hidden_attrs_of b =
      let bib_id = import_key b.corpus_info.bib_id_attr in
      if not (str_eq bib_id []) && not (slice_contains b.search_attrs bib_id)
      then add bib_id (new_set [])
      else new_set []

  unfoldable pub selected_attrs_of : LaFilter U → Set
  unfolding hidden_attrs_of union new_set
  selected_attrs_of b = union (new_set b.search_attrs) (hidden_attrs_of b)

  -- The template; its second form is that of a query without conditions.
  unfoldable pub template : Str → Str → Str → List Str → Str
  template attrs group joined [] =
      str "SELECT DISTINCT t1.poscount, "
      ++ (attrs ++ (str " FROM `" ++ (group ++ (str "_liveattrs_entry` AS t1 " ++ joined))))
  template attrs group joined (w ∷ ws) =
      str "SELECT DISTINCT t1.poscount, t1.id, "
      ++ (attrs
          ++ (str " FROM `"
              ++ (group
                  ++ (str "_liveattrs_entry` AS t1 "
                      ++ (joined ++ (str " WHERE " ++ join_by (str " ") (w ∷ ws)))))))

  -- `CreateSQL`
  unfoldable pub create_sql : LaFilter U → QueryComponents
  unfolding export_sql joins aligned_where grouped_name selected_attrs_of hidden_attrs_of
      to_ordered_slice template import_key
  create_sql b =
      let (where0, values0) = export_sql (filter_args b) (str "t1") b.corpus_info.name in
      let group = grouped_name b.corpus_info in
      record {
        sql_template =
            template
              (join_by (str ", ") (attr_to_sql (str "t1") (to_ordered_slice (selected_attrs_of b))))
              group (join_by (str " ") (joins group 2 b.aligned_corpora))
              (where0 ∷ aligned_where (str " AND ") 2 b.aligned_corpora);
        selected_attrs = to_ordered_slice (selected_attrs_of b);
        hidden_attrs = to_ordered_slice (hidden_attrs_of b);
        where_values = values0 ++ b.aligned_corpora;
      }
