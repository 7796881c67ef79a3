-- ===== src/LiveAttrs/Sql/Laquery/Filled.antt =====
-- The listing query: its placeholders and its attributes.
use cnc_masm.Prelude.{
  ◌+◌, ◌≤◌, ◌≡◌, refl, true, not, ◌&&◌, ◌||◌, List, [], ◌∷◌, ◌++◌, Str, str, str_eq, str_mem,
  insert, join_by, arith, length, length-append, ◌∙◌, ap, has_key, lookup, str_eq_sym, str_eq_iff,
}
use cnc_masm.General.Collections.Set.{
  Set, add, contains, to_slice, add_all, new_set, union, insert_sorted, sort, to_ordered_slice,
}
use cnc_masm.General.Collections.Ordered.{
  IsAscending, to_ordered_slice-IsAscending, union_lem, new_set_lem,
}
use cnc_masm.LiveAttrs.Sql.{Attrs, attr_sql, import_key, marks}
use cnc_masm.LiveAttrs.Sql.Marks.{
  marks-append, all_marks, all_marks-append, marks-join_by, marks-import_key,
}
use cnc_masm.LiveAttrs.Sql.Conditions.{IsFilled, attr_sql-IsFilled, all_marks-with_items}
use cnc_masm.LiveAttrs.Sql.Adhoc.{grouped_name, joins, aligned_where}
use cnc_masm.LiveAttrs.Sql.Adhoc.Placeholders.{
  AreClean, marks-joins, marks-aligned_where, marks-grouped_name,
}
use cnc_masm.LiveAttrs.Sql.Laquery.{
  PredicateArgs, LaFilter, attr_to_sql, export_loop, export_sql, filter_args, hidden_attrs_of,
  selected_attrs_of, template, create_sql,
}

marks-insert_sorted :
    (x : Str) (ys : List Str) → all_marks (insert_sorted x ys) ≡ marks x + all_marks ys
unfolding insert_sorted
marks-insert_sorted x [] = refl
marks-insert_sorted x (y ∷ ys) = ground (arith, marks-insert_sorted x ys)

marks-sort : (xs : List Str) → all_marks (sort xs) ≡ all_marks xs
unfolding sort
marks-sort [] = refl
marks-sort (x ∷ xs) = omega (arith, marks-insert_sorted x (sort xs), marks-sort xs)

marks-insert :
    (k : Str) (s : Set) → all_marks (to_slice (insert k true s)) ≤ marks k + all_marks (to_slice s)
unfolding insert
marks-insert k [] = omega arith
marks-insert k ((j, b) ∷ s) = ground (arith, marks-insert k s)

marks-add_all :
    (vs : List Str) (s : Set)
    → all_marks (to_slice (add_all vs s)) ≤ all_marks vs + all_marks (to_slice s)
unfolding add_all
marks-add_all [] s = omega arith
marks-add_all (v ∷ vs) s = omega (arith, marks-add_all vs (insert v true s), marks-insert v s)

marks-attr_to_sql :
    (prefix : Str) (vs : List Str)
    → marks prefix ≡ 0
    → all_marks (attr_to_sql prefix vs) ≡ all_marks vs
marks-attr_to_sql prefix [] e = refl
marks-attr_to_sql prefix (v ∷ vs) e = omega (
  arith,
  marks-append prefix (46 ∷ import_key v),
  marks-import_key v,
  marks-attr_to_sql prefix vs e,
)

module _ {U : Type 0} (print : U → Str) where
  marks-hidden :
      (b : LaFilter U)
      → all_marks (to_slice (hidden_attrs_of print b)) ≤ marks b.corpus_info.bib_id_attr
  unfolding hidden_attrs_of new_set add insert add_all
  marks-hidden b = ground (arith, marks-import_key b.corpus_info.bib_id_attr)

  contains-hidden :
      (b : LaFilter U) (v : Str)
      → contains v (hidden_attrs_of print b) ≡ (
          not (str_eq (import_key b.corpus_info.bib_id_attr) [])
          && not (str_mem (import_key b.corpus_info.bib_id_attr) b.search_attrs)
          && str_eq v (import_key b.corpus_info.bib_id_attr))
  unfolding hidden_attrs_of new_set add add_all insert contains has_key lookup
  contains-hidden b v = ground (arith, str_eq_sym v (import_key b.corpus_info.bib_id_attr))

  marks-selected :
      (b : LaFilter U)
      → all_marks b.search_attrs ≡ 0
      → marks b.corpus_info.bib_id_attr ≡ 0
      → all_marks (to_ordered_slice (selected_attrs_of print b)) ≡ 0
  unfolding selected_attrs_of to_ordered_slice union new_set
  marks-selected b e f =
      let searched = add_all b.search_attrs [] in
      let hidden = hidden_attrs_of print b in
      let copied = add_all (to_slice searched) [] in
      marks-sort (to_slice (add_all (to_slice hidden) copied))
      ∙ omega (
        arith,
        marks-add_all (to_slice hidden) copied,
        marks-add_all (to_slice searched) [],
        marks-add_all b.search_attrs [],
        marks-hidden b,
      )

  export_loop-IsFilled :
      (args : PredicateArgs U) (prefix : Str) (m : Attrs U)
      → marks prefix ≡ 0
      → marks args.bib_label ≡ 0
      → AreClean m
      → IsFilled (export_loop print args prefix m)
  unfolding export_loop
  export_loop-IsFilled args prefix [] e f h = refl
  export_loop-IsFilled args prefix ((dkey, v) ∷ m) e f h =
      let r = attr_sql print prefix args.bib_label args.empty_val_placeholder args.data_ dkey v in
      let rest = export_loop print args prefix m in
      ground (
        arith,
        all_marks-with_items r.0 rest.0,
        length-append r.1 rest.1,
        attr_sql-IsFilled print prefix args.bib_label args.empty_val_placeholder e f args.data_ dkey
            v h.0,
        export_loop-IsFilled args prefix m e f h.1,
      )

  export_sql-placeholders :
      (args : PredicateArgs U) (prefix corpus_id : Str)
      → marks prefix ≡ 0
      → marks args.bib_label ≡ 0
      → AreClean args.data_
      → marks (export_sql print args prefix corpus_id).0
        ≡ length (export_sql print args prefix corpus_id).1
  unfolding export_sql
  export_sql-placeholders args prefix corpus_id e f h =
      let r = export_loop print args prefix args.data_ in
      let end = prefix ++ str ".corpus_id = ?" in
      marks-join_by (str " AND ") (r.0 ++ end ∷ []) refl
      ∙ omega (
        arith,
        all_marks-append r.0 (end ∷ []),
        marks-append prefix (str ".corpus_id = ?"),
        length-append r.1 (corpus_id ∷ []),
        export_loop-IsFilled args prefix args.data_ e f h,
      )

  marks-template :
      (attrs group joined w : Str) (ws : List Str)
      → marks attrs ≡ 0
      → marks group ≡ 0
      → marks joined ≡ 0
      → marks (template print attrs group joined (w ∷ ws)) ≡ marks w + all_marks ws
  unfolding template
  marks-template attrs group joined w ws e f g =
      let tail = str " WHERE " ++ join_by (str " ") (w ∷ ws) in
      let middle = group ++ (str "_liveattrs_entry` AS t1 " ++ (joined ++ tail)) in
      marks-append attrs (str " FROM `" ++ middle)
      ∙ omega (
        arith,
        marks-append group (str "_liveattrs_entry` AS t1 " ++ (joined ++ tail)),
        marks-append joined tail,
        marks-join_by (str " ") (w ∷ ws) refl,
      )

  -- The query that `CreateSQL` builds has as many placeholders as it has values, if the names of
  -- the corpus, its group, its identifying and labelling attributes, the attributes searched and
  -- those of the selection have no question mark.
  pub create_sql-placeholders :
      (b : LaFilter U)
      → marks b.corpus_info.name ≡ 0
      → marks b.corpus_info.parallel_corpus ≡ 0
      → marks b.corpus_info.bib_label_attr ≡ 0
      → marks b.corpus_info.bib_id_attr ≡ 0
      → all_marks b.search_attrs ≡ 0
      → AreClean b.attr_map
      → marks (create_sql print b).sql_template ≡ length (create_sql print b).where_values
  unfolding create_sql
  create_sql-placeholders b e f l i s h =
      let cs = b.aligned_corpora in
      let group = grouped_name b.corpus_info in
      let r = export_sql print (filter_args print b) (str "t1") b.corpus_info.name in
      let names = to_ordered_slice (selected_attrs_of print b) in
      let clean = marks-grouped_name b.corpus_info e f in
      marks-template (join_by (str ", ") (attr_to_sql (str "t1") names)) group
        (join_by (str " ") (joins group 2 cs)) r.0 (aligned_where (str " AND ") 2 cs)
        (marks-join_by (str ", ") (attr_to_sql (str "t1") names) refl
          ∙ marks-attr_to_sql (str "t1") names refl
          ∙ marks-selected b s i)
        clean (marks-join_by (str " ") (joins group 2 cs) refl ∙ marks-joins group 2 cs clean)
      ∙ omega (
        arith,
        length-append r.1 cs,
        marks-aligned_where (str " AND ") 2 cs refl,
        export_sql-placeholders (filter_args print b) (str "t1") b.corpus_info.name refl
            (marks-import_key b.corpus_info.bib_label_attr ∙ l) h,
      )

  -- The attributes that `CreateSQL` selects are in ascending order, each once: those searched, and
  -- the identifier of a bibliography item if there is one.
  pub selected_attrs_lem :
      (b : LaFilter U)
      → IsAscending (create_sql print b).selected_attrs
        × ((v : Str)
            → str_mem v (create_sql print b).selected_attrs ≡ (
                str_mem v b.search_attrs
                || (not (str_eq (import_key b.corpus_info.bib_id_attr) [])
                    && str_eq v (import_key b.corpus_info.bib_id_attr))))
  unfolding create_sql selected_attrs_of
  selected_attrs_lem b =
      let bib_id = import_key b.corpus_info.bib_id_attr in
      let (distinct, members) = union_lem (new_set b.search_attrs) (hidden_attrs_of print b) in
      let (ascending, listed) =
        to_ordered_slice-IsAscending (union (new_set b.search_attrs) (hidden_attrs_of print b))
          distinct in
      (
        ascending,
        λ v. ground (
          arith,
          listed v,
          members v,
          new_set_lem b.search_attrs v,
          contains-hidden b v,
          str_eq_iff v bib_id,
          ap (λ x. str_mem x b.search_attrs) {x = v} {y = bib_id},
        ),
      )
