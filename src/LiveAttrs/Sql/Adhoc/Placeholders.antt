-- ===== src/LiveAttrs/Sql/Adhoc/Placeholders.antt =====
-- The queries have a placeholder for each of their values.
use cnc_masm.Prelude.{
  ℕ, ◌+◌, ◌≡◌, refl, List, [], ◌∷◌, ◌++◌, Str, str, join_by, arith, length, length-append, All, ◌∙◌,
}
use cnc_masm.LiveAttrs.Sql.{Attrs, attr_sql, decimal, marks}
use cnc_masm.LiveAttrs.Sql.Marks.{
  marks-append, all_marks, all_marks-append, marks-join_by, marks-decimal,
}
use cnc_masm.LiveAttrs.Sql.Conditions.{IsFilled, attr_sql-IsFilled, all_marks-with_items}
use cnc_masm.LiveAttrs.Sql.Adhoc.{
  DbInfo, grouped_name, PredicateArgs, SubcSize, join_sql, joins, aligned_where, export_loop,
  export_sql, predicate_args, query,
}

-- No attribute has a question mark in its name.
abbrev pub AreClean : {U : Type 0} → Attrs U → Type 0
AreClean = All (λ e. marks e.0 ≡ 0)

marks-join_sql : (group : Str) (i : ℕ) → marks group ≡ 0 → marks (join_sql group i) ≡ 0
marks-join_sql group i e =
    let t3 = decimal i ++ str ".item_id" in
    let t2 = decimal i ++ (str " ON t1.item_id = t" ++ t3) in
    marks-append group (str "_liveattrs_entry` AS t" ++ t2)
    ∙ omega (
      arith,
      marks-append (decimal i) (str " ON t1.item_id = t" ++ t3),
      marks-append (decimal i) (str ".item_id"),
      marks-decimal i,
    )

pub marks-joins :
    (group : Str) (i : ℕ) (cs : List Str) → marks group ≡ 0 → all_marks (joins group i cs) ≡ 0
unfolding joins
marks-joins group i [] e = refl
marks-joins group i (c ∷ cs) e =
    omega (arith, marks-join_sql group i e, marks-joins group (i + 1) cs e)

pub marks-aligned_where :
    (and : Str) (i : ℕ) (cs : List Str)
    → marks and ≡ 0
    → all_marks (aligned_where and i cs) ≡ length cs
unfolding aligned_where
marks-aligned_where and i [] e = refl
marks-aligned_where and i (c ∷ cs) e = omega (
  arith,
  marks-append and (str "t" ++ (decimal i ++ str ".corpus_id = ?")),
  marks-append (decimal i) (str ".corpus_id = ?"),
  marks-decimal i,
  marks-aligned_where and (i + 1) cs e,
)

pub marks-grouped_name :
    (info : DbInfo)
    → marks info.name ≡ 0
    → marks info.parallel_corpus ≡ 0
    → marks (grouped_name info) ≡ 0
unfolding grouped_name
marks-grouped_name info e f = ground arith

marks-select :
    (group joined wheres : Str)
    → marks group ≡ 0
    → marks joined ≡ 0
    → marks (
        str "SELECT SUM(t1.poscount) FROM `"
        ++ (group ++ (str "_liveattrs_entry` AS t1 " ++ (joined ++ (str " WHERE " ++ wheres)))))
      ≡ marks wheres
marks-select group joined wheres e f =
    marks-append group (str "_liveattrs_entry` AS t1 " ++ (joined ++ (str " WHERE " ++ wheres)))
    ∙ omega (arith, marks-append joined (str " WHERE " ++ wheres))

marks-wheres :
    (cs : List Str) (w : Str)
    → marks (
        join_by (str " AND ") (
          str "t1.corpus_id = ?"
          ∷ str "t1.poscount is NOT NULL"
          ∷ (aligned_where [] 2 cs ++ w ∷ [])))
      ≡ 1 + length cs + marks w
marks-wheres cs w =
    marks-join_by (str " AND ")
      (str "t1.corpus_id = ?" ∷ str "t1.poscount is NOT NULL" ∷ (aligned_where [] 2 cs ++ w ∷ []))
      refl
    ∙ omega
        (arith, all_marks-append (aligned_where [] 2 cs) (w ∷ []), marks-aligned_where [] 2 cs refl)

module _ {U : Type 0} (print : U → Str) where
  export_loop-IsFilled :
      (args : PredicateArgs U) (prefix : Str) (m : Attrs U)
      → marks prefix ≡ 0
      → marks args.bib_label ≡ 0
      → AreClean m
      → IsFilled (export_loop print args prefix m)
  unfolding export_loop
  export_loop-IsFilled args prefix [] e f h = refl
  export_loop-IsFilled args prefix ((dkey, v) ∷ m) e f h =
      let r = attr_sql print prefix args.bib_label args.empty_val_placeholder args.data_ dkey v in
      let rest = export_loop print args prefix m in
      all_marks-with_items r.0 rest.0
      ∙ omega (
        arith,
        length-append r.1 rest.1,
        attr_sql-IsFilled print prefix args.bib_label args.empty_val_placeholder e f args.data_ dkey
            v h.0,
        export_loop-IsFilled args prefix m e f h.1,
      )

  -- The condition that `ExportSQL` builds has as many placeholders as it has values, if the prefix,
  -- the label and the names of the attributes have no question mark.
  pub export_sql-placeholders :
      (args : PredicateArgs U) (prefix corpus_id : Str)
      → marks prefix ≡ 0
      → marks args.bib_label ≡ 0
      → AreClean args.data_
      → marks (export_sql print args prefix corpus_id).0
        ≡ length (export_sql print args prefix corpus_id).1
  unfolding export_sql
  export_sql-placeholders args prefix corpus_id e f h =
      let r = export_loop print args prefix args.data_ in
      let end = prefix ++ str ".corpus_id = ?" in
      marks-join_by (str " AND ") (r.0 ++ end ∷ []) refl
      ∙ omega (
        arith,
        all_marks-append r.0 (end ∷ []),
        marks-append prefix (str ".corpus_id = ?"),
        length-append r.1 (corpus_id ∷ []),
        export_loop-IsFilled args prefix args.data_ e f h,
      )

  -- The query for the size of a subcorpus has as many placeholders as it has values, if the names of
  -- the corpus, its group, its label and the attributes have no question mark.
  pub query-placeholders :
      (ssize : SubcSize U)
      → marks ssize.corpus_info.name ≡ 0
      → marks ssize.corpus_info.parallel_corpus ≡ 0
      → marks ssize.corpus_info.bib_label_attr ≡ 0
      → AreClean ssize.attr_map
      → marks (query print ssize).0 ≡ length (query print ssize).1
  unfolding query
  query-placeholders ssize e f l h =
      let cs = ssize.aligned_corpora in
      let group = grouped_name ssize.corpus_info in
      let r = export_sql print (predicate_args print ssize) (str "t1") ssize.corpus_info.name in
      let joined = marks-join_by (str " ") (joins group 2 cs) refl in
      let clean = marks-grouped_name ssize.corpus_info e f in
      marks-select group (join_by (str " ") (joins group 2 cs)) _ clean
        (joined ∙ marks-joins group 2 cs clean)
      ∙ marks-wheres cs r.0
      ∙ omega (
        arith,
        length-append cs r.1,
        export_sql-placeholders (predicate_args print ssize) (str "t1") ssize.corpus_info.name refl
            l h,
      )
