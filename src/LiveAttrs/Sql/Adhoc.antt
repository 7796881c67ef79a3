-- ===== src/LiveAttrs/Sql/Adhoc.antt =====
-- liveattrs/db/qbuilder/adhoc: the size of an ad-hoc subcorpus (args.go, adhoc.go).
pub mod Placeholders
use cnc_masm.Prelude.{ℕ, ◌+◌, List, [], ◌∷◌, ◌++◌, Str, str, StrMap, join_by, if◌then◌else◌}
use cnc_masm.LiveAttrs.Sql.{AttrValue, Attrs, attr_sql, with_items, decimal}

-- corpus/info.go: of `DBInfo`, what the queries use.
pub record DbInfo : Type 0 where
  pub name : Str
  pub parallel_corpus : Str
  pub bib_label_attr : Str
  pub bib_id_attr : Str

unfoldable pub grouped_name : DbInfo → Str
grouped_name info = elim info.parallel_corpus [ [] ↦ info.name | b ∷ s ↦ b ∷ s ]

pub record PredicateArgs (U : Type 0) : Type 0 where
  pub data_ : Attrs U
  pub empty_val_placeholder : Str
  pub bib_label : Str

pub record SubcSize (U : Type 0) : Type 0 where
  pub corpus_info : DbInfo
  pub attr_map : Attrs U
  pub aligned_corpora : List Str
  pub empty_val_placeholder : Str

-- "`%s_liveattrs_entry` AS t%d ON t1.item_id = t%d.item_id"
abbrev pub join_sql : Str → ℕ → Str
join_sql group i =
    str "JOIN `"
    ++ (group
        ++ (str "_liveattrs_entry` AS t"
            ++ (decimal i ++ (str " ON t1.item_id = t" ++ (decimal i ++ str ".item_id")))))

-- The lines for the aligned corpora, the first of which is number `i`.
unfoldable pub joins : Str → ℕ → List Str → List Str
joins group i [] = []
joins group i (c ∷ cs) = join_sql group i ∷ joins group (i + 1) cs

unfoldable pub aligned_where : Str → ℕ → List Str → List Str
aligned_where and i [] = []
aligned_where and i (c ∷ cs) =
    (and ++ (str "t" ++ (decimal i ++ str ".corpus_id = ?"))) ∷ aligned_where and (i + 1) cs

module _ {U : Type 0} (print : U → Str) where
  -- The loop over the attributes, whose order is that of the list.
  unfoldable pub export_loop : PredicateArgs U → Str → Attrs U → List Str × List Str
  export_loop args prefix [] = ([], [])
  export_loop args prefix ((dkey, v) ∷ m) =
      let (items, values) =
        attr_sql print prefix args.bib_label args.empty_val_placeholder args.data_ dkey v in
      let (ws, rest) = export_loop args prefix m in (with_items items ws, values ++ rest)

  -- `ExportSQL`
  unfoldable pub export_sql : PredicateArgs U → Str → Str → Str × List Str
  unfolding export_loop
  export_sql args prefix corpus_id =
      let (ws, values) = export_loop args prefix args.data_ in
      (
        join_by (str " AND ") (ws ++ (prefix ++ str ".corpus_id = ?") ∷ []),
        values ++ corpus_id ∷ [],
      )

  abbrev pub predicate_args : SubcSize U → PredicateArgs U
  predicate_args ssize = record {
    data_ = ssize.attr_map;
    empty_val_placeholder = ssize.empty_val_placeholder;
    bib_label = ssize.corpus_info.bib_label_attr;
  }

  -- `Query`: the text and the values for it.
  unfoldable pub query : SubcSize U → Str × List Str
  unfolding export_sql joins aligned_where grouped_name
  query ssize =
      let (where2, args2) = export_sql (predicate_args ssize) (str "t1") ssize.corpus_info.name in
      let where_sql =
        str "t1.corpus_id = ?"
        ∷ str "t1.poscount is NOT NULL"
        ∷ (aligned_where [] 2 ssize.aligned_corpora ++ where2 ∷ []) in
      let group = grouped_name ssize.corpus_info in
      (
        str "SELECT SUM(t1.poscount) FROM `"
            ++ (group
                ++ (str "_liveattrs_entry` AS t1 "
                    ++ (join_by (str " ") (joins group 2 ssize.aligned_corpora)
                        ++ (str " WHERE " ++ join_by (str " AND ") where_sql)))),
        ssize.corpus_info.name ∷ (ssize.aligned_corpora ++ args2),
      )
