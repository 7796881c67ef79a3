-- ===== src/LiveAttrs/Documents/Filled.antt =====
-- The query for documents has a value for each placeholder.
use cnc_masm.Prelude.{
  ℕ, zero, suc, ◌≡◌, refl, ap, ◌∙◌, Bool, true, false, some, List, [], ◌∷◌, ◌++◌, Str, str, arith,
  join_by, map, length, length-append,
}
use cnc_masm.LiveAttrs.Sql.{
  JsonItem, text, AttrValue, listing, single, object, anything, Attrs, marks, import_key, decimal,
}
use cnc_masm.LiveAttrs.Sql.Adhoc.{DbInfo, grouped_name}
use cnc_masm.LiveAttrs.Sql.Marks.{
  marks-append, marks-join_by, marks-import_key, marks-decimal, all_marks, all_marks-append,
}
use cnc_masm.LiveAttrs.Documents.{
  query, Items, repeated, mk_placeholder, listing_item, regexp_item, attr_items, all_items,
  joined_items, attrs_to_sql, extract_regexp, inner_join, inner_joins, with_attrs, build_query,
  entry_table,
}

-- A value that `attrsToSQL` can process.
abbrev pub is_processed : {U : Type 0} → AttrValue U → Bool
is_processed (listing vs) = true
is_processed (object tm) = true
is_processed (single v) = false
is_processed (anything u) = false

all_marks-repeated : (n : ℕ) → all_marks (repeated n) ≡ n
all_marks-repeated zero = refl
all_marks-repeated (suc n) = omega (arith, all_marks-repeated n)

pub marks-mk_placeholder : (n : ℕ) → marks (mk_placeholder n) ≡ n
unfolding mk_placeholder
marks-mk_placeholder n = marks-join_by (str ", ") (repeated n) refl ∙ all_marks-repeated n

regexp_item-filled :
    (U : Type 0) (attr v : Str)
    → marks attr ≡ 0
    → all_marks (regexp_item {U = U} attr v).0 ≡ length (regexp_item {U = U} attr v).1
regexp_item-filled U attr [] h = refl
regexp_item-filled U attr (b ∷ v) h =
    omega (arith, h, marks-import_key attr, marks-append (import_key attr) (str " REGEXP ?"))

module _ {U : Type 0} where
  abbrev Fills : Items U → Type 0
  Fills (sql, vals) = all_marks sql ≡ length vals

  listing_item-Fills :
      (attr : Str) (vs : List (JsonItem U)) → marks attr ≡ 0 → Fills (listing_item attr vs)
  unfolding listing_item
  listing_item-Fills attr [] h = refl
  listing_item-Fills attr (v ∷ vs) h = omega (
    arith,
    h,
    marks-import_key attr,
    marks-append (import_key attr) (str " IN (" ++ (mk_placeholder (suc (length vs)) ++ str ") ")),
    marks-append (mk_placeholder (suc (length vs))) (str ") "),
    marks-mk_placeholder (suc (length vs)),
  )

  -- The names have no question mark, and the values are of the types that are processed.
  abbrev pub IsProcessed : Attrs U → Type 0
  IsProcessed [] = Unit
  IsProcessed ((attr, v) ∷ attrs) = (marks attr ≡ 0) × (is_processed v ≡ true) × IsProcessed attrs

  attr_items-total :
      (attr : Str) (v : AttrValue U)
      → marks attr ≡ 0
      → is_processed v ≡ true
      → (r : Items U) × (attr_items attr v ≡ some r) × Fills r
  unfolding attr_items
  attr_items-total attr (listing vs) h p =
      (listing_item attr vs, refl, listing_item-Fills attr vs h)
  attr_items-total attr (object tm) h p =
      (regexp_item attr (extract_regexp tm), refl, regexp_item-filled U attr (extract_regexp tm) h)
  attr_items-total attr (single v) h p = ground (arith, p)
  attr_items-total attr (anything u) h p = ground (arith, p)

  all_items-total :
      (attrs : Attrs U) → IsProcessed attrs → (r : Items U) × (all_items attrs ≡ some r) × Fills r
  unfolding all_items
  all_items-total [] h = (([], []), refl, refl)
  all_items-total ((attr, v) ∷ attrs) (h, p, hs) =
      let ((sql, vals), e, f) = attr_items-total attr v h p in
      let ((sql', vals'), e', f') = all_items-total attrs hs in
      (
        (sql ++ sql', vals ++ vals'),
        rw (e, e') refl,
        omega (arith, f, f', all_marks-append sql sql', length-append vals vals'),
      )

  attrs_to_sql-total :
      (attrs : Attrs U)
      → IsProcessed attrs
      → (sql : Str) × (vals : List (JsonItem U)) × (attrs_to_sql attrs ≡ some (sql, vals))
        × (marks sql ≡ length vals)
  unfolding attrs_to_sql
  attrs_to_sql-total [] h = (str "1", [], refl, refl)
  attrs_to_sql-total (a ∷ attrs) h =
      let ((sql, vals), e, f) = all_items-total (a ∷ attrs) h in
      (join_by (str " AND ") sql, vals, ap joined_items e, marks-join_by (str " AND ") sql refl ∙ f)

marks-entry_table : (info : DbInfo) → marks (grouped_name info) ≡ 0 → marks (entry_table info) ≡ 0
marks-entry_table info h =
    omega (arith, h, marks-append (grouped_name info) (str "_liveattrs_entry`"))

marks-after_number : (n : ℕ) (t : Str) → marks (decimal n ++ t) ≡ marks t
marks-after_number n t = omega (arith, marks-append (decimal n) t, marks-decimal n)

marks-inner_join :
    (info : DbInfo) (n : ℕ) → marks (grouped_name info) ≡ 0 → marks (inner_join info n) ≡ 1
marks-inner_join info n h =
    let c = str ".corpus_id = ?" in
    let b = str ".item_id AND t" ++ (decimal n ++ c) in
    let a = str " ON t1.item_id = t" ++ (decimal n ++ b) in
    let whole = str " AS t" ++ (decimal n ++ a) in
    omega (
      arith,
      marks-append (str "INNER JOIN ") (entry_table info ++ whole),
      marks-append (entry_table info) whole,
      marks-entry_table info h,
      marks-append (str " AS t") (decimal n ++ a),
      marks-after_number n a,
      marks-append (str " ON t1.item_id = t") (decimal n ++ b),
      marks-after_number n b,
      marks-append (str ".item_id AND t") (decimal n ++ c),
      marks-after_number n c,
    )

marks-inner_joins :
    (info : DbInfo) (n : ℕ) (aligned : List Str)
    → marks (grouped_name info) ≡ 0
    → marks (inner_joins info n aligned) ≡ length aligned
unfolding inner_joins
marks-inner_joins info n [] h = refl
marks-inner_joins info n (item ∷ aligned) h = omega (
  arith,
  marks-append (inner_join info n) (inner_joins info (suc n) aligned),
  marks-inner_join info n h,
  marks-inner_joins info (suc n) aligned h,
)

pub length-map : {A B : Type 0} (f : A → B) (xs : List A) → length (map f xs) ≡ length xs
length-map f [] = refl
length-map f (x ∷ xs) = ap suc (length-map f xs)

-- The query for documents is built without a panic if the values of the filter are listings and
-- objects, and it has as many placeholders as arguments, if the names of the columns selected, the
-- group of the corpus, the attribute that identifies documents and the attributes of the filter
-- have no question mark.
pub build_query-placeholders :
    {U : Type 0} (selection : List Str) (info : DbInfo) (aligned : List Str) (attrs : Attrs U)
    → all_marks selection ≡ 0
    → marks (grouped_name info) ≡ 0
    → marks info.bib_id_attr ≡ 0
    → IsProcessed attrs
    → (sql : Str) × (args : List (JsonItem U)) × (build_query selection info aligned attrs
        ≡ query sql args)
      × (marks sql ≡ length args)
unfolding build_query
build_query-placeholders {U} selection info aligned attrs hs hg hb h =
    let (a_sql, a_values, e, f) = attrs_to_sql-total attrs h in
    let end = str " GROUP BY t1." ++ import_key info.bib_id_attr in
    let where_ = str " WHERE t1.corpus_id = ?  AND " ++ (a_sql ++ end) in
    let joined = inner_joins info 2 aligned ++ where_ in
    let from_ = entry_table info ++ (str " AS t1 " ++ joined) in
    let cols = join_by (str ", ") selection in
    (
      str "SELECT " ++ (cols ++ (str " FROM " ++ from_)),
      map text aligned ++ text info.name ∷ a_values,
      ap (with_attrs selection info aligned) e,
      omega (
        arith,
        hs,
        hb,
        f,
        marks-append cols (str " FROM " ++ from_),
        marks-join_by (str ", ") selection refl,
        marks-append (entry_table info) (str " AS t1 " ++ joined),
        marks-entry_table info hg,
        marks-append (inner_joins info 2 aligned) where_,
        marks-inner_joins info 2 aligned hg,
        marks-append a_sql end,
        marks-import_key info.bib_id_attr,
        length-append (map text aligned) (text info.name ∷ a_values),
        length-map {B = JsonItem U} text aligned,
      ),
    )
