-- ===== src/LiveAttrs/Sql/Conditions.antt =====
-- The condition for one attribute has a placeholder for each of its values.
use cnc_masm.Prelude.{
  ◌+◌, ◌≡◌, refl, Option, none, some, List, [], ◌∷◌, ◌++◌, Str, str, arith, join_by, length, ◌∙◌,
  ap,
}
use cnc_masm.LiveAttrs.Sql.{
  JsonItem, text, other, AttrValue, listing, single, object, anything, Attrs, marks, compare_with,
  item_sql, listing_sql, regexp_sql, attr_sql, with_items, get_regexp_attr_val, import_key,
  cmp_operator,
}
use cnc_masm.LiveAttrs.Sql.Marks.{
  marks-append, all_marks, marks-join_by, marks-import_key, marks-cmp_operator, marks-dotted,
}

-- As many placeholders as values.
abbrev pub IsFilled : List Str × List Str → Type 0
IsFilled r = all_marks r.0 ≡ length r.1

pub all_marks-with_items :
    (xs ws : List Str) → all_marks (with_items xs ws) ≡ all_marks xs + all_marks ws
all_marks-with_items [] ws = omega arith
all_marks-with_items (x ∷ xs) ws =
    ap (λ n. n + all_marks ws)
      (marks-append (join_by (str " OR ") (x ∷ xs)) (str ")")
        ∙ omega (arith, marks-join_by (str " OR ") (x ∷ xs) refl))

module _ {U : Type 0} (print : U → Str) (prefix bib_label placeholder : Str)
    (clean_prefix : marks prefix ≡ 0) (clean_label : marks bib_label ≡ 0) where
  marks-compare_with :
      (key v : Str)
      → marks key ≡ 0
      → marks (compare_with print prefix bib_label placeholder key v) ≡ 1
  marks-compare_with key v e =
      marks-dotted prefix (key ++ 32 ∷ (cmp_operator v ++ str " ?")) clean_prefix
      ∙ marks-append key (32 ∷ (cmp_operator v ++ str " ?"))
      ∙ omega (arith, marks-append (cmp_operator v) (str " ?"), marks-cmp_operator v)

  marks-item_sql :
      (key v : Str) → marks key ≡ 0 → marks (item_sql print prefix bib_label placeholder key v) ≡ 1
  unfolding item_sql
  marks-item_sql key [] e = marks-compare_with key [] e
  marks-item_sql key (b ∷ v) e =
      ground (arith, marks-compare_with key (b ∷ v) e, marks-compare_with bib_label v clean_label)

  listing_sql-IsFilled :
      (key : Str) (vs : List (JsonItem U))
      → marks key ≡ 0
      → IsFilled (listing_sql print prefix bib_label placeholder key vs)
  unfolding listing_sql
  listing_sql-IsFilled key [] e = refl
  listing_sql-IsFilled key (text v ∷ vs) e =
      omega (arith, marks-item_sql key v e, listing_sql-IsFilled key vs e)
  listing_sql-IsFilled key (other u ∷ vs) e = listing_sql-IsFilled key vs e

  regexp_sql-IsFilled :
      (key : Str) (o : Option Str)
      → marks key ≡ 0
      → IsFilled (regexp_sql print prefix bib_label placeholder key o)
  unfolding regexp_sql
  regexp_sql-IsFilled key none e = refl
  regexp_sql-IsFilled key (some v) e = omega (
    arith,
    marks-dotted prefix (key ++ str " REGEXP ?") clean_prefix,
    marks-append key (str " REGEXP ?"),
  )

  pub attr_sql-IsFilled :
      (data_ : Attrs U) (dkey : Str) (v : AttrValue U)
      → marks dkey ≡ 0
      → IsFilled (attr_sql print prefix bib_label placeholder data_ dkey v)
  unfolding attr_sql
  attr_sql-IsFilled data_ dkey (listing vs) e =
      listing_sql-IsFilled (import_key dkey) vs (marks-import_key dkey ∙ e)
  attr_sql-IsFilled data_ dkey (single v) e = omega (
    arith,
    marks-dotted prefix (import_key dkey ++ str " LIKE ?") clean_prefix,
    marks-append (import_key dkey) (str " LIKE ?"),
    marks-import_key dkey,
  )
  attr_sql-IsFilled data_ dkey (object tm) e =
      regexp_sql-IsFilled (import_key dkey) (get_regexp_attr_val data_ dkey)
        (marks-import_key dkey ∙ e)
  attr_sql-IsFilled data_ dkey (anything u) e =
      let end = cmp_operator (print u) ++ str " LOWER(?)" in
      omega (
        arith,
        marks-dotted prefix (import_key dkey ++ (str ") " ++ end)) clean_prefix,
        marks-append (import_key dkey) (str ") " ++ end),
        marks-append (cmp_operator (print u)) (str " LOWER(?)"),
        marks-cmp_operator (print u),
        marks-import_key dkey,
      )
