-- ===== src/Tests/Answers.antt =====
-- An answer for two attributes, from three rows.
use cnc_masm.Prelude.{ℕ, ◌≡◌, refl, some, List, [], ◌∷◌, Str, str, str_eq, StrMap}
use cnc_masm.LiveAttrs.Answers.{
  ListedValue, Column, listed, number, ResultRow, Collected, add_rows, start, listings,
}
use cnc_masm.LiveAttrs.Answers.Listings.{HasListing, listings-total}
use cnc_masm.LiveAttrs.Sql.{export_key}

abbrev row : StrMap Str → ℕ → ResultRow
row attrs n = record { attrs = attrs; poscount = n; wordcount = n }

-- The last row has no author.
abbrev three_rows : List ResultRow
three_rows =
    row ((str "doc_year", str "1999") ∷ (str "doc_author", str "Homer") ∷ []) 120
    ∷ row ((str "doc_year", str "2001") ∷ (str "doc_author", str "Homer") ∷ []) 30
    ∷ row ((str "doc_year", str "2001") ∷ []) 50
    ∷ []

listings-total_example :
    (c : Collected) × (add_rows
        (str "doc.title")
        (str "doc_id")
        three_rows
        (start (str "doc.year" ∷ str "doc.author" ∷ []))
      ≡ some c)
    × (c.poscount ≡ 200)
    × HasListing (str "doc.author") 150 (listings c)
unfolding export_key str_eq
listings-total_example =
    listings-total (str "doc.title") (str "doc_id") (str "doc.year" ∷ str "doc.author" ∷ [])
      three_rows (str "doc.author") refl

abbrev listed_value : Str → ℕ → ListedValue
listed_value label n = record {
  id = label;
  label = label;
  short_label = label;
  count = n;
  grouping = 1;
}

abbrev two_authors : List ListedValue
two_authors = listed_value (str "Joyce") 7 ∷ listed_value (str "Homer") 150 ∷ []

abbrev columns : StrMap Column
columns = (str "doc.year", number 3) ∷ (str "doc.author", listed two_authors) ∷ []
