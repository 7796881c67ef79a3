-- ===== src/Tests/Sql.antt =====
-- The queries for a small selection of attribute values.
use cnc_masm.Prelude.{ℕ, ◌≡◌, refl, true, [], ◌∷◌, str, str_eq, length, HasDistinctKeys, lookup}
use cnc_masm.General.Collections.Set.{Set, to_ordered_slice, sort, insert_sorted, str_ltb}
use cnc_masm.LiveAttrs.Sql.{Attrs, listing, text, other, single, decimal, marks}
use cnc_masm.LiveAttrs.Sql.Adhoc.{DbInfo, SubcSize}
use cnc_masm.LiveAttrs.Sql.Laquery.{LaFilter, create_sql}
use cnc_masm.LiveAttrs.Sql.Laquery.Filled.{create_sql-placeholders}

abbrev pub info : DbInfo
info = record {
  name = str "intercorp_en";
  parallel_corpus = str "intercorp";
  bib_label_attr = str "doc.title";
  bib_id_attr = str "doc.id";
}

-- `what?` is a value and not a name.
abbrev selection : Attrs ℕ
selection =
    (str "doc.author", listing (text (str "what?") ∷ other 7 ∷ text (str "@Ulysses") ∷ []))
    ∷ (str "doc.year", single (str "19%"))
    ∷ []

abbrev subc_size : SubcSize ℕ
subc_size = record {
  corpus_info = info;
  attr_map = selection;
  aligned_corpora = str "intercorp_cs" ∷ [];
  empty_val_placeholder = [];
}

abbrev filter : LaFilter ℕ
filter = record {
  corpus_info = info;
  attr_map = selection;
  search_attrs = str "doc.year" ∷ str "doc.author" ∷ [];
  aligned_corpora = str "intercorp_cs" ∷ [];
  autocomplete_attr = [];
  empty_val_placeholder = [];
}

create_sql-placeholders_example :
    marks (create_sql decimal filter).sql_template ≡ length (create_sql decimal filter).where_values
create_sql-placeholders_example =
    create_sql-placeholders decimal filter refl refl refl refl refl (refl, (refl, tt))

abbrev letters : Set
letters = (str "b", true) ∷ (str "ab", true) ∷ (str "a", true) ∷ []

letters_sorted : to_ordered_slice letters ≡ str "a" ∷ str "ab" ∷ str "b" ∷ []
unfolding to_ordered_slice sort insert_sorted str_ltb
letters_sorted = refl

letters-HasDistinctKeys : HasDistinctKeys letters
unfolding lookup str_eq
letters-HasDistinctKeys = (refl, (refl, (refl, tt)))

abbrev more_letters : Set
more_letters = (str "c", true) ∷ (str "a", true) ∷ []
