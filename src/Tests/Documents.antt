-- ===== src/Tests/Documents.antt =====
-- A query for documents with an aligned corpus and two attributes.
use cnc_masm.Prelude.{[], ◌∷◌, str}
use cnc_masm.LiveAttrs.Sql.{text, other, listing, object, Attrs}
use cnc_masm.Prelude.{ℕ}

abbrev filter_attrs : Attrs ℕ
filter_attrs =
    (str "doc.author", listing (text (str "what?") ∷ other 7 ∷ []))
    ∷ (str "doc.year", object ((str "regexp", text (str "19..")) ∷ []))
    ∷ []
