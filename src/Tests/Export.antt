-- ===== src/Tests/Export.antt =====
-- The export of three rows to a store that is a list of documents.
use cnc_masm.Prelude.{
  ℕ, ◌≡◌, ◌≢◌, refl, Bool, true, false, Option, none, List, [], ◌∷◌, ◌++◌, Str, str, map, length,
  arith,
}
use cnc_masm.Jobs.Table.{value}
use cnc_masm.Jobs.Info.Kinds.Export.{ExporterStatus, ExportJobInfo}
use cnc_masm.LiveAttrs.Export.{Row, Lemma, Exporting, stops, scanned, mk_id, process_rows_sync}
use cnc_masm.LiveAttrs.Export.Ids.{decode, decode-mk_id}
use cnc_masm.LiveAttrs.Export.Forms.{Takes, all_forms, ids_of, upto}
use cnc_masm.LiveAttrs.Export.Loop.{row_forms}
use cnc_masm.LiveAttrs.Export.Exported.{process_rows_sync-forms, last_document-bare}
use cnc_masm.LiveAttrs.Export.Job.{zero_status, failed_with, new_job}

mk_id_test : mk_id 3844 ≡ value (str "000100")
unfolding mk_id
mk_id_test = refl

decode-mk_id_example : (s : Str) × (mk_id 3844 ≡ value s) × (length s ≡ 6) × (decode 0 s ≡ 3844)
decode-mk_id_example = decode-mk_id 3844 (omega arith)

abbrev row : Str → Str → Row ℕ
row word lemma = record {
  word_value = word;
  lemma_value = lemma;
  sublemma_value = lemma;
  sublemma_count = 2;
  word_pos = str "N";
  word_count = 1;
  word_arf = 1;
  lemma_pos = str "N";
  lemma_count = 2;
  lemma_arf = 2;
  is_pname = false;
}

abbrev rows : List (Row ℕ)
rows = row (str "cat") (str "cat") ∷ row (str "cats") (str "cat") ∷ row (str "dog") (str "dog") ∷ []

abbrev any_word : Str → Bool
any_word w = true

abbrev Docs : Type 0
Docs = List (Lemma ℕ)

abbrev bulk_insert : List (Lemma ℕ) → Docs → Docs × Option Str
bulk_insert ls d = (d ++ ls, none)

abbrev contents : Docs → List (Lemma ℕ)
contents d = d

bulk_insert-Takes : Takes bulk_insert contents
bulk_insert-Takes = record { inserts = λ ls d. refl; answers = λ ls d. refl }

process_rows_sync-forms_example :
    (s : Exporting ℕ Docs) × (process_rows_sync any_word bulk_insert
        (map scanned rows)
        zero_status
        []
      ≡ stops s)
    × (all_forms (contents s.store) ≡ row_forms any_word rows)
    × (n : ℕ) × (ids_of (contents s.store) ≡ map mk_id (upto n))
process_rows_sync-forms_example =
    process_rows_sync-forms any_word bulk_insert-Takes rows zero_status [] refl (λ h. cc)
      (omega arith)

has_forms : row_forms any_word rows ≢ []
unfolding row_forms
has_forms h = cc

last_document-bare_example :
    (s : Exporting ℕ Docs) × (ls : List (Lemma ℕ)) × (l : Lemma ℕ) × (process_rows_sync any_word
        bulk_insert
        (map scanned rows)
        zero_status
        []
      ≡ stops s)
    × (contents s.store ≡ ls ++ l ∷ [])
    × (l.sublemmas ≡ [])
last_document-bare_example =
    last_document-bare any_word bulk_insert-Takes rows zero_status [] refl has_forms (omega arith)

abbrev job : ExportJobInfo
job = new_job 1 (str "a") (str "susanne") false

abbrev statuses : List ExporterStatus
statuses = zero_status ∷ failed_with (str "refused") zero_status ∷ []
