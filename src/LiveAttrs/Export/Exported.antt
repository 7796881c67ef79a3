-- ===== src/LiveAttrs/Export/Exported.antt =====
-- liveattrs/qs/qs.go: the documents that processRowsSync leaves in a store that refuses nothing.
use mathlib.Core.List.{append_assoc, append-nil}
use cnc_masm.Prelude.{
  ℕ, zero, suc, ◌≤◌, ◌<◌, ◌≡◌, ◌≢◌, refl, sym, ap, ◌∙◌, Bool, Option, none, some, List, [], ◌∷◌,
  ◌++◌, Str, map, length, arith,
}
use cnc_masm.Jobs.Info.Kinds.Export.{ExporterStatus}
use cnc_masm.LiveAttrs.Export.{
  Row, Lemma, scanned, Exporting, stops, ◌>>>◌, mk_id, exporting, process_rows_sync, finish_rows,
  last_chunk, insert_last, last_inserted, send_error,
}
use cnc_masm.LiveAttrs.Export.Forms.{
  Takes, all_forms, ids_of, current, upto, so_far, IsExport, IsBare,
}
use cnc_masm.LiveAttrs.Export.Loop.{row_forms, process_rows_lem}

last_chunk-current :
    {F D : Type 0} (s : Exporting F D) → last_chunk s ≡ s.chunk ++ current s.curr_lemma
unfolding last_chunk
last_chunk-current s = ground (arith, append-nil s.chunk)

module _ {F D : Type 0} (is_valid_word : Str → Bool)
    {bulk_insert : List (Lemma F) → D → D × Option Str} {contents : D → List (Lemma F)}
    (takes : Takes bulk_insert contents) where
  last_inserted-store : (s : Exporting F D) (p : D × Option Str) → (last_inserted s p).store ≡ p.0
  unfolding send_error
  last_inserted-store s (d, none) = refl
  last_inserted-store s (d, some e) = refl

  insert_last-store :
      (ls : List (Lemma F)) (s : Exporting F D)
      → contents (insert_last bulk_insert ls s).store ≡ contents s.store ++ ls
  unfolding insert_last
  insert_last-store [] s = sym (append-nil (contents s.store))
  insert_last-store (l ∷ ls) s =
      ap contents (last_inserted-store s (bulk_insert (l ∷ ls) s.store))
      ∙ takes.inserts (l ∷ ls) s.store

  -- All the documents of the store are those of the state after the loop.
  finish_rows_lem :
      (s : Exporting F D)
      → 0 < s.proc_records
      → (s' : Exporting F D) × (finish_rows bulk_insert s ≡ stops s')
        × (contents s'.store ≡ so_far contents s)
  unfolding finish_rows so_far
  finish_rows_lem s p = (
    insert_last bulk_insert (last_chunk s) s,
    ground arith,
    insert_last-store (last_chunk s) s ∙ ap (λ ls. contents s.store ++ ls) (last_chunk-current s),
  )

  exporting-IsExport :
      (status : ExporterStatus) (d : D)
      → contents d ≡ []
      → IsExport contents (exporting {F = F} status d) []
  unfolding so_far all_forms ids_of upto
  exporting-IsExport status d e = record {
    has_forms = rw e refl;
    numbered = rw e refl;
    bare = refl;
  }

  -- The state after the loop, and the documents.
  process_rows_sync_lem :
      (rows : List (Row F)) (status : ExporterStatus) (d : D)
      → contents d ≡ []
      → rows ≢ []
      → length rows ≤ 56800235584
      → (s : Exporting F D) × (s' : Exporting F D) × (process_rows_sync is_valid_word bulk_insert
            (map scanned rows)
            status
            d
          ≡ stops s')
        × (contents s'.store ≡ so_far contents s)
        × IsExport contents s (row_forms is_valid_word rows)
  unfolding process_rows_sync
  process_rows_sync_lem [] status d e ne b = absurd (ne refl)
  process_rows_sync_lem (r ∷ rows) status d e ne b =
      let (s, e1, h, p) =
        process_rows_lem is_valid_word takes (r ∷ rows) (exporting status d) [] (omega (arith, b))
          (exporting-IsExport status d e) in
      let (s', e2, c) = finish_rows_lem s (p (omega arith)) in
      (s, s', ap (λ run. run >>> finish_rows bulk_insert) e1 ∙ e2, c, h)

  -- When there are rows, all of them are read, and the store, empty at first, refuses nothing,
  -- processRowsSync comes to its end for up to 62^6 rows. The documents have the forms of the rows with a valid lemma, each
  -- with that lemma and its part of speech, once and in their order, and the identifiers are those of
  -- 0, 1, 2 and so on.
  pub process_rows_sync-forms :
      (rows : List (Row F)) (status : ExporterStatus) (d : D)
      → contents d ≡ []
      → rows ≢ []
      → length rows ≤ 56800235584
      → (s : Exporting F D) × (process_rows_sync is_valid_word bulk_insert
            (map scanned rows)
            status
            d
          ≡ stops s)
        × (all_forms (contents s.store) ≡ row_forms is_valid_word rows)
        × (n : ℕ) × (ids_of (contents s.store) ≡ map mk_id (upto n))
  process_rows_sync-forms rows status d e ne b =
      let (s, s', run, c, h) = process_rows_sync_lem rows status d e ne b in
      (s', run, ap all_forms c ∙ h.has_forms, s.id_base, ap ids_of c ∙ h.numbered)

  bare_end :
      (xs : List (Lemma F)) (n : ℕ) (o : Option (Lemma F))
      → IsBare n o
      → ids_of (xs ++ current o) ≡ map mk_id (upto n)
      → all_forms (xs ++ current o) ≢ []
      → (ls : List (Lemma F)) × (l : Lemma F) × (xs ++ current o ≡ ls ++ l ∷ [])
        × (l.sublemmas ≡ [])
  unfolding upto ids_of all_forms
  bare_end xs n (some l) b ids ne = (xs, l, refl, b)
  bare_end [] n none b ids ne = absurd (ne refl)
  bare_end (x ∷ xs) zero none b ids ne = cc
  bare_end (x ∷ xs) (suc n) none b ids ne = absurd (omega arith)

  -- The last document of a run of processRowsSync whose rows are all read, up to 62^6 of them, one or
  -- more with a valid lemma, to a store that is empty at first and refuses nothing, has no sublemmas.
  pub last_document-bare :
      (rows : List (Row F)) (status : ExporterStatus) (d : D)
      → contents d ≡ []
      → row_forms is_valid_word rows ≢ []
      → length rows ≤ 56800235584
      → (s : Exporting F D) × (ls : List (Lemma F)) × (l : Lemma F) × (process_rows_sync
            is_valid_word bulk_insert
            (map scanned rows)
            status
            d
          ≡ stops s)
        × (contents s.store ≡ ls ++ l ∷ [])
        × (l.sublemmas ≡ [])
  unfolding row_forms so_far
  last_document-bare rows status d e ne b =
      let (s, s', run, c, h) =
        process_rows_sync_lem rows status d e (λ q. ne (ap (row_forms is_valid_word) q)) b in
      let docs : List (Lemma F) = contents s.store ++ s.chunk in
      let same : so_far contents s ≡ docs ++ current s.curr_lemma =
        sym (append_assoc (contents s.store) s.chunk (current s.curr_lemma)) in
      let (ls, l, at_end, bare) =
        bare_end docs s.id_base s.curr_lemma h.bare (ap ids_of (sym same) ∙ h.numbered)
          (λ q. ne (sym h.has_forms ∙ (ap all_forms same ∙ q))) in
      (s', ls, l, run, c ∙ (same ∙ at_end), bare)
