-- ===== src/LiveAttrs/Export/Loop.antt =====
-- liveattrs/qs/qs.go: what the loop of processRowsSync keeps from row to row, with a store that
-- refuses nothing.
use mathlib.Core.List.{append_assoc, append-nil, map-append}
use cnc_masm.Prelude.{
  ℕ, suc, ◌+◌, ◌≤◌, ◌<◌, ◌≡◌, refl, sym, ap, ◌∙◌, subst, Bool, true, false, Option, none, some,
  List, [], ◌∷◌, ◌++◌, Str, str_eq_iff, map, length, insert, if◌then◌else◌, ◌==◌, Bool-cases, inl,
  inr, arith,
}
use cnc_masm.LiveAttrs.Export.{
  Row, Form, Lemma, scanned, Exporting, goes_on, ◌>>>◌, form_of, add_form, is_new, start_lemma,
  append_form, insert_full, take_row, process_row, process_rows, count_record, inserted,
  export_chunk_size,
}
use cnc_masm.LiveAttrs.Export.Ids.{decode-mk_id}
use cnc_masm.LiveAttrs.Export.Forms.{
  Takes, forms_of, all_forms, ids_of, all_forms-append, ids_of-append, current, IsBare, so_far,
  IsExport, close_lemma_keeps, started, started-IsExport,
}

module _ {F D : Type 0} (contents : D → List (Lemma F)) where
  -- The lemma of a row is at hand.
  abbrev IsFor : Row F → Option (Lemma F) → Type 0
  IsFor r none = ⊥
  IsFor r (some l) = (l.lemma ≡ r.lemma_value) × (l.pos ≡ r.lemma_pos)

  is_new-IsFor : (r : Row F) (o : Option (Lemma F)) → is_new r o ≡ false → IsFor r o
  unfolding is_new
  is_new-IsFor r none h = cc
  is_new-IsFor r (some l) h =
      ground (arith, h, str_eq_iff r.lemma_value l.lemma, str_eq_iff r.lemma_pos l.pos)

  -- The state in which the form of the row is added.
  opened :
      (r : Row F) (s : Exporting F D) (forms : List (Str × Str × Form F))
      → s.id_base < 56800235584
      → IsExport contents s forms
      → (s' : Exporting F D) × ((if is_new r s.curr_lemma then start_lemma r s else goes_on s)
          ≡ goes_on s')
        × IsExport contents s' forms
        × IsFor r s'.curr_lemma
        × (s'.id_base ≤ suc s.id_base)
  unfolding start_lemma
  opened r s forms b h = elim (Bool-cases (is_new r s.curr_lemma)) [
    | inl new ↦
        let (id, e, l, d) = decode-mk_id s.id_base b in
        let same = (close_lemma_keeps contents s.curr_lemma s).1 in
        (
          started contents id r s,
          rw new (rw e refl),
          started-IsExport contents id r s forms e h,
          (refl, refl),
          omega (arith, same),
        )
    | inr old ↦ (s, rw old refl, h, is_new-IsFor r s.curr_lemma old, omega arith)
  ]

  forms_of-add_form :
      (r : Row F) (l : Lemma F)
      → IsFor r (some l)
      → forms_of (add_form (form_of r) l)
        ≡ forms_of l ++ (r.lemma_value, r.lemma_pos, form_of r) ∷ []
  unfolding forms_of
  forms_of-add_form r l k = simp (map-append, k.0, k.1)

  all_forms-add_form :
      (r : Row F) (l : Lemma F) (xs ys : List (Lemma F))
      → IsFor r (some l)
      → all_forms (xs ++ (ys ++ add_form (form_of r) l ∷ []))
        ≡ all_forms (xs ++ (ys ++ l ∷ [])) ++ (r.lemma_value, r.lemma_pos, form_of r) ∷ []
  unfolding all_forms
  all_forms-add_form r l xs ys k =
      simp (all_forms-append, forms_of-add_form r l k, append_assoc, append-nil)

  ids_of-add_form :
      (r : Row F) (l : Lemma F) (xs ys : List (Lemma F))
      → ids_of (xs ++ (ys ++ add_form (form_of r) l ∷ [])) ≡ ids_of (xs ++ (ys ++ l ∷ []))
  unfolding ids_of
  ids_of-add_form r l xs ys = simp ids_of-append

  -- The state with the form of the row.
  abbrev appended : Row F → Lemma F → Exporting F D → Exporting F D
  appended r l s = record s {
    curr_lemma = some (add_form (form_of r) l);
    sublemmas = insert r.sublemma_value r.sublemma_count s.sublemmas;
  }

  appended-IsExport :
      (r : Row F) (l : Lemma F) (s : Exporting F D) (forms : List (Str × Str × Form F))
      → s.curr_lemma ≡ some l
      → IsExport contents s forms
      → IsFor r (some l)
      → IsExport contents (appended r l s) (forms ++ (r.lemma_value, r.lemma_pos, form_of r) ∷ [])
  unfolding so_far
  appended-IsExport r l s forms e h k =
      let current_of = λ (o : Option (Lemma F)). contents s.store ++ (s.chunk ++ current o) in
      record {
        has_forms =
            all_forms-add_form r l (contents s.store) s.chunk k
            ∙ ap (λ fs. fs ++ (r.lemma_value, r.lemma_pos, form_of r) ∷ [])
                (ap (λ o. all_forms (current_of o)) (sym e) ∙ h.has_forms);
        numbered =
            ids_of-add_form r l (contents s.store) s.chunk
            ∙ (ap (λ o. ids_of (current_of o)) (sym e) ∙ h.numbered);
        bare = subst (IsBare s.id_base) e h.bare;
      }

  appended_lem :
      (r : Row F) (s : Exporting F D) (forms : List (Str × Str × Form F)) (o : Option (Lemma F))
      → s.curr_lemma ≡ o
      → IsExport contents s forms
      → IsFor r o
      → (s' : Exporting F D) × (append_form r s o ≡ goes_on s')
        × IsExport contents s' (forms ++ (r.lemma_value, r.lemma_pos, form_of r) ∷ [])
        × (s'.id_base ≡ s.id_base)
  unfolding append_form
  appended_lem r s forms none e h k = absurd k
  appended_lem r s forms (some l) e h k =
      (appended r l s, refl, appended-IsExport r l s forms e h k, refl)

  -- A state that has the forms, with the given number of identifiers.
  abbrev pub Holds : List (Str × Str × Form F) → ℕ → Exporting F D → Type 0
  Holds forms n s = IsExport contents s forms × (s.id_base ≤ n)

  Holds-if :
      (b : Bool) (x y : Exporting F D) (forms : List (Str × Str × Form F)) (n : ℕ)
      → Holds forms n x
      → Holds forms n y
      → Holds forms n (if b then x else y)
  Holds-if true x y forms n hx hy = hx
  Holds-if false x y forms n hx hy = hy

  counted-Holds :
      (s : Exporting F D) (forms : List (Str × Str × Form F)) (n : ℕ)
      → Holds forms n s
      → Holds forms n (count_record s) × (0 < (count_record s).proc_records)
  unfolding count_record so_far
  counted-Holds s forms n (h, b) = (
    Holds-if _ _ _ forms n
        (record { has_forms = h.has_forms; numbered = h.numbered; bare = h.bare }, b)
        (record { has_forms = h.has_forms; numbered = h.numbered; bare = h.bare }, b),
    ground arith,
  )

  emptied-Holds :
      (s : Exporting F D) (d : D) (forms : List (Str × Str × Form F)) (n : ℕ)
      → contents d ≡ contents s.store ++ s.chunk
      → Holds forms n s
      → Holds forms n (record s { store = d; chunk = [] })
  unfolding so_far
  emptied-Holds s d forms n e (h, b) = (
    record {
      has_forms =
          ap all_forms (rw e (append_assoc (contents s.store) s.chunk (current s.curr_lemma)))
          ∙ h.has_forms;
      numbered =
          ap ids_of (rw e (append_assoc (contents s.store) s.chunk (current s.curr_lemma)))
          ∙ h.numbered;
      bare = h.bare;
    },
    b,
  )

inserted-none :
    {F D : Type 0} (s : Exporting F D) (p : D × Option Str)
    → p.1 ≡ none
    → inserted s p ≡ goes_on (record s { store = p.0; chunk = [] })
inserted-none s (d, o) h = ap (λ x. inserted s (d, x)) h

module _ {F D : Type 0} {bulk_insert : List (Lemma F) → D → D × Option Str}
    {contents : D → List (Lemma F)} (takes : Takes bulk_insert contents) where
  inserted_lem :
      (s : Exporting F D) (forms : List (Str × Str × Form F)) (n : ℕ)
      → Holds contents forms n s
      → (s' : Exporting F D) × (insert_full bulk_insert s ≡ goes_on s') × Holds contents forms n s'
  unfolding insert_full
  inserted_lem s forms n h = elim (Bool-cases (length s.chunk == export_chunk_size)) [
    | inl full ↦ (
      record s { store = (bulk_insert s.chunk s.store).0; chunk = [] },
      rw full (inserted-none s (bulk_insert s.chunk s.store) (takes.answers s.chunk s.store)),
      emptied-Holds contents s (bulk_insert s.chunk s.store).0 forms n
          (takes.inserts s.chunk s.store) h,
    )
    | inr small ↦ (s, rw small refl, h)
  ]

  take_row_lem :
      (r : Row F) (s : Exporting F D) (forms : List (Str × Str × Form F))
      → s.id_base < 56800235584
      → IsExport contents s forms
      → (s' : Exporting F D) × (take_row bulk_insert r s ≡ goes_on s')
        × Holds contents (forms ++ (r.lemma_value, r.lemma_pos, form_of r) ∷ []) (suc s.id_base) s'
  unfolding take_row
  take_row_lem r s forms b h =
      let (s1, e1, h1, k1, b1) = opened contents r s forms b h in
      let (s2, e2, h2, b2) = appended_lem contents r s1 forms s1.curr_lemma refl h1 k1 in
      let (s3, e3, h3) =
        inserted_lem s2 (forms ++ (r.lemma_value, r.lemma_pos, form_of r) ∷ []) (suc s.id_base)
          (h2, omega (arith, b1, b2)) in
      (s3, rw e1 (rw e2 e3), h3)

module _ {F : Type 0} (is_valid_word : Str → Bool) where
  -- The forms of the rows with a valid lemma, with the lemma and its part of speech.
  unfoldable pub row_forms : List (Row F) → List (Str × Str × Form F)
  row_forms [] = []
  row_forms (r ∷ rows) =
      if is_valid_word r.lemma_value
      then (r.lemma_value, r.lemma_pos, form_of r) ∷ row_forms rows
      else row_forms rows

  row_forms-cons :
      (r : Row F) (rows : List (Row F)) (forms : List (Str × Str × Form F))
      → (forms ++ row_forms (r ∷ [])) ++ row_forms rows ≡ forms ++ row_forms (r ∷ rows)
  unfolding row_forms
  row_forms-cons r rows forms = elim (Bool-cases (is_valid_word r.lemma_value)) [
    | inl valid ↦ rw valid (append_assoc forms _ (row_forms rows))
    | inr other ↦ rw (other, append-nil)
  ]

module _ {F D : Type 0} (is_valid_word : Str → Bool)
    {bulk_insert : List (Lemma F) → D → D × Option Str} {contents : D → List (Lemma F)}
    (takes : Takes bulk_insert contents) where
  process_row_lem :
      (r : Row F) (s : Exporting F D) (forms : List (Str × Str × Form F))
      → s.id_base < 56800235584
      → IsExport contents s forms
      → (s' : Exporting F D) × (process_row is_valid_word bulk_insert (scanned r) s ≡ goes_on s')
        × Holds contents (forms ++ row_forms is_valid_word (r ∷ [])) (suc s.id_base) s'
        × (0 < s'.proc_records)
  unfolding process_row row_forms
  process_row_lem r s forms b h = elim (Bool-cases (is_valid_word r.lemma_value)) [
    | inl valid ↦
        let (s1, e, k) = take_row_lem takes r s forms b h in
        let (g, pos) =
          counted-Holds contents s1 (forms ++ (r.lemma_value, r.lemma_pos, form_of r) ∷ [])
            (suc s.id_base) k in
        (count_record s1, rw (valid, e) refl, rw valid g, pos)
    | inr other ↦
        let (g, pos) = counted-Holds contents s forms (suc s.id_base) (h, omega arith) in
        (count_record s, rw other refl, rw (other, append-nil) g, pos)
  ]

  pub process_rows_lem :
      (rows : List (Row F)) (s : Exporting F D) (forms : List (Str × Str × Form F))
      → s.id_base + length rows ≤ 56800235584
      → IsExport contents s forms
      → (s' : Exporting F D) × (process_rows is_valid_word bulk_insert (map scanned rows) s
          ≡ goes_on s')
        × IsExport contents s' (forms ++ row_forms is_valid_word rows)
        × (0 < s.proc_records + length rows → 0 < s'.proc_records)
  unfolding process_rows row_forms
  process_rows_lem [] s forms b h = (s, refl, rw append-nil h, λ p. omega arith)
  process_rows_lem (r ∷ rows) s forms b h =
      let (s1, e1, (h1, b1), p1) = process_row_lem r s forms (omega arith) h in
      let (s2, e2, h2, p2) =
        process_rows_lem rows s1 (forms ++ row_forms is_valid_word (r ∷ [])) (omega arith) h1 in
      (
        s2,
        ap (λ run. run >>> process_rows is_valid_word bulk_insert (map scanned rows)) e1 ∙ e2,
        subst (IsExport contents s2) (row_forms-cons is_valid_word r rows forms) h2,
        λ p. p2 (omega arith),
      )
