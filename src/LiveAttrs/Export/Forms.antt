-- ===== src/LiveAttrs/Export/Forms.antt =====
-- liveattrs/qs/qs.go: the forms and identifiers of the lemmas that processRowsSync has so far.
use mathlib.Core.List.{append_assoc, append-nil, map-append}
use cnc_masm.Prelude.{
  ℕ, zero, suc, ◌≡◌, refl, ◌∙◌, Option, none, some, List, [], ◌∷◌, ◌++◌, Str, map,
}
use cnc_masm.Jobs.Table.{Checked, value}
use cnc_masm.LiveAttrs.Export.{Row, Form, Lemma, Exporting, new_lemma, close_lemma, mk_id}

-- A store that takes all that it is given, of which `contents` are the documents.
pub record Takes {F D : Type 0} (bulk_insert : List (Lemma F) → D → D × Option Str)
    (contents : D → List (Lemma F)) : Type 0 where
  pub inserts : (ls : List (Lemma F)) (d : D) → contents (bulk_insert ls d).0 ≡ contents d ++ ls
  pub answers : (ls : List (Lemma F)) (d : D) → (bulk_insert ls d).1 ≡ none

module _ {F : Type 0} where
  -- The forms with the lemma and the part of speech under which they stand.
  unfoldable pub forms_of : Lemma F → List (Str × Str × Form F)
  forms_of l = map (λ f. (l.lemma, l.pos, f)) l.forms

  unfoldable pub all_forms : List (Lemma F) → List (Str × Str × Form F)
  unfolding forms_of
  all_forms [] = []
  all_forms (l ∷ ls) = forms_of l ++ all_forms ls

  unfoldable pub ids_of : List (Lemma F) → List (Checked Str)
  ids_of [] = []
  ids_of (l ∷ ls) = value l.id ∷ ids_of ls

  pub all_forms-append :
      (xs ys : List (Lemma F)) → all_forms (xs ++ ys) ≡ all_forms xs ++ all_forms ys
  unfolding all_forms
  all_forms-append [] ys = refl
  all_forms-append (x ∷ xs) ys = simp (all_forms-append xs ys, append_assoc)

  pub ids_of-append : (xs ys : List (Lemma F)) → ids_of (xs ++ ys) ≡ ids_of xs ++ ids_of ys
  unfolding ids_of
  ids_of-append [] ys = refl
  ids_of-append (x ∷ xs) ys = simp (ids_of-append xs ys)

  abbrev pub current : Option (Lemma F) → List (Lemma F)
  current none = []
  current (some l) = l ∷ []

  -- A lemma that is being filled has no sublemmas yet; there is one after the first identifier.
  abbrev pub IsBare : ℕ → Option (Lemma F) → Type 0
  IsBare n none = n ≡ 0
  IsBare n (some l) = l.sublemmas ≡ []

-- 0, ..., n - 1
unfoldable pub upto : ℕ → List ℕ
upto zero = []
upto (suc n) = upto n ++ n ∷ []

module _ {F D : Type 0} (contents : D → List (Lemma F)) where
  -- The lemmas in the store, in the chunk and the one being filled.
  unfoldable pub so_far : Exporting F D → List (Lemma F)
  so_far s = contents s.store ++ (s.chunk ++ current s.curr_lemma)

  pub record IsExport (s : Exporting F D) (forms : List (Str × Str × Form F)) : Type 0 where
    pub has_forms : all_forms (so_far s) ≡ forms
    pub numbered : ids_of (so_far s) ≡ map mk_id (upto s.id_base)
    pub bare : IsBare s.id_base s.curr_lemma

  close_lemma-all_forms :
      (o : Option (Lemma F)) (s : Exporting F D)
      → all_forms ((close_lemma o s).chunk) ≡ all_forms (s.chunk ++ current o)
  unfolding close_lemma all_forms forms_of
  close_lemma-all_forms none s = simp append-nil
  close_lemma-all_forms (some l) s = simp all_forms-append

  close_lemma-ids_of :
      (o : Option (Lemma F)) (s : Exporting F D)
      → ids_of ((close_lemma o s).chunk) ≡ ids_of (s.chunk ++ current o)
  unfolding close_lemma ids_of
  close_lemma-ids_of none s = simp append-nil
  close_lemma-ids_of (some l) s = simp ids_of-append

  pub close_lemma_keeps :
      (o : Option (Lemma F)) (s : Exporting F D)
      → ((close_lemma o s).store ≡ s.store) × ((close_lemma o s).id_base ≡ s.id_base)
  unfolding close_lemma
  close_lemma_keeps none s = (refl, refl)
  close_lemma_keeps (some l) s = (refl, refl)

  -- The state after a lemma is started.
  abbrev pub started : Str → Row F → Exporting F D → Exporting F D
  started id r s =
      let closed = close_lemma s.curr_lemma s in
      record closed { curr_lemma = some (new_lemma id r); id_base = suc closed.id_base }

  all_forms-started :
      (id : Str) (r : Row F) (s : Exporting F D)
      → all_forms (so_far (started id r s)) ≡ all_forms (so_far s)
  unfolding so_far all_forms forms_of
  all_forms-started id r s = simp (
    all_forms-append,
    (close_lemma_keeps s.curr_lemma s).0,
    close_lemma-all_forms s.curr_lemma s,
    append_assoc,
    append-nil,
  )

  ids_of-started :
      (id : Str) (r : Row F) (s : Exporting F D)
      → ids_of (so_far (started id r s)) ≡ ids_of (so_far s) ++ value id ∷ []
  unfolding so_far ids_of
  ids_of-started id r s = simp (
    ids_of-append,
    (close_lemma_keeps s.curr_lemma s).0,
    close_lemma-ids_of s.curr_lemma s,
    append_assoc,
  )

  pub started-IsExport :
      (id : Str) (r : Row F) (s : Exporting F D) (forms : List (Str × Str × Form F))
      → mk_id s.id_base ≡ value id
      → IsExport s forms
      → IsExport (started id r s) forms
  unfolding upto
  started-IsExport id r s forms e h = record {
    has_forms = all_forms-started id r s ∙ h.has_forms;
    numbered =
        ids_of-started id r s
        ∙ simp (h.numbered, (close_lemma_keeps s.curr_lemma s).1, map-append, e);
    bare = refl;
  }
