-- ===== src/LiveAttrs/Export.antt =====
-- liveattrs/qs/qs.go: the export of lemmas with their forms to CouchDB. The store is a parameter,
-- as are floats and the test of valid words.
pub mod Ids
pub mod Forms
pub mod Loop
pub mod Exported
pub mod Job
use cnc_masm.Prelude.{
  ℕ, zero, suc, ◌+◌, ◌/◌, ◌%◌, Bool, true, false, not, ◌||◌, Option, none, some, List, [], ◌∷◌,
  ◌++◌, Str, str, str_eq, StrMap, insert, map, length, if◌then◌else◌, ◌==◌,
}
use cnc_masm.Jobs.Info.Kinds.Export.{ExporterStatus}
use cnc_masm.Jobs.Table.{Checked, value, panic}

abbrev pub export_chunk_size : ℕ
export_chunk_size = 100

abbrev pub key_alphabet : Str
key_alphabet = str "0123456789abcdefghijklmnopqrstuvwxyzABCDEFGHIJKLMNOPQRSTUVWXYZ"

-- `keyAlphabet[p]` for a `p` within bounds
unfoldable pub letter_at : Str → ℕ → ℕ
letter_at [] p = 0
letter_at (c ∷ cs) zero = c
letter_at (c ∷ cs) (suc p) = letter_at cs p

abbrev pub zeros : ℕ → Str → Str
zeros zero s = s
zeros (suc k) s = 48 ∷ zeros k s

-- The loop of `mkID`: the first `k` bytes of the array are zeros still, the others are written. A
-- write before the first byte is a panic.
unfoldable pub write_digits : ℕ → ℕ → Str → Checked Str
unfolding letter_at
write_digits zero x written = if x == 0 then value written else panic
write_digits (suc k) x written =
    let rest = write_digits k (x / 62) (letter_at key_alphabet (x % 62) ∷ written) in
    if x == 0 then value (zeros (suc k) written) else rest

unfoldable pub mk_id : ℕ → Checked Str
unfolding write_digits
mk_id x = write_digits 6 x []

pub record Form (F : Type 0) : Type 0 where
  pub value_ : Str
  pub count : ℕ
  pub arf : F

pub record Sublemma : Type 0 where
  pub value_ : Str
  pub count : ℕ

pub record Lemma (F : Type 0) : Type 0 where
  pub id : Str
  pub lemma : Str
  pub forms : List (Form F)
  pub sublemmas : List Sublemma
  pub pos : Str
  pub arf : F
  pub is_pname : Bool
  pub count : ℕ

-- A row of the query, in the order of its columns.
pub record Row (F : Type 0) : Type 0 where
  pub word_value : Str
  pub lemma_value : Str
  pub sublemma_value : Str
  pub sublemma_count : ℕ
  pub word_pos : Str
  pub word_count : ℕ
  pub word_arf : F
  pub lemma_pos : Str
  pub lemma_count : ℕ
  pub lemma_arf : F
  pub is_pname : Bool

pub data Scanned (F : Type 0) : Type 0 where
  scanned : Row F → Scanned F
  scan_failed : Str → Scanned F

-- `chunk` and `curr_lemma` with what their pointers point to; `sent` is what went to `statusChan`.
pub record Exporting (F D : Type 0) : Type 0 where
  pub store : D
  pub id_base : ℕ
  pub proc_records : ℕ
  pub chunk : List (Lemma F)
  pub curr_lemma : Option (Lemma F)
  pub sublemmas : StrMap ℕ
  pub status : ExporterStatus
  pub sent : List ExporterStatus

pub data Run (S : Type 0) : Type 0 where
  goes_on : S → Run S
  stops : S → Run S
  panics : Run S

infixl 5 ◌>>>◌
abbrev pub ◌>>>◌ : {S : Type 0} → Run S → (S → Run S) → Run S
goes_on s >>> f = f s
stops s >>> f = stops s
panics >>> f = panics

abbrev pub export_sublemma : Str × ℕ → Sublemma
export_sublemma (v, n) = record { value_ = v; count = n }

module _ {F : Type 0} where
  abbrev pub form_of : Row F → Form F
  form_of r = record { value_ = r.word_value; count = r.word_count; arf = r.word_arf }

  -- `currLemma == nil || newLemma != currLemma.Lemma || newPos != currLemma.PoS`
  unfoldable pub is_new : Row F → Option (Lemma F) → Bool
  is_new r none = true
  is_new r (some l) = not (str_eq r.lemma_value l.lemma) || not (str_eq r.lemma_pos l.pos)

  abbrev pub new_lemma : Str → Row F → Lemma F
  new_lemma id r = record {
    id = id;
    lemma = r.lemma_value;
    forms = [];
    sublemmas = [];
    pos = r.lemma_pos;
    arf = r.lemma_arf;
    is_pname = r.is_pname;
    count = r.lemma_count;
  }

  abbrev pub with_sublemmas : StrMap ℕ → Lemma F → Lemma F
  with_sublemmas subs l = record l { sublemmas = map export_sublemma subs }

  abbrev pub add_form : Form F → Lemma F → Lemma F
  add_form f l = record l { forms = l.forms ++ f ∷ [] }

module _ {F D : Type 0} where
  -- The lemma before goes to the chunk, with its sublemmas.
  unfoldable pub close_lemma : Option (Lemma F) → Exporting F D → Exporting F D
  close_lemma none s = s
  close_lemma (some l) s = record s {
    chunk = s.chunk ++ with_sublemmas s.sublemmas l ∷ [];
    sublemmas = [];
  }

  abbrev pub set_lemma : Row F → Exporting F D → Checked Str → Run (Exporting F D)
  set_lemma r s panic = panics
  set_lemma r s (value id) =
      goes_on (record s { curr_lemma = some (new_lemma id r); id_base = suc s.id_base })

  -- The body of the condition on `currLemma`.
  unfoldable pub start_lemma : Row F → Exporting F D → Run (Exporting F D)
  unfolding close_lemma mk_id
  start_lemma r s = set_lemma r (close_lemma s.curr_lemma s) (mk_id s.id_base)

  -- The form and the sublemma of the row; no lemma here is a nil dereference.
  unfoldable pub append_form : Row F → Exporting F D → Option (Lemma F) → Run (Exporting F D)
  append_form r s none = panics
  append_form r s (some l) = goes_on (record s {
    curr_lemma = some (add_form (form_of r) l);
    sublemmas = insert r.sublemma_value r.sublemma_count s.sublemmas;
  })

  abbrev pub add_row : Row F → Exporting F D → Run (Exporting F D)
  add_row r s = append_form r s s.curr_lemma

  -- `status.Error = err; statusChan <- status`
  unfoldable pub send_error : Str → Exporting F D → Exporting F D
  send_error e s =
      let status = record s.status { error = some e } in
      record s { status = status; sent = s.sent ++ status ∷ [] }

  abbrev pub send_status : Exporting F D → Exporting F D
  send_status s = record s { sent = s.sent ++ s.status ∷ [] }

  abbrev pub inserted : Exporting F D → D × Option Str → Run (Exporting F D)
  inserted s (d, some e) = stops (send_error e (record s { store = d }))
  inserted s (d, none) = goes_on (record s { store = d; chunk = [] })

  unfoldable pub count_record : Exporting F D → Exporting F D
  count_record s =
      let n = suc s.proc_records in
      if n % 100000 == 0
      then send_status
          (record s { proc_records = n; status = record s.status { num_proc_lines = n } })
      else record s { proc_records = n }

module _ {F D : Type 0} where
  -- The lemma that is left goes to the chunk as it is.
  unfoldable pub last_chunk : Exporting F D → List (Lemma F)
  last_chunk s = elim s.curr_lemma [ none ↦ s.chunk | some l ↦ s.chunk ++ l ∷ [] ]

  abbrev pub last_inserted : Exporting F D → D × Option Str → Exporting F D
  last_inserted s (d, none) = send_status (record s { store = d })
  last_inserted s (d, some e) = send_error e (record s { store = d })

  abbrev pub exporting : ExporterStatus → D → Exporting F D
  exporting status d = record {
    store = d;
    id_base = 0;
    proc_records = 0;
    chunk = [];
    curr_lemma = none;
    sublemmas = [];
    status = status;
    sent = [];
  }

-- `bulk_insert` is `DocHandler.BulkInsert`.
module _ {F D : Type 0} (bulk_insert : List (Lemma F) → D → D × Option Str) where
  unfoldable pub insert_full : Exporting F D → Run (Exporting F D)
  unfolding send_error
  insert_full s =
      if length s.chunk == export_chunk_size
      then inserted s (bulk_insert s.chunk s.store)
      else goes_on s

  -- The body of `if exp.isValidWord(lemmaValue)`.
  unfoldable pub take_row : Row F → Exporting F D → Run (Exporting F D)
  unfolding is_new start_lemma append_form insert_full
  take_row r s =
      (if is_new r s.curr_lemma then start_lemma r s else goes_on s) >>> add_row r >>> insert_full

  unfoldable pub insert_last : List (Lemma F) → Exporting F D → Exporting F D
  unfolding send_error
  insert_last [] s = send_status s
  insert_last (l ∷ ls) s = last_inserted s (bulk_insert (l ∷ ls) s.store)

  -- After the loop.
  unfoldable pub finish_rows : Exporting F D → Run (Exporting F D)
  unfolding send_error last_chunk insert_last
  finish_rows s =
      if s.proc_records == 0
      then stops (send_error (str "there were no n-gram records to process") s)
      else stops (insert_last (last_chunk s) s)

module _ {F D : Type 0} (is_valid_word : Str → Bool)
    (bulk_insert : List (Lemma F) → D → D × Option Str) where
  unfoldable pub process_row : Scanned F → Exporting F D → Run (Exporting F D)
  unfolding take_row send_error count_record
  process_row (scan_failed e) s = stops (send_error e s)
  process_row (scanned r) s =
      (if is_valid_word r.lemma_value then take_row bulk_insert r s else goes_on s) >>> λ s'.
      goes_on (count_record s')

  unfoldable pub process_rows : List (Scanned F) → Exporting F D → Run (Exporting F D)
  unfolding process_row
  process_rows [] s = goes_on s
  process_rows (r ∷ rows) s = process_row r s >>> process_rows rows

  unfoldable pub process_rows_sync : List (Scanned F) → ExporterStatus → D → Run (Exporting F D)
  unfolding process_rows finish_rows
  process_rows_sync rows status d =
      process_rows rows (exporting status d) >>> finish_rows bulk_insert
