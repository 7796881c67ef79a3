-- ===== src/LiveAttrs/Ngrams/Rows.antt =====
-- liveattrs/db/freqdb/mkfreqdb.go: `run` after the query, over the rows that it gives.
use cnc_masm.Prelude.{
  ℕ, suc, ◌%◌, Bool, false, Option, none, some, List, [], ◌∷◌, ◌++◌, Str, str, ◌⊎◌, inl, inr,
  if◌then◌else◌, ◌==◌, ltb,
}
use cnc_masm.Jobs.Info.Kinds.Ngram.{GenNgramsStatus}
use cnc_masm.LiveAttrs.Ngrams.{Floats, NgRecord, is_stop_ngram}
use cnc_masm.LiveAttrs.Ngrams.Tx.{
  DbError, duplicate_row, other, Statement, Outcome, ok, err, nil_deref, Tx, ◌>>=◌, ◌>>◌, returns,
  Group, empty_group, bump, proc_line,
}

-- liveattrs/db/ptimes.go: the two sums that `EstimateProcTimeSecs` scans, which may be NULL.
pub data Estimate : Type 0 where
  seconds : ℕ → Estimate
  not_avail : Estimate
  failed : DbError → Estimate

-- The parameter is the division of floats with its rounding.
unfoldable pub estimate_proc_time_secs :
    {T : Type 0} → (ℕ → T → ℕ) → DbError ⊎ (Option ℕ × Option T) → Estimate
estimate_proc_time_secs div (inl e) = failed e
estimate_proc_time_secs div (inr (some items, some time)) = seconds (div items time)
estimate_proc_time_secs div (inr _) = not_avail

-- What `rows.Next` and `rows.Scan` give.
pub data Row (F : Type 0) : Type 0 where
  scanned : NgRecord F → Row F
  scan_error : DbError → Row F

-- The state of `run`: the database, the status and what was sent so far.
pub record World (D : Type 0) : Type 0 where
  pub db : D
  pub status : GenNgramsStatus
  pub sent : List GenNgramsStatus
  pub closed : Bool

abbrev pub report_each_nth_item : ℕ
report_each_nth_item = 50000

abbrev pub non_word_tag : Str
non_word_tag = str "X@-------------"

abbrev pub no_status : GenNgramsStatus
no_status = record {
  tables_ready = false;
  num_proc_lines = 0;
  avg_speed_items_per_sec = 0;
  time_estimation_secs = 0;
  error = none;
}

abbrev pub error_text : DbError → Str
error_text (duplicate_row m) = m
error_text (other e) = e

module _ {D : Type 0} where
  abbrev pub new_world : D → World D
  new_world d = record { db = d; status = no_status; sent = []; closed = false }

  -- `statusChan <- *currStatus`, with the status as it is then
  unfoldable pub send : (GenNgramsStatus → GenNgramsStatus) → Tx (World D) (Unit {0})
  send set w =
      let now = set w.status in (record w { status = now; sent = w.sent ++ now ∷ [] }, ok tt)

  abbrev pub put_db : {A : Type 0} → World D → D × Outcome A → World D × Outcome A
  put_db w (d, r) = (record w { db = d }, r)

  abbrev pub on_db : {A : Type 0} → Tx D A → Tx (World D) A
  on_db m w = put_db w (m w.db)

  abbrev pub known_estimate : ℕ → Tx (World D) (Unit {0})
  known_estimate estim =
      if ltb 0 estim then send (λ s. record s { time_estimation_secs = estim }) else returns tt

  unfoldable pub use_estimate : Estimate → Tx (World D) (Unit {0})
  unfolding send
  use_estimate (seconds estim) = known_estimate estim
  use_estimate not_avail = returns tt
  use_estimate (failed e) = λ w. (w, err e)

  abbrev pub dropping : {A : Type 0} → World D → D × Outcome A → World D × Outcome (Unit {0})
  dropping w (d, nil_deref) = (record w { db = d }, nil_deref)
  dropping w (d, _) = (record w { db = d }, ok tt)

abbrev pub progress : (ℕ → ℕ) → ℕ → GenNgramsStatus → GenNgramsStatus
progress speed n s = record s { num_proc_lines = n; avg_speed_items_per_sec = speed n }

abbrev pub report : {D : Type 0} → (ℕ → ℕ) → ℕ → Tx (World D) (Unit {0})
report speed n = if n % report_each_nth_item == 0 then send (progress speed n) else returns tt

-- The record with zero values.
abbrev pub last_rec : {F : Type 0} → Floats F → NgRecord F
last_rec fl = record { word = []; lemma = []; sublemma = []; tag = []; abs = 0; arf = fl.nought }

-- The statistics of the time, the error of which is only logged, and the final status.
abbrev pub finish : {D : Type 0} → (ℕ → ℕ) → (ℕ → D → D) → ℕ → Tx (World D) (Unit {0})
finish speed add_entry n w = send (progress speed n) (record w { db = add_entry n w.db })

module _ {F D : Type 0} (exec : Statement F → D → D × Option DbError) (fl : Floats F)
    (transform : Str → Str) (upcase : Str → ℕ) (stop_words_regex : Str → Bool) (speed : ℕ → ℕ) where
  -- One round: `procLine`, and the count of the sublemma once more.
  unfoldable pub read_record : NgRecord F → Group F → ℕ → Tx (World D) (Group F)
  unfolding send proc_line
  read_record rec_ g n = on_db (proc_line exec fl transform upcase rec_ g) >>= λ g'.
      report speed (suc n) >> returns (record g' { sublemmas = bump rec_.sublemma g'.sublemmas })

  -- The loop over the rows; the number is `numProcessed`.
  unfoldable pub read_rows : List (Row F) → Group F → ℕ → Tx (World D) (Group F × ℕ)
  unfolding read_record
  read_rows [] g n = returns (g, n)
  read_rows (scan_error e ∷ rows) g n = λ w. (w, err e)
  read_rows (scanned r ∷ rows) g n =
      if is_stop_ngram stop_words_regex r.lemma
      then read_rows rows g n
      else (read_record r g n >>= λ g'. read_rows rows g' (suc n))

  -- `procLine` on `last_rec`. Its results are dropped, also the error.
  unfoldable pub flush_last : Group F → Tx (World D) (Unit {0})
  unfolding proc_line
  flush_last g w = dropping w (proc_line exec fl transform upcase (last_rec fl) g w.db)

  -- `run` after the query. The first parameter is `AddProcTimeEntry`.
  unfoldable pub process : (ℕ → D → D) → List (Row F) → Tx (World D) (Unit {0})
  unfolding read_rows flush_last send
  process add_entry rows =
      read_rows rows empty_group 0 >>= λ (g, n). flush_last g >> finish speed add_entry (suc n)
