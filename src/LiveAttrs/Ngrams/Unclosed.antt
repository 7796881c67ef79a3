-- ===== src/LiveAttrs/Ngrams/Unclosed.antt =====
-- The channel of the statuses stays open, so that the job that generates n-grams has no end.
use cnc_masm.Prelude.{
  ℕ, suc, ◌≡◌, refl, ◌∙◌, Bool, true, false, not, Option, none, some, List, [], ◌∷◌, Str, all, ◌⊎◌,
  inl, inr, arith, if◌then◌else◌, ◌==◌, ◌%◌, ltb,
}
use cnc_masm.Jobs.Info.Kinds.Ngram.{GenNgramsStatus, NgramJobInfo}
use cnc_masm.Jobs.Info.General.{Job, job_info, job_finished}
use cnc_masm.Jobs.Dispatch.{TableUpdate, update_job, finish_job, clear_old_jobs}
use cnc_masm.LiveAttrs.Ngrams.{Floats, NgRecord, QsAttributes, is_stop_ngram, starts_with_upcase}
use cnc_masm.LiveAttrs.Ngrams.Tx.{
  DbError, Statement, Outcome, ok, err, nil_deref, Tx, continue_with, returns, Group, empty_group,
  proc_line, create_tables,
}
use cnc_masm.LiveAttrs.Ngrams.Rows.{
  World, Row, scanned, scan_error, Estimate, seconds, not_avail, failed, estimate_proc_time_secs,
  read_record, read_rows, flush_last, process, report, progress, send, put_db, finish, dropping,
  last_rec, use_estimate, report_each_nth_item, new_world, on_db,
}
use cnc_masm.LiveAttrs.Ngrams.Generate.{
  Driver, Parts, generate_sync, run, find_total_num_lines, job_updates, new_job, with_status, lift,
  asked, total_sql, rows_sql, failing, committed, after_run, after_create, after_begin,
}

module _ {D : Type 0} where
  -- The operation leaves the channel as it is.
  abbrev Keeps : {A : Type 0} → Tx (World D) A → Type 0
  Keeps m = (w : World D) → (m w).0.closed ≡ w.closed

  continue-Keeps :
      {A B : Type 0} (r : World D × Outcome A) (f : A → Tx (World D) B)
      → ((a : A) → Keeps (f a))
      → (continue_with r f).0.closed ≡ r.0.closed
  continue-Keeps (w, ok a) f h = h a w
  continue-Keeps (w, err e) f h = refl
  continue-Keeps (w, nil_deref) f h = refl

  put_db-closed : {A : Type 0} (w : World D) (r : D × Outcome A) → (put_db w r).0.closed ≡ w.closed
  put_db-closed w (d, o) = refl

  bind-Keeps :
      {A B : Type 0} (m : Tx (World D) A) (f : A → Tx (World D) B)
      → Keeps m
      → ((a : A) → Keeps (f a))
      → Keeps (λ w. continue_with (m w) f)
  bind-Keeps m f h i w = continue-Keeps (m w) f i ∙ h w

  on_db-Keeps : {A : Type 0} (m : Tx D A) → Keeps (on_db m)
  on_db-Keeps m w = put_db-closed w (m w.db)

  if-Keeps :
      {A : Type 0} (b : Bool) (m k : Tx (World D) A)
      → Keeps m
      → Keeps k
      → Keeps (if b then m else k)
  if-Keeps true m k h i = h
  if-Keeps false m k h i = i

  send-Keeps : (set : GenNgramsStatus → GenNgramsStatus) → Keeps (send set)
  unfolding send
  send-Keeps set w = refl

  dropping-closed :
      {A : Type 0} (w : World D) (r : D × Outcome A) → (dropping w r).0.closed ≡ w.closed
  dropping-closed w (d, ok a) = refl
  dropping-closed w (d, err e) = refl
  dropping-closed w (d, nil_deref) = refl

  report-Keeps : (speed : ℕ → ℕ) (n : ℕ) → Keeps (report speed n)
  report-Keeps speed n =
      if-Keeps (n % report_each_nth_item == 0) (send (progress speed n)) (returns tt)
        (send-Keeps (progress speed n)) (λ w. refl)

  finish-Keeps : (speed : ℕ → ℕ) (add : ℕ → D → D) (n : ℕ) → Keeps (finish speed add n)
  unfolding send
  finish-Keeps speed add n w = refl

  use_estimate-Keeps : (e : Estimate) → Keeps {A = Unit {0}} (use_estimate e)
  unfolding use_estimate
  use_estimate-Keeps (seconds n) w =
      if-Keeps (ltb 0 n) (send (λ s. record s { time_estimation_secs = n })) (returns tt)
        (send-Keeps (λ s. record s { time_estimation_secs = n })) (λ w. refl) w
  use_estimate-Keeps not_avail w = refl
  use_estimate-Keeps (failed e) w = refl

module _ {F D : Type 0} (exec : Statement F → D → D × Option DbError) (fl : Floats F)
    (transform : Str → Str) (upcase : Str → ℕ) (stop : Str → Bool) (speed : ℕ → ℕ) where
  read_record-Keeps :
      (r : NgRecord F) (g : Group F) (n : ℕ)
      → Keeps (read_record exec fl transform upcase stop speed r g n)
  unfolding read_record
  read_record-Keeps r g n =
      bind-Keeps (on_db (proc_line exec fl transform upcase r g)) _
        (on_db-Keeps (proc_line exec fl transform upcase r g))
        (λ g'. bind-Keeps (report speed (suc n)) _ (report-Keeps speed (suc n)) (λ _ w. refl))

  read_rows-Keeps :
      (rows : List (Row F)) (g : Group F) (n : ℕ)
      → Keeps (read_rows exec fl transform upcase stop speed rows g n)
  unfolding read_rows
  read_rows-Keeps [] g n w = refl
  read_rows-Keeps (scan_error e ∷ rows) g n w = refl
  read_rows-Keeps (scanned r ∷ rows) g n w =
      if-Keeps (is_stop_ngram stop r.lemma) (read_rows exec fl transform upcase stop speed rows g n)
        _ (read_rows-Keeps rows g n)
        (bind-Keeps (read_record exec fl transform upcase stop speed r g n)
          (λ g'. read_rows exec fl transform upcase stop speed rows g' (suc n))
          (read_record-Keeps r g n) (λ g'. read_rows-Keeps rows g' (suc n)))
        w

  pub process-Keeps :
      (add : ℕ → D → D) (rows : List (Row F))
      → Keeps (process exec fl transform upcase stop speed add rows)
  unfolding process flush_last
  process-Keeps add rows =
      bind-Keeps (read_rows exec fl transform upcase stop speed rows empty_group 0) _
        (read_rows-Keeps rows empty_group 0)
        (λ (g, n).
          bind-Keeps (flush_last exec fl transform upcase stop speed g)
            (λ _. finish speed add (suc n))
            (λ w. dropping-closed w (proc_line exec fl transform upcase (last_rec fl) g w.db))
            (λ _. finish-Keeps speed add (suc n)))

module _ {F D T : Type 0} (v : Driver F D T) (p : Parts F T) (qsa : QsAttributes)
    (grouped : Str) where
  lift-Keeps : {A : Type 0} (r : DbError ⊎ A) → Keeps (lift v p qsa grouped r)
  lift-Keeps (inl e) w = refl
  lift-Keeps (inr a) w = refl

  asked-Keeps :
      {A : Type 0} (ask : Str → D → DbError ⊎ A) (o : Option Str)
      → Keeps (asked v p qsa grouped ask o)
  asked-Keeps ask none w = refl
  asked-Keeps ask (some text) w = lift-Keeps (ask text w.db) w

  run-Keeps : Keeps (run v p qsa grouped)
  unfolding run find_total_num_lines
  run-Keeps =
      bind-Keeps (asked v p qsa grouped v.count_lines (total_sql qsa grouped)) _
        (asked-Keeps v.count_lines (total_sql qsa grouped))
        (λ total.
          bind-Keeps
            (λ w.
              continue_with
                (use_estimate (estimate_proc_time_secs p.quotient (v.time_sums total w.db)) w)
                (λ _. asked v p qsa grouped v.query (rows_sql qsa grouped)))
            _
            (bind-Keeps
              (λ w. use_estimate (estimate_proc_time_secs p.quotient (v.time_sums total w.db)) w)
              (λ _. asked v p qsa grouped v.query (rows_sql qsa grouped))
              (λ w.
                use_estimate-Keeps (estimate_proc_time_secs p.quotient (v.time_sums total w.db)) w)
              (λ _. asked-Keeps v.query (rows_sql qsa grouped)))
            (λ rows.
              process-Keeps v.exec p.floats p.transform (starts_with_upcase p.upcase_regex)
                p.stop_words_regex p.speed (v.add_proc_time_entry total) rows))

  failing-closed : (w : World D) (e : DbError) → (failing v p qsa grouped w e).0.closed ≡ w.closed
  failing-closed w e = refl

  committed-closed :
      (w : World D) (r : D × Option DbError) → (committed v p qsa grouped w r).0.closed ≡ w.closed
  committed-closed w (d, none) = refl
  committed-closed w (d, some e) = refl

  after_run-closed :
      (r : World D × Outcome (Unit {0})) → (after_run v p qsa grouped r).0.closed ≡ r.0.closed
  after_run-closed (w, ok a) = committed-closed w (v.commit w.db)
  after_run-closed (w, err e) = refl
  after_run-closed (w, nil_deref) = refl

  after_create-closed :
      (r : World D × Outcome (Unit {0})) → (after_create v p qsa grouped r).0.closed ≡ r.0.closed
  after_create-closed (w, ok a) = after_run-closed (run v p qsa grouped _) ∙ run-Keeps _
  after_create-closed (w, err e) = refl
  after_create-closed (w, nil_deref) = refl

  after_begin-closed : (r : D × Option DbError) → (after_begin v p qsa grouped r).0.closed ≡ false
  after_begin-closed (d, none) =
      after_create-closed (on_db (create_tables v.exec) (new_world d))
      ∙ on_db-Keeps (create_tables v.exec) (new_world d)
  after_begin-closed (d, some e) = refl

  pub generate_sync-closed : (d : D) → (generate_sync v p qsa grouped d).0.closed ≡ false
  unfolding generate_sync
  generate_sync-closed d = after_begin-closed (v.begin_ d)

-- An update that says nothing of an end.
abbrev pub unfinished : {V : Type 0} → TableUpdate (Job V) → Bool
unfinished (update_job id j) = not (job_finished j)
unfinished (finish_job id o) = false
unfinished clear_old_jobs = true

job_updates-unfinished :
    (V : Type 0) (stamp : ℕ → ℕ) (i : ℕ) (j : NgramJobInfo) (upds : List GenNgramsStatus)
    → j.finished ≡ false
    → all unfinished (job_updates {V = V} stamp false i j upds) ≡ true
unfolding job_updates
job_updates-unfinished V stamp i j [] h = refl
job_updates-unfinished V stamp i j (upd ∷ rest) h =
    ground (arith, h, job_updates-unfinished V stamp (suc i) (with_status (stamp i) upd j) rest h)

-- Whatever the database answers, none of the updates that the job sends says that it is finished,
-- and the end of the job is not sent.
pub generate-unfinished :
    (V : Type 0) {F D T : Type 0} (v : Driver F D T) (p : Parts F T) (qsa : QsAttributes)
    (grouped : Str) (stamp : ℕ → ℕ) (now : ℕ) (id corpus : Str) (d : D)
    → let w = (generate_sync v p qsa grouped d).0 in
      all unfinished (job_updates {V = V} stamp w.closed 0 (new_job now id corpus) w.sent) ≡ true
unfolding new_job
generate-unfinished V v p qsa grouped stamp now id corpus d =
    let w = (generate_sync v p qsa grouped d).0 in
    rw (generate_sync-closed v p qsa grouped d)
      (job_updates-unfinished V stamp 0 (new_job now id corpus) w.sent refl)
