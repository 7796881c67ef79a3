-- ===== src/LiveAttrs/Ngrams/Totals.antt =====
-- The counts in the table of lemmas after all the rows.
use cnc_masm.Prelude.{
  ℕ, suc, ◌+◌, ◌≡◌, ◌≢◌, inl, inr, refl, ap, ◌∙◌, Bool, true, false, Option, none, some, List, [],
  ◌∷◌, Str, str_eq_iff, arith, if◌then◌else◌, map, Bool-cases, or_else, keep, not, ◌==◌, ◌%◌,
}
use cnc_masm.Jobs.Info.Kinds.Ngram.{GenNgramsStatus}
use cnc_masm.LiveAttrs.Ngrams.{Floats, NgRecord, is_stop_ngram}
use cnc_masm.LiveAttrs.Ngrams.Tx.{
  DbError, Statement, Outcome, ok, err, nil_deref, Tx, continue_with, returns, Group, empty_group,
  bump, proc_line, of_lemma,
}
use cnc_masm.LiveAttrs.Ngrams.Works.{Works, continue-ok}
use cnc_masm.LiveAttrs.Ngrams.Conserve.{LemmaTable, count}
use cnc_masm.LiveAttrs.Ngrams.Lemmas.{weight, IsGroup, Matches, proc_line-Grows, proc_line-other}
use cnc_masm.LiveAttrs.Ngrams.Rows.{
  World, finish, scanned, last_rec, dropping, read_record, read_rows, flush_last, process, report,
  progress, send, put_db, report_each_nth_item,
}

-- A record with an empty lemma is passed over.
stop-empty : (stop : Str → Bool) → is_stop_ngram stop [] ≡ true
unfolding is_stop_ngram
stop-empty stop = refl

not-stop : (stop : Str → Bool) (s : Str) → is_stop_ngram stop s ≡ false → s ≢ []
not-stop stop s h e = ground (arith, ap (is_stop_ngram stop) e, stop-empty stop)

module _ {D : Type 0} where
  send-keeps :
      (b : Bool) (set : GenNgramsStatus → GenNgramsStatus) (w : World D)
      → let r = (if b then send set else returns tt) w in (r.1 ≡ ok tt) × (r.0.db ≡ w.db)
  unfolding send
  send-keeps true set w = (refl, refl)
  send-keeps false set w = (refl, refl)

  report-keeps :
      (speed : ℕ → ℕ) (n : ℕ) (w : World D)
      → ((report speed n w).1 ≡ ok tt) × ((report speed n w).0.db ≡ w.db)
  report-keeps speed n w = send-keeps (n % report_each_nth_item == 0) (progress speed n) w

  put_db-parts :
      {A : Type 0} (w : World D) (r : D × Outcome A)
      → ((put_db w r).1 ≡ r.1) × ((put_db w r).0.db ≡ r.0)
  put_db-parts w (d, o) = (refl, refl)

module _ {F D : Type 0} (exec : Statement F → D → D × Option DbError) (table : LemmaTable exec)
    (works : Works exec) (fl : Floats F) (transform : Str → Str) (upcase : Str → ℕ)
    (stop : Str → Bool) (speed : ℕ → ℕ) (x y : Str) where
  abbrev now : World D → ℕ
  now w = count exec table w.db x y

  abbrev Read : World D × Outcome (Group F) → ℕ → Type 0
  Read r n = (g : Group F) × (r.1 ≡ ok g) × IsGroup g × (now r.0 + weight transform x y g.words ≡ n)

  -- One round, in terms of what `procLine` and the report do.
  read_record-steps :
      (item : NgRecord F) (g g' : Group F) (n : ℕ) (w : World D)
      → let pl = proc_line exec fl transform upcase item g w.db in
        (pl.1 ≡ ok g')
        → let r = read_record exec fl transform upcase stop speed item g n w in
          (r.1 ≡ ok (record g' { sublemmas = bump item.sublemma g'.sublemmas })) × (r.0.db ≡ pl.0)
  unfolding read_record
  read_record-steps item g g' n w e =
      let pl = proc_line exec fl transform upcase item g w.db in
      let put = put_db w pl in
      let next : Group F → Group F = λ h. record h { sublemmas = bump item.sublemma h.sublemmas } in
      let rest : Group F → Unit {0} → Tx (World D) (Group F) = λ h _. returns (next h) in
      let f : Group F → Tx (World D) (Group F) =
        λ h w'. continue_with (report speed (suc n) w') (rest h) in
      let (sent, kept) = report-keeps speed (suc n) put.0 in
      rw
        (
          continue-ok put g' f ((put_db-parts w pl).0 ∙ e),
          continue-ok (report speed (suc n) put.0) tt (rest g') sent,
        )
        (refl, kept ∙ (put_db-parts w pl).1)

  read_record-Read :
      (item : NgRecord F) (g : Group F) (n : ℕ) (w : World D)
      → IsGroup g
      → is_stop_ngram stop item.lemma ≡ false
      → Read
          (read_record exec fl transform upcase stop speed item g n w)
          (now w + weight transform x y g.words + weight transform x y (item ∷ []))
  read_record-Read item g n w h ne =
      let (g', done, ok_group, sum) =
        proc_line-Grows exec table works fl transform upcase x y item g w.db h
          (not-stop stop item.lemma ne) in
      let (result, db) = read_record-steps item g g' n w done in
      (
        record g' { sublemmas = bump item.sublemma g'.sublemmas },
        result,
        ok_group,
        ap (λ d. count exec table d x y + weight transform x y g'.words) db ∙ sum,
      )

  -- The records that are not passed over.
  abbrev pub counted : List (NgRecord F) → List (NgRecord F)
  counted = keep (λ r. not (is_stop_ngram stop r.lemma))

  read_rows-Read :
      (rows : List (NgRecord F)) (g : Group F) (n : ℕ) (w : World D)
      → IsGroup g
      → let r = read_rows exec fl transform upcase stop speed (map scanned rows) g n w in
        (g' : Group F) × (k : ℕ) × (r.1 ≡ ok (g', k))
        × IsGroup g'
        × (now r.0 + weight transform x y g'.words
            ≡ now w + weight transform x y g.words + weight transform x y (counted rows))
  unfolding read_rows
  read_rows-Read [] g n w h = (g, n, refl, h, omega arith)
  read_rows-Read (r ∷ rows) g n w h = elim (Bool-cases (is_stop_ngram stop r.lemma)) [
    | inl stops ↦ rw stops (read_rows-Read rows g n w h)
    | inr goes ↦
        let (g', done, ok_group, sum) = read_record-Read r g n w h goes in
        let step = read_record exec fl transform upcase stop speed r g n w in
        let rest : Group F → Tx (World D) (Group F × ℕ) =
          λ k. read_rows exec fl transform upcase stop speed (map scanned rows) k (suc n) in
        let (last, k, end, ok_last, total) = read_rows-Read rows g' (suc n) step.0 ok_group in
        rw (goes, continue-ok step g' rest done) (last, k, end, ok_last, ground (arith, total, sum))
  ]

  last-differs :
      (ws : List (NgRecord F)) (o : Option (NgRecord F))
      → Matches ws o
      → of_lemma (last_rec fl) o ≡ false
  last-differs ws none h = refl
  last-differs ws (some c) h = ground (arith, str_eq_iff [] c.lemma, h.0)

  dropping-ok :
      {A : Type 0} (w : World D) (r : D × Outcome A) (a : A)
      → r.1 ≡ ok a
      → ((dropping w r).1 ≡ ok tt) × ((dropping w r).0.db ≡ r.0)
  dropping-ok w (d, ok b) a h = (refl, refl)
  dropping-ok w (d, err e) a h = ground (arith, h)
  dropping-ok w (d, nil_deref) a h = ground (arith, h)

  flush_last-total :
      (g : Group F) (w : World D)
      → IsGroup g
      → let r = flush_last exec fl transform upcase stop speed g w in
        (r.1 ≡ ok tt) × (now r.0 ≡ now w + weight transform x y g.words)
  unfolding flush_last
  flush_last-total g w h =
      let item = last_rec fl in
      let pl = proc_line exec fl transform upcase item g w.db in
      let (done, total) =
        proc_line-other exec table works fl transform upcase x y item g w.db h
          (last-differs g.words g.curr_lemma h) in
      let (result, db) = dropping-ok w pl _ done in
      (result, ap (λ d. count exec table d x y) db ∙ total)

  -- In a database that works the rows are processed without an error, and afterwards the count of
  -- each lemma with each position has grown by the occurrences that the rows give it, those of
  -- rows with a stop word aside; in whatever order the rows are.
  pub process-counts :
      (add_entry : ℕ → D → D) (rows : List (NgRecord F)) (w : World D)
      → ((n : ℕ) (d : D) → table.row (add_entry n d) x y ≡ table.row d x y)
      → let r = process exec fl transform upcase stop speed add_entry (map scanned rows) w in
        (r.1 ≡ ok tt) × (now r.0 ≡ now w + weight transform x y (counted rows))
  unfolding process send
  process-counts add_entry rows w keeps =
      let rr = read_rows exec fl transform upcase stop speed (map scanned rows) empty_group 0 w in
      let fin : ℕ → Unit {0} → Tx (World D) (Unit {0}) = λ n _. finish speed add_entry n in
      let next : Group F × ℕ → Tx (World D) (Unit {0}) = λ (g, n) w'.
        continue_with (flush_last exec fl transform upcase stop speed g w') (fin (suc n)) in
      let (g, k, done, ok_group, total) = read_rows-Read rows empty_group 0 w refl in
      let (flushed, last) = flush_last-total g rr.0 ok_group in
      let fl_ = flush_last exec fl transform upcase stop speed g rr.0 in
      rw (continue-ok rr (g, k) next done, continue-ok fl_ tt (fin (suc k)) flushed)
        (refl, ap (λ o. or_else o 0) (keeps (suc k) fl_.0.db) ∙ omega (arith, last, total))
