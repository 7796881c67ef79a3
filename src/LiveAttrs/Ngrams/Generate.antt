-- ===== src/LiveAttrs/Ngrams/Generate.antt =====
-- liveattrs/db/freqdb/mkfreqdb.go: `run` reads the rows, `generateSync` is the transaction around
-- it, and `GenerateAfter` the job that reports what it sends. The answers of the database to the
-- queries, and the speeds that the clock gives, are parameters.
use cnc_masm.Prelude.{
  suc, ℕ, Bool, true, false, Option, none, some, List, [], ◌∷◌, ◌++◌, Str, str, join_by, ◌⊎◌, inl,
  inr,
}
use cnc_masm.Jobs.Queue.{Run}
use cnc_masm.Jobs.Info.{GeneralJobInfo}
use cnc_masm.Jobs.Info.General.{Job, ngram}
use cnc_masm.Jobs.Info.Kinds.Ngram.{GenNgramsStatus, NgramJobInfo}
use cnc_masm.Jobs.Dispatch.{Actions, TableUpdate, update_job, finish_job}
use cnc_masm.Jobs.Dispatch
use cnc_masm.LiveAttrs.Ngrams.{Floats, QsAttributes, export_cols, export_col, starts_with_upcase}
use cnc_masm.LiveAttrs.Ngrams.Tx.{
  DbError, Statement, Outcome, ok, err, nil_deref, Tx, ◌>>=◌, ◌>>◌, create_tables,
}
use cnc_masm.LiveAttrs.Ngrams.Rows.{
  no_status, World, Row, estimate_proc_time_secs, use_estimate, process, new_world, on_db,
  error_text,
}

-- What else the generator asks of the database. The transaction sees the state of the connection.
pub record Driver (F D T : Type 0) : Type 0 where
  pub exec : Statement F → D → D × Option DbError
  pub count_lines : Str → D → DbError ⊎ ℕ
  pub time_sums : ℕ → D → DbError ⊎ (Option ℕ × Option T)
  pub query : Str → D → DbError ⊎ List (Row F)
  pub add_proc_time_entry : ℕ → ℕ → D → D
  pub begin_ : D → D × Option DbError
  pub commit : D → D × Option DbError
  pub rollback : D → D

-- The other parameters: floats, `posFn.Transform`, the two regular expressions, the speed at the
-- time of a report and the quotient of an estimate.
pub record Parts (F T : Type 0) : Type 0 where
  pub floats : Floats F
  pub transform : Str → Str
  pub upcase_regex : Str → Bool
  pub stop_words_regex : Str → Bool
  pub speed : ℕ → ℕ
  pub quotient : ℕ → T → ℕ

abbrev pub rows_text : Str → Option (List Str) → Option (List Str) → Option Str
rows_text grouped (some cols) (some order) = some (
    str "SELECT "
    ++ (join_by (str ", ") cols
        ++ (str ", `count` AS abs, arf FROM "
            ++ (grouped
                ++ (str "_colcounts WHERE col4 <> ? ORDER BY "
                    ++ (join_by (str ", ") order ++ str " "))))))
rows_text grouped _ _ = none

-- The query for the rows. `none` is a panic.
unfoldable pub rows_sql : QsAttributes → Str → Option Str
unfolding export_cols
rows_sql qsa grouped =
    rows_text grouped (export_cols qsa (str "word" ∷ str "sublemma" ∷ str "lemma" ∷ str "tag" ∷ []))
      (export_cols qsa (str "lemma" ∷ str "sublemma" ∷ str "word" ∷ str "tag" ∷ []))

abbrev pub total_text : Str → Option Str → Option Str
total_text grouped (some col) =
    some (
      str "SELECT COUNT(*) FROM "
      ++ (grouped ++ (str "_colcounts WHERE " ++ (col ++ str " <> ? "))))
total_text grouped none = none

unfoldable pub total_sql : QsAttributes → Str → Option Str
unfolding export_col
total_sql qsa grouped = total_text grouped (export_col qsa (str "tag"))

module _ {F D T : Type 0} (v : Driver F D T) (p : Parts F T) (qsa : QsAttributes)
    (grouped : Str) where
  abbrev pub lift : {A : Type 0} → DbError ⊎ A → Tx (World D) A
  lift (inl e) w = (w, err e)
  lift (inr a) w = (w, ok a)

  abbrev pub asked : {A : Type 0} → (Str → D → DbError ⊎ A) → Option Str → Tx (World D) A
  asked ask none w = (w, nil_deref)
  asked ask (some text) w = lift (ask text w.db) w

  unfoldable pub find_total_num_lines : Tx (World D) ℕ
  unfolding total_sql
  find_total_num_lines = asked v.count_lines (total_sql qsa grouped)

  unfoldable pub run : Tx (World D) (Unit {0})
  unfolding find_total_num_lines use_estimate estimate_proc_time_secs rows_sql process
  run = find_total_num_lines >>= λ total.
      (λ w. use_estimate (estimate_proc_time_secs p.quotient (v.time_sums total w.db)) w)
      >> asked v.query (rows_sql qsa grouped)
      >>= λ rows.
          process v.exec p.floats p.transform (starts_with_upcase p.upcase_regex) p.stop_words_regex
            p.speed (v.add_proc_time_entry total) rows

  -- The end of `generateSync`: whether the goroutine survives it.
  abbrev pub failing : World D → DbError → World D × Bool
  failing w e =
      let status = record w.status { error = some (error_text e) } in
      (record w { db = v.rollback w.db; status = status; sent = w.sent ++ status ∷ [] }, true)

  abbrev pub committed : World D → D × Option DbError → World D × Bool
  committed w (d, none) = (record w { db = d }, true)
  committed w (d, some e) = failing (record w { db = d }) e

  abbrev pub after_run : World D × Outcome (Unit {0}) → World D × Bool
  after_run (w, ok _) = committed w (v.commit w.db)
  after_run (w, err e) = failing w e
  after_run (w, nil_deref) = (w, false)

  -- The status is sent before the error of `createTables` is looked at.
  abbrev pub after_create : World D × Outcome (Unit {0}) → World D × Bool
  after_create (w, nil_deref) = (w, false)
  after_create (w, err e) =
      let status = record w.status { tables_ready = true } in
      failing (record w { status = status; sent = w.sent ++ status ∷ [] }) e
  after_create (w, ok _) =
      let status = record w.status { tables_ready = true } in
      after_run (run (record w { status = status; sent = w.sent ++ status ∷ [] }))

  -- When `Begin` fails there is no transaction for `Rollback`.
  abbrev pub after_begin : D × Option DbError → World D × Bool
  after_begin (d, some e) = (new_world d, false)
  after_begin (d, none) = after_create (on_db (create_tables v.exec) (new_world d))

  unfoldable pub generate_sync : D → World D × Bool
  unfolding run create_tables
  generate_sync d = after_begin (v.begin_ d)

-- `GenerateAfter`: the record of the job; the identifier and the time are given.
unfoldable pub new_job : ℕ → Str → Str → NgramJobInfo
new_job now id corpus = record {
  id = id;
  type = str "ngram-generating";
  corpus_id = corpus;
  start = now;
  update = now;
  finished = false;
  error = none;
  num_restarts = 0;
  result = no_status;
}

-- Without a parent the job is enqueued, with one after it. An error of either is not looked at.
unfoldable pub generate_after :
    {Fn J : Type 0}
    → GeneralJobInfo J
    → ℕ
    → Fn
    → J
    → Str
    → Actions Fn J
    → Run (Option (Actions Fn J))
generate_after g now fn status [] a = Dispatch.enqueue_job g fn status a
generate_after g now fn status (b ∷ parent) a =
    Dispatch.equeue_job_after g now fn status (b ∷ parent) a

abbrev pub with_status : ℕ → GenNgramsStatus → NgramJobInfo → NgramJobInfo
with_status time upd j = record j { result = upd; error = upd.error; update = time }

-- What the job sends to the table: an update for each status, at the times given, and the end of
-- the job when the channel of the statuses is closed.
module _ {V : Type 0} (stamp : ℕ → ℕ) where
  abbrev pub last_updates : Bool → ℕ → NgramJobInfo → List (TableUpdate (Job V))
  last_updates false i j = []
  last_updates true i j =
      let end = ngram true (record j { update = stamp i; finished = true }) in
      update_job j.id end ∷ finish_job j.id (some end) ∷ []

  unfoldable pub job_updates :
      Bool → ℕ → NgramJobInfo → List GenNgramsStatus → List (TableUpdate (Job V))
  job_updates closed i j [] = last_updates closed i j
  job_updates closed i j (upd ∷ rest) =
      let now = with_status (stamp i) upd j in
      update_job j.id (ngram true now) ∷ job_updates closed (suc i) now rest
