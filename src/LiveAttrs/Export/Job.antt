-- ===== src/LiveAttrs/Export/Job.antt =====
-- liveattrs/qs/qs.go: exportValuesToCouchDBSync and the job of EnqueueExportJob. MySQL and CouchDB
-- are parameters.
use cnc_masm.Prelude.{
  ℕ, suc, ◌≡◌, refl, ap, Bool, true, false, Option, none, some, List, [], ◌∷◌, ◌++◌, Str, str,
}
use cnc_masm.Jobs.Info.{GeneralJobInfo}
use cnc_masm.Jobs.Info.Kinds.Export.{ExporterStatus, ExportJobInfo}
use cnc_masm.Jobs.Info.General.{Job, export}
use cnc_masm.Jobs.Queue.{Run}
use cnc_masm.Jobs.Dispatch
use cnc_masm.Jobs.Dispatch.{TableUpdate, update_job, finish_job, Actions}
use cnc_masm.LiveAttrs.Export.{Lemma, Scanned, Exporting, goes_on, stops, panics, process_rows_sync}
use cnc_masm.LiveAttrs.Export as Exporter

unfoldable pub export_sql : Str → Str
export_sql g =
    str
      "SELECT w.value, w.lemma, s.value AS sublemma, s.count AS sublemma_count, w.pos, w.count, w.arf, w.pos as lemma_pos, m.count as lemma_count, m.arf as lemma_arf, m.is_pname as lemma_is_pname FROM "
    ++ (g
        ++ (str "_word AS w JOIN "
            ++ (g
                ++ (str
                      "_sublemma AS s ON s.value = w.sublemma AND s.lemma = w.lemma AND s.pos = w.pos JOIN "
                    ++ (g
                        ++ str
                            "_lemma AS m ON m.value = s.lemma AND m.pos = s.pos WHERE m.pos != 'X' ORDER BY w.lemma, w.pos, w.value")))))

pub data Queried (F : Type 0) : Type 0 where
  rows : List (Scanned F) → Queried F
  query_failed : Str → Queried F

-- `couchdb.Schema`, `DocHandler` and the query; `D` is the document database.
pub record Driver (F D : Type 0) : Type 0 where
  pub create_database : List Str → D → D × Option Str
  pub create_views : D → D × Option Str
  pub bulk_insert : List (Lemma F) → D → D × Option Str
  pub query : Str → Queried F

abbrev pub zero_status : ExporterStatus
zero_status = record { tables_ready = false; num_proc_lines = 0; error = none }

abbrev pub failed_with : Str → ExporterStatus → ExporterStatus
failed_with e status = record status { error = some e }

module _ {F D : Type 0} where
  -- The statuses that were sent when the channel is closed, and the documents; `none` is a panic.
  abbrev pub after_rows :
      List ExporterStatus → Exporter.Run (Exporting F D) → Option (D × List ExporterStatus)
  after_rows sent (goes_on s) = some (s.store, sent ++ s.sent)
  after_rows sent (stops s) = some (s.store, sent ++ s.sent)
  after_rows sent panics = none

module _ {F D : Type 0} (is_valid_word : Str → Bool) (v : Driver F D) where
  abbrev pub export_rows : ExporterStatus → D → Queried F → Option (D × List ExporterStatus)
  export_rows status d (query_failed e) = some (d, status ∷ failed_with e status ∷ [])
  export_rows status d (rows rs) =
      after_rows (status ∷ []) (process_rows_sync is_valid_word v.bulk_insert rs status d)

  abbrev pub with_views : Str → D × Option Str → Option (D × List ExporterStatus)
  with_views g (d, some e) = some (d, failed_with e zero_status ∷ [])
  with_views g (d, none) =
      export_rows (record zero_status { tables_ready = true }) d (v.query (export_sql g))

  abbrev pub with_database : Str → D × Option Str → Option (D × List ExporterStatus)
  with_database g (d, some e) = some (d, failed_with e zero_status ∷ [])
  with_database g (d, none) = with_views g (v.create_views d)

  unfoldable pub export_values_to_couch_db_sync :
      Str → List Str → D → Option (D × List ExporterStatus)
  unfolding process_rows_sync export_sql
  export_values_to_couch_db_sync g users d = with_database g (v.create_database users d)

-- The record of a new job.
unfoldable pub new_job : ℕ → Str → Str → Bool → ExportJobInfo
new_job now id group multi_values = record {
  id = id;
  type = str "qs-exporting";
  corpus_id = group;
  start = now;
  update = now;
  finished = false;
  error = none;
  num_restarts = 0;
  args = multi_values;
  result = zero_status;
}

-- Without a parent the job is enqueued, with one after it. An error of either is not looked at.
unfoldable pub enqueue_export_job :
    {Fn J : Type 0}
    → GeneralJobInfo J
    → ℕ
    → Fn
    → J
    → Str
    → Actions Fn J
    → Run (Option (Actions Fn J))
enqueue_export_job g now fn status [] a = Dispatch.enqueue_job g fn status a
enqueue_export_job g now fn status (b ∷ parent) a =
    Dispatch.equeue_job_after g now fn status (b ∷ parent) a

abbrev pub with_status : ℕ → ExporterStatus → ExportJobInfo → ExportJobInfo
with_status time upd j = record j { result = upd; error = upd.error; update = time }

-- What the job sends to the table, at the times given. The records are sent as values.
module _ {V : Type 0} (stamp : ℕ → ℕ) where
  unfoldable pub job_updates : ℕ → ExportJobInfo → List ExporterStatus → List (TableUpdate (Job V))
  job_updates i j [] =
      let end = export false (record j { update = stamp i; finished = true }) in
      update_job j.id end ∷ finish_job j.id (some end) ∷ []
  job_updates i j (upd ∷ rest) =
      let now = with_status (stamp i) upd j in
      update_job j.id (export false now) ∷ job_updates (suc i) now rest

-- The error of the last status.
unfoldable pub last_error : Option Str → List ExporterStatus → Option Str
last_error e [] = e
last_error e (upd ∷ rest) = last_error upd.error rest

-- Once the channel of the statuses is closed, the last message of the export job ends it with a
-- record that is finished and has the error of the last status.
pub job_updates-end :
    {V : Type 0} (stamp : ℕ → ℕ) (i : ℕ) (j : ExportJobInfo) (sent : List ExporterStatus)
    → (before : List (TableUpdate (Job V))) × (e : ExportJobInfo) × (job_updates stamp i j sent
        ≡ before ++ finish_job j.id (some (export false e)) ∷ [])
      × (e.finished ≡ true)
      × (e.error ≡ last_error j.error sent)
unfolding job_updates last_error
job_updates-end stamp i j [] =
    let end = record j { update = stamp i; finished = true } in
    (update_job j.id (export false end) ∷ [], end, refl, refl, refl)
job_updates-end stamp i j (upd ∷ rest) =
    let now = with_status (stamp i) upd j in
    let (before, e, eq, fin, err) = job_updates-end stamp (suc i) now rest in
    (
      update_job j.id (export false now) ∷ before,
      e,
      ap (λ us. update_job j.id (export false now) ∷ us) eq,
      fin,
      err,
    )
