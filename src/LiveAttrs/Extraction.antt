-- ===== src/LiveAttrs/Extraction.antt =====
-- liveattrs/actions/main.go: the job of createDataFromJobStatus, with SetLiveAttrs of
-- cncdb/cncdb.go. vert-tagextract, the CNC database and KonText are parameters.
pub mod Crash
use cnc_masm.Prelude.{
  ℕ, Bool, true, false, ◌&&◌, ◌||◌, not, Option, none, some, List, [], ◌∷◌, ◌++◌, Str, str, str_eq,
  length, if◌then◌else◌, ◌==◌,
}
use cnc_masm.Jobs.Info.Kinds.LiveAttrs.{JobInfoArgs, LiveAttrsJobInfo, as_finished, with_error}
use cnc_masm.LiveAttrs.Cache.{EmptyQueryCache, del}
use cnc_masm.LiveAttrs.Laconf.{VteConf, is_mysql}

-- `upd.Error`: nil, `ErrorTooManyParsingErrors`, or another
pub data UpdError : Type 0 where
  no_error : UpdError
  too_many_parsing_errors : UpdError
  other_error : Str → UpdError

pub record Upd : Type 0 where
  pub processed_atoms : ℕ
  pub processed_lines : ℕ
  pub error : UpdError

-- What `ExtractData` gives: an error, or what goes through its channel.
pub data Extracted : Type 0 where
  not_started : Str → Extracted
  updates : List Upd → Extracted

-- The goroutine of the job returns, panics, or waits for ever. After `not_started` the channel of
-- updates is closed once already.
pub data End : Type 0 where
  returned : End
  panicked : End
  waiting : End

-- The messages of the job, the cache of answers, the databases, and how the goroutine ends.
pub record Outcome (D A : Type 0) : Type 0 where
  pub sent : List (LiveAttrsJobInfo VteConf)
  pub cache : EmptyQueryCache A
  pub db : D
  pub end : End

-- The calls with their errors. `rollback` is one whose error nobody looks at.
pub record Driver (D : Type 0) : Type 0 where
  pub start_tx : D → D × Option Str
  pub exec : Str → List Str → D → D × Option Str
  pub rollback : D → D
  pub commit : D → D × Option Str
  pub send_soft_reset : D → D × Option Str

-- `strings.SplitN(s, sep, 2)`, if there are two elements
unfoldable pub split_first : ℕ → Str → Option (Str × Str)
split_first sep [] = none
split_first sep (a ∷ s) =
    let rest = split_first sep s in
    if a == sep then some ([], s) else elim rest [ none ↦ none | some (x, y) ↦ some (a ∷ x, y) ]

-- `bibIDStruct` and `bibIDAttr`; `none` is an index out of range.
unfoldable pub bib_id : Str → Option (Str × Str)
unfolding split_first
bib_id [] = some ([], [])
bib_id (a ∷ s) = split_first 95 (a ∷ s)

abbrev pub is_empty : Str → Bool
is_empty [] = true
is_empty (a ∷ s) = false

module _ {D : Type 0} (v : Driver D) where
  -- `SetLiveAttrs`
  unfoldable pub set_live_attrs : Str → Str → Str × Str → D → D × Option Str
  set_live_attrs table corpus (stru, attr) d =
      if (not (is_empty attr) && is_empty stru) || (is_empty attr && not (is_empty stru))
      then (
        d,
        some (str "SetLiveAttrs requires either both bibIDStruct, bibIDAttr empty or defined"),
      )
      else if is_empty attr
      then v.exec
          (str "UPDATE "
            ++ (table
                ++ str
                    " SET text_types_db = 'enabled', bib_id_struct = NULL, bib_id_attr = NULL WHERE name = ?"))
          (corpus ∷ []) d
      else v.exec
          (str "UPDATE "
            ++ (table
                ++ str
                    " SET text_types_db = 'enabled', bib_id_struct = ?, bib_id_attr = ? WHERE name = ?"))
          (stru ∷ attr ∷ corpus ∷ []) d

abbrev pub Job : Type 0
Job = LiveAttrsJobInfo VteConf

abbrev pub is_too_many : UpdError → Bool
is_too_many no_error = false
is_too_many too_many_parsing_errors = true
is_too_many (other_error e) = false

-- The status in the goroutine.
unfoldable pub job_status : ℕ → Job → Job
job_status now j = record {
  id = j.id;
  type = str "liveattrs";
  corpus_id = j.corpus_id;
  start = j.start;
  update = now;
  finished = false;
  error = none;
  processed_atoms = 0;
  processed_lines = 0;
  num_restarts = j.num_restarts;
  args = j.args;
}

-- `too_many` is the text of `ErrorTooManyParsingErrors`.
unfoldable pub with_upd : Str → Upd → Job → Job
with_upd too_many u j = record j {
  error = if is_too_many u.error then some too_many else j.error;
  processed_atoms = u.processed_atoms;
  processed_lines = u.processed_lines;
}

-- The loop over the updates: the messages, the status, and whether the goroutine goes on.
unfoldable pub follow : Str → Job → List Upd → List Job → List Job × Job × Bool
unfolding with_upd
follow too_many j [] sent = (sent, j, true)
follow too_many j (u ∷ us) sent =
    let now = with_upd too_many u j in
    let rest = follow too_many now us (sent ++ now ∷ []) in
    if is_too_many u.error then (sent ++ now ∷ [], now, false) else rest

-- An error is sent, with the status as it is; `time` gives the time by the number of messages
-- before.
abbrev pub note : (ℕ → ℕ) → Job → Option Str → List Job → List Job
note time j none sent = sent
note time j (some e) sent = sent ++ with_error (time (length sent)) (some e) j ∷ []

module _ {D A : Type 0} where
  abbrev pub ends : End → List Job → EmptyQueryCache A → D → Outcome D A
  ends how sent qc d = record { sent = sent; cache = qc; db = d; end = how }

  abbrev pub finish : (ℕ → ℕ) → Job → List Job → EmptyQueryCache A → D → Outcome D A
  finish time j sent qc d = ends returned (sent ++ as_finished (time (length sent)) j ∷ []) qc d

module _ {D A : Type 0} (v : Driver D) (time : ℕ → ℕ) (table : Str) where
  abbrev pub after_commit : Job → List Job → EmptyQueryCache A → D × Option Str → Outcome D A
  after_commit j sent qc (d, e) = finish time j (note time j e sent) qc d

  abbrev pub after_reset : Job → List Job → EmptyQueryCache A → D × Option Str → Outcome D A
  after_reset j sent qc (d, e) = after_commit j (note time j e sent) qc (v.commit d)

  -- After an error the transaction is rolled back, and committed all the same.
  abbrev pub after_set : Job → List Job → EmptyQueryCache A → D × Option Str → Outcome D A
  after_set j sent qc (d, none) = after_reset j sent qc (v.send_soft_reset d)
  after_set j sent qc (d, some e) =
      after_reset j (note time j (some e) sent) qc (v.send_soft_reset (v.rollback d))

  abbrev pub set_attrs : Job → List Job → EmptyQueryCache A → D → Option (Str × Str) → Outcome D A
  set_attrs j sent qc d none = ends panicked sent qc d
  set_attrs j sent qc d (some ids) = after_set j sent qc (set_live_attrs v table j.corpus_id ids d)

  abbrev pub after_start : Job → List Job → EmptyQueryCache A → D × Option Str → Outcome D A
  after_start j sent qc (d, some e) = ends returned (note time j (some e) sent) qc d
  after_start j sent qc (d, none) = set_attrs j sent qc d (bib_id j.args.vte_conf.bib_view.id_attr)

  abbrev pub after_sqlite_reset :
      Job → Job → List Job → EmptyQueryCache A → D × Option Str → Outcome D A
  after_sqlite_reset initial j sent qc (d, e) = finish time j (note time initial e sent) qc d

  -- The switch on the type of the database, for MySQL or not, with `NoCorpusUpdate`.
  abbrev pub update_with : Job → Job → List Job → EmptyQueryCache A → D → Bool → Bool → Outcome D A
  update_with initial j sent qc d true true = finish time j sent qc d
  update_with initial j sent qc d true false = after_start j sent qc (v.start_tx d)
  update_with initial j sent qc d false no_update =
      if str_eq j.args.vte_conf.db.type (str "sqlite")
      then after_sqlite_reset initial j sent qc (v.send_soft_reset d)
      else finish time j sent qc d

  unfoldable pub update_corpus : Job → Job → List Job → EmptyQueryCache A → D → Outcome D A
  unfolding bib_id set_live_attrs
  update_corpus initial j sent qc d =
      update_with initial j sent qc d (is_mysql j.args.vte_conf.db) j.args.no_corpus_update

  -- The answers of the corpus leave the cache only after a loop that comes to its end.
  abbrev pub after_updates : Job → EmptyQueryCache A → D → List Job × Job × Bool → Outcome D A
  after_updates initial qc d (sent, j, false) = ends returned sent qc d
  after_updates initial qc d (sent, j, true) = update_corpus initial j sent (del j.corpus_id qc) d

  -- The function of the job. An extraction that does not start gives a nil channel.
  unfoldable pub run_job : Str → Job → EmptyQueryCache A → D → Extracted → Outcome D A
  unfolding update_corpus follow job_status del
  run_job too_many initial qc d (not_started e) =
      ends waiting
        (as_finished (time 0)
            (with_error (time 0) (some (str "failed to start vert-tagextract: " ++ e)) initial)
          ∷ [])
        qc d
  run_job too_many initial qc d (updates us) =
      after_updates initial qc d (follow too_many (job_status (time 0) initial) us [])
