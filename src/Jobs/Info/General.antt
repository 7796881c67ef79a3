-- ===== src/Jobs/Info/General.antt =====
-- The implementations of `GeneralJobInfo` as one type. The Boolean of a constructor says whether the
-- interface value holds a pointer: a method with a value receiver that returns `j` hands out a
-- record, also when it was called through a pointer.
use cnc_masm.Prelude.{ℕ, Bool, true, false, Option, Str}
use cnc_masm.Jobs.Info.{JobInfoCompact, GeneralJobInfo}
use cnc_masm.Jobs.Info.Kinds.Dummy
use cnc_masm.Jobs.Info.Kinds.Dummy.{DummyJobInfo}
use cnc_masm.Jobs.Info.Kinds.LiveAttrs
use cnc_masm.Jobs.Info.Kinds.LiveAttrs.{LiveAttrsJobInfo}
use cnc_masm.Jobs.Info.Kinds.IdxUpdate
use cnc_masm.Jobs.Info.Kinds.IdxUpdate.{IdxUpdateJobInfo}
use cnc_masm.Jobs.Info.Kinds.Sync
use cnc_masm.Jobs.Info.Kinds.Sync.{SyncJobInfo}
use cnc_masm.Jobs.Info.Kinds.Export
use cnc_masm.Jobs.Info.Kinds.Export.{ExportJobInfo}
use cnc_masm.Jobs.Info.Kinds.Ngram
use cnc_masm.Jobs.Info.Kinds.Ngram.{NgramJobInfo}

pub data Job (V : Type 0) : Type 0 where
  dummy : Bool → DummyJobInfo → Job V
  live_attrs : Bool → LiveAttrsJobInfo V → Job V
  idx_update : Bool → IdxUpdateJobInfo → Job V
  sync : Bool → SyncJobInfo → Job V
  export : Bool → ExportJobInfo → Job V
  ngram : Bool → NgramJobInfo → Job V

module _ {V : Type 0} where
  abbrev pub job_id : Job V → Str
  job_id (dummy b j) = j.id
  job_id (live_attrs b j) = j.id
  job_id (idx_update b j) = j.id
  job_id (sync b j) = j.id
  job_id (export b j) = j.id
  job_id (ngram b j) = j.id

  abbrev pub job_type : Job V → Str
  job_type (dummy b j) = j.type
  job_type (live_attrs b j) = j.type
  job_type (idx_update b j) = j.type
  job_type (sync b j) = j.type
  job_type (export b j) = j.type
  job_type (ngram b j) = j.type

  abbrev pub job_start : Job V → ℕ
  job_start (dummy b j) = j.start
  job_start (live_attrs b j) = j.start
  job_start (idx_update b j) = j.start
  job_start (sync b j) = j.start
  job_start (export b j) = j.start
  job_start (ngram b j) = j.start

  abbrev pub job_corpus : Job V → Str
  job_corpus (dummy b j) = j.corpus_id
  job_corpus (live_attrs b j) = j.corpus_id
  job_corpus (idx_update b j) = j.corpus_id
  job_corpus (sync b j) = j.corpus_id
  job_corpus (export b j) = j.corpus_id
  job_corpus (ngram b j) = j.corpus_id

  abbrev pub job_finished : Job V → Bool
  job_finished (dummy b j) = j.finished
  job_finished (live_attrs b j) = j.finished
  job_finished (idx_update b j) = j.finished
  job_finished (sync b j) = j.finished
  job_finished (export b j) = j.finished
  job_finished (ngram b j) = j.finished

  abbrev pub job_restarts : Job V → ℕ
  job_restarts (dummy b j) = j.num_restarts
  job_restarts (live_attrs b j) = j.num_restarts
  job_restarts (idx_update b j) = j.num_restarts
  job_restarts (sync b j) = j.num_restarts
  job_restarts (export b j) = j.num_restarts
  job_restarts (ngram b j) = j.num_restarts

  abbrev pub job_error : Job V → Option Str
  job_error (dummy b j) = j.error
  job_error (live_attrs b j) = j.error
  job_error (idx_update b j) = j.error
  job_error (sync b j) = j.error
  job_error (export b j) = j.error
  job_error (ngram b j) = j.error

  abbrev pub job_is_pointer : Job V → Bool
  job_is_pointer (dummy b j) = b
  job_is_pointer (live_attrs b j) = b
  job_is_pointer (idx_update b j) = b
  job_is_pointer (sync b j) = b
  job_is_pointer (export b j) = b
  job_is_pointer (ngram b j) = b

  unfoldable pub job_as_finished : ℕ → Job V → Job V
  unfolding Dummy.as_finished LiveAttrs.as_finished IdxUpdate.as_finished Sync.as_finished
      Export.as_finished Ngram.as_finished
  job_as_finished now (dummy b j) = dummy false (Dummy.as_finished now j)
  job_as_finished now (live_attrs b j) = live_attrs false (LiveAttrs.as_finished now j)
  job_as_finished now (idx_update b j) = idx_update false (IdxUpdate.as_finished now j)
  job_as_finished now (sync b j) = sync false (Sync.as_finished now j)
  job_as_finished now (export b j) = export false (Export.as_finished now j)
  job_as_finished now (ngram b j) = ngram false (Ngram.as_finished now j)

  unfoldable pub job_with_error : ℕ → Option Str → Job V → Job V
  unfolding Dummy.with_error LiveAttrs.with_error IdxUpdate.with_error Sync.with_error
      Export.with_error Ngram.with_error
  job_with_error now e (dummy b j) = dummy false (Dummy.with_error now e j)
  job_with_error now e (live_attrs b j) = live_attrs false (LiveAttrs.with_error now e j)
  job_with_error now e (idx_update b j) = idx_update false (IdxUpdate.with_error now e j)
  job_with_error now e (sync b j) = sync false (Sync.with_error now e j)
  job_with_error now e (export b j) = export true (Export.with_error now e j)
  job_with_error now e (ngram b j) = ngram true (Ngram.with_error now e j)

  unfoldable pub job_compact : Job V → JobInfoCompact
  unfolding Dummy.compact_version LiveAttrs.compact_version IdxUpdate.compact_version
      Sync.compact_version Export.compact_version Ngram.compact_version
  job_compact (dummy b j) = Dummy.compact_version j
  job_compact (live_attrs b j) = LiveAttrs.compact_version j
  job_compact (idx_update b j) = IdxUpdate.compact_version j
  job_compact (sync b j) = Sync.compact_version j
  job_compact (export b j) = Export.compact_version j
  job_compact (ngram b j) = Ngram.compact_version j

  instance abbrev pub job_info : GeneralJobInfo (Job V)
  job_info = record {
    get_id = job_id;
    get_type = job_type;
    get_start_dt = job_start;
    get_corpus = job_corpus;
    is_finished = job_finished;
    as_finished = job_as_finished;
    get_num_restarts = job_restarts;
    get_error = job_error;
    with_error = job_with_error;
    compact_version = job_compact;
    is_pointer = job_is_pointer;
  }
