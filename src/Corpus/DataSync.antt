-- ===== src/Corpus/DataSync.antt =====
-- corpus/datasync.go, with the jobs of corpus/actions.go that run it: the synchronization of the data
-- of a corpus between CNC and KonText. A time of 0 is the zero time.
pub mod Newest
use cnc_masm.Prelude.{
  ℕ, Bool, true, false, Option, none, some, List, [], ◌∷◌, ◌++◌, Str, str, str_mem, ◌⊎◌, inl, inr,
  length, ◌==◌, ◌&&◌, ltb, split_on, if◌then◌else◌, is_some,
}
use cnc_masm.Jobs.Info.Kinds.Sync.{SyncResponse, DirInfo, SyncJobInfo, as_finished, with_error}

-- How `rsync` ended: with its output, with an exit code, or otherwise; the texts are what it wrote
-- to its error output, and the error.
pub data Ran : Type 0 where
  succeeded : Str → Ran
  exited : Option ℕ → Str → Str → Ran
  broken : Str → Str → Ran

-- The functions for paths, files and times, and `rsync`. `list_files` has the times of the files.
pub record Disk (D : Type 0) : Type 0 where
  pub path_join : List Str → Str
  pub path_clean : Str → Str
  pub is_dir : Str → D → Bool ⊎ Str
  pub list_files : Str → D → List ℕ ⊎ Str
  pub format_time : ℕ → Str
  pub rsync : Str → Str → D → D × Ran

pub record CorporaDataPaths : Type 0 where
  pub abstract_path : Str
  pub cnc : Str
  pub kontext : Str

pub data Direction : Type 0 where
  from_kontext : Direction
  from_cnc : Direction
  nowhere : Direction

abbrev pub latest : List ℕ → ℕ
latest [] = 0
latest (t ∷ ts) = t

abbrev pub no_response : SyncResponse
no_response = record {
  ok = false;
  return_code = some 0;
  details = [];
  source_dir = record { path = []; latest_mod = [] };
  destination_dir = record { path = []; latest_mod = [] };
}

-- The disk after the call, what was copied, and the two results.
pub record Synced (D : Type 0) : Type 0 where
  pub disk : D
  pub copied : Option (Str × Str)
  pub response : SyncResponse
  pub error : Option Str

abbrev pub refused : {D : Type 0} → Str → D → Synced D
refused e d = record { disk = d; copied = none; response = no_response; error = some e }

-- The comparison of the times of the latest files, and of the numbers of files.
unfoldable pub direction : List ℕ → List ℕ → Direction
direction in_cnc in_kontext =
    if ltb (latest in_cnc) (latest in_kontext)
    then from_kontext
    else if ltb (latest in_kontext) (latest in_cnc)
    then from_cnc
    else if ltb (length in_cnc) (length in_kontext)
    then from_kontext
    else if ltb (length in_kontext) (length in_cnc)
    then from_cnc
    else nowhere

module _ {D : Type 0} (k : Disk D) where
  abbrev pub files_as : Str → D → Bool ⊎ Str → List ℕ ⊎ Str
  files_as path d (inr e) = inr e
  files_as path d (inl false) = inl []
  files_as path d (inl true) = k.list_files path d

  -- The files of a directory; none if it is no directory.
  unfoldable pub files_in : Str → D → List ℕ ⊎ Str
  files_in path d = files_as path d (k.is_dir path d)

  abbrev pub response_as : Str → Str → List ℕ → List ℕ → Ran → SyncResponse
  response_as src dst in_cnc in_kontext ran = record {
    ok = elim ran [ succeeded out ↦ true | exited code text e ↦ false | broken text e ↦ false ];
    return_code = elim ran [
      | succeeded out ↦ none
      | exited code text e ↦ code
      | broken text e ↦ none
    ];
    details =
        split_on 10
          (elim ran [ succeeded out ↦ out | exited code text e ↦ text | broken text e ↦ text ]);
    source_dir = record { path = src; latest_mod = k.format_time (latest in_cnc) };
    destination_dir = record { path = dst; latest_mod = k.format_time (latest in_kontext) };
  }

  abbrev pub run_error : Ran → Option Str
  run_error (succeeded out) = none
  run_error (exited code text e) = some e
  run_error (broken text e) = some e

  abbrev pub after_rsync : Str → Str → List ℕ → List ℕ → D × Ran → Synced D
  after_rsync src dst in_cnc in_kontext (d, ran) = record {
    disk = d;
    copied = some (src, dst);
    response = response_as src dst in_cnc in_kontext ran;
    error = run_error ran;
  }

  unfoldable pub copy : Str → Str → List ℕ → List ℕ → D → Synced D
  copy src dst in_cnc in_kontext d =
      after_rsync src dst in_cnc in_kontext (k.rsync (src ++ str "/") dst d)

  abbrev pub copy_from : Str → Str → List ℕ → List ℕ → D → Direction → Synced D
  copy_from cnc kontext in_cnc in_kontext d from_kontext = copy kontext cnc in_cnc in_kontext d
  copy_from cnc kontext in_cnc in_kontext d from_cnc = copy cnc kontext in_cnc in_kontext d
  copy_from cnc kontext in_cnc in_kontext d nowhere =
      refused
        (str
            "Nothing to synchronize - latest changes in both CNC and KonText data dirs have the same modification date "
          ++ k.format_time (latest in_cnc))
        d

  unfoldable pub sync_listed : Str → Str → List ℕ → List ℕ → D → Synced D
  unfolding direction copy
  sync_listed cnc kontext in_cnc in_kontext d =
      if (latest in_cnc == 0) && (latest in_kontext == 0)
      then refused
          (str "Neither KonText ("
            ++ (kontext ++ (str ") nor CNC (" ++ (cnc ++ str ") directory exists"))))
          d
      else copy_from cnc kontext in_cnc in_kontext d (direction in_cnc in_kontext)

  abbrev pub sync_dirs : Str → Str → D → List ℕ ⊎ Str → List ℕ ⊎ Str → Synced D
  sync_dirs cnc kontext d (inr e) r = refused e d
  sync_dirs cnc kontext d (inl in_cnc) (inr e) = refused e d
  sync_dirs cnc kontext d (inl in_cnc) (inl in_kontext) =
      sync_listed cnc kontext in_cnc in_kontext d

  abbrev pub data_dir : Str → Str → Str
  data_dir root corpus = k.path_clean (k.path_join (root ∷ corpus ∷ []))

  unfoldable pub synchronize_corpus_data : CorporaDataPaths → Str → D → Synced D
  unfolding files_in sync_listed
  synchronize_corpus_data paths corpus d =
      let cnc = data_dir paths.cnc corpus in
      let kontext = data_dir paths.kontext corpus in
      sync_dirs cnc kontext d (files_in cnc d) (files_in kontext d)

  -- The last record of the job, in `SynchronizeCorpusData`.
  unfoldable pub sync_job : ℕ → CorporaDataPaths → SyncJobInfo → D → D × SyncJobInfo
  unfolding synchronize_corpus_data as_finished
  sync_job now paths rec d =
      let s = synchronize_corpus_data paths rec.corpus_id d in
      (
        s.disk,
        as_finished now (record rec {
          error = elim s.error [ none ↦ rec.error | some e ↦ some e ];
          result = some s.response;
        }),
      )

  abbrev pub restarted : ℕ → SyncJobInfo → Synced D → D × SyncJobInfo
  restarted now rec s = (
    s.disk,
    elim s.error [
      | some e ↦ with_error now (some e) rec
      | none ↦ as_finished now (record rec { result = some s.response })
    ],
  )

  -- The job of `RestartJob`.
  unfoldable pub restart_job : ℕ → CorporaDataPaths → SyncJobInfo → D → D × SyncJobInfo
  unfolding synchronize_corpus_data as_finished with_error
  restart_job now paths rec d = restarted now rec (synchronize_corpus_data paths rec.corpus_id d)

-- `AllowsSyncForCorpus`
unfoldable pub allows_sync_for_corpus : List Str → Str → Bool
allows_sync_for_corpus allowed name = str_mem name allowed
