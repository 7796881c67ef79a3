-- ===== src/Corpus/ConcCache.antt =====
-- corpus/query/cache.go: the cache of concordances, which are computed by goroutines and saved to
-- files.
pub mod Waiting
use cnc_masm.Prelude.{
  ℕ, Option, none, some, List, [], ◌∷◌, ◌++◌, Str, str, StrMap, lookup, insert, has_key, Bool, true,
  false, zero, suc,
}

pub data CacheError : Type 0 where
  entry_not_found : CacheError
  entry_not_ready_yet : CacheError
  other_error : Str → CacheError

-- A zero time is `none`.
pub record CacheEntry : Type 0 where
  pub promised_at : Option ℕ
  pub fulfilled_at : Option ℕ
  pub file_path : Str
  pub err : Option CacheError

-- `running` are the goroutines of `Promise` that compute, with the key and the entry of each.
pub record Cache : Type 0 where
  pub data_ : StrMap CacheEntry
  pub root_path : Str
  pub running : List (Str × CacheEntry)

unfoldable pub new_cache : Str → Cache
new_cache root = record { data_ = []; root_path = root; running = [] }

-- How an attempt of `backoff.RetryWithData` ends: it is repeated after an error that is not
-- `backoff.Permanent`.
pub data Attempt : Type 0 where
  success : Attempt
  permanent : CacheError → Attempt
  retryable : CacheError → Attempt

-- `ListDirsInDir` and `ListFilesInDir` with their errors
pub data Listed (A : Type 0) : Type 0 where
  listed : List A → Listed A
  not_listed : Str → Listed A

-- `IsFile` with its error
pub data FileStatus : Type 0 where
  is_file : FileStatus
  no_file : FileStatus
  unknown : Str → FileStatus

-- A goroutine that ends, and those that go on.
unfoldable pub take_task :
    ℕ → List (Str × CacheEntry) → Option ((Str × CacheEntry) × List (Str × CacheEntry))
take_task n [] = none
take_task zero (t ∷ ts) = some (t, ts)
take_task (suc n) (t ∷ ts) =
    let rest = take_task n ts in elim rest [ none ↦ none | some (u, us) ↦ some (u, t ∷ us) ]

-- The entry that the goroutine of `Promise` stores.
unfoldable pub fulfilled : ℕ → Option CacheError → CacheEntry → CacheEntry
fulfilled now none e = record {
  promised_at = e.promised_at;
  fulfilled_at = some now;
  file_path = e.file_path;
  err = e.err;
}
fulfilled now (some err) e = record {
  promised_at = e.promised_at;
  fulfilled_at = some now;
  file_path = e.file_path;
  err = some err;
}

unfoldable pub store_fulfilled : ℕ → Option CacheError → Str × CacheEntry → Cache → Cache
unfolding fulfilled
store_fulfilled now err (key, e) c = record {
  data_ = insert key (fulfilled now err e) c.data_;
  root_path = c.root_path;
  running = c.running;
}

unfoldable pub finish_task :
    ℕ → Option CacheError → Cache → Option ((Str × CacheEntry) × List (Str × CacheEntry)) → Cache
unfolding store_fulfilled
finish_task now err c none = c
finish_task now err c (some (t, ts)) =
    store_fulfilled now err t record { data_ = c.data_; root_path = c.root_path; running = ts }

-- The goroutine with the given number ends with the error that its function returns.
unfoldable pub finish : ℕ → ℕ → Option CacheError → Cache → Cache
unfolding finish_task take_task
finish n now err c = finish_task now err c (take_task n c.running)

-- The name of a file that is restored becomes its key.
abbrev pub restored : ℕ → Str → CacheEntry
restored now path = record {
  promised_at = some now;
  fulfilled_at = some now;
  file_path = path;
  err = none;
}

-- The entry of a key as `Get` answers with it.
unfoldable pub attempt_at : ℕ → Option CacheEntry → CacheEntry × Attempt
attempt_at now none = (
  record {
    promised_at = none;
    fulfilled_at = some now;
    file_path = str "";
    err = some entry_not_found;
  },
  permanent entry_not_found,
)
attempt_at now (some e) = elim e.fulfilled_at [
  | none ↦ (
    record {
      promised_at = e.promised_at;
      fulfilled_at = none;
      file_path = e.file_path;
      err = some entry_not_ready_yet;
    },
    success,
  )
  | some t ↦ (e, success)
]

-- `sha1_hex` is the hash of the bytes written to it.
module _ (sha1_hex : Str → Str) where
  unfoldable pub mk_key : Str → Str → Str
  mk_key corpus_id query = sha1_hex (corpus_id ++ query)

  unfoldable pub contains : Str → Str → Cache → Bool
  contains corpus_id query c = has_key (mk_key corpus_id query) c.data_

  -- The function that `Get` passes to `backoff.RetryWithData`.
  unfoldable pub operation : Str → Str → ℕ → Cache → CacheEntry × Attempt
  unfolding attempt_at
  operation corpus_id query now c = attempt_at now (lookup (mk_key corpus_id query) c.data_)

  -- `Get`, with the cache and the time at each attempt; `retry_with_data` is
  -- `backoff.RetryWithData`.
  unfoldable pub get :
      ((ℕ → CacheEntry × Attempt) → CacheEntry × Option CacheError)
      → Str
      → Str
      → (ℕ → ℕ)
      → (ℕ → Cache)
      → CacheEntry × Option CacheError
  unfolding operation
  get retry_with_data corpus_id query time cache =
      retry_with_data (λ n. operation corpus_id query (time n) (cache n))

-- `path_join` is `filepath.Join`.
module _ (sha1_hex : Str → Str) (path_join : List Str → Str) where
  unfoldable pub mk_path : Str → Str → Cache → Str
  unfolding mk_key
  mk_path corpus_id query c =
      path_join (c.root_path ∷ corpus_id ∷ mk_key sha1_hex corpus_id query ∷ [])

  unfoldable pub promised : Str → Str → ℕ → Cache → CacheEntry
  promised corpus_id query now c = record {
    promised_at = some now;
    fulfilled_at = none;
    file_path = mk_path corpus_id query c;
    err = none;
  }

  -- `Promise`, up to the start of its goroutine.
  unfoldable pub promise : Str → Str → ℕ → Cache → Cache
  unfolding promised
  promise corpus_id query now c =
      let key = mk_key sha1_hex corpus_id query in
      let e = promised corpus_id query now c in
      record {
        data_ = insert key e c.data_;
        root_path = c.root_path;
        running = c.running ++ (key, e) ∷ [];
      }

  unfoldable pub restore_if_unbound_entry : Str → Str → ℕ → FileStatus → Cache → CacheEntry
  restore_if_unbound_entry corpus_id query now status c = elim status [
    | is_file ↦ restored now (mk_path corpus_id query c)
    | no_file ↦ record {
      promised_at = some now;
      fulfilled_at = some now;
      file_path = str "";
      err = some entry_not_found;
    }
    | unknown msg ↦ record {
      promised_at = some now;
      fulfilled_at = some now;
      file_path = str "";
      err = some (other_error msg);
    }
  ]

  unfoldable pub restore_files : ℕ → Str → List Str → Cache → Cache
  restore_files now subdir [] c = c
  restore_files now subdir (file ∷ files) c = restore_files now subdir files record {
    data_ = insert file (restored now (path_join (c.root_path ∷ subdir ∷ file ∷ []))) c.data_;
    root_path = c.root_path;
    running = c.running;
  }

  -- The loop over the directories ends with the first one that cannot be listed.
  unfoldable pub restore_dirs : ℕ → List (Str × Listed Str) → Cache → Cache × Option Str
  unfolding restore_files
  restore_dirs now [] c = (c, none)
  restore_dirs now ((subdir, not_listed msg) ∷ dirs) c =
      (c, some (str "failed to restore unbound cache records: " ++ msg))
  restore_dirs now ((subdir, listed files) ∷ dirs) c =
      restore_dirs now dirs (restore_files now subdir files c)

  unfoldable pub restore_unbound_entries :
      ℕ → Listed (Str × Listed Str) → Cache → Cache × Option Str
  unfolding restore_dirs
  restore_unbound_entries now (not_listed msg) c =
      (c, some (str "failed to restore unbound cache records: " ++ msg))
  restore_unbound_entries now (listed dirs) c = restore_dirs now dirs c

-- The operations, in the order in which they take the lock of the map.
pub data Op : Type 0 where
  op_promise : Str → Str → ℕ → Op
  op_finish : ℕ → ℕ → Option CacheError → Op
  op_restore : ℕ → Listed (Str × Listed Str) → Op

module _ (sha1_hex : Str → Str) (path_join : List Str → Str) where
  unfoldable pub exec : Op → Cache → Cache
  unfolding promise finish restore_unbound_entries
  exec (op_promise corpus_id query now) c = promise sha1_hex path_join corpus_id query now c
  exec (op_finish n now err) c = finish n now err c
  exec (op_restore now dirs) c = (restore_unbound_entries sha1_hex path_join now dirs c).0

  unfoldable pub run_ops : List Op → Cache → Cache
  unfolding exec
  run_ops [] c = c
  run_ops (op ∷ ops) c = run_ops ops (exec op c)
