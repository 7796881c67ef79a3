-- ===== src/Corpus/ConcCache/Waiting.antt =====
-- corpus/query/cache.go: the entries without a result, and the goroutines that compute them.
use cnc_masm.Prelude.{
  ℕ, zero, suc, ◌≡◌, refl, sym, ap, ◌∙◌, Bool, true, false, ◌||◌, Option, none, some, List, [], ◌∷◌,
  Str, lookup, insert, lookup-insert, str_eq, str_eq_iff, any, any-append, arith,
}
use cnc_masm.Corpus.ConcCache.{
  Cache, CacheEntry, CacheError, Listed, listed, not_listed, new_cache, mk_key, promise, promised,
  finish, finish_task, Op, op_promise, op_finish, op_restore, exec, run_ops, get, operation,
  attempt_at, mk_path, Attempt, success, permanent, entry_not_ready_yet, take_task, fulfilled,
  store_fulfilled, restored, restore_files, restore_dirs, restore_unbound_entries,
}

unfoldable pub is_pending : Option CacheEntry → Bool
is_pending none = false
is_pending (some e) = elim e.fulfilled_at [ none ↦ true | some t ↦ false ]

unfoldable pub waits : Str → List (Str × CacheEntry) → Bool
waits k ts = any (λ t. str_eq t.0 k) ts

-- Each entry without a result has a goroutine that computes it.
abbrev pub IsAccounted : Cache → Type 0
IsAccounted c = (k : Str) → is_pending (lookup k c.data_) ≡ true → waits k c.running ≡ true

-- A task and the others, of the given tasks.
Splits :
    Str → List (Str × CacheEntry) → Option ((Str × CacheEntry) × List (Str × CacheEntry)) → Type 0
Splits k ts none = Unit {0}
Splits k ts (some (t, us)) = waits k ts ≡ (str_eq t.0 k || waits k us)

Splits-cons :
    (k : Str) (s : Str × CacheEntry) (ts : List (Str × CacheEntry))
    (o : Option ((Str × CacheEntry) × List (Str × CacheEntry)))
    → Splits k ts o
    → Splits k (s ∷ ts) (elim o [ none ↦ none | some (t, us) ↦ some (t, s ∷ us) ])
unfolding Splits waits
Splits-cons k s ts none h = tt
Splits-cons k s ts (some (t, us)) h = ground (arith, h)

take_task-Splits : (k : Str) (n : ℕ) (ts : List (Str × CacheEntry)) → Splits k ts (take_task n ts)
unfolding take_task Splits waits
take_task-Splits k n [] = tt
take_task-Splits k zero (s ∷ ts) = refl
take_task-Splits k (suc n) (s ∷ ts) = Splits-cons k s ts (take_task n ts) (take_task-Splits k n ts)

is_pending-fulfilled :
    (now : ℕ) (err : Option CacheError) (e : CacheEntry)
    → is_pending (some (fulfilled now err e)) ≡ false
unfolding is_pending fulfilled
is_pending-fulfilled now none e = refl
is_pending-fulfilled now (some err) e = refl

store_fulfilled-IsAccounted :
    (now : ℕ) (err : Option CacheError) (t : Str × CacheEntry) (c : Cache)
    → ((k : Str)
        → is_pending (lookup k c.data_) ≡ true
        → (str_eq t.0 k || waits k c.running) ≡ true)
    → IsAccounted (store_fulfilled now err t c)
unfolding store_fulfilled
store_fulfilled-IsAccounted now err (key, e) c h k =
    ground (
      arith,
      h k,
      lookup-insert key k (fulfilled now err e) c.data_,
      is_pending-fulfilled now err e,
    )

module _ (sha1_hex : Str → Str) (path_join : List Str → Str) where
  pub promise-IsAccounted :
      (corpus_id query : Str) (now : ℕ) (c : Cache)
      → IsAccounted c
      → IsAccounted (promise sha1_hex path_join corpus_id query now c)
  unfolding promise waits
  promise-IsAccounted corpus_id query now c h k =
      let key = mk_key sha1_hex corpus_id query in
      let e = promised sha1_hex path_join corpus_id query now c in
      ground (
        arith,
        h k,
        lookup-insert key k e c.data_,
        any-append (λ t. str_eq t.0 k) c.running ((key, e) ∷ []),
      )

-- The end of any goroutine.
finish_task-IsAccounted :
    (now : ℕ) (err : Option CacheError) (c : Cache)
    (o : Option ((Str × CacheEntry) × List (Str × CacheEntry)))
    → ((k : Str) → Splits k c.running o)
    → IsAccounted c
    → IsAccounted (finish_task now err c o)
unfolding finish_task Splits
finish_task-IsAccounted now err c none s h = h
finish_task-IsAccounted now err c (some (t, us)) s h =
    store_fulfilled-IsAccounted now err t
      (record { data_ = c.data_; root_path = c.root_path; running = us }) (λ k p. sym (s k) ∙ h k p)

pub finish-IsAccounted :
    (n now : ℕ) (err : Option CacheError) (c : Cache)
    → IsAccounted c
    → IsAccounted (finish n now err c)
unfolding finish
finish-IsAccounted n now err c h =
    finish_task-IsAccounted now err c (take_task n c.running) (λ k. take_task-Splits k n c.running)
      h

module _ (sha1_hex : Str → Str) (path_join : List Str → Str) where
  restore_files-IsAccounted :
      (now : ℕ) (subdir : Str) (files : List Str) (c : Cache)
      → IsAccounted c
      → IsAccounted (restore_files sha1_hex path_join now subdir files c)
  unfolding restore_files is_pending
  restore_files-IsAccounted now subdir [] c h = h
  restore_files-IsAccounted now subdir (file ∷ files) c h =
      let e = restored now (path_join (c.root_path ∷ subdir ∷ file ∷ [])) in
      restore_files-IsAccounted now subdir files
        (record { data_ = insert file e c.data_; root_path = c.root_path; running = c.running })
        (λ k. ground (arith, h k, lookup-insert file k e c.data_))

  restore_dirs-IsAccounted :
      (now : ℕ) (dirs : List (Str × Listed Str)) (c : Cache)
      → IsAccounted c
      → IsAccounted (restore_dirs sha1_hex path_join now dirs c).0
  unfolding restore_dirs
  restore_dirs-IsAccounted now [] c h = h
  restore_dirs-IsAccounted now ((subdir, not_listed msg) ∷ dirs) c h = h
  restore_dirs-IsAccounted now ((subdir, listed files) ∷ dirs) c h =
      restore_dirs-IsAccounted now dirs (restore_files sha1_hex path_join now subdir files c)
        (restore_files-IsAccounted now subdir files c h)

  pub restore_unbound_entries-IsAccounted :
      (now : ℕ) (dirs : Listed (Str × Listed Str)) (c : Cache)
      → IsAccounted c
      → IsAccounted (restore_unbound_entries sha1_hex path_join now dirs c).0
  unfolding restore_unbound_entries
  restore_unbound_entries-IsAccounted now (not_listed msg) c h = h
  restore_unbound_entries-IsAccounted now (listed dirs) c h = restore_dirs-IsAccounted now dirs c h

  exec-IsAccounted :
      (op : Op) (c : Cache) → IsAccounted c → IsAccounted (exec sha1_hex path_join op c)
  unfolding exec
  exec-IsAccounted (op_promise corpus_id query now) c h =
      promise-IsAccounted sha1_hex path_join corpus_id query now c h
  exec-IsAccounted (op_finish n now err) c h = finish-IsAccounted n now err c h
  exec-IsAccounted (op_restore now dirs) c h = restore_unbound_entries-IsAccounted now dirs c h

  run_ops-IsAccounted :
      (ops : List Op) (c : Cache) → IsAccounted c → IsAccounted (run_ops sha1_hex path_join ops c)
  unfolding run_ops
  run_ops-IsAccounted [] c h = h
  run_ops-IsAccounted (op ∷ ops) c h =
      run_ops-IsAccounted ops (exec sha1_hex path_join op c) (exec-IsAccounted op c h)

  -- After any promises, ends of their goroutines and restorations of files, in any order, each
  -- entry of the cache without a result has a goroutine that computes it.
  pub run_ops-new_cache :
      (root : Str) (ops : List Op) → IsAccounted (run_ops sha1_hex path_join ops (new_cache root))
  unfolding new_cache is_pending lookup
  run_ops-new_cache root ops = run_ops-IsAccounted ops (new_cache root) (λ k h. ground (arith, h))

-- What is documented of `backoff.RetryWithData`: it ends with the first attempt that succeeds or
-- fails permanently.
unfoldable pub IsRetry : ((ℕ → CacheEntry × Attempt) → CacheEntry × Option CacheError) → Type 0
IsRetry retry =
    (f : ℕ → CacheEntry × Attempt)
    → ((f 0).1 ≡ success → retry f ≡ ((f 0).0, none))
      × ((e : CacheError) → (f 0).1 ≡ permanent e → retry f ≡ ((f 0).0, some e))

module _ (sha1_hex : Str → Str) (path_join : List Str → Str) where
  lookup-promise :
      (corpus_id query : Str) (now : ℕ) (c : Cache)
      → lookup
          (mk_key sha1_hex corpus_id query)
          (promise sha1_hex path_join corpus_id query now c).data_
        ≡ some (promised sha1_hex path_join corpus_id query now c)
  unfolding promise
  lookup-promise corpus_id query now c =
      let key = mk_key sha1_hex corpus_id query in
      let e = promised sha1_hex path_join corpus_id query now c in
      ground (arith, lookup-insert key key e c.data_, str_eq_iff key key)

  -- `Get` right after `Promise` does not wait for the goroutine: it answers at once with the entry
  -- of the promise, no error and, in the entry, the error that it is not ready, where attempts are
  -- repeated as `RetryWithData` documents it.
  pub get-promise :
      (retry : (ℕ → CacheEntry × Attempt) → CacheEntry × Option CacheError)
      → IsRetry retry
      → (corpus_id query : Str) (now : ℕ) (c : Cache) (time : ℕ → ℕ) (cache : ℕ → Cache)
      → cache 0 ≡ promise sha1_hex path_join corpus_id query now c
      → get sha1_hex retry corpus_id query time cache ≡ (
        record {
          promised_at = some now;
          fulfilled_at = none;
          file_path = mk_path sha1_hex path_join corpus_id query c;
          err = some entry_not_ready_yet;
        },
        none,
      )
  unfolding get operation attempt_at promise promised IsRetry
  get-promise retry is corpus_id query now c time cache h =
      let f : ℕ → CacheEntry × Attempt =
        (λ n. operation sha1_hex corpus_id query (time n) (cache n)) in
      let at_once =
        ap (operation sha1_hex corpus_id query (time 0)) h
        ∙ ap (attempt_at (time 0)) (lookup-promise corpus_id query now c) in
      (is f).0 (ap (λ a. a.1) at_once) ∙ ap (λ a. (a.0, none)) at_once
