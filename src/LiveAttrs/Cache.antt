-- ===== src/LiveAttrs/Cache.antt =====
-- liveattrs/cache/cache.go: the cache of answers to queries without attributes. A method that
-- changes the cache returns the new one; its mutex makes each method one step.
pub mod Keys
pub mod Linked
use cnc_masm.Prelude.{
  ℕ, ◌+◌, Bool, true, false, Option, none, some, List, [], ◌∷◌, ◌++◌, Str, str_eq, str_mem, join,
  StrMap, lookup, insert, delete, if◌then◌else◌, or_else, keep, tally, not,
}

-- Of `query.Payload`, what the cache looks at.
pub record Payload (V : Type 0) : Type 0 where
  pub attrs : StrMap V
  pub aligned : List Str

abbrev pub colon : ℕ
colon = 58

unfoldable pub mk_key : Str → List Str → Str
mk_key corpus_id aligned = join colon (aligned ++ corpus_id ∷ [])

abbrev pub KeyDeps : Type 0
KeyDeps = StrMap (List Str)

pub record EmptyQueryCache (A : Type 0) : Type 0 where
  pub data_ : StrMap A
  pub corp_key_deps : KeyDeps

abbrev pub has_attrs : {V : Type 0} → Payload V → Bool
has_attrs q = elim q.attrs [ [] ↦ false | e ∷ m ↦ true ]

unfoldable pub linked : Str → Option (List Str) → List Str
linked key none = key ∷ []
linked key (some keys) = if str_mem key keys then keys else keys ++ key ∷ []

unfoldable pub set_key_corpus_dependency : Str → Str → KeyDeps → KeyDeps
unfolding linked
set_key_corpus_dependency corpus_id key deps =
    insert corpus_id (linked key (lookup corpus_id deps)) deps

unfoldable pub set_aligned_dependencies : List Str → Str → KeyDeps → KeyDeps
unfolding set_key_corpus_dependency
set_aligned_dependencies [] key deps = deps
set_aligned_dependencies (c ∷ cs) key deps =
    set_aligned_dependencies cs key (set_key_corpus_dependency c key deps)

-- The number of removed occurrences, and the map without them.
unfoldable pub prune_key_in_deps : Str → KeyDeps → ℕ × KeyDeps
prune_key_in_deps key [] = (0, [])
prune_key_in_deps key ((c, keys) ∷ deps) =
    let (removed, rest) = prune_key_in_deps key deps in
    (tally (str_eq key) keys + removed, (c, keep (λ k. not (str_eq key k)) keys) ∷ rest)

module _ {A V : Type 0} where
  unfoldable pub get : Str → Payload V → EmptyQueryCache A → Option A
  unfolding mk_key
  get corpus_id q qc = if has_attrs q then none else lookup (mk_key corpus_id q.aligned) qc.data_

  unfoldable pub set : Str → Payload V → A → EmptyQueryCache A → EmptyQueryCache A
  unfolding mk_key set_key_corpus_dependency set_aligned_dependencies
  set corpus_id q v qc =
      let key = mk_key corpus_id q.aligned in
      if has_attrs q then qc else record {
        data_ = insert key v qc.data_;
        corp_key_deps =
            set_aligned_dependencies q.aligned key
              (set_key_corpus_dependency corpus_id key qc.corp_key_deps);
      }

module _ {A : Type 0} where
  -- The loop of `Del` over the keys.
  unfoldable pub del_keys : List Str → EmptyQueryCache A → EmptyQueryCache A
  unfolding prune_key_in_deps
  del_keys [] qc = qc
  del_keys (key ∷ keys) qc = del_keys keys (record {
    data_ = delete key qc.data_;
    corp_key_deps = (prune_key_in_deps key qc.corp_key_deps).1;
  })

  unfoldable pub del : Str → EmptyQueryCache A → EmptyQueryCache A
  unfolding del_keys
  del corpus_id qc =
      let pruned = del_keys (or_else (lookup corpus_id qc.corp_key_deps) []) qc in
      record pruned { corp_key_deps = delete corpus_id pruned.corp_key_deps }

  unfoldable pub new_empty_query_cache : EmptyQueryCache A
  new_empty_query_cache = record { data_ = []; corp_key_deps = [] }
