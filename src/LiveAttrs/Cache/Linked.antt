-- ===== src/LiveAttrs/Cache/Linked.antt =====
-- The invariant of the cache, and what `Set` and `Del` do to the answers.
use cnc_masm.Prelude.{
  sym, ◌≡◌, refl, Bool, true, false, not, ◌&&◌, ◌||◌, Option, none, some, List, [], ◌∷◌, Str,
  str_eq, str_mem, str_mem-append, str_eq_iff, str_eq_sym, lookup, delete, lookup-insert,
  lookup-delete, is_some, or_else, keep, if◌then◌else◌, arith, ap, ◌↔◌, join, ◌∙◌,
}
use cnc_masm.LiveAttrs.Cache.{
  Payload, colon, KeyDeps, EmptyQueryCache, mk_key, has_attrs, linked, set_key_corpus_dependency,
  set_aligned_dependencies, prune_key_in_deps, get, set, del_keys, del, new_empty_query_cache,
}
use cnc_masm.LiveAttrs.Cache.Keys.{involved, are_names, split, split-mk_key, mk_key_injective}

-- The lists have the same names in the same order.
abbrev pub strs_eq : List Str → List Str → Bool
strs_eq [] [] = true
strs_eq [] (y ∷ ys) = false
strs_eq (x ∷ xs) [] = false
strs_eq (x ∷ xs) (y ∷ ys) = str_eq x y && strs_eq xs ys

strs_eq_iff : (xs ys : List Str) → (strs_eq xs ys ≡ true) ↔ (xs ≡ ys)
strs_eq_iff [] [] = ground arith
strs_eq_iff [] (y ∷ ys) = ground arith
strs_eq_iff (x ∷ xs) [] = ground arith
strs_eq_iff (x ∷ xs) (y ∷ ys) = ground (arith, strs_eq_iff xs ys, str_eq_iff x y)

-- The keys that are linked to a corpus.
abbrev pub keys_of : KeyDeps → Str → List Str
keys_of deps x = or_else (lookup x deps) []

mem-keep :
    (k key : Str) (keys : List Str)
    → str_mem k (keep (λ j. not (str_eq key j)) keys) ≡ (not (str_eq key k) && str_mem k keys)
mem-keep k key [] = ground arith
mem-keep k key (j ∷ keys) =
    ground (arith, mem-keep k key keys, str_eq_iff key j, str_eq_iff k j, str_eq_iff key k)

mem-linked :
    (key k : Str) (o : Option (List Str))
    → str_mem k (linked key o) ≡ (str_eq k key || str_mem k (or_else o []))
unfolding linked
mem-linked key k none = ground arith
mem-linked key k (some keys) = ground (
  arith,
  str_eq_iff k key,
  str_mem-append k keys (key ∷ []),
  ap (λ x. str_mem x keys) {x = k} {y = key},
)

mem-set_key_corpus_dependency :
    (c key k x : Str) (deps : KeyDeps)
    → str_mem k (keys_of (set_key_corpus_dependency c key deps) x)
      ≡ ((str_eq c x && str_eq k key) || str_mem k (keys_of deps x))
unfolding set_key_corpus_dependency
mem-set_key_corpus_dependency c key k x deps = ground (
  arith,
  lookup-insert c x (linked key (lookup c deps)) deps,
  str_eq_iff c x,
  mem-linked key k (lookup c deps),
)

mem-set_aligned_dependencies :
    (cs : List Str) (key k x : Str) (deps : KeyDeps)
    → str_mem k (keys_of (set_aligned_dependencies cs key deps) x)
      ≡ ((str_mem x cs && str_eq k key) || str_mem k (keys_of deps x))
unfolding set_aligned_dependencies
mem-set_aligned_dependencies [] key k x deps = ground arith
mem-set_aligned_dependencies (c ∷ cs) key k x deps = ground (
  arith,
  mem-set_aligned_dependencies cs key k x (set_key_corpus_dependency c key deps),
  mem-set_key_corpus_dependency c key k x deps,
  str_eq_sym c x,
)

mem-prune_key_in_deps :
    (key k x : Str) (deps : KeyDeps)
    → str_mem k (keys_of (prune_key_in_deps key deps).1 x)
      ≡ (not (str_eq key k) && str_mem k (keys_of deps x))
unfolding prune_key_in_deps lookup
mem-prune_key_in_deps key k x [] = ground arith
mem-prune_key_in_deps key k x ((c, keys) ∷ deps) =
    ground (arith, mem-prune_key_in_deps key k x deps, mem-keep k key keys)

module _ {A : Type 0} where
  -- A key is linked to a corpus exactly if the cache has an answer under it and the corpus is one
  -- of its pieces between colons.
  abbrev pub IsLinked : EmptyQueryCache A → Type 0
  IsLinked qc =
      (k x : Str)
      → str_mem k (keys_of qc.corp_key_deps x)
        ≡ (is_some (lookup k qc.data_) && str_mem x (split colon k))

  data-del_keys :
      (keys : List Str) (k : Str) (qc : EmptyQueryCache A)
      → lookup k (del_keys keys qc).data_ ≡ (if str_mem k keys then none else lookup k qc.data_)
  unfolding del_keys
  data-del_keys [] k qc = refl
  data-del_keys (key ∷ keys) k qc = ground (
    arith,
    lookup-delete key k qc.data_,
    str_eq_sym k key,
    data-del_keys keys k (record {
      data_ = delete key qc.data_;
      corp_key_deps = (prune_key_in_deps key qc.corp_key_deps).1;
    }),
  )

  deps-del_keys :
      (keys : List Str) (k x : Str) (qc : EmptyQueryCache A)
      → str_mem k (keys_of (del_keys keys qc).corp_key_deps x)
        ≡ (not (str_mem k keys) && str_mem k (keys_of qc.corp_key_deps x))
  unfolding del_keys
  deps-del_keys [] k x qc = ground arith
  deps-del_keys (key ∷ keys) k x qc = ground (
    arith,
    mem-prune_key_in_deps key k x qc.corp_key_deps,
    str_eq_sym k key,
    deps-del_keys keys k x (record {
      data_ = delete key qc.data_;
      corp_key_deps = (prune_key_in_deps key qc.corp_key_deps).1;
    }),
  )

  -- `Del` of any corpus leaves a linked cache linked.
  pub del-IsLinked : (d : Str) (qc : EmptyQueryCache A) → IsLinked qc → IsLinked (del d qc)
  unfolding del
  del-IsLinked d qc h k x = ground (
    arith,
    lookup-delete d x (del_keys (keys_of qc.corp_key_deps d) qc).corp_key_deps,
    deps-del_keys (keys_of qc.corp_key_deps d) k x qc,
    data-del_keys (keys_of qc.corp_key_deps d) k qc,
    h k x,
    h k d,
    str_eq_iff d x,
    ap (λ y. str_mem y (split colon k)) {x = d} {y = x},
  )

  -- After `Del` of a corpus in a linked cache there is no answer to a query that the corpus is in,
  -- as the corpus itself or an aligned one, and the answers to the other queries are as before.
  -- The names of the corpora in the query have no colon.
  pub get-del :
      {V : Type 0} (d c : Str) (q : Payload V) (qc : EmptyQueryCache A)
      → are_names (involved c q.aligned) ≡ true
      → IsLinked qc
      → get c q (del d qc) ≡ (if str_mem d (involved c q.aligned) then none else get c q qc)
  unfolding get del
  get-del d c q qc e h = ground (
    arith,
    data-del_keys (keys_of qc.corp_key_deps d) (mk_key c q.aligned) qc,
    h (mk_key c q.aligned) d,
    ap (str_mem d) (split-mk_key c q.aligned e),
  )

-- The empty cache is linked.
pub new_empty_query_cache-IsLinked : (A : Type 0) → IsLinked {A = A} new_empty_query_cache
unfolding new_empty_query_cache lookup
new_empty_query_cache-IsLinked A k x = refl

same_key :
    (d c : Str) (ds cs : List Str)
    → are_names (involved d ds) ≡ true
    → are_names (involved c cs) ≡ true
    → str_eq (mk_key d ds) (mk_key c cs) ≡ strs_eq (involved d ds) (involved c cs)
unfolding mk_key
same_key d c ds cs e f = ground (
  arith,
  str_eq_iff (mk_key d ds) (mk_key c cs),
  strs_eq_iff (involved d ds) (involved c cs),
  mk_key_injective d c ds cs e f,
  ap (join colon) {x = involved d ds} {y = involved c cs},
)

module _ {A V : Type 0} where
  -- `Set` for corpora whose names have no colon leaves a linked cache linked: a key is linked to a
  -- corpus exactly if there is an answer under it and the corpus is one of its pieces between colons.
  pub set-IsLinked :
      (d : Str) (q : Payload V) (v : A) (qc : EmptyQueryCache A)
      → are_names (involved d q.aligned) ≡ true
      → IsLinked qc
      → IsLinked (set d q v qc)
  unfolding set
  set-IsLinked d q v qc f h k x = ground (
    arith,
    lookup-insert (mk_key d q.aligned) k v qc.data_,
    mem-set_aligned_dependencies q.aligned (mk_key d q.aligned) k x
        (set_key_corpus_dependency d (mk_key d q.aligned) qc.corp_key_deps),
    mem-set_key_corpus_dependency d (mk_key d q.aligned) k x qc.corp_key_deps,
    h k x,
    str_eq_iff (mk_key d q.aligned) k,
    str_eq_sym (mk_key d q.aligned) k,
    same,
    str_mem-append x q.aligned (d ∷ []),
    str_eq_sym d x,
  )
    where
      same :
          str_eq (mk_key d q.aligned) k ≡ true
          → str_mem x (involved d q.aligned) ≡ str_mem x (split colon k)
      same eq = ap (str_mem x) (
          sym (split-mk_key d q.aligned f)
          ∙ ap (split colon) ((str_eq_iff (mk_key d q.aligned) k).0 eq))

  -- `Set` for a query without attributes gives the answer to every query without attributes and
  -- with the same corpora in the same order, and to no other one, if no name has a colon.
  pub get-set :
      (d c : Str) (p q : Payload V) (v : A) (qc : EmptyQueryCache A)
      → are_names (involved d p.aligned) ≡ true
      → are_names (involved c q.aligned) ≡ true
      → has_attrs p ≡ false
      → has_attrs q ≡ false
      → get c q (set d p v qc)
        ≡ (if strs_eq (involved d p.aligned) (involved c q.aligned) then some v else get c q qc)
  unfolding get set
  get-set d c p q v qc e f pa qa =
      rw (pa, qa)
        (lookup-insert (mk_key d p.aligned) (mk_key c q.aligned) v qc.data_
          ∙ ap (λ b. if b then some v else lookup (mk_key c q.aligned) qc.data_)
              (same_key d c p.aligned q.aligned e f))
