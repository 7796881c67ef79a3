-- ===== src/Tests/ConcCache.antt =====
-- The cache of concordances with one query, before and after its computation.
use cnc_masm.Prelude.{
  ℕ, ◌≡◌, refl, ap, true, none, some, Option, List, [], ◌∷◌, ◌++◌, Str, str, insert, str_eq, join,
}
use cnc_masm.Corpus.ConcCache.{
  Cache, CacheEntry, CacheError, other_error, entry_not_ready_yet, new_cache, promise, get, Attempt,
  success, permanent, retryable, Op, op_promise, op_finish, op_restore, run_ops, listed, mk_key,
  mk_path,
}
use cnc_masm.Corpus.ConcCache.Waiting.{IsAccounted, IsRetry, run_ops-new_cache, get-promise, waits}

abbrev sha1_hex : Str → Str
sha1_hex s = str "sha1_" ++ s

abbrev path_join : List Str → Str
path_join = join 47

abbrev susanne : Str
susanne = str "susanne"

abbrev query : Str
query = str "q"

abbrev empty_cache : Cache
empty_cache = new_cache (str "cache")

abbrev ops : List Op
ops =
    op_promise susanne query 1
    ∷ op_promise susanne (str "r") 2
    ∷ op_finish 0 3 (some (other_error (str "no space")))
    ∷ op_restore 4 (listed ((susanne, listed (str "abc" ∷ [])) ∷ []))
    ∷ []

one_goes_on :
    waits (mk_key sha1_hex susanne (str "r")) (run_ops sha1_hex path_join ops empty_cache).running
    ≡ true
unfolding run_ops mk_key new_cache waits str_eq insert
one_goes_on = refl

run_ops-new_cache_example : IsAccounted (run_ops sha1_hex path_join ops (new_cache (str "cache")))
run_ops-new_cache_example = run_ops-new_cache sha1_hex path_join (str "cache") ops

abbrev ended : CacheEntry × Attempt → CacheEntry × Option CacheError
ended (e, success) = (e, none)
ended (e, permanent err) = (e, some err)
ended (e, retryable err) = (e, some err)

abbrev retry : (ℕ → CacheEntry × Attempt) → CacheEntry × Option CacheError
retry f = ended (f 0)

ended-success : (a : CacheEntry × Attempt) → a.1 ≡ success → ended a ≡ (a.0, none)
ended-success (e, a) h = ap (λ x. ended (e, x)) h

ended-permanent :
    (a : CacheEntry × Attempt) (err : CacheError) → a.1 ≡ permanent err → ended a ≡ (a.0, some err)
ended-permanent (e, a) err h = ap (λ x. ended (e, x)) h

retry-IsRetry : IsRetry retry
unfolding IsRetry
retry-IsRetry f = (ended-success (f 0), ended-permanent (f 0))

get-promise_example :
    get sha1_hex retry susanne query
      (λ n. n)
      (λ n. promise sha1_hex path_join susanne query 5 empty_cache)
    ≡ (
      record {
        promised_at = some 5;
        fulfilled_at = none;
        file_path = mk_path sha1_hex path_join susanne query empty_cache;
        err = some entry_not_ready_yet;
      },
      none,
    )
get-promise_example =
    get-promise sha1_hex path_join retry retry-IsRetry susanne query 5 empty_cache (λ n. n)
      (λ n. promise sha1_hex path_join susanne query 5 empty_cache) refl
