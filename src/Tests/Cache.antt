-- ===== src/Tests/Cache.antt =====
-- The cache of answers for two corpora, one of them aligned to the other.
use cnc_masm.Prelude.{ℕ, ◌≡◌, refl, none, [], ◌∷◌, str, Str, str_eq}
use cnc_masm.LiveAttrs.Cache.{Payload, EmptyQueryCache, get, set, del, new_empty_query_cache}
use cnc_masm.LiveAttrs.Cache.Linked.{
  IsLinked, new_empty_query_cache-IsLinked, set-IsLinked, get-del,
}

abbrev en : Str
en = str "intercorp_en"

abbrev cs : Str
cs = str "intercorp_cs"

abbrev en_with_cs : Payload ℕ
en_with_cs = record { attrs = []; aligned = cs ∷ [] }

abbrev en_alone : Payload ℕ
en_alone = record { attrs = []; aligned = [] }

abbrev empty_cache : EmptyQueryCache ℕ
empty_cache = new_empty_query_cache

abbrev cache : EmptyQueryCache ℕ
cache = set en en_with_cs 7 new_empty_query_cache

cache-IsLinked : IsLinked cache
cache-IsLinked =
    set-IsLinked en en_with_cs 7 new_empty_query_cache refl (new_empty_query_cache-IsLinked ℕ)

set-IsLinked_example : IsLinked (set en en_alone 8 cache)
set-IsLinked_example = set-IsLinked en en_alone 8 cache refl cache-IsLinked

get-del_example : get en en_with_cs (del cs cache) ≡ none
unfolding str_eq
get-del_example = get-del cs en en_with_cs cache refl cache-IsLinked
