-- ===== src/LiveAttrs/Cache/Keys.antt =====
-- The keys of the cache: for names without a colon, `mkKey` can be read back.
use cnc_masm.Prelude.{
  ℕ, ◌≡◌, refl, Bool, true, not, List, [], ◌∷◌, ◌++◌, Str, join, all, ◌==◌, if◌then◌else◌, arith,
  ap, ◌∙◌, sym,
}
use cnc_masm.LiveAttrs.Cache.{mk_key, colon}

abbrev pub cons_first : ℕ → List Str → List Str
cons_first a [] = (a ∷ []) ∷ []
cons_first a (x ∷ xs) = (a ∷ x) ∷ xs

-- The pieces of a string between separators.
abbrev pub split : ℕ → Str → List Str
split sep [] = [] ∷ []
split sep (a ∷ s) = let rest = split sep s in if a == sep then [] ∷ rest else cons_first a rest

abbrev pub lacks : ℕ → Str → Bool
lacks sep = all (λ b. not (b == sep))

split-name : (sep : ℕ) (x : Str) → lacks sep x ≡ true → split sep x ≡ x ∷ []
split-name sep [] e = refl
split-name sep (a ∷ x) e = ground (arith, split-name sep x)

split-append :
    (sep : ℕ) (x r : Str) → lacks sep x ≡ true → split sep (x ++ sep ∷ r) ≡ x ∷ split sep r
split-append sep [] r e = ground arith
split-append sep (a ∷ x) r e = ground (arith, split-append sep x r)

split-join :
    (sep : ℕ) (x : Str) (xs : List Str)
    → lacks sep x ≡ true
    → all (lacks sep) xs ≡ true
    → split sep (join sep (x ∷ xs)) ≡ x ∷ xs
split-join sep x [] e f = split-name sep x e
split-join sep x (y ∷ r) e f =
    split-append sep x (join sep (y ∷ r)) e
    ∙ ap (λ ys. x ∷ ys) (split-join sep y r (ground arith) (ground arith))

-- The corpora of a query, in the order of the key.
abbrev pub involved : Str → List Str → List Str
involved corpus_id aligned = aligned ++ corpus_id ∷ []

-- No name has a colon.
abbrev pub are_names : List Str → Bool
are_names = all (lacks colon)

-- The corpora of a query can be read back from its key, if no name has a colon.
pub split-mk_key :
    (corpus_id : Str) (aligned : List Str)
    → are_names (involved corpus_id aligned) ≡ true
    → split colon (mk_key corpus_id aligned) ≡ involved corpus_id aligned
unfolding mk_key
split-mk_key corpus_id [] e = split-join colon corpus_id [] (ground arith) refl
split-mk_key corpus_id (a ∷ aligned) e =
    split-join colon a (involved corpus_id aligned) (ground arith) (ground arith)

-- Two queries with the same key have the same corpora, if no name has a colon.
pub mk_key_injective :
    (c d : Str) (cs ds : List Str)
    → are_names (involved c cs) ≡ true
    → are_names (involved d ds) ≡ true
    → mk_key c cs ≡ mk_key d ds
    → involved c cs ≡ involved d ds
mk_key_injective c d cs ds e f eq =
    sym (split-mk_key c cs e) ∙ ap (split colon) eq ∙ split-mk_key d ds f
