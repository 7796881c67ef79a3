-- ===== src/LiveAttrs/Ngrams/Tx.antt =====
-- The part of liveattrs/db/freqdb/mkfreqdb.go inside a transaction: `createTables` and `procLine`.
-- The database is a parameter: how a statement moves it, and the error it answers with.
use cnc_masm.Prelude.{
  ℕ, suc, Bool, false, ◌&&◌, Option, none, some, List, [], ◌∷◌, ◌++◌, Str, str_eq, StrMap, lookup,
  insert, if◌then◌else◌, or_else,
}
use cnc_masm.LiveAttrs.Ngrams.{Floats, NgRecord, get_lemma_total, get_lemma_arf}

-- An `error` that is not nil, with its message: MySQL's number 1062, or another.
pub data DbError : Type 0 where
  duplicate_row : Str → DbError
  other : Str → DbError

-- The statements, with their arguments in order.
pub data Statement (F : Type 0) : Type 0 where
  drop_word drop_sublemma drop_lemma create_lemma create_sublemma create_word : Statement F
  insert_lemma : (value pos : Str) (count : ℕ) (arf : F) (is_pname : ℕ) → Statement F
  update_lemma : (count : ℕ) (arf : F) (value pos : Str) → Statement F
  insert_sublemma : (value lemma pos : Str) (count : ℕ) → Statement F
  update_sublemma : (count : ℕ) (value lemma pos : Str) → Statement F
  insert_word : (value lemma sublemma pos : Str) (count : ℕ) (arf : F) → Statement F
  update_word : (count : ℕ) (arf : F) (value lemma pos : Str) → Statement F

pub data Outcome (A : Type 0) : Type 0 where
  ok : A → Outcome A
  err : DbError → Outcome A
  nil_deref : Outcome A

abbrev pub Tx : Type 0 → Type 0 → Type 0
Tx D A = D → D × Outcome A

abbrev pub continue_with : {D A B : Type 0} → D × Outcome A → (A → Tx D B) → D × Outcome B
continue_with (d, ok a) f = f a d
continue_with (d, err e) f = (d, err e)
continue_with (d, nil_deref) f = (d, nil_deref)

infixl 5 ◌>>=◌ ◌>>◌
abbrev pub ◌>>=◌ : {D A B : Type 0} → Tx D A → (A → Tx D B) → Tx D B
(m >>= f) d = continue_with (m d) f

abbrev pub ◌>>◌ : {D B : Type 0} → Tx D (Unit {0}) → Tx D B → Tx D B
m >> k = m >>= λ _. k

abbrev pub returns : {D A : Type 0} → A → Tx D A
returns a d = (d, ok a)

abbrev pub answer : {D : Type 0} → D × Option DbError → D × Outcome (Unit {0})
answer (d, none) = (d, ok tt)
answer (d, some e) = (d, err e)

-- The local variables of `run` that `procLine` takes and returns.
pub record Group (F : Type 0) : Type 0 where
  pub curr_lemma : Option (NgRecord F)
  pub words : List (NgRecord F)
  pub sublemmas : StrMap ℕ

abbrev pub empty_group : {F : Type 0} → Group F
empty_group = record { curr_lemma = none; words = []; sublemmas = [] }

-- `sublemmas[k] += 1`
unfoldable pub bump : Str → StrMap ℕ → StrMap ℕ
bump k m = insert k (suc (or_else (lookup k m) 0)) m

abbrev pub of_lemma : {F : Type 0} → NgRecord F → Option (NgRecord F) → Bool
of_lemma item none = false
of_lemma item (some c) = str_eq item.lemma c.lemma && str_eq item.tag c.tag

abbrev pub with_item : {F : Type 0} → NgRecord F → Group F → Group F
with_item item g = record g {
  words = g.words ++ item ∷ [];
  sublemmas = bump item.sublemma g.sublemmas;
}

module _ {F D : Type 0} (exec : Statement F → D → D × Option DbError) where
  abbrev pub run_statement : Statement F → Tx D (Unit {0})
  run_statement s d = answer (exec s d)

  unfoldable pub create_tables : Tx D (Unit {0})
  create_tables =
      run_statement drop_word
      >> run_statement drop_sublemma
      >> run_statement drop_lemma
      >> run_statement create_lemma
      >> run_statement create_sublemma
      >> run_statement create_word

  -- After an INSERT: the statement for a duplicate row, and what is done with its error.
  abbrev pub ignoring_error : Statement F → Tx D (Unit {0})
  ignoring_error s d = ((exec s d).0, ok tt)

  abbrev pub after_insert : D × Option DbError → Tx D (Unit {0}) → D × Outcome (Unit {0})
  after_insert (d, none) k = (d, ok tt)
  after_insert (d, some (duplicate_row m)) k = k d
  after_insert (d, some (other e)) k = (d, err (other e))

  -- The error of the INSERT of a word has no `else` branch.
  abbrev pub after_insert_word : D × Option DbError → Tx D (Unit {0}) → D × Outcome (Unit {0})
  after_insert_word (d, none) k = (d, ok tt)
  after_insert_word (d, some (duplicate_row m)) k = k d
  after_insert_word (d, some (other e)) k = (d, ok tt)

  module _ (fl : Floats F) (transform : Str → Str) (upcase : Str → ℕ) where
    unfoldable pub flush_lemma : NgRecord F → List (NgRecord F) → Tx D (Unit {0})
    flush_lemma c words d =
        let total = get_lemma_total words in
        let arf = get_lemma_arf fl words in
        after_insert (exec (insert_lemma c.lemma (transform c.tag) total arf (upcase c.lemma)) d)
          (ignoring_error (update_lemma total arf c.lemma (transform c.tag)))

    unfoldable pub flush_sublemma : NgRecord F → Str → ℕ → Tx D (Unit {0})
    flush_sublemma c subl n d =
        after_insert (exec (insert_sublemma subl c.lemma (transform c.tag) n) d)
          (run_statement (update_sublemma n subl c.lemma (transform c.tag)))

    unfoldable pub flush_sublemmas : NgRecord F → StrMap ℕ → Tx D (Unit {0})
    flush_sublemmas c [] = returns tt
    flush_sublemmas c ((subl, n) ∷ rest) = flush_sublemma c subl n >> flush_sublemmas c rest

    unfoldable pub flush_word : NgRecord F → Tx D (Unit {0})
    flush_word w d =
        after_insert_word
          (exec (insert_word w.word w.lemma w.sublemma (transform w.tag) w.abs w.arf) d)
          (run_statement (update_word w.abs w.arf w.word w.lemma (transform w.tag)))

    unfoldable pub flush_words : List (NgRecord F) → Tx D (Unit {0})
    flush_words [] = returns tt
    flush_words (w ∷ rest) = flush_word w >> flush_words rest

    -- `if len(words) > 0`
    unfoldable pub flush : Group F → Tx D (Unit {0})
    unfolding flush_lemma flush_sublemmas flush_words
    flush g = elim g.words [
      | [] ↦ returns tt
      | w ∷ ws ↦ elim g.curr_lemma [
        | none ↦ (λ d. (d, nil_deref))
        | some c ↦ flush_lemma c (w ∷ ws) >> flush_sublemmas c g.sublemmas >> flush_words (w ∷ ws)
      ]
    ]

    unfoldable pub proc_line : NgRecord F → Group F → Tx D (Group F)
    unfolding flush
    proc_line item g =
        if of_lemma item g.curr_lemma
        then returns (with_item item g)
        else (flush g >> returns (with_item item (record empty_group { curr_lemma = some item })))
