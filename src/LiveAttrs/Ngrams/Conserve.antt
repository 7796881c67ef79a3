-- ===== src/LiveAttrs/Ngrams/Conserve.antt =====
-- The table of lemmas, as a map from lemma and position to count, under the statements of one flush.
use cnc_masm.Prelude.{
  ℕ, ◌+◌, ◌≡◌, refl, sym, ap, ◌∙◌, Bool, true, false, ◌&&◌, Option, none, some, List, [], ◌∷◌, Str,
  StrMap, str_eq, str_eq_iff, subst, if◌then◌else◌, or_else, is_some, arith,
}
use cnc_masm.LiveAttrs.Ngrams.{Floats, NgRecord, get_lemma_total, get_lemma_arf}
use cnc_masm.LiveAttrs.Ngrams.Tx.{
  DbError, duplicate_row, other, Statement, insert_lemma, update_lemma, insert_sublemma,
  update_sublemma, insert_word, update_word, Outcome, ok, err, nil_deref, Tx, continue_with, answer,
  after_insert_word, run_statement, flush_sublemma, flush_sublemmas, flush_word, flush_words,
  after_insert, ignoring_error, flush_lemma,
}

abbrev pub names : Str → Str → Str → Str → Bool
names v p x y = str_eq v x && str_eq p y

abbrev pub added : ℕ → Option ℕ → Option ℕ
added c none = none
added c (some n) = some (n + c)

-- What MySQL does with the statements on the rows of the table of lemmas: an INSERT adds the row,
-- unless there is one with its primary key; an UPDATE changes the rows that it names; and the
-- statements on other tables leave this one alone.
pub record LemmaTable {F D : Type 0} (exec : Statement F → D → D × Option DbError) : Type 0 where
  pub row : D → Str → Str → Option ℕ
  pub inserted :
      (v p : Str) (c : ℕ) (a : F) (n : ℕ) (d d' : D)
      → exec (insert_lemma v p c a n) d ≡ (d', none)
      → (row d v p ≡ none)
        × ((x y : Str) → row d' x y ≡ (if names v p x y then some c else row d x y))
  pub refused :
      (v p : Str) (c : ℕ) (a : F) (n : ℕ) (d d' : D) (m : Str)
      → exec (insert_lemma v p c a n) d ≡ (d', some (duplicate_row m))
      → (is_some (row d v p) ≡ true) × ((x y : Str) → row d' x y ≡ row d x y)
  pub updated :
      (c : ℕ) (a : F) (v p : Str) (d : D)
      → (exec (update_lemma c a v p) d).1 ≡ none
      → (x y : Str)
      → row (exec (update_lemma c a v p) d).0 x y
        ≡ (if names v p x y then added c (row d x y) else row d x y)
  pub sublemma_apart :
      (v l p : Str) (c : ℕ) (d : D) (x y : Str)
      → (row (exec (insert_sublemma v l p c) d).0 x y ≡ row d x y)
        × (row (exec (update_sublemma c v l p) d).0 x y ≡ row d x y)
  pub word_apart :
      (v l s p : Str) (c : ℕ) (a : F) (d : D) (x y : Str)
      → (row (exec (insert_word v l s p c a) d).0 x y ≡ row d x y)
        × (row (exec (update_word c a v l p) d).0 x y ≡ row d x y)

-- An UPDATE of a lemma, the error of which the code does not look at, has none.
abbrev pub UpdatesLemmas : {F D : Type 0} → (Statement F → D → D × Option DbError) → Type 0
UpdatesLemmas {F} {D} exec =
    (c : ℕ) (a : F) (v p : Str) (d : D) → (exec (update_lemma c a v p) d).1 ≡ none

count_of_insert :
    (b : Bool) (c : ℕ) (r r' : Option ℕ)
    → r' ≡ (if b then some c else r)
    → (b ≡ true → r ≡ none)
    → or_else r' 0 ≡ or_else r 0 + (if b then c else 0)
count_of_insert true c r r' e h = ground (arith, e, h refl)
count_of_insert false c r r' e h = ground (arith, e)

count_of_update :
    (b : Bool) (c : ℕ) (r r' : Option ℕ)
    → r' ≡ (if b then added c r else r)
    → (b ≡ true → is_some r ≡ true)
    → or_else r' 0 ≡ or_else r 0 + (if b then c else 0)
count_of_update true c none r' e h = ground (arith, h refl)
count_of_update true c (some n) r' e h = rw e
count_of_update false c r r' e h = ground (arith, e)

module _ {F D : Type 0} (exec : Statement F → D → D × Option DbError)
    (table : LemmaTable exec) where
  abbrev pub count : D → Str → Str → ℕ
  count d x y = or_else (table.row d x y) 0

  row-names : (v p x y : Str) (d : D) → names v p x y ≡ true → table.row d v p ≡ table.row d x y
  row-names v p x y d h = ground (arith, str_eq_iff v x, str_eq_iff p y)

  -- Whatever an INSERT and the UPDATE after it answer, if both are of the same count and no error
  -- is left, then that count is added.
  after_insert-adds :
      (v p : Str) (c : ℕ) (a : F) (n : ℕ) (d d' : D) (x y : Str) (r : D × Option DbError)
      → UpdatesLemmas exec
      → exec (insert_lemma v p c a n) d ≡ r
      → after_insert exec r (ignoring_error exec (update_lemma c a v p)) ≡ (d', ok tt)
      → count d' x y ≡ count d x y + (if names v p x y then c else 0)
  after_insert-adds v p c a n d d' x y (e, none) u h k =
      let law = table.inserted v p c a n d e h in
      subst (λ z. count z x y ≡ count d x y + (if names v p x y then c else 0)) (ap (λ z. z.0) k)
        (count_of_insert (names v p x y) c (table.row d x y) (table.row e x y) (law.1 x y)
          (λ b. sym (row-names v p x y d b) ∙ law.0))
  after_insert-adds v p c a n d d' x y (e, some (duplicate_row m)) u h k =
      let law = table.refused v p c a n d e m h in
      subst (λ z. count z x y ≡ count d x y + (if names v p x y then c else 0)) (ap (λ z. z.0) k)
        (count_of_update (names v p x y) c (table.row d x y)
          (table.row (exec (update_lemma c a v p) e).0 x y)
          (table.updated c a v p e (u c a v p e) x y
            ∙ ap (λ z. if names v p x y then added c z else z) (law.1 x y))
          (λ b. ap is_some (sym (row-names v p x y d b)) ∙ law.0))
  after_insert-adds v p c a n d d' x y (e, some (other m)) u h k = ground (arith, k)

  -- A statement on the other tables, and what the code does after it, leave a row as it is.
  module _ (x y : Str) where
    abbrev Keeps : {A : Type 0} → Tx D A → Type 0
    Keeps m = (d : D) → table.row (m d).0 x y ≡ table.row d x y

    continue-Keeps :
        {A B : Type 0} (r : D × Outcome A) (f : A → Tx D B)
        → ((a : A) → Keeps (f a))
        → table.row (continue_with r f).0 x y ≡ table.row r.0 x y
    continue-Keeps (d, ok a) f h = h a d
    continue-Keeps (d, err e) f h = refl
    continue-Keeps (d, nil_deref) f h = refl

    after_insert-Keeps :
        (r : D × Option DbError) (k : Tx D (Unit {0}))
        → Keeps k
        → table.row (after_insert exec r k).0 x y ≡ table.row r.0 x y
    after_insert-Keeps (d, none) k h = refl
    after_insert-Keeps (d, some (duplicate_row m)) k h = h d
    after_insert-Keeps (d, some (other m)) k h = refl

    after_insert_word-Keeps :
        (r : D × Option DbError) (k : Tx D (Unit {0}))
        → Keeps k
        → table.row (after_insert_word exec r k).0 x y ≡ table.row r.0 x y
    after_insert_word-Keeps (d, none) k h = refl
    after_insert_word-Keeps (d, some (duplicate_row m)) k h = h d
    after_insert_word-Keeps (d, some (other m)) k h = refl

    answer-state : (r : D × Option DbError) → (answer r).0 ≡ r.0
    answer-state (d, none) = refl
    answer-state (d, some e) = refl

    module _ (fl : Floats F) (transform : Str → Str) (upcase : Str → ℕ) where
      flush_sublemma-Keeps :
          (c : NgRecord F) (s : Str) (n : ℕ) → Keeps (flush_sublemma exec fl transform upcase c s n)
      unfolding flush_sublemma
      flush_sublemma-Keeps c s n d =
          let pos = transform c.tag in
          after_insert-Keeps (exec (insert_sublemma s c.lemma pos n) d)
            (run_statement exec (update_sublemma n s c.lemma pos))
            (λ e.
              ap (λ z. table.row z x y) (answer-state (exec (update_sublemma n s c.lemma pos) e))
              ∙ (table.sublemma_apart s c.lemma pos n e x y).1)
          ∙ (table.sublemma_apart s c.lemma pos n d x y).0

      pub flush_sublemmas-Keeps :
          (c : NgRecord F) (m : StrMap ℕ) → Keeps (flush_sublemmas exec fl transform upcase c m)
      unfolding flush_sublemmas
      flush_sublemmas-Keeps c [] d = refl
      flush_sublemmas-Keeps c ((s, n) ∷ rest) d =
          continue-Keeps (flush_sublemma exec fl transform upcase c s n d)
            (λ _. flush_sublemmas exec fl transform upcase c rest)
            (λ _. flush_sublemmas-Keeps c rest)
          ∙ flush_sublemma-Keeps c s n d

      flush_word-Keeps : (w : NgRecord F) → Keeps (flush_word exec fl transform upcase w)
      unfolding flush_word
      flush_word-Keeps w d =
          let pos = transform w.tag in
          after_insert_word-Keeps (exec (insert_word w.word w.lemma w.sublemma pos w.abs w.arf) d)
            (run_statement exec (update_word w.abs w.arf w.word w.lemma pos))
            (λ e.
              ap (λ z. table.row z x y)
                (answer-state (exec (update_word w.abs w.arf w.word w.lemma pos) e))
              ∙ (table.word_apart w.word w.lemma w.sublemma pos w.abs w.arf e x y).1)
          ∙ (table.word_apart w.word w.lemma w.sublemma pos w.abs w.arf d x y).0

      pub flush_words-Keeps :
          (ws : List (NgRecord F)) → Keeps (flush_words exec fl transform upcase ws)
      unfolding flush_words
      flush_words-Keeps [] d = refl
      flush_words-Keeps (w ∷ rest) d =
          continue-Keeps (flush_word exec fl transform upcase w d)
            (λ _. flush_words exec fl transform upcase rest) (λ _. flush_words-Keeps rest)
          ∙ flush_word-Keeps w d

  module _ (fl : Floats F) (transform : Str → Str) (upcase : Str → ℕ) where
    -- A flush of the lemma that is left without an error adds the total of the words.
    pub flush_lemma-adds :
        (c : NgRecord F) (ws : List (NgRecord F)) (d d' : D) (x y : Str)
        → UpdatesLemmas exec
        → flush_lemma exec fl transform upcase c ws d ≡ (d', ok tt)
        → count d' x y
          ≡ count d x y + (if names c.lemma (transform c.tag) x y then get_lemma_total ws else 0)
    unfolding flush_lemma
    flush_lemma-adds c ws d d' x y u h =
        let total = get_lemma_total ws in
        let arf = get_lemma_arf fl ws in
        after_insert-adds c.lemma (transform c.tag) total arf (upcase c.lemma) d d' x y
          (exec (insert_lemma c.lemma (transform c.tag) total arf (upcase c.lemma)) d) u refl h
