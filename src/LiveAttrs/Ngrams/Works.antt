-- ===== src/LiveAttrs/Ngrams/Works.antt =====
-- A database that works, and the flush of a group in it.
use cnc_masm.Prelude.{
  ℕ, ◌≡◌, refl, ap, ◌∙◌, Bool, true, false, Option, none, some, List, [], ◌∷◌, Str, StrMap, arith,
}
use cnc_masm.LiveAttrs.Ngrams.{Floats, NgRecord, get_lemma_total, get_lemma_arf}
use cnc_masm.LiveAttrs.Ngrams.Tx.{
  DbError, duplicate_row, other, Statement, insert_lemma, update_lemma, insert_sublemma,
  update_sublemma, insert_word, update_word, Outcome, ok, Tx, continue_with, run_statement,
  after_insert, after_insert_word, ignoring_error, flush_lemma, flush_sublemma, flush_sublemmas,
  flush_word, flush_words, answer,
}

abbrev pub accepts : Option DbError → Bool
accepts none = true
accepts (some (duplicate_row m)) = true
accepts (some (other m)) = false

-- The only error of an INSERT into the tables of lemmas and sublemmas is that there is such a row,
-- and an UPDATE has none.
pub record Works {F D : Type 0} (exec : Statement F → D → D × Option DbError) : Type 0 where
  pub inserts_lemma :
      (v p : Str) (c : ℕ) (a : F) (n : ℕ) (d : D)
      → accepts (exec (insert_lemma v p c a n) d).1 ≡ true
  pub updates_lemma : (c : ℕ) (a : F) (v p : Str) (d : D) → (exec (update_lemma c a v p) d).1 ≡ none
  pub inserts_sublemma :
      (v l p : Str) (c : ℕ) (d : D) → accepts (exec (insert_sublemma v l p c) d).1 ≡ true
  pub updates_sublemma : (c : ℕ) (v l p : Str) (d : D) → (exec (update_sublemma c v l p) d).1 ≡ none
  pub updates_word :
      (c : ℕ) (a : F) (v l p : Str) (d : D) → (exec (update_word c a v l p) d).1 ≡ none

pub continue-ok :
    {D A B : Type 0} (r : D × Outcome A) (a : A) (f : A → Tx D B)
    → r.1 ≡ ok a
    → continue_with r f ≡ f a r.0
continue-ok (d, e) a f h = rw h

module _ {F D : Type 0} (exec : Statement F → D → D × Option DbError) where
  abbrev Succeeds : Tx D (Unit {0}) → Type 0
  Succeeds m = (d : D) → (m d).1 ≡ ok tt

  after_insert-ok :
      (r : D × Option DbError) (k : Tx D (Unit {0}))
      → accepts r.1 ≡ true
      → Succeeds k
      → (after_insert exec r k).1 ≡ ok tt
  after_insert-ok (d, none) k a h = refl
  after_insert-ok (d, some (duplicate_row m)) k a h = h d
  after_insert-ok (d, some (other m)) k a h = ground (arith, a)

  after_insert_word-ok :
      (r : D × Option DbError) (k : Tx D (Unit {0}))
      → Succeeds k
      → (after_insert_word exec r k).1 ≡ ok tt
  after_insert_word-ok (d, none) k h = refl
  after_insert_word-ok (d, some (duplicate_row m)) k h = h d
  after_insert_word-ok (d, some (other m)) k h = refl

  answer-ok : (r : D × Option DbError) → r.1 ≡ none → (answer r).1 ≡ ok tt
  answer-ok (d, none) h = refl
  answer-ok (d, some e) h = ground (arith, h)

  module _ (works : Works exec) (fl : Floats F) (transform : Str → Str) (upcase : Str → ℕ) where
    pub flush_lemma-ok :
        (c : NgRecord F) (ws : List (NgRecord F))
        → Succeeds (flush_lemma exec fl transform upcase c ws)
    unfolding flush_lemma
    flush_lemma-ok c ws d =
        let pos = transform c.tag in
        let total = get_lemma_total ws in
        let arf = get_lemma_arf fl ws in
        after_insert-ok (exec (insert_lemma c.lemma pos total arf (upcase c.lemma)) d)
          (ignoring_error exec (update_lemma total arf c.lemma pos))
          (works.inserts_lemma c.lemma pos total arf (upcase c.lemma) d) (λ _. refl)

    pub flush_sublemmas-ok :
        (c : NgRecord F) (m : StrMap ℕ) → Succeeds (flush_sublemmas exec fl transform upcase c m)
    unfolding flush_sublemmas flush_sublemma
    flush_sublemmas-ok c [] d = refl
    flush_sublemmas-ok c ((s, n) ∷ rest) d =
        let pos = transform c.tag in
        let update = run_statement exec (update_sublemma n s c.lemma pos) in
        let r = after_insert exec (exec (insert_sublemma s c.lemma pos n) d) update in
        ap (λ z. z.1)
          (continue-ok r tt (λ _. flush_sublemmas exec fl transform upcase c rest)
            (after_insert-ok (exec (insert_sublemma s c.lemma pos n) d) update
              (works.inserts_sublemma s c.lemma pos n d)
              (λ e.
                answer-ok (exec (update_sublemma n s c.lemma pos) e)
                  (works.updates_sublemma n s c.lemma pos e))))
        ∙ flush_sublemmas-ok c rest r.0

    pub flush_words-ok :
        (ws : List (NgRecord F)) → Succeeds (flush_words exec fl transform upcase ws)
    unfolding flush_words flush_word
    flush_words-ok [] d = refl
    flush_words-ok (w ∷ rest) d =
        let pos = transform w.tag in
        let update = run_statement exec (update_word w.abs w.arf w.word w.lemma pos) in
        let r =
          after_insert_word exec (exec (insert_word w.word w.lemma w.sublemma pos w.abs w.arf) d)
            update in
        ap (λ z. z.1)
          (continue-ok r tt (λ _. flush_words exec fl transform upcase rest)
            (after_insert_word-ok (exec (insert_word w.word w.lemma w.sublemma pos w.abs w.arf) d)
              update
              (λ e.
                answer-ok (exec (update_word w.abs w.arf w.word w.lemma pos) e)
                  (works.updates_word w.abs w.arf w.word w.lemma pos e))))
        ∙ flush_words-ok rest r.0
