-- ===== src/LiveAttrs/Ngrams/Lemmas.antt =====
-- The counts in the table of lemmas after all the rows.
use cnc_masm.Prelude.{
  ℕ, ◌+◌, ◌≡◌, ◌≢◌, inl, inr, refl, sym, ap, ◌∙◌, true, false, Option, none, some, List, [], ◌∷◌,
  ◌++◌, Str, str_eq_iff, StrMap, arith, subst, if◌then◌else◌, All, Bool-cases, or_else,
}
use cnc_masm.LiveAttrs.Ngrams.{Floats, NgRecord, get_lemma_total}
use cnc_masm.LiveAttrs.Ngrams.Tx.{
  DbError, Statement, Outcome, ok, Tx, continue_with, returns, Group, flush, proc_line, flush_lemma,
  flush_sublemmas, flush_words, with_item, of_lemma,
}
use cnc_masm.LiveAttrs.Ngrams.Works.{
  Works, continue-ok, flush_lemma-ok, flush_sublemmas-ok, flush_words-ok,
}
use cnc_masm.LiveAttrs.Ngrams.Conserve.{
  LemmaTable, count, names, flush_lemma-adds, flush_sublemmas-Keeps, flush_words-Keeps,
}

-- The occurrences that the records of a lemma and a position have.
abbrev pub weight : {F : Type 0} → (Str → Str) → Str → Str → List (NgRecord F) → ℕ
weight transform x y [] = 0
weight transform x y (r ∷ rows) =
    let rest = weight transform x y rows in
    if names r.lemma (transform r.tag) x y then r.abs + rest else rest

abbrev pub SameLemma : {F : Type 0} → NgRecord F → NgRecord F → Type 0
SameLemma c w = (w.lemma ≡ c.lemma) × (w.tag ≡ c.tag)

-- No word is kept without a current lemma, which the words kept share, and the lemma is not empty.
abbrev pub Matches : {F : Type 0} → List (NgRecord F) → Option (NgRecord F) → Type 0
Matches ws none = ws ≡ []
Matches ws (some c) = (c.lemma ≢ []) × All (SameLemma c) ws

abbrev pub IsGroup : {F : Type 0} → Group F → Type 0
IsGroup g = Matches g.words g.curr_lemma

module _ {F : Type 0} (transform : Str → Str) (x y : Str) where
  weight-append :
      (ws : List (NgRecord F)) (r : NgRecord F)
      → weight transform x y (ws ++ r ∷ [])
        ≡ weight transform x y ws + weight transform x y (r ∷ [])
  weight-append [] r = ground arith
  weight-append (w ∷ ws) r = ground (arith, weight-append ws r)

  weight-same :
      (c : NgRecord F) (ws : List (NgRecord F))
      → All (SameLemma c) ws
      → weight transform x y ws
        ≡ (if names c.lemma (transform c.tag) x y then get_lemma_total ws else 0)
  unfolding get_lemma_total
  weight-same c [] h = ground arith
  weight-same c (w ∷ ws) ((e, t), h) = rw (e, t, weight-same c ws h) (ground arith)

module _ {F : Type 0} where
  All-append :
      (c r : NgRecord F) (ws : List (NgRecord F))
      → All (SameLemma c) ws
      → SameLemma c r
      → All (SameLemma c) (ws ++ r ∷ [])
  All-append c r [] h s = (s, tt)
  All-append c r (w ∷ ws) (a, h) s = (a, All-append c r ws h s)

  with_item-Matches :
      (item : NgRecord F) (ws : List (NgRecord F)) (o : Option (NgRecord F))
      → Matches ws o
      → of_lemma item o ≡ true
      → Matches (ws ++ item ∷ []) o
  with_item-Matches item ws none h e = ground (arith, e)
  with_item-Matches item ws (some c) (ne, h) e = (
    ne,
    All-append c item ws h
        (ground (arith, e, str_eq_iff item.lemma c.lemma, str_eq_iff item.tag c.tag)),
  )

-- What an operation gives: it succeeds, and the counts grow by `n`.
module _ {F D : Type 0} (exec : Statement F → D → D × Option DbError) (table : LemmaTable exec)
    (works : Works exec) (fl : Floats F) (transform : Str → Str) (upcase : Str → ℕ)
    (x y : Str) where
  flush_parts :
      (w : NgRecord F) (ws : List (NgRecord F)) (c : NgRecord F) (m : StrMap ℕ) (d : D)
      → All (SameLemma c) (w ∷ ws)
      → let r =
          continue_with
            (continue_with
              (flush_lemma exec fl transform upcase c (w ∷ ws) d)
              (λ _. flush_sublemmas exec fl transform upcase c m))
            (λ _. flush_words exec fl transform upcase (w ∷ ws)) in
        (r.1 ≡ ok tt)
        × (count exec table r.0 x y ≡ count exec table d x y + weight transform x y (w ∷ ws))
  flush_parts w ws c m d h =
      let subls : Unit {0} → Tx D (Unit {0}) = λ _. flush_sublemmas exec fl transform upcase c m in
      let words : Unit {0} → Tx D (Unit {0}) = λ _. flush_words exec fl transform upcase (w ∷ ws) in
      let rl = flush_lemma exec fl transform upcase c (w ∷ ws) d in
      let rs = flush_sublemmas exec fl transform upcase c m rl.0 in
      let rw_ = flush_words exec fl transform upcase (w ∷ ws) rs.0 in
      let lemma_ok = flush_lemma-ok exec works fl transform upcase c (w ∷ ws) d in
      let subls_ok = flush_sublemmas-ok exec works fl transform upcase c m rl.0 in
      subst
        (λ r.
          (r.1 ≡ ok tt)
          × (count exec table r.0 x y ≡ count exec table d x y + weight transform x y (w ∷ ws)))
        (sym (
          ap (λ r. continue_with r words) (continue-ok rl tt subls lemma_ok)
          ∙ continue-ok rs tt words subls_ok))
        (
          flush_words-ok exec works fl transform upcase (w ∷ ws) rs.0,
          ap (λ o. or_else o 0)
                (flush_words-Keeps exec table x y fl transform upcase (w ∷ ws) rs.0
                  ∙ flush_sublemmas-Keeps exec table x y fl transform upcase c m rl.0)
              ∙ flush_lemma-adds exec table fl transform upcase c (w ∷ ws) d rl.0 x y
                  works.updates_lemma (ap (λ z. (rl.0, z)) lemma_ok)
              ∙ ap (λ n. count exec table d x y + n) (sym (weight-same transform x y c (w ∷ ws) h)),
        )

  pub flush-counts :
      (ws : List (NgRecord F)) (o : Option (NgRecord F)) (m : StrMap ℕ) (d : D)
      → Matches ws o
      → let r =
          flush exec fl transform upcase (record { words = ws; curr_lemma = o; sublemmas = m }) d in
        (r.1 ≡ ok tt)
        × (count exec table r.0 x y ≡ count exec table d x y + weight transform x y ws)
  unfolding flush
  flush-counts [] o m d h = (refl, ground arith)
  flush-counts (w ∷ ws) none m d h = ground (arith, h)
  flush-counts (w ∷ ws) (some c) m d h = flush_parts w ws c m d h.1

  abbrev new_group : NgRecord F → Group F
  new_group item = with_item item (record { curr_lemma = some item; words = []; sublemmas = [] })

  -- A record of another lemma: the flush, and a new group.
  pub proc_line-other :
      (item : NgRecord F) (g : Group F) (d : D)
      → IsGroup g
      → of_lemma item g.curr_lemma ≡ false
      → (proc_line exec fl transform upcase item g d).1 ≡ ok (new_group item)
        × (count exec table (proc_line exec fl transform upcase item g d).0 x y
            ≡ count exec table d x y + weight transform x y g.words)
  unfolding proc_line
  proc_line-other item g d h e =
      let r = flush exec fl transform upcase g d in
      let f : Unit {0} → Tx D (Group F) = λ _. returns (new_group item) in
      let (done, counts) = flush-counts g.words g.curr_lemma g.sublemmas d h in
      rw (e, continue-ok r tt f done) (refl, counts)

  proc_line-same :
      (item : NgRecord F) (g : Group F) (d : D)
      → of_lemma item g.curr_lemma ≡ true
      → proc_line exec fl transform upcase item g d ≡ (d, ok (with_item item g))
  unfolding proc_line
  proc_line-same item g d e = rw e refl

  -- The record ends up in the group, and the occurrences of the words that leave it in the table.
  abbrev pub Grows : D × Outcome (Group F) → ℕ → Type 0
  Grows r n =
      (g : Group F) × (r.1 ≡ ok g)
      × IsGroup g
      × (count exec table r.0 x y + weight transform x y g.words ≡ n)

  pub proc_line-Grows :
      (item : NgRecord F) (g : Group F) (d : D)
      → IsGroup g
      → item.lemma ≢ []
      → Grows
          (proc_line exec fl transform upcase item g d)
          (count exec table d x y + weight transform x y g.words + weight transform x y (item ∷ []))
  proc_line-Grows item g d h ne = elim (Bool-cases (of_lemma item g.curr_lemma)) [
    | inl same ↦ (
      with_item item g,
      ap (λ r. r.1) (proc_line-same item g d same),
      with_item-Matches item g.words g.curr_lemma h same,
      omega (
        arith,
        ap (λ r. count exec table r.0 x y) (proc_line-same item g d same),
        weight-append transform x y g.words item,
      ),
    )
    | inr differs ↦ (
      new_group item,
      (proc_line-other item g d h differs).0,
      (ne, ((refl, refl), tt)),
      ap (λ n. n + weight transform x y (item ∷ [])) (proc_line-other item g d h differs).1,
    )
  ]
