-- ===== src/LiveAttrs/Ngrams/Sublemmas.antt =====
-- The numbers that are kept with the sublemmas of a group: both `procLine` and the loop count.
use cnc_masm.Prelude.{
  ℕ, suc, ◌+◌, ◌*◌, ◌≡◌, ◌⊎◌, inl, inr, refl, sym, ap, ◌∙◌, Bool, true, false, Option, some, List,
  [], ◌∷◌, ◌++◌, Str, str_eq, str_eq_iff, StrMap, lookup, lookup-insert, arith, if◌then◌else◌,
  or_else, tally, Bool-cases, subst,
}
use cnc_masm.LiveAttrs.Ngrams.{Floats, NgRecord, is_stop_ngram}
use cnc_masm.LiveAttrs.Ngrams.Tx.{
  DbError, Statement, Outcome, ok, err, nil_deref, Tx, continue_with, returns, ◌>>◌, ◌>>=◌, Group,
  empty_group, bump, proc_line, flush, of_lemma, with_item,
}
use cnc_masm.LiveAttrs.Ngrams.Rows.{
  World, Row, scanned, scan_error, read_record, read_rows, report, put_db,
}

-- The number kept with a sublemma is twice the number of the words kept that have it.
abbrev pub IsTwice : {F : Type 0} → Group F → Type 0
IsTwice g =
    (s : Str) → or_else (lookup s g.sublemmas) 0 ≡ 2 * tally (λ w. str_eq w.sublemma s) g.words

bump-adds :
    (k s : Str) (m : StrMap ℕ)
    → or_else (lookup s (bump k m)) 0 ≡ or_else (lookup s m) 0 + (if str_eq k s then 1 else 0)
unfolding bump
bump-adds k s m = ground (arith, lookup-insert k s (suc (or_else (lookup k m) 0)) m, str_eq_iff k s)

tally-append :
    {A : Type 0} (p : A → Bool) (xs : List A) (x : A)
    → tally p (xs ++ x ∷ []) ≡ tally p xs + (if p x then 1 else 0)
tally-append p [] x = ground arith
tally-append p (y ∷ xs) x = ground (arith, tally-append p xs x)

continue-inv :
    {D A B : Type 0} (r : D × Outcome A) (f : A → Tx D B) (b : B)
    → (continue_with r f).1 ≡ ok b
    → (a : A) × (r.1 ≡ ok a) × ((f a r.0).1 ≡ ok b)
continue-inv (d, ok a) f b h = (a, refl, h)
continue-inv (d, err e) f b h = ground (arith, h)
continue-inv (d, nil_deref) f b h = ground (arith, h)

put_db-outcome : {D A : Type 0} (w : World D) (r : D × Outcome A) → (put_db w r).1 ≡ r.1
put_db-outcome w (d, o) = refl

module _ {F : Type 0} where
  abbrev twice_with : NgRecord F → Group F → Group F
  twice_with item g =
      let g' = with_item item g in record g' { sublemmas = bump item.sublemma g'.sublemmas }

  twice_with-IsTwice : (item : NgRecord F) (g : Group F) → IsTwice g → IsTwice (twice_with item g)
  twice_with-IsTwice item g h s = omega (
    arith,
    h s,
    bump-adds item.sublemma s g.sublemmas,
    bump-adds item.sublemma s (bump item.sublemma g.sublemmas),
    tally-append (λ w. str_eq w.sublemma s) g.words item,
  )

  fresh-IsTwice :
      (item : NgRecord F) → IsTwice (record (empty_group {F = F}) { curr_lemma = some item })
  unfolding lookup
  fresh-IsTwice item s = refl

ok-inj : {A : Type 0} (a b : A) → ok a ≡ ok b → a ≡ b
ok-inj a b h = ground (arith, h)

choose :
    {D A : Type 0} (b : Bool) (m : Tx D (Unit {0})) (x y z : A) (d : D)
    → ((if b then returns x else (m >> returns y)) d).1 ≡ ok z
    → (x ≡ z) ⊎ (y ≡ z)
choose true m x y z d h = inl (ok-inj x z h)
choose false m x y z d h = inr (ok-inj y z (continue-inv (m d) (λ _. returns y) z h).2)

module _ {F D : Type 0} (exec : Statement F → D → D × Option DbError) (fl : Floats F)
    (transform : Str → Str) (upcase : Str → ℕ) (stop : Str → Bool) (speed : ℕ → ℕ) where
  proc_line-group :
      (item : NgRecord F) (g g' : Group F) (d : D)
      → (proc_line exec fl transform upcase item g d).1 ≡ ok g'
      → (with_item item g ≡ g')
        ⊎ (with_item item (record empty_group { curr_lemma = some item }) ≡ g')
  unfolding proc_line
  proc_line-group item g g' d h =
      choose (of_lemma item g.curr_lemma) (flush exec fl transform upcase g) (with_item item g)
        (with_item item (record empty_group { curr_lemma = some item })) g' d h

  read_record-IsTwice :
      (item : NgRecord F) (g g' : Group F) (n : ℕ) (w : World D)
      → IsTwice g
      → (read_record exec fl transform upcase stop speed item g n w).1 ≡ ok g'
      → IsTwice g'
  unfolding read_record
  read_record-IsTwice item g g' n w h e =
      let pl = proc_line exec fl transform upcase item g w.db in
      let next : Group F → Group F = λ k. record k { sublemmas = bump item.sublemma k.sublemmas } in
      let rest : Group F → Unit {0} → Tx (World D) (Group F) = λ k _. returns (next k) in
      let f : Group F → Tx (World D) (Group F) =
        λ k w'. continue_with (report speed (suc n) w') (rest k) in
      let (k, got, e1) = continue-inv (put_db w pl) f g' e in
      let (u, sent, e2) = continue-inv (report speed (suc n) (put_db w pl).0) (rest k) g' e1 in
      subst IsTwice (ok-inj (next k) g' e2)
        (elim (proc_line-group item g k w.db (sym (put_db-outcome w pl) ∙ got)) [
          | inl same ↦ subst (λ k'. IsTwice (next k')) same (twice_with-IsTwice item g h)
          | inr other ↦
              subst (λ k'. IsTwice (next k')) other
                (twice_with-IsTwice item (record empty_group { curr_lemma = some item })
                  (fresh-IsTwice item))
        ])

  -- If the loop starts with a group in which the number kept with each sublemma is twice the number
  -- of the words kept that have it, it also ends with such a group, unless it ends with an error.
  pub read_rows-IsTwice :
      (rows : List (Row F)) (g g' : Group F) (n k : ℕ) (w : World D)
      → IsTwice g
      → (read_rows exec fl transform upcase stop speed rows g n w).1 ≡ ok (g', k)
      → IsTwice g'
  unfolding read_rows
  read_rows-IsTwice [] g g' n k w h e = subst IsTwice (ap (λ r. r.0) (ok-inj (g, n) (g', k) e)) h
  read_rows-IsTwice (scan_error x ∷ rows) g g' n k w h e = ground (arith, e)
  read_rows-IsTwice (scanned r ∷ rows) g g' n k w h e =
      let skip = read_rows exec fl transform upcase stop speed rows g n in
      let step = read_record exec fl transform upcase stop speed r g n in
      let next : Group F → Tx (World D) (Group F × ℕ) =
        λ g1. read_rows exec fl transform upcase stop speed rows g1 (suc n) in
      let taken = λ (b : Bool). ((if b then skip else (step >>= next)) w).1 ≡ ok (g', k) in
      elim (Bool-cases (is_stop_ngram stop r.lemma)) [
        | inl stops ↦ read_rows-IsTwice rows g g' n k w h (subst taken stops e)
        | inr goes ↦
            let (g1, done, last) = continue-inv (step w) next (g', k) (subst taken goes e) in
            read_rows-IsTwice rows g1 g' (suc n) k (step w).0
              (read_record-IsTwice r g g1 n w h done) last
      ]
