-- ===== src/Tests/Ngrams.antt =====
-- The n-gram generator over a table of lemmas that is a function, with four rows.
use cnc_masm.Prelude.{
  ℕ, ◌+◌, ◌≡◌, refl, sym, ap, true, false, Bool, Option, none, some, List, [], ◌∷◌, Str, str,
  lookup, insert, str_eq, inr, ◌/◌, is_some, if◌then◌else◌, all, arith, map,
}
use cnc_masm.LiveAttrs.Ngrams.{is_stop_ngram, Floats, NgRecord, QsAttributes}
use cnc_masm.LiveAttrs.Ngrams.Tx.{
  DbError, duplicate_row, Statement, insert_lemma, update_lemma, update_word, Outcome, ok, Group,
  bump, empty_group,
}
use cnc_masm.LiveAttrs.Ngrams.Works.{Works, accepts}
use cnc_masm.LiveAttrs.Ngrams.Conserve.{LemmaTable, names, added, count}
use cnc_masm.LiveAttrs.Ngrams.Rows.{World, scanned, process, read_rows, new_world}
use cnc_masm.LiveAttrs.Ngrams.Totals.{process-counts}
use cnc_masm.LiveAttrs.Ngrams.Sublemmas.{IsTwice, read_rows-IsTwice}
use cnc_masm.LiveAttrs.Ngrams.Generate.{Driver, Parts, generate_sync, job_updates, new_job}
use cnc_masm.LiveAttrs.Ngrams.Unclosed.{unfinished, generate-unfinished}

abbrev Store : Type 0
Store = Str → Str → Option ℕ

abbrev put : Str → Str → ℕ → Store → Store
put v p c d x y = if names v p x y then some c else d x y

abbrev raise : Str → Str → ℕ → Store → Store
raise v p c d x y = if names v p x y then added c (d x y) else d x y

abbrev insert_row : Bool → Str → Str → ℕ → Store → Store × Option DbError
insert_row true v p c d = (d, some (duplicate_row (str "Duplicate entry")))
insert_row false v p c d = (put v p c d, none)

abbrev store : Statement ℕ → Store → Store × Option DbError
store (insert_lemma v p c a n) d = insert_row (is_some (d v p)) v p c d
store (update_lemma c a v p) d = (raise v p c d, none)
store _ d = (d, none)

abbrev whole : Floats ℕ
whole = record { nought = 0; add = λ a b. a + b }

insert_row-inserted :
    (v p : Str) (c : ℕ) (o : Option ℕ) (d d' : Store)
    → insert_row (is_some o) v p c d ≡ (d', none)
    → (o ≡ none) × ((x y : Str) → d' x y ≡ (if names v p x y then some c else d x y))
insert_row-inserted v p c none d d' h = (refl, λ x y. ap (λ r. r.0 x y) (sym h))
insert_row-inserted v p c (some k) d d' h = ground (arith, ap (λ r. r.1) h)

insert_row-refused :
    (v p : Str) (c : ℕ) (o : Option ℕ) (d d' : Store) (m : Str)
    → insert_row (is_some o) v p c d ≡ (d', some (duplicate_row m))
    → (is_some o ≡ true) × ((x y : Str) → d' x y ≡ d x y)
insert_row-refused v p c none d d' m h = ground (arith, ap (λ r. r.1) h)
insert_row-refused v p c (some k) d d' m h = (refl, λ x y. ap (λ r. r.0 x y) (sym h))

store-LemmaTable : LemmaTable store
store-LemmaTable = record {
  row = λ d. d;
  inserted = λ v p c a n d d' h. insert_row-inserted v p c (d v p) d d' h;
  refused = λ v p c a n d d' m h. insert_row-refused v p c (d v p) d d' m h;
  updated = λ c a v p d h x y. refl;
  sublemma_apart = λ v l p c d x y. (refl, refl);
  word_apart = λ v l s p c a d x y. (refl, refl);
}

insert_row-accepts :
    (b : Bool) (v p : Str) (c : ℕ) (d : Store) → accepts (insert_row b v p c d).1 ≡ true
insert_row-accepts true v p c d = refl
insert_row-accepts false v p c d = refl

store-Works : Works store
store-Works = record {
  inserts_lemma = λ v p c a n d. insert_row-accepts (is_some (d v p)) v p c d;
  updates_lemma = λ c a v p d. refl;
  inserts_sublemma = λ v l p c d. refl;
  updates_sublemma = λ c v l p d. refl;
  updates_word = λ c a v l p d. refl;
}

abbrev token : Str → Str → Str → ℕ → NgRecord ℕ
token word lemma tag abs = record {
  word = word;
  lemma = lemma;
  sublemma = lemma;
  tag = tag;
  abs = abs;
  arf = abs;
}

-- The last row is of the first lemma, which the first flush has put into the table.
abbrev four_rows : List (NgRecord ℕ)
four_rows =
    token (str "dog") (str "dog") (str "NNIS") 4
    ∷ token (str "dogs") (str "dog") (str "NNIS") 3
    ∷ token (str "...") (str "...") (str "Z") 9
    ∷ token (str "runs") (str "run") (str "VB") 2
    ∷ token (str "dog's") (str "dog") (str "NNXX") 5
    ∷ []

abbrev first_letter : Str → Str
first_letter [] = []
first_letter (b ∷ s) = b ∷ []

abbrev no_rows : Store
no_rows x y = none

abbrev is_dots : Str → Bool
is_dots = str_eq (str "...")

process-counts_example :
    let r =
      process store whole first_letter
        (λ w. 0)
        is_dots
        (λ n. n)
        (λ n d. d)
        (map scanned four_rows)
        (new_world no_rows) in
    (r.1 ≡ ok tt) × (count store store-LemmaTable r.0.db (str "dog") (str "N") ≡ 12)
unfolding store-LemmaTable is_stop_ngram str_eq
process-counts_example =
    process-counts store store-LemmaTable store-Works whole first_letter (λ w. 0) is_dots (λ n. n)
      (str "dog") (str "N") (λ n d. d) four_rows (new_world no_rows) (λ n d. refl)

abbrev read_two : World Store × Outcome (Group ℕ × ℕ)
read_two =
    read_rows store whole first_letter (λ w. 0) is_dots (λ n. n)
      (map scanned (
        token (str "dog") (str "dog") (str "N") 4
        ∷ token (str "dogs") (str "dog") (str "N") 3
        ∷ []))
      empty_group 0 (new_world no_rows)

abbrev two_words : Group ℕ
two_words = record {
  curr_lemma = some (token (str "dog") (str "dog") (str "N") 4);
  words =
      token (str "dog") (str "dog") (str "N") 4 ∷ token (str "dogs") (str "dog") (str "N") 3 ∷ [];
  sublemmas = (str "dog", 4) ∷ [];
}

two_words_read : read_two.1 ≡ ok (two_words, 2)
unfolding read_rows is_stop_ngram str_eq bump insert lookup
two_words_read = refl

read_rows-IsTwice_example : IsTwice two_words
unfolding lookup
read_rows-IsTwice_example =
    read_rows-IsTwice store whole first_letter (λ w. 0) is_dots (λ n. n)
      (map scanned (
        token (str "dog") (str "dog") (str "N") 4
        ∷ token (str "dogs") (str "dog") (str "N") 3
        ∷ []))
      empty_group two_words 0 2 (new_world no_rows) (λ s. refl) two_words_read

abbrev an_update : Statement ℕ
an_update = update_word 3 1 (str "what?") (str "what") (str "P")

abbrev driver : Driver ℕ Store ℕ
driver = record {
  exec = store;
  count_lines = λ q d. inr 5;
  time_sums = λ n d. inr (some 100, some 5);
  query = λ q d. inr (map scanned four_rows);
  add_proc_time_entry = λ n m d. d;
  begin_ = λ d. (d, none);
  commit = λ d. (d, none);
  rollback = λ d. no_rows;
}

abbrev parts : Parts ℕ ℕ
parts = record {
  floats = whole;
  transform = first_letter;
  upcase_regex = λ w. false;
  stop_words_regex = is_dots;
  speed = λ n. n;
  quotient = λ a b. a / b;
}

abbrev columns_of : QsAttributes
columns_of = record { word = 0; lemma = 2; sublemma = 3; tag = 4 }

generate-unfinished_example :
    let w = (generate_sync driver parts columns_of (str "syn") no_rows).0 in
    all unfinished (
      job_updates {V = ℕ} (λ i. 100 + i) w.closed 0 (new_job 99 (str "4f2") (str "syn2020")) w.sent)
    ≡ true
generate-unfinished_example =
    generate-unfinished ℕ driver parts columns_of (str "syn") (λ i. 100 + i) 99 (str "4f2")
      (str "syn2020") no_rows
