-- ===== src/LiveAttrs/Ngrams/Statements.antt =====
-- liveattrs/db/freqdb/mkfreqdb.go: the texts of the statements, with a line break and the tabs
-- after it where the code has them, and their arguments.
use cnc_masm.Prelude.{ℕ, zero, suc, ◌+◌, ◌≡◌, ap, ◌∙◌, List, [], ◌∷◌, ◌++◌, Str, str, length, arith}
use cnc_masm.LiveAttrs.Sql.{marks}
use cnc_masm.LiveAttrs.Sql.Marks.{marks-append}
use cnc_masm.LiveAttrs.Ngrams.Tx.{
  Statement, drop_word, drop_sublemma, drop_lemma, create_lemma, create_sublemma, create_word,
  insert_lemma, update_lemma, insert_sublemma, update_sublemma, insert_word, update_word,
}

pub data Arg (F : Type 0) : Type 0 where
  text : Str → Arg F
  number : ℕ → Arg F
  float : F → Arg F

abbrev pub tabs : ℕ → Str → Str
tabs zero s = s
tabs (suc n) s = 9 ∷ tabs n s

-- A line break, `n` tabs and the text.
abbrev pub next_line : ℕ → Str → Str
next_line n s = 10 ∷ tabs n s

abbrev sublemma_columns : Str
sublemma_columns =
    str "_sublemma (value VARCHAR(80), lemma VARCHAR(80), pos VARCHAR(80), count INTEGER,"
    ++ (next_line 3 (str "PRIMARY KEY (value, lemma, pos),")
        ++ next_line 3 (str "FOREIGN KEY (lemma, pos) REFERENCES "))

abbrev word_columns : Str
word_columns =
    str "_word (value VARCHAR(80), lemma VARCHAR(80), sublemma VARCHAR(80), pos VARCHAR(80),"
    ++ (next_line 3 (str "count INTEGER, arf FLOAT, PRIMARY KEY (value, lemma, sublemma, pos),")
        ++ next_line 3 (str "FOREIGN KEY (sublemma, lemma, pos) REFERENCES "))

around : (grouped s t : Str) → marks grouped ≡ 0 → marks (s ++ (grouped ++ t)) ≡ marks s + marks t
around grouped s t h =
    marks-append s (grouped ++ t)
    ∙ ap (λ n. marks s + n) (marks-append grouped t)
    ∙ omega (arith, h)

module _ {F : Type 0} (grouped : Str) where
  unfoldable pub sql_text : Statement F → Str
  sql_text drop_word = str "DROP TABLE IF EXISTS " ++ (grouped ++ str "_word")
  sql_text drop_sublemma = str "DROP TABLE IF EXISTS " ++ (grouped ++ str "_sublemma")
  sql_text drop_lemma = str "DROP TABLE IF EXISTS " ++ (grouped ++ str "_lemma")
  sql_text create_lemma =
      str "CREATE TABLE "
      ++ (grouped
          ++ (str "_lemma (value VARCHAR(80), pos VARCHAR(80), count INTEGER, arf FLOAT,"
              ++ next_line 3
                  (str "is_pname TINYINT, PRIMARY KEY(value, pos)) COLLATE utf8mb4_bin")))
  sql_text create_sublemma =
      str "CREATE TABLE "
      ++ (grouped
          ++ (sublemma_columns ++ (grouped ++ str "_lemma(value, pos)) COLLATE utf8mb4_bin")))
  sql_text create_word =
      str "CREATE TABLE "
      ++ (grouped
          ++ (word_columns ++ (grouped ++ str "_sublemma(value, lemma, pos)) COLLATE utf8mb4_bin")))
  sql_text (insert_lemma v p c a n) =
      str "INSERT INTO "
      ++ (grouped ++ str "_lemma (value, pos, count, arf, is_pname) VALUES (?, ?, ?, ?, ?)")
  sql_text (update_lemma c a v p) =
      str "UPDATE "
      ++ (grouped
          ++ (str "_lemma"
              ++ (next_line 5 (str "SET count = count + ?, arf = arf + ?")
                  ++ next_line 5 (str "WHERE value = ? AND pos = ?"))))
  sql_text (insert_sublemma v l p c) =
      str "INSERT INTO "
      ++ (grouped ++ str "_sublemma (value, lemma, pos, count) VALUES (?, ?, ?, ?)")
  sql_text (update_sublemma c v l p) =
      str "UPDATE "
      ++ (grouped
          ++ (str "_sublemma SET count = count + ?"
              ++ next_line 6 (str "WHERE value = ? AND lemma = ? AND pos = ?")))
  sql_text (insert_word v l s p c a) =
      str "INSERT INTO "
      ++ (grouped
          ++ (str "_word (value, lemma, sublemma, pos, count, arf)"
              ++ next_line 5 (str "VALUES (?, ?, ?, ?, ?, ?)")))
  sql_text (update_word c a v l p) =
      str "UPDATE "
      ++ (grouped
          ++ (str "_word"
              ++ (next_line 6 (str "SET count = count + ?, arf = arf + ?")
                  ++ next_line 6 (str "WHERE value = ? AND lemma = ? AND pos = ?"))))

  unfoldable pub sql_args : Statement F → List (Arg F)
  sql_args (insert_lemma v p c a n) = text v ∷ text p ∷ number c ∷ float a ∷ number n ∷ []
  sql_args (update_lemma c a v p) = number c ∷ float a ∷ text v ∷ text p ∷ []
  sql_args (insert_sublemma v l p c) = text v ∷ text l ∷ text p ∷ number c ∷ []
  sql_args (update_sublemma c v l p) = number c ∷ text v ∷ text l ∷ text p ∷ []
  sql_args (insert_word v l s p c a) = text v ∷ text l ∷ text s ∷ text p ∷ number c ∷ float a ∷ []
  sql_args (update_word c a v l p) = number c ∷ float a ∷ text v ∷ text l ∷ text p ∷ []
  sql_args _ = []

  -- Each statement has as many placeholders as it has arguments, if the name of the group of corpora
  -- has no question mark.
  pub sql_text-placeholders :
      (s : Statement F) → marks grouped ≡ 0 → marks (sql_text s) ≡ length (sql_args s)
  unfolding sql_text sql_args
  sql_text-placeholders drop_word h = around grouped (str "DROP TABLE IF EXISTS ") (str "_word") h
  sql_text-placeholders drop_sublemma h =
      around grouped (str "DROP TABLE IF EXISTS ") (str "_sublemma") h
  sql_text-placeholders drop_lemma h = around grouped (str "DROP TABLE IF EXISTS ") (str "_lemma") h
  sql_text-placeholders create_lemma h = around grouped (str "CREATE TABLE ") _ h
  sql_text-placeholders create_sublemma h =
      let tail = grouped ++ str "_lemma(value, pos)) COLLATE utf8mb4_bin" in
      omega (
        arith,
        around grouped (str "CREATE TABLE ") (sublemma_columns ++ tail) h,
        around grouped sublemma_columns (str "_lemma(value, pos)) COLLATE utf8mb4_bin") h,
      )
  sql_text-placeholders create_word h =
      let tail = grouped ++ str "_sublemma(value, lemma, pos)) COLLATE utf8mb4_bin" in
      omega (
        arith,
        around grouped (str "CREATE TABLE ") (word_columns ++ tail) h,
        around grouped word_columns (str "_sublemma(value, lemma, pos)) COLLATE utf8mb4_bin") h,
      )
  sql_text-placeholders (insert_lemma v p c a n) h = around grouped (str "INSERT INTO ") _ h
  sql_text-placeholders (update_lemma c a v p) h = around grouped (str "UPDATE ") _ h
  sql_text-placeholders (insert_sublemma v l p c) h = around grouped (str "INSERT INTO ") _ h
  sql_text-placeholders (update_sublemma c v l p) h = around grouped (str "UPDATE ") _ h
  sql_text-placeholders (insert_word v l s p c a) h = around grouped (str "INSERT INTO ") _ h
  sql_text-placeholders (update_word c a v l p) h = around grouped (str "UPDATE ") _ h
