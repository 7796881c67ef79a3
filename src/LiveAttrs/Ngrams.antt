-- ===== src/LiveAttrs/Ngrams.antt =====
-- The n-gram generator (liveattrs/db/freqdb): the records it reads, the columns it selects, and the
-- tables of words, sublemmas and lemmas that it fills from the rows in their order.
pub mod Tx
pub mod Statements
pub mod Rows
pub mod Generate
pub mod Works
pub mod Conserve
pub mod Lemmas
pub mod Totals
pub mod Unclosed
pub mod Sublemmas
use cnc_masm.Prelude.{
  split_words, ℕ, suc, ◌+◌, Bool, true, false, not, ◌&&◌, Option, none, some, List, [], ◌∷◌, ◌++◌,
  Str, str, str_eq, StrMap, lookup, insert, if◌then◌else◌, any, or_else, ◌==◌, ltb,
}
use cnc_masm.LiveAttrs.Sql.{decimal}

-- What the code does with `float32`: the zero value and addition.
pub record Floats (F : Type 0) : Type 0 where
  pub nought : F
  pub add : F → F → F

pub record NgRecord (F : Type 0) : Type 0 where
  pub word : Str
  pub lemma : Str
  pub sublemma : Str
  pub tag : Str
  pub abs : ℕ
  pub arf : F

unfoldable pub get_lemma_total : {F : Type 0} → List (NgRecord F) → ℕ
get_lemma_total [] = 0
get_lemma_total (v ∷ rows) = v.abs + get_lemma_total rows

-- The sum is taken from the left.
abbrev pub arf_from : {F : Type 0} → Floats F → F → List (NgRecord F) → F
arf_from fl ans [] = ans
arf_from fl ans (v ∷ rows) = arf_from fl (fl.add ans v.arf) rows

unfoldable pub get_lemma_arf : {F : Type 0} → Floats F → List (NgRecord F) → F
get_lemma_arf fl rows = arf_from fl fl.nought rows

-- The parameter is a match of `stopWordsRegex`.
module _ (stop_words_regex : Str → Bool) where
  unfoldable pub is_stop_word : Str → Bool
  is_stop_word [] = true
  is_stop_word (b ∷ w) = stop_words_regex (b ∷ w)

  unfoldable pub is_stop_ngram : Str → Bool
  unfolding is_stop_word
  is_stop_ngram w = any is_stop_word (split_words w)

-- The parameter is a match of `upcaseRegex`.
unfoldable pub starts_with_upcase : (Str → Bool) → Str → ℕ
starts_with_upcase upcase_regex w = if upcase_regex w then 1 else 0

-- Column numbers; they are not negative.
pub record QsAttributes : Type 0 where
  pub word : ℕ
  pub sublemma : ℕ
  pub lemma : ℕ
  pub tag : ℕ

unfoldable pub col_idx_to_name : ℕ → Str
col_idx_to_name idx = str "col" ++ decimal idx

abbrev pub insert_after : ℕ → List ℕ → List ℕ
insert_after n [] = n ∷ []
insert_after n (a ∷ xs) = let rest = insert_after n xs in if ltb n a then n ∷ a ∷ xs else a ∷ rest

abbrev pub sort_from : List ℕ → List ℕ → List ℕ
sort_from done [] = done
sort_from done (n ∷ xs) = sort_from (insert_after n done) xs

-- `sort.SliceStable` by `<`
unfoldable pub get_col_indexes : QsAttributes → List ℕ
get_col_indexes qsa = sort_from [] (qsa.word ∷ qsa.lemma ∷ qsa.sublemma ∷ qsa.tag ∷ [])

unfoldable pub column_of : QsAttributes → Str → Option ℕ
column_of qsa v =
    if str_eq v (str "word")
    then some qsa.word
    else if str_eq v (str "lemma")
    then some qsa.lemma
    else if str_eq v (str "sublemma")
    then some qsa.sublemma
    else if str_eq v (str "tag")
    then some qsa.tag
    else none

abbrev pub add_column : Option ℕ → Option (List Str) → Option (List Str)
add_column (some idx) (some ans) = some (col_idx_to_name idx ∷ ans)
add_column _ _ = none

-- `none` is the panic on an unknown name.
unfoldable pub export_cols : QsAttributes → List Str → Option (List Str)
export_cols qsa [] = some []
export_cols qsa (v ∷ values) = add_column (column_of qsa v) (export_cols qsa values)

abbrev pub first_of : Option (List Str) → Option Str
first_of (some (x ∷ xs)) = some x
first_of _ = none

unfoldable pub export_col : QsAttributes → Str → Option Str
export_col qsa name = first_of (export_cols qsa (name ∷ []))
