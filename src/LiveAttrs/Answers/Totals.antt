-- ===== src/LiveAttrs/Answers/Totals.antt =====
-- The positions that the rows give to the values of a column.
use cnc_masm.Prelude.{
  ℕ, ◌+◌, ◌≡◌, refl, sym, ap, ◌∙◌, Bool, true, false, Option, none, some, List, [], ◌∷◌, Str,
  str_eq, str_eq_iff, StrMap, lookup, insert, if◌then◌else◌, or_else, is_some, arith, subst,
  Bool-cases, inl, inr,
}
use cnc_masm.LiveAttrs.Sql.{export_key}
use cnc_masm.LiveAttrs.Answers.{
  ListedValue, Column, listed, number, summarized, ResultRow, Collected, counted_value, count_value,
  val_ident, add_to_column, add_columns, add_row, add_rows, then_columns,
}

abbrev pub sum_by : {V : Type 0} → (Str → V → ℕ) → StrMap V → ℕ
sum_by f [] = 0
sum_by f ((k, v) ∷ m) = f k v + sum_by f m

abbrev pub at_key : {V : Type 0} → (Str → V → ℕ) → Str → Option V → ℕ
at_key f k none = 0
at_key f k (some v) = f k v

sum-insert :
    {V : Type 0} (f : Str → V → ℕ) (k : Str) (v : V) (m : StrMap V)
    → sum_by f (insert k v m) + at_key f k (lookup k m) ≡ sum_by f m + f k v
unfolding insert lookup
sum-insert f k v [] = omega arith
sum-insert f k v ((j, w) ∷ m) = elim (Bool-cases (str_eq j k)) [
  | inl e ↦ rw (e, (str_eq_iff j k).0 e) (omega arith)
  | inr e ↦ rw e (omega (arith, sum-insert f k v m))
]

-- The positions of the values of a column.
abbrev pub value_total : StrMap ListedValue → ℕ
value_total = sum_by (λ i c. c.count)

abbrev pub col_total : Str → StrMap (StrMap ListedValue) → ℕ
col_total k = sum_by (λ j m. if str_eq j k then value_total m else 0)

counted_value-count :
    (ident db_val : Str) (pos : ℕ) (o : Option ListedValue)
    → (counted_value ident db_val pos o).count ≡ at_key (λ i c. c.count) ident o + pos
unfolding counted_value
counted_value-count ident db_val pos none = omega arith
counted_value-count ident db_val pos (some v) = refl

count_value-total :
    (ident db_val : Str) (pos : ℕ) (m : StrMap ListedValue)
    → value_total (count_value ident db_val pos m) ≡ value_total m + pos
unfolding count_value
count_value-total ident db_val pos m = omega (
  arith,
  sum-insert (λ i c. c.count) ident (counted_value ident db_val pos (lookup ident m)) m,
  counted_value-count ident db_val pos (lookup ident m),
)

old-total :
    (k j : Str) (o : Option (StrMap ListedValue))
    → at_key (λ i m. if str_eq i k then value_total m else 0) j o
      ≡ (if str_eq j k then value_total (or_else o []) else 0)
old-total k j none = ground arith
old-total k j (some m) = refl

sum_ifs :
    (b : Bool) (a o t old new pos : ℕ)
    → a + o ≡ t + (if b then new else 0)
    → o ≡ (if b then old else 0)
    → new ≡ old + pos
    → a ≡ t + (if b then pos else 0)
sum_ifs true a o t old new pos h i j = omega (arith, h, i, j)
sum_ifs false a o t old new pos h i j = omega (arith, h, i)

tmp-total :
    (k j ident db_val : Str) (pos : ℕ) (tmp : StrMap (StrMap ListedValue))
    → col_total k (insert j (count_value ident db_val pos (or_else (lookup j tmp) [])) tmp)
      ≡ col_total k tmp + (if str_eq j k then pos else 0)
tmp-total k j ident db_val pos tmp =
    let old = or_else (lookup j tmp) [] in
    sum_ifs (str_eq j k) _ _ (col_total k tmp) (value_total old)
      (value_total (count_value ident db_val pos old)) pos
      (sum-insert (λ i m. if str_eq i k then value_total m else 0) j
        (count_value ident db_val pos old) tmp)
      (old-total k j (lookup j tmp)) (count_value-total ident db_val pos old)

-- Only listings: the columns of an answer while the rows are read.
abbrev pub is_listing : Column → Bool
is_listing (listed l) = true
is_listing (number n) = false
is_listing (summarized n) = false

abbrev pub IsListings : StrMap Column → Type 0
IsListings [] = Unit
IsListings ((k, v) ∷ m) = (is_listing v ≡ true) × IsListings m

abbrev pub Listing : Option Column → Type 0
Listing none = Unit
Listing (some v) = is_listing v ≡ true

lookup-Listing : (k : Str) (m : StrMap Column) → IsListings m → Listing (lookup k m)
unfolding lookup
lookup-Listing k [] h = tt
lookup-Listing k ((j, v) ∷ m) (h, hs) = elim (Bool-cases (str_eq j k)) [
  | inl e ↦ rw e h
  | inr e ↦ rw e (lookup-Listing k m hs)
]

-- The positions of the columns of a row, and of rows, that are shown under a name.
abbrev pub columns_weight : Str → ℕ → StrMap Str → ℕ
columns_weight k pos [] = 0
columns_weight k pos ((db_key, db_val) ∷ attrs) =
    (if str_eq (export_key db_key) k then pos else 0) + columns_weight k pos attrs

abbrev pub rows_weight : Str → List ResultRow → ℕ
rows_weight k [] = 0
rows_weight k (row ∷ rows) = columns_weight k row.poscount row.attrs + rows_weight k rows

abbrev pub all_positions : List ResultRow → ℕ
all_positions [] = 0
all_positions (row ∷ rows) = row.poscount + all_positions rows

-- The answer gets `n` positions more in the column `k`, and `p` altogether, and no other columns.
abbrev Adds : Str → ℕ → ℕ → Collected → Option Collected → Type 0
Adds k n p c o =
    (c' : Collected) × (o ≡ some c')
    × (c'.attr_values ≡ c.attr_values)
    × (col_total k c'.tmp_ans ≡ col_total k c.tmp_ans + n)
    × (c'.poscount ≡ c.poscount + p)

then-Adds :
    (k : Str) (n m p q : ℕ) (c : Collected) (o : Option Collected)
    (f : Collected → Option Collected)
    → Adds k n p c o
    → ((c' : Collected) → c'.attr_values ≡ c.attr_values → Adds k m q c' (f c'))
    → Adds k (n + m) (p + q) c (then_columns o f)
then-Adds k n m p q c o f (c1, e1, a1, t1, p1) h =
    let (c2, e2, a2, t2, p2) = h c1 a1 in
    (c2, rw e1 e2, a2 ∙ a1, omega (arith, t1, t2), omega (arith, p1, p2))

module _ (bib_label bib_id : Str) (k : Str) where
  add_to_column-Adds :
      (row : ResultRow) (db_key db_val : Str) (o : Option Column) (c : Collected)
      → Listing o
      → (str_eq (export_key db_key) k ≡ true → is_some o ≡ true)
      → Adds k
          (if str_eq (export_key db_key) k then row.poscount else 0)
          0
          c
          (add_to_column bib_label bib_id row db_key db_val o c)
  unfolding add_to_column
  add_to_column-Adds row db_key db_val none c h i = (c, refl, refl, ground (arith, i), omega arith)
  add_to_column-Adds row db_key db_val (some (listed l)) c h i = (
    _,
    refl,
    refl,
    tmp-total k (export_key db_key) (val_ident bib_label bib_id row (export_key db_key) db_key)
        db_val row.poscount c.tmp_ans,
    omega arith,
  )
  add_to_column-Adds row db_key db_val (some (number n)) c h i = ground (arith, h)
  add_to_column-Adds row db_key db_val (some (summarized n)) c h i = ground (arith, h)

  add_columns-Adds :
      (row : ResultRow) (attrs : StrMap Str) (c : Collected)
      → IsListings c.attr_values
      → is_some (lookup k c.attr_values) ≡ true
      → Adds k (columns_weight k row.poscount attrs) 0 c (add_columns bib_label bib_id row attrs c)
  unfolding add_columns
  add_columns-Adds row [] c h i = (c, refl, refl, omega arith, omega arith)
  add_columns-Adds row ((db_key, db_val) ∷ attrs) c h i =
      then-Adds k (if str_eq (export_key db_key) k then row.poscount else 0)
        (columns_weight k row.poscount attrs) 0 0 c
        (add_to_column bib_label bib_id row db_key db_val (lookup (export_key db_key) c.attr_values)
          c)
        (λ c'. add_columns bib_label bib_id row attrs c')
        (add_to_column-Adds row db_key db_val (lookup (export_key db_key) c.attr_values) c
          (lookup-Listing (export_key db_key) c.attr_values h)
          (λ e.
            ap (λ j. is_some (lookup j c.attr_values)) ((str_eq_iff (export_key db_key) k).0 e)
            ∙ i))
        (λ c' e.
          add_columns-Adds row attrs c' (subst IsListings (sym e) h)
            (ap (λ m. is_some (lookup k m)) e ∙ i))

  add_row-Adds :
      (row : ResultRow) (c : Collected)
      → IsListings c.attr_values
      → is_some (lookup k c.attr_values) ≡ true
      → Adds k
          (columns_weight k row.poscount row.attrs)
          row.poscount
          c
          (add_row bib_label bib_id row c)
  unfolding add_row
  add_row-Adds row c h i =
      let (c', e, a, t, p) =
        add_columns-Adds row row.attrs (record c { poscount = c.poscount + row.poscount }) h i in
      (c', e, a, t, omega (arith, p))

  pub add_rows-Adds :
      (rows : List ResultRow) (c : Collected)
      → IsListings c.attr_values
      → is_some (lookup k c.attr_values) ≡ true
      → Adds k (rows_weight k rows) (all_positions rows) c (add_rows bib_label bib_id rows c)
  unfolding add_rows
  add_rows-Adds [] c h i = (c, refl, refl, omega arith, omega arith)
  add_rows-Adds (row ∷ rows) c h i =
      then-Adds k (columns_weight k row.poscount row.attrs) (rows_weight k rows) row.poscount
        (all_positions rows) c (add_row bib_label bib_id row c)
        (λ c'. add_rows bib_label bib_id rows c') (add_row-Adds row c h i)
        (λ c' e.
          add_rows-Adds rows c' (subst IsListings (sym e) h) (ap (λ m. is_some (lookup k m)) e ∙ i))
