-- ===== src/LiveAttrs/Answers.antt =====
-- The answer with the attribute values of the texts that are selected: its collection from the rows
-- of a result (liveattrs/actions/common.go) and its export (liveattrs/request/response/ans.go).
pub mod Totals
pub mod Listings
pub mod Labels
pub mod Exports
use cnc_masm.Prelude.{
  ℕ, zero, suc, ◌+◌, Bool, true, false, not, ◌&&◌, ◌||◌, Option, none, some, List, [], ◌∷◌, ◌++◌,
  Str, str, str_eq, StrMap, lookup, insert, if◌then◌else◌, or_else, length, leb, ltb, split_words,
  join, ◌==◌, map,
}
use cnc_masm.General.Collections.{slice_contains}
use cnc_masm.General.Collections.Set.{str_ltb}
use cnc_masm.LiveAttrs.Sql.{export_key}

pub record ListedValue : Type 0 where
  pub id : Str
  pub label : Str
  pub short_label : Str
  pub count : ℕ
  pub grouping : ℕ

-- A value of `AttrValues`.
pub data Column : Type 0 where
  listed : List ListedValue → Column
  number : ℕ → Column
  summarized : ℕ → Column

-- liveattrs/db/qbuilder/laquery/lafilter.go
pub record ResultRow : Type 0 where
  pub attrs : StrMap Str
  pub poscount : ℕ
  pub wordcount : ℕ

-- liveattrs/utils/utils.go: `ShortenVal`, over the bytes of the value
abbrev pub first_bytes : ℕ → Str → Str
first_bytes zero s = []
first_bytes (suc n) [] = []
first_bytes (suc n) (b ∷ s) = b ∷ first_bytes n s

abbrev pub cut_at : ℕ → List Str → Str → Str
cut_at max [] word = first_bytes max word ++ str "..."
cut_at max (d ∷ done) word = join 32 (d ∷ done) ++ str "..."

abbrev pub shorten_words : ℕ → Str → List Str → ℕ → List Str → Str
shorten_words max v done len [] = v
shorten_words max v done len (word ∷ words) =
    let rest = shorten_words max v (done ++ word ∷ []) (len + length word) words in
    if ltb max (len + length word) then cut_at max done word else rest

unfoldable pub shorten_val : Str → ℕ → Str
shorten_val v max = if leb (length v) max then v else shorten_words max v [] 0 (split_words v)

abbrev pub short_label_max_length : ℕ
short_label_max_length = 30

-- The variables of `getAttrValues` that the loop over the rows changes.
pub record Collected : Type 0 where
  pub poscount : ℕ
  pub tmp_ans : StrMap (StrMap ListedValue)
  pub attr_values : StrMap Column

-- The value counted before, or a new one.
unfoldable pub counted_value : Str → Str → ℕ → Option ListedValue → ListedValue
unfolding shorten_val
counted_value ident db_val pos (some v) = record v { count = v.count + pos }
counted_value ident db_val pos none = record {
  id = ident;
  label = db_val;
  short_label = shorten_val db_val short_label_max_length;
  count = pos;
  grouping = 1;
}

unfoldable pub count_value : Str → Str → ℕ → StrMap ListedValue → StrMap ListedValue
unfolding counted_value
count_value ident db_val pos m = insert ident (counted_value ident db_val pos (lookup ident m)) m

abbrev pub then_columns : {A B : Type 0} → Option A → (A → Option B) → Option B
then_columns none f = none
then_columns (some a) f = f a

module _ (bib_label bib_id : Str) where
  unfoldable pub val_ident : ResultRow → Str → Str → Str
  val_ident row col_key db_key =
      or_else (lookup (if str_eq col_key bib_label then bib_id else db_key) row.attrs) []

  -- The switch on the type of the column. A column without a value is only logged.
  unfoldable pub add_to_column :
      ResultRow → Str → Str → Option Column → Collected → Option Collected
  unfolding val_ident count_value
  add_to_column row db_key db_val (some (listed l)) c =
      let col_key = export_key db_key in
      let values =
        count_value (val_ident row col_key db_key) db_val row.poscount
          (or_else (lookup col_key c.tmp_ans) []) in
      some (record c { tmp_ans = insert col_key values c.tmp_ans })
  add_to_column row db_key db_val (some (number n)) c = some (record c {
    attr_values = insert (export_key db_key) (number (n + row.poscount)) c.attr_values;
  })
  add_to_column row db_key db_val (some (summarized n)) c = none
  add_to_column row db_key db_val none c = some c

  -- `none` is the error for a value of another type.
  unfoldable pub add_columns : ResultRow → StrMap Str → Collected → Option Collected
  unfolding add_to_column
  add_columns row [] c = some c
  add_columns row ((db_key, db_val) ∷ rest) c =
      then_columns (add_to_column row db_key db_val (lookup (export_key db_key) c.attr_values) c)
        (λ c'. add_columns row rest c')

  unfoldable pub add_row : ResultRow → Collected → Option Collected
  unfolding add_columns
  add_row row c = add_columns row row.attrs (record c { poscount = c.poscount + row.poscount })

  unfoldable pub add_rows : List ResultRow → Collected → Option Collected
  unfolding add_row
  add_rows [] c = some c
  add_rows (row ∷ rows) c = then_columns (add_row row c) (λ c'. add_rows rows c')

abbrev pub to_listing : Str → ListedValue → Option Column → StrMap Column → StrMap Column
to_listing attr v (some (listed l)) m = insert attr (listed (l ++ v ∷ [])) m
to_listing attr v _ m = m

-- `AddListedValue`
unfoldable pub add_listed_value : Str → ListedValue → StrMap Column → StrMap Column
add_listed_value attr v m = to_listing attr v (lookup attr m) m

unfoldable pub add_all_values : Str → StrMap ListedValue → StrMap Column → StrMap Column
unfolding add_listed_value
add_all_values attr [] m = m
add_all_values attr ((ident, c) ∷ v) m = add_all_values attr v (add_listed_value attr c m)

-- The loops that move `tmpAns` to the answer.
unfoldable pub move_values : StrMap (StrMap ListedValue) → StrMap Column → StrMap Column
unfolding add_all_values
move_values [] m = m
move_values ((attr, v) ∷ tmp) m = move_values tmp (add_all_values attr v m)

-- `groupBibItems`: `grouping` has pointers to the items, so that the count of a group is added to
-- itself; the items that come after the first are not read.
unfoldable pub group_again : ListedValue → ListedValue
group_again v = record v {
  count = v.count + v.count;
  grouping = suc v.grouping;
  id = if ltb 1 (suc v.grouping) then 64 ∷ v.label else v.id;
}

unfoldable pub group_first : ListedValue → ListedValue
group_first v = record v { id = if ltb 1 v.grouping then 64 ∷ v.label else v.id }

abbrev pub grouped_item : Option ListedValue → ListedValue → ListedValue
grouped_item none item = group_first item
grouped_item (some v) item = group_again v

unfoldable pub group_items : List ListedValue → StrMap ListedValue → StrMap ListedValue
unfolding group_again group_first
group_items [] grouping = grouping
group_items (item ∷ items) grouping =
    group_items items (insert item.label (grouped_item (lookup item.label grouping) item) grouping)

abbrev pub group_values : StrMap ListedValue → List ListedValue
group_values = map (λ (k, v). v)

abbrev pub group_listing : Str → Option Column → StrMap Column → StrMap Column
group_listing bib_label (some (listed l)) m =
    insert bib_label (listed (group_values (group_items l []))) m
group_listing bib_label _ m = m

unfoldable pub group_bib_items : Str → StrMap Column → StrMap Column
unfolding group_items
group_bib_items bib_label m = group_listing bib_label (lookup bib_label m) m

-- `sort.Slice` by labels; it may take another order of equal labels.
unfoldable pub insert_label : ListedValue → List ListedValue → List ListedValue
insert_label v [] = v ∷ []
insert_label v (w ∷ ws) = if str_ltb w.label v.label then w ∷ insert_label v ws else v ∷ w ∷ ws

unfoldable pub sort_labels : List ListedValue → List ListedValue
unfolding insert_label
sort_labels [] = []
sort_labels (v ∷ vs) = insert_label v (sort_labels vs)

module _ (expand_attrs : List Str) (max_attr_list_size : ℕ) where
  unfoldable pub is_listed : Str → List ListedValue → Bool
  is_listed k l =
      max_attr_list_size == 0 || ltb (length l) max_attr_list_size || slice_contains expand_attrs k

  unfoldable pub export_column : Str → Column → Column
  unfolding is_listed sort_labels
  export_column k (listed l) =
      if is_listed k l then listed (sort_labels l) else summarized (length l)
  export_column k (number n) = summarized n
  export_column k (summarized n) = summarized n

  -- `ExportAttrValues`
  unfoldable pub export_attr_values : StrMap Column → StrMap Column
  unfolding export_column
  export_attr_values [] = []
  export_attr_values ((k, v) ∷ m) = (k, export_column k v) ∷ export_attr_values m

-- `getAttrValues` from the rows on: the listings start empty, and a size of 0 is the default one.
abbrev pub empty_listings : List Str → StrMap Column → StrMap Column
empty_listings [] m = m
empty_listings (attr ∷ attrs) m = empty_listings attrs (insert attr (listed []) m)

abbrev pub start : List Str → Collected
start attrs = record { poscount = 0; tmp_ans = []; attr_values = empty_listings attrs [] }

abbrev pub listings : Collected → StrMap Column
listings c = move_values c.tmp_ans c.attr_values
