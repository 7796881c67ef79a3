-- ===== src/LiveAttrs/Sql.antt =====
-- The SQL that live attributes build for a user's selection (liveattrs/db/qbuilder): the values of
-- a selection, and the condition for one attribute, which two packages share word by word.
pub mod Marks
pub mod Conditions
pub mod Adhoc
pub mod Laquery
use cnc_masm.Prelude.{
  ℕ, zero, suc, ◌+◌, ◌/◌, ◌%◌, Bool, true, false, Option, none, some, List, [], ◌∷◌, ◌++◌, Str, str,
  str_eq, StrMap, lookup, if◌then◌else◌, ltb, replace_one, join_by, ◌==◌, tally, any,
}

-- A decoded JSON value inside a listing or an object: a string or, as `U`, something else.
pub data JsonItem (U : Type 0) : Type 0 where
  text : Str → JsonItem U
  other : U → JsonItem U

pub data AttrValue (U : Type 0) : Type 0 where
  listing : List (JsonItem U) → AttrValue U
  single : Str → AttrValue U
  object : StrMap (JsonItem U) → AttrValue U
  anything : U → AttrValue U

-- liveattrs/request/query/query.go
abbrev pub Attrs : Type 0 → Type 0
Attrs U = StrMap (AttrValue U)

-- The type assertion of `tm["regexp"]`, which also rules out the empty text.
unfoldable pub regexp_text : {U : Type 0} → Option (JsonItem U) → Option Str
regexp_text none = none
regexp_text (some (text [])) = none
regexp_text (some (text (b ∷ s))) = some (b ∷ s)
regexp_text (some (other u)) = none

unfoldable pub regexp_of : {U : Type 0} → Option (AttrValue U) → Option Str
unfolding regexp_text
regexp_of (some (object tm)) = regexp_text (lookup (str "regexp") tm)
regexp_of _ = none

-- `GetRegexpAttrVal`
unfoldable pub get_regexp_attr_val : {U : Type 0} → Attrs U → Str → Option Str
unfolding regexp_of
get_regexp_attr_val q attr = regexp_of (lookup attr q)

-- `strings.Replace(k, ".", "_", 1)`
unfoldable pub import_key : Str → Str
import_key = replace_one 46 95

unfoldable pub export_key : Str → Str
export_key = replace_one 95 46

-- `%d`
abbrev pub digits : ℕ → ℕ → Str → Str
digits zero n acc = acc
digits (suc fuel) n acc =
    let rest = digits fuel (n / 10) ((48 + n % 10) ∷ acc) in
    if ltb n 10 then (48 + n) ∷ acc else rest

unfoldable pub decimal : ℕ → Str
decimal n = digits (suc n) n []

unfoldable pub import_value : Str → Str → Str
import_value placeholder value = if str_eq value placeholder then [] else value

-- liveattrs/db/qbuilder/qbuilder.go: `CmpOperator`
unfoldable pub cmp_operator : Str → Str
cmp_operator val = if any (λ b. b == 37) val then str "LIKE" else str "="

-- The number of placeholders.
abbrev pub marks : Str → ℕ
marks = tally (λ b. b == 63)

-- The condition for one attribute. The two `PredicateArgs` have the same code for it.
module _ {U : Type 0} (print : U → Str) (prefix bib_label placeholder : Str) where
  abbrev pub compare_with : Str → Str → Str
  compare_with key v = prefix ++ 46 ∷ (key ++ 32 ∷ (cmp_operator v ++ str " ?"))

  -- A value that begins with `@` is one of the label of a bibliography item.
  unfoldable pub item_sql : Str → Str → Str
  item_sql key [] = compare_with key []
  item_sql key (b ∷ v) = if b == 64 then compare_with bib_label v else compare_with key (b ∷ v)

  unfoldable pub item_value : Str → Str
  unfolding import_value
  item_value [] = import_value placeholder []
  item_value (b ∷ v) =
      if b == 64 then import_value placeholder v else import_value placeholder (b ∷ v)

  unfoldable pub listing_sql : Str → List (JsonItem U) → List Str × List Str
  unfolding item_sql item_value
  listing_sql key [] = ([], [])
  listing_sql key (text v ∷ vs) =
      let (items, values) = listing_sql key vs in (item_sql key v ∷ items, item_value v ∷ values)
  listing_sql key (other u ∷ vs) = listing_sql key vs

  unfoldable pub regexp_sql : Str → Option Str → List Str × List Str
  unfolding import_value
  regexp_sql key none = ([], [])
  regexp_sql key (some v) =
      ((prefix ++ 46 ∷ (key ++ str " REGEXP ?")) ∷ [], import_value placeholder v ∷ [])

  -- The switch on the type of the value: the items of the condition and the values for them.
  unfoldable pub attr_sql : Attrs U → Str → AttrValue U → List Str × List Str
  unfolding listing_sql regexp_sql import_key import_value get_regexp_attr_val
  attr_sql data_ dkey (listing vs) = listing_sql (import_key dkey) vs
  attr_sql data_ dkey (single v) =
      ((prefix ++ 46 ∷ (import_key dkey ++ str " LIKE ?")) ∷ [], import_value placeholder v ∷ [])
  attr_sql data_ dkey (object tm) = regexp_sql (import_key dkey) (get_regexp_attr_val data_ dkey)
  attr_sql data_ dkey (anything u) = (
    (str "LOWER("
          ++ (prefix
              ++ 46
                ∷ (import_key dkey ++ (str ") " ++ (cmp_operator (print u) ++ str " LOWER(?)")))))
        ∷ [],
    import_value placeholder (print u) ∷ [],
  )

-- `(a OR b)`, unless there are no items.
abbrev pub with_items : List Str → List Str → List Str
with_items [] ws = ws
with_items (x ∷ xs) ws = (str "(" ++ (join_by (str " OR ") (x ∷ xs) ++ str ")")) ∷ ws
