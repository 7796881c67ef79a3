-- ===== src/General/Collections.antt =====
-- The containers of general/collections; `SliceContains` of misc.go.
pub mod Set
pub mod Multidict
pub mod Ordered
use cnc_masm.Prelude.{
  Bool, true, false, Option, none, some, List, [], ◌∷◌, ◌++◌, map, Str, str_mem, StrMap, lookup,
  insert, delete, has_key, if◌then◌else◌, or_else, ltb, ◌==◌,
}

-- `SliceContains` on strings
abbrev pub slice_contains : List Str → Str → Bool
slice_contains xs value = str_mem value xs
