-- ===== src/General/Collections/Multidict.antt =====
-- general/collections/multidict.go
use cnc_masm.Prelude.{List, [], ◌∷◌, ◌++◌, Str, StrMap, lookup, insert, or_else}

unfoldable pub add {ℓ} : {T : Type ℓ} → Str → T → StrMap (List T) → StrMap (List T)
add k v md = insert k (or_else (lookup k md) [] ++ v ∷ []) md

unfoldable pub get {ℓ} : {T : Type ℓ} → Str → StrMap (List T) → List T
get k md = or_else (lookup k md) []
