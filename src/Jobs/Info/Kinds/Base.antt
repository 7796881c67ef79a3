-- ===== src/Jobs/Info/Kinds/Base.antt =====
-- The test `err == nil`.
use cnc_masm.Prelude.{Bool, true, false, Option, none, some, Str}

unfoldable pub is_nil_error : Option Str → Bool
is_nil_error none = true
is_nil_error (some e) = false
