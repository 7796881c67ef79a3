-- ===== src/LiveAttrs/Mixer.antt =====
-- The mixing of a subcorpus (liveattrs/subcmixer and liveattrs/actions/subcmixer.go): conditions on
-- texts, the categories of a request, their tree and the queries for their sizes.
pub mod Expressions
pub mod Atoms
pub mod Categories
pub mod Tree
pub mod Request
pub mod Ids
pub mod Numbering
pub mod Virtual
pub mod Built
pub mod Queries
pub mod Panics
pub mod Filled
use cnc_masm.Prelude.{Bool, true, false, Option, none, some}

-- The outcome of an operation: a panic, or a value.
pub data Checked (A : Type 0) : Type 0 where
  value : A → Checked A
  panic : Checked A

infixl 5 ◌>>=◌
abbrev pub ◌>>=◌ : {A B : Type 0} → Checked A → (A → Checked B) → Checked B
value a >>= f = f a
panic >>= f = panic

abbrev pub no_panic : {A : Type 0} → Checked A → Bool
no_panic (value a) = true
no_panic panic = false

-- common/utils.go: `Maybe` is an `Option`, with `Matches`.
unfoldable pub matches : {A : Type 0} → Option A → (A → Bool) → Bool
matches none fn = false
matches (some v) fn = fn v
