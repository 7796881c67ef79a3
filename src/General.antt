-- ===== src/General.antt =====
-- The containers of general/collections.
pub mod Collections
