-- ===== src/Jobs/Info/Kinds.antt =====
-- The job records of the packages, one module each.
pub mod Dummy
pub mod LiveAttrs
pub mod IdxUpdate
pub mod Sync
pub mod Export
pub mod Ngram
pub mod Base
