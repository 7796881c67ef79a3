-- ===== src/LiveAttrs.antt =====
-- The live attributes of corpora (liveattrs/).
pub mod Cache
pub mod Sql
pub mod Ngrams
pub mod Mixer
pub mod Answers
pub mod Documents
pub mod Usage
pub mod Export
pub mod Laconf
pub mod Extraction
pub mod Deletion
