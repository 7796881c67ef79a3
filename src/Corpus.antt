-- ===== src/Corpus.antt =====
-- Corpora and queries to them (corpus/).
pub mod ConcCache
pub mod Info
pub mod DataSync
