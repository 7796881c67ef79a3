-- ===== src/Tests.antt =====
-- Runs of the model on concrete data, and the properties applied to it.
mod Data
mod Queue
mod Deps
mod Table
mod Notify
mod Dispatch
mod Cache
mod Sql
mod Ngrams
mod Mixer
mod Answers
mod Documents
mod ConcCache
pub mod Corpus
mod Cncdb
mod DataSync
mod Export
pub mod Laconf
mod Extraction
mod Deletion
