-- ===== src/Jobs.antt =====
-- The package `jobs`: the queue of jobs, their dependencies, the job records, the job table and
-- the dispatcher.
pub mod Queue
pub mod Deps
pub mod Info
pub mod Table
pub mod Notify
pub mod Dispatch
