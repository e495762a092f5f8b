-- ===== src/Jobs.antt =====
-- src/application/jobs: the two jobs that settle orders.
pub mod Batch
pub mod Reaper
pub mod Reconciliation
pub mod Keeping
mod Tests
