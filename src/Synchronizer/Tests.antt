-- ===== src/Synchronizer/Tests.antt =====
-- Runs of StoreJournal (src/synchronizer.cpp) on concrete inputs.
pub mod Sorting
pub mod JournalRuns
pub mod MessageRuns
pub mod ConnectionRuns
pub mod ServiceRuns
