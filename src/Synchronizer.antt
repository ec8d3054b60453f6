-- ===== src/Synchronizer.antt =====
-- synchronizer.h and synchronizer.cpp: the journal of a store's changes, and the messages that
-- carry them.
pub mod Journal
pub mod StoreJournal
pub mod Map
pub mod Connection
pub mod Service
pub mod Tests
