-- ===== src/Research.antt =====
-- packages/source-research: the queue of source research jobs, with its batches and its outbox.
pub mod Tables
pub mod Queue
pub mod Views
pub mod Batches
pub mod Consistency
pub mod Calls
pub mod Publisher
pub mod Tests
