-- ===== src/Flusher.antt =====
-- flusher.go: the entities that a flusher tracks, and the SQL, the cache updates and the log events
-- with which a flush saves them.
pub mod World
pub mod Loops
pub mod Track
pub mod Queries
pub mod Pending
pub mod Caches
pub mod Execute
pub mod Collect
pub mod Flush
pub mod Tracked
pub mod Frame
pub mod Rollback
pub mod Recover
pub mod Sent
pub mod Single
pub mod Cycle
pub mod Waiting
pub mod Queued
pub mod Stale
pub mod Saved
pub mod Held
