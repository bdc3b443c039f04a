-- ===== src/Log.antt =====
-- internal/eventlog, internal/replay and internal/projection: what is read off a trajectory log.
pub mod Validate
pub mod Replay
pub mod Analysis
pub mod Accepts
pub mod Surface
pub mod Counts
