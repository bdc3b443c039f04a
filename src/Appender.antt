-- ===== src/Appender.antt =====
-- internal/appender/appender.go: the durable event log of one run. The log file and the seal
-- marker are part of the state. What the operating system answers is an argument of each call.
pub mod Frames
pub mod State
pub mod Lines
pub mod Writes
pub mod Durable
pub mod Commit
pub mod Sound
pub mod Session
pub mod Lifetime
pub mod Failure
