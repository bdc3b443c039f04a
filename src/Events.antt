-- ===== src/Events.antt =====
-- pkg/events: the version 1 contract of the trajectory log.
pub mod Types
pub mod Observed
pub mod Codec
pub mod Helpers
pub mod Content
pub mod Fuel
pub mod Core
pub mod Validate
