-- ===== src/Store.antt =====
-- internal/api: the control-plane store, its run lifecycle and its persistence.
pub mod Types
pub mod State
pub mod Persist
pub mod Append
pub mod Create
pub mod Mutate
pub mod Publish
pub mod Requests
pub mod Rules
pub mod Appends
pub mod Lifecycle
pub mod Steps
pub mod Traces
pub mod Turns
pub mod Dispatching
pub mod Mutations
pub mod Registering
pub mod Creations
pub mod Handled
pub mod Sessions
pub mod History
pub mod Ahead
pub mod Catalog
pub mod Recovery
pub mod Latch
pub mod Opening
pub mod Recovered
pub mod Pages
pub mod Paging
pub mod TrustedLog
pub mod Passes
pub mod Remembering
pub mod Again
