-- ===== src/Tests.antt =====
-- Tests of the model on concrete inputs, and instances of the theorems.
mod Fixtures
mod Appending
mod Records
mod RawChains
mod Logs
mod Streams
mod Contracts
mod Store
mod Roots
mod Manifests
