-- ===== src/Evidence.antt =====
-- internal/evidence: byte-exact raw records, their chains and their coverage.
pub mod Raw
pub mod Bytes
pub mod Framing
pub mod Chain
pub mod Digest
pub mod Paths
pub mod Binding
pub mod Manifest
pub mod Merkle
pub mod Roots
