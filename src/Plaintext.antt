-- ===== src/Plaintext.antt =====
-- internal/plaintext/assembler.go: plaintext streams and their reconciliation.
pub mod Assembler
pub mod Streams
pub mod Reassembly
pub mod Flows
