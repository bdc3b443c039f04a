-- ===== src/Verifier.antt =====
-- internal/verification/verifier.go: the raw chains of a run.
pub mod RawChains
pub mod Intact
