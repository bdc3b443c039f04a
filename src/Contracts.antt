-- ===== src/Contracts.antt =====
-- pkg/backend/contracts.go: the execution contract, and the verified profile.
pub mod Plan
pub mod Levels
pub mod Families
pub mod Coverage
pub mod Health
pub mod Eligible
