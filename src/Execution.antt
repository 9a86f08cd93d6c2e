-- ===== src/Execution.antt =====
-- The review workflow of one SBI, internal/domain/execution.
pub mod Step
pub mod Status
pub mod Decision
pub mod Entity
pub mod Service
pub mod Invariant
pub mod Progress
pub mod Stored
mod Tests
