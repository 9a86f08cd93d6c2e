-- ===== src/Model.antt =====
-- Tasks and their values, internal/domain/model.
pub mod Status
pub mod Value
pub mod Task
pub mod Sbi
pub mod Epic
pub mod Moves
pub mod Children
mod Tests
