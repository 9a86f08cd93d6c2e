-- ===== src/Journal.antt =====
-- The validation of a journal file.
pub mod Line
pub mod Validator
pub mod Valid
pub mod Summary
pub mod Accepted
mod Tests
