-- ===== src/Txn.antt =====
-- File transactions: staging, the two-phase commit, rollback and recovery after a crash.
pub mod Types
pub mod Manager
pub mod Rollback
pub mod Recovery
pub mod Renames
pub mod Moved
pub mod Crash
pub mod Commit
pub mod Staging
pub mod Undo
pub mod Restored
mod Tests
