-- ===== src/Lock.antt =====
-- Run locks: only one process at a time runs an SBI.
pub mod RunLock
pub mod Acquire
pub mod Race
pub mod Statements
pub mod Renewal
pub mod StateLock
pub mod StateTable
pub mod States
pub mod Heartbeats
pub mod Beating
pub mod Service
pub mod Held
mod Tests
