-- ===== src/Parallel.antt =====
-- SBIs that run at the same time: the agents' slots, the files in use, and the batch that shares them.
pub mod AgentPool
pub mod ConflictDetector
pub mod Runner
mod Files
mod Slots
pub mod Safety
pub mod Workers
pub mod Outcomes
pub mod Ends
pub mod Ready
pub mod Taken
mod Tests
