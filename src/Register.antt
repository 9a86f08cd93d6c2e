-- ===== src/Register.antt =====
-- The registration of one SBI from a specification: policy, configuration, checks, path and journal.
pub mod Policy
pub mod Config
pub mod Limits
pub mod Runes
pub mod Slug
pub mod Slugs
pub mod Validation
pub mod Accepted
pub mod Paths
pub mod Collisions
pub mod Built
pub mod Input
pub mod Execute
pub mod Reads
pub mod Turns
pub mod Honest
pub mod Outcome
pub mod Resolvers
mod Tests
