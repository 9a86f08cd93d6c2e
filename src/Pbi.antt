-- ===== src/Pbi.antt =====
-- Product backlog items: their values, the approval of their SBIs, and the registration of these.
pub mod Item
pub mod Approval
pub mod Approvals
pub mod Store
pub mod Register
pub mod Execute
pub mod Update
mod Loop
mod Registered
mod Counts
mod Finish
pub mod Chained
mod Rows
pub mod Outcomes
pub mod Saved
mod Tests
