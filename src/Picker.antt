-- ===== src/Picker.antt =====
-- The pick of the next task: which tasks are ready, and which comes first.
pub mod Tasks
pub mod Texts
pub mod Order
pub mod Cycles
pub mod Ordered
mod Visit
mod Depth
pub mod Topological
pub mod Filter
pub mod Pick
pub mod Picked
pub mod Sbis
pub mod Locked
mod Tests
