-- ===== src/Workflow.antt =====
-- The workflow of an SBI: the decision service, and the turns that apply its decisions.
pub mod Decide
pub mod Labels
pub mod Environment
pub mod Turn
pub mod Outcomes
mod Tests
