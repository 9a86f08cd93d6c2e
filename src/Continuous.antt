-- ===== src/Continuous.antt =====
-- The loop that runs one turn after another: its waits, its errors and its statistics.
pub mod Interval
pub mod Errors
pub mod Loop
pub mod Backoff
pub mod Statistics
pub mod Waits
pub mod Manager
pub mod Single
mod Tests
