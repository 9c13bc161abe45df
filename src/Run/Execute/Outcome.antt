-- ===== src/Run/Execute/Outcome.antt =====
-- How a run of `execute` ends: its lock is given back, and its row is not left running.
pub mod Frame
pub mod Completed
pub mod Settled
pub mod Locked
pub mod Again
pub mod Steps
