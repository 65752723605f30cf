-- ===== src/Execution/Control.antt =====
-- market_cell/execution/control.py: retry, fallback, deadlines, admission and cancellation.
pub mod Classify
pub mod Identity
pub mod Environment
pub mod Attempts
pub mod Loop
pub mod Admission
pub mod Record
pub mod Conformity
pub mod Accepted
pub mod Repeats
pub mod Returns
