-- ===== src/Execution/Coordinator.antt =====
-- market_cell/execution/coordinator.py: the run of a validated plan, level by level.
pub mod Environment
pub mod Inputs
pub mod Node
pub mod Loop
pub mod Order
pub mod Visits
pub mod Returns
pub mod Available
