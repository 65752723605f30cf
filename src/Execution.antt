-- ===== src/Execution.antt =====
-- market_cell/execution: the records, the policies and the executors of planned runs.
pub mod Models
pub mod Outcomes
pub mod Control
pub mod Coordinator
pub mod Registry
pub mod Router
pub mod Placement
pub mod Catalog
pub mod Planner
pub mod Traces
pub mod Plans
pub mod Validation
