-- ===== src/Tests.antt =====
-- Small inputs, what the code does on them, and the theorems applied to them.
mod Control
mod Coordinator
mod Graph
mod Inputs
mod Placement
mod Planner
mod Plans
mod Registry
mod Router
mod Traces
