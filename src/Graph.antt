-- ===== src/Graph.antt =====
-- market_cell/graph: graph definitions, their dependency order and their validation.
pub mod Models
pub mod Topology
pub mod Closure
pub mod Validation
