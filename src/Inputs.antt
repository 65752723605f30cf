-- ===== src/Inputs.antt =====
-- market_cell/inputs: references to input snapshots, the snapshots, and their resolution.
pub mod Models
pub mod Bundles
pub mod Identity
pub mod Resolver
