-- ===== src/Graph/Models.antt =====
-- market_cell/graph/models.py. Names, descriptions and free metadata are left out.
use market_cell.Prelude.{String, List, map}
use market_cell.Execution.Models.{Role}

pub record GraphNode : Type 0 where
  pub node_id : String
  pub cell_id : String
  pub execution_role : Role
  pub dependencies : List String

pub record Organ : Type 0 where
  pub organ_id : String
  pub organ_version : String
  pub node_ids : List String
  pub output_node_ids : List String

pub record Graph : Type 0 where
  pub graph_id : String
  pub graph_version : String
  pub root_node_id : String
  pub nodes : List GraphNode
  pub organs : List Organ

-- The protocol `DependencyNode` of graph/topology.py.
pub record Vertex : Type 0 where
  pub node_id : String
  pub dependencies : List String

abbrev pub vertex : GraphNode → Vertex
vertex n = record { node_id = n.node_id; dependencies = n.dependencies }

abbrev pub vertices : List GraphNode → List Vertex
vertices nodes = map vertex nodes
