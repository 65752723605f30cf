-- ===== src/Execution/Plans.antt =====
-- The plan of market_cell/execution/models.py. Its creation time and free metadata are left out.
use market_cell.Prelude.{String, List, [], map}
use market_cell.Execution.Models.{Node, Binding}
use market_cell.Inputs.Models.{Reference}
use market_cell.Graph.Models.{GraphNode, Graph}

pub record Plan : Type 0 where
  pub plan_id : String
  pub target : String
  pub horizon : String
  pub root_node_id : String
  pub nodes : List Node
  pub input_references : List Reference
  pub service_bindings : List Binding

-- What the structural rules read of a node: they are those of a graph.
abbrev pub graph_node : Node → GraphNode
graph_node n = record {
  node_id = n.node_id;
  cell_id = n.cell_id;
  execution_role = n.execution_role;
  dependencies = n.dependencies;
}

abbrev pub graph_nodes : List Node → List GraphNode
graph_nodes nodes = map graph_node nodes

abbrev pub graph_of : Plan → Graph
graph_of p = record {
  graph_id = p.plan_id;
  graph_version = p.plan_id;
  root_node_id = p.root_node_id;
  nodes = graph_nodes p.nodes;
  organs = [];
}
