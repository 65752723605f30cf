-- ===== src/Tests/Plans.antt =====
-- A plan of a leaf and its root, and one that repeats a node.
use market_cell.Prelude.{◌⊎◌, String, List, [], ◌∷◌, false}
use market_cell.Execution.Models.{Node, Role, service_binding_id}
use market_cell.Execution.Plans.{Plan}
use market_cell.Execution.Validation.Exact.{IsAccepted, IsRejected, validate_plan_decides}
use market_cell.Tests.Control.{binding_of, hints}
use market_cell.Tests.Planner.{reference}

abbrev pub node_of : String → Role → List String → Node
node_of id role dependencies = record {
  node_id = id;
  cell_id = "trend";
  formula_version = "v1";
  execution_role = role;
  binding_id = service_binding_id "a" "local";
  fallback_binding_ids = [];
  dependencies = dependencies;
  input_reference_ids = "r" ∷ [];
  required_input_kinds = "analysis_request" ∷ [];
  input_keys = [];
  output_keys = [];
  resource_hints = hints false 1;
}

abbrev pub plan_of : List Node → Plan
plan_of nodes = record {
  plan_id = "p";
  target = "BTC";
  horizon = "1h";
  root_node_id = "root";
  nodes = nodes;
  input_references = reference "r" "analysis_request" ∷ [];
  service_bindings = binding_of "a" false 1 ∷ [];
}

abbrev pub pair : Plan
pair = plan_of (node_of "root" Role.root ("leaf" ∷ []) ∷ node_of "leaf" Role.leaf [] ∷ [])

validate_plan_decides_example : IsAccepted pair ⊎ IsRejected pair
validate_plan_decides_example = validate_plan_decides pair
