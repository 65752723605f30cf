-- ===== src/Execution/Planner/Build.antt =====
-- `CellExecutionPlanner.build` of market_cell/execution/planner.py, on a given graph. The reference of
-- the request, which stands in where none are given, and the new plan's identifier are arguments.
pub mod Answers
pub mod Returns
use market_cell.Prelude.{
  ℕ, String, Bool, true, false, Option, none, some, List, [], ◌∷◌, map, mem, if◌then◌else◌, by_key,
  Result, ok, err, ◌>>=◌, ◌>>◌,
}
use market_cell.Execution.Models.{Binding, Node, binding_id, binding_ids}
use market_cell.Inputs.Models.{Reference, reference_ids}
use market_cell.Graph.Models.{GraphNode, Graph}
use market_cell.Graph.Validation.{GraphError, Validated, validate_cell_graph_definition}
use market_cell.Execution.Placement.{Manifest, Decision, PlacementError}
use market_cell.Execution.Planner.{CompositionError, place, plan_bindings, references_for_manifest}
use market_cell.Execution.Plans.{Plan}
use market_cell.Execution.Validation.{PlanError, ValidatedPlan, validate_execution_plan}

pub data BuildError : Type 0 where
  invalid_graph : GraphError → BuildError
  unplaced : PlacementError → BuildError
  uncomposed : CompositionError → BuildError
  missing_key : BuildError
  invalid_plan : PlanError → BuildError

-- An exception passes through.
abbrev pub wrapped : {E A : Type 0} → (E → BuildError) → Result E A → Result BuildError A
wrapped wrap (err x) = err (wrap x)
wrapped wrap (ok a) = ok a

abbrev pub found_or_missing : {A : Type 0} → Option A → Result BuildError A
found_or_missing none = err missing_key
found_or_missing (some a) = ok a

-- `[f(x) for x in xs]`, where `f` may raise
abbrev pub each_result :
    {A B : Type 0} → (A → Result BuildError B) → List A → Result BuildError (List B)
each_result f [] = ok []
each_result f (x ∷ xs) = do y ← f x; ys ← each_result f xs; ok (y ∷ ys)

-- `list(dict.fromkeys(xs))`, behind what was seen
abbrev pub first_seen : List String → List String → List String
first_seen seen [] = []
first_seen seen (x ∷ xs) =
    let rest = first_seen (x ∷ seen) xs in if mem x seen then rest else x ∷ rest

abbrev pub manifest_by_cell : List Manifest → String → Result BuildError Manifest
manifest_by_cell manifests id = found_or_missing (by_key (λ m. m.cell_id) id manifests)

abbrev pub decision_by_cell : List Decision → String → Result BuildError Decision
decision_by_cell decisions id = found_or_missing (by_key (λ d. d.cell_id) id decisions)

abbrev pub node_for_graph_node : GraphNode → Manifest → Decision → List Reference → Node
node_for_graph_node n m d references = record {
  node_id = n.node_id;
  cell_id = m.cell_id;
  formula_version = m.formula_version;
  execution_role = n.execution_role;
  binding_id = binding_id d.selected_binding;
  fallback_binding_ids = binding_ids d.fallback_bindings;
  dependencies = n.dependencies;
  input_reference_ids = reference_ids references;
  required_input_kinds = m.required_input_kinds;
  input_keys = m.inputs;
  output_keys = m.outputs;
  resource_hints = d.selected_binding.resource_hints;
}

abbrev pub planned_node :
    List Manifest → List Decision → List Reference → GraphNode → Result BuildError Node
planned_node manifests decisions references n = do
  m ← manifest_by_cell manifests n.cell_id
  d ← decision_by_cell decisions n.cell_id
  rs ← wrapped uncomposed (references_for_manifest m.required_input_kinds references)
  ok (node_for_graph_node n m d rs)

-- `input_references or [...]`
abbrev pub or_request : List Reference → Reference → List Reference
or_request [] request_reference = request_reference ∷ []
or_request (r ∷ rs) request_reference = r ∷ rs

abbrev pub plan_of :
    String → String → String → Graph → List Node → List Reference → List Decision → Plan
plan_of plan_id target horizon g nodes references decisions = record {
  plan_id = plan_id;
  target = target;
  horizon = horizon;
  root_node_id = g.root_node_id;
  nodes = nodes;
  input_references = references;
  service_bindings = plan_bindings decisions;
}

module _ (policy : Manifest → List Binding → Result PlacementError Decision)
    (catalog : List Binding) where
  unfoldable pub build :
      List Manifest
      → (plan_id target horizon : String) → Graph
      → List Reference
      → Reference
      → Result BuildError Plan
  build manifests plan_id target horizon g input_references request_reference =
      let references = or_request input_references request_reference in
      do
        validated ←
            wrapped invalid_graph
              (validate_cell_graph_definition g (some (map (λ m. m.cell_id) manifests)))
        cells ←
            each_result (manifest_by_cell manifests) (first_seen [] (map (λ n. n.cell_id) g.nodes))
        decisions ← each_result (λ m. wrapped unplaced (place policy catalog m)) cells
        nodes ← each_result (planned_node manifests decisions references) g.nodes
        accepted ←
            wrapped invalid_plan (
              validate_execution_plan (plan_of plan_id target horizon g nodes references decisions))
        ok accepted.plan
