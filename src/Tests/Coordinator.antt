-- ===== src/Tests/Coordinator.antt =====
-- The run of the plan of a leaf and its root, with an executor that answers.
use market_cell.Prelude.{
  collect, sort_by, insert_by, is_blank, ℕ, ◌≡◌, ◌⊎◌, refl, String, none, some, List, [], ◌∷◌,
  false, ok,
}
use market_cell.Graph.Topology.{
  stable_topological_levels, level_loop, count_known, dependencies_of, visit_level, relax,
  dependents_of, mentions,
}
use market_cell.Graph.Closure.{dependency_closure, closure_loop, extend}
use market_cell.Execution.Models.{Role, Node, service_binding_id, Trace, TraceStatus, python_local}
use market_cell.Execution.Outcomes.{CellResult, completed, Outcome, Context}
use market_cell.Execution.Validation.{ValidatedPlan, validate_execution_plan}
use market_cell.Inputs.Models.{Reference, Snapshot}
use market_cell.Inputs.Bundles.{Bundle, check_bundle}
use market_cell.Execution.Coordinator.Environment.{Environment, Run}
use market_cell.Execution.Coordinator.Loop.{
  PlanOutcome, check_plan_outcome, execute, run_level, going, first_run, node_by_id,
}
use market_cell.Execution.Coordinator.Inputs.{compose_cell_inputs, succeeded_record}
use market_cell.Execution.Coordinator.Node.{binding_by_id, run_node, validate_cell_result}
use market_cell.Execution.Coordinator.Available.{HasKeys, keys_available}
use market_cell.Execution.Traces.Planned.{validate_execution_trace}
use market_cell.Execution.Coordinator.Visits.{IsQuiet}
use market_cell.Execution.Coordinator.Returns.{
  IsSchedule, IsCompleted, IsFailed, visit_order, execute_returns,
}
use market_cell.Tests.Plans.{pair, node_of}
use market_cell.Tests.Planner.{reference}
use market_cell.Tests.Control.{binding_of}
use market_cell.Execution.Traces.{validate_execution_trace_context}
use market_cell.Execution.Traces.Agrees.{planned_trace_accepted}

-- The snapshot of any reference; the payload is the scope of the request.
abbrev snapshot_of : Reference → Snapshot (String × String)
snapshot_of r = record {
  snapshot_id = r.snapshot_id;
  input_kind = r.input_kind;
  target = r.target;
  horizon = r.horizon;
  content_hash = r.content_hash;
  data_version = r.data_version;
  source = r.source;
  payload = (r.target, r.horizon);
  payload_size_bytes = r.payload_size_bytes;
  schema_version = "input_snapshot.v1";
}

abbrev trace_of : Context → String → Trace
trace_of c node_id = record {
  trace_id = c.trace_id;
  span_id = "span";
  run_id = c.run_id;
  node_id = node_id;
  cell_id = "trend";
  formula_version = "v1";
  status = TraceStatus.succeeded;
  started_at = "t";
  finished_at = "t";
  duration_ms = 1;
  plan_id = c.plan_id;
  implementation_id = some "a";
  service_id = some "local";
  runtime = some python_local;
  retry_count = 0;
  error = none;
  metadata = [];
}

abbrev answer_of : Bundle (String × String) (Unit {0}) → Context → Outcome
answer_of b c = record {
  trace = trace_of c b.node_id;
  completion = completed (record {
    cell_id = "trend";
    target = b.analysis_request.target;
    horizon = b.analysis_request.horizon;
  });
  prior_traces = [];
  control_record = none;
}

abbrev environment : Environment
environment = record {
  World = ℕ;
  Payload = String × String;
  Body = Unit {0};
  hash = λ fields. "digest";
  cells = record { cell_id = "trend"; formula_version = "v1" } ∷ [];
  from_dict = λ (target, horizon). ok (record { target = target; horizon = horizon; body = tt });
  resolver_name = "memory";
  resolve = λ r w. (ok (snapshot_of r), w);
  execute = λ cell b children c w. (ok (answer_of b c), w);
  on_node_completed = none;
  has_signal = false;
}

abbrev validated : ValidatedPlan
validated = record { plan = pair; topological_levels = ("leaf" ∷ []) ∷ ("root" ∷ []) ∷ [] }

quiet : IsQuiet environment
unfolding IsQuiet
quiet = λ c w. refl

validated-pair : validate_execution_plan pair ≡ ok validated
unfolding validate_execution_plan collect stable_topological_levels level_loop sort_by count_known
    dependencies_of insert_by visit_level relax dependents_of mentions dependency_closure
    closure_loop extend service_binding_id
validated-pair = refl

execute_returns_example :
    (o : PlanOutcome) × (w : ℕ) × (execute environment validated "run" "trace" 0 ≡ (ok o, w))
    × (check_plan_outcome o ≡ ok tt)
    × IsSchedule pair (visit_order validated.topological_levels)
    × (IsCompleted (visit_order validated.topological_levels) o
        ⊎ IsFailed (visit_order validated.topological_levels) o)
execute_returns_example = execute_returns environment validated "run" "trace" 0 validated-pair quiet

-- After the leaf.
abbrev leaf_results : List (String × CellResult)
leaf_results = ("leaf", record { cell_id = "trend"; target = "BTC"; horizon = "1h" }) ∷ []

abbrev leaf_trace : Trace
leaf_trace = record {
  trace_id = "trace";
  span_id = "span";
  run_id = "run";
  node_id = "leaf";
  cell_id = "trend";
  formula_version = "v1";
  status = TraceStatus.succeeded;
  started_at = "t";
  finished_at = "t";
  duration_ms = 1;
  plan_id = some "p";
  implementation_id = some "a";
  service_id = some "local";
  runtime = some python_local;
  retry_count = 0;
  error = none;
  metadata = [];
}

abbrev only_reference : Reference
only_reference = reference "r" "analysis_request"

abbrev leaf_run : Run environment
leaf_run = record {
  world = 0;
  runtime_traces = leaf_trace ∷ [];
  execution_control_records = [];
  input_resolution_records =
      succeeded_record environment "leaf" only_reference false (snapshot_of only_reference) ∷ [];
  resolved_inputs = ("r", snapshot_of only_reference) ∷ [];
  materialized_requests = ("r", record { target = "BTC"; horizon = "1h"; body = tt }) ∷ [];
  trace = some leaf_trace;
  control_record = none;
}

run_level-leaf :
    run_level environment pair "run" "trace" ("leaf" ∷ []) (going [] [] (first_run 0))
    ≡ going leaf_results ("leaf" ∷ []) leaf_run
unfolding run_level run_node compose_cell_inputs check_bundle is_blank validate_execution_trace
    validate_cell_result service_binding_id
run_level-leaf = refl

keys_available_example :
    (◌≡◌ {A = List String} ("leaf" ∷ []) ("leaf" ∷ []))
    × ((n : Node) × (node_by_id pair "root" ≡ ok n) × HasKeys pair leaf_results n)
keys_available_example =
    keys_available environment validated "run" "trace" 0 validated-pair quiet ("leaf" ∷ []) []
      "root" refl leaf_results ("leaf" ∷ []) leaf_run run_level-leaf

abbrev leaf_node : Node
leaf_node = node_of "leaf" Role.leaf []

abbrev leaf_context : Context
leaf_context = record {
  run_id = "run";
  trace_id = "trace";
  plan_id = some "p";
  node = some leaf_node;
  binding = some (binding_of "a" false 1);
  input_bundle = none;
  fallback_bindings = [];
  idempotency_key = none;
  attempt_id = none;
  attempt_number = 0;
  timeout_ms = none;
  has_signal = false;
}

validate_execution_trace_context-leaf :
    validate_execution_trace_context leaf_trace leaf_context ≡ ok tt
unfolding validate_execution_trace_context service_binding_id
validate_execution_trace_context-leaf = refl

binding_by_id-leaf : binding_by_id pair leaf_node.binding_id ≡ ok (binding_of "a" false 1)
unfolding service_binding_id
binding_by_id-leaf = refl

planned_trace_accepted_example : validate_execution_trace leaf_trace (some pair) ≡ ok tt
planned_trace_accepted_example =
    planned_trace_accepted leaf_trace leaf_context validated leaf_node (binding_of "a" false 1)
      validated-pair refl refl refl refl binding_by_id-leaf validate_execution_trace_context-leaf
