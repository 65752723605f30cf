-- ===== src/Execution/Coordinator/Loop.antt =====
-- `PlanExecutionOutcome` and the loops of `PlanDrivenLocalCoordinator.execute`, of
-- market_cell/execution/coordinator.py. An exception that leaves `execute` is `escaped`.
use market_cell.Prelude.{
  String, not, ◌||◌, Option, none, some, List, [], ◌∷◌, ◌++◌, mem, is_none, Result, err, ok, ◌>>◌,
  raise_if, by_key, get, set, keys,
}
use market_cell.Execution.Models.{Node, Binding, Trace, ControlRecord}
use market_cell.Execution.Plans.{Plan}
use market_cell.Execution.Outcomes.{Error, foreign, CellResult}
use market_cell.Execution.Validation.{ValidatedPlan}
use market_cell.Inputs.Models.{ResolutionRecord}
use market_cell.Execution.Coordinator.Environment.{
  Environment, Run, NodeCompletion, error, key_error, value_or_key_error,
}
use market_cell.Execution.Coordinator.Node.{binding_by_id, run_node}

pub record PlanOutcome : Type 0 where
  pub coordinator : String
  pub plan_id : String
  pub root_node_id : String
  pub results_by_node_id : List (String × CellResult)
  pub runtime_traces : List Trace
  pub execution_control_records : List ControlRecord
  pub input_resolution_records : List ResolutionRecord
  pub execution_order : List String
  pub root_result : Option CellResult
  pub failed_node_id : Option String
  pub error : Option Error

-- `PlanExecutionOutcome.__post_init__`
abbrev pub check_completed : PlanOutcome → Option Error → Result String (Unit {0})
check_completed o none = do
  raise_if (is_none o.root_result || not (is_none o.failed_node_id))
      "successful plan execution requires a root result and no failed node"
  raise_if (not (mem o.root_node_id (keys o.results_by_node_id)))
      "root result must be stored by root_node_id"
check_completed o (some x) =
    raise_if (not (is_none o.root_result) || is_none o.failed_node_id)
      "failed plan execution requires an error and failed_node_id"

abbrev pub check_plan_outcome : PlanOutcome → Result String (Unit {0})
check_plan_outcome o = check_completed o o.error

-- Where the loops stand after a node.
pub data Progress (e : Environment) : Type 0 where
  going : List (String × CellResult) → List String → Run e → Progress e
  stopped : PlanOutcome → e.World → Progress e
  escaped : Error → e.World → Progress e

abbrev pub node_by_id : Plan → String → Result Error Node
node_by_id p id = value_or_key_error (by_key (λ n. n.node_id) id p.nodes)

module _ (e : Environment) where
  -- The constructor raises where its check fails.
  abbrev pub constructed : PlanOutcome → e.World → Result String (Unit {0}) → Progress e
  constructed o world (err message) = escaped (error (foreign "ValueError") message) world
  constructed o world (ok x) = stopped o world

  abbrev pub construct : PlanOutcome → e.World → Progress e
  construct o world = constructed o world (check_plan_outcome o)

  abbrev pub completion_of : Node → Run e → Option CellResult → Option Error → NodeCompletion
  completion_of n s result error = record {
    node_id = n.node_id;
    cell_id = n.cell_id;
    binding_id = n.binding_id;
    execution_role = n.execution_role;
    input_reference_ids = n.input_reference_ids;
    result = result;
    trace = s.trace;
    control_record = s.control_record;
    error = error;
  }

  -- The handler's exception, if there is a handler and it raises.
  abbrev pub notify :
      Option (NodeCompletion → e.World → Option Error × e.World)
      → NodeCompletion
      → e.World
      → Option Error × e.World
  notify none completion world = (none, world)
  notify (some handler) completion world = handler completion world

  abbrev pub unless_raised : Option Error × e.World → (e.World → Progress e) → Progress e
  unless_raised (some x, world) next = escaped x world
  unless_raised (none, world) next = next world

module _ (e : Environment) (p : Plan) where
  abbrev pub outcome_of :
      List (String × CellResult)
      → List String
      → Run e
      → Option CellResult
      → Option String
      → Option Error
      → PlanOutcome
  outcome_of results order s root_result failed_node_id error = record {
    coordinator = "plan_driven_local_coordinator_v0.2";
    plan_id = p.plan_id;
    root_node_id = p.root_node_id;
    results_by_node_id = results;
    runtime_traces = s.runtime_traces;
    execution_control_records = s.execution_control_records;
    input_resolution_records = s.input_resolution_records;
    execution_order = order;
    root_result = root_result;
    failed_node_id = failed_node_id;
    error = error;
  }

  -- What follows the `try` block.
  abbrev pub after_node :
      List (String × CellResult) → List String → Node → Result Error CellResult → Run e → Progress e
  after_node results order n (err x) s =
      unless_raised e (notify e e.on_node_completed (completion_of e n s none (some x)) s.world)
        (λ world. construct e (outcome_of results order s none (some n.node_id) (some x)) world)
  after_node results order n (ok result) s =
      unless_raised e
        (notify e e.on_node_completed (completion_of e n s (some result) none) s.world)
        (λ world. going (set n.node_id result results) order (record s { world = world }))

  abbrev pub conclude_with :
      List (String × CellResult) → List String → Run e → Option CellResult → Progress e
  conclude_with results order s none =
      construct e
        (outcome_of results order s none (some p.root_node_id)
          (some (error (foreign "RuntimeError") "plan completed without root result")))
        s.world
  conclude_with results order s (some root_result) =
      construct e (outcome_of results order s (some root_result) none none) s.world

  abbrev pub conclude : Progress e → Result Error PlanOutcome × e.World
  conclude (stopped o world) = (ok o, world)
  conclude (escaped x world) = (err x, world)
  conclude (going results order s) =
      answer_of (conclude_with results order s (get p.root_node_id results))
    where
      answer_of : Progress e → Result Error PlanOutcome × e.World
      answer_of (stopped o world) = (ok o, world)
      answer_of (escaped x world) = (err x, world)
      answer_of (going results order s) = (err key_error, s.world)

module _ (e : Environment) (p : Plan) (run_id trace_id : String) where
  abbrev pub start_node :
      List (String × CellResult) → List String → Run e → Node → Result Error Binding → Progress e
  start_node results order s n (err x) = escaped x s.world
  start_node results order s n (ok b) =
      let (answer, s') =
        run_node e p run_id trace_id results n b
          (record s { trace = none; control_record = none }) in
      after_node e p results (order ++ n.node_id ∷ []) n answer s'

  abbrev pub visit :
      List (String × CellResult) → List String → Run e → Result Error Node → Progress e
  visit results order s (err x) = escaped x s.world
  visit results order s (ok n) = start_node results order s n (binding_by_id p n.binding_id)

  -- The inner loop.
  unfoldable pub run_level : List String → Progress e → Progress e
  run_level [] progress = progress
  run_level (id ∷ ids) (stopped o world) = stopped o world
  run_level (id ∷ ids) (escaped x world) = escaped x world
  run_level (id ∷ ids) (going results order s) =
      run_level ids (visit results order s (node_by_id p id))

  -- The outer loop.
  unfoldable pub run_levels : List (List String) → Progress e → Progress e
  run_levels [] progress = progress
  run_levels (level ∷ levels) progress = run_levels levels (run_level level progress)

abbrev pub first_run : {e : Environment} → e.World → Run e
first_run world = record {
  world = world;
  runtime_traces = [];
  execution_control_records = [];
  input_resolution_records = [];
  resolved_inputs = [];
  materialized_requests = [];
  trace = none;
  control_record = none;
}

-- `PlanDrivenLocalCoordinator.execute`
unfoldable pub execute :
    (e : Environment)
    → ValidatedPlan
    → String
    → String
    → e.World
    → Result Error PlanOutcome × e.World
execute e v run_id trace_id world =
    conclude e v.plan
      (run_levels e v.plan run_id trace_id v.topological_levels (going [] [] (first_run world)))
