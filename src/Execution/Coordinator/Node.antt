-- ===== src/Execution/Coordinator/Node.antt =====
-- The run of one node: the `try` block of `PlanDrivenLocalCoordinator.execute`, with
-- `validate_cell_result` and `CellExecutionOutcome.unwrap` of market_cell/execution/executor.py and
-- `CellRegistry.resolve` of market_cell/registry.py.
use market_cell.Prelude.{
  String, Option, none, some, List, [], ◌∷◌, ◌++◌, map, ◌==◌, Result, err, ok, by_key, get,
}
use market_cell.Execution.Models.{Node, Binding, Trace, ControlRecord, binding_id}
use market_cell.Execution.Plans.{Plan}
use market_cell.Execution.Outcomes.{
  Error, ErrorClass, result_contract_error, trace_mismatch_error, control_error, foreign,
  CellResult, CellIdentity, Completion, completed, failed, Outcome, Context, InputBundle,
  runtime_traces,
}
use market_cell.Execution.Traces.{unless, raise_mismatches}
use market_cell.Execution.Traces.Planned.{validate_execution_trace}
use market_cell.Execution.Control.Conformity.{validate_execution_control_record}
use market_cell.Inputs.Models.{Request}
use market_cell.Inputs.Bundles.{Bundle}
use market_cell.Execution.Coordinator.Environment.{
  Environment, Run, Action, ◌>>=◌, ◌>>◌, lift, return, error, value_or_key_error,
}
use market_cell.Execution.Coordinator.Inputs.{compose_cell_inputs}

-- `unwrap`, where an outcome has exactly one of a result and an error.
abbrev pub unwrap : Completion → Result Error CellResult
unwrap (completed result) = ok result
unwrap (failed x) = err x

unfoldable pub validate_cell_result :
    {Body : Type 0} → CellIdentity → Request Body → CellResult → Result (List String) (Unit {0})
validate_cell_result cell request result = raise_mismatches (
    unless (result.cell_id == cell.cell_id) "cell_id"
    ++ (unless (result.target == request.target) "target"
        ++ unless (result.horizon == request.horizon) "horizon"))

-- The exception that a list of mismatches becomes.
abbrev pub or_mismatch : ErrorClass → Result (List String) (Unit {0}) → Result Error (Unit {0})
or_mismatch class (err names) = err (error class "mismatch")
or_mismatch class (ok x) = ok tt

abbrev pub resolve_cell : List CellIdentity → String → Result Error CellIdentity
resolve_cell cells id = elim (by_key (λ c. c.cell_id) id cells) [
  | none ↦ err (error (foreign "CellNotRegisteredError") "no local Cell implementation registered")
  | some cell ↦ ok cell
]

abbrev pub then_cons : {A : Type 0} → Result Error A → Result Error (List A) → Result Error (List A)
then_cons (err x) rest = err x
then_cons (ok a) (err x) = err x
then_cons (ok a) (ok as') = ok (a ∷ as')

-- `[results_by_node_id[dependency_id] for dependency_id in node.dependencies]`
abbrev pub results_of : List (String × CellResult) → List String → Result Error (List CellResult)
results_of results [] = ok []
results_of results (d ∷ ds) = then_cons (value_or_key_error (get d results)) (results_of results ds)

abbrev pub some_results : Result Error (List CellResult) → Result Error (Option (List CellResult))
some_results (err x) = err x
some_results (ok results) = ok (some results)

abbrev pub child_results :
    List (String × CellResult) → List String → Result Error (Option (List CellResult))
child_results results [] = ok none
child_results results (d ∷ ds) = some_results (results_of results (d ∷ ds))

abbrev pub binding_by_id : Plan → String → Result Error Binding
binding_by_id p id = value_or_key_error (by_key (λ b. binding_id b) id p.service_bindings)

abbrev pub fallback_bindings_of : Plan → List String → Result Error (List Binding)
fallback_bindings_of p [] = ok []
fallback_bindings_of p (id ∷ ids) = then_cons (binding_by_id p id) (fallback_bindings_of p ids)

abbrev pub bundle_view : {Payload Body : Type 0} → Bundle Payload Body → InputBundle
bundle_view b = record {
  schema_version = "cell_input_bundle.v1";
  node_id = b.node_id;
  required_input_kinds = b.required_input_kinds;
  reference_ids = map (λ i. i.reference.reference_id) b.resolved_inputs;
  snapshot_ids = map (λ i. i.snapshot.snapshot_id) b.resolved_inputs;
}

module _ (e : Environment) (p : Plan) (run_id trace_id : String) where
  abbrev pub context_of : Node → Binding → Bundle e.Payload e.Body → List Binding → Context
  context_of n b bundle fallbacks = record {
    run_id = run_id;
    trace_id = trace_id;
    plan_id = some p.plan_id;
    node = some n;
    binding = some b;
    input_bundle = some (bundle_view bundle);
    fallback_bindings = fallbacks;
    idempotency_key = none;
    attempt_id = none;
    attempt_number = 0;
    timeout_ms = none;
    has_signal = e.has_signal;
  }

  -- What is stored of an outcome before it is checked.
  abbrev pub store_outcome : Result Error Outcome → Run e → Result Error Outcome × Run e
  store_outcome (err x) s = (err x, s)
  store_outcome (ok o) s = (
    ok o,
    record s {
      trace = some o.trace;
      runtime_traces = s.runtime_traces ++ runtime_traces o;
      control_record = o.control_record;
    },
  )

  abbrev pub call_executor :
      CellIdentity → Bundle e.Payload e.Body → Option (List CellResult) → Context → Action e Outcome
  call_executor cell bundle children context s =
      let (answer, world) = e.execute cell bundle children context s.world in
      store_outcome answer (record s { world = world })

  abbrev pub check_control : Option ControlRecord → Context → List Trace → Action e (Unit {0})
  check_control none context traces s = (ok tt, s)
  check_control (some record') context traces s = (
    or_mismatch control_error (validate_execution_control_record e.hash record' context traces),
    record s { execution_control_records = s.execution_control_records ++ record' ∷ [] },
  )

  abbrev pub check_traces : List Trace → Result Error (Unit {0})
  check_traces [] = ok tt
  check_traces (t ∷ ts) =
      let rest = check_traces ts in
      elim (validate_execution_trace t (some p)) [
        | err names ↦ err (error trace_mismatch_error "mismatch")
        | ok x ↦ rest
      ]

  -- The `try` block.
  unfoldable pub run_node : List (String × CellResult) → Node → Binding → Action e CellResult
  run_node results n b = do
    cell ← lift (resolve_cell e.cells n.cell_id)
    bundle ← compose_cell_inputs e n p.input_references
    children ← lift (child_results results n.dependencies)
    fallbacks ← lift (fallback_bindings_of p n.fallback_binding_ids)
    outcome ← call_executor cell bundle children (context_of n b bundle fallbacks)
    check_control outcome.control_record (context_of n b bundle fallbacks) (runtime_traces outcome)
    lift (check_traces (runtime_traces outcome))
    result ← lift (unwrap outcome.completion)
    lift (
        or_mismatch result_contract_error
          (validate_cell_result cell bundle.analysis_request result))
    return result
