-- ===== src/Execution/Control/Attempts.antt =====
-- One attempt: `_execute_attempt`, `_annotate_attempt_outcome` and `_attempt_record`.
use market_cell.Prelude.{
  ◌&&◌, ◌>>◌, ℕ, ◌-◌, ◌*◌, max, String, Bool, false, not, Option, none, some, [], ◌∷◌, ◌++◌, ltb,
  max_of, if◌then◌else◌,
}
use market_cell.Execution.Models.{
  Binding, Node, Runtime, python_local, python_service, rust_service, external_service, TraceStatus,
  Value, text, null, number, Metadata, binding_id,
}
use market_cell.Execution.Outcomes.{
  route_not_found, binding_error, result_contract_error, trace_mismatch_error, cell_execution_error,
  check_outcome, dispatch_error, timeout_error, backpressure_error, canceled_error, control_error,
  foreign, Error, ErrorClass, completed, failed, Completion, Outcome, has_error, runtime_traces,
  Context, is_cell_execution_error, cell_input_trace_metadata,
}
use market_cell.Execution.Models.Checks.{Check}
use market_cell.Execution.Control.Classify.{Classification, effective_classification}
use market_cell.Execution.Control.Environment.{
  Environment, Admission, granted, refused, broken, Reply, returned, returned_other, raised,
}

abbrev pub runtime_name : Runtime → String
runtime_name python_local = "python_local"
runtime_name python_service = "python_service"
runtime_name rust_service = "rust_service"
runtime_name external_service = "external_service"

-- `type(exc).__name__`
abbrev pub class_name : ErrorClass → String
class_name route_not_found = "ExecutorRouteNotFoundError"
class_name dispatch_error = "ExecutorDispatchError"
class_name timeout_error = "CellExecutionTimeoutError"
class_name backpressure_error = "CellExecutionBackpressureError"
class_name canceled_error = "CellExecutionCanceledError"
class_name binding_error = "CellExecutionBindingError"
class_name result_contract_error = "CellResultContractError"
class_name trace_mismatch_error = "ExecutionTraceMismatchError"
class_name control_error = "CellExecutionControlError"
class_name (cell_execution_error name) = name
class_name (foreign name) = name

abbrev pub error : ErrorClass → String → Error
error class message = record { class = class; message = message }

-- `_replace_outcome_error`
unfoldable pub replace_outcome_error : Outcome → Error → Metadata → Outcome
replace_outcome_error o e metadata = record {
  trace = record o.trace {
    status = TraceStatus.failed;
    error = some e.message;
    metadata = metadata ++ o.trace.metadata;
  };
  completion = failed e;
  prior_traces = o.prior_traces;
  control_record = none;
}

abbrev optional_text : Option String → Value
optional_text none = null
optional_text (some t) = text t

-- The outcome of an attempt, its duration, and the world behind it. `built` is what the constructors
-- of its outcomes answer: where that is an error, the attempt raises it.
pub record Attempted (W : Type 0) : Type 0 where
  pub outcome : Outcome
  pub built : Check
  pub duration_ms : ℕ
  pub world : W

module _ (env : Environment) where
  open env use {
    World, Lease, cell, utc_now_iso, uuid4_hex, perf_counter, is_cancellation_requested,
    try_acquire, release, delegate, admission_name, classify,
  }

  -- `_is_canceled`
  unfoldable pub is_canceled : Context → World → Bool × World
  is_canceled context w = if context.has_signal then is_cancellation_requested w else (false, w)

  -- `_boundary_failure`
  unfoldable pub boundary_failure :
      Context → Node → Binding → Error → String → Metadata → World → Outcome × World
  boundary_failure context node binding e phase metadata w =
      let (timestamp, w₁) = utc_now_iso w in
      let (span, w₂) = uuid4_hex w₁ in
      (
        record {
          trace = record {
            trace_id = context.trace_id;
            span_id = span;
            run_id = context.run_id;
            node_id = node.node_id;
            cell_id = cell.cell_id;
            formula_version = cell.formula_version;
            status = TraceStatus.failed;
            started_at = timestamp;
            finished_at = timestamp;
            duration_ms = 0;
            plan_id = context.plan_id;
            implementation_id = none;
            service_id = none;
            runtime = none;
            retry_count = 0;
            error = some e.message;
            metadata =
                metadata
                ++ (cell_input_trace_metadata context
                    ++ ("executor", text "failure_controlled_executor_v0.1")
                      ∷ ("execution_phase", text phase)
                      ∷ ("planned_binding_id", text (binding_id binding))
                      ∷ ("planned_implementation_id", text binding.implementation_id)
                      ∷ ("planned_service_id", text binding.service_id)
                      ∷ ("planned_runtime", text (runtime_name binding.runtime))
                      ∷ []);
          };
          completion = failed e;
          prior_traces = [];
          control_record = none;
        },
        w₂,
      )

  module _ (context : Context) (node : Node) (binding : Binding) (timeout_ms : ℕ) where
    abbrev pub boundary : Error → String → Metadata → World → Attempted World
    boundary e phase metadata w =
        let (o, w₁) = boundary_failure context node binding e phase metadata w in
        record { outcome = o; built = check_outcome o; duration_ms = 0; world = w₁ }

    -- The `except` around the delegate's call.
    unfoldable pub receive : Reply → World → Outcome × World
    receive (returned o) w = (o, w)
    receive (returned_other name) w =
        boundary_failure context node binding
          (error dispatch_error "raised before returning an outcome") "dispatch"
          (("cause_type", text "TypeError") ∷ []) w
    receive (raised e) w =
        boundary_failure context node binding
          (if is_cell_execution_error e.class
            then e
            else error dispatch_error "raised before returning an outcome")
          "dispatch" (("cause_type", text (class_name e.class)) ∷ []) w

    -- `if release_error is not None`
    unfoldable pub after_release : Option Error → Outcome → Outcome
    after_release none o = o
    after_release (some e) o =
        replace_outcome_error o (error control_error "admission lease release failed") (
          ("admission_release_status", text "failed")
          ∷ ("cause_type", text (class_name e.class))
          ∷ ("delegate_error", optional_text o.trace.error)
          ∷ [])

    -- The deadline, and the signal that is read only where the deadline was met.
    unfoldable pub after_deadline : Outcome → ℕ → World → Outcome × World
    after_deadline o duration w =
        if ltb (timeout_ms * 1_000_000) duration
        then (
          replace_outcome_error o (error timeout_error "exceeded timeout") (
              ("deadline_status", text "expired")
              ∷ ("timeout_ms", number timeout_ms)
              ∷ ("observed_duration_ms", number duration)
              ∷ []),
          w,
        )
        else (let (canceled, w₁) = is_canceled context w in
            (
              if canceled && not (has_error o.completion)
                  then replace_outcome_error o (error canceled_error "was canceled during attempt")
                      (("cancellation_status", text "observed_after_attempt") ∷ [])
                  else o,
              w₁,
            ))

    -- The delegate's call under a lease, which is released whatever the call does. An outcome that
    -- is passed on was made by the same constructor, which answers the same again.
    unfoldable pub run_leased : Lease → World → Attempted World
    run_leased lease w =
        let (started, w₁) = perf_counter w in
        let (reply, w₂) = delegate context w₁ in
        let (o, w₃) = receive reply w₂ in
        let (release_error, w₄) = release lease w₃ in
        let (ended, w₅) = perf_counter w₄ in
        let duration = max (ended - started) (max_of (λ t. t.duration_ms) (runtime_traces o)) in
        let released = after_release release_error o in
        let (o', w₆) = after_deadline released duration w₅ in
        record {
          outcome = o';
          built = check_outcome o >> (check_outcome released >> check_outcome o');
          duration_ms = duration;
          world = w₆;
        }

    unfoldable pub admit : Admission Lease → World → Attempted World
    admit (granted lease) w = run_leased lease w
    admit refused w =
        boundary (error backpressure_error "reached max_concurrency") "admission"
          (("admission_controller", text admission_name) ∷ []) w
    admit (broken e) w =
        boundary (error control_error "admission controller failed") "admission_control"
          (("cause_type", text (class_name e.class)) ∷ []) w

    -- `_execute_attempt`
    unfoldable pub execute_attempt : World → Attempted World
    execute_attempt w =
        let (canceled, w₁) = is_canceled context w in
        if canceled
        then boundary (error canceled_error "was canceled before attempt") "cancellation" [] w₁
        else (let (admission, w₂) = try_acquire binding w₁ in admit admission w₂)

  -- `None if outcome.error is None else _effective_classification(classify(error), binding)`
  unfoldable pub classification_of : Binding → Completion → Option Classification
  classification_of binding (completed _) = none
  classification_of binding (failed e) = some (effective_classification (classify e) binding)
