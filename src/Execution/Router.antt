-- ===== src/Execution/Router.antt =====
-- market_cell/execution/router.py: the choice of an executor for a binding, and the call of it. The
-- routes are the dictionaries that the constructor keeps; a runtime is a key by its text.
pub mod Routed
use market_cell.Prelude.{
  ℕ, ◌-◌, String, Bool, true, false, Option, none, some, List, [], ◌∷◌, ◌++◌, get, is_none, not,
  Result, ok, err, ◌>>◌,
}
use Prim.Native.String.{◌++◌ as join}
use market_cell.Execution.Models.{
  Binding, Node, Trace, TraceStatus, Metadata, Value, text, null, flag, texts, binding_id,
}
use market_cell.Execution.Models.Checks.{Check}
use market_cell.Execution.Outcomes.{
  Error, ErrorClass, route_not_found, dispatch_error, trace_mismatch_error, Completion, failed,
  Outcome, Context, CellIdentity, cell_input_trace_metadata, check_outcome,
}
use market_cell.Execution.Control.Attempts.{runtime_name, class_name, error}
use market_cell.Execution.Control.Environment.{Reply, returned, returned_other, raised}
use market_cell.Execution.Traces.{validate_execution_trace_context}

pub record Executor (World : Type 0) : Type 0 where
  pub name : String
  pub execute : Context → World → Reply × World

pub record Clock (World : Type 0) : Type 0 where
  pub utc_now_iso : World → String × World
  pub uuid4_hex : World → String × World
  -- in units of 10⁻⁶ ms
  pub perf_counter : World → ℕ × World

pub data RouteKind : Type 0 where
  service runtime : RouteKind

pub record Route (World : Type 0) : Type 0 where
  pub kind : RouteKind
  pub key : String
  pub executor : Executor World

pub record Router (World : Type 0) : Type 0 where
  pub service_routes : List (String × Executor World)
  pub runtime_routes : List (String × Executor World)

abbrev pub kind_name : RouteKind → String
kind_name service = "service"
kind_name runtime = "runtime"

abbrev pub planned_binding_metadata : Option Binding → Metadata
planned_binding_metadata none = []
planned_binding_metadata (some b) =
    ("planned_binding_id", text (binding_id b))
    ∷ ("planned_implementation_id", text b.implementation_id)
    ∷ ("planned_service_id", text b.service_id)
    ∷ ("planned_runtime", text (runtime_name b.runtime))
    ∷ []

module _ {World : Type 0} where
  abbrev pub route_by : RouteKind → String → Option (Executor World) → Option (Route World)
  route_by kind key none = none
  route_by kind key (some x) = some (record { kind = kind; key = key; executor = x })

  abbrev pub or_route : Option (Route World) → Option (Route World) → Option (Route World)
  or_route none later = later
  or_route (some r) later = some r

  -- None where it raises ExecutorRouteNotFoundError.
  abbrev pub resolve_route : Router World → Binding → Option (Route World)
  resolve_route router b =
      or_route (route_by service b.service_id (get b.service_id router.service_routes)) (
        route_by runtime (runtime_name b.runtime)
          (get (runtime_name b.runtime) router.runtime_routes))

  abbrev pub route_metadata : Option Binding → Route World → Metadata
  route_metadata b r =
      planned_binding_metadata b
      ++ ("executor_router", text "executor_router_v0.1")
        ∷ ("route_kind", text (kind_name r.kind))
        ∷ ("route_key", text r.key)
        ∷ ("route_status", text "dispatched")
        ∷ ("routed_executor", text r.executor.name)
        ∷ []

  abbrev pub dispatch_metadata : Option Binding → Option (Route World) → Metadata
  dispatch_metadata b none = []
  dispatch_metadata b (some r) = ("route_status", text "dispatch_failed") ∷ route_metadata b r

  abbrev pub phase_of : Option (Route World) → String
  phase_of none = "routing"
  phase_of (some r) = "dispatch"

abbrev pub cause_metadata : Option String → Metadata
cause_metadata none = []
cause_metadata (some name) = ("cause_type", text name) ∷ []

abbrev pub node_id_of : CellIdentity → Option Node → String
node_id_of cell none = join "cell:" cell.cell_id
node_id_of cell (some n) = n.node_id

abbrev pub input_ids_of : Option Node → List String
input_ids_of none = []
input_ids_of (some n) = n.input_reference_ids

module _ {World : Type 0} (clock : Clock World) (cell : CellIdentity) (c : Context) where
  abbrev pub failure_metadata : Option (Route World) → Option String → Metadata
  failure_metadata route cause =
      cause_metadata cause
      ++ (dispatch_metadata c.binding route
          ++ (planned_binding_metadata c.binding
              ++ (cell_input_trace_metadata c
                  ++ ("executor", text "executor_router_v0.1")
                    ∷ ("execution_phase", text (phase_of route))
                    ∷ ("route_status", text "failed")
                    ∷ ("planned_binding", flag (not (is_none c.binding)))
                    ∷ ("input_reference_ids", texts (input_ids_of c.node))
                    ∷ [])))

  -- `_routing_failure`, with `_duration_ms(started)` in front
  unfoldable pub routing_failure :
      Error → String → ℕ → Option (Route World) → Option String → World → Outcome × World
  routing_failure e started_at started route cause w =
      let (now, w₁) = clock.perf_counter w in
      let (span, w₂) = clock.uuid4_hex w₁ in
      let (finished_at, w₃) = clock.utc_now_iso w₂ in
      (
        record {
          trace = record {
            trace_id = c.trace_id;
            span_id = span;
            run_id = c.run_id;
            node_id = node_id_of cell c.node;
            cell_id = cell.cell_id;
            formula_version = cell.formula_version;
            status = TraceStatus.failed;
            started_at = started_at;
            finished_at = finished_at;
            duration_ms = now - started;
            plan_id = c.plan_id;
            implementation_id = none;
            service_id = none;
            runtime = none;
            retry_count = 0;
            error = some e.message;
            metadata = failure_metadata route cause;
          };
          completion = failed e;
          prior_traces = [];
          control_record = none;
        },
        w₃,
      )

  abbrev pub status_name : TraceStatus → String
  status_name TraceStatus.succeeded = "succeeded"
  status_name TraceStatus.failed = "failed"
  status_name TraceStatus.skipped = "skipped"

  abbrev pub error_value : Option String → Value
  error_value none = null
  error_value (some e) = text e

  abbrev pub routed_trace : Binding → Route World → Trace → Trace
  routed_trace b route t = record t { metadata = route_metadata (some b) route ++ t.metadata }

  abbrev pub rejected_trace : Trace → Trace → Error → Trace
  rejected_trace routed t e = record routed {
    status = TraceStatus.failed;
    error = some e.message;
    metadata =
        ("route_status", text "trace_rejected")
        ∷ ("delegate_status", text (status_name t.status))
        ∷ ("delegate_error", error_value t.error)
        ∷ routed.metadata;
  }

  abbrev pub trace_error : Error
  trace_error = error trace_mismatch_error "does not match execution context"

  -- What becomes of the outcome whose trace was checked.
  abbrev pub judged : Outcome → Trace → Result (List String) (Unit {0}) → Outcome
  judged o routed (ok x) = record o { trace = routed }
  judged o routed (err names) = record {
    trace = rejected_trace routed o.trace trace_error;
    completion = failed trace_error;
    prior_traces = o.prior_traces;
    control_record = o.control_record;
  }

  abbrev pub accept_outcome : Binding → Route World → Outcome → Outcome
  accept_outcome b route o =
      judged o (routed_trace b route o.trace)
        (validate_execution_trace_context (routed_trace b route o.trace) c)

  abbrev pub dispatch_failure : Error
  dispatch_failure = error dispatch_error "executor raised while dispatching"

  abbrev pub after_dispatch : Binding → Route World → String → ℕ → Reply → World → Outcome × World
  after_dispatch b route started_at started (returned o) w = (accept_outcome b route o, w)
  after_dispatch b route started_at started (returned_other name) w =
      routing_failure dispatch_failure started_at started (some route) (some "TypeError") w
  after_dispatch b route started_at started (raised e) w =
      routing_failure dispatch_failure started_at started (some route) (some (class_name e.class)) w

  abbrev pub dispatch : Binding → String → ℕ → Option (Route World) → World → Outcome × World
  dispatch b started_at started none w =
      routing_failure (error route_not_found "no executor route for binding") started_at started
        none none w
  dispatch b started_at started (some route) w =
      let (reply, w₁) = route.executor.execute c w in
      after_dispatch b route started_at started reply w₁

  abbrev pub route_planned :
      Router World
      → String
      → ℕ
      → Option String
      → Option Node
      → Option Binding
      → World
      → Outcome × World
  route_planned router started_at started (some plan_id) (some n) (some b) w =
      dispatch b started_at started (resolve_route router b) w
  route_planned router started_at started _ _ _ w =
      routing_failure
        (error route_not_found
          "executor router requires plan_id, execution node, and service binding")
        started_at started none none w

  -- Every outcome is made by its constructor, which raises where its check fails.
  abbrev pub constructed_outcome : Outcome × World → Result String Outcome × World
  constructed_outcome (o, w) = (check_outcome o >> ok o, w)

  unfoldable pub route_execute : Router World → World → Result String Outcome × World
  route_execute router w =
      let (started_at, w₁) = clock.utc_now_iso w in
      let (started, w₂) = clock.perf_counter w₁ in
      constructed_outcome (route_planned router started_at started c.plan_id c.node c.binding w₂)
