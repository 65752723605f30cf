-- ===== src/Execution/Models.antt =====
-- market_cell/execution/models.py: the records that plans, executors and failure control share.
-- Durations are counted in units of 10⁻⁶ ms, to which the source rounds them; timeouts in ms.
-- The `schema_version` constants and `to_dict` views are left out.
pub mod Checks
pub mod Codes
pub mod Scans
use market_cell.Prelude.{ℕ, String, Bool, Option, List, ◌∷◌, map}
use Prim.Native.String.{◌++◌}

pub data Runtime : Type 0 where
  python_local python_service rust_service external_service : Runtime

pub data Role : Type 0 where
  leaf aggregator root : Role

pub data TraceStatus : Type 0 where
  succeeded failed skipped : TraceStatus

pub data FailureKind : Type 0 where
  routing dispatch execution timeout backpressure canceled contract : FailureKind

pub data AttemptStatus : Type 0 where
  succeeded failed timed_out backpressured canceled : AttemptStatus

pub data ControlStatus : Type 0 where
  succeeded failed canceled : ControlStatus

pub record ResourceHints : Type 0 where
  pub cpu_weight : String
  pub latency_sensitivity : String
  pub stateful : Bool
  pub expected_timeout_ms : ℕ
  pub max_retries : ℕ

-- The field `binding_id` is set by `__post_init__`, and is a function here.
pub record Binding : Type 0 where
  pub implementation_id : String
  pub cell_id : String
  pub service_id : String
  pub runtime : Runtime
  pub language : String
  pub formula_version : String
  pub endpoint : Option String
  pub task_queue : Option String
  pub priority : ℕ
  pub capabilities : List String
  pub supports_batch : Bool
  pub max_concurrency : Option ℕ
  pub resource_hints : ResourceHints

unfoldable pub service_binding_id : String → String → String
service_binding_id implementation_id service_id =
    "binding:" ++ (service_id ++ (":" ++ implementation_id))

abbrev pub binding_id : Binding → String
binding_id b = service_binding_id b.implementation_id b.service_id

pub record Node : Type 0 where
  pub node_id : String
  pub cell_id : String
  pub formula_version : String
  pub execution_role : Role
  pub binding_id : String
  pub fallback_binding_ids : List String
  pub dependencies : List String
  pub input_reference_ids : List String
  pub required_input_kinds : List String
  pub input_keys : List String
  pub output_keys : List String
  pub resource_hints : ResourceHints

-- The dictionary that failure control writes under "execution_control" in a trace's metadata.
pub record ControlStamp : Type 0 where
  pub attempt_id : String
  pub idempotency_key : String
  pub attempt_number : ℕ
  pub binding_attempt_number : ℕ
  pub fallback_index : ℕ
  pub timeout_ms : ℕ
  pub failure_kind : Option FailureKind
  pub placement_eligible : Bool

-- A value of a trace's metadata.
pub data Value : Type 0 where
  null : Value
  text : String → Value
  number : ℕ → Value
  flag : Bool → Value
  texts : List String → Value
  stamp : ControlStamp → Value

-- A dictionary: the first entry of a key counts, so `{**old, **new}` puts `new` in front.
abbrev pub Metadata : Type 0
Metadata = List (String × Value)

pub record Trace : Type 0 where
  pub trace_id : String
  pub span_id : String
  pub run_id : String
  pub node_id : String
  pub cell_id : String
  pub formula_version : String
  pub status : TraceStatus
  pub started_at : String
  pub finished_at : String
  pub duration_ms : ℕ
  pub plan_id : Option String
  pub implementation_id : Option String
  pub service_id : Option String
  pub runtime : Option Runtime
  pub retry_count : ℕ
  pub error : Option String
  pub metadata : Metadata

pub record Attempt : Type 0 where
  pub attempt_id : String
  pub idempotency_key : String
  pub attempt_number : ℕ
  pub binding_attempt_number : ℕ
  pub fallback_index : ℕ
  pub binding_id : String
  pub is_retry : Bool
  pub status : AttemptStatus
  pub failure_kind : Option FailureKind
  pub retryable : Bool
  pub started_at : String
  pub finished_at : String
  pub duration_ms : ℕ
  pub trace_span_id : Option String
  pub actual_implementation_id : Option String
  pub actual_service_id : Option String
  pub actual_runtime : Option Runtime
  pub error : Option String
  pub metadata : Metadata

pub record ControlRecord : Type 0 where
  pub control_id : String
  pub idempotency_key : String
  pub run_id : String
  pub plan_id : String
  pub node_id : String
  pub primary_binding_id : String
  pub fallback_binding_ids : List String
  pub status : ControlStatus
  pub attempts : List Attempt
  pub retry_count : ℕ
  pub fallback_count : ℕ
  pub final_binding_id : String
  pub final_failure_kind : Option FailureKind
  pub started_at : String
  pub finished_at : String

-- `[binding.binding_id for binding in bindings]`
abbrev pub binding_ids : List Binding → List String
binding_ids bindings = map (λ b. binding_id b) bindings
