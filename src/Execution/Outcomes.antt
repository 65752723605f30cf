-- ===== src/Execution/Outcomes.antt =====
-- market_cell/execution/executor.py: errors, contexts and outcomes of an execution.
-- `__post_init__` of an outcome demands exactly one of a result and an error: a sum here.
-- Of a message only its fixed words are kept.
pub mod Checked
use market_cell.Prelude.{
  ℕ, String, Bool, true, false, not, Option, none, some, List, [], ◌∷◌, ◌++◌, map, is_unique, ◌>>◌,
  raise_if,
}
use market_cell.Execution.Models.{
  Binding, Node, TraceStatus, Trace, ControlRecord, Metadata, texts, text,
}
use market_cell.Execution.Models.Checks.{Check}

-- The exception classes. `cell_execution_error` holds the name of CellExecutionError or of another
-- class below it, `foreign` that of a class that is not below it.
pub data ErrorClass : Type 0 where
  route_not_found dispatch_error timeout_error backpressure_error canceled_error : ErrorClass
  binding_error result_contract_error trace_mismatch_error : ErrorClass
  control_error : ErrorClass
  cell_execution_error : String → ErrorClass
  foreign : String → ErrorClass

pub record Error : Type 0 where
  pub class : ErrorClass
  pub message : String

-- `isinstance(exc, CellExecutionError)`
abbrev pub is_cell_execution_error : ErrorClass → Bool
is_cell_execution_error (foreign _) = false
is_cell_execution_error _ = true

-- What the executors read of a CellResult.
pub record CellResult : Type 0 where
  pub cell_id : String
  pub target : String
  pub horizon : String

pub data Completion : Type 0 where
  completed : CellResult → Completion
  failed : Error → Completion

pub record Outcome : Type 0 where
  pub trace : Trace
  pub completion : Completion
  pub prior_traces : List Trace
  pub control_record : Option ControlRecord

abbrev pub has_error : Completion → Bool
has_error (completed _) = false
has_error (failed _) = true

-- `CellExecutionOutcome.runtime_traces`
abbrev pub runtime_traces : Outcome → List Trace
runtime_traces o = o.prior_traces ++ o.trace ∷ []

abbrev pub status_matches : TraceStatus → Completion → Bool
status_matches TraceStatus.succeeded (completed _) = true
status_matches TraceStatus.failed (failed _) = true
status_matches _ _ = false

-- `[trace.span_id for trace in traces]`
abbrev pub span_ids : List Trace → List String
span_ids traces = map (λ t. t.span_id) traces

-- `CellExecutionOutcome.__post_init__`
unfoldable pub check_outcome : Outcome → Check
check_outcome o = do
  raise_if (not (status_matches o.trace.status o.completion))
      "execution outcome status does not match"
  raise_if (not (is_unique (span_ids (runtime_traces o))))
      "execution outcome trace span_id values must be unique"

-- The parts of a CellInputBundle that traces report.
pub record InputBundle : Type 0 where
  pub schema_version : String
  pub node_id : String
  pub required_input_kinds : List String
  pub reference_ids : List String
  pub snapshot_ids : List String

pub record Context : Type 0 where
  pub run_id : String
  pub trace_id : String
  pub plan_id : Option String
  pub node : Option Node
  pub binding : Option Binding
  pub input_bundle : Option InputBundle
  pub fallback_bindings : List Binding
  pub idempotency_key : Option String
  pub attempt_id : Option String
  pub attempt_number : ℕ
  pub timeout_ms : Option ℕ
  pub has_signal : Bool

-- What the executors read of a cell's manifest.
pub record CellIdentity : Type 0 where
  pub cell_id : String
  pub formula_version : String

abbrev bundle_metadata : Option InputBundle → Metadata
bundle_metadata none = []
bundle_metadata (some bundle) =
    ("input_bundle_schema_version", text bundle.schema_version)
    ∷ ("input_kinds", texts bundle.required_input_kinds)
    ∷ ("input_snapshot_ids", texts bundle.snapshot_ids)
    ∷ []

unfoldable pub cell_input_trace_metadata : Context → Metadata
cell_input_trace_metadata context = bundle_metadata context.input_bundle
