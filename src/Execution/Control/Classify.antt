-- ===== src/Execution/Control/Classify.antt =====
-- The failure classification of execution/control.py.
use market_cell.Prelude.{String, Bool, true, false, not, ◌||◌, mem, if◌then◌else◌}
use market_cell.Execution.Models.{Binding, FailureKind}
use market_cell.Execution.Outcomes.{
  ErrorClass, route_not_found, dispatch_error, timeout_error, backpressure_error, canceled_error,
  binding_error, result_contract_error, trace_mismatch_error, Error,
}

pub record Classification : Type 0 where
  pub kind : FailureKind
  pub retryable : Bool
  pub allows_fallback : Bool

abbrev classification : FailureKind → Bool → Bool → Classification
classification kind retryable allows_fallback = record {
  kind = kind;
  retryable = retryable;
  allows_fallback = allows_fallback;
}

-- `DefaultFailureClassifier.classify`: no tested class is below another, so the order is free.
abbrev classify_class : ErrorClass → Classification
classify_class route_not_found = classification FailureKind.routing false true
classify_class dispatch_error = classification FailureKind.dispatch true true
classify_class timeout_error = classification FailureKind.timeout true true
classify_class backpressure_error = classification FailureKind.backpressure false true
classify_class canceled_error = classification FailureKind.canceled false false
classify_class binding_error = classification FailureKind.contract false false
classify_class result_contract_error = classification FailureKind.contract false false
classify_class trace_mismatch_error = classification FailureKind.contract false false
classify_class _ = classification FailureKind.execution false false

unfoldable pub default_classify : Error → Classification
default_classify error = classify_class error.class

abbrev pub idempotent_execution_capability : String
idempotent_execution_capability = "idempotent_execution"

-- `repeat_is_safe`
abbrev pub repeat_is_safe : Binding → Bool
repeat_is_safe binding =
    not binding.resource_hints.stateful || mem idempotent_execution_capability binding.capabilities

-- `kind in {"dispatch", "timeout"}`
abbrev pub is_ambiguous : FailureKind → Bool
is_ambiguous FailureKind.dispatch = true
is_ambiguous FailureKind.timeout = true
is_ambiguous _ = false

unfoldable pub effective_classification : Classification → Binding → Classification
effective_classification c binding =
    if repeat_is_safe binding || not (is_ambiguous c.kind)
    then c
    else record { kind = c.kind; retryable = false; allows_fallback = false }
