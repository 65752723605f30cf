-- ===== src/Execution/Control/Conformity.antt =====
-- `validate_execution_control_record` of market_cell/execution/control.py: the record of a run against
-- the context and the traces. The names that the error lists are kept in the order of the checks.
use market_cell.Prelude.{
  String, Bool, false, not, ◌&&◌, Option, none, some, List, [], ◌∷◌, mem, any, last?, ◌==◌, Result,
  err, gather,
}
use market_cell.Execution.Models.{
  Binding, Node, Trace, Attempt, ControlRecord, binding_id, binding_ids,
}
use market_cell.Execution.Models.Codes.{same_texts}
use market_cell.Execution.Outcomes.{Context, span_ids}
use market_cell.Execution.Control.Identity.{
  Digest, execution_idempotency_key, execution_attempt_id, execution_control_id, or_computed,
}
use market_cell.Execution.Traces.{unless, raise_mismatches}

abbrev pub names_span : List String → Option String → Bool
names_span spans none = false
names_span spans (some span_id) = mem span_id spans

abbrev pub is_identified : Digest → String → List String → Attempt → Bool
is_identified hash key spans a =
    names_span spans a.trace_span_id
    && a.attempt_id == execution_attempt_id hash key a.binding_id a.attempt_number

-- `traces and record.attempts[-1].trace_span_id == traces[-1].span_id`; a control record has an
-- attempt, since its constructor demands one.
abbrev pub same_final : Option Attempt → Option Trace → Bool
same_final none _ = false
same_final (some a) none = false
same_final (some a) (some t) = names_span (t.span_id ∷ []) a.trace_span_id

abbrev pub record_mismatches :
    Digest → String → ControlRecord → Context → String → Node → Binding → List Trace → List String
record_mismatches hash key record' c plan_id n b traces = gather (
    unless (record'.control_id == execution_control_id hash key) "control_id"
    ∷ unless (record'.idempotency_key == key) "idempotency_key"
    ∷ unless (record'.run_id == c.run_id) "run_id"
    ∷ unless (record'.plan_id == plan_id) "plan_id"
    ∷ unless (record'.node_id == n.node_id) "node_id"
    ∷ unless (record'.primary_binding_id == binding_id b) "primary_binding_id"
    ∷ unless (same_texts record'.fallback_binding_ids (binding_ids c.fallback_bindings))
        "fallback_binding_ids"
    ∷ unless (not (any (λ a. not (is_identified hash key (span_ids traces) a)) record'.attempts))
        "attempt_identity"
    ∷ unless (same_final (last? record'.attempts) (last? traces)) "final_trace"
    ∷ [])

abbrev pub planned_record_check :
    Digest
    → ControlRecord
    → Context
    → List Trace
    → Option String
    → Option Node
    → Option Binding
    → Result (List String) (Unit {0})
planned_record_check hash record' c traces (some plan_id) (some n) (some b) =
    let key =
      or_computed c.idempotency_key (execution_idempotency_key hash c.run_id plan_id n.node_id) in
    raise_mismatches (record_mismatches hash key record' c plan_id n b traces)
planned_record_check hash record' c traces _ _ _ =
    err ("execution control validation requires planned context" ∷ [])

unfoldable pub validate_execution_control_record :
    Digest → ControlRecord → Context → List Trace → Result (List String) (Unit {0})
validate_execution_control_record hash record' c traces =
    planned_record_check hash record' c traces c.plan_id c.node c.binding
