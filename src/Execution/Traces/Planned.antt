-- ===== src/Execution/Traces/Planned.antt =====
-- `validate_execution_trace` of market_cell/execution/executor.py: a trace against a plan. The names
-- that the error lists are kept in the order in which they are found. A runtime stands in metadata as
-- its text.
use market_cell.Prelude.{
  ℕ, zero, suc, String, Bool, true, false, ◌&&◌, ◌||◌, Option, none, some, List, [], ◌∷◌, ◌++◌,
  find, keep, mem, ◌==◌, Result, if◌then◌else◌, is_none,
}
use market_cell.Execution.Models.{
  Binding, Node, Trace, TraceStatus, Metadata, Value, text, stamp, binding_id,
}
use market_cell.Execution.Models.Codes.{same_option, same_runtime}
use market_cell.Execution.Control.Attempts.{runtime_name}
use market_cell.Execution.Plans.{Plan}
use market_cell.Execution.Traces.{unless, same_text, raise_mismatches}

-- `metadata.get(key)`
abbrev pub get_value : String → Metadata → Option Value
get_value key [] = none
get_value key ((k, v) ∷ rest) = let later = get_value key rest in if k == key then some v else later

abbrev pub is_text : String → Option Value → Bool
is_text expected (some (text given)) = given == expected
is_text expected _ = false

-- `_trace_fallback_index(trace) is not None`
abbrev pub positive : ℕ → Bool
positive zero = false
positive (suc n) = true

abbrev pub is_fallback_stamp : Option Value → Bool
is_fallback_stamp (some (stamp s)) = positive s.fallback_index
is_fallback_stamp _ = false

abbrev pub has_fallback_index : Trace → Bool
has_fallback_index t = is_fallback_stamp (get_value "execution_control" t.metadata)

abbrev pub is_failed : TraceStatus → Bool
is_failed TraceStatus.failed = true
is_failed _ = false

-- `actual_identity == (None, None, None)`
abbrev pub is_unidentified : Trace → Bool
is_unidentified t = is_none t.implementation_id && (is_none t.service_id && is_none t.runtime)

abbrev pub identity_mismatches : Trace → Option Node → List String
identity_mismatches t none = "node_id" ∷ []
identity_mismatches t (some n) =
    unless (t.cell_id == n.cell_id) "cell_id"
    ++ unless (t.formula_version == n.formula_version) "formula_version"

-- A binding that is not the node's own needs a fallback index.
abbrev pub fallback_mismatches : Trace → Option Node → Binding → List String
fallback_mismatches t none b = []
fallback_mismatches t (some n) b =
    unless (binding_id b == n.binding_id || has_fallback_index t) "fallback_control"

-- The branch of a trace that names no binding.
abbrev pub planned_binding_mismatches : Trace → Option Node → Option Binding → List String
planned_binding_mismatches t n none = "service_binding" ∷ []
planned_binding_mismatches t n (some b) =
    if is_failed t.status
    then unless
        (is_text b.implementation_id (get_value "planned_implementation_id" t.metadata)
          && (is_text b.service_id (get_value "planned_service_id" t.metadata)
              && is_text (runtime_name b.runtime) (get_value "planned_runtime" t.metadata)))
        "planned_service_binding"
      ++ fallback_mismatches t n b
    else "service_binding" ∷ []

abbrev pub matching_mismatches : Trace → Option Node → Option Binding → List String
matching_mismatches t n none = "service_binding" ∷ []
matching_mismatches t n (some b) = fallback_mismatches t n b

abbrev pub allowed_binding_ids : Option Node → List String
allowed_binding_ids none = []
allowed_binding_ids (some n) = n.binding_id ∷ n.fallback_binding_ids

abbrev pub allowed_bindings : Plan → Option Node → List Binding
allowed_bindings p n = keep (λ b. mem (binding_id b) (allowed_binding_ids n)) p.service_bindings

abbrev pub has_identity : Trace → Binding → Bool
has_identity t b =
    same_text t.implementation_id (some b.implementation_id)
    && (same_text t.service_id (some b.service_id)
        && same_option same_runtime t.runtime (some b.runtime))

abbrev pub binding_checks : Trace → Plan → Option Node → List String
binding_checks t p n =
    if is_unidentified t
    then planned_binding_mismatches t n (
        find (λ b. is_text (binding_id b) (get_value "planned_binding_id" t.metadata))
          (allowed_bindings p n))
    else matching_mismatches t n (find (has_identity t) (allowed_bindings p n))

abbrev pub plan_mismatches : Trace → Plan → Option Node → List String
plan_mismatches t p n =
    unless (same_text t.plan_id (some p.plan_id)) "plan_id"
    ++ (identity_mismatches t n ++ binding_checks t p n)

abbrev pub planned_node : Trace → Plan → Option Node
planned_node t p = find (λ n. n.node_id == t.node_id) p.nodes

unfoldable pub validate_execution_trace : Trace → Option Plan → Result (List String) (Unit {0})
validate_execution_trace t none = raise_mismatches (unless (is_none t.plan_id) "plan_id")
validate_execution_trace t (some p) = raise_mismatches (plan_mismatches t p (planned_node t p))
