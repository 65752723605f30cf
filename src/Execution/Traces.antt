-- ===== src/Execution/Traces.antt =====
-- `validate_execution_trace_context` of market_cell/execution/executor.py. The names that the error
-- lists are kept in the order in which they are found.
pub mod Matches
pub mod Planned
pub mod Agrees
use market_cell.Prelude.{
  ℕ, String, Bool, true, false, not, Option, none, some, List, [], ◌∷◌, ◌++◌, ◌==◌, Result, ok, err,
}
use market_cell.Execution.Models.{Binding, Node, Trace, binding_id}
use market_cell.Execution.Models.Codes.{same_option, same_runtime}
use market_cell.Execution.Outcomes.{Context}

-- `if a != b: mismatches.append(name)`, of the test whether they are equal
abbrev pub unless : Bool → String → List String
unless true name = []
unless false name = name ∷ []

abbrev pub same_text : Option String → Option String → Bool
same_text a b = same_option (λ x y. x == y) a b

abbrev pub node_mismatches : Trace → Option Node → List String
node_mismatches t none = "node" ∷ []
node_mismatches t (some n) =
    unless (t.node_id == n.node_id) "node_id"
    ++ unless (t.cell_id == n.cell_id) "cell_id"
    ++ unless (t.formula_version == n.formula_version) "formula_version"

abbrev pub planned_mismatches : Option Node → Binding → List String
planned_mismatches none b = []
planned_mismatches (some n) b =
    unless (n.binding_id == binding_id b) "node_binding_id"
    ++ unless (n.cell_id == b.cell_id) "binding_cell_id"
    ++ unless (n.formula_version == b.formula_version) "binding_formula_version"

abbrev pub binding_mismatches : Trace → Option Node → Option Binding → List String
binding_mismatches t planned none = "binding" ∷ []
binding_mismatches t planned (some b) =
    planned_mismatches planned b
    ++ (unless (same_text t.implementation_id (some b.implementation_id)) "implementation_id"
        ++ unless (same_text t.service_id (some b.service_id)) "service_id"
        ++ unless (same_option same_runtime t.runtime (some b.runtime)) "runtime")

abbrev pub context_mismatches : Trace → Context → List String
context_mismatches t c =
    unless (t.run_id == c.run_id) "run_id"
    ++ unless (t.trace_id == c.trace_id) "trace_id"
    ++ unless (same_text t.plan_id c.plan_id) "plan_id"
    ++ (node_mismatches t c.node ++ binding_mismatches t c.node c.binding)

abbrev pub raise_mismatches : List String → Result (List String) (Unit {0})
raise_mismatches [] = ok tt
raise_mismatches (m ∷ ms) = err (m ∷ ms)

-- The error is the list of the mismatches.
unfoldable pub validate_execution_trace_context : Trace → Context → Result (List String) (Unit {0})
validate_execution_trace_context t c = raise_mismatches (context_mismatches t c)
