-- ===== src/Execution/Validation.antt =====
-- market_cell/execution/plan_validation.py. As in the validation of graphs, a function that appends
-- to `issues` returns what it appends, messages are left out, and a set is the list of its elements.
pub mod WellFormed
pub mod Uses
pub mod Kinds
pub mod Structure
pub mod Nodes
pub mod Sound
pub mod Exact
use market_cell.Prelude.{
  ℕ, zero, suc, String, Bool, true, false, not, ◌&&◌, Option, none, some, List, [], ◌∷◌, ◌++◌, map,
  is_empty, keep, find, mem, distinct, is_unique, sorted, ◌==◌, Result, ok, err, issue_if, each,
  gather, collect, if◌then◌else◌, get_elem?, length, leb,
}
use market_cell.Execution.Models.{Node, Binding, binding_id}
use market_cell.Execution.Models.Codes.{same_texts}
use market_cell.Execution.Plans.{Plan, graph_nodes}
use market_cell.Inputs.Models.{Reference, reference_ids}
use market_cell.Graph.Models.{GraphNode, vertices}
use market_cell.Graph.Topology.{stable_topological_levels}
use market_cell.Graph.Validation.{is_root, is_leaf, unreached}

pub data Code : Type 0 where
  duplicate_node_id duplicate_binding_id duplicate_input_reference_id : Code
  input_reference_scope_mismatch missing_root invalid_root_role unexpected_root_role : Code
  missing_dependency duplicate_dependency self_dependency leaf_has_dependencies : Code
  missing_binding binding_cell_mismatch binding_formula_mismatch : Code
  duplicate_fallback_binding primary_binding_in_fallback missing_fallback_binding : Code
  fallback_binding_cell_mismatch fallback_binding_formula_mismatch unused_binding : Code
  missing_node_input_reference duplicate_node_input_reference missing_input_reference : Code
  duplicate_required_input_kind missing_required_input_kind unexpected_input_kind : Code
  unused_input_reference cycle_detected unreachable_node : Code

pub record Issue : Type 0 where
  pub code : Code
  pub node_id : Option String
  pub binding_id : Option String
  pub reference_id : Option String
  pub dependency_id : Option String

abbrev pub issue_of : Code → Option String → Option String → Option String → Option String → Issue
issue_of code node_id binding_id reference_id dependency_id = record {
  code = code;
  node_id = node_id;
  binding_id = binding_id;
  reference_id = reference_id;
  dependency_id = dependency_id;
}

-- An issue about a node alone.
abbrev pub node_issue : Code → Node → Issue
node_issue code n = issue_of code (some n.node_id) none none none

abbrev pub node_ids : List Node → List String
node_ids nodes = map (λ n. n.node_id) nodes

abbrev pub unique_nodes : Plan → List Node × List Issue
unique_nodes p = collect (λ n. n.node_id) (λ n. node_issue duplicate_node_id n) p.nodes []

abbrev pub unique_bindings : Plan → List Binding × List Issue
unique_bindings p =
    collect (λ b. binding_id b)
      (λ b. issue_of duplicate_binding_id none (some (binding_id b)) none none) p.service_bindings
      []

abbrev pub unique_input_references : Plan → List Reference × List Issue
unique_input_references p =
    collect (λ r. r.reference_id)
      (λ r. issue_of duplicate_input_reference_id none none (some r.reference_id) none)
      p.input_references []

abbrev pub validate_input_reference_scope : Plan → List Issue
validate_input_reference_scope p =
    each
      (λ r.
        issue_if (not (r.target == p.target && r.horizon == p.horizon))
          (issue_of input_reference_scope_mismatch none none (some r.reference_id) none))
      p.input_references

-- `node_by_id.get(id)`
abbrev pub node_of : String → List Node → Option Node
node_of id nodes = find (λ n. n.node_id == id) nodes

abbrev pub root_issues : Plan → Option Node → List Issue
root_issues p none = issue_of missing_root (some p.root_node_id) none none none ∷ []
root_issues p (some root) =
    issue_if (not (is_root root.execution_role)) (node_issue invalid_root_role root)

abbrev pub validate_root : Plan → List Node → List Issue
validate_root p node_by_id =
    root_issues p (node_of p.root_node_id node_by_id)
    ++ each
        (λ n.
          issue_if (is_root n.execution_role && not (n.node_id == p.root_node_id))
            (node_issue unexpected_root_role n))
        p.nodes

-- The references of a node that the plan has, in the node's order.
abbrev pub known_references : List Reference → List String → List Reference
known_references references [] = []
known_references references (id ∷ ids) =
    let rest = known_references references ids in
    elim (find (λ r. r.reference_id == id) references) [ none ↦ rest | some r ↦ r ∷ rest ]

abbrev pub kinds_of : List Reference → List String
kinds_of references = map (λ r. r.input_kind) references

-- The references of one kind.
abbrev pub of_kind : String → List Reference → List Reference
of_kind kind references = keep (λ r. r.input_kind == kind) references

abbrev pub reference_at : List Reference → ℕ → Option String
reference_at references i = elim (get_elem? references i) [
  | none ↦ none
  | some r ↦ some r.reference_id
]

-- The first position at which two lists differ.
abbrev pub mismatch_index : List String → List String → ℕ
mismatch_index [] ys = 0
mismatch_index (x ∷ xs) [] = 0
mismatch_index (x ∷ xs) (y ∷ ys) =
    let later = mismatch_index xs ys in if x == y then suc later else 0

abbrev pub difference : List String → List String → List String
difference xs ys = sorted (keep (λ x. not (mem x ys)) (distinct xs))

-- The equality of two sets.
abbrev pub same_elements : List String → List String → Bool
same_elements xs ys = is_empty (difference xs ys) && is_empty (difference ys xs)

abbrev pub input_kind_issues : Node → List Reference → List Issue
input_kind_issues n known =
    let required = n.required_input_kinds in
    let referenced = kinds_of known in
    gather (
      issue_if (not (is_unique required)) (node_issue duplicate_required_input_kind n)
      ∷ issue_if (not (mem "analysis_request" required)) (node_issue missing_required_input_kind n)
      ∷ each (λ kind. node_issue missing_required_input_kind n ∷ [])
          (difference required referenced)
      ∷ each
          (λ kind.
            issue_of unexpected_input_kind (some n.node_id) none
              (reference_at (of_kind kind known) 0) none
            ∷ [])
          (difference referenced required)
      ∷ each
          (λ kind. issue_if (not (leb (length (of_kind kind known)) 1)) (
            issue_of unexpected_input_kind (some n.node_id) none
              (reference_at (of_kind kind known) 1) none))
          (sorted (distinct referenced))
      ∷ issue_if
          (is_unique required
            && (is_unique referenced
                && (same_elements required referenced && not (same_texts required referenced))))
          (issue_of unexpected_input_kind (some n.node_id) none
            (get_elem? n.input_reference_ids (mismatch_index required referenced)) none)
      ∷ [])

abbrev pub validate_node_input_kinds : Node → List Reference → List Issue
validate_node_input_kinds n reference_by_id =
    input_kind_issues n (known_references reference_by_id n.input_reference_ids)

abbrev pub dependency_issues : List Node → Node → String → List Issue
dependency_issues node_by_id n d =
    if d == n.node_id
    then issue_of self_dependency (some n.node_id) none none (some d) ∷ []
    else issue_if (not (mem d (node_ids node_by_id)))
        (issue_of missing_dependency (some n.node_id) none none (some d))

-- The codes for a primary and for a fallback binding.
abbrev pub either : Bool → Code → Code → Code
either true fallback primary = fallback
either false fallback primary = primary

abbrev pub bound_issues : Node → Bool → String → Option Binding → List Issue
bound_issues n fallback id none =
    issue_of (either fallback missing_fallback_binding missing_binding) (some n.node_id) (some id)
      none none
    ∷ []
bound_issues n fallback id (some b) =
    issue_if (not (n.cell_id == b.cell_id)) (
      issue_of (either fallback fallback_binding_cell_mismatch binding_cell_mismatch)
        (some n.node_id) (some (binding_id b)) none none)
    ++ issue_if (not (n.formula_version == b.formula_version)) (
        issue_of (either fallback fallback_binding_formula_mismatch binding_formula_mismatch)
          (some n.node_id) (some (binding_id b)) none none)

abbrev pub validate_node_binding : Node → List Binding → Bool → String → List Issue
validate_node_binding n binding_by_id fallback id =
    bound_issues n fallback id (find (λ b. binding_id b == id) binding_by_id)

-- The body of the loop of `_validate_nodes`.
abbrev pub validate_node : List Node → List Binding → List Reference → Node → List Issue
validate_node node_by_id binding_by_id reference_by_id n = gather (
    issue_if (is_leaf n.execution_role && not (is_empty n.dependencies))
      (node_issue leaf_has_dependencies n)
    ∷ issue_if (not (is_unique n.dependencies)) (node_issue duplicate_dependency n)
    ∷ issue_if (is_empty n.input_reference_ids) (node_issue missing_node_input_reference n)
    ∷ issue_if (not (is_unique n.input_reference_ids)) (node_issue duplicate_node_input_reference n)
    ∷ each
        (λ id.
          issue_if (not (mem id (reference_ids reference_by_id)))
            (issue_of missing_input_reference (some n.node_id) none (some id) none))
        n.input_reference_ids
    ∷ validate_node_input_kinds n reference_by_id
    ∷ each (dependency_issues node_by_id n) n.dependencies
    ∷ issue_if (not (is_unique n.fallback_binding_ids)) (node_issue duplicate_fallback_binding n)
    ∷ issue_if (mem n.binding_id n.fallback_binding_ids)
        (issue_of primary_binding_in_fallback (some n.node_id) (some n.binding_id) none none)
    ∷ validate_node_binding n binding_by_id false n.binding_id
    ∷ each (validate_node_binding n binding_by_id true) n.fallback_binding_ids
    ∷ [])

abbrev pub validate_nodes : Plan → List Node → List Binding → List Reference → List Issue
validate_nodes p node_by_id binding_by_id reference_by_id =
    each (validate_node node_by_id binding_by_id reference_by_id) p.nodes

abbrev pub used_binding_ids : List Node → List String
used_binding_ids [] = []
used_binding_ids (n ∷ ns) = (n.binding_id ∷ n.fallback_binding_ids) ++ used_binding_ids ns

abbrev pub validate_binding_usage : Plan → List Issue
validate_binding_usage p =
    each
      (λ b.
        issue_if (not (mem (binding_id b) (used_binding_ids p.nodes)))
          (issue_of unused_binding none (some (binding_id b)) none none))
      p.service_bindings

abbrev pub used_reference_ids : List Node → List String
used_reference_ids [] = []
used_reference_ids (n ∷ ns) = n.input_reference_ids ++ used_reference_ids ns

abbrev pub validate_input_reference_usage : Plan → List Issue
validate_input_reference_usage p =
    each
      (λ r.
        issue_if (not (mem r.reference_id (used_reference_ids p.nodes)))
          (issue_of unused_input_reference none none (some r.reference_id) none))
      p.input_references

abbrev pub validate_reachability : Plan → List Node → List Issue
validate_reachability p node_by_id =
    if mem p.root_node_id (node_ids node_by_id)
    then each (λ id. issue_of unreachable_node (some id) none none none ∷ [])
        (unreached (p.root_node_id ∷ []) (graph_nodes node_by_id))
    else []

pub record ValidatedPlan : Type 0 where
  pub plan : Plan
  pub topological_levels : List (List String)

pub data PlanError : Type 0 where
  invalid : List Issue → PlanError
  out_of_fuel : PlanError

-- The issues of a plan whose cyclic nodes are known.
abbrev pub issues_of : Plan → List String → List Issue
issues_of p cyclic =
    let (node_by_id, node_issues) = unique_nodes p in
    let (binding_by_id, binding_issues) = unique_bindings p in
    let (reference_by_id, reference_issues) = unique_input_references p in
    gather (
      node_issues
      ∷ binding_issues
      ∷ reference_issues
      ∷ validate_input_reference_scope p
      ∷ validate_root p node_by_id
      ∷ validate_nodes p node_by_id binding_by_id reference_by_id
      ∷ validate_binding_usage p
      ∷ validate_input_reference_usage p
      ∷ issue_if (not (is_empty cyclic)) (issue_of cycle_detected none none none none)
      ∷ validate_reachability p node_by_id
      ∷ [])

abbrev pub accept : Plan → List (List String) → List Issue → Result PlanError ValidatedPlan
accept p levels [] = ok (record { plan = p; topological_levels = levels })
accept p levels (i ∷ is) = err (invalid (i ∷ is))

abbrev pub judge : Plan → Option (List (List String) × List String) → Result PlanError ValidatedPlan
judge p none = err out_of_fuel
judge p (some (levels, cyclic)) = accept p levels (issues_of p cyclic)

unfoldable pub validate_execution_plan : Plan → Result PlanError ValidatedPlan
validate_execution_plan p =
    judge p (stable_topological_levels (vertices (graph_nodes (unique_nodes p).0)))
