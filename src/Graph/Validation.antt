-- ===== src/Graph/Validation.antt =====
-- market_cell/graph/validation.py. A function that appends to `issues` returns what it appends. The
-- texts of the messages are left out; a set is the list of its elements.
pub mod WellFormed
pub mod Empty
pub mod Nodes
pub mod Roots
pub mod Dependencies
pub mod Organs
pub mod Exact
use market_cell.Prelude.{
  ℕ, zero, suc, ◌+◌, String, Bool, true, false, not, ◌&&◌, ◌||◌, Option, none, some, List, [], ◌∷◌,
  ◌++◌, map, is_empty, keep, find, mem, distinct, is_unique, sorted, ◌==◌, Result, ok, err,
  if◌then◌else◌, issue_if, each, collect,
}
use market_cell.Execution.Models.{Role, leaf}
use market_cell.Execution.Models as Models
use market_cell.Graph.Models.{GraphNode, Organ, Graph, Vertex, vertices}
use market_cell.Graph.Topology.{ids, stable_topological_levels}
use market_cell.Graph.Closure.{dependency_closure}

pub data Code : Type 0 where
  duplicate_node_id : Code
  missing_root : Code
  invalid_root_role : Code
  unexpected_root_role : Code
  missing_dependency : Code
  duplicate_dependency : Code
  self_dependency : Code
  leaf_has_dependencies : Code
  cycle_detected : Code
  unreachable_node : Code
  missing_cell_implementation : Code
  duplicate_organ_id : Code
  duplicate_organ_node : Code
  duplicate_organ_output : Code
  organ_has_no_outputs : Code
  missing_organ_node : Code
  organ_output_not_member : Code
  organ_dependency_outside_subgraph : Code
  organ_unreachable_node : Code

pub record Issue : Type 0 where
  pub code : Code
  pub node_id : Option String
  pub dependency_id : Option String
  pub cell_id : Option String
  pub organ_id : Option String

abbrev pub issue_of : Code → Option String → Option String → Option String → Option String → Issue
issue_of code node_id dependency_id cell_id organ_id = record {
  code = code;
  node_id = node_id;
  dependency_id = dependency_id;
  cell_id = cell_id;
  organ_id = organ_id;
}

abbrev pub node_ids : List GraphNode → List String
node_ids nodes = ids (vertices nodes)

-- `node_by_id.get(id)`
abbrev pub node_of : String → List GraphNode → Option GraphNode
node_of id nodes = find (λ n. n.node_id == id) nodes

abbrev pub is_leaf : Role → Bool
is_leaf Role.leaf = true
is_leaf Role.aggregator = false
is_leaf Role.root = false

abbrev pub is_root : Role → Bool
is_root Role.leaf = false
is_root Role.aggregator = false
is_root Role.root = true

-- `_unique_nodes`
abbrev pub unique_nodes : Graph → List GraphNode × List Issue
unique_nodes g =
    collect (λ n. n.node_id) (λ n. issue_of duplicate_node_id (some n.node_id) none none none)
      g.nodes []

abbrev pub root_issues : Graph → Option GraphNode → List Issue
root_issues g none = issue_of missing_root (some g.root_node_id) none none none ∷ []
root_issues g (some root) =
    issue_if (not (is_root root.execution_role))
      (issue_of invalid_root_role (some root.node_id) none none none)

abbrev pub validate_root : Graph → List GraphNode → List Issue
validate_root g node_by_id =
    root_issues g (node_of g.root_node_id node_by_id)
    ++ each
        (λ n.
          issue_if (is_root n.execution_role && not (n.node_id == g.root_node_id))
            (issue_of unexpected_root_role (some n.node_id) none none none))
        g.nodes

abbrev pub dependency_issues : List GraphNode → GraphNode → String → List Issue
dependency_issues node_by_id n d =
    if d == n.node_id
    then issue_of self_dependency (some n.node_id) (some d) none none ∷ []
    else issue_if (not (mem d (node_ids node_by_id)))
        (issue_of missing_dependency (some n.node_id) (some d) none none)

-- The body of the loop of `_validate_nodes`.
abbrev pub validate_node : List GraphNode → GraphNode → List Issue
validate_node node_by_id n =
    issue_if (is_leaf n.execution_role && not (is_empty n.dependencies))
      (issue_of leaf_has_dependencies (some n.node_id) none none none)
    ++ issue_if (not (is_unique n.dependencies))
        (issue_of duplicate_dependency (some n.node_id) none none none)
    ++ each (dependency_issues node_by_id n) n.dependencies

abbrev pub validate_nodes : Graph → List GraphNode → List Issue
validate_nodes g node_by_id = each (validate_node node_by_id) g.nodes

-- The manifests are read for their `cell_id` only.
abbrev pub validate_cell_implementations : Graph → Option (List String) → List Issue
validate_cell_implementations g none = []
validate_cell_implementations g (some available_cell_ids) =
    each
      (λ n.
        issue_if (not (mem n.cell_id available_cell_ids))
          (issue_of missing_cell_implementation (some n.node_id) none (some n.cell_id) none))
      g.nodes

-- `existing_members`, in the order of the graph's nodes.
abbrev pub existing_members : Organ → List GraphNode → List GraphNode
existing_members organ node_by_id = keep (λ n. mem n.node_id organ.node_ids) node_by_id

abbrev pub outside_issues : Organ → List GraphNode → GraphNode → List Issue
outside_issues organ node_by_id n =
    each
      (λ d. issue_if (mem d (node_ids node_by_id) && not (mem d organ.node_ids)) (
        issue_of organ_dependency_outside_subgraph (some n.node_id) (some d) none
          (some organ.organ_id)))
      n.dependencies

abbrev pub valid_outputs : Organ → List GraphNode → List String
valid_outputs organ node_by_id =
    keep (λ id. mem id (node_ids (existing_members organ node_by_id))) organ.output_node_ids

-- The nodes that no walk from the roots reaches, in order.
abbrev pub unreached : List String → List GraphNode → List String
unreached roots nodes =
    sorted (keep (λ id. not (mem id (dependency_closure roots (vertices nodes)))) (node_ids nodes))

abbrev pub output_issues : Organ → List GraphNode → List String → List Issue
output_issues organ node_by_id [] = []
output_issues organ node_by_id (o ∷ os) =
    each (λ id. issue_of organ_unreachable_node (some id) none none (some organ.organ_id) ∷ [])
      (unreached (o ∷ os) (existing_members organ node_by_id))

abbrev pub member_issues : Organ → List GraphNode → List Issue
member_issues organ node_by_id =
    issue_if (not (is_unique organ.node_ids))
      (issue_of duplicate_organ_node none none none (some organ.organ_id))
    ++ issue_if (not (is_unique organ.output_node_ids))
        (issue_of duplicate_organ_output none none none (some organ.organ_id))
    ++ issue_if (is_empty organ.output_node_ids)
        (issue_of organ_has_no_outputs none none none (some organ.organ_id))
    ++ each
        (λ id.
          issue_if (not (mem id (node_ids node_by_id)))
            (issue_of missing_organ_node (some id) none none (some organ.organ_id)))
        organ.node_ids
    ++ each
        (λ id.
          issue_if (not (mem id organ.node_ids))
            (issue_of organ_output_not_member (some id) none none (some organ.organ_id)))
        organ.output_node_ids

abbrev pub validate_organ : List GraphNode → Organ → List Issue
validate_organ node_by_id organ =
    member_issues organ node_by_id
    ++ each (outside_issues organ node_by_id) (existing_members organ node_by_id)
    ++ output_issues organ node_by_id (valid_outputs organ node_by_id)

-- The loop of `_validate_organs`, with the identifiers seen so far.
unfoldable pub organs_from : List GraphNode → List String → List Organ → List Issue
organs_from node_by_id organ_ids [] = []
organs_from node_by_id organ_ids (o ∷ os) =
    issue_if (mem o.organ_id organ_ids)
      (issue_of duplicate_organ_id none none none (some o.organ_id))
    ++ validate_organ node_by_id o
    ++ organs_from node_by_id (o.organ_id ∷ organ_ids) os

abbrev pub validate_organs : Graph → List GraphNode → List Issue
validate_organs g node_by_id = organs_from node_by_id [] g.organs

abbrev pub validate_reachability : Graph → List GraphNode → List Issue
validate_reachability g node_by_id =
    if mem g.root_node_id (node_ids node_by_id)
    then each (λ id. issue_of unreachable_node (some id) none none none ∷ [])
        (unreached (g.root_node_id ∷ []) node_by_id)
    else []

pub record Validated : Type 0 where
  pub graph : Graph
  pub topological_levels : List (List String)

pub data GraphError : Type 0 where
  invalid : List Issue → GraphError
  out_of_fuel : GraphError

-- The issues of a graph whose cyclic nodes are known.
abbrev pub issues_of : Graph → Option (List String) → List String → List Issue
issues_of g manifests cyclic =
    let (node_by_id, issues) = unique_nodes g in
    issues
    ++ validate_root g node_by_id
    ++ validate_nodes g node_by_id
    ++ validate_cell_implementations g manifests
    ++ validate_organs g node_by_id
    ++ issue_if (not (is_empty cyclic)) (issue_of cycle_detected none none none none)
    ++ validate_reachability g node_by_id

abbrev pub accept : Graph → List (List String) → List Issue → Result GraphError Validated
accept g levels [] = ok (record { graph = g; topological_levels = levels })
accept g levels (i ∷ is) = err (invalid (i ∷ is))

abbrev pub judge :
    Graph
    → Option (List String)
    → Option (List (List String) × List String)
    → Result GraphError Validated
judge g manifests none = err out_of_fuel
judge g manifests (some (levels, cyclic)) = accept g levels (issues_of g manifests cyclic)

-- `manifests` are the identifiers of the registered cells, where they are given.
unfoldable pub validate_cell_graph_definition :
    Graph → Option (List String) → Result GraphError Validated
validate_cell_graph_definition g manifests =
    judge g manifests (stable_topological_levels (vertices (unique_nodes g).0))
