-- ===== src/Execution/Validation/Structure.antt =====
-- The structural checks of `_validate_root`, `_validate_nodes` and the reachability check find
-- nothing on a plan exactly where those of graph validation find nothing on its graph.
use market_cell.Prelude.{
  ◌≡◌, ◌↔◌, refl, ap, sym, ◌∙◌, String, Bool, true, not, ◌&&◌, none, some, List, [], ◌∷◌, ◌++◌,
  is_empty, is_empty-append, is_empty-append_iff, is_empty-issue_if, is_empty-each_same, mem,
  is_unique, issue_if, each, Bool-cases, inl, inr, arith, ◌==◌,
}
use market_cell.Execution.Models.{Node}
use market_cell.Execution.Plans.{Plan, graph_node, graph_nodes, graph_of}
use market_cell.Execution.Validation.{
  Issue, node_ids, node_of, root_issues, validate_root, dependency_issues, node_issue,
  unexpected_root_role,
}
use market_cell.Graph.Models.{GraphNode}
use market_cell.Graph.Validation.{is_leaf, is_root}
use market_cell.Graph.Validation as Graph
use market_cell.Graph.Validation.WellFormed.{IsNode}
use market_cell.Graph.Validation.Dependencies as Dependencies

pub node_ids-graph_nodes : (ns : List Node) → Graph.node_ids (graph_nodes ns) ≡ node_ids ns
node_ids-graph_nodes [] = refl
node_ids-graph_nodes (n ∷ ns) = ap (λ ids. n.node_id ∷ ids) (node_ids-graph_nodes ns)

is_empty-root_issues :
    (p : Plan) (id : String) (ns : List Node)
    → is_empty (root_issues p (node_of id ns))
      ≡ is_empty (Graph.root_issues (graph_of p) (Graph.node_of id (graph_nodes ns)))
is_empty-root_issues p id [] = refl
is_empty-root_issues p id (n ∷ ns) = elim (Bool-cases (n.node_id == id)) [
  | inl e ↦ rw e (is_empty-issue_if _ _ ∙ sym (is_empty-issue_if _ _))
  | inr e ↦ rw e (is_empty-root_issues p id ns)
]

is_empty-each_map :
    (f : Node → List Issue) (h : GraphNode → List Graph.Issue) (ns : List Node)
    → ((n : Node) → is_empty (f n) ≡ is_empty (h (graph_node n)))
    → is_empty (each f ns) ≡ is_empty (each h (graph_nodes ns))
is_empty-each_map f h [] same = refl
is_empty-each_map f h (n ∷ ns) same = ground (
  arith,
  is_empty-append (f n) (each f ns),
  is_empty-append (h (graph_node n)) (each h (graph_nodes ns)),
  same n,
  is_empty-each_map f h ns same,
)

is_empty-append_same :
    (xs ys : List Issue) (zs ws : List Graph.Issue)
    → is_empty xs ≡ is_empty zs
    → is_empty ys ≡ is_empty ws
    → is_empty (xs ++ ys) ≡ is_empty (zs ++ ws)
is_empty-append_same xs ys zs ws e f =
    ground (arith, is_empty-append xs ys, is_empty-append zs ws, e, f)

abbrev other_root : Plan → Node → List Issue
other_root p n =
    issue_if (is_root n.execution_role && not (n.node_id == p.root_node_id))
      (node_issue unexpected_root_role n)

abbrev other_graph_root : Plan → GraphNode → List Graph.Issue
other_graph_root p n =
    issue_if (is_root n.execution_role && not (n.node_id == p.root_node_id))
      (Graph.issue_of Graph.unexpected_root_role (some n.node_id) none none none)

pub is_empty-validate_root :
    (p : Plan)
    → is_empty (validate_root p p.nodes)
      ≡ is_empty (Graph.validate_root (graph_of p) (graph_nodes p.nodes))
is_empty-validate_root p =
    is_empty-append_same (root_issues p (node_of p.root_node_id p.nodes))
      (each (other_root p) p.nodes)
      (Graph.root_issues (graph_of p) (Graph.node_of p.root_node_id (graph_nodes p.nodes)))
      (each (other_graph_root p) (graph_nodes p.nodes))
      (is_empty-root_issues p p.root_node_id p.nodes)
      (is_empty-each_map (other_root p) (other_graph_root p) p.nodes (λ n.
        is_empty-issue_if {I = Issue}
          (is_root n.execution_role && not (n.node_id == p.root_node_id)) _
        ∙ sym (
            is_empty-issue_if {I = Graph.Issue}
              (is_root n.execution_role && not (n.node_id == p.root_node_id)) _)))

is_empty-dependency_issues :
    (ns : List Node) (n : Node) (d : String)
    → is_empty (dependency_issues ns n d)
      ≡ is_empty (Graph.dependency_issues (graph_nodes ns) (graph_node n) d)
is_empty-dependency_issues ns n d = elim (Bool-cases (d == n.node_id)) [
  | inl e ↦ rw e refl
  | inr e ↦ rw e (
      is_empty-issue_if (not (mem d (node_ids ns))) _
      ∙ (ap (λ ids. not (not (mem d ids))) (sym (node_ids-graph_nodes ns))
          ∙ sym (is_empty-issue_if (not (mem d (Graph.node_ids (graph_nodes ns)))) _)))
]

-- The checks of the role and of the dependencies of a node.
pub dependencies_iff :
    (ns : List Node) (n : Node) (leaf repeated : Issue)
    → ((is_empty (issue_if (is_leaf n.execution_role && not (is_empty n.dependencies)) leaf) ≡ true)
        × (is_empty (issue_if (not (is_unique n.dependencies)) repeated) ≡ true)
        × (is_empty (each (dependency_issues ns n) n.dependencies) ≡ true))
      ↔ IsNode (Graph.node_ids (graph_nodes ns)) (graph_node n)
dependencies_iff ns n leaf repeated =
    let (there, back) = Dependencies.validate_node_iff (graph_nodes ns) (graph_node n) in
    let same =
      is_empty-each_same (dependency_issues ns n)
        (Graph.dependency_issues (graph_nodes ns) (graph_node n)) n.dependencies
        (is_empty-dependency_issues ns n) in
    let leaves = is_leaf n.execution_role && not (is_empty n.dependencies) in
    let repeats = not (is_unique n.dependencies) in
    let role : List Graph.Issue =
      issue_if leaves
        (Graph.issue_of Graph.leaf_has_dependencies (some n.node_id) none none none) in
    let again : List Graph.Issue =
      issue_if repeats
        (Graph.issue_of Graph.duplicate_dependency (some n.node_id) none none none) in
    let first =
      is_empty-append_iff (role ++ again)
        (each (Graph.dependency_issues (graph_nodes ns) (graph_node n)) n.dependencies) in
    let second = is_empty-append_iff role again in
    let switch = λ (b : Bool) (i : Issue) (j : Graph.Issue).
      is_empty-issue_if b i ∙ sym (is_empty-issue_if b j) in
    (
      λ (a, b, c). there (
          first.1 (
            second.1 (sym (switch leaves leaf _) ∙ a, sym (switch repeats repeated _) ∙ b),
            sym same ∙ c,
          )),
      λ w.
          let (ab, c) = first.0 (back w) in
          let (a, b) = second.0 ab in
          (switch leaves leaf _ ∙ a, switch repeats repeated _ ∙ b, same ∙ c),
    )
