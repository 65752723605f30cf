-- ===== src/Graph/Validation/Dependencies.antt =====
-- `_validate_nodes` and `_validate_cell_implementations` find nothing exactly where each node's
-- dependencies and its cell are as they should be.
use market_cell.Prelude.{
  is_empty-append, is_empty-issue_if, is_empty-each, is_empty-each-mem, issue_if, each, ◌≡◌, ◌↔◌,
  refl, ap, ◌∙◌, String, Bool, true, not, ◌&&◌, Option, none, some, List, [], ◌∷◌, ◌++◌, All,
  is_empty, is_unique, is_unique→IsUnique, IsUnique→is_unique, mem, eq_iff, eq_refl, ◌==◌, arith,
}
use market_cell.Execution.Models.{Role}
use market_cell.Graph.Models.{GraphNode, Graph}
use market_cell.Graph.Validation.{
  issue_of, node_ids, is_leaf, dependency_issues, validate_node, validate_nodes,
  validate_cell_implementations, missing_dependency, missing_cell_implementation, Issue,
}
use market_cell.Graph.Validation.WellFormed.{IsNode, IsCovered}

is_leaf_iff : (r : Role) → (is_leaf r ≡ true) ↔ (r ≡ Role.leaf)
is_leaf_iff Role.leaf = (λ e. refl, λ e. refl)
is_leaf_iff Role.aggregator = (λ e. cc, λ e. cc)
is_leaf_iff Role.root = (λ e. cc, λ e. cc)

pub is_empty_iff : (xs : List String) → (is_empty xs ≡ true) ↔ (xs ≡ [])
is_empty_iff [] = (λ e. refl, λ e. refl)
is_empty_iff (x ∷ xs) = (λ e. cc, λ e. cc)

module _ (nodes : List GraphNode) (n : GraphNode) where
  abbrev is_proper : String → Bool
  is_proper d = not (d == n.node_id) && mem d (node_ids nodes)

  is_empty-dependency_issues : (d : String) → is_empty (dependency_issues nodes n d) ≡ is_proper d
  is_empty-dependency_issues d = ground (
    arith,
    is_empty-issue_if {I = Issue} (not (mem d (node_ids nodes)))
        (issue_of missing_dependency (some n.node_id) (some d) none none),
  )

  pub validate_node_iff : (is_empty (validate_node nodes n) ≡ true) ↔ IsNode (node_ids nodes) n
  validate_node_iff =
      let (there, back) =
        is_empty-each-mem is_proper (dependency_issues nodes n) n.dependencies
          is_empty-dependency_issues in
      let deps = each (dependency_issues nodes n) n.dependencies in
      let split : is_empty (validate_node nodes n) ≡ (
          not (is_leaf n.execution_role && not (is_empty n.dependencies))
          && (is_unique n.dependencies && is_empty deps)) =
        ground (
          arith,
          is_empty-append {A = Issue}
              (issue_if (is_leaf n.execution_role && not (is_empty n.dependencies)) _)
              (issue_if (not (is_unique n.dependencies)) _ ++ deps),
          is_empty-append {A = Issue} (issue_if (not (is_unique n.dependencies)) _) deps,
          is_empty-issue_if {I = Issue} (is_leaf n.execution_role && not (is_empty n.dependencies))
              _,
          is_empty-issue_if {I = Issue} (not (is_unique n.dependencies)) _,
        ) in
      (
        λ e. record {
          leaf = λ r.
              (is_empty_iff n.dependencies).0
                (ground (arith, e, split, (is_leaf_iff n.execution_role).1 r));
          once = is_unique→IsUnique n.dependencies (ground (arith, e, split));
          others = ground (arith, there (ground (arith, e, split)) n.node_id, eq_refl n.node_id);
          present = λ d m. ground (arith, there (ground (arith, e, split)) d m);
        },
        λ w.
            split
            ∙ ground (
              arith,
              (is_leaf_iff n.execution_role).0 _,
              (is_empty_iff n.dependencies).1 (w.leaf _),
              IsUnique→is_unique n.dependencies w.once,
              back (λ d m. ground (
                arith,
                m,
                w.present d m,
                eq_iff d n.node_id,
                ap (λ i. mem i n.dependencies) ((eq_iff d n.node_id).0 _),
                w.others,
              )),
            ),
      )

pub validate_nodes_iff :
    (g : Graph)
    → (is_empty (validate_nodes g g.nodes) ≡ true) ↔ All (IsNode (node_ids g.nodes)) g.nodes
validate_nodes_iff g =
    is_empty-each (IsNode (node_ids g.nodes)) (validate_node g.nodes) g.nodes
      (validate_node_iff g.nodes)

pub validate_cell_implementations_iff :
    (g : Graph) (manifests : Option (List String))
    → (is_empty (validate_cell_implementations g manifests) ≡ true) ↔ IsCovered g.nodes manifests
validate_cell_implementations_iff g none = (λ e. tt, λ e. refl)
validate_cell_implementations_iff g (some available) =
    is_empty-each (λ n. mem n.cell_id available ≡ true) _ g.nodes
      (λ n.
        let e =
          is_empty-issue_if {I = Issue} (not (mem n.cell_id available))
            (issue_of missing_cell_implementation (some n.node_id) none (some n.cell_id) none) in
        (λ h. ground (arith, e, h), λ h. e ∙ ground (arith, h)))
