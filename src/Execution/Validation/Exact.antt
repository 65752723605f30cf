-- ===== src/Execution/Validation/Exact.antt =====
-- Validation accepts exactly the well-formed plans.
use market_cell.Prelude.{
  ◌≡◌, ◌⊎◌, refl, ap, sym, subst, String, true, false, some, List, [], ◌∷◌, is_empty, IsUnique, ok,
  err, arith, inl, inr, collect_same, collect-IsUnique,
}
use market_cell.Execution.Plans.{Plan, graph_nodes}
use market_cell.Execution.Validation.{
  Issue, node_issue, unique_nodes, issues_of, accept, validate_execution_plan, invalid,
  duplicate_node_id,
}
use market_cell.Execution.Validation.WellFormed.{IsWellFormed}
use market_cell.Execution.Validation.Structure.{node_ids-graph_nodes}
use market_cell.Graph.Models.{vertices}
use market_cell.Graph.Topology.{stable_topological_levels}
use market_cell.Graph.Topology.Order.{
  stable_topological_levels-IsTopological, stable_topological_levels_acyclic,
}
use market_cell.Graph.Topology.Acyclic.{IsAcyclic}
use market_cell.Graph.Validation as Graph
use market_cell.Graph.Validation.Exact.{AreLevels, AreAcyclicLevels, acyclic_levels}
use market_cell.Execution.Validation.Sound.{IsSound, issues_of_iff, well_formed, sound}

accept_cases :
    (p : Plan) (levels : List (List String)) (issues : List Issue)
    → ((is_empty issues ≡ true)
        × (accept p levels issues ≡ ok (record { plan = p; topological_levels = levels })))
      ⊎ ((is_empty issues ≡ false)
          × ((i : Issue) × (is : List Issue) × (accept p levels issues ≡ err (invalid (i ∷ is)))))
accept_cases p levels [] = inl (refl, refl)
accept_cases p levels (i ∷ is) = inr (refl, (i, is, refl))

abbrev pub IsAccepted : Plan → Type 0
IsAccepted p =
    IsWellFormed p
    × ((levels : List (List String)) × (validate_execution_plan p
          ≡ ok (record { plan = p; topological_levels = levels }))
        × AreLevels (graph_nodes p.nodes) levels)

abbrev pub IsRejected : Plan → Type 0
IsRejected p =
    (¬ IsWellFormed p)
    × ((i : Issue) × (is : List Issue) × (validate_execution_plan p ≡ err (invalid (i ∷ is))))

module _ (p : Plan) where
  mapped-IsUnique : IsUnique (Graph.node_ids (graph_nodes (unique_nodes p).0))
  mapped-IsUnique =
      subst IsUnique (sym (node_ids-graph_nodes (unique_nodes p).0))
        (collect-IsUnique (λ n. n.node_id) (λ n. node_issue duplicate_node_id n) p.nodes [] tt)

  mapped_same : IsSound p → graph_nodes (unique_nodes p).0 ≡ graph_nodes p.nodes
  mapped_same w = ap graph_nodes (
      collect_same (λ n. n.node_id) (λ n. node_issue duplicate_node_id n) p.nodes
        (subst IsUnique (node_ids-graph_nodes p.nodes) w.unique))

  no_cycles :
      (levels : List (List String)) (cyclic : List String)
      → stable_topological_levels (vertices (graph_nodes (unique_nodes p).0))
        ≡ some (levels, cyclic)
      → IsWellFormed p
      → is_empty cyclic ≡ true
  no_cycles levels cyclic e w =
      let (rank, ranked) =
        subst (λ ns. IsAcyclic (vertices ns)) (sym (mapped_same (sound p w))) w.graph.acyclic in
      let (levels', e', layered', complete') =
        stable_topological_levels_acyclic (vertices (graph_nodes (unique_nodes p).0))
          mapped-IsUnique rank ranked in
      cc (e, e')

  -- Validation of any plan returns, with no fuel run out. It accepts exactly the well-formed plans,
  -- with levels that hold every node behind its dependencies; on any other plan it raises a
  -- non-empty list of issues.
  pub validate_plan_decides : IsAccepted p ⊎ IsRejected p
  unfolding validate_execution_plan
  validate_plan_decides =
      let nodes = graph_nodes (unique_nodes p).0 in
      let (levels, cyclic, e, t) =
        stable_topological_levels-IsTopological (vertices nodes) mapped-IsUnique in
      let (there, back) = issues_of_iff p cyclic in
      elim (accept_cases p levels (issues_of p cyclic)) [
        | inl (none_found, accepted) ↦
            let (w, c) = there none_found in
            let (acyclic, are) =
              subst (AreAcyclicLevels levels) (mapped_same w)
                (acyclic_levels nodes mapped-IsUnique levels cyclic t c) in
            inl (well_formed p w acyclic, (levels, rw e accepted, are))
        | inr (found, (i, is, rejected)) ↦ inr (
          λ w. ground (arith, found, back (sound p w, no_cycles levels cyclic e w)),
          (i, is, rw e rejected),
        )
      ]
