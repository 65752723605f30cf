-- ===== src/Graph/Validation/Exact.antt =====
-- Validation accepts exactly the well-formed graphs.
use market_cell.Prelude.{
  is_empty-append, is_empty-issue_if, issue_if, ◌≡◌, ◌↔◌, ◌⊎◌, refl, sym, ◌∙◌, subst, String, true,
  false, not, ◌&&◌, Option, none, some, List, [], ◌∷◌, ◌++◌, map, All, is_empty, mem, IsUnique, ok,
  err, arith, inl, inr,
}
use market_cell.Graph.Models.{GraphNode, Graph, vertices}
use market_cell.Graph.Topology.{stable_topological_levels}
use market_cell.Graph.Topology.Levels.{IsLayered, all_of}
use market_cell.Graph.Topology.Order.{
  IsTopological, stable_topological_levels-IsTopological, stable_topological_levels_acyclic,
}
use market_cell.Graph.Topology.Acyclic.{IsAcyclic, levels-IsAcyclic}
use market_cell.Graph.Validation.{
  Issue, issue_of, node_ids, unique_nodes, validate_root, validate_nodes,
  validate_cell_implementations, validate_organs, validate_reachability, issues_of, accept,
  validate_cell_graph_definition, invalid, unreachable_node, cycle_detected,
}
use market_cell.Graph.Validation.WellFormed.{IsRooted, IsWellFormed, IsNode, IsCovered, IsOrgan}
use market_cell.Graph.Validation.Empty.{unreached_iff}
use market_cell.Graph.Validation.Nodes.{unique_nodes-IsUnique, unique_nodes_iff, unique_nodes_same}
use market_cell.Graph.Validation.Roots.{validate_root_iff}
use market_cell.Graph.Validation.Dependencies.{
  validate_nodes_iff, validate_cell_implementations_iff,
}
use market_cell.Graph.Validation.Organs.{validate_organs_iff}
use market_cell.Graph.Closure.Correct.{Reach}

append_is_empty :
    (a b c d e f h : List Issue)
    → is_empty (a ++ b ++ c ++ d ++ e ++ f ++ h) ≡ (
        is_empty a
        && (is_empty b
            && (is_empty c && (is_empty d && (is_empty e && (is_empty f && is_empty h))))))
append_is_empty a b c d e f h = ground (
  arith,
  is_empty-append a (b ++ c ++ d ++ e ++ f ++ h),
  is_empty-append b (c ++ d ++ e ++ f ++ h),
  is_empty-append c (d ++ e ++ f ++ h),
  is_empty-append d (e ++ f ++ h),
  is_empty-append e (f ++ h),
  is_empty-append f h,
)

module _ (g : Graph) (manifests : Option (List String)) where
  IsReachable : Type 0
  IsReachable =
      (j : String)
      → mem j (node_ids g.nodes) ≡ true
      → Reach (g.root_node_id ∷ []) (vertices g.nodes) j

  -- All but the cycles.
  record IsSound : Type 0 where
    unique : IsUnique (node_ids g.nodes)
    rooted : IsRooted g
    nodes : All (IsNode (node_ids g.nodes)) g.nodes
    covered : IsCovered g.nodes manifests
    organ_ids : IsUnique (map (λ o. o.organ_id) g.organs)
    organs : All (IsOrgan g.nodes) g.organs
    reached : IsReachable

  reachability_iff :
      mem g.root_node_id (node_ids g.nodes) ≡ true
      → (is_empty (validate_reachability g g.nodes) ≡ true) ↔ IsReachable
  unfolding IsReachable
  reachability_iff m =
      let (there, back) =
        unreached_iff (λ id. issue_of unreachable_node (some id) none none none ∷ [])
          (g.root_node_id ∷ []) g.nodes (λ j. refl) in
      (λ h. there (rw m at h), λ h. rw m (back h))

  -- No issue is found exactly on a sound graph without cyclic nodes.
  abbrev parts : List GraphNode → List Issue → List String → List Issue
  parts nodes issues cyclic =
      issues
      ++ validate_root g nodes
      ++ validate_nodes g nodes
      ++ validate_cell_implementations g manifests
      ++ validate_organs g nodes
      ++ issue_if (not (is_empty cyclic)) (issue_of cycle_detected none none none none)
      ++ validate_reachability g nodes

  parts_iff :
      (issues : List Issue) (cyclic : List String)
      → (is_empty issues ≡ true) ↔ IsUnique (node_ids g.nodes)
      → (is_empty (parts g.nodes issues cyclic) ≡ true) ↔ (IsSound × (is_empty cyclic ≡ true))
  parts_iff issues cyclic (u, v) =
      let split =
        append_is_empty issues (validate_root g g.nodes) (validate_nodes g g.nodes)
          (validate_cell_implementations g manifests) (validate_organs g g.nodes)
          (issue_if (not (is_empty cyclic)) (issue_of cycle_detected none none none none))
          (validate_reachability g g.nodes) in
      let cycle =
        is_empty-issue_if (not (is_empty cyclic)) (issue_of cycle_detected none none none none) in
      let organs = validate_organs_iff g.nodes g.organs in
      (
        λ h.
            let unique = u (ground (arith, h, split)) in
            let rooted = (validate_root_iff g unique).0 (ground (arith, h, split)) in
            let (organ_ids, all') = organs.0 (ground (arith, h, split)) in
            (
              record {
                unique = unique;
                rooted = rooted;
                nodes = (validate_nodes_iff g).0 (ground (arith, h, split));
                covered =
                    (validate_cell_implementations_iff g manifests).0 (ground (arith, h, split));
                organ_ids = organ_ids;
                organs = all';
                reached = (reachability_iff rooted.present).0 (ground (arith, h, split));
              },
              ground (arith, h, split, cycle),
            ),
        λ (w, c).
            split
            ∙ ground (
              arith,
              cycle,
              c,
              v w.unique,
              (validate_root_iff g w.unique).1 w.rooted,
              (validate_nodes_iff g).1 w.nodes,
              (validate_cell_implementations_iff g manifests).1 w.covered,
              organs.1 (w.organ_ids, w.organs),
              (reachability_iff w.rooted.present).1 w.reached,
            ),
      )

  issues_of_iff :
      (cyclic : List String)
      → (is_empty (issues_of g manifests cyclic) ≡ true) ↔ (IsSound × (is_empty cyclic ≡ true))
  issues_of_iff cyclic =
      let (there, back) = parts_iff (unique_nodes g).1 cyclic (unique_nodes_iff g) in
      let nodes = (unique_nodes g).0 in
      let split =
        append_is_empty (unique_nodes g).1 (validate_root g nodes) (validate_nodes g nodes)
          (validate_cell_implementations g manifests) (validate_organs g nodes)
          (issue_if (not (is_empty cyclic)) (issue_of cycle_detected none none none none))
          (validate_reachability g nodes) in
      (
        λ h.
            let same = unique_nodes_same g ((unique_nodes_iff g).0 (ground (arith, h, split))) in
            there (subst (λ ns. is_empty (parts ns (unique_nodes g).1 cyclic) ≡ true) same h),
        λ (w, c).
            subst (λ ns. is_empty (parts ns (unique_nodes g).1 cyclic) ≡ true)
              (sym (unique_nodes_same g w.unique)) (back (w, c)),
      )

-- The levels hold every node, each behind its dependencies.
pub record AreLevels (nodes : List GraphNode) (levels : List (List String)) : Type 0 where
  pub unique : IsUnique (node_ids nodes)
  pub layered : IsLayered (vertices nodes) unique [] levels
  pub complete :
      (j : String)
      → mem j (node_ids nodes) ≡ true
      → mem j (all_of (vertices nodes) unique levels) ≡ true

abbrev pub AreAcyclicLevels : List (List String) → List GraphNode → Type 0
AreAcyclicLevels levels nodes = IsAcyclic (vertices nodes) × AreLevels nodes levels

pub acyclic_levels :
    (nodes : List GraphNode) (u : IsUnique (node_ids nodes)) (levels : List (List String))
    (cyclic : List String)
    → IsTopological (vertices nodes) u levels cyclic
    → is_empty cyclic ≡ true
    → AreAcyclicLevels levels nodes
acyclic_levels nodes u levels [] t e = (
  levels-IsAcyclic (vertices nodes) u levels t,
  record { unique = u; layered = t.layered; complete = λ j m. ground (arith, t.complete j m) },
)
acyclic_levels nodes u levels (x ∷ xs) t e = cc

accept_cases :
    (g : Graph) (levels : List (List String)) (issues : List Issue)
    → ((is_empty issues ≡ true)
        × (accept g levels issues ≡ ok (record { graph = g; topological_levels = levels })))
      ⊎ ((is_empty issues ≡ false)
          × ((i : Issue) × (is : List Issue) × (accept g levels issues ≡ err (invalid (i ∷ is)))))
accept_cases g levels [] = inl (refl, refl)
accept_cases g levels (i ∷ is) = inr (refl, (i, is, refl))

abbrev pub IsAccepted : Graph → Option (List String) → Type 0
IsAccepted g manifests =
    IsWellFormed g manifests
    × ((levels : List (List String)) × (validate_cell_graph_definition g manifests
          ≡ ok (record { graph = g; topological_levels = levels }))
        × AreLevels g.nodes levels)

abbrev pub IsRejected : Graph → Option (List String) → Type 0
IsRejected g manifests =
    (¬ IsWellFormed g manifests)
    × ((i : Issue) × (is : List Issue) × (validate_cell_graph_definition g manifests
          ≡ err (invalid (i ∷ is))))

module _ (g : Graph) (manifests : Option (List String)) where
  no_cycles :
      (u : IsUnique (node_ids (unique_nodes g).0)) (levels : List (List String))
      (cyclic : List String)
      → stable_topological_levels (vertices (unique_nodes g).0) ≡ some (levels, cyclic)
      → IsWellFormed g manifests
      → is_empty cyclic ≡ true
  no_cycles u levels cyclic e w =
      let (rank, ranked) =
        subst (λ ns. IsAcyclic (vertices ns)) (sym (unique_nodes_same g w.unique)) w.acyclic in
      let (levels', e', layered', complete') =
        stable_topological_levels_acyclic (vertices (unique_nodes g).0) u rank ranked in
      cc (e, e')

  -- Validation of any graph returns, with no fuel run out. It accepts exactly the well-formed
  -- graphs, with levels that hold every node behind its dependencies; on any other graph it raises
  -- a non-empty list of issues.
  pub validate_decides : IsAccepted g manifests ⊎ IsRejected g manifests
  unfolding validate_cell_graph_definition IsReachable
  validate_decides =
      let u = unique_nodes-IsUnique g in
      let (levels, cyclic, e, t) =
        stable_topological_levels-IsTopological (vertices (unique_nodes g).0) u in
      let (there, back) = issues_of_iff g manifests cyclic in
      elim (accept_cases g levels (issues_of g manifests cyclic)) [
        | inl (none_found, accepted) ↦
            let (w, c) = there none_found in
            let (acyclic, are) =
              subst (AreAcyclicLevels levels) (unique_nodes_same g w.unique)
                (acyclic_levels (unique_nodes g).0 u levels cyclic t c) in
            inl (
              record {
                unique = w.unique;
                rooted = w.rooted;
                nodes = w.nodes;
                covered = w.covered;
                organ_ids = w.organ_ids;
                organs = w.organs;
                acyclic = acyclic;
                reached = w.reached;
              },
              (levels, rw e accepted, are),
            )
        | inr (found, (i, is, rejected)) ↦ inr (
          λ w. ground (
            arith,
            found,
            back (
              record {
                unique = w.unique;
                rooted = w.rooted;
                nodes = w.nodes;
                covered = w.covered;
                organ_ids = w.organ_ids;
                organs = w.organs;
                reached = w.reached;
              },
              no_cycles u levels cyclic e w,
            ),
          ),
          (i, is, rw e rejected),
        )
      ]
