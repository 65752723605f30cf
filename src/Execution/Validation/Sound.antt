-- ===== src/Execution/Validation/Sound.antt =====
-- No issue is found exactly on a plan that is well formed but for its cycles.
use market_cell.Prelude.{
  All-weaken, ◌≡◌, ◌↔◌, refl, ap, sym, ◌∙◌, subst, String, true, not, none, some, List, [], ◌∷◌,
  All, is_empty, is_empty-gather, is_empty-each, issue_if, mem, IsUnique, arith, ◌==◌, ◌&&◌, eq_iff,
  collect_iff, collect_same,
}
use market_cell.Execution.Models.{Node, Binding, binding_id, binding_ids}
use market_cell.Inputs.Models.{Reference, reference_ids}
use market_cell.Execution.Plans.{Plan, graph_node, graph_nodes, graph_of}
use market_cell.Execution.Validation.{
  Issue, issue_of, node_issue, node_ids, unique_nodes, unique_bindings, unique_input_references,
  validate_input_reference_scope, validate_root, validate_nodes, validate_binding_usage,
  validate_input_reference_usage, used_binding_ids, used_reference_ids, validate_reachability,
  issues_of, cycle_detected, unreachable_node, validate_node, duplicate_node_id,
  duplicate_binding_id, duplicate_input_reference_id, input_reference_scope_mismatch,
  unused_binding, unused_input_reference,
}
use market_cell.Execution.Validation.WellFormed.{IsWellFormed, IsExecutable}
use market_cell.Execution.Validation.Uses.{used_binding_iff, used_reference_iff}
use market_cell.Execution.Validation.Structure.{node_ids-graph_nodes, is_empty-validate_root}
use market_cell.Execution.Validation.Nodes.{validate_node_iff, issue_unless_iff}
use market_cell.Graph.Models.{GraphNode, vertices}
use market_cell.Graph.Topology.Acyclic.{IsAcyclic}
use market_cell.Graph.Validation as Graph
use market_cell.Graph.Validation.WellFormed.{IsNode, IsRooted}
use market_cell.Graph.Validation.Empty.{unreached_iff}
use market_cell.Graph.Validation.Roots.{validate_root_iff}
use market_cell.Graph.Closure.Correct.{Reach}

pub All-graph_nodes :
    (P : GraphNode → Type 0) (ns : List Node)
    → All (λ n. P (graph_node n)) ns ↔ All P (graph_nodes ns)
All-graph_nodes P [] = (λ p. tt, λ p. tt)
All-graph_nodes P (n ∷ ns) =
    let (there, back) = All-graph_nodes P ns in (λ (p, ps). (p, there ps), λ (p, ps). (p, back ps))

All-both_iff :
    (P Q : Node → Type 0) (ns : List Node) → All (λ n. P n × Q n) ns ↔ (All P ns × All Q ns)
All-both_iff P Q [] = (λ p. (tt, tt), λ p. tt)
All-both_iff P Q (n ∷ ns) =
    let (there, back) = All-both_iff P Q ns in
    (
      λ ((p, q), pqs). let (ps, qs) = there pqs in ((p, ps), (q, qs)),
      λ ((p, ps), (q, qs)). ((p, q), back (ps, qs)),
    )

module _ (p : Plan) where
  abbrev pub IsReachable : Type 0
  IsReachable =
      (j : String)
      → mem j (Graph.node_ids (graph_nodes p.nodes)) ≡ true
      → Reach (p.root_node_id ∷ []) (vertices (graph_nodes p.nodes)) j

  reachability_iff :
      mem p.root_node_id (Graph.node_ids (graph_nodes p.nodes)) ≡ true
      → (is_empty (validate_reachability p p.nodes) ≡ true) ↔ IsReachable
  reachability_iff m =
      let m' : mem p.root_node_id (node_ids p.nodes) ≡ true =
        ap (mem p.root_node_id) (sym (node_ids-graph_nodes p.nodes)) ∙ m in
      let (there, back) =
        unreached_iff {I = Issue} (λ id. issue_of unreachable_node (some id) none none none ∷ [])
          (p.root_node_id ∷ []) (graph_nodes p.nodes) (λ j. refl) in
      (λ h. there (rw m' at h), λ h. rw m' (back h))

  abbrev pub ScopedReferences : Type 0
  ScopedReferences = All (λ r. (r.target ≡ p.target) × (r.horizon ≡ p.horizon)) p.input_references

  scope_iff : (is_empty (validate_input_reference_scope p) ≡ true) ↔ ScopedReferences
  scope_iff =
      is_empty-each {I = Issue} (λ r. (r.target ≡ p.target) × (r.horizon ≡ p.horizon)) _
        p.input_references
        (λ r.
          let (a, b) =
            issue_unless_iff (r.target == p.target && r.horizon == p.horizon)
              (issue_of input_reference_scope_mismatch none none (some r.reference_id) none) in
          (
            λ h. (
              (eq_iff r.target p.target).0 (ground (arith, a h)),
              (eq_iff r.horizon p.horizon).0 (ground (arith, a h)),
            ),
            λ (t, h).
                b (
                  ground (arith, (eq_iff r.target p.target).1 t, (eq_iff r.horizon p.horizon).1 h)),
          ))

  abbrev pub UsedBindings : Type 0
  UsedBindings = All (λ b. mem (binding_id b) (used_binding_ids p.nodes) ≡ true) p.service_bindings

  binding_usage_iff : (is_empty (validate_binding_usage p) ≡ true) ↔ UsedBindings
  binding_usage_iff =
      is_empty-each {I = Issue} (λ b. mem (binding_id b) (used_binding_ids p.nodes) ≡ true) _
        p.service_bindings
        (λ b.
          issue_unless_iff (mem (binding_id b) (used_binding_ids p.nodes))
            (issue_of unused_binding none (some (binding_id b)) none none))

  abbrev pub UsedReferences : Type 0
  UsedReferences =
      All (λ r. mem r.reference_id (used_reference_ids p.nodes) ≡ true) p.input_references

  reference_usage_iff : (is_empty (validate_input_reference_usage p) ≡ true) ↔ UsedReferences
  reference_usage_iff =
      is_empty-each {I = Issue} (λ r. mem r.reference_id (used_reference_ids p.nodes) ≡ true) _
        p.input_references
        (λ r.
          issue_unless_iff (mem r.reference_id (used_reference_ids p.nodes))
            (issue_of unused_input_reference none none (some r.reference_id) none))

  abbrev pub SoundNodes : Type 0
  SoundNodes =
      All (IsNode (Graph.node_ids (graph_nodes p.nodes))) (graph_nodes p.nodes)
      × All (IsExecutable p.service_bindings p.input_references) p.nodes

  nodes_iff :
      (is_empty (validate_nodes p p.nodes p.service_bindings p.input_references) ≡ true)
      ↔ SoundNodes
  nodes_iff =
      let known = Graph.node_ids (graph_nodes p.nodes) in
      let (there, back) =
        is_empty-each {I = Issue}
          (λ n. IsNode known (graph_node n) × IsExecutable p.service_bindings p.input_references n)
          (validate_node p.nodes p.service_bindings p.input_references) p.nodes
          (validate_node_iff p.nodes p.service_bindings p.input_references) in
      let both =
        All-both_iff (λ n. IsNode known (graph_node n))
          (IsExecutable p.service_bindings p.input_references) p.nodes in
      let graph = All-graph_nodes (IsNode known) p.nodes in
      (λ h. let (a, b) = both.0 (there h) in (graph.0 a, b), λ (a, b). back (both.1 (graph.1 a, b)))

  -- All but the cycles.
  pub record IsSound : Type 0 where
    pub unique : IsUnique (Graph.node_ids (graph_nodes p.nodes))
    pub bindings : IsUnique (binding_ids p.service_bindings)
    pub references : IsUnique (reference_ids p.input_references)
    pub scope : ScopedReferences
    pub rooted : IsRooted (graph_of p)
    pub nodes : SoundNodes
    pub used_bindings : UsedBindings
    pub used_references : UsedReferences
    pub reached : IsReachable

  -- The issues over the mappings, which are the lists themselves where nothing repeats.
  abbrev parts :
      List Issue
      → List Issue
      → List Issue
      → List Node
      → List Binding
      → List Reference
      → List String
      → List (List Issue)
  parts node_issues binding_issues reference_issues ns bs rs cyclic =
      node_issues
      ∷ binding_issues
      ∷ reference_issues
      ∷ validate_input_reference_scope p
      ∷ validate_root p ns
      ∷ validate_nodes p ns bs rs
      ∷ validate_binding_usage p
      ∷ validate_input_reference_usage p
      ∷ issue_if (not (is_empty cyclic)) (issue_of cycle_detected none none none none)
      ∷ validate_reachability p ns
      ∷ []

  abbrev node_repeats : List Issue
  node_repeats = (unique_nodes p).1

  abbrev binding_repeats : List Issue
  binding_repeats = (unique_bindings p).1

  abbrev reference_repeats : List Issue
  reference_repeats = (unique_input_references p).1

  unique_nodes_iff :
      (is_empty node_repeats ≡ true) ↔ IsUnique (Graph.node_ids (graph_nodes p.nodes))
  unique_nodes_iff =
      let (there, back) =
        collect_iff (λ (n : Node). n.node_id) (λ n. node_issue duplicate_node_id n) p.nodes in
      let same = node_ids-graph_nodes p.nodes in
      (λ h. subst IsUnique (sym same) (there h), λ u. back (subst IsUnique same u))

  unique_bindings_iff :
      (is_empty binding_repeats ≡ true) ↔ IsUnique (binding_ids p.service_bindings)
  unique_bindings_iff =
      collect_iff (λ b. binding_id b)
        (λ b. issue_of duplicate_binding_id none (some (binding_id b)) none none) p.service_bindings

  unique_references_iff :
      (is_empty reference_repeats ≡ true) ↔ IsUnique (reference_ids p.input_references)
  unique_references_iff =
      collect_iff (λ (r : Reference). r.reference_id)
        (λ r. issue_of duplicate_input_reference_id none none (some r.reference_id) none)
        p.input_references

  -- Where nothing repeats, each mapping is its list.
  same_parts :
      (cyclic : List String)
      → is_empty node_repeats ≡ true
      → is_empty binding_repeats ≡ true
      → is_empty reference_repeats ≡ true
      → parts node_repeats binding_repeats reference_repeats
          (unique_nodes p).0
          (unique_bindings p).0
          (unique_input_references p).0
          cyclic
        ≡ parts node_repeats binding_repeats reference_repeats p.nodes p.service_bindings
            p.input_references cyclic
  same_parts cyclic a b c =
      let ns : (unique_nodes p).0 ≡ p.nodes =
        collect_same (λ n. n.node_id) (λ n. node_issue duplicate_node_id n) p.nodes
          ((collect_iff (λ n. n.node_id) (λ n. node_issue duplicate_node_id n) p.nodes).0 a) in
      let bs : (unique_bindings p).0 ≡ p.service_bindings =
        collect_same (λ b. binding_id b) _ p.service_bindings (unique_bindings_iff.0 b) in
      let rs : (unique_input_references p).0 ≡ p.input_references =
        collect_same (λ r. r.reference_id) _ p.input_references (unique_references_iff.0 c) in
      rw (ns, bs, rs) refl

  sound_iff :
      (cyclic : List String)
      → All
          (λ xs. is_empty xs ≡ true)
          (parts node_repeats binding_repeats reference_repeats p.nodes p.service_bindings
            p.input_references cyclic)
        ↔ (IsSound × (is_empty cyclic ≡ true))
  sound_iff cyclic =
      let cycle =
        issue_unless_iff (is_empty cyclic) (issue_of cycle_detected none none none none) in
      let root = is_empty-validate_root p in
      (
        λ (a, (b, (c, (d, (e, (f, (g, (h, (i, (j, _)))))))))).
            let unique = unique_nodes_iff.0 a in
            let rooted = (validate_root_iff (graph_of p) unique).0 (sym root ∙ e) in
            (
              record {
                unique = unique;
                bindings = unique_bindings_iff.0 b;
                references = unique_references_iff.0 c;
                scope = scope_iff.0 d;
                rooted = rooted;
                nodes = nodes_iff.0 f;
                used_bindings = binding_usage_iff.0 g;
                used_references = reference_usage_iff.0 h;
                reached = (reachability_iff rooted.present).0 j;
              },
              cycle.0 i,
            ),
        λ (w, none_cyclic). (
          unique_nodes_iff.1 w.unique,
          (
            unique_bindings_iff.1 w.bindings,
            (
              unique_references_iff.1 w.references,
              (
                scope_iff.1 w.scope,
                (
                  root ∙ (validate_root_iff (graph_of p) w.unique).1 w.rooted,
                  (
                    nodes_iff.1 w.nodes,
                    (
                      binding_usage_iff.1 w.used_bindings,
                      (
                        reference_usage_iff.1 w.used_references,
                        (
                          cycle.1 none_cyclic,
                          ((reachability_iff w.rooted.present).1 w.reached, tt),
                        ),
                      ),
                    ),
                  ),
                ),
              ),
            ),
          ),
        ),
      )

  pub issues_of_iff :
      (cyclic : List String)
      → (is_empty (issues_of p cyclic) ≡ true) ↔ (IsSound × (is_empty cyclic ≡ true))
  issues_of_iff cyclic =
      let code =
        parts node_repeats binding_repeats reference_repeats (unique_nodes p).0
          (unique_bindings p).0 (unique_input_references p).0 cyclic in
      let empties = is_empty-gather code in
      let sound = sound_iff cyclic in
      let Empties = All (λ xs. is_empty {A = Issue} xs ≡ true) in
      (
        λ h.
            let all' = empties.0 h in
            let (a, (b, (c, _))) = all' in sound.0 (subst Empties (same_parts cyclic a b c) all'),
        λ (w, none_cyclic). empties.1 (
            subst Empties
              (sym (
                same_parts cyclic (unique_nodes_iff.1 w.unique) (unique_bindings_iff.1 w.bindings)
                  (unique_references_iff.1 w.references)))
              (sound.1 (w, none_cyclic))),
      )

  pub well_formed : IsSound → IsAcyclic (vertices (graph_nodes p.nodes)) → IsWellFormed p
  well_formed w acyclic = record {
    graph = record {
      unique = w.unique;
      rooted = w.rooted;
      nodes = w.nodes.0;
      covered = tt;
      organ_ids = tt;
      organs = tt;
      acyclic = acyclic;
      reached = w.reached;
    };
    bindings = w.bindings;
    references = w.references;
    scope = w.scope;
    nodes = w.nodes.1;
    used_bindings =
        All-weaken p.service_bindings (λ b. (used_binding_iff p.nodes (binding_id b)).0)
          w.used_bindings;
    used_references =
        All-weaken p.input_references (λ r. (used_reference_iff p.nodes r.reference_id).0)
          w.used_references;
  }

  pub sound : IsWellFormed p → IsSound
  sound w = record {
    unique = w.graph.unique;
    bindings = w.bindings;
    references = w.references;
    scope = w.scope;
    rooted = w.graph.rooted;
    nodes = (w.graph.nodes, w.nodes);
    used_bindings =
        All-weaken p.service_bindings (λ b. (used_binding_iff p.nodes (binding_id b)).1)
          w.used_bindings;
    used_references =
        All-weaken p.input_references (λ r. (used_reference_iff p.nodes r.reference_id).1)
          w.used_references;
    reached = w.graph.reached;
  }
