-- ===== src/Execution/Coordinator/Available.antt =====
-- When the loops reach a node of an accepted plan, every dictionary of the `try` block has the keys
-- that the node asks for.
use market_cell.Prelude.{
  ◌≡◌, inl, inr, refl, ap, sym, ◌∙◌, subst, String, true, false, Option, none, some, List, [], ◌∷◌,
  ◌++◌, append_assoc, mem, mem-append, IsUnique, ok, arith, keys, get-found, by_key, by_key-found,
  by_key-All, by_key-cases, by_key-mem, find-mem, ◌==◌, eq_iff, eq_refl,
}
use market_cell.Execution.Models.{Node, Binding, binding_id, binding_ids}
use market_cell.Execution.Plans.{Plan, graph_node, graph_nodes}
use market_cell.Execution.Outcomes.{CellResult}
use market_cell.Inputs.Models.{Reference}
use market_cell.Graph.Models.{Vertex, vertices}
use market_cell.Graph.Topology.{ids as vertex_ids, dependencies_of}
use market_cell.Graph.Validation as Graph
use market_cell.Graph.Validation.WellFormed.{IsNode}
use market_cell.Execution.Validation.{ValidatedPlan, validate_execution_plan, node_ids}
use market_cell.Execution.Validation.WellFormed.{IsWellFormed, IsExecutable, IsBound}
use market_cell.Execution.Validation.Structure.{node_ids-graph_nodes}
use market_cell.Execution.Validation.Sound.{All-graph_nodes}
use market_cell.Execution.Coordinator.Environment.{Environment, Run}
use market_cell.Execution.Coordinator.Inputs.{reference_by_id}
use market_cell.Execution.Coordinator.Node.{
  binding_by_id, child_results, results_of, fallback_bindings_of,
}
use market_cell.Execution.Coordinator.Loop.{Progress, going, node_by_id, run_level, first_run}
use market_cell.Execution.Coordinator.Order.{IsOrdered}
use market_cell.Execution.Coordinator.Visits.{IsQuiet, run_level-Went}
use market_cell.Execution.Coordinator.Returns.{
  accepted_plan, node_by_id-IsReady, visit_order-IsSchedule, visit_order,
}

-- What the node at this place of the order depends on was run before it.
IsOrdered-split :
    (vs : List Vertex) (done front back : List String) (id : String)
    → IsOrdered vs done (front ++ id ∷ back)
    → IsOrdered vs done front
      × (mem id (vertex_ids vs) ≡ true)
      × ((d : String)
          → mem d (dependencies_of vs id) ≡ true
          → mem d (vertex_ids vs) ≡ true
          → mem d (done ++ front) ≡ true)
IsOrdered-split vs done [] back id (known, fresh, behind, later) =
    (tt, known, λ d m k. ground (arith, behind d m k, mem-append d done []))
IsOrdered-split vs done (x ∷ xs) back id (known, fresh, behind, later) =
    let (a, b, c) = IsOrdered-split vs (done ++ x ∷ []) xs back id later in
    (
      (known, fresh, behind, a),
      b,
      λ d m k. subst (λ ys. mem d ys ≡ true) (append_assoc done (x ∷ []) xs) (c d m k),
    )

-- In a plan that repeats no node, the graph's dependencies are the node's.
dependencies_of-graph_nodes :
    (ns : List Node) (id : String) (n : Node)
    → IsUnique (node_ids ns)
    → by_key (λ (x : Node). x.node_id) id ns ≡ some n
    → dependencies_of (vertices (graph_nodes ns)) id ≡ n.dependencies
unfolding dependencies_of
dependencies_of-graph_nodes [] id n u h = cc
dependencies_of-graph_nodes (x ∷ xs) id n (absent, u) h =
    elim (by_key-cases (λ (y : Node). y.node_id) id x xs n h) [
      | inl (m, same, k) ↦ rw ((eq_iff x.node_id id).1 k) (ap (λ y. y.dependencies) same)
      | inr later ↦
          let m = by_key-mem (λ (y : Node). y.node_id) id xs n later in
          let other : (x.node_id == id) ≡ false =
            ground (arith, m, absent, ap (λ i. mem i (node_ids xs)) ((eq_iff x.node_id id).0 _)) in
          rw other (dependencies_of-graph_nodes xs id n u later)
    ]

module _ (results : List (String × CellResult)) where
  results_of-ok :
      (ds : List String)
      → ((d : String) → mem d ds ≡ true → mem d (keys results) ≡ true)
      → (rs : List CellResult) × (results_of results ds ≡ ok rs)
  results_of-ok [] h = ([], refl)
  results_of-ok (d ∷ ds) h =
      let (r, e) = get-found d results (h d (ground (arith, eq_refl d))) in
      let (rs, f) = results_of-ok ds (λ j m. h j (ground (arith, m))) in (r ∷ rs, rw (e, f) refl)

  child_results-ok :
      (ds : List String)
      → ((d : String) → mem d ds ≡ true → mem d (keys results) ≡ true)
      → (rs : Option (List CellResult)) × (child_results results ds ≡ ok rs)
  child_results-ok [] h = (none, refl)
  child_results-ok (d ∷ ds) h = let (rs, e) = results_of-ok (d ∷ ds) h in (some rs, rw e refl)

fallback_bindings_of-ok :
    (p : Plan) (ids : List String)
    → ((j : String) → mem j ids ≡ true → mem j (binding_ids p.service_bindings) ≡ true)
    → (bs : List Binding) × (fallback_bindings_of p ids ≡ ok bs)
fallback_bindings_of-ok p [] h = ([], refl)
fallback_bindings_of-ok p (id ∷ ids) h =
    let (b, e, _) =
      by_key-found (λ b. binding_id b) id p.service_bindings (h id (ground (arith, eq_refl id))) in
    let (bs, f) = fallback_bindings_of-ok p ids (λ j m. h j (ground (arith, m))) in
    (b ∷ bs, rw (e, f) refl)

pub record HasKeys (p : Plan) (results : List (String × CellResult)) (n : Node) : Type 0 where
  pub children : (rs : Option (List CellResult)) × (child_results results n.dependencies ≡ ok rs)
  pub binding : (b : Binding) × (binding_by_id p n.binding_id ≡ ok b)
  pub fallbacks : (bs : List Binding) × (fallback_bindings_of p n.fallback_binding_ids ≡ ok bs)
  pub references :
      (j : String)
      → mem j n.input_reference_ids ≡ true
      → (r : Reference) × (reference_by_id p.input_references j ≡ ok r)

going_results : {e : Environment} → Progress e → List (String × CellResult)
going_results (going results order s) = results
going_results _ = []

going_order : {e : Environment} → Progress e → List String
going_order (going results order s) = order
going_order _ = []

module _ (p : Plan) (w : IsWellFormed p) (n : Node) (id : String) where
  node_HasKeys :
      (results : List (String × CellResult))
      → by_key (λ (x : Node). x.node_id) id p.nodes ≡ some n
      → ((d : String)
          → mem d (dependencies_of (vertices (graph_nodes p.nodes)) id) ≡ true
          → mem d (Graph.node_ids (graph_nodes p.nodes)) ≡ true
          → mem d (keys results) ≡ true)
      → HasKeys p results n
  node_HasKeys results found behind =
      let good =
        by_key-All (λ (x : Node). x.node_id) (IsExecutable p.service_bindings p.input_references) id
          p.nodes n w.nodes found in
      let good_node =
        by_key-All (λ (x : Node). x.node_id)
          (λ x. IsNode (Graph.node_ids (graph_nodes p.nodes)) (graph_node x)) id p.nodes n
          ((All-graph_nodes (IsNode (Graph.node_ids (graph_nodes p.nodes))) p.nodes).1
            w.graph.nodes)
          found in
      let same =
        dependencies_of-graph_nodes p.nodes id n
          (subst IsUnique (node_ids-graph_nodes p.nodes) w.graph.unique) found in
      let bound = λ (j : String) (b : IsBound p.service_bindings n j).
        find-mem (λ x. binding_id x) j p.service_bindings b.binding b.found in
      record {
        children =
            child_results-ok results n.dependencies
              (λ d m. behind d (ap (mem d) same ∙ m) (good_node.present d m));
        binding =
            let (b, e, _) =
              by_key-found (λ b. binding_id b) n.binding_id p.service_bindings
                (bound n.binding_id good.bound) in
            (b, rw e refl);
        fallbacks =
            fallback_bindings_of-ok p n.fallback_binding_ids
              (λ j m. bound j (good.fallbacks_bound j m));
        references = λ j m.
            let (r, e, _) =
              by_key-found (λ (r : Reference). r.reference_id) j p.input_references
                (good.known j m) in
            (r, rw e refl);
      }

-- On an accepted plan, with a handler of completed nodes that raises nothing: where the loops went through the front of
-- the order and stand before the next identifier, its node is in the plan, and the results of its
-- dependencies, its binding, its fallback bindings and its input references are all found under
-- their identifiers.
pub keys_available :
    (e : Environment) (v : ValidatedPlan) (run_id trace_id : String) (world : e.World)
    → validate_execution_plan v.plan ≡ ok v
    → IsQuiet e
    → (front back : List String) (id : String)
    → visit_order v.topological_levels ≡ (front ++ id ∷ back)
    → (results : List (String × CellResult)) (order : List String) (s : Run e)
    → run_level e v.plan run_id trace_id front (going [] [] (first_run world))
      ≡ going results order s
    → (order ≡ front) × ((n : Node) × (node_by_id v.plan id ≡ ok n) × HasKeys v.plan results n)
unfolding going_results going_order
keys_available e v run_id trace_id world valid q front back id split results order s reached =
    let p = v.plan in
    let (w, are) = accepted_plan v valid in
    let vs = vertices (graph_nodes p.nodes) in
    let ordered = subst (IsOrdered vs []) split (visit_order-IsSchedule v w are).ordered in
    let (before, known, behind) = IsOrdered-split vs [] front back id ordered in
    let (n, found, _) =
      by_key-found (λ (x : Node). x.node_id) id p.nodes
        (ap (mem id) (sym (node_ids-graph_nodes p.nodes)) ∙ known) in
    elim (run_level-Went e p run_id trace_id vs q (node_by_id-IsReady p w) front [] []
      (first_run world) refl before) [
        | inl (results', s', ended, same) ↦
            let moved : going results order s ≡ going results' front s' = sym reached ∙ ended in
            let stored : keys results ≡ front = ap keys (ap going_results moved) ∙ same in
            (
              ap going_order moved,
              (
                n,
                rw found refl,
                node_HasKeys p w n id results found
                    (λ d m k. subst (λ ks. mem d ks ≡ true) (sym stored) (behind d m k)),
              ),
            )
        | inr (front', id', back', split', (results', same, (s', x, w', ended))) ↦
            cc (reached, ended)
      ]
