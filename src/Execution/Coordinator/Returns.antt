-- ===== src/Execution/Coordinator/Returns.antt =====
-- On a plan that validation accepts, `execute` returns an outcome that its constructor accepts.
use market_cell.Prelude.{
  ◌≡◌, ◌⊎◌, inl, inr, refl, ap, sym, ◌∙◌, subst, String, true, none, some, List, [], ◌∷◌, ◌++◌, mem,
  Result, ok, keys, get, get-found, by_key-found, by_key-All, find-mem, IsUnique,
}
use market_cell.Execution.Models.{Node, binding_id}
use market_cell.Execution.Plans.{Plan, graph_nodes}
use market_cell.Execution.Outcomes.{Error, CellResult}
use market_cell.Graph.Models.{Vertex, vertices}
use market_cell.Graph.Topology.{ids as vertex_ids}
use market_cell.Graph.Topology.Levels.{all_of}
use market_cell.Graph.Validation.Exact.{AreLevels}
use market_cell.Graph.Validation as Graph
use market_cell.Execution.Validation.{ValidatedPlan, validate_execution_plan, node_ids}
use market_cell.Execution.Validation.WellFormed.{IsWellFormed, IsExecutable}
use market_cell.Execution.Validation.Structure.{node_ids-graph_nodes}
use market_cell.Execution.Validation.Exact.{validate_plan_decides}
use market_cell.Execution.Coordinator.Environment.{Environment, Run}
use market_cell.Execution.Coordinator.Loop.{
  PlanOutcome, Progress, going, check_plan_outcome, outcome_of, conclude, first_run, run_level,
  run_levels, execute,
}
use market_cell.Execution.Coordinator.Order.{IsOrdered, levels-IsOrdered}
use market_cell.Execution.Coordinator.Visits.{
  IsQuiet, IsReady, FailedAt, run_levels_flat, run_level-Went,
}

-- Every node of the plan is in the order once, with its dependencies in front of it.
pub record IsSchedule (p : Plan) (ids : List String) : Type 0 where
  pub ordered : IsOrdered (vertices (graph_nodes p.nodes)) [] ids
  pub complete : (j : String) → mem j (node_ids p.nodes) ≡ true → mem j ids ≡ true

-- Every node was run, in the given order, and the root has its result.
pub record IsCompleted (ids : List String) (o : PlanOutcome) : Type 0 where
  pub order : o.execution_order ≡ ids
  pub results : keys o.results_by_node_id ≡ ids
  pub error : o.error ≡ none
  pub failed_node : o.failed_node_id ≡ none
  pub root :
      (r : CellResult) × (o.root_result ≡ some r)
      × (get o.root_node_id o.results_by_node_id ≡ some r)

-- A node failed; those in front of it have results, and those behind it were not run.
pub record IsFailed (ids : List String) (o : PlanOutcome) : Type 0 where
  pub front : List String
  pub failed : String
  pub back : List String
  pub split : ids ≡ (front ++ failed ∷ back)
  pub order : o.execution_order ≡ (front ++ failed ∷ [])
  pub results : keys o.results_by_node_id ≡ front
  pub error : (x : Error) × (o.error ≡ some x)
  pub failed_node : o.failed_node_id ≡ some failed
  pub root : o.root_result ≡ none

-- The identifiers of the levels, one level behind the other.
abbrev pub visit_order : List (List String) → List String
visit_order [] = []
visit_order (level ∷ levels) = level ++ visit_order levels

visit_order_eq :
    (vs : List Vertex) (u : IsUnique (vertex_ids vs)) (levels : List (List String))
    → all_of vs u levels ≡ visit_order levels
visit_order_eq vs u [] = refl
visit_order_eq vs u (level ∷ levels) = ap (λ ids. level ++ ids) (visit_order_eq vs u levels)

pub accepted_plan :
    (v : ValidatedPlan)
    → validate_execution_plan v.plan ≡ ok v
    → IsWellFormed v.plan × AreLevels (graph_nodes v.plan.nodes) v.topological_levels
accepted_plan v h = elim (validate_plan_decides v.plan) [
  | inl (w, (levels, accepted, are)) ↦
      let same : levels ≡ v.topological_levels = cc (accepted, h) in
      (w, subst (AreLevels (graph_nodes v.plan.nodes)) same are)
  | inr (malformed, (i, is, rejected)) ↦ cc (rejected, h)
]

module _ (p : Plan) where
  pub node_by_id-IsReady :
      IsWellFormed p
      → (id : String) → mem id (Graph.node_ids (graph_nodes p.nodes)) ≡ true
      → IsReady p id
  node_by_id-IsReady w id m =
      let (n, found, same) =
        by_key-found (λ (x : Node). x.node_id) id p.nodes
          (ap (mem id) (sym (node_ids-graph_nodes p.nodes)) ∙ m) in
      let executable =
        by_key-All (λ (x : Node). x.node_id) (IsExecutable p.service_bindings p.input_references) id
          p.nodes n w.nodes found in
      let (b, bound, _) =
        by_key-found (λ b. binding_id b) n.binding_id p.service_bindings
          (find-mem (λ b. binding_id b) n.binding_id p.service_bindings executable.bound.binding
            executable.bound.found) in
      (n, rw found refl, same, (b, rw bound refl))

module _ (e : Environment) (p : Plan) (ids : List String) where
  -- What the loops leave is turned into an outcome.
  abbrev Returned : Result Error PlanOutcome × e.World → Type 0
  Returned answer =
      (o : PlanOutcome) × (w : e.World) × (answer ≡ (ok o, w))
      × (check_plan_outcome o ≡ ok tt)
      × (IsCompleted ids o ⊎ IsFailed ids o)

  conclude-going :
      (results : List (String × CellResult)) (s : Run e)
      → keys results ≡ ids
      → mem p.root_node_id ids ≡ true
      → Returned (conclude e p (going results ids s))
  conclude-going results s same m =
      let stored : mem p.root_node_id (keys results) ≡ true =
        subst (λ ks. mem p.root_node_id ks ≡ true) (sym same) m in
      let (r, found) = get-found p.root_node_id results stored in
      let passes : check_plan_outcome (outcome_of e p results ids s (some r) none none) ≡ ok tt =
        rw stored refl in
      (
        outcome_of e p results ids s (some r) none none,
        s.world,
        rw (found, stored) refl,
        passes,
        inl (record {
          order = refl;
          results = same;
          error = refl;
          failed_node = refl;
          root = (r, refl, found);
        }),
      )

  conclude-failed :
      (front : List String) (id : String) (back : List String)
      (results : List (String × CellResult)) (progress : Progress e)
      → ids ≡ (front ++ id ∷ back)
      → keys results ≡ front
      → FailedAt e p results front id progress
      → Returned (conclude e p progress)
  conclude-failed front id back results progress split same (s, x, w, stopped_at) = (
    outcome_of e p results (front ++ id ∷ []) s none (some id) (some x),
    w,
    ap (conclude e p) stopped_at,
    refl,
    inr (record {
      front = front;
      failed = id;
      back = back;
      split = split;
      order = refl;
      results = same;
      error = (x, refl);
      failed_node = refl;
      root = refl;
    }),
  )

pub visit_order-IsSchedule :
    (v : ValidatedPlan)
    → IsWellFormed v.plan
    → AreLevels (graph_nodes v.plan.nodes) v.topological_levels
    → IsSchedule v.plan (visit_order v.topological_levels)
visit_order-IsSchedule v w are =
    let vs = vertices (graph_nodes v.plan.nodes) in
    let same = visit_order_eq vs are.unique v.topological_levels in
    record {
      ordered =
          subst (IsOrdered vs []) same
            (levels-IsOrdered vs are.unique [] [] v.topological_levels (λ j. refl) are.layered);
      complete = λ j m.
          subst (λ ids. mem j ids ≡ true) same
            (are.complete j (ap (mem j) (node_ids-graph_nodes v.plan.nodes) ∙ m));
    }

-- On a plan that validation accepts, with a handler of completed nodes that raises nothing, the
-- coordinator raises nothing, whatever the resolver, the executor and the cells do: it returns an
-- outcome that passes its constructor's checks. The levels hold each node of the plan once, behind
-- its dependencies. Either every node was run in this order, and the root has its result; or one
-- failed, exactly the nodes in front of it have results, and none behind it was run.
pub execute_returns :
    (e : Environment) (v : ValidatedPlan) (run_id trace_id : String) (world : e.World)
    → validate_execution_plan v.plan ≡ ok v
    → IsQuiet e
    → (o : PlanOutcome) × (w : e.World) × (execute e v run_id trace_id world ≡ (ok o, w))
      × (check_plan_outcome o ≡ ok tt)
      × IsSchedule v.plan (visit_order v.topological_levels)
      × (IsCompleted (visit_order v.topological_levels) o
          ⊎ IsFailed (visit_order v.topological_levels) o)
unfolding execute
execute_returns e v run_id trace_id world valid q =
    let p = v.plan in
    let (w, are) = accepted_plan v valid in
    let vs = vertices (graph_nodes p.nodes) in
    let schedule = visit_order-IsSchedule v w are in
    let ids = visit_order v.topological_levels in
    let start : Progress e = going [] [] (first_run world) in
    let flat : run_levels e p run_id trace_id v.topological_levels start
        ≡ run_level e p run_id trace_id ids start =
      run_levels_flat e p run_id trace_id vs are.unique v.topological_levels start
      ∙ ap (λ xs. run_level e p run_id trace_id xs start)
          (visit_order_eq vs are.unique v.topological_levels) in
    let rooted =
      schedule.complete p.root_node_id
        (ap (mem p.root_node_id) (sym (node_ids-graph_nodes p.nodes)) ∙ w.graph.rooted.present) in
    let (o, w', returned, passes, way) : Returned e p ids
        (conclude e p (run_levels e p run_id trace_id v.topological_levels start)) =
      subst (λ x. Returned e p ids (conclude e p x)) (sym flat)
        (elim (run_level-Went e p run_id trace_id vs q (node_by_id-IsReady p w) ids [] []
          (first_run world) refl schedule.ordered) [
            | inl (results, s, ended, same) ↦
                subst (λ x. Returned e p ids (conclude e p x)) (sym ended)
                  (conclude-going e p ids results s same rooted)
            | inr (front, id, back, split, (results, same, failure)) ↦
                conclude-failed e p ids front id back results _ split same failure
          ]) in
    (o, w', returned, passes, schedule, way)
