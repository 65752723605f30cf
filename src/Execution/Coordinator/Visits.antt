-- ===== src/Execution/Coordinator/Visits.antt =====
-- What the loops do on identifiers whose nodes and bindings the plan has.
use market_cell.Prelude.{
  append_nil, ◌≡◌, ◌⊎◌, inl, inr, refl, ap, sym, ◌∙◌, subst, String, true, false, none, some,
  Option, List, [], ◌∷◌, ◌++◌, append_assoc, mem, IsUnique, Result, err, ok, set, keys,
  keys-set_new,
}
use market_cell.Execution.Models.{Node, Binding}
use market_cell.Graph.Models.{Vertex}
use market_cell.Graph.Topology.{ids as vertex_ids}
use market_cell.Graph.Topology.Levels.{all_of}
use market_cell.Execution.Coordinator.Order.{IsOrdered}
use market_cell.Execution.Plans.{Plan}
use market_cell.Execution.Outcomes.{Error, CellResult}
use market_cell.Execution.Coordinator.Environment.{Environment, Run, NodeCompletion}
use market_cell.Execution.Coordinator.Node.{binding_by_id, run_node}
use market_cell.Execution.Coordinator.Loop.{
  PlanOutcome, Progress, going, stopped, escaped, outcome_of, notify, unless_raised, after_node,
  visit, node_by_id, run_level, run_levels,
}

-- The handler of completed nodes raises nothing.
unfoldable pub IsQuiet : Environment → Type 0
IsQuiet e = (c : NodeCompletion) (w : e.World) → (notify e e.on_node_completed c w).0 ≡ none

-- The node of the identifier and its binding are in the plan.
abbrev pub IsReady : Plan → String → Type 0
IsReady p id =
    (n : Node) × (node_by_id p id ≡ ok n)
    × (n.node_id ≡ id)
    × ((b : Binding) × (binding_by_id p n.binding_id ≡ ok b))

module _ (e : Environment) (p : Plan) where
  abbrev pub FailedAt : List (String × CellResult) → List String → String → Progress e → Type 0
  FailedAt results order id progress =
      (s : Run e) × (x : Error) × (w : e.World) × (progress
        ≡ stopped (outcome_of e p results (order ++ id ∷ []) s none (some id) (some x)) w)

  abbrev pub Visited : List (String × CellResult) → List String → String → Progress e → Type 0
  Visited results order id progress =
      ((results' : List (String × CellResult)) × (s : Run e) × (progress
          ≡ going results' (order ++ id ∷ []) s)
        × (keys results' ≡ (keys results ++ id ∷ [])))
      ⊎ FailedAt results order id progress

  unless_raised-quiet :
      (answer : Option Error × e.World) (next : e.World → Progress e)
      → answer.0 ≡ none
      → unless_raised e answer next ≡ next answer.1
  unless_raised-quiet (none, w) next h = refl
  unless_raised-quiet (some x, w) next h = cc

  after_node-Visited :
      IsQuiet e
      → (results : List (String × CellResult)) (order : List String) (n : Node)
        (answer : Result Error CellResult) (s : Run e)
      → mem n.node_id (keys results) ≡ false
      → Visited results order n.node_id
          (after_node e p results (order ++ n.node_id ∷ []) n answer s)
  unfolding IsQuiet
  after_node-Visited q results order n (err x) s fresh =
      inr (s, x, _, unless_raised-quiet (notify e e.on_node_completed _ s.world) _ (q _ s.world))
  after_node-Visited q results order n (ok result) s fresh = inl (
    set n.node_id result results,
    record s { world = _ },
    unless_raised-quiet (notify e e.on_node_completed _ s.world) _ (q _ s.world),
    keys-set_new n.node_id result results fresh,
  )

  -- All identifiers were visited, or one failed behind those in front of it.
  abbrev pub Went : List String → List String → Progress e → Type 0
  Went order ids progress =
      ((results : List (String × CellResult)) × (s : Run e) × (progress
          ≡ going results (order ++ ids) s)
        × (keys results ≡ (order ++ ids)))
      ⊎ ((front : List String) × (id : String) × (back : List String) × (ids ≡ (front ++ id ∷ back))
          × ((results : List (String × CellResult)) × (keys results ≡ (order ++ front))
              × FailedAt results (order ++ front) id progress))

module _ (e : Environment) (p : Plan) (run_id trace_id : String) where
  visit-Visited :
      IsQuiet e
      → (results : List (String × CellResult)) (order : List String) (s : Run e) (id : String)
      → IsReady p id
      → mem id (keys results) ≡ false
      → Visited e p results order id (visit e p run_id trace_id results order s (node_by_id p id))
  visit-Visited q results order s id (n, found, same, (b, bound)) fresh =
      let answer =
        run_node e p run_id trace_id results n b
          (record s { trace = none; control_record = none }) in
      rw (found, bound)
        (subst
          (λ j.
            Visited e p results order j
              (after_node e p results (order ++ n.node_id ∷ []) n answer.0 answer.1))
          same
          (after_node-Visited e p q results order n answer.0 answer.1
            (subst (λ j. mem j (keys results) ≡ false) (sym same) fresh)))

  -- A failure passes through the rest of the loops.
  run_level-stopped :
      (ids : List String) (o : PlanOutcome) (w : e.World)
      → run_level e p run_id trace_id ids (stopped o w) ≡ stopped o w
  unfolding run_level
  run_level-stopped [] o w = refl
  run_level-stopped (id ∷ ids) o w = refl

  run_level-escaped :
      (ids : List String) (x : Error) (w : e.World)
      → run_level e p run_id trace_id ids (escaped x w) ≡ escaped x w
  unfolding run_level
  run_level-escaped [] x w = refl
  run_level-escaped (id ∷ ids) x w = refl

  run_level-append :
      (ids more : List String) (progress : Progress e)
      → run_level e p run_id trace_id (ids ++ more) progress
        ≡ run_level e p run_id trace_id more (run_level e p run_id trace_id ids progress)
  unfolding run_level
  run_level-append [] more progress = refl
  run_level-append (id ∷ ids) more (stopped o w) = sym (run_level-stopped more o w)
  run_level-append (id ∷ ids) more (escaped x w) = sym (run_level-escaped more x w)
  run_level-append (id ∷ ids) more (going results order s) =
      run_level-append ids more (visit e p run_id trace_id results order s (node_by_id p id))

  -- The loops over the levels visit the identifiers one after the other.
  pub run_levels_flat :
      (vs : List Vertex) (u : IsUnique (vertex_ids vs)) (levels : List (List String))
      (progress : Progress e)
      → run_levels e p run_id trace_id levels progress
        ≡ run_level e p run_id trace_id (all_of vs u levels) progress
  unfolding run_levels run_level
  run_levels_flat vs u [] progress = refl
  run_levels_flat vs u (level ∷ levels) progress =
      run_levels_flat vs u levels (run_level e p run_id trace_id level progress)
      ∙ sym (run_level-append level (all_of vs u levels) progress)

  pub run_level-Went :
      (vs : List Vertex)
      → IsQuiet e
      → ((j : String) → mem j (vertex_ids vs) ≡ true → IsReady p j)
      → (ids : List String) (results : List (String × CellResult)) (order : List String) (s : Run e)
      → keys results ≡ order
      → IsOrdered vs order ids
      → Went e p order ids (run_level e p run_id trace_id ids (going results order s))
  unfolding run_level
  run_level-Went vs q ready [] results order s same o = inl (
    results,
    s,
    ap (λ xs. going results xs s) (sym (append_nil order)),
    same ∙ sym (append_nil order),
  )
  run_level-Went vs q ready (id ∷ ids) results order s same (known, fresh, behind, later) =
      elim (visit-Visited q results order s id (ready id known)
        (subst (λ ks. mem id ks ≡ false) (sym same) fresh)) [
          | inl (results', s', moved, keys') ↦
              let same' : keys results' ≡ (order ++ id ∷ []) =
                keys' ∙ ap (λ ks. ks ++ id ∷ []) same in
              let rest = run_level-Went vs q ready ids results' (order ++ id ∷ []) s' same' later in
              rw moved (elim rest [
                | inl (results'', s'', ended, keys'') ↦ inl (
                  results'',
                  s'',
                  ended ∙ ap (λ xs. going results'' xs s'') (append_assoc order (id ∷ []) ids),
                  keys'' ∙ append_assoc order (id ∷ []) ids,
                )
                | inr (front, id', back, split, (results'', keys'', failure)) ↦ inr (
                  id ∷ front,
                  id',
                  back,
                  ap (λ xs. id ∷ xs) split,
                  (
                    results'',
                    keys'' ∙ append_assoc order (id ∷ []) front,
                    subst
                        (λ xs. FailedAt e p results'' xs id' (
                          run_level e p run_id trace_id ids (going results' (order ++ id ∷ []) s')))
                        (append_assoc order (id ∷ []) front) failure,
                  ),
                )
              ])
          | inr (s', x, w, moved) ↦ rw moved (
              inr (
                [],
                id,
                ids,
                refl,
                (
                  results,
                  same ∙ sym (append_nil order),
                  (
                    s',
                    x,
                    w,
                    run_level-stopped ids _ w
                        ∙ ap
                            (λ xs.
                              stopped
                                (outcome_of e p results (xs ++ id ∷ []) s' none (some id) (some x))
                                w)
                            (sym (append_nil order)),
                  ),
                ),
              ))
        ]
