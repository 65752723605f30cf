-- ===== src/Execution/Router/Routed.antt =====
-- The router raises nothing, and a result that it passes on has a trace of the planned call.
use market_cell.Prelude.{
  ◌≡◌, refl, ap, ◌∙◌, String, ℕ, Option, none, some, List, is_unique, Result, ok, err,
}
use market_cell.Execution.Models.{Binding, Node}
use market_cell.Execution.Outcomes.{
  Error, CellResult, completed, Outcome, Context, CellIdentity, check_outcome,
}
use market_cell.Execution.Outcomes.Checked.{check_outcome_iff, span_ids-last}
use market_cell.Execution.Control.Environment.{Reply, returned, returned_other, raised}
use market_cell.Execution.Traces.{validate_execution_trace_context}
use market_cell.Execution.Router.{
  Clock, Route, Router, resolve_route, routing_failure, routed_trace, rejected_trace, trace_error,
  judged, after_dispatch, dispatch, route_planned, route_execute,
}

module _ {World : Type 0} (clock : Clock World) (cell : CellIdentity) (c : Context) where
  -- The constructor accepts the outcome, and a result comes with a trace of the context.
  pub record IsRouted (o : Outcome) : Type 0 where
    pub checked : check_outcome o ≡ ok tt
    pub traced :
        (r : CellResult)
        → o.completion ≡ completed r
        → validate_execution_trace_context o.trace c ≡ ok tt

  -- The executors return outcomes that their constructor accepted.
  unfoldable pub HasCheckedExecutors : Router World → Type 0
  HasCheckedExecutors router =
      (b : Binding) (route : Route World)
      → resolve_route router b ≡ some route
      → (w : World) (o : Outcome) → (route.executor.execute c w).0 ≡ returned o
      → check_outcome o ≡ ok tt

  failure-IsRouted :
      (e : Error) (started_at : String) (started : ℕ) (route : Option (Route World))
      (cause : Option String) (w : World)
      → IsRouted (routing_failure clock cell c e started_at started route cause w).0
  unfolding routing_failure check_outcome
  failure-IsRouted e started_at started route cause w = record {
    checked = refl;
    traced = λ r h. cc;
  }

  judged-IsRouted :
      (b : Binding) (route : Route World) (o : Outcome) (answer : Result (List String) (Unit {0}))
      → check_outcome o ≡ ok tt
      → validate_execution_trace_context (routed_trace clock cell c b route o.trace) c ≡ answer
      → IsRouted (judged clock cell c o (routed_trace clock cell c b route o.trace) answer)
  judged-IsRouted b route o (ok x) h e =
      let (status, unique) = (check_outcome_iff o).0 h in
      let routed = routed_trace clock cell c b route o.trace in
      record {
        checked =
            (check_outcome_iff (record o { trace = routed })).1
              (status, ap is_unique (span_ids-last o.prior_traces routed o.trace refl) ∙ unique);
        traced = λ r k. e;
      }
  judged-IsRouted b route o (err names) h e =
      let (status, unique) = (check_outcome_iff o).0 h in
      let routed = routed_trace clock cell c b route o.trace in
      let rejected = rejected_trace clock cell c routed o.trace (trace_error clock cell c) in
      record {
        checked =
            (check_outcome_iff (judged clock cell c o routed (err names))).1
              (refl, ap is_unique (span_ids-last o.prior_traces rejected o.trace refl) ∙ unique);
        traced = λ r k. cc;
      }

  after_dispatch-IsRouted :
      (b : Binding) (route : Route World) (started_at : String) (started : ℕ) (reply : Reply)
      (w : World)
      → ((o : Outcome) → reply ≡ returned o → check_outcome o ≡ ok tt)
      → IsRouted (after_dispatch clock cell c b route started_at started reply w).0
  after_dispatch-IsRouted b route started_at started (returned o) w h =
      judged-IsRouted b route o _ (h o refl) refl
  after_dispatch-IsRouted b route started_at started (returned_other name) w h =
      failure-IsRouted _ started_at started (some route) _ w
  after_dispatch-IsRouted b route started_at started (raised x) w h =
      failure-IsRouted _ started_at started (some route) _ w

  dispatch-IsRouted :
      (router : Router World) (b : Binding) (started_at : String) (started : ℕ)
      (o : Option (Route World)) (w : World)
      → HasCheckedExecutors router
      → resolve_route router b ≡ o
      → IsRouted (dispatch clock cell c b started_at started o w).0
  unfolding HasCheckedExecutors
  dispatch-IsRouted router b started_at started none w h e =
      failure-IsRouted _ started_at started none none w
  dispatch-IsRouted router b started_at started (some route) w h e =
      after_dispatch-IsRouted b route started_at started (route.executor.execute c w).0
        (route.executor.execute c w).1 (h b route e w)

  planned-IsRouted :
      (router : Router World) (started_at : String) (started : ℕ) (plan_id : Option String)
      (n : Option Node) (b : Option Binding) (w : World)
      → HasCheckedExecutors router
      → IsRouted (route_planned clock cell c router started_at started plan_id n b w).0
  planned-IsRouted router started_at started none n b w h =
      failure-IsRouted _ started_at started none none w
  planned-IsRouted router started_at started (some p) none b w h =
      failure-IsRouted _ started_at started none none w
  planned-IsRouted router started_at started (some p) (some n) none w h =
      failure-IsRouted _ started_at started none none w
  planned-IsRouted router started_at started (some p) (some n) (some b) w h =
      dispatch-IsRouted router b started_at started (resolve_route router b) w h refl

  -- Where the executors return only outcomes that pass the constructor's checks, the router returns
  -- an outcome that passes them, whatever else the executors do and also where there is no route, and
  -- raises nothing. Where the outcome has a result, its trace is one of the context.
  pub route_execute_returns :
      (router : Router World) (w : World)
      → HasCheckedExecutors router
      → (o : Outcome) × (w' : World) × (route_execute clock cell c router w ≡ (ok o, w'))
        × IsRouted o
  unfolding route_execute
  route_execute_returns router w h =
      let (started_at, w₁) = clock.utc_now_iso w in
      let (started, w₂) = clock.perf_counter w₁ in
      let answer =
        route_planned clock cell c router started_at started c.plan_id c.node c.binding w₂ in
      let routed = planned-IsRouted router started_at started c.plan_id c.node c.binding w₂ h in
      (answer.0, answer.1, rw routed.checked refl, routed)
