-- ===== src/Tests/Router.antt =====
-- A router with one executor for local Python cells.
use market_cell.Prelude.{
  ℕ, suc, ◌≡◌, refl, ap, sym, ◌∙◌, subst, String, Bool, true, false, none, some, [], ◌∷◌, ok,
  if◌then◌else◌, ◌==◌,
}
use market_cell.Execution.Outcomes.{Outcome, CellIdentity, check_outcome}
use market_cell.Execution.Control.Attempts.{runtime_name}
use market_cell.Execution.Control.Environment.{returned}
use market_cell.Execution.Router.{Executor, Clock, Route, Router, runtime, route_by, route_execute}
use market_cell.Execution.Router.Routed.{IsRouted, HasCheckedExecutors, route_execute_returns}
use market_cell.Tests.Control.{context, answered}

abbrev clock : Clock ℕ
clock = record {
  utc_now_iso = λ w. ("t", w);
  uuid4_hex = λ w. ("span", suc w);
  perf_counter = λ w. (w, w);
}

abbrev local : Executor ℕ
local = record { name = "local"; execute = λ c w. (returned (answered c), w) }

abbrev router : Router ℕ
router = record { service_routes = []; runtime_routes = ("python_local", local) ∷ [] }

abbrev cell : CellIdentity
cell = record { cell_id = "trend"; formula_version = "v1" }

answered-checked : check_outcome (answered context) ≡ ok tt
unfolding check_outcome
answered-checked = refl

executor_of_route :
    (f : Bool) (key : String) (route : Route ℕ)
    → route_by runtime key (if f then some local else none) ≡ some route
    → route.executor ≡ local
executor_of_route true key route h = cc h
executor_of_route false key route h = cc

router-HasCheckedExecutors : HasCheckedExecutors clock cell context router
unfolding HasCheckedExecutors
router-HasCheckedExecutors b route e w o k =
    let same : route.executor ≡ local =
      executor_of_route ("python_local" == runtime_name b.runtime) (runtime_name b.runtime) route
        e in
    let given : returned (answered context) ≡ returned o =
      sym (ap (λ x. (x.execute context w).0) same) ∙ k in
    let outcome : answered context ≡ o = cc given in
    subst (λ x. check_outcome x ≡ ok tt) outcome answered-checked

route_execute_returns_example :
    (o : Outcome) × (w : ℕ) × (route_execute clock cell context router 0 ≡ (ok o, w))
    × IsRouted clock cell context o
route_execute_returns_example =
    route_execute_returns clock cell context router 0 router-HasCheckedExecutors
