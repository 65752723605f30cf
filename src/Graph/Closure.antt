-- ===== src/Graph/Closure.antt =====
-- `dependency_closure` of market_cell/graph/topology.py. The list `pending` is kept with its end in
-- front, where `pop` takes and `extend` puts.
pub mod Correct
use market_cell.Prelude.{
  ℕ, zero, suc, ◌+◌, String, Bool, true, false, not, ◌||◌, List, [], ◌∷◌, length, keep, mem, sum_of,
  if◌then◌else◌,
}
use market_cell.Graph.Models.{Vertex}
use market_cell.Graph.Topology.{ids, dependencies_of}

-- `pending.extend(xs)`
unfoldable pub extend : List String → List String → List String
extend [] pending = pending
extend (x ∷ xs) pending = extend xs (x ∷ pending)

-- `while pending`: the fuel bounds the rounds, and `Correct` shows that it suffices.
unfoldable pub closure_loop : List Vertex → ℕ → List String → List String → List String
closure_loop vs zero pending reachable = reachable
closure_loop vs (suc fuel) [] reachable = reachable
closure_loop vs (suc fuel) (node_id ∷ pending) reachable =
    let skipped = closure_loop vs fuel pending reachable in
    let expanded =
      closure_loop vs fuel
        (extend (keep (λ d. mem d (ids vs)) (dependencies_of vs node_id)) pending)
        (node_id ∷ reachable) in
    if mem node_id reachable || not (mem node_id (ids vs)) then skipped else expanded

-- Each node is expanded once, so each root and each listed dependency is popped at most once.
unfoldable pub dependency_closure : List String → List Vertex → List String
dependency_closure roots vs =
    closure_loop vs (length roots + sum_of (λ v. length v.dependencies) vs) (extend roots []) []
