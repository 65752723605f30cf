-- ===== src/Tests/Graph.antt =====
-- Small graphs: a chain, and one with a cycle.
use market_cell.Graph.Validation.Exact.{IsAccepted, IsRejected, validate_decides}
use market_cell.Execution.Models.{Role}
use market_cell.Prelude.{
  ℕ, ◌≡◌, ◌↔◌, ◌⊎◌, inl, inr, sym, Bool-cases, refl, String, true, some, List, [], ◌∷◌, mem,
  IsUnique, arith, if◌then◌else◌, ◌==◌, sort_by, insert_by, eq_iff,
}
use market_cell.Graph.Models.{Vertex, Graph, GraphNode}
use market_cell.Graph.Topology.{
  ids, stable_topological_levels, dependencies_of, level_loop, count_known, visit_level, relax,
  dependents_of, mentions,
}
use market_cell.Graph.Topology.Levels.{IsLayered, all_of}
use market_cell.Graph.Topology.Order.{
  IsRanked, IsTopological, stable_topological_levels-IsTopological,
  stable_topological_levels_acyclic,
}
use market_cell.Graph.Closure.{dependency_closure}
use market_cell.Graph.Closure.Correct.{Reach, mem-dependency_closure}

abbrev vertex_of : String → List String → Vertex
vertex_of id dependencies = record { node_id = id; dependencies = dependencies }

abbrev chain : List Vertex
chain = vertex_of "c" ("b" ∷ []) ∷ vertex_of "b" ("a" ∷ []) ∷ vertex_of "a" [] ∷ []

abbrev knot : List Vertex
knot = vertex_of "a" [] ∷ vertex_of "b" ("a" ∷ "c" ∷ []) ∷ vertex_of "c" ("b" ∷ []) ∷ []

chain-IsUnique : IsUnique (ids chain)
chain-IsUnique = (refl, (refl, (refl, tt)))

knot-IsUnique : IsUnique (ids knot)
knot-IsUnique = (refl, (refl, (refl, tt)))

-- The cycle and what it blocks are reported, the rest is layered.
stable_topological_levels-knot :
    stable_topological_levels knot ≡ some (("a" ∷ []) ∷ [], "b" ∷ "c" ∷ [])
unfolding stable_topological_levels level_loop sort_by count_known dependencies_of insert_by
    visit_level relax dependents_of mentions
stable_topological_levels-knot = refl

stable_topological_levels-IsTopological_example :
    (levels : List (List String)) × (cyclic : List String) × (stable_topological_levels knot
      ≡ some (levels, cyclic))
    × IsTopological knot knot-IsUnique levels cyclic
stable_topological_levels-IsTopological_example =
    stable_topological_levels-IsTopological knot knot-IsUnique

abbrev depth : String → ℕ
depth id = if "c" == id then 2 else if "b" == id then 1 else 0

head_of : (a d : String) → mem d (a ∷ []) ≡ true → d ≡ a
head_of a d h = ground (arith, eq_iff a d)

-- The edges of the chain.
chain_edges :
    (j d : String)
    → mem d (dependencies_of chain j) ≡ true
    → ((j ≡ "c") × (d ≡ "b")) ⊎ ((j ≡ "b") × (d ≡ "a"))
unfolding dependencies_of
chain_edges j d inside = elim (Bool-cases ("c" == j)) [
  | inl e ↦ inl (sym ((eq_iff "c" j).0 e), head_of "b" d (rw e at inside))
  | inr e ↦ elim (Bool-cases ("b" == j)) [
    | inl f ↦ inr (sym ((eq_iff "b" j).0 f), head_of "a" d (rw (e, f) at inside))
    | inr f ↦ ground (arith, rw (e, f) at inside)
  ]
]

chain-IsRanked : IsRanked chain chain-IsUnique depth
chain-IsRanked j d known inside target = elim (chain_edges j d inside) [
  | inl (e, f) ↦ rw (e, f) (omega arith)
  | inr (e, f) ↦ rw (e, f) (omega arith)
]

stable_topological_levels_acyclic_example :
    (levels : List (List String)) × (stable_topological_levels chain ≡ some (levels, []))
    × IsLayered chain chain-IsUnique [] levels
    × ((j : String) → mem j (ids chain) ≡ true → mem j (all_of chain chain-IsUnique levels) ≡ true)
stable_topological_levels_acyclic_example =
    stable_topological_levels_acyclic chain chain-IsUnique depth chain-IsRanked

mem-dependency_closure_example :
    (mem "a" (dependency_closure ("b" ∷ "x" ∷ []) knot) ≡ true) ↔ Reach ("b" ∷ "x" ∷ []) knot "a"
mem-dependency_closure_example = mem-dependency_closure ("b" ∷ "x" ∷ []) knot "a"

abbrev graph_node : String → Role → List String → GraphNode
graph_node id role dependencies = record {
  node_id = id;
  cell_id = id;
  execution_role = role;
  dependencies = dependencies;
}

abbrev market : Graph
market = record {
  graph_id = "market";
  graph_version = "v1";
  root_node_id = "r";
  nodes = graph_node "r" Role.root ("a" ∷ []) ∷ graph_node "a" Role.leaf [] ∷ [];
  organs = [];
}

validate_decides_example :
    IsAccepted market (some ("a" ∷ "r" ∷ [])) ⊎ IsRejected market (some ("a" ∷ "r" ∷ []))
validate_decides_example = validate_decides market (some ("a" ∷ "r" ∷ []))
