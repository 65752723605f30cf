-- ===== src/Graph/Topology.antt =====
-- market_cell/graph/topology.py. A mapping from identifiers to nodes is the list of its nodes in
-- insertion order, each under its own `node_id`; a dictionary of counts is a function.
pub mod Counts
pub mod Levels
pub mod Order
pub mod Acyclic
use market_cell.Prelude.{
  ℕ, zero, suc, ◌+◌, String, Bool, true, false, not, ◌&&◌, Option, none, some, List, [], ◌∷◌, ◌++◌,
  map, length, keep, mem, distinct, sorted, ◌==◌, if◌then◌else◌,
}
use market_cell.Graph.Models.{Vertex}

-- A counter may be decremented at 0, where it is negative.
pub data ℤ : Type 0 where
  pos : ℕ → ℤ
  negsuc : ℕ → ℤ

abbrev pub decrement : ℤ → ℤ
decrement (pos zero) = negsuc 0
decrement (pos (suc n)) = pos n
decrement (negsuc n) = negsuc (suc n)

abbrev pub is_zero : ℤ → Bool
is_zero (pos zero) = true
is_zero (pos (suc n)) = false
is_zero (negsuc n) = false

abbrev pub ids : List Vertex → List String
ids vs = map (λ v. v.node_id) vs

-- `node_by_id[node_id].dependencies`
unfoldable pub dependencies_of : List Vertex → String → List String
dependencies_of [] id = []
dependencies_of (v ∷ vs) id = if v.node_id == id then v.dependencies else dependencies_of vs id

abbrev pub Counts : Type 0
Counts = String → ℤ

-- `sum(1 for dependency in node.dependencies if dependency in node_by_id)`
unfoldable pub count_known : List Vertex → List String → ℕ
count_known vs [] = 0
count_known vs (d ∷ ds) = let rest = count_known vs ds in if mem d (ids vs) then suc rest else rest

abbrev pub dependency_counts : List Vertex → Counts
dependency_counts vs id = pos (count_known vs (dependencies_of vs id))

-- One node's part of `dependents[u]`: it is appended once for each occurrence of `u`.
unfoldable pub mentions : String → String → List String → List String
mentions u id [] = []
mentions u id (d ∷ ds) = let rest = mentions u id ds in if d == u then id ∷ rest else rest

-- `dependents[u]`
unfoldable pub dependents_of : List Vertex → String → List String
dependents_of [] u = []
dependents_of (v ∷ vs) u = mentions u v.node_id v.dependencies ++ dependents_of vs u

unfoldable pub relax : List String → Counts → List String → Counts × List String
relax [] counts next_level = (counts, next_level)
relax (d ∷ ds) counts next_level =
    let counts' = λ (j : String). if d == j then decrement (counts j) else counts j in
    relax ds counts' (if is_zero (counts' d) then next_level ++ d ∷ [] else next_level)

pub record Sweep : Type 0 where
  pub counts : Counts
  pub next_level : List String
  pub visited : List String

-- `for node_id in current`
unfoldable pub visit_level : List Vertex → List String → Sweep → Sweep
visit_level vs [] s = s
visit_level vs (u ∷ us) s =
    let (counts, next_level) = relax (sorted (dependents_of vs u)) s.counts s.next_level in
    visit_level vs us (record { counts = counts; next_level = next_level; visited = u ∷ s.visited })

-- `while current`, with fuel: the levels in order, and the nodes visited. `none`: out of fuel.
unfoldable pub level_loop :
    List Vertex → ℕ → List String → Counts → List String → Option (List (List String) × List String)
level_loop vs zero [] counts visited = some ([], visited)
level_loop vs zero (x ∷ xs) counts visited = none
level_loop vs (suc fuel) [] counts visited = some ([], visited)
level_loop vs (suc fuel) (x ∷ xs) counts visited =
    let s =
      visit_level vs (x ∷ xs) (record { counts = counts; next_level = []; visited = visited }) in
    let rest = level_loop vs fuel (sorted (distinct s.next_level)) s.counts s.visited in
    elim rest [ none ↦ none | some (levels, visited') ↦ some ((x ∷ xs) ∷ levels, visited') ]

-- The nodes that no dependency holds back.
abbrev pub first_level : List Vertex → List String
first_level vs = sorted (keep (λ id. is_zero (dependency_counts vs id)) (ids vs))

abbrev pub cyclic_nodes : List Vertex → List String → List String
cyclic_nodes vs visited = sorted (keep (λ id. not (mem id visited)) (ids vs))

-- `cyclic_nodes = sorted(set(node_by_id) - visited)`
abbrev pub with_cyclic :
    List Vertex
    → Option (List (List String) × List String)
    → Option (List (List String) × List String)
with_cyclic vs none = none
with_cyclic vs (some (levels, visited)) = some (levels, cyclic_nodes vs visited)

-- Every level visits a node, so the number of nodes is fuel enough.
unfoldable pub stable_topological_levels : List Vertex → Option (List (List String) × List String)
stable_topological_levels vs =
    with_cyclic vs (level_loop vs (length vs) (first_level vs) (dependency_counts vs) [])
