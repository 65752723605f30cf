-- ===== src/Graph/Topology/Order.antt =====
-- What `stable_topological_levels` returns.
use market_cell.Prelude.{
  ℕ, zero, suc, ◌≤◌, ◌<◌, ◌≡◌, refl, ap, ◌∙◌, String, true, false, not, ◌&&◌, Option, none, some,
  List, [], ◌∷◌, length, mem, IsUnique, keep, mem-keep, mem-sorted, outside, arith, nat_eq,
  Bool-cases, inl, inr, eq_refl,
}
use market_cell.Graph.Models.{Vertex}
use market_cell.Graph.Topology.{
  ids, dependencies_of, dependency_counts, level_loop, first_level, cyclic_nodes,
  stable_topological_levels, with_cyclic,
}
use market_cell.Graph.Topology.Counts.{pending_some}
use market_cell.Graph.Topology.Levels.{
  IsLayered, all_of, Returned, level_loop-Returned, start-Heading, open_at,
}

outside_nil-le : (vs : List Vertex) → outside [] (ids vs) ≤ length vs
outside_nil-le [] = omega arith
outside_nil-le (v ∷ vs) = omega (arith, outside_nil-le vs)

module _ (vs : List Vertex) (unique : IsUnique (ids vs)) where
  -- The levels and the nodes held back, as a pair of lists.
  pub record IsTopological (levels : List (List String)) (cyclic : List String) : Type 0 where
    pub layered : IsLayered vs unique [] levels
    pub complete :
        (j : String) → mem j (ids vs) ≡ true → mem j (all_of vs unique levels) ≡ not (mem j cyclic)
    pub held_back :
        (j : String)
        → mem j cyclic ≡ true
        → (mem j (ids vs) ≡ true)
          × ((d : String) × (mem d (dependencies_of vs j) ≡ true) × (mem d cyclic ≡ true))

  mem-cyclic_nodes :
      (visited : List String) (j : String)
      → mem j (cyclic_nodes vs visited) ≡ (mem j (ids vs) && not (mem j visited))
  mem-cyclic_nodes visited j =
      mem-sorted j (keep (λ id. not (mem id visited)) (ids vs))
      ∙ mem-keep (λ id. not (mem id visited)) j (ids vs)

  blocked :
      (visited : List String) (j : String)
      → ((i : String)
          → mem i (ids vs) ≡ true
          → nat_eq (open_at vs unique visited i) 0 ≡ mem i visited)
      → mem j (cyclic_nodes vs visited) ≡ true
      → (d : String) × (mem d (dependencies_of vs j) ≡ true)
        × (mem d (cyclic_nodes vs visited) ≡ true)
  blocked visited j zero' h =
      let (d, inside, known, fresh) =
        pending_some vs visited (dependencies_of vs j)
          (ground (arith, zero' j, mem-cyclic_nodes visited j)) in
      (d, inside, ground (arith, mem-cyclic_nodes visited d))

  from_loop :
      (r : Option (List (List String) × List String))
      → Returned vs unique [] r
      → (levels : List (List String)) × (cyclic : List String) × (with_cyclic vs r
          ≡ some (levels, cyclic))
        × IsTopological levels cyclic
  from_loop none h = absurd h
  from_loop (some (levels, visited)) (layered, zero', all') = (
    levels,
    cyclic_nodes vs visited,
    refl,
    record {
      layered = layered;
      complete = λ j k. ground (arith, all' j, mem-cyclic_nodes visited j);
      held_back = λ j k. (ground (arith, mem-cyclic_nodes visited j), blocked visited j zero' k);
    },
  )

  -- For nodes with distinct identifiers the search ends within its fuel. A node stands in at most one
  -- level, after the levels of all of its known dependencies; each node is either in a level or among
  -- the cyclic nodes, and a cyclic node has a dependency that is cyclic too.
  pub stable_topological_levels-IsTopological :
      (levels : List (List String)) × (cyclic : List String) × (stable_topological_levels vs
        ≡ some (levels, cyclic))
      × IsTopological levels cyclic
  unfolding stable_topological_levels
  stable_topological_levels-IsTopological =
      from_loop (level_loop vs (length vs) (first_level vs) (dependency_counts vs) []) (
        level_loop-Returned vs unique (length vs) (first_level vs) (dependency_counts vs) []
          (start-Heading vs unique) (outside_nil-le vs))

  -- A rank that falls along every known dependency: the graph has no cycle.
  abbrev pub IsRanked : (String → ℕ) → Type 0
  IsRanked rank =
      (j d : String)
      → mem j (ids vs) ≡ true
      → mem d (dependencies_of vs j) ≡ true
      → mem d (ids vs) ≡ true
      → rank d < rank j

  no_cyclic :
      (rank : String → ℕ) (levels : List (List String)) (cyclic : List String)
      → IsRanked rank
      → IsTopological levels cyclic
      → (bound : ℕ) (j : String) → rank j < bound
      → mem j cyclic ≡ false
  no_cyclic rank levels cyclic ranked t zero j h = elim h [ ]
  no_cyclic rank levels cyclic ranked t (suc bound) j h = elim (Bool-cases (mem j cyclic)) [
    | inr e ↦ e
    | inl e ↦
        let (known, (d, inside, back)) = t.held_back j e in
        let lower = ranked j d known inside (t.held_back d back).0 in
        cc (no_cyclic rank levels cyclic ranked t bound d (omega (arith, lower)))
  ]

  nil_of_mem : (xs : List String) → ((j : String) → mem j xs ≡ false) → xs ≡ []
  nil_of_mem [] h = refl
  nil_of_mem (x ∷ xs) h = cc (h x, eq_refl x)

  -- A graph without a cycle has no cyclic nodes: the levels hold every node.
  pub stable_topological_levels_acyclic :
      (rank : String → ℕ)
      → IsRanked rank
      → (levels : List (List String)) × (stable_topological_levels vs ≡ some (levels, []))
        × IsLayered vs unique [] levels
        × ((j : String) → mem j (ids vs) ≡ true → mem j (all_of vs unique levels) ≡ true)
  stable_topological_levels_acyclic rank ranked =
      let (levels, cyclic, e, t) = stable_topological_levels-IsTopological in
      let empty =
        λ (j : String). no_cyclic rank levels cyclic ranked t (suc (rank j)) j (omega arith) in
      let none_cyclic = nil_of_mem cyclic empty in
      (
        levels,
        e ∙ ap (λ c. some (levels, c)) none_cyclic,
        t.layered,
        λ j k. ground (arith, t.complete j k, empty j),
      )
