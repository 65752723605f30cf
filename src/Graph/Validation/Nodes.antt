-- ===== src/Graph/Validation/Nodes.antt =====
-- `_unique_nodes`: the mapping has distinct keys, and is the list of the nodes where none repeats.
use market_cell.Prelude.{
  ◌≡◌, ◌↔◌, refl, sym, subst, true, List, [], ◌∷◌, map, is_empty, IsUnique, collect_iff,
  collect_same, collect-IsUnique,
}
use market_cell.Graph.Models.{GraphNode, Graph}
use market_cell.Graph.Validation.{node_ids, unique_nodes}

pub ids_map : (nodes : List GraphNode) → map (λ n. n.node_id) nodes ≡ node_ids nodes
ids_map [] = refl
ids_map (n ∷ ns) = rw (ids_map ns)

module _ (g : Graph) where
  pub unique_nodes-IsUnique : IsUnique (node_ids (unique_nodes g).0)
  unique_nodes-IsUnique =
      subst IsUnique (ids_map (unique_nodes g).0) (collect-IsUnique _ _ g.nodes [] tt)

  pub unique_nodes_iff : (is_empty (unique_nodes g).1 ≡ true) ↔ IsUnique (node_ids g.nodes)
  unique_nodes_iff =
      subst (λ ids. (is_empty (unique_nodes g).1 ≡ true) ↔ IsUnique ids) (ids_map g.nodes)
        (collect_iff _ _ g.nodes)

  pub unique_nodes_same : IsUnique (node_ids g.nodes) → (unique_nodes g).0 ≡ g.nodes
  unique_nodes_same u = collect_same _ _ g.nodes (subst IsUnique (sym (ids_map g.nodes)) u)
