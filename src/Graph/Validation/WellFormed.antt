-- ===== src/Graph/Validation/WellFormed.antt =====
-- What a graph that passes validation is, said without the code.
use market_cell.Prelude.{
  ◌≡◌, ◌↔◌, ◌≢◌, String, true, false, Option, none, some, List, [], ◌∷◌, map, mem, IsUnique, All,
}
use market_cell.Execution.Models.{Role}
use market_cell.Graph.Models.{GraphNode, Organ, Graph, vertices}
use market_cell.Graph.Validation.{node_ids, existing_members}
use market_cell.Graph.Topology.Acyclic.{IsAcyclic}
use market_cell.Graph.Closure.Correct.{Reach}

-- The root is there, and it is the node with the role of a root.
pub record IsRooted (g : Graph) : Type 0 where
  pub present : mem g.root_node_id (node_ids g.nodes) ≡ true
  pub roles : All (λ n. (n.execution_role ≡ Role.root) ↔ (n.node_id ≡ g.root_node_id)) g.nodes

-- A node depends on other nodes of the graph, on each once, and a leaf on none.
pub record IsNode (known : List String) (n : GraphNode) : Type 0 where
  pub leaf : n.execution_role ≡ Role.leaf → n.dependencies ≡ []
  pub once : IsUnique n.dependencies
  pub others : mem n.node_id n.dependencies ≡ false
  pub present : (d : String) → mem d n.dependencies ≡ true → mem d known ≡ true

-- An organ is a set of nodes, closed under dependencies, that its outputs reach.
pub record IsOrgan (nodes : List GraphNode) (o : Organ) : Type 0 where
  pub members : IsUnique o.node_ids
  pub outputs : IsUnique o.output_node_ids
  pub some_output : o.output_node_ids ≢ []
  pub present : (j : String) → mem j o.node_ids ≡ true → mem j (node_ids nodes) ≡ true
  pub inside : (j : String) → mem j o.output_node_ids ≡ true → mem j o.node_ids ≡ true
  pub closed :
      All
        (λ n.
          (d : String)
          → mem d n.dependencies ≡ true
          → mem d (node_ids nodes) ≡ true
          → mem d o.node_ids ≡ true)
        (existing_members o nodes)
  pub reached :
      (j : String)
      → mem j o.node_ids ≡ true
      → Reach o.output_node_ids (vertices (existing_members o nodes)) j

abbrev pub IsCovered : List GraphNode → Option (List String) → Type 0
IsCovered nodes none = Unit
IsCovered nodes (some available) = All (λ n. mem n.cell_id available ≡ true) nodes

pub record IsWellFormed (g : Graph) (manifests : Option (List String)) : Type 0 where
  pub unique : IsUnique (node_ids g.nodes)
  pub rooted : IsRooted g
  pub nodes : All (IsNode (node_ids g.nodes)) g.nodes
  pub covered : IsCovered g.nodes manifests
  pub organ_ids : IsUnique (map (λ o. o.organ_id) g.organs)
  pub organs : All (IsOrgan g.nodes) g.organs
  pub acyclic : IsAcyclic (vertices g.nodes)
  pub reached :
      (j : String)
      → mem j (node_ids g.nodes) ≡ true
      → Reach (g.root_node_id ∷ []) (vertices g.nodes) j
