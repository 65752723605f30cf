-- ===== src/Execution/Validation/WellFormed.antt =====
-- What a plan that passes validation is, said without the code.
use market_cell.Prelude.{
  ℕ, get_elem?, ◌∷◌, ◌≡◌, ◌≢◌, String, true, false, none, some, List, [], mem, IsUnique, All, find,
  ◌==◌,
}
use market_cell.Execution.Models.{Node, Binding, binding_id, binding_ids}
use market_cell.Inputs.Models.{Reference, reference_ids}
use market_cell.Execution.Plans.{Plan, graph_of}
use market_cell.Graph.Validation.WellFormed as Graph

-- The bindings and the references that a node names.
abbrev pub bindings_of : Node → List String
bindings_of n = n.binding_id ∷ n.fallback_binding_ids

abbrev pub inputs_of : Node → List String
inputs_of n = n.input_reference_ids

-- One of the nodes names the identifier.
abbrev pub IsNamed : (Node → List String) → List Node → String → Type 0
IsNamed ids_of ns id = (i : ℕ) × (n : Node) × (get_elem? ns i ≡ some n) × (mem id (ids_of n) ≡ true)

-- The identifiers stand for references of these kinds, one by one.
abbrev pub Carries : List Reference → List String → List String → Type 0
Carries references [] [] = Unit
Carries references (id ∷ ids) (kind ∷ kinds) =
    ((r : Reference) × (find (λ x. x.reference_id == id) references ≡ some r)
      × (r.input_kind ≡ kind))
    × Carries references ids kinds
Carries references _ _ = ⊥

-- The binding of the identifier is one for the node's cell.
pub record IsBound (bindings : List Binding) (n : Node) (id : String) : Type 0 where
  pub binding : Binding
  pub found : find (λ b. binding_id b == id) bindings ≡ some binding
  pub cell : n.cell_id ≡ binding.cell_id
  pub version : n.formula_version ≡ binding.formula_version

-- A node names one reference of the plan for each kind it requires, in the order of the kinds, the
-- request among them; its bindings are distinct.
pub record IsExecutable (bindings : List Binding) (references : List Reference) (n : Node)
    : Type 0 where
  pub some_input : n.input_reference_ids ≢ []
  pub inputs : IsUnique n.input_reference_ids
  pub known :
      (j : String) → mem j n.input_reference_ids ≡ true → mem j (reference_ids references) ≡ true
  pub required : IsUnique n.required_input_kinds
  pub request : mem "analysis_request" n.required_input_kinds ≡ true
  pub kinds : Carries references n.input_reference_ids n.required_input_kinds
  pub fallbacks : IsUnique n.fallback_binding_ids
  pub primary : mem n.binding_id n.fallback_binding_ids ≡ false
  pub bound : IsBound bindings n n.binding_id
  pub fallbacks_bound : (j : String) → mem j n.fallback_binding_ids ≡ true → IsBound bindings n j

-- The nodes are a graph; bindings and references are distinct, in scope, and each is used.
pub record IsWellFormed (p : Plan) : Type 0 where
  pub graph : Graph.IsWellFormed (graph_of p) none
  pub bindings : IsUnique (binding_ids p.service_bindings)
  pub references : IsUnique (reference_ids p.input_references)
  pub scope : All (λ r. (r.target ≡ p.target) × (r.horizon ≡ p.horizon)) p.input_references
  pub nodes : All (IsExecutable p.service_bindings p.input_references) p.nodes
  pub used_bindings : All (λ b. IsNamed bindings_of p.nodes (binding_id b)) p.service_bindings
  pub used_references : All (λ r. IsNamed inputs_of p.nodes r.reference_id) p.input_references
