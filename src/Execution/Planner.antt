-- ===== src/Execution/Planner.antt =====
-- market_cell/execution/planner.py: the placement of a cell, the bindings of a plan, and the input
-- references of a cell. Input kinds are texts.
pub mod Places
pub mod Inputs
pub mod Build
use market_cell.Prelude.{
  ℕ, String, Bool, true, false, not, ◌&&◌, ◌||◌, Option, none, some, List, [], ◌∷◌, ◌++◌, map, keep,
  any, mem, is_unique, is_empty, length, ltb, nat_eq, ◌==◌, if◌then◌else◌, distinct, sorted, Result,
  ok, err, ◌>>=◌, ◌>>◌, raise_if,
}
use market_cell.Execution.Models.{Binding, Node, Role, ResourceHints, binding_id, binding_ids}
use market_cell.Execution.Models.Codes.{same_runtime, same_option, same_texts}
use market_cell.Graph.Models.{GraphNode}
use market_cell.Inputs.Models.{Reference, supported_kinds}
use market_cell.Execution.Placement.{
  Policy, Manifest, Entry, Decision, lookup, select, PlacementError, unavailable,
}
use market_cell.Execution.Catalog.{candidates_for}

abbrev pub same_flag : Bool → Bool → Bool
same_flag true b = b
same_flag false b = not b

abbrev pub same_hints : ResourceHints → ResourceHints → Bool
same_hints a b =
    a.cpu_weight == b.cpu_weight
    && a.latency_sensitivity == b.latency_sensitivity
    && same_flag a.stateful b.stateful
    && nat_eq a.expected_timeout_ms b.expected_timeout_ms
    && nat_eq a.max_retries b.max_retries

-- The equality of the data class.
unfoldable pub same_binding : Binding → Binding → Bool
same_binding a b =
    a.implementation_id == b.implementation_id
    && a.cell_id == b.cell_id
    && a.service_id == b.service_id
    && same_runtime a.runtime b.runtime
    && a.language == b.language
    && a.formula_version == b.formula_version
    && same_option (λ x y. x == y) a.endpoint b.endpoint
    && same_option (λ x y. x == y) a.task_queue b.task_queue
    && nat_eq a.priority b.priority
    && same_texts a.capabilities b.capabilities
    && same_flag a.supports_batch b.supports_batch
    && same_option (λ x y. nat_eq x y) a.max_concurrency b.max_concurrency
    && same_hints a.resource_hints b.resource_hints

-- `candidate_by_id.get(binding.binding_id) == binding`
abbrev pub is_candidate : List Binding → Binding → Bool
is_candidate candidates b = elim (lookup (binding_id b) candidates) [
  | none ↦ false
  | some c ↦ same_binding c b
]

abbrev pub is_invalid : Manifest → List Binding → Decision → Bool
is_invalid m candidates d =
    let bindings = d.selected_binding ∷ d.fallback_bindings in
    not (d.cell_id == m.cell_id)
    || not (d.formula_version == m.formula_version)
    || not (is_unique (binding_ids bindings))
    || any (λ b. not (is_candidate candidates b)) bindings

abbrev pub invalid_decision : PlacementError
invalid_decision = unavailable "placement policy returned an invalid binding decision"

-- `_place`; the policy is any function of the manifest and its candidates.
unfoldable pub place :
    (Manifest → List Binding → Result PlacementError Decision)
    → List Binding
    → Manifest
    → Result PlacementError Decision
place policy catalog m = do
  d ← policy m (candidates_for m catalog)
  raise_if (is_invalid m (candidates_for m catalog) d) invalid_decision
  ok d

abbrev pub runtime_aware :
    Policy → List Entry → Manifest → List Binding → Result PlacementError Decision
runtime_aware p entries m candidates = select p m candidates entries

-- The inner loop of `_plan_bindings`.
unfoldable pub add_bindings : List Binding → List Binding → List Binding
add_bindings [] bindings = bindings
add_bindings (b ∷ bs) bindings =
    add_bindings bs
      (if mem (binding_id b) (binding_ids bindings) then bindings else bindings ++ b ∷ [])

abbrev pub add_decisions : List Decision → List Binding → List Binding
add_decisions [] bindings = bindings
add_decisions (d ∷ ds) bindings =
    add_decisions ds (add_bindings (d.selected_binding ∷ d.fallback_bindings) bindings)

abbrev pub plan_bindings : List Decision → List Binding
plan_bindings decisions = add_decisions decisions []

-- What `_references_for_manifest` raises: `InputCompositionError`, and the error of a list that is
-- shorter than an index.
pub data CompositionError : Type 0 where
  composition : String → CompositionError
  out_of_range : CompositionError

-- `references_by_kind[kind]`
abbrev pub matches : String → List Reference → List Reference
matches kind references = keep (λ r. r.input_kind == kind) references

abbrev pub first_of : List Reference → Result CompositionError Reference
first_of [] = err out_of_range
first_of (r ∷ rs) = ok r

abbrev pub firsts : List Reference → List String → Result CompositionError (List Reference)
firsts references [] = ok []
firsts references (kind ∷ kinds) = do
  r ← first_of (matches kind references)
  rs ← firsts references kinds
  ok (r ∷ rs)

abbrev pub unsupported : List String → List String
unsupported kinds = keep (λ kind. not (mem kind supported_kinds)) kinds

abbrev pub missing : List Reference → List String → List String
missing references kinds = keep (λ kind. is_empty (matches kind references)) kinds

abbrev pub repeated : List Reference → List String → List String
repeated references kinds = keep (λ kind. ltb 1 (length (matches kind references))) kinds

unfoldable pub references_for_manifest :
    List String → List Reference → Result CompositionError (List Reference)
references_for_manifest kinds references = do
  raise_if (not (is_unique kinds)) (composition "Cell repeats a required input kind")
  raise_if (not (mem "analysis_request" kinds)) (composition "Cell must require analysis_request")
  raise_if (not (is_empty (unsupported kinds)))
      (composition "Cell requires unsupported input kinds")
  raise_if (not (is_empty (missing references kinds)))
      (composition "Cell is missing required input kinds")
  raise_if (not (is_empty (repeated references kinds)))
      (composition "Cell received multiple snapshots for input kinds")
  firsts references kinds
