-- ===== src/Execution/Coordinator/Inputs.antt =====
-- `_compose_cell_inputs` and `_resolution_record` of market_cell/execution/coordinator.py.
use market_cell.Prelude.{
  ℕ, String, Bool, true, false, Option, none, some, List, [], ◌∷◌, ◌++◌, keep, ◌==◌, Result, err,
  ok, by_key, get, set,
}
use market_cell.Execution.Models.{Node}
use market_cell.Execution.Outcomes.{Error}
use market_cell.Inputs.Models.{Reference, Snapshot, Request, ResolutionStatus, ResolutionRecord}
use market_cell.Inputs.Bundles.{ResolvedInput, Bundle, check_resolved, check_bundle}
use market_cell.Execution.Coordinator.Environment.{
  Environment, Run, Action, Failure, ◌>>=◌, ◌>>◌, return, lift, composition_error,
  value_or_key_error,
}

abbrev pub reference_by_id : List Reference → String → Result Error Reference
reference_by_id references id = value_or_key_error (by_key (λ r. r.reference_id) id references)

abbrev pub resolution_record :
    String
    → Reference
    → String
    → ResolutionStatus
    → Bool
    → Option String
    → Option ℕ
    → Option String
    → ResolutionRecord
resolution_record node_id r resolver status cache_hit hash size error = record {
  node_id = node_id;
  reference_id = r.reference_id;
  input_kind = r.input_kind;
  resolver = resolver;
  status = status;
  cache_hit = cache_hit;
  expected_content_hash = r.content_hash;
  actual_content_hash = hash;
  expected_payload_size_bytes = r.payload_size_bytes;
  actual_payload_size_bytes = size;
  data_version = r.data_version;
  source = r.source;
  error = error;
}

-- A ValueError of a constructor becomes a composition error.
abbrev pub or_composition_error : Result String (Unit {0}) → Result Error (Unit {0})
or_composition_error (err message) = err (composition_error message)
or_composition_error (ok x) = ok tt

module _ (e : Environment) where
  abbrev pub append_record : ResolutionRecord → Run e → Run e
  append_record record' s = record s {
    input_resolution_records = s.input_resolution_records ++ record' ∷ [];
  }

  abbrev pub succeeded_record : String → Reference → Bool → Snapshot e.Payload → ResolutionRecord
  succeeded_record node_id r cache_hit snapshot =
      resolution_record node_id r e.resolver_name ResolutionStatus.succeeded cache_hit
        (some snapshot.content_hash) (some snapshot.payload_size_bytes) none

  abbrev pub failed_record : String → Reference → Failure → ResolutionRecord
  failed_record node_id r f =
      resolution_record node_id r e.resolver_name ResolutionStatus.failed false
        f.actual_content_hash f.actual_payload_size_bytes (some f.error.message)

  -- What follows the call of the resolver.
  abbrev pub after_resolve :
      String → Reference → Result Failure (Snapshot e.Payload) → Action e (Snapshot e.Payload)
  after_resolve node_id r (err f) s = (err f.error, append_record (failed_record node_id r f) s)
  after_resolve node_id r (ok snapshot) s = (
    ok snapshot,
    append_record (succeeded_record node_id r false snapshot)
        (record s { resolved_inputs = set r.reference_id snapshot s.resolved_inputs }),
  )

  abbrev pub call_resolver : String → Reference → Action e (Snapshot e.Payload)
  call_resolver node_id r s =
      let (answer, world) = e.resolve r s.world in
      after_resolve node_id r answer (record s { world = world })

  abbrev pub resolve_or_reuse :
      String → Reference → Option (Snapshot e.Payload) → Action e (Snapshot e.Payload)
  resolve_or_reuse node_id r none s = call_resolver node_id r s
  resolve_or_reuse node_id r (some snapshot) s =
      (ok snapshot, append_record (succeeded_record node_id r true snapshot) s)

  -- The body of the first loop; the reference stands under its own identifier.
  abbrev pub resolve_input : String → Reference → Action e (Snapshot e.Payload)
  resolve_input node_id r s = resolve_or_reuse node_id r (get r.reference_id s.resolved_inputs) s

  -- The first loop, with the snapshots found so far.
  abbrev pub resolve_inputs :
      String
      → List Reference
      → List String
      → List (String × Snapshot e.Payload)
      → Action e (List (String × Snapshot e.Payload))
  resolve_inputs node_id references [] snapshots = return snapshots
  resolve_inputs node_id references (id ∷ ids) snapshots = do
    r ← lift (reference_by_id references id)
    snapshot ← resolve_input node_id r
    resolve_inputs node_id references ids (set id snapshot snapshots)

  abbrev pub request_snapshots :
      List (String × Snapshot e.Payload) → List (String × Snapshot e.Payload)
  request_snapshots snapshots = keep (λ x. x.1.input_kind == "analysis_request") snapshots

  -- `to_analysis_request` of a snapshot of this kind.
  abbrev pub materialize_new : String → Result Error (Request e.Body) → Action e (Request e.Body)
  materialize_new id (err x) s =
      (err (composition_error "could not materialize analysis_request"), s)
  materialize_new id (ok request) s =
      (ok request, record s { materialized_requests = set id request s.materialized_requests })

  abbrev pub materialize_or_reuse :
      String → Snapshot e.Payload → Option (Request e.Body) → Action e (Request e.Body)
  materialize_or_reuse id snapshot (some request) s = (ok request, s)
  materialize_or_reuse id snapshot none s = materialize_new id (e.from_dict snapshot.payload) s

  abbrev pub materialize : List (String × Snapshot e.Payload) → Action e (Request e.Body)
  materialize ((id, snapshot) ∷ []) s =
      materialize_or_reuse id snapshot (get id s.materialized_requests) s
  materialize _ s = (err (composition_error "requires exactly one analysis_request input"), s)

  abbrev pub resolved_tuple :
      List Reference
      → List (String × Snapshot e.Payload)
      → List String
      → Action e (List (ResolvedInput e.Payload))
  resolved_tuple references snapshots [] = return []
  resolved_tuple references snapshots (id ∷ ids) = do
    r ← lift (reference_by_id references id)
    snapshot ← lift (value_or_key_error (get id snapshots))
    lift (or_composition_error (check_resolved (record { reference = r; snapshot = snapshot })))
    rest ← resolved_tuple references snapshots ids
    return (record { reference = r; snapshot = snapshot } ∷ rest)

  abbrev pub bundle_of :
      Node → Request e.Body → List (ResolvedInput e.Payload) → Bundle e.Payload e.Body
  bundle_of n request inputs = record {
    node_id = n.node_id;
    analysis_request = request;
    resolved_inputs = inputs;
    required_input_kinds = n.required_input_kinds;
  }

  unfoldable pub compose_cell_inputs : Node → List Reference → Action e (Bundle e.Payload e.Body)
  compose_cell_inputs n references = do
    snapshots ← resolve_inputs n.node_id references n.input_reference_ids []
    request ← materialize (request_snapshots snapshots)
    inputs ← resolved_tuple references snapshots n.input_reference_ids
    lift (or_composition_error (check_bundle (bundle_of n request inputs)))
    return (bundle_of n request inputs)
