-- ===== src/Inputs/Bundles.antt =====
-- `ResolvedCellInput` and `CellInputBundle` of market_cell/inputs/models.py, with the checks of their
-- `__post_init__` methods. Of a message only its fixed words are kept.
use market_cell.Prelude.{
  String, Bool, not, ◌&&◌, List, [], ◌∷◌, map, keep, any, is_empty, mem, is_unique, is_blank,
  nat_eq, ◌==◌, Result, ok, err, ◌>>◌, ◌>>=◌, raise_if,
}
use market_cell.Execution.Models.Codes.{same_texts}
use market_cell.Inputs.Models.{Reference, Snapshot, Request}

pub record ResolvedInput (Payload : Type 0) : Type 0 where
  pub reference : Reference
  pub snapshot : Snapshot Payload

pub record Bundle (Payload Body : Type 0) : Type 0 where
  pub node_id : String
  pub analysis_request : Request Body
  pub resolved_inputs : List (ResolvedInput Payload)
  pub required_input_kinds : List String

module _ {Payload : Type 0} where
  -- No field of the reference differs from the snapshot's.
  abbrev pub matches_snapshot : Reference → Snapshot Payload → Bool
  matches_snapshot r s =
      r.snapshot_id == s.snapshot_id
      && (r.input_kind == s.input_kind
          && (r.content_hash == s.content_hash
              && (r.data_version == s.data_version
                  && (r.source == s.source
                      && (r.target == s.target
                          && (r.horizon == s.horizon
                              && nat_eq r.payload_size_bytes s.payload_size_bytes))))))

  abbrev pub check_resolved : ResolvedInput Payload → Result String (Unit {0})
  check_resolved i =
      raise_if (not (matches_snapshot i.reference i.snapshot))
        "resolved Cell input reference does not match snapshot"

  abbrev pub exactly_one : List (Snapshot Payload) → Result String (Snapshot Payload)
  exactly_one (s ∷ []) = ok s
  exactly_one _ = err "Cell input bundle requires exactly one analysis_request"

module _ {Payload Body : Type 0} where
  -- `all(input_kind)`
  abbrev pub all_of_kind : Bundle Payload Body → String → List (Snapshot Payload)
  all_of_kind b kind = keep (λ s. s.input_kind == kind) (map (λ i. i.snapshot) b.resolved_inputs)

  abbrev pub in_scope : Request Body → Snapshot Payload → Bool
  in_scope q s = s.target == q.target && s.horizon == q.horizon

  -- `CellInputBundle.__post_init__`
  unfoldable pub check_bundle : Bundle Payload Body → Result String (Unit {0})
  check_bundle b = do
    raise_if (is_blank b.node_id) "Cell input bundle node_id must not be empty"
    raise_if (is_empty b.resolved_inputs) "Cell input bundle requires resolved inputs"
    raise_if (not (is_unique b.required_input_kinds))
        "Cell input bundle required input kinds must be unique"
    raise_if (not (mem "analysis_request" b.required_input_kinds))
        "Cell input bundle must require analysis_request"
    raise_if (not (is_unique (map (λ i. i.reference.reference_id) b.resolved_inputs)))
        "Cell input bundle reference ids must be unique"
    raise_if
        (not
          (same_texts (map (λ i. i.snapshot.input_kind) b.resolved_inputs) b.required_input_kinds))
        "Cell input bundle kinds do not match node requirements"
    request_snapshot ← exactly_one (all_of_kind b "analysis_request")
    raise_if (not (in_scope b.analysis_request request_snapshot))
        "Cell input bundle analysis_request scope does not match snapshot"
    raise_if (any (λ i. not (in_scope b.analysis_request i.snapshot)) b.resolved_inputs)
        "Cell input does not match analysis request scope"
