-- ===== src/Inputs/Resolver.antt =====
-- market_cell/inputs/resolver.py: the local store of snapshots. A stored snapshot is not mutated from
-- outside. The names of the mismatches that an error lists are kept, its other words are not.
pub mod Stored
use market_cell.Prelude.{
  ℕ, suc, String, Bool, true, false, not, ◌||◌, Option, none, some, List, [], ◌∷◌, mem, is_blank,
  nat_eq, gather, get, set, ◌==◌, Result, err, ok, ◌>>=◌, ◌>>◌, if◌then◌else◌,
}
use market_cell.Execution.Traces.{unless}
use market_cell.Inputs.Models.{Reference, Snapshot, supported_kinds}
use market_cell.Inputs.Identity.{
  Json, Entry, absent, text_entry, to_reference, expected_snapshot_id,
}

pub data Reason : Type 0 where
  not_found not_an_object not_canonical : Reason
  mismatched : List String → Reason

pub record ResolutionError : Type 0 where
  pub reason : Reason
  pub actual_content_hash : Option String
  pub actual_payload_size_bytes : Option ℕ

abbrev pub plain_error : Reason → ResolutionError
plain_error reason = record {
  reason = reason;
  actual_content_hash = none;
  actual_payload_size_bytes = none;
}

abbrev pub integrity_error : List String → String → ℕ → ResolutionError
integrity_error names hash size = record {
  reason = mismatched names;
  actual_content_hash = some hash;
  actual_payload_size_bytes = some size;
}

-- Raises where there is a mismatch.
abbrev pub require_none : List String → String → ℕ → Result ResolutionError (Unit {0})
require_none [] hash size = ok tt
require_none (name ∷ names) hash size = err (integrity_error (name ∷ names) hash size)

abbrev pub same_entry : String → Entry → Bool
same_entry expected (text_entry given) = expected == given
same_entry expected _ = false

abbrev pub or_text : String → Entry → Entry
or_text default absent = text_entry default
or_text default entry = entry

abbrev pub is_absent : Entry → Bool
is_absent absent = true
is_absent _ = false

-- The check of a scope field of the payload, where the payload has to have it or has it.
abbrev pub scope_mismatches : String → Bool → String → Entry → Entry → List String
scope_mismatches name is_request expected entry read =
    if is_request || not (is_absent entry) then unless (same_entry expected read) name else []

module _ {Payload : Type 0} (json : Json Payload) where
  abbrev pub snapshot_mismatches : Snapshot Payload → String → ℕ → List String
  snapshot_mismatches s hash size =
      let is_request = s.input_kind == "analysis_request" in
      let target = json.entry "target" s.payload in
      let horizon = json.entry "horizon" s.payload in
      gather (
        unless (s.schema_version == "input_snapshot.v1") "schema_version"
        ∷ unless (mem s.input_kind supported_kinds) "input_kind"
        ∷ unless (not (is_blank s.target)) "target"
        ∷ unless (not (is_blank s.horizon)) "horizon"
        ∷ unless (not (is_blank s.data_version)) "data_version"
        ∷ unless (not (is_blank s.source)) "source"
        ∷ unless (s.snapshot_id == expected_snapshot_id json s) "snapshot_id"
        ∷ unless (s.content_hash == hash) "content_hash"
        ∷ unless (nat_eq s.payload_size_bytes size) "payload_size_bytes"
        ∷ scope_mismatches "target" is_request s.target target target
        ∷ scope_mismatches "horizon" is_request s.horizon horizon (or_text "1h" horizon)
        ∷ [])

  abbrev pub check_hashed :
      Snapshot Payload → Option (String × ℕ) → Result ResolutionError (Unit {0})
  check_hashed s none = err (plain_error not_canonical)
  check_hashed s (some (hash, size)) = require_none (snapshot_mismatches s hash size) hash size

  -- `_validate_snapshot`
  unfoldable pub validate_snapshot : Snapshot Payload → Result ResolutionError (Unit {0})
  validate_snapshot s =
      let hashed = check_hashed s (json.hash_and_size s.payload) in
      if json.is_object s.payload then hashed else err (plain_error not_an_object)

abbrev pub reference_checks : Reference → Reference → List (List String)
reference_checks r expected =
    unless (r.reference_id == expected.reference_id) "reference_id"
    ∷ unless (r.snapshot_id == expected.snapshot_id) "snapshot_id"
    ∷ unless (r.input_kind == expected.input_kind) "input_kind"
    ∷ unless (r.content_hash == expected.content_hash) "content_hash"
    ∷ unless (r.data_version == expected.data_version) "data_version"
    ∷ unless (r.source == expected.source) "source"
    ∷ unless (r.target == expected.target) "target"
    ∷ unless (r.horizon == expected.horizon) "horizon"
    ∷ unless (nat_eq r.payload_size_bytes expected.payload_size_bytes) "payload_size_bytes"
    ∷ unless (r.schema_version == expected.schema_version) "schema_version"
    ∷ []

-- `_reference_mismatches`
unfoldable pub reference_mismatches : Reference → Reference → List String
reference_mismatches r expected = gather (reference_checks r expected)

pub record Store (Payload : Type 0) : Type 0 where
  pub snapshots_by_uri : List (String × Snapshot Payload)
  pub resolve_count : ℕ

module _ {Payload : Type 0} (json : Json Payload) where
  -- The snapshot that stands at the URI already has the same reference.
  abbrev pub check_collision :
      Reference → Option (Snapshot Payload) → Result ResolutionError (Unit {0})
  check_collision r none = ok tt
  check_collision r (some existing) = do
    validate_snapshot json existing
    require_none (reference_mismatches r (to_reference (some r.uri) existing)) existing.content_hash
        existing.payload_size_bytes

  abbrev pub store_at : Reference → Snapshot Payload → Store Payload → Store Payload
  store_at r s store = record {
    snapshots_by_uri = set r.uri s store.snapshots_by_uri;
    resolve_count = store.resolve_count;
  }

  -- The reference and the store; an exception leaves the store as it was.
  unfoldable pub register :
      Snapshot Payload → Store Payload → Result ResolutionError (Reference × Store Payload)
  register s store = do
    validate_snapshot json s
    check_collision (to_reference none s) (get (to_reference none s).uri store.snapshots_by_uri)
    ok (to_reference none s, store_at (to_reference none s) s store)

  abbrev pub checked :
      Reference → Option (Snapshot Payload) → Result ResolutionError (Snapshot Payload)
  checked r none = err (plain_error not_found)
  checked r (some s) = do
    validate_snapshot json s
    require_none (reference_mismatches r (to_reference (some r.uri) s)) s.content_hash
        s.payload_size_bytes
    ok s

  abbrev pub counted : Store Payload → Store Payload
  counted store = record {
    snapshots_by_uri = store.snapshots_by_uri;
    resolve_count = suc store.resolve_count;
  }

  -- The count grows whether or not the reference is found.
  unfoldable pub resolve :
      Reference → Store Payload → Result ResolutionError (Snapshot Payload) × Store Payload
  resolve r store = (checked r (get r.uri store.snapshots_by_uri), counted store)
