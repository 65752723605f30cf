-- ===== src/Inputs/Identity.antt =====
-- The identity of a snapshot and its reference, of market_cell/inputs/models.py. Hashing is SHA-256
-- over canonical JSON text, which a Json gives.
use Prim.Native.String.{◌++◌ as join, slice, len}
use text.Mathlib.Text.{starts_with}
use market_cell.Prelude.{ℕ, String, Bool, Option, none, some, List, [], ◌∷◌, ◌==◌, if◌then◌else◌}
use market_cell.Inputs.Models.{Reference, Snapshot}

-- What `payload.get(key)` may find.
pub data Entry : Type 0 where
  absent other : Entry
  text_entry : String → Entry

pub record Json (Payload : Type 0) : Type 0 where
  -- `canonical_json_hash_and_size`, none where it raises
  pub hash_and_size : Payload → Option (String × ℕ)
  -- `stable_json_hash` of a dictionary of texts
  pub identity_hash : List (String × String) → String
  pub is_object : Payload → Bool
  pub entry : String → Payload → Entry

-- `text.removeprefix(prefix)`
unfoldable pub removeprefix : String → String → String
removeprefix prefix given =
    if starts_with given prefix then slice given (len prefix) (len given) else given

abbrev pub default_uri : String → String
default_uri snapshot_id = join "memory://market-cell-input/" snapshot_id

abbrev pub uri_or : Option String → String → String
uri_or none default = default
uri_or (some uri) default = if uri == "" then default else uri

module _ {Payload : Type 0} where
  -- `to_reference(uri)`
  unfoldable pub to_reference : Option String → Snapshot Payload → Reference
  to_reference uri s = record {
    reference_id = join "input:" (removeprefix "snapshot:" s.snapshot_id);
    snapshot_id = s.snapshot_id;
    input_kind = s.input_kind;
    uri = uri_or uri (default_uri s.snapshot_id);
    content_hash = s.content_hash;
    data_version = s.data_version;
    source = s.source;
    target = s.target;
    horizon = s.horizon;
    payload_size_bytes = s.payload_size_bytes;
    schema_version = "input_reference.v1";
  }

  -- `_input_snapshot_id` of the snapshot's fields; the hash is ASCII, so 24 bytes are 24 characters.
  unfoldable pub expected_snapshot_id : Json Payload → Snapshot Payload → String
  expected_snapshot_id json s = join "snapshot:" (
      join s.input_kind (
        join ":" (
          slice
            (json.identity_hash (
              ("content_hash", s.content_hash)
              ∷ ("data_version", s.data_version)
              ∷ ("horizon", s.horizon)
              ∷ ("input_kind", s.input_kind)
              ∷ ("source", s.source)
              ∷ ("target", s.target)
              ∷ []))
            0 24)))
