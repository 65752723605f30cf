-- ===== src/Tests/Inputs.antt =====
-- A snapshot is registered, and its reference resolved after further calls.
use market_cell.Prelude.{◌≡◌, refl, String, none, some, List, [], ◌∷◌, ok, true, is_blank}
use market_cell.Inputs.Models.{Reference, Snapshot}
use market_cell.Inputs.Identity.{Json, text_entry, to_reference, removeprefix, expected_snapshot_id}
use market_cell.Inputs.Resolver.{Store, validate_snapshot, register, resolve}
use market_cell.Inputs.Resolver.Stored.{
  Agrees, Call, registration, resolution, calls, resolve-register, resolve-register_same,
}

-- Payloads are texts: the target of the request; the hash is the text.
abbrev json : Json String
json = record {
  hash_and_size = λ payload. some (payload, 3);
  identity_hash = λ fields. "0123456789abcdef0123456789abcdef";
  is_object = λ payload. true;
  entry = λ key payload. text_entry payload;
}

abbrev snapshot : String → Snapshot String
snapshot source = record {
  snapshot_id = "snapshot:analysis_request:0123456789abcdef01234567";
  input_kind = "analysis_request";
  target = "BTC";
  horizon = "BTC";
  content_hash = "BTC";
  data_version = "v1";
  source = source;
  payload = "BTC";
  payload_size_bytes = 3;
  schema_version = "input_snapshot.v1";
}

abbrev empty_store : Store String
empty_store = record { snapshots_by_uri = []; resolve_count = 0 }

abbrev first_reference : Reference
first_reference = record {
  reference_id = "input:analysis_request:0123456789abcdef01234567";
  snapshot_id = "snapshot:analysis_request:0123456789abcdef01234567";
  input_kind = "analysis_request";
  uri = "memory://market-cell-input/snapshot:analysis_request:0123456789abcdef01234567";
  content_hash = "BTC";
  data_version = "v1";
  source = "feed";
  target = "BTC";
  horizon = "BTC";
  payload_size_bytes = 3;
  schema_version = "input_reference.v1";
}

abbrev first_store : Store String
first_store = record {
  snapshots_by_uri = (first_reference.uri, snapshot "feed") ∷ [];
  resolve_count = 0;
}

registered : register json (snapshot "feed") empty_store ≡ ok (first_reference, first_store)
unfolding register validate_snapshot is_blank to_reference removeprefix expected_snapshot_id
registered = refl

-- A snapshot of another source collides at the URI, and is refused.
abbrev further_calls : List (Call String)
further_calls =
    resolution first_reference
    ∷ registration (snapshot "other")
    ∷ registration (snapshot "feed")
    ∷ []

resolve-register_example :
    (found : Snapshot String) × ((resolve json first_reference
        (calls json further_calls first_store)).0
      ≡ ok found)
    × (validate_snapshot json found ≡ ok tt)
    × Agrees first_reference (to_reference none found)
resolve-register_example =
    resolve-register json (snapshot "feed") empty_store first_store first_reference further_calls
      registered

resolve-register_same_example : (resolve json first_reference first_store).0 ≡ ok (snapshot "feed")
resolve-register_same_example =
    resolve-register_same json (snapshot "feed") empty_store first_store first_reference registered
