-- ===== src/Inputs/Models.antt =====
-- market_cell/inputs/models.py: the records. Free metadata, creation times and the schema versions of
-- audit views are left out.
use market_cell.Prelude.{ℕ, String, Bool, Option, List, [], ◌∷◌, map}

-- `InputKind`, whose members are texts
abbrev pub supported_kinds : List String
supported_kinds =
    "analysis_request" ∷ "candle_batch" ∷ "funding_open_interest_snapshot" ∷ "feature_snapshot"
    ∷ "order_book_snapshot" ∷ []

pub record Reference : Type 0 where
  pub reference_id : String
  pub snapshot_id : String
  pub input_kind : String
  pub uri : String
  pub content_hash : String
  pub data_version : String
  pub source : String
  pub target : String
  pub horizon : String
  pub payload_size_bytes : ℕ
  pub schema_version : String

abbrev pub reference_ids : List Reference → List String
reference_ids references = map (λ r. r.reference_id) references

-- A snapshot holds its payload, a value of any type: the resolver and the cells read it.
pub record Snapshot (Payload : Type 0) : Type 0 where
  pub snapshot_id : String
  pub input_kind : String
  pub target : String
  pub horizon : String
  pub content_hash : String
  pub data_version : String
  pub source : String
  pub payload : Payload
  pub payload_size_bytes : ℕ
  pub schema_version : String

-- What the coordinator reads of an `AnalysisRequest`; `body` is all else.
pub record Request (Body : Type 0) : Type 0 where
  pub target : String
  pub horizon : String
  pub body : Body

pub data ResolutionStatus : Type 0 where
  succeeded failed : ResolutionStatus

pub record ResolutionRecord : Type 0 where
  pub node_id : String
  pub reference_id : String
  pub input_kind : String
  pub resolver : String
  pub status : ResolutionStatus
  pub cache_hit : Bool
  pub expected_content_hash : String
  pub actual_content_hash : Option String
  pub expected_payload_size_bytes : ℕ
  pub actual_payload_size_bytes : Option ℕ
  pub data_version : String
  pub source : String
  pub error : Option String
