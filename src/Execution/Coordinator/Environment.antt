-- ===== src/Execution/Coordinator/Environment.antt =====
-- What the coordinator calls: the registered cells, the input resolver, the executor and the handler
-- of completed nodes. A call may change the world. A payload and the body of a request are values of
-- any type, and reading a request out of a payload is a function of the environment.
use market_cell.Prelude.{ℕ, String, Bool, Option, none, some, List, Result, err, ok}
use market_cell.Execution.Models.{Role, Trace, ControlRecord}
use market_cell.Execution.Outcomes.{
  Error, ErrorClass, foreign, CellResult, CellIdentity, Outcome, Context,
}
use market_cell.Execution.Control.Identity.{Digest}
use market_cell.Inputs.Models.{Reference, Snapshot, Request, ResolutionRecord}
use market_cell.Inputs.Bundles.{Bundle}

-- An exception of the resolver; the two values are none but on an InputResolutionError.
pub record Failure : Type 0 where
  pub error : Error
  pub actual_content_hash : Option String
  pub actual_payload_size_bytes : Option ℕ

pub record NodeCompletion : Type 0 where
  pub node_id : String
  pub cell_id : String
  pub binding_id : String
  pub execution_role : Role
  pub input_reference_ids : List String
  pub result : Option CellResult
  pub trace : Option Trace
  pub control_record : Option ControlRecord
  pub error : Option Error

pub record Environment : Type 1 where
  pub World : Type 0
  pub Payload : Type 0
  pub Body : Type 0
  pub hash : Digest
  pub cells : List CellIdentity
  pub from_dict : Payload → Result Error (Request Body)
  pub resolver_name : String
  pub resolve : Reference → World → Result Failure (Snapshot Payload) × World
  pub execute :
      CellIdentity
      → Bundle Payload Body
      → Option (List CellResult)
      → Context
      → World
      → Result Error Outcome × World
  -- the exception that the handler raises, if any
  pub on_node_completed : Option (NodeCompletion → World → Option Error × World)
  pub has_signal : Bool

-- The variables of `execute` that the run of one node changes.
pub record Run (e : Environment) : Type 0 where
  pub world : e.World
  pub runtime_traces : List Trace
  pub execution_control_records : List ControlRecord
  pub input_resolution_records : List ResolutionRecord
  pub resolved_inputs : List (String × Snapshot e.Payload)
  pub materialized_requests : List (String × Request e.Body)
  pub trace : Option Trace
  pub control_record : Option ControlRecord

-- A step returns or raises, and leaves the variables changed either way.
abbrev pub Action : Environment → Type 0 → Type 0
Action e A = Run e → Result Error A × Run e

module _ {e : Environment} where
  infixl 5 ◌>>=◌ ◌>>◌
  abbrev pub continue_with : {A B : Type 0} → (A → Action e B) → Result Error A → Action e B
  continue_with next (err x) s = (err x, s)
  continue_with next (ok a) s = next a s

  abbrev pub ◌>>=◌ : {A B : Type 0} → Action e A → (A → Action e B) → Action e B
  (first >>= next) s = let (r, s') = first s in continue_with next r s'

  abbrev pub ◌>>◌ : {B : Type 0} → Action e (Unit {0}) → Action e B → Action e B
  (first >> next) s = let (r, s') = first s in continue_with (λ x. next) r s'

  abbrev pub raise_error : {A : Type 0} → Error → Action e A
  raise_error x s = (err x, s)

  abbrev pub return : {A : Type 0} → A → Action e A
  return a s = (ok a, s)

  abbrev pub lift : {A : Type 0} → Result Error A → Action e A
  lift r s = (r, s)

abbrev pub error : ErrorClass → String → Error
error class message = record { class = class; message = message }

abbrev pub key_error : Error
key_error = error (foreign "KeyError") "KeyError"

abbrev pub composition_error : String → Error
composition_error message = error (foreign "InputCompositionError") message

-- `d[key]`
abbrev pub value_or_key_error : {A : Type 0} → Option A → Result Error A
value_or_key_error none = err key_error
value_or_key_error (some a) = ok a
