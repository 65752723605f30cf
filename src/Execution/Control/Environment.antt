-- ===== src/Execution/Control/Environment.antt =====
-- What FailureControlledExecutor calls and does not implement: clocks, identifiers, the cancellation
-- signal, the admission controller, the classifier and the delegate. Each call may change the world.
-- The cell, the request and the child results are the same for every attempt, so the delegate here
-- is the call with these already given.
use market_cell.Prelude.{ℕ, String, Bool, Option}
use market_cell.Execution.Models.{Binding}
use market_cell.Execution.Outcomes.{Error, Outcome, Context, CellIdentity}
use market_cell.Execution.Control.Classify.{Classification}
use market_cell.Execution.Control.Identity.{Digest}

pub data Admission (Lease : Type 0) : Type 0 where
  granted : Lease → Admission Lease
  refused : Admission Lease
  broken : Error → Admission Lease

-- A call returns an outcome, or an object of another class (its name), or raises.
pub data Reply : Type 0 where
  returned : Outcome → Reply
  returned_other : String → Reply
  raised : Error → Reply

pub record Environment : Type 1 where
  pub World : Type 0
  pub Lease : Type 0
  pub hash : Digest
  pub cell : CellIdentity
  pub utc_now_iso : World → String × World
  pub uuid4_hex : World → String × World
  -- in units of 10⁻⁶ ms; the clock never goes back
  pub perf_counter : World → ℕ × World
  pub is_cancellation_requested : World → Bool × World
  pub try_acquire : Binding → World → Admission Lease × World
  pub release : Lease → World → Option Error × World
  pub delegate : Context → World → Reply × World
  pub admission_name : String
  pub classify : Error → Classification
