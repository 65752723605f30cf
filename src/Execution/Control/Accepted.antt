-- ===== src/Execution/Control/Accepted.antt =====
-- The constructor of an attempt record refuses none that `execute` builds.
use market_cell.Prelude.{ℕ, ◌≤◌, ◌≡◌, All, All-append, ok, arith}
use market_cell.Execution.Models.{Binding, Attempt}
use market_cell.Execution.Models.Checks.{check_attempt}
use market_cell.Execution.Outcomes.{Outcome, Context}
use market_cell.Execution.Control.Environment.{Environment}
use market_cell.Execution.Control.Attempts.{classification_of, Attempted}
use market_cell.Execution.Control.Loop.{
  Place, annotate_attempt_outcome, attempt_record, Planned, Progress, attempt_once, note_attempt,
  run,
}
use market_cell.Execution.Control.Loop.Rule.{Rule, run_rule}

abbrev pub IsAccepted : Attempt → Type 0
IsAccepted a = check_attempt a ≡ ok tt

pub attempt_record-IsAccepted :
    (env : Environment) (p : Place) (o : Outcome) (duration : ℕ)
    → 1 ≤ p.attempt_number
    → 1 ≤ p.binding_attempt_number
    → IsAccepted (
        attempt_record p
          (classification_of env p.binding o.completion)
          (annotate_attempt_outcome p (classification_of env p.binding o.completion) o)
          duration)
unfolding attempt_record annotate_attempt_outcome check_attempt classification_of
attempt_record-IsAccepted env p o duration h k = ground arith

module _ (env : Environment) (context : Context) (planned : Planned) where
  open env use {World}

  abbrev Numbered : Binding → ℕ → ℕ → Progress World → Type 0
  Numbered b i n p = (1 ≤ n) × All IsAccepted p.attempts

  note_attempt-All :
      (place : Place) (done : Attempted World) (p : Progress World)
      → 1 ≤ place.attempt_number
      → 1 ≤ place.binding_attempt_number
      → All IsAccepted p.attempts
      → All IsAccepted (note_attempt env context planned place done p).attempts
  unfolding note_attempt
  note_attempt-All place done p h k earlier =
      All-append IsAccepted p.attempts _ earlier
        (attempt_record-IsAccepted env place done.outcome done.duration_ms h k, tt)

  IsAccepted-rule : Rule env context planned Numbered Numbered (λ p. All IsAccepted p.attempts)
  unfolding attempt_once
  IsAccepted-rule = record {
    attempt = λ b i n p _ (h, earlier). (h, note_attempt-All _ _ p (omega arith) h earlier);
    retry = λ b i n p _ (h, all). (omega arith, all);
    fall_back = λ b c i n p _ _ (h, all). (omega arith, all);
    finish = λ b i n p (h, all). all;
  }

  -- Every attempt record of a run passes the checks of `CellExecutionAttempt.__post_init__`,
  -- whatever the delegate, the admission controller and the classifier do.
  pub attempts-IsAccepted : (w : World) → All IsAccepted (run env context planned w).attempts
  attempts-IsAccepted w = run_rule env context planned IsAccepted-rule w (omega arith, tt)
