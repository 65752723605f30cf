-- ===== src/Execution/Models/Checks.antt =====
-- The `__post_init__` methods of execution/models.py: what the constructors refuse.
use market_cell.Prelude.{
  ℕ, ◌+◌, String, Bool, true, false, not, ◌&&◌, ◌||◌, Option, none, some, List, [], ◌∷◌, map, ltb,
  leb, nat_eq, ◌==◌, is_unique, is_none, is_empty, any, length, get_elem?, last?, sum_of, max_of,
  if◌then◌else◌, Result, ok, err, ◌>>=◌, ◌>>◌, raise_if,
}
use market_cell.Execution.Models.{
  FailureKind, AttemptStatus, ControlStatus, ResourceHints, Attempt, ControlRecord,
}
use market_cell.Execution.Models.Codes.{same_kind, same_control_status, same_option}

-- A constructor call either passes or raises `ValueError` with this message.
abbrev pub Check : Type 0
Check = Result String (Unit {0})

unfoldable pub check_hints : ResourceHints → Check
check_hints h = raise_if (ltb h.expected_timeout_ms 1) "expected_timeout_ms must be at least 1"

-- The failure kind that a specialised status demands.
abbrev pub expected_failure_kind : AttemptStatus → Option FailureKind
expected_failure_kind AttemptStatus.timed_out = some FailureKind.timeout
expected_failure_kind AttemptStatus.backpressured = some FailureKind.backpressure
expected_failure_kind AttemptStatus.canceled = some FailureKind.canceled
expected_failure_kind AttemptStatus.succeeded = none
expected_failure_kind AttemptStatus.failed = none

abbrev is_specialized : Option FailureKind → Bool
is_specialized (some FailureKind.timeout) = true
is_specialized (some FailureKind.backpressure) = true
is_specialized (some FailureKind.canceled) = true
is_specialized _ = false

abbrev same_truth : Bool → Bool → Bool
same_truth true b = b
same_truth false b = not b

abbrev check_details : Attempt → AttemptStatus → Check
check_details a AttemptStatus.succeeded = do
  raise_if (not (is_none a.failure_kind) || not (is_none a.error))
      "successful attempt cannot contain failure details"
  raise_if a.retryable "successful attempt cannot be retryable"
check_details a _ =
    raise_if (is_none a.failure_kind || is_none a.error)
      "failed attempt requires failure_kind and error"

abbrev check_expected : Attempt → Option FailureKind → Check
check_expected a none = ok tt
check_expected a (some kind) =
    raise_if (not (same_option same_kind a.failure_kind (some kind)))
      "attempt status requires its failure kind"

abbrev is_failed : AttemptStatus → Bool
is_failed AttemptStatus.failed = true
is_failed _ = false

-- `CellExecutionAttempt.__post_init__`; the tests for a negative index and duration are the type's.
unfoldable pub check_attempt : Attempt → Check
check_attempt a = do
  raise_if (ltb a.attempt_number 1) "attempt_number must be at least 1"
  raise_if (ltb a.binding_attempt_number 1) "binding_attempt_number must be at least 1"
  raise_if (not (same_truth a.is_retry (ltb 1 a.binding_attempt_number)))
      "is_retry must match binding_attempt_number"
  check_details a a.status
  check_expected a (expected_failure_kind a.status)
  raise_if (is_failed a.status && is_specialized a.failure_kind)
      "specialized failure kind requires specialized attempt status"

-- `previous_fallback_index` and `binding_attempt_counts` of the loop over the attempts.
pub record Scan : Type 0 where
  pub previous : ℕ
  pub counts : List (ℕ × ℕ)

-- `binding_attempt_counts.get(i, 0)`
unfoldable pub count_of : ℕ → List (ℕ × ℕ) → ℕ
count_of i [] = 0
count_of i ((j, n) ∷ rest) = if nat_eq j i then n else count_of i rest

-- The body of the loop over the attempts.
unfoldable pub scan_attempt : List String → Scan → Attempt → Result String Scan
scan_attempt ids s a = do
  raise_if (leb (length ids) a.fallback_index)
      "attempt fallback_index is outside configured bindings"
  raise_if (not (same_option ◌==◌ (get_elem? ids a.fallback_index) (some a.binding_id)))
      "attempt binding_id does not match fallback_index"
  raise_if (not (nat_eq a.fallback_index s.previous || nat_eq a.fallback_index (s.previous + 1)))
      "execution attempts must follow fallback order"
  raise_if (ltb a.fallback_index s.previous)
      "execution attempts cannot return to an earlier binding"
  raise_if (not (nat_eq a.binding_attempt_number (count_of a.fallback_index s.counts + 1)))
      "binding_attempt_number must be contiguous for each binding"
  ok (record {
    previous = a.fallback_index;
    counts = (a.fallback_index, count_of a.fallback_index s.counts + 1) ∷ s.counts;
  })

unfoldable pub scan_attempts : List String → Scan → List Attempt → Result String Scan
scan_attempts ids s [] = ok s
scan_attempts ids s (a ∷ rest) = scan_attempt ids s a >>= λ s'. scan_attempts ids s' rest

-- `attempt_numbers == list(range(n, n + len(attempts)))`
unfoldable pub is_contiguous : ℕ → List Attempt → Bool
is_contiguous n [] = true
is_contiguous n (a ∷ rest) = nat_eq a.attempt_number n && is_contiguous (n + 1) rest

-- `sum(attempt.is_retry for attempt in attempts)` adds a truth value as 0 or 1.
abbrev pub retries : List Attempt → ℕ
retries attempts = sum_of (λ a. if a.is_retry then 1 else 0) attempts

abbrev pub max_fallback : List Attempt → ℕ
max_fallback attempts = max_of (λ a. a.fallback_index) attempts

abbrev pub expected_status : AttemptStatus → ControlStatus
expected_status AttemptStatus.succeeded = ControlStatus.succeeded
expected_status AttemptStatus.canceled = ControlStatus.canceled
expected_status _ = ControlStatus.failed

unfoldable pub check_final : ControlRecord → Option Attempt → Check
check_final r none = err "execution control record requires at least one attempt"
check_final r (some final) = do
  raise_if (not (r.final_binding_id == final.binding_id))
      "final_binding_id does not match the final attempt"
  raise_if (not (same_option same_kind r.final_failure_kind final.failure_kind))
      "final_failure_kind does not match the final attempt"
  raise_if (not (same_control_status r.status (expected_status final.status)))
      "control status does not match the final attempt"

-- `attempts[0].fallback_index`
abbrev pub first_fallback : List Attempt → ℕ
first_fallback [] = 0
first_fallback (a ∷ rest) = a.fallback_index

-- `ExecutionControlRecord.__post_init__`
unfoldable pub check_control_record : ControlRecord → Check
check_control_record r = do
  raise_if (is_empty r.attempts) "execution control record requires at least one attempt"
  raise_if (not (is_contiguous 1 r.attempts))
      "execution attempts must have contiguous attempt numbers"
  raise_if (not (is_unique (map (λ a. a.attempt_id) r.attempts)))
      "execution attempt_id values must be unique"
  raise_if (any (λ a. not (a.idempotency_key == r.idempotency_key)) r.attempts)
      "execution attempts must share the control idempotency key"
  raise_if (not (is_unique (r.primary_binding_id ∷ r.fallback_binding_ids)))
      "control primary and fallback binding ids must be unique"
  raise_if (not (nat_eq (first_fallback r.attempts) 0))
      "execution attempts must start with the primary binding"
  _ ←
      scan_attempts (r.primary_binding_id ∷ r.fallback_binding_ids)
        (record { previous = 0; counts = [] }) r.attempts
  raise_if (not (nat_eq r.retry_count (retries r.attempts)))
      "retry_count does not match execution attempts"
  raise_if (not (nat_eq r.fallback_count (max_fallback r.attempts)))
      "fallback_count does not match execution attempts"
  check_final r (last? r.attempts)
