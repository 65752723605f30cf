-- ===== src/Execution/Control/Loop.antt =====
-- `FailureControlledExecutor.execute`: the loops over the bindings and over their attempts, the
-- control record and the final outcome.
pub mod Rule
use market_cell.Prelude.{
  ℕ, zero, suc, ◌+◌, min, String, Bool, true, false, not, ◌&&◌, ◌||◌, Option, none, some, List, [],
  ◌∷◌, ◌++◌, ltb, mem, length, last?, if◌then◌else◌, Result, ok, err, ◌>>=◌, ◌>>◌, raise_if,
}
use market_cell.Execution.Models.{
  Binding, Node, FailureKind, AttemptStatus, ControlStatus, Trace, Attempt, ControlRecord,
  ControlStamp, text, number, flag, stamp, binding_id, binding_ids,
}
use market_cell.Execution.Models.Codes.{same_texts}
use market_cell.Execution.Models.Checks.{
  expected_status, retries, max_fallback, check_control_record, Check, check_attempt,
}
use market_cell.Execution.Outcomes.{
  foreign, control_error, Error, completed, failed, Completion, Outcome, runtime_traces,
  check_outcome, Context,
}
use market_cell.Execution.Control.Classify.{Classification, idempotent_execution_capability}
use market_cell.Execution.Control.Identity.{
  or_computed, execution_idempotency_key, execution_attempt_id, execution_control_id,
}
use market_cell.Execution.Control.Environment.{Environment}
use market_cell.Execution.Control.Attempts.{Attempted, execute_attempt, classification_of, error}

abbrev pub status_of : Option Classification → AttemptStatus
status_of none = AttemptStatus.succeeded
status_of (some c) = elim c.kind [
  | FailureKind.timeout ↦ AttemptStatus.timed_out
  | FailureKind.backpressure ↦ AttemptStatus.backpressured
  | FailureKind.canceled ↦ AttemptStatus.canceled
  | _ ↦ AttemptStatus.failed
]

abbrev pub kind_of : Option Classification → Option FailureKind
kind_of none = none
kind_of (some c) = some c.kind

abbrev pub retryable_of : Option Classification → Bool
retryable_of none = false
retryable_of (some c) = c.retryable

abbrev pub fallback_of : Option Classification → Bool
fallback_of none = false
fallback_of (some c) = c.allows_fallback

abbrev is_eligible : Option Classification → Bool
is_eligible none = true
is_eligible (some c) = elim c.kind [ FailureKind.canceled ↦ false | _ ↦ true ]

abbrev error_text : Completion → Option String
error_text (completed _) = none
error_text (failed e) = some e.message

-- Where an attempt stands: its binding, that binding's index, its number among the binding's
-- attempts, and its number among all.
pub record Place : Type 0 where
  pub binding : Binding
  pub fallback_index : ℕ
  pub binding_attempt_number : ℕ
  pub attempt_number : ℕ
  pub attempt_id : String
  pub idempotency_key : String
  pub timeout_ms : ℕ

-- `_annotate_attempt_outcome`
unfoldable pub annotate_attempt_outcome : Place → Option Classification → Outcome → Outcome
annotate_attempt_outcome p c o = record {
  trace = record o.trace {
    retry_count = if ltb 1 p.binding_attempt_number then 1 else 0;
    metadata =
        (
          "execution_control",
          stamp (record {
            attempt_id = p.attempt_id;
            idempotency_key = p.idempotency_key;
            attempt_number = p.attempt_number;
            binding_attempt_number = p.binding_attempt_number;
            fallback_index = p.fallback_index;
            timeout_ms = p.timeout_ms;
            failure_kind = kind_of c;
            placement_eligible = is_eligible c;
          }),
        )
        ∷ o.trace.metadata;
  };
  completion = o.completion;
  prior_traces = o.prior_traces;
  control_record = none;
}

-- `_attempt_record`
unfoldable pub attempt_record : Place → Option Classification → Outcome → ℕ → Attempt
attempt_record p c o duration = record {
  attempt_id = p.attempt_id;
  idempotency_key = p.idempotency_key;
  attempt_number = p.attempt_number;
  binding_attempt_number = p.binding_attempt_number;
  fallback_index = p.fallback_index;
  binding_id = binding_id p.binding;
  is_retry = ltb 1 p.binding_attempt_number;
  status = status_of c;
  failure_kind = kind_of c;
  retryable = retryable_of c;
  started_at = o.trace.started_at;
  finished_at = o.trace.finished_at;
  duration_ms = duration;
  trace_span_id = some o.trace.span_id;
  actual_implementation_id = o.trace.implementation_id;
  actual_service_id = o.trace.service_id;
  actual_runtime = o.trace.runtime;
  error = error_text o.completion;
  metadata =
      ("timeout_ms", number p.timeout_ms)
      ∷ ("stateful", flag p.binding.resource_hints.stateful)
      ∷ ("idempotent_execution", flag (mem idempotent_execution_capability p.binding.capabilities))
      ∷ ("allows_fallback", flag (fallback_of c))
      ∷ [];
}

abbrev pub is_built : Check → Bool
is_built (ok _) = true
is_built (err message) = false

-- The variables `attempts`, `traces` and `final_outcome` of `execute`, and the world. `built` is what
-- the constructors of the outcomes and of the attempt records answered: an error leaves both loops and
-- `execute`.
pub record Progress (W : Type 0) : Type 0 where
  pub attempts : List Attempt
  pub traces : List Trace
  pub final_outcome : Option Outcome
  pub built : Check
  pub world : W

-- `traces[:-1]`
abbrev pub without_last : List Trace → List Trace
without_last [] = []
without_last (t ∷ ts) = let rest = without_last ts in elim ts [ [] ↦ [] | _ ∷ _ ↦ t ∷ rest ]

-- The planned node and binding, and the key of the run.
pub record Planned : Type 0 where
  pub plan_id : String
  pub node : Node
  pub binding : Binding
  pub key : String

module _ (env : Environment) (context : Context) (planned : Planned) where
  open env use {World, hash, utc_now_iso}
  open planned use {plan_id, node, binding, key}

  -- `[context.binding, *context.fallback_bindings]`
  abbrev pub candidate_bindings : List Binding
  candidate_bindings = binding ∷ context.fallback_bindings

  abbrev timeout_for : Binding → ℕ
  timeout_for b = min node.resource_hints.expected_timeout_ms b.resource_hints.expected_timeout_ms

  abbrev pub max_attempts_for : Binding → ℕ
  max_attempts_for b = min node.resource_hints.max_retries b.resource_hints.max_retries + 1

  abbrev pub place_of : Binding → ℕ → ℕ → Progress World → Place
  place_of b i n p =
      let number = length p.attempts + 1 in
      record {
        binding = b;
        fallback_index = i;
        binding_attempt_number = n;
        attempt_number = number;
        attempt_id = execution_attempt_id hash key (binding_id b) number;
        idempotency_key = key;
        timeout_ms = timeout_for b;
      }

  abbrev attempt_context : Binding → Place → Context
  attempt_context b place = record context {
    node = some (record node { binding_id = binding_id b });
    binding = some b;
    fallback_bindings = [];
    idempotency_key = some key;
    attempt_id = some place.attempt_id;
    attempt_number = place.attempt_number;
    timeout_ms = some place.timeout_ms;
  }

  -- The records that one attempt adds. Where a constructor refuses one, the exception drops the lists,
  -- which are local to `execute`.
  unfoldable pub note_attempt : Place → Attempted World → Progress World → Progress World
  unfolding attempt_record annotate_attempt_outcome
  note_attempt place done p =
      let c = classification_of env place.binding done.outcome.completion in
      let o = annotate_attempt_outcome place c done.outcome in
      let attempt = attempt_record place c o done.duration_ms in
      record {
        attempts = p.attempts ++ attempt ∷ [];
        built = p.built >> (done.built >> (check_outcome o >> check_attempt attempt));
        traces = p.traces ++ runtime_traces o;
        final_outcome = some o;
        world = done.world;
      }

  -- The body of the inner loop, up to the tests on the outcome.
  unfoldable pub attempt_once : Binding → ℕ → ℕ → Progress World → Progress World
  attempt_once b i n p =
      let place = place_of b i n p in
      note_attempt place
        (execute_attempt env (attempt_context b place) (record node { binding_id = binding_id b }) b
          place.timeout_ms p.world)
        p

  -- The effective classification of the final outcome.
  unfoldable pub final_classification : Binding → Progress World → Option Classification
  final_classification b p = elim p.final_outcome [
    | none ↦ none
    | some o ↦ classification_of env b o.completion
  ]

  -- A success returns, a failure that is not retryable breaks, a constructor that refuses raises:
  -- each way no attempt follows.
  unfoldable pub may_retry : Binding → ℕ → Progress World → Bool
  may_retry b n p =
      is_built p.built && (retryable_of (final_classification b p) && ltb n (max_attempts_for b))

  -- `for binding_attempt_number in range(n, n + left)`
  unfoldable pub attempts_on : Binding → ℕ → ℕ → ℕ → Progress World → Progress World
  attempts_on b i zero n p = p
  attempts_on b i (suc left) n p =
      let p' = attempt_once b i n p in
      let rest = attempts_on b i left (suc n) p' in if may_retry b n p' then rest else p'

  unfoldable pub may_fall_back : Binding → ℕ → Progress World → Bool
  may_fall_back b i p =
      is_built p.built
      && (fallback_of (final_classification b p) && ltb (i + 1) (length candidate_bindings))

  -- `for fallback_index, binding in enumerate(candidate_bindings)`, from index `i` on.
  unfoldable pub run_candidates : ℕ → List Binding → Progress World → Progress World
  run_candidates i [] p = p
  run_candidates i (b ∷ bs) p =
      let p' = attempts_on b i (max_attempts_for b) 1 p in
      let rest = run_candidates (suc i) bs p' in if may_fall_back b i p' then rest else p'

  abbrev pub start : World → Progress World
  start w = record { attempts = []; traces = []; final_outcome = none; built = ok tt; world = w }

  unfoldable pub run : World → Progress World
  run w = run_candidates 0 candidate_bindings (start w)

  -- `_control_record`, behind the last attempt.
  unfoldable pub control_record : List Attempt → Attempt → String → String → ControlRecord
  control_record attempts final started_at finished_at = record {
    control_id = execution_control_id hash key;
    idempotency_key = key;
    run_id = context.run_id;
    plan_id = plan_id;
    node_id = node.node_id;
    primary_binding_id = binding_id binding;
    fallback_binding_ids = binding_ids context.fallback_bindings;
    status = expected_status final.status;
    attempts = attempts;
    retry_count = retries attempts;
    fallback_count = max_fallback attempts;
    final_binding_id = final.binding_id;
    final_failure_kind = final.failure_kind;
    started_at = started_at;
    finished_at = finished_at;
  }

  abbrev value_error : String → Error
  value_error message = error (foreign "ValueError") message

  abbrev or_value_error : Result String (Unit {0}) → Result Error (Unit {0})
  or_value_error (ok _) = ok tt
  or_value_error (err message) = err (value_error message)

  -- `_finalize_outcome`: the constructors' checks, then the outcome with all traces.
  unfoldable pub finalize_outcome :
      Outcome → Option Trace → List Trace → ControlRecord → Result Error Outcome
  finalize_outcome o none traces r =
      err (error control_error "execution control completed without traces")
  finalize_outcome o (some final) traces r = do
    or_value_error (check_control_record r)
    let result : Outcome = record {
      trace = final;
      completion = o.completion;
      prior_traces = without_last traces;
      control_record = some r;
    }
    or_value_error (check_outcome result)
    ok result

  abbrev conclude_with :
      String → Progress World → Option Attempt → Option Outcome → Result Error Outcome × World
  conclude_with started_at p (some final) (some o) =
      let (finished_at, w) = utc_now_iso p.world in
      (
        finalize_outcome o (last? p.traces) p.traces
            (control_record p.attempts final started_at finished_at),
        w,
      )
  conclude_with started_at p _ _ =
      (err (error control_error "failure control completed without an attempt"), p.world)

  -- What a constructor raised in the loops leaves `execute`.
  abbrev after_loops : Check → String → Progress World → Result Error Outcome × World
  after_loops (err message) started_at p = (err (value_error message), p.world)
  after_loops (ok _) started_at p = conclude_with started_at p (last? p.attempts) p.final_outcome

  unfoldable pub conclude : String → Progress World → Result Error Outcome × World
  conclude started_at p = after_loops p.built started_at p

  unfoldable pub execute_planned : World → Result Error Outcome × World
  execute_planned w = let (started_at, w₁) = utc_now_iso w in conclude started_at (run w₁)

module _ (env : Environment) (context : Context) where
  open env use {World, hash}

  abbrev check_fallbacks : String → Node → Binding → World → Result Error Outcome × World
  check_fallbacks plan_id node binding w =
      if same_texts (binding_ids context.fallback_bindings) node.fallback_binding_ids
      then execute_planned env context
          (record {
            plan_id = plan_id;
            node = node;
            binding = binding;
            key =
                or_computed context.idempotency_key
                  (execution_idempotency_key hash context.run_id plan_id node.node_id);
          })
          w
      else (err (error control_error "fallback bindings do not match the plan"), w)

  abbrev check_planned :
      Option String → Option Node → Option Binding → World → Result Error Outcome × World
  check_planned (some plan_id) (some node) (some binding) w = check_fallbacks plan_id node binding w
  check_planned _ _ _ w =
      (err (error control_error "failure control requires plan_id, node, and binding"), w)

  -- `FailureControlledExecutor.execute`
  unfoldable pub execute : World → Result Error Outcome × World
  execute = check_planned context.plan_id context.node context.binding
