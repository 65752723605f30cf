-- ===== src/Tests/Control.antt =====
-- Failure control on two bindings: the first fails twice, the second answers.
use Prim.Native.String.{◌∷◌ as char_cons, [] as no_chars}
use market_cell.Prelude.{
  Bool-cases, inl, inr, subst, min, ◌+◌, ℕ, zero, suc, ◌≤◌, ◌≡◌, ◌↔◌, refl, ap, sym, ◌∙◌, String,
  Bool, true, false, none, some, List, [], ◌∷◌, ◌++◌, length, sum_of, is_unique, ok, if◌then◌else◌,
  All, arith, leb,
}
use market_cell.Execution.Models.{
  ResourceHints, Binding, Node, Role, python_local, Attempt, AttemptStatus, TraceStatus,
  ControlRecord, ControlStatus, service_binding_id, binding_ids,
}
use market_cell.Execution.Models.Checks.{check_control_record}
use market_cell.Execution.Models.Checks.{check_attempt}
use market_cell.Execution.Outcomes.{
  check_outcome, foreign, completed, Outcome, Context, runtime_traces, span_ids, has_error,
}
use market_cell.Execution.Control.Classify.{default_classify, effective_classification}
use market_cell.Execution.Control.Identity.{text, number, Digest, execution_attempt_id}
use market_cell.Execution.Control.Environment.{Environment, granted, Reply, returned, raised}
use market_cell.Execution.Control.Attempts.{
  is_canceled, boundary_failure, receive, after_release, after_deadline, run_leased, admit,
  execute_attempt, classification_of,
}
use market_cell.Execution.Control.Loop.{
  Planned, candidate_bindings, annotate_attempt_outcome, attempt_record, note_attempt, attempt_once,
  final_classification, may_retry, attempts_on, may_fall_back, run_candidates, run, execute_planned,
}
use market_cell.Execution.Control.Record.{HasDistinctIdentities}
use market_cell.Execution.Control.Repeats.{attempts-le-budget, IsRepeatable, repeats_are_safe}
use market_cell.Execution.Control.Returns.{HasConsistentDelegate, execute_planned_returns}
use market_cell.Execution.Control.Accepted.{IsAccepted, attempts-IsAccepted}
use market_cell.Execution.Control.Admission.{Operation, acquire, free, active, live}
use market_cell.Execution.Control.Admission as Admission
use market_cell.Execution.Control.Admission.Limits.{IsLimited, empty, live-le-limit}

abbrev stars : ℕ → String
stars zero = no_chars
stars (suc n) = char_cons "x" (stars n)

abbrev size : String → ℕ
size no_chars = 0
size (char_cons c s) = suc (size s)

size-stars : (n : ℕ) → size (stars n) ≡ n
size-stars zero = refl
size-stars (suc n) = ap suc (size-stars n)

-- A digest that keeps the first number of its payload.
abbrev unary_digest : Digest
unary_digest [] = "none"
unary_digest ((key, text t) ∷ rest) = unary_digest rest
unary_digest ((key, number n) ∷ rest) = stars n

unary-distinct : (key : String) → HasDistinctIdentities unary_digest key
unfolding execution_attempt_id
unary-distinct key b c m n e = sym (size-stars m) ∙ ap size e ∙ size-stars n

abbrev pub hints : Bool → ℕ → ResourceHints
hints stateful retries = record {
  cpu_weight = "unknown";
  latency_sensitivity = "normal";
  stateful = stateful;
  expected_timeout_ms = 100;
  max_retries = retries;
}

abbrev pub binding_of : String → Bool → ℕ → Binding
binding_of name stateful retries = record {
  implementation_id = name;
  cell_id = "trend";
  service_id = "local";
  runtime = python_local;
  language = "python";
  formula_version = "v1";
  endpoint = none;
  task_queue = none;
  priority = 100;
  capabilities = [];
  supports_batch = false;
  max_concurrency = some 2;
  resource_hints = hints stateful retries;
}

abbrev node : Node
node = record {
  node_id = "n";
  cell_id = "trend";
  formula_version = "v1";
  execution_role = Role.leaf;
  binding_id = "binding:local:a";
  fallback_binding_ids = "binding:local:b" ∷ [];
  dependencies = [];
  input_reference_ids = [];
  required_input_kinds = [];
  input_keys = [];
  output_keys = [];
  resource_hints = hints false 1;
}

abbrev pub context : Context
context = record {
  run_id = "run";
  trace_id = "trace";
  plan_id = some "plan";
  node = some node;
  binding = some (binding_of "a" false 1);
  input_bundle = none;
  fallback_bindings = binding_of "b" false 0 ∷ [];
  idempotency_key = none;
  attempt_id = none;
  attempt_number = 0;
  timeout_ms = none;
  has_signal = false;
}

abbrev pub answered : Context → Outcome
answered c = record {
  trace = record {
    trace_id = c.trace_id;
    span_id = "answer";
    run_id = c.run_id;
    node_id = "n";
    cell_id = "trend";
    formula_version = "v1";
    status = TraceStatus.succeeded;
    started_at = "t";
    finished_at = "t";
    duration_ms = 5;
    plan_id = c.plan_id;
    implementation_id = some "b";
    service_id = some "local";
    runtime = some python_local;
    retry_count = 0;
    error = none;
    metadata = [];
  };
  completion = completed (record { cell_id = "trend"; target = "BTC"; horizon = "1d" });
  prior_traces = [];
  control_record = none;
}

-- The first two calls raise, later ones answer.
abbrev reply : Context → Reply
reply c =
    if leb c.attempt_number 2
    then raised (record { class = foreign "OSError"; message = "down" })
    else returned (answered c)

abbrev environment : Environment
environment = record {
  World = ℕ;
  Lease = Unit {0};
  hash = unary_digest;
  cell = record { cell_id = "trend"; formula_version = "v1" };
  utc_now_iso = λ w. ("t", w);
  uuid4_hex = λ w. (stars w, suc w);
  perf_counter = λ w. (w, w);
  is_cancellation_requested = λ w. (false, w);
  try_acquire = λ b w. (granted tt, w);
  release = λ l w. (none, w);
  delegate = λ c w. (reply c, w);
  admission_name = "test";
  classify = default_classify;
}

abbrev planned : Planned
planned = record { plan_id = "plan"; node = node; binding = binding_of "a" false 1; key = "key" }

answered-checked : (c : Context) → check_outcome (answered c) ≡ ok tt
unfolding check_outcome
answered-checked c = refl

environment-consistent : HasConsistentDelegate environment
environment-consistent c w o e = elim (Bool-cases (leb c.attempt_number 2)) [
  | inl f ↦ cc (rw f at e)
  | inr f ↦
      let answer : returned (answered c) ≡ returned o = rw f at e in
      subst (λ x. check_outcome x ≡ ok tt) (injected (answered c) o answer) (answered-checked c)
]
  where
    injected : (a b : Outcome) → returned a ≡ returned b → a ≡ b
    injected a b h = cc

unique_bindings : is_unique (binding_ids (candidate_bindings environment context planned)) ≡ true
unfolding service_binding_id
unique_bindings = refl

statuses : List Attempt → List AttemptStatus
statuses [] = []
statuses (a ∷ rest) = a.status ∷ statuses rest

-- Two failures on the first binding, then the fallback succeeds.
statuses-run :
    statuses (run environment context planned 0).attempts
    ≡ AttemptStatus.failed ∷ AttemptStatus.failed ∷ AttemptStatus.succeeded ∷ []
unfolding statuses run run_candidates attempts_on attempt_once note_attempt execute_attempt admit
    run_leased receive after_release after_deadline boundary_failure is_canceled classification_of
    effective_classification default_classify final_classification may_retry may_fall_back
    attempt_record annotate_attempt_outcome check_outcome check_attempt
statuses-run = refl

spans_unique : is_unique (span_ids (run environment context planned 0).traces) ≡ true
unfolding run run_candidates attempts_on attempt_once note_attempt execute_attempt admit run_leased
    receive after_release after_deadline boundary_failure is_canceled classification_of
    effective_classification default_classify final_classification may_retry may_fall_back
    attempt_record annotate_attempt_outcome check_outcome check_attempt
spans_unique = refl

execute_planned_returns_example :
    (o : Outcome) × (r : ControlRecord) × ((execute_planned environment context planned 0).0 ≡ ok o)
    × (o.control_record ≡ some r)
    × (check_control_record r ≡ ok tt)
    × (runtime_traces o ≡ (run environment context planned 0).traces)
    × ((r.status ≡ ControlStatus.succeeded) ↔ (has_error o.completion ≡ false))
execute_planned_returns_example =
    execute_planned_returns environment context planned environment-consistent
      (unary-distinct "key") unique_bindings 0 spans_unique

attempts-le-budget_example :
    length (run environment context planned 0).attempts
    ≤ sum_of
        (λ b. min node.resource_hints.max_retries b.resource_hints.max_retries + 1)
        (binding_of "a" false 1 ∷ binding_of "b" false 0 ∷ [])
attempts-le-budget_example = attempts-le-budget environment context planned 0

repeats_are_safe_example :
    (before : List Attempt) × (last : Attempt) × ((run environment context planned 0).attempts
      ≡ before ++ last ∷ [])
    × All (IsRepeatable environment context planned) before
repeats_are_safe_example = repeats_are_safe environment context planned 0

attempts-IsAccepted_example : All IsAccepted (run environment context planned 0).attempts
attempts-IsAccepted_example = attempts-IsAccepted environment context planned 0

abbrev schedule : List Operation
schedule =
    acquire (binding_of "a" false 1)
    ∷ acquire (binding_of "a" false 1)
    ∷ acquire (binding_of "a" false 1)
    ∷ free 0
    ∷ free 0
    ∷ acquire (binding_of "a" false 1)
    ∷ []

within_two : (id : String) → All (IsLimited id 2) schedule
within_two id =
    let two : IsLimited id 2 (acquire (binding_of "a" false 1)) = λ max e h. ground arith in
    (two, (two, (two, (tt, (tt, (two, tt))))))

live-le-limit_example :
    (active "binding:local:a" (Admission.run schedule empty).controller
      ≡ live "binding:local:a" (Admission.run schedule empty).leases)
    × (live "binding:local:a" (Admission.run schedule empty).leases ≤ 2)
live-le-limit_example = live-le-limit "binding:local:a" 2 schedule (within_two "binding:local:a")
