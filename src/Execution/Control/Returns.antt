-- ===== src/Execution/Control/Returns.antt =====
-- `execute` returns an outcome, and what it returns is the outcome of the last attempt.
use market_cell.Prelude.{
  ℕ, ◌≤◌, ◌*◌, ltb, ◌&&◌, not, ◌≡◌, inl, inr, refl, ap, String, true, false, Option, none, some,
  List, [], ◌∷◌, ◌++◌, last?, last?-append, is_unique, ok, Bool-cases, arith, append_assoc, ◌↔◌,
}
use market_cell.Execution.Models.{
  Binding, Node, Attempt, Trace, Metadata, ControlRecord, binding_ids, ControlStatus,
}
use market_cell.Execution.Models.Checks.{check_control_record, expected_status}
use market_cell.Execution.Outcomes.{
  Error, Completion, completed, failed, Outcome, Context, runtime_traces, span_ids, check_outcome,
  has_error,
}
use market_cell.Execution.Control.Environment.{
  Environment, Admission, granted, refused, broken, Reply, returned, returned_other, raised,
}
use market_cell.Execution.Control.Attempts.{
  replace_outcome_error, is_canceled, boundary_failure, receive, after_release, after_deadline,
  run_leased, admit, boundary, Attempted, execute_attempt, classification_of,
}
use market_cell.Execution.Control.Loop.{
  Place, annotate_attempt_outcome, attempt_record, Planned, Progress, status_of, attempt_once,
  note_attempt, run, candidate_bindings, control_record, without_last, finalize_outcome, conclude,
  execute_planned,
}
use market_cell.Execution.Control.Loop.Rule.{Rule, run_rule}
use market_cell.Execution.Outcomes.Checked.{check_outcome_iff, check_outcome-retraced}
use market_cell.Execution.Control.Classify.{Classification}
use market_cell.Execution.Control.Accepted.{attempt_record-IsAccepted}
use market_cell.Execution.Control.Record.{HasDistinctIdentities, control_record_accepted}

-- The constructor accepts the outcome.
abbrev pub IsConsistent : Outcome → Type 0
IsConsistent o = check_outcome o ≡ ok tt

replace-IsConsistent :
    (o : Outcome) (e : Error) (m : Metadata)
    → IsConsistent o
    → IsConsistent (replace_outcome_error o e m)
unfolding replace_outcome_error
replace-IsConsistent o e m h =
    check_outcome-retraced o (replace_outcome_error o e m) h refl refl refl

annotate-IsConsistent :
    (p : Place) (c : Option Classification) (o : Outcome)
    → IsConsistent o
    → IsConsistent (annotate_attempt_outcome p c o)
unfolding annotate_attempt_outcome
annotate-IsConsistent p c o h =
    check_outcome-retraced o (annotate_attempt_outcome p c o) h refl refl
      ((check_outcome_iff o).0 h).0

-- The constructors of an attempt's outcomes raise nothing, that of the last one included.
abbrev IsMade : {W : Type 0} → Attempted W → Type 0
IsMade a = (a.built ≡ ok tt) × IsConsistent a.outcome

module _ (env : Environment) where
  open env use {World, Lease, delegate, release, perf_counter, try_acquire}

  -- A delegate's outcome was accepted by its constructor.
  abbrev pub HasConsistentDelegate : Type 0
  HasConsistentDelegate =
      (context : Context) (w : World) (o : Outcome)
      → (delegate context w).0 ≡ returned o
      → IsConsistent o

  module _ (context : Context) (node : Node) (binding : Binding) (timeout_ms : ℕ) where
    boundary-IsConsistent :
        (e : Error) (phase : String) (m : Metadata) (w : World)
        → IsConsistent (boundary_failure env context node binding e phase m w).0
    unfolding boundary_failure check_outcome
    boundary-IsConsistent e phase m w = refl

    receive-IsConsistent :
        (reply : Reply) (w : World)
        → ((o : Outcome) → reply ≡ returned o → IsConsistent o)
        → IsConsistent (receive env context node binding timeout_ms reply w).0
    unfolding receive
    receive-IsConsistent (returned o) w h = h o refl
    receive-IsConsistent (returned_other name) w h = boundary-IsConsistent _ _ _ w
    receive-IsConsistent (raised e) w h = boundary-IsConsistent _ _ _ w

    after_release-IsConsistent :
        (e : Option Error) (o : Outcome)
        → IsConsistent o
        → IsConsistent (after_release env context node binding timeout_ms e o)
    unfolding after_release
    after_release-IsConsistent none o h = h
    after_release-IsConsistent (some e) o h = replace-IsConsistent o _ _ h

    after_deadline-IsConsistent :
        (o : Outcome) (duration : ℕ) (w : World)
        → IsConsistent o
        → IsConsistent (after_deadline env context node binding timeout_ms o duration w).0
    unfolding after_deadline
    after_deadline-IsConsistent o duration w h =
        elim (Bool-cases (ltb (timeout_ms * 1_000_000) duration)) [
          | inl e ↦ rw e (replace-IsConsistent o _ _ h)
          | inr e ↦
              rw e
                (elim (Bool-cases ((is_canceled env context w).0 && not (has_error o.completion))) [
                  | inl f ↦ rw f (replace-IsConsistent o _ _ h)
                  | inr f ↦ rw f h
                ])
        ]

    module _ (valid : HasConsistentDelegate) where
      run_leased-IsMade :
          (lease : Lease) (w : World)
          → IsMade (run_leased env context node binding timeout_ms lease w)
      unfolding run_leased
      run_leased-IsMade lease w =
          let given =
            receive-IsConsistent (delegate context (perf_counter w).1).0
              (delegate context (perf_counter w).1).1 (valid context (perf_counter w).1) in
          let released = after_release-IsConsistent _ _ given in
          let last = after_deadline-IsConsistent _ _ _ released in
          (rw (given, released, last) refl, last)

      boundary-IsMade :
          (e : Error) (phase : String) (m : Metadata) (w : World)
          → IsMade (boundary env context node binding timeout_ms e phase m w)
      boundary-IsMade e phase m w =
          (boundary-IsConsistent e phase m w, boundary-IsConsistent e phase m w)

      admit-IsMade :
          (admission : Admission Lease) (w : World)
          → IsMade (admit env context node binding timeout_ms admission w)
      unfolding admit
      admit-IsMade (granted lease) w = run_leased-IsMade lease w
      admit-IsMade refused w = boundary-IsMade _ _ _ w
      admit-IsMade (broken e) w = boundary-IsMade _ _ _ w

      execute_attempt-IsMade :
          (w : World) → IsMade (execute_attempt env context node binding timeout_ms w)
      unfolding execute_attempt
      execute_attempt-IsMade w = elim (Bool-cases (is_canceled env context w).0) [
        | inl e ↦ rw e (boundary-IsMade _ _ _ (is_canceled env context w).1)
        | inr e ↦ rw e (admit-IsMade _ _)
      ]

last?-append_append : (xs ys : List Trace) (t : Trace) → last? (xs ++ (ys ++ t ∷ [])) ≡ some t
last?-append_append xs ys t = rw (← append_assoc xs ys (t ∷ [])) (last?-append (xs ++ ys) t)

without_last-append :
    (xs : List Trace) (t : Trace) → last? xs ≡ some t → without_last xs ++ t ∷ [] ≡ xs
without_last-append [] t h = ground arith
without_last-append (x ∷ []) t h = ground arith
without_last-append (x ∷ y ∷ xs) t h =
    ap (λ l. x ∷ l) (without_last-append (y ∷ xs) t (ground arith))

module _ (env : Environment) (context : Context) (planned : Planned)
    (valid : HasConsistentDelegate env) where
  open env use {World}

  -- The last attempt, its outcome and its trace.
  record Ended (p : Progress World) : Type 0 where
    outcome : Outcome
    binding : Binding
    last : Attempt
    outcome_eq : p.final_outcome ≡ some outcome
    last_eq : last? p.attempts ≡ some last
    trace_eq : last? p.traces ≡ some outcome.trace
    consistent : IsConsistent outcome
    built : p.built ≡ ok tt
    status_eq : last.status ≡ status_of (classification_of env binding outcome.completion)

  abbrev Going : Binding → ℕ → ℕ → Progress World → Type 0
  Going b i n p = (1 ≤ n) × (p.built ≡ ok tt)

  note-Ended :
      (place : Place) (done : Attempted World) (p : Progress World)
      → 1 ≤ place.attempt_number
      → 1 ≤ place.binding_attempt_number
      → p.built ≡ ok tt
      → IsMade done
      → Ended (note_attempt env context planned place done p)
  unfolding note_attempt
  note-Ended place done p number tried before (made, consistent) =
      let c = classification_of env place.binding done.outcome.completion in
      let annotated = annotate-IsConsistent place c done.outcome consistent in
      let accepted =
        attempt_record-IsAccepted env place done.outcome done.duration_ms number tried in
      record {
        outcome = _;
        binding = place.binding;
        last = _;
        outcome_eq = refl;
        last_eq = last?-append p.attempts _;
        trace_eq = last?-append_append p.traces _ _;
        consistent = annotated;
        built = rw (before, made, annotated, accepted) refl;
        status_eq = unfold annotate_attempt_outcome attempt_record in refl;
      }

  end_rule : Rule env context planned Going (λ b i n p. Ended p) Ended
  unfolding attempt_once
  end_rule = record {
    attempt = λ b i n p _ (tried, before).
        note-Ended _ _ p (omega arith) tried before
          (execute_attempt-IsMade env _ _ b _ valid p.world);
    retry = λ b i n p _ e. (omega arith, e.built);
    fall_back = λ b c i n p _ _ e. (omega arith, e.built);
    finish = λ b i n p e. e;
  }

  run-Ended : (w : World) → Ended (run env context planned w)
  run-Ended w = run_rule env context planned end_rule w (omega arith, refl)

  -- A success is recorded exactly where the outcome has no error.
  succeeds :
      (b : Binding) (c : Completion)
      → (expected_status (status_of (classification_of env b c)) ≡ ControlStatus.succeeded)
        ↔ (has_error c ≡ false)
  unfolding classification_of
  succeeds b (completed r) = (λ _. refl, λ _. refl)
  succeeds b (failed e) = (λ h. absurd (ground arith), λ h. cc)

  last_status :
      (p : Progress World) (e : Ended p) (final : Attempt)
      → last? p.attempts ≡ some final
      → final.status ≡ status_of (classification_of env e.binding e.outcome.completion)
  last_status p e final found = ground (arith, e.last_eq, e.status_eq)

  finalize_lem :
      (o : Outcome) (traces : List Trace) (r : ControlRecord)
      → check_control_record r ≡ ok tt
      → is_unique (span_ids traces) ≡ true
      → last? traces ≡ some o.trace
      → IsConsistent o
      → finalize_outcome env context planned o (some o.trace) traces r
        ≡ ok (record {
          trace = o.trace;
          completion = o.completion;
          prior_traces = without_last traces;
          control_record = some r;
        })
  unfolding finalize_outcome check_outcome
  finalize_lem o traces r passed unique found consistent = rw (
    passed,
    without_last-append traces o.trace found,
    ((check_outcome_iff o).0 consistent).0,
    unique,
  )

  module _ (distinct : HasDistinctIdentities env.hash planned.key)
      (unique : is_unique (binding_ids (candidate_bindings env context planned)) ≡ true) where
    open env use {utc_now_iso}

    -- From a delegate whose outcomes pass the constructor's checks, a digest that tells attempts
    -- apart, distinct binding identifiers and distinct spans, the planned execution raises nothing, no
    -- constructor of an outcome or of an attempt record included: it returns an outcome with a control
    -- record that passes its checks and all traces of the run, and the record's status is
    -- "succeeded" exactly where the outcome has a result.
    pub execute_planned_returns :
        (w : World)
        → is_unique (span_ids (run env context planned (utc_now_iso w).1).traces) ≡ true
        → (o : Outcome) × (r : ControlRecord) × ((execute_planned env context planned w).0 ≡ ok o)
          × (o.control_record ≡ some r)
          × (check_control_record r ≡ ok tt)
          × (runtime_traces o ≡ (run env context planned (utc_now_iso w).1).traces)
          × ((r.status ≡ ControlStatus.succeeded) ↔ (has_error o.completion ≡ false))
    unfolding execute_planned conclude control_record
    execute_planned_returns w spans =
        let p = run env context planned (utc_now_iso w).1 in
        let ended = run-Ended (utc_now_iso w).1 in
        let started_at = (utc_now_iso w).0 in
        let finished_at = (utc_now_iso p.world).0 in
        let (final, found, passed) =
          control_record_accepted env context planned (utc_now_iso w).1 started_at finished_at
            distinct unique in
        let r = control_record env context planned p.attempts final started_at finished_at in
        let o : Outcome = record {
          trace = ended.outcome.trace;
          completion = ended.outcome.completion;
          prior_traces = without_last p.traces;
          control_record = some r;
        } in
        (
          o,
          r,
          rw (ended.built, found, ended.outcome_eq, ended.trace_eq)
              (finalize_lem ended.outcome p.traces r passed spans ended.trace_eq ended.consistent),
          refl,
          passed,
          without_last-append p.traces ended.outcome.trace ended.trace_eq,
          rw (last_status p ended final found) (succeeds ended.binding ended.outcome.completion),
        )
