-- ===== src/Execution/Placement.antt =====
-- market_cell/execution/placement.py and the candidates of market_cell/execution/catalog.py. Rates
-- are counted in millionths, to which the source rounds them, and durations as in the models; a
-- priority is a natural number. A missing snapshot is one without entries.
pub mod Ranks
pub mod Selection
pub mod Decisions
use mathlib.Core.Option as Option
use Prim.Native.String.{◌++◌ as join}
use market_cell.Prelude.{
  ℕ, zero, suc, min, String, Bool, true, false, not, ◌&&◌, ◌||◌, Option, none, some, List, [], ◌∷◌,
  ◌++◌, map, keep, find, any, all, mem, is_unique, is_empty, is_none, length, ltb, leb, nat_eq,
  ◌==◌, if◌then◌else◌, sort_by, text_le, Result, ok, err, ◌>>=◌, ◌>>◌, raise_if, insert_by,
}
use market_cell.Execution.Models.{
  Binding, Runtime, binding_id, binding_ids, python_local, ResourceHints,
}
use market_cell.Execution.Models.Codes.{same_runtime, same_option}

-- What is read of a `CellManifest`.
pub record Manifest : Type 0 where
  pub cell_id : String
  pub formula_version : String
  pub category : String
  pub inputs : List String
  pub outputs : List String
  pub required_input_kinds : List String

-- What is read of a `RuntimeSummaryEntry`.
pub record Entry : Type 0 where
  pub cell_id : String
  pub formula_version : String
  pub implementation_id : Option String
  pub service_id : Option String
  pub runtime : Option Runtime
  pub trace_count : ℕ
  pub failure_rate : ℕ
  pub p95_duration_ms : ℕ

pub data HistoryStatus : Type 0 where
  no_history insufficient_history healthy unhealthy : HistoryStatus

pub record Evaluation : Type 0 where
  pub binding_id : String
  pub implementation_id : String
  pub service_id : String
  pub priority : ℕ
  pub trace_count : ℕ
  pub failure_rate : Option ℕ
  pub p95_duration_ms : Option ℕ
  pub history_status : HistoryStatus

pub record Decision : Type 0 where
  pub cell_id : String
  pub formula_version : String
  pub selected_binding : Binding
  pub fallback_bindings : List Binding
  pub policy : String
  pub reason_codes : List String
  pub candidate_evaluations : List Evaluation

abbrev pub evaluation_ids : List Evaluation → List String
evaluation_ids evaluations = map (λ e. e.binding_id) evaluations

abbrev pub is_compatible : Manifest → Binding → Bool
is_compatible m b = b.cell_id == m.cell_id && b.formula_version == m.formula_version

-- `CellPlacementDecision.__post_init__`
unfoldable pub check_decision : Decision → Result String (Unit {0})
check_decision d =
    let bindings = d.selected_binding ∷ d.fallback_bindings in
    do
      raise_if (not (is_unique (binding_ids bindings))) "placement decision bindings must be unique"
      raise_if
          (any (λ b. not (b.cell_id == d.cell_id) || not (b.formula_version == d.formula_version))
            bindings)
          "placement decision binding is incompatible with the Cell"
      raise_if (is_empty d.candidate_evaluations)
          "placement decision requires candidate evaluations"
      raise_if (not (is_unique (evaluation_ids d.candidate_evaluations)))
          "placement candidate evaluations must be unique"
      raise_if
          (any (λ id. not (mem id (evaluation_ids d.candidate_evaluations))) (binding_ids bindings))
          "placement binding is missing from candidate evaluations"

-- `RuntimeAwarePlacementPolicy`, whose constructor wants `minimum_trace_count` to be at least 1.
pub record Policy : Type 0 where
  pub minimum_trace_count : ℕ
  pub max_failure_rate : ℕ

abbrev pub is_history_of : Binding → Entry → Bool
is_history_of b e =
    e.cell_id == b.cell_id
    && e.formula_version == b.formula_version
    && same_option (λ x y. x == y) e.implementation_id (some b.implementation_id)
    && same_option (λ x y. x == y) e.service_id (some b.service_id)
    && same_option same_runtime e.runtime (some b.runtime)

abbrev pub trace_count_of : Option Entry → ℕ
trace_count_of none = 0
trace_count_of (some e) = e.trace_count

abbrev pub failure_rate_of : Option Entry → Option ℕ
failure_rate_of none = none
failure_rate_of (some e) = some e.failure_rate

abbrev pub p95_of : Option Entry → Option ℕ
p95_of none = none
p95_of (some e) = some e.p95_duration_ms

abbrev pub exceeds : Option ℕ → ℕ → Bool
exceeds none bound = false
exceeds (some rate) bound = ltb bound rate

abbrev pub history_status_of : Policy → ℕ → Option ℕ → HistoryStatus
history_status_of p traces rate =
    if nat_eq traces 0
    then no_history
    else if ltb traces p.minimum_trace_count
    then insufficient_history
    else if exceeds rate p.max_failure_rate
    then unhealthy
    else healthy

abbrev pub evaluation_of : Policy → Binding → Option Entry → Evaluation
evaluation_of p b history = record {
  binding_id = binding_id b;
  implementation_id = b.implementation_id;
  service_id = b.service_id;
  priority = b.priority;
  trace_count = trace_count_of history;
  failure_rate = failure_rate_of history;
  p95_duration_ms = p95_of history;
  history_status = history_status_of p (trace_count_of history) (failure_rate_of history);
}

abbrev pub evaluate : Policy → List Entry → Binding → Evaluation
evaluate p entries b = evaluation_of p b (find (is_history_of b) entries)

-- The tuple of `_selection_rank`; no duration stands for `inf`.
pub record Rank : Type 0 where
  pub tier : ℕ
  pub first : ℕ
  pub second : ℕ
  pub p95_duration_ms : Option ℕ
  pub implementation_id : String
  pub service_id : String

abbrev pub rate_or_one : Option ℕ → ℕ
rate_or_one none = 1000000
rate_or_one (some rate) = rate

abbrev pub ranked_at : Evaluation → ℕ → ℕ → ℕ → Rank
ranked_at e tier first second = record {
  tier = tier;
  first = first;
  second = second;
  p95_duration_ms = e.p95_duration_ms;
  implementation_id = e.implementation_id;
  service_id = e.service_id;
}

abbrev pub rank_with : Evaluation → HistoryStatus → Rank
rank_with e unhealthy = ranked_at e 1 (rate_or_one e.failure_rate) e.priority
rank_with e healthy = ranked_at e 0 e.priority 0
rank_with e insufficient_history = ranked_at e 0 e.priority 1
rank_with e no_history = ranked_at e 0 e.priority 2

abbrev pub selection_rank : Evaluation → Rank
selection_rank e = rank_with e e.history_status

-- Tuples are compared at their first difference.
abbrev pub lex : ℕ → ℕ → Bool → Bool
lex a b rest = ltb a b || (nat_eq a b && rest)

abbrev pub lex_duration : Option ℕ → Option ℕ → Bool → Bool
lex_duration none none rest = rest
lex_duration none (some b) rest = false
lex_duration (some a) none rest = true
lex_duration (some a) (some b) rest = lex a b rest

abbrev pub lex_text : String → String → Bool → Bool
lex_text a b rest = not (text_le b a) || (a == b && rest)

unfoldable pub rank_le : Rank → Rank → Bool
rank_le a b = lex a.tier b.tier (
    lex a.first b.first (
      lex a.second b.second (
        lex_duration a.p95_duration_ms b.p95_duration_ms
          (lex_text a.implementation_id b.implementation_id (text_le a.service_id b.service_id)))))

abbrev pub evaluation_le : Evaluation → Evaluation → Bool
evaluation_le a b = rank_le (selection_rank a) (selection_rank b)

abbrev pub is_unhealthy : Evaluation → Bool
is_unhealthy e = elim e.history_status [
  | unhealthy ↦ true
  | healthy ↦ false
  | insufficient_history ↦ false
  | no_history ↦ false
]

abbrev pub is_healthy : Evaluation → Bool
is_healthy e = elim e.history_status [
  | unhealthy ↦ false
  | healthy ↦ true
  | insufficient_history ↦ false
  | no_history ↦ false
]

-- What a selection raises: `PlacementUnavailableError`, the errors of a dictionary and of a list, and
-- the other uses of `ValueError`.
pub data PlacementError : Type 0 where
  unavailable : String → PlacementError
  key_error index_error : PlacementError
  value_error : String → PlacementError

abbrev pub value_checked : Result String (Unit {0}) → Result PlacementError (Unit {0})
value_checked (err message) = err (value_error message)
value_checked (ok x) = ok x

-- `min(xs)`, which raises on an empty sequence
abbrev pub smallest : List ℕ → Option ℕ
smallest [] = none
smallest (x ∷ xs) = let rest = smallest xs in elim rest [ none ↦ some x | some y ↦ some (min x y) ]

-- `xs` without `None`
abbrev pub present : List (Option ℕ) → List ℕ
present [] = []
present (none ∷ xs) = present xs
present (some x ∷ xs) = x ∷ present xs

abbrev pub reason_if : Bool → String → List String
reason_if true reason = reason ∷ []
reason_if false reason = []

abbrev pub history_reason : HistoryStatus → String
history_reason healthy = "selected_with_healthy_runtime_history"
history_reason insufficient_history = "selected_with_insufficient_runtime_history"
history_reason no_history = "selected_without_runtime_history"
history_reason unhealthy = "selected_with_unhealthy_runtime_history"

-- `min` over the durations is taken only behind the guards before it; `none` is its error.
abbrev pub is_fastest : Option ℕ → List Evaluation → Option Bool
is_fastest none peers = some false
is_fastest (some d) peers =
    if ltb 1 (length peers)
    then Option.map (λ m. nat_eq d m) (smallest (present (map (λ e. e.p95_duration_ms) peers)))
    else some false

abbrev pub same_priority : Evaluation → List Evaluation → List Evaluation
same_priority selected evaluations =
    keep (λ e. nat_eq e.priority selected.priority && is_healthy e) evaluations

-- The reasons but the last.
abbrev pub first_reasons : Evaluation → List Evaluation → ℕ → List String
first_reasons selected evaluations lowest =
    reason_if (nat_eq (length evaluations) 1) "only_compatible_candidate"
    ++ reason_if
        (any
          (λ e.
            is_unhealthy e
            && not (
                e.implementation_id == selected.implementation_id
                && e.service_id == selected.service_id))
          evaluations)
        "unhealthy_candidates_avoided"
    ++ reason_if (all is_unhealthy evaluations) "all_candidates_unhealthy"
    ++ reason_if
        (any
          (λ e.
            not (e.binding_id == selected.binding_id)
            && (not (is_unhealthy e) || all is_unhealthy evaluations))
          evaluations)
        "fallback_candidates_available"
    ++ reason_if (nat_eq selected.priority lowest) "selected_by_priority"
    ++ history_reason selected.history_status ∷ []

abbrev pub with_reasons :
    Evaluation → List Evaluation → Option ℕ → Option Bool → Result PlacementError (List String)
with_reasons selected evaluations none fastest = err (value_error "min() of an empty sequence")
with_reasons selected evaluations (some lowest) none =
    err (value_error "min() of an empty sequence")
with_reasons selected evaluations (some lowest) (some fastest) =
    ok
      (first_reasons selected evaluations lowest ++ reason_if fastest "selected_by_runtime_latency")

unfoldable pub reason_codes : Evaluation → List Evaluation → Result PlacementError (List String)
reason_codes selected evaluations =
    with_reasons selected evaluations (smallest (map (λ e. e.priority) evaluations))
      (is_fastest selected.p95_duration_ms (same_priority selected evaluations))

-- `binding_by_id[id]`: a later candidate of the same identifier counts.
abbrev pub lookup : String → List Binding → Option Binding
lookup id [] = none
lookup id (b ∷ bs) =
    let later = lookup id bs in
    elim later [ none ↦ if binding_id b == id then some b else none | some x ↦ some x ]

abbrev pub binding_at : List Binding → String → Result PlacementError Binding
binding_at candidates id = elim (lookup id candidates) [ none ↦ err key_error | some b ↦ ok b ]

abbrev pub bindings_at : List Binding → List Evaluation → Result PlacementError (List Binding)
bindings_at candidates [] = ok []
bindings_at candidates (e ∷ es) = do
  b ← binding_at candidates e.binding_id
  bs ← bindings_at candidates es
  ok (b ∷ bs)

-- `non_unhealthy or evaluations`
abbrev pub or_else : List Evaluation → List Evaluation → List Evaluation
or_else [] evaluations = evaluations
or_else (e ∷ es) evaluations = e ∷ es

abbrev pub selection_pool : List Evaluation → List Evaluation
selection_pool evaluations = or_else (keep (λ e. not (is_unhealthy e)) evaluations) evaluations

abbrev pub decision_of :
    Manifest → List Evaluation → Binding → List Binding → List String → Decision
decision_of m evaluations selected fallbacks reasons = record {
  cell_id = m.cell_id;
  formula_version = m.formula_version;
  selected_binding = selected;
  fallback_bindings = fallbacks;
  policy = "runtime_aware_priority_v0.2";
  reason_codes = reasons;
  candidate_evaluations = sort_by evaluation_le evaluations;
}

abbrev pub decide :
    Manifest → List Binding → List Evaluation → List Evaluation → Result PlacementError Decision
decide m candidates evaluations [] = err index_error
decide m candidates evaluations (best ∷ rest) = do
  selected ← binding_at candidates best.binding_id
  fallbacks ← bindings_at candidates rest
  reasons ← reason_codes best evaluations
  let d = decision_of m evaluations selected fallbacks reasons
  value_checked (check_decision d)
  ok d

unfoldable pub select :
    Policy → Manifest → List Binding → List Entry → Result PlacementError Decision
select p m given entries =
    let candidates = keep (is_compatible m) given in
    let evaluations = map (evaluate p entries) candidates in
    do
      raise_if (is_empty candidates) (unavailable "no compatible implementation")
      decide m candidates evaluations (sort_by evaluation_le (selection_pool evaluations))
