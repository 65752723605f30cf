-- ===== src/Execution/Control/Repeats.antt =====
-- How often and after what failures `execute` tries again.
use market_cell.Prelude.{
  ℕ, suc, ◌+◌, ◌≤◌, min, ◌≡◌, inl, inr, refl, ap, true, some, List, [], ◌∷◌, ◌++◌, length,
  length-append, get_elem?, sum_of, drop, sum_of-drop, All, All-append, arith, ◌⊎◌, Option-cases,
  ◌∙◌,
}
use market_cell.Execution.Models.{Binding, Attempt, FailureKind}
use market_cell.Execution.Outcomes.{Context}
use market_cell.Execution.Control.Classify.{
  Classification, effective_classification, repeat_is_safe, is_ambiguous,
}
use market_cell.Execution.Control.Environment.{Environment}
use market_cell.Execution.Control.Attempts.{classification_of}
use market_cell.Execution.Control.Loop.{
  Planned, Progress, kind_of, candidate_bindings, max_attempts_for, attempt_once, note_attempt, run,
  final_classification, may_retry, may_fall_back,
}
use market_cell.Execution.Control.Loop.Rule.{Rule, run_rule}

module _ (env : Environment) (context : Context) (planned : Planned) where
  open env use {World}

  abbrev candidates : List Binding
  candidates = candidate_bindings env context planned

  abbrev budget : Binding → ℕ
  budget b = max_attempts_for env context planned b

  -- What the candidates from `i` on may still use.
  abbrev behind : ℕ → ℕ
  behind i = sum_of budget (drop (suc i) candidates)

  abbrev Within : Binding → ℕ → ℕ → Progress World → Type 0
  Within b i n p = length p.attempts + budget b + behind i + 1 ≤ sum_of budget candidates + n

  abbrev Used : Binding → ℕ → ℕ → Progress World → Type 0
  Used b i n p =
      (length p.attempts + budget b + behind i ≤ sum_of budget candidates + n) × (n ≤ budget b)

  bound_rule :
      Rule env context planned Within Used (λ p. length p.attempts ≤ sum_of budget candidates)
  unfolding attempt_once note_attempt
  bound_rule = record {
    attempt = λ b i n p fits h. omega (arith, length-append p.attempts);
    retry = λ b i n p _ h. omega arith;
    fall_back = λ b c i n p found _ h. omega (arith, sum_of-drop budget candidates (suc i) found);
    finish = λ b i n p h. omega arith;
  }

  -- The run makes at most min(node, binding) retries plus one attempt on each candidate binding.
  pub attempts-le-budget :
      (w : World)
      → length (run env context planned w).attempts
        ≤ sum_of
            (λ b. min planned.node.resource_hints.max_retries b.resource_hints.max_retries + 1)
            (planned.binding ∷ context.fallback_bindings)
  attempts-le-budget w =
      run_rule env context planned bound_rule w
        (omega (arith, sum_of-drop budget candidates 0 {x = planned.binding} refl))

  -- A failure after which it was allowed to go on: after a dispatch error or a timeout, where the
  -- call may have taken effect, the binding is stateless or idempotent.
  abbrev pub IsRepeatable : Attempt → Type 0
  IsRepeatable a =
      (kind : FailureKind) × (a.failure_kind ≡ some kind)
      × ((b : Binding)
          → get_elem? (candidate_bindings env context planned) a.fallback_index ≡ some b
          → is_ambiguous kind ≡ true
          → repeat_is_safe b ≡ true)

  abbrev Repeated : Binding → ℕ → ℕ → Progress World → Type 0
  Repeated b i n p = All IsRepeatable p.attempts × (get_elem? candidates i ≡ some b)

  record Tried (b : Binding) (i n : ℕ) (p : Progress World) : Type 0 where
    before : List Attempt
    last : Attempt
    split : p.attempts ≡ before ++ last ∷ []
    repeatable : All IsRepeatable before
    index : last.fallback_index ≡ i
    candidate : get_elem? candidates i ≡ some b
    kind : last.failure_kind ≡ kind_of (final_classification env context planned b p)

  -- An effective classification that lets the loops go on.
  going_on :
      (b : Binding) (p : Progress World) (c : Classification)
      → final_classification env context planned b p ≡ some c
      → (c.retryable ≡ true) ⊎ (c.allows_fallback ≡ true)
      → is_ambiguous c.kind ≡ true
      → repeat_is_safe b ≡ true
  unfolding final_classification classification_of effective_classification
  going_on b p c h e k = ground arith

  abbrev SafelyRepeated : Progress World → Type 0
  SafelyRepeated p =
      (before : List Attempt) × (last : Attempt) × (p.attempts ≡ before ++ last ∷ [])
      × All IsRepeatable before

  goes_on_retry :
      (b : Binding) (n : ℕ) (p : Progress World)
      → may_retry env context planned b n p ≡ true
      → (c : Classification) × (final_classification env context planned b p ≡ some c)
        × ((c.retryable ≡ true) ⊎ (c.allows_fallback ≡ true))
  unfolding may_retry
  goes_on_retry b n p h = elim (Option-cases (final_classification env context planned b p)) [
    | inl e ↦ absurd (ground arith)
    | inr (c, e) ↦ (c, e, ground arith)
  ]

  goes_on_fall_back :
      (b : Binding) (i : ℕ) (p : Progress World)
      → may_fall_back env context planned b i p ≡ true
      → (c : Classification) × (final_classification env context planned b p ≡ some c)
        × ((c.retryable ≡ true) ⊎ (c.allows_fallback ≡ true))
  unfolding may_fall_back
  goes_on_fall_back b i p h = elim (Option-cases (final_classification env context planned b p)) [
    | inl e ↦ absurd (ground arith)
    | inr (c, e) ↦ (c, e, ground arith)
  ]

  abbrev GoesOn : Binding → Progress World → Type 0
  GoesOn b p =
      (c : Classification) × (final_classification env context planned b p ≡ some c)
      × ((c.retryable ≡ true) ⊎ (c.allows_fallback ≡ true))

  All-IsRepeatable :
      (b : Binding) (i n : ℕ) (p : Progress World)
      → Tried b i n p
      → GoesOn b p
      → All IsRepeatable p.attempts
  All-IsRepeatable b i n p t (c, e, on) =
      rw t.split (All-append IsRepeatable t.before (t.last ∷ []) t.repeatable (here, tt))
    where
      here : IsRepeatable t.last
      here = (
        c.kind,
        t.kind ∙ ap kind_of e,
        λ b' found ambiguous.
            let same : b' ≡ b = ground (arith, t.index, t.candidate, found) in
            rw same (going_on b p c e on ambiguous),
      )

  repeat_rule : Rule env context planned Repeated Tried SafelyRepeated
  unfolding attempt_once note_attempt final_classification
  repeat_rule = record {
    attempt = λ b i n p _ (earlier, found). record {
      before = p.attempts;
      last = _;
      split = refl;
      repeatable = earlier;
      index = refl;
      candidate = found;
      kind = refl;
    };
    retry = λ b i n p on t. (All-IsRepeatable b i n p t (goes_on_retry b n p on), t.candidate);
    fall_back =
        λ b c i n p found on t. (All-IsRepeatable b i n p t (goes_on_fall_back b i p on), found);
    finish = λ b i n p t. (t.before, t.last, t.split, t.repeatable);
  }

  -- Every attempt but the last one failed, and where it failed by a dispatch error or a timeout
  -- its binding is stateless or declares idempotent execution.
  pub repeats_are_safe :
      (w : World)
      → (before : List Attempt) × (last : Attempt) × ((run env context planned w).attempts
          ≡ before ++ last ∷ [])
        × All IsRepeatable before
  repeats_are_safe w = run_rule env context planned repeat_rule w (tt, refl)
