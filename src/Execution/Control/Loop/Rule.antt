-- ===== src/Execution/Control/Loop/Rule.antt =====
-- A proof rule for the two loops of `execute`.
use market_cell.Prelude.{
  ℕ, zero, suc, ◌+◌, ◌≤◌, ◌≡◌, ap, ◌-◌, true, some, List, [], ◌∷◌, get_elem?, Bool-cases, inl, inr,
  arith,
}
use market_cell.Execution.Models.{Binding}
use market_cell.Execution.Outcomes.{Context}
use market_cell.Execution.Control.Environment.{Environment}
use market_cell.Execution.Control.Loop.{
  Planned, Progress, candidate_bindings, max_attempts_for, attempt_once, may_retry, attempts_on,
  may_fall_back, run_candidates, start, run,
}

module _ (env : Environment) (context : Context) (planned : Planned) where
  open env use {World}

  -- `Ready b i n` holds before attempt `n` on binding `b` at index `i`, and `Done b i n` after it.
  pub record Rule (Ready Done : Binding → ℕ → ℕ → Progress World → Type 0)
      (Final : Progress World → Type 0) : Type 0 where
    pub attempt :
        (b : Binding) (i n : ℕ) (p : Progress World)
        → n ≤ max_attempts_for env context planned b
        → Ready b i n p
        → Done b i n (attempt_once env context planned b i n p)
    pub retry :
        (b : Binding) (i n : ℕ) (p : Progress World)
        → may_retry env context planned b n p ≡ true
        → Done b i n p
        → Ready b i (suc n) p
    pub fall_back :
        (b c : Binding) (i n : ℕ) (p : Progress World)
        → get_elem? (candidate_bindings env context planned) (suc i) ≡ some c
        → may_fall_back env context planned b i p ≡ true
        → Done b i n p
        → Ready c (suc i) 1 p
    pub finish : (b : Binding) (i n : ℕ) (p : Progress World) → Done b i n p → Final p

  module _ {Ready Done : Binding → ℕ → ℕ → Progress World → Type 0}
      {Final : Progress World → Type 0} (rule : Rule Ready Done Final) where
    open rule use {attempt, retry, fall_back, finish}

    attempts_on_rule :
        (b : Binding) (i left n : ℕ) (p : Progress World)
        → n + left ≡ max_attempts_for env context planned b
        → Ready b i n p
        → (k : ℕ) × Done b i k (attempts_on env context planned b i (suc left) n p)
    unfolding attempts_on may_retry
    attempts_on_rule b i zero n p e r =
        let p' = attempt_once env context planned b i n p in
        let done = attempt b i n p (omega arith) r in
        elim (Bool-cases (may_retry env context planned b n p')) [
          | inl h ↦ (n, rw h done)
          | inr h ↦ (n, rw h done)
        ]
    attempts_on_rule b i (suc left) n p e r =
        let p' = attempt_once env context planned b i n p in
        let done = attempt b i n p (omega arith) r in
        elim (Bool-cases (may_retry env context planned b n p')) [
          | inl h ↦
              let (k, later) =
                attempts_on_rule b i left (suc n) p' (omega arith) (retry b i n p' h done) in
              (k, rw h later)
          | inr h ↦ (n, rw h done)
        ]

    binding_rule :
        (b : Binding) (i : ℕ) (p : Progress World)
        → Ready b i 1 p
        → (k : ℕ) × Done b i k
            (attempts_on env context planned b i (max_attempts_for env context planned b) 1 p)
    binding_rule b i p r =
        let left = max_attempts_for env context planned b - 1 in
        let e : max_attempts_for env context planned b ≡ suc left = omega arith in
        rw e (attempts_on_rule b i left 1 p (omega arith) r)

    -- `rest` are the candidates from index `i` on.
    abbrev From : ℕ → List Binding → Type 0
    From i rest =
        (j k : ℕ)
        → k ≡ i + j
        → get_elem? (candidate_bindings env context planned) k ≡ get_elem? rest j

    run_candidates_rule :
        (i : ℕ) (b : Binding) (bs : List Binding) (p : Progress World)
        → From i (b ∷ bs)
        → Ready b i 1 p
        → Final (run_candidates env context planned i (b ∷ bs) p)
    unfolding run_candidates
    run_candidates_rule i b [] p from r =
        let (k, done) = binding_rule b i p r in
        let p' = attempts_on env context planned b i (max_attempts_for env context planned b) 1 p in
        elim (Bool-cases (may_fall_back env context planned b i p')) [
          | inl h ↦ rw h (finish b i k p' done)
          | inr h ↦ rw h (finish b i k p' done)
        ]
    run_candidates_rule i b (c ∷ bs) p from r =
        let (k, done) = binding_rule b i p r in
        let p' = attempts_on env context planned b i (max_attempts_for env context planned b) 1 p in
        elim (Bool-cases (may_fall_back env context planned b i p')) [
          | inl h ↦ rw h (
              run_candidates_rule (suc i) c bs p' (λ j m e. from (suc j) m (omega arith))
                (fall_back b c i k p' (from 1 (suc i) (omega arith)) h done))
          | inr h ↦ rw h (finish b i k p' done)
        ]

    -- What holds at the start and is carried by the steps gives the postcondition of `run`.
    pub run_rule :
        (w : World)
        → Ready planned.binding 0 1 (start env context planned w)
        → Final (run env context planned w)
    unfolding run
    run_rule w r =
        run_candidates_rule 0 planned.binding context.fallback_bindings _
          (λ j k e. ap (get_elem? (candidate_bindings env context planned)) (omega arith)) r
