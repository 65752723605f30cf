-- ===== src/Execution/Outcomes/Checked.antt =====
-- What the constructor of an outcome checks: its status, and that no span is there twice.
use market_cell.Prelude.{
  ◌≡◌, ◌∙◌, ◌↔◌, refl, ap, String, Bool, true, false, not, List, [], ◌∷◌, ◌++◌, is_unique, ok, ◌>>◌,
  raise_if,
}
use market_cell.Execution.Models.{Trace}
use market_cell.Execution.Outcomes.{
  Outcome, runtime_traces, status_matches, span_ids, check_outcome,
}

two_guards :
    (a b : Bool) (s t : String)
    → ((raise_if (not a) s >> raise_if (not b) t) ≡ ok tt) ↔ ((a ≡ true) × (b ≡ true))
two_guards true true s t = (λ h. (refl, refl), λ h. refl)
two_guards true false s t = (λ h. cc, λ (h, k). cc)
two_guards false b s t = (λ h. cc, λ (h, k). cc)

pub check_outcome_iff :
    (o : Outcome)
    → (check_outcome o ≡ ok tt) ↔ (
        (status_matches o.trace.status o.completion ≡ true)
        × (is_unique (span_ids (runtime_traces o)) ≡ true))
unfolding check_outcome
check_outcome_iff o =
    two_guards (status_matches o.trace.status o.completion)
      (is_unique (span_ids (runtime_traces o))) _ _

-- Only the spans count, so a last trace of the same span may stand for another.
pub span_ids-last :
    (ts : List Trace) (t u : Trace)
    → t.span_id ≡ u.span_id
    → span_ids (ts ++ t ∷ []) ≡ span_ids (ts ++ u ∷ [])
span_ids-last [] t u e = ap (λ id. id ∷ []) e
span_ids-last (x ∷ xs) t u e = ap (λ ids. x.span_id ∷ ids) (span_ids-last xs t u e)

-- A status that fits and a trace of the same span are all that the constructor asks of a change.
pub check_outcome-retraced :
    (o p : Outcome)
    → check_outcome o ≡ ok tt
    → p.prior_traces ≡ o.prior_traces
    → p.trace.span_id ≡ o.trace.span_id
    → status_matches p.trace.status p.completion ≡ true
    → check_outcome p ≡ ok tt
check_outcome-retraced o p h same_prior same_span status =
    let spans : span_ids (p.prior_traces ++ p.trace ∷ []) ≡ span_ids (runtime_traces o) =
      rw same_prior (span_ids-last o.prior_traces p.trace o.trace same_span) in
    (check_outcome_iff p).1 (status, ap is_unique spans ∙ ((check_outcome_iff o).0 h).1)
