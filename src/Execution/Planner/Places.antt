-- ===== src/Execution/Planner/Places.antt =====
-- The planner takes every decision of the runtime aware policy, and lists each binding once.
use market_cell.Prelude.{
  ℕ, ◌≡◌, refl, ap, sym, ◌∙◌, String, Bool, true, false, not, ◌||◌, Option, none, some, List, [],
  ◌∷◌, ◌++◌, map, keep, any, All, mem, mem-append, IsUnique, is_unique, is_empty, nat_eq,
  nat_eq_refl, ◌==◌, eq_iff, eq_refl, arith, Bool-cases, inl, inr, Result, ok, err, ◌>>◌, raise_if,
  >>=-eq-ok, sort_by,
}
use market_cell.Execution.Models.{
  Binding, Runtime, ResourceHints, python_local, binding_id, binding_ids,
}
use market_cell.Execution.Models.Codes.{same_runtime, same_option, same_texts_refl}
use market_cell.Execution.Placement.{
  PlacementError, unavailable, value_checked, Policy, Manifest, Entry, Evaluation, Decision, lookup,
  select, check_decision, decide, decision_of, evaluate, evaluation_le, is_compatible, binding_at,
  bindings_at, reason_codes, selection_pool,
}
use market_cell.Execution.Placement.Decisions.{IsSelection}
use market_cell.Execution.Catalog.{check_catalog, candidates_for}
use market_cell.Execution.Catalog.Placed.{catalog_places}
use market_cell.Execution.Planner.{
  same_flag, same_hints, same_binding, is_candidate, is_invalid, place, runtime_aware, add_bindings,
  add_decisions, plan_bindings,
}

same_runtime_refl : (r : Runtime) → same_runtime r r ≡ true
same_runtime_refl python_local = refl
same_runtime_refl _ = refl

same_flag_refl : (b : Bool) → same_flag b b ≡ true
same_flag_refl true = refl
same_flag_refl false = refl

same_text_refl : (o : Option String) → same_option (λ x y. x == y) o o ≡ true
same_text_refl none = refl
same_text_refl (some t) = eq_refl t

same_number_refl : (o : Option ℕ) → same_option (λ x y. nat_eq x y) o o ≡ true
same_number_refl none = refl
same_number_refl (some n) = nat_eq_refl n

same_hints_refl : (h : ResourceHints) → same_hints h h ≡ true
same_hints_refl h =
    ground (arith, eq_refl h.cpu_weight, eq_refl h.latency_sensitivity, same_flag_refl h.stateful)

same_binding_refl : (b : Binding) → same_binding b b ≡ true
unfolding same_binding
same_binding_refl b = ground (
  arith,
  eq_refl b.implementation_id,
  eq_refl b.cell_id,
  eq_refl b.service_id,
  same_runtime_refl b.runtime,
  eq_refl b.language,
  eq_refl b.formula_version,
  same_text_refl b.endpoint,
  same_text_refl b.task_queue,
  same_texts_refl b.capabilities,
  same_flag_refl b.supports_batch,
  same_number_refl b.max_concurrency,
  same_hints_refl b.resource_hints,
)

none_foreign :
    (candidates bs : List Binding)
    → All (λ b. lookup (binding_id b) candidates ≡ some b) bs
    → any (λ b. not (is_candidate candidates b)) bs ≡ false
none_foreign candidates [] h = refl
none_foreign candidates (b ∷ bs) (h, hs) =
    rw (is_candidate, h, same_binding_refl b) (none_foreign candidates bs hs)

-- A decision is about the cell it was asked for.
decide_cell :
    (m : Manifest) (candidates : List Binding) (es ranked : List Evaluation) (d : Decision)
    → decide m candidates es ranked ≡ ok d
    → (d.cell_id ≡ m.cell_id) × (d.formula_version ≡ m.formula_version)
decide_cell m candidates es [] d h = cc
decide_cell m candidates es (best ∷ rest) d h =
    let (b, _, h₁) = >>=-eq-ok (binding_at candidates best.binding_id) _ h in
    let (bs, _, h₂) = >>=-eq-ok (bindings_at candidates rest) _ h₁ in
    let (reasons, _, h₃) = >>=-eq-ok (reason_codes best es) _ h₂ in
    last_step b bs reasons (value_checked (check_decision (decision_of m es b bs reasons))) h₃
  where
    last_step :
        (b : Binding) (bs : List Binding) (reasons : List String)
        (c : Result PlacementError (Unit {0}))
        → (c >> ok (decision_of m es b bs reasons)) ≡ ok d
        → (d.cell_id ≡ m.cell_id) × (d.formula_version ≡ m.formula_version)
    last_step b bs reasons (err e) k = cc
    last_step b bs reasons (ok _) k =
        let same : decision_of m es b bs reasons ≡ d = cc k in
        (sym (ap (λ x. x.cell_id) same), sym (ap (λ x. x.formula_version) same))

after_guard :
    (b : Bool) (e : PlacementError) (r : Result PlacementError Decision) (d : Decision)
    → (raise_if b e >> r) ≡ ok d
    → r ≡ ok d
after_guard true e r d h = cc
after_guard false e r d h = h

select_cell :
    (p : Policy) (m : Manifest) (given : List Binding) (entries : List Entry) (d : Decision)
    → select p m given entries ≡ ok d
    → (d.cell_id ≡ m.cell_id) × (d.formula_version ≡ m.formula_version)
unfolding select
select_cell p m given entries d h =
    let candidates = keep (is_compatible m) given in
    let es = map (evaluate p entries) candidates in
    let ranked = sort_by evaluation_le (selection_pool es) in
    decide_cell m candidates es ranked d (
      after_guard (is_empty candidates) (unavailable "no compatible implementation")
        (decide m candidates es ranked) d h)

check_decision_unique :
    (d : Decision)
    → check_decision d ≡ ok tt
    → is_unique (binding_ids (d.selected_binding ∷ d.fallback_bindings)) ≡ true
unfolding check_decision
check_decision_unique d h =
    elim (Bool-cases (is_unique (binding_ids (d.selected_binding ∷ d.fallback_bindings)))) [
      | inl e ↦ e
      | inr e ↦ cc (rw e at h)
    ]

-- Where the catalog's constructor raises nothing and the catalog has a binding of the cell's
-- identifier and formula version, the planner places the cell with the runtime aware policy: it does
-- not find its decision invalid. The decision ranks the catalog's candidates, the unhealthy
-- ones only where all are.
pub place_returns :
    (p : Policy) (m : Manifest) (entries : List Entry) (bs : List Binding)
    → check_catalog bs ≡ ok tt
    → is_empty (keep (is_compatible m) bs) ≡ false
    → (d : Decision) × (place (runtime_aware p entries) bs m ≡ ok d)
      × (d.cell_id ≡ m.cell_id)
      × IsSelection (candidates_for m bs) (map (evaluate p entries) (candidates_for m bs)) d
unfolding place
place_returns p m entries bs h f =
    let (d, e, passes, s) = catalog_places p m entries bs h f in
    let (cell, version) = select_cell p m (candidates_for m bs) entries d e in
    let valid : is_invalid m (candidates_for m bs) d ≡ false = ground (
      arith,
      eq_iff d.cell_id m.cell_id,
      eq_iff d.formula_version m.formula_version,
      cell,
      version,
      check_decision_unique d passes,
      none_foreign (candidates_for m bs) (d.selected_binding ∷ d.fallback_bindings) s.found,
    ) in
    (d, rw (e, valid) refl, cell, s)

-- The bindings of a plan.
add_bindings-IsUnique :
    (bs bindings : List Binding)
    → IsUnique (binding_ids bindings)
    → IsUnique (binding_ids (add_bindings bs bindings))
unfolding add_bindings
add_bindings-IsUnique [] bindings u = u
add_bindings-IsUnique (b ∷ bs) bindings u =
    elim (Bool-cases (mem (binding_id b) (binding_ids bindings))) [
      | inl e ↦ rw e (add_bindings-IsUnique bs bindings u)
      | inr e ↦ rw e (add_bindings-IsUnique bs (bindings ++ b ∷ []) (snoc-IsUnique bindings u e))
    ]
  where
    mem-snoc :
        (j : String) (xs : List Binding)
        → mem j (binding_ids (xs ++ b ∷ [])) ≡ (mem j (binding_ids xs) || binding_id b == j)
    mem-snoc j [] = ground arith
    mem-snoc j (x ∷ xs) = ground (arith, mem-snoc j xs)

    snoc-IsUnique :
        (xs : List Binding)
        → IsUnique (binding_ids xs)
        → mem (binding_id b) (binding_ids xs) ≡ false
        → IsUnique (binding_ids (xs ++ b ∷ []))
    snoc-IsUnique [] u m = (refl, tt)
    snoc-IsUnique (x ∷ xs) u m = ground (
      arith,
      snoc-IsUnique xs u.1,
      mem-snoc (binding_id x) xs,
      eq_iff (binding_id x) (binding_id b),
      eq_iff (binding_id b) (binding_id x),
    )

mem-add_bindings :
    (j : String) (bs bindings : List Binding)
    → mem j (binding_ids (add_bindings bs bindings))
      ≡ (mem j (binding_ids bindings) || mem j (binding_ids bs))
unfolding add_bindings
mem-add_bindings j [] bindings = ground arith
mem-add_bindings j (b ∷ bs) bindings =
    elim (Bool-cases (mem (binding_id b) (binding_ids bindings))) [
      | inl e ↦ rw e (
          mem-add_bindings j bs bindings
          ∙ ground (
            arith,
            e,
            eq_iff (binding_id b) j,
            ap (λ i. mem i (binding_ids bindings)) ((eq_iff (binding_id b) j).0 _),
          ))
      | inr e ↦ rw e (mem-add_bindings j bs (bindings ++ b ∷ []) ∙ ground (arith, snoc bindings))
    ]
  where
    snoc :
        (xs : List Binding)
        → mem j (binding_ids (xs ++ b ∷ [])) ≡ (mem j (binding_ids xs) || binding_id b == j)
    snoc [] = ground arith
    snoc (x ∷ xs) = ground (arith, snoc xs)

-- The identifiers of all bindings that the decisions name.
abbrev pub named_ids : List Decision → List String
named_ids [] = []
named_ids (d ∷ ds) = binding_ids (d.selected_binding ∷ d.fallback_bindings) ++ named_ids ds

add_decisions-IsUnique :
    (ds : List Decision) (bindings : List Binding)
    → IsUnique (binding_ids bindings)
    → IsUnique (binding_ids (add_decisions ds bindings))
add_decisions-IsUnique [] bindings u = u
add_decisions-IsUnique (d ∷ ds) bindings u =
    add_decisions-IsUnique ds _
      (add_bindings-IsUnique (d.selected_binding ∷ d.fallback_bindings) bindings u)

mem-add_decisions :
    (j : String) (ds : List Decision) (bindings : List Binding)
    → mem j (binding_ids (add_decisions ds bindings))
      ≡ (mem j (binding_ids bindings) || mem j (named_ids ds))
mem-add_decisions j [] bindings = ground arith
mem-add_decisions j (d ∷ ds) bindings =
    let bs = d.selected_binding ∷ d.fallback_bindings in
    mem-add_decisions j ds (add_bindings bs bindings)
    ∙ ground (arith, mem-add_bindings j bs bindings, mem-append j (binding_ids bs) (named_ids ds))

-- A plan lists each binding that a decision selects or falls back to, and each once.
pub plan_bindings_lem :
    (ds : List Decision)
    → IsUnique (binding_ids (plan_bindings ds))
      × ((j : String) → mem j (binding_ids (plan_bindings ds)) ≡ mem j (named_ids ds))
plan_bindings_lem ds = (add_decisions-IsUnique ds [] tt, λ j. mem-add_decisions j ds [])
