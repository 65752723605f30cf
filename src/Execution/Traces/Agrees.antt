-- ===== src/Execution/Traces/Agrees.antt =====
-- The two validations of a trace agree: what the context of a planned call accepts, its plan accepts.
use market_cell.Prelude.{
  ◌≡◌, refl, ap, sym, ◌∙◌, subst, String, Bool, true, false, Option, none, some, List, [], ◌∷◌, mem,
  keep, find, IsUnique, by_key, Bool-cases, inl, inr, ◌==◌, eq_iff, arith, ok, All, by_key-cases,
  find-eq-by_key,
}
use market_cell.Execution.Models.{Node, Binding, Trace, binding_id}
use market_cell.Execution.Models.Codes.{same_option, same_runtime}
use market_cell.Execution.Plans.{Plan}
use market_cell.Execution.Outcomes.{Context}
use market_cell.Execution.Traces.{validate_execution_trace_context, same_text}
use market_cell.Execution.Traces.Matches.{
  IsFor, validate_execution_trace_context_iff, same_text_iff, same_runtime_iff,
}
use market_cell.Execution.Traces.Planned.{
  validate_execution_trace, planned_node, binding_checks, has_identity, allowed_binding_ids,
  is_unidentified,
}
use market_cell.Execution.Validation.{ValidatedPlan, validate_execution_plan}
use market_cell.Execution.Validation.Structure.{node_ids-graph_nodes}
use market_cell.Execution.Coordinator.Loop.{node_by_id}
use market_cell.Execution.Coordinator.Node.{binding_by_id}
use market_cell.Execution.Coordinator.Environment.{value_or_key_error}
use market_cell.Execution.Coordinator.Returns.{accepted_plan}

-- An element that is kept and has the property makes the search find one.
find-keep :
    (key : Binding → String) (id : String) (a q : Binding → Bool) (xs : List Binding) (x : Binding)
    → All (λ y. key y ≡ id → a y ≡ true) xs
    → by_key key id xs ≡ some x
    → q x ≡ true
    → key x ≡ id
    → (y : Binding) × (find q (keep a xs) ≡ some y) × (q y ≡ true)
find-keep key id a q [] x k h p same = cc
find-keep key id a q (y ∷ ys) x (kept, k) h p same = elim (Bool-cases (a y)) [
  | inl e ↦ elim (Bool-cases (q y)) [
    | inl f ↦ (y, rw e (rw f refl), f)
    | inr f ↦
        let (z, g, r) = find-keep key id a q ys x k (elsewhere (λ e. cc (ap q e, f, p))) p same in
        (z, rw e (rw f g), r)
  ]
  | inr e ↦
      let (z, g, r) =
        find-keep key id a q ys x k (elsewhere (λ n. ground (arith, kept (ap key n ∙ same), e))) p
          same in
      (z, rw e g, r)
]
  where
    elsewhere : (y ≡ x → ⊥) → by_key key id ys ≡ some x
    elsewhere n = elim (by_key-cases key id y ys x h) [
      | inl (m, here, k) ↦ absurd (n here)
      | inr later ↦ later
    ]

-- A binding with the trace's identity has the planned binding's identifier.
has_identity-id :
    (t : Trace) (b x : Binding)
    → t.implementation_id ≡ some b.implementation_id
    → t.service_id ≡ some b.service_id
    → has_identity t x ≡ true
    → binding_id x ≡ binding_id b
has_identity-id t b x e f h =
    let same : b.implementation_id ≡ x.implementation_id =
      cc
        (e, (same_text_iff t.implementation_id (some x.implementation_id)).0 (ground (arith, h))) in
    let same' : b.service_id ≡ x.service_id =
      cc (f, (same_text_iff t.service_id (some x.service_id)).0 (ground (arith, h))) in
    cc (same, same')

module _ (t : Trace) (p : Plan) (n : Node) (b : Binding) (v : IsFor t n b) where
  own_identity : has_identity t b ≡ true
  own_identity = ground (
    arith,
    (same_text_iff t.implementation_id (some b.implementation_id)).1 v.implementation_id,
    (same_text_iff t.service_id (some b.service_id)).1 v.service_id,
    subst (λ o. same_option same_runtime o (some b.runtime) ≡ true) (sym v.runtime)
        ((same_runtime_iff b.runtime b.runtime).1 refl),
  )

  allowed_own :
      (xs : List Binding)
      → All
          (λ x.
            binding_id x ≡ n.binding_id → mem (binding_id x) (allowed_binding_ids (some n)) ≡ true)
          xs
  allowed_own [] = tt
  allowed_own (x ∷ xs) =
      (λ e. ground (arith, (eq_iff n.binding_id (binding_id x)).1 (sym e)), allowed_own xs)

  no_binding_mismatch :
      by_key (λ x. binding_id x) n.binding_id p.service_bindings ≡ some b
      → binding_checks t p (some n) ≡ []
  no_binding_mismatch found =
      let (x, e, h) =
        find-keep (λ x. binding_id x) n.binding_id
          (λ x. mem (binding_id x) (allowed_binding_ids (some n))) (has_identity t)
          p.service_bindings b (allowed_own p.service_bindings) found own_identity
          (sym v.planned_binding) in
      let named : (binding_id x == n.binding_id) ≡ true =
        (eq_iff (binding_id x) n.binding_id).1
          (has_identity-id t b x v.implementation_id v.service_id h ∙ sym v.planned_binding) in
      let identified : is_unidentified t ≡ false = rw v.implementation_id refl in
      rw identified (rw e (rw named refl))

-- A plan that validation accepts accepts every trace that the context of a planned call accepts: the
-- context of this plan, with a node of it and the node's own binding.
pub planned_trace_accepted :
    (t : Trace) (c : Context) (v : ValidatedPlan) (n : Node) (b : Binding)
    → validate_execution_plan v.plan ≡ ok v
    → c.plan_id ≡ some v.plan.plan_id
    → c.node ≡ some n
    → c.binding ≡ some b
    → node_by_id v.plan n.node_id ≡ ok n
    → binding_by_id v.plan n.binding_id ≡ ok b
    → validate_execution_trace_context t c ≡ ok tt
    → validate_execution_trace t (some v.plan) ≡ ok tt
unfolding validate_execution_trace
planned_trace_accepted t c v n b valid same_plan same_node same_binding known bound accepted =
    let p = v.plan in
    let (w, are) = accepted_plan v valid in
    let o = (validate_execution_trace_context_iff t c).0 accepted in
    let (n', b', e, f, is_for) = o.work in
    let for_n : IsFor t n b' = subst (λ x. IsFor t x b') (cc (e, same_node)) is_for in
    let for_b : IsFor t n b = subst (IsFor t n) (cc (f, same_binding)) for_n in
    let found =
      find-eq-by_key (λ (x : Node). x.node_id) n.node_id p.nodes n
        (subst IsUnique (node_ids-graph_nodes p.nodes) w.graph.unique) (found_of _ known) in
    let here : planned_node t p ≡ some n =
      subst (λ id. find (λ x. x.node_id == id) p.nodes ≡ some n) (sym for_b.node_id) found in
    let plan : same_text t.plan_id (some p.plan_id) ≡ true =
      (same_text_iff t.plan_id (some p.plan_id)).1 (o.plan_id ∙ same_plan) in
    rw
      (
        here,
        plan,
        (eq_iff t.cell_id n.cell_id).1 for_b.cell_id,
        (eq_iff t.formula_version n.formula_version).1 for_b.formula_version,
        no_binding_mismatch t p n b for_b (found_of _ bound),
      )
      refl
  where
    found_of : {A : Type 0} (o : Option A) {x : A} → value_or_key_error o ≡ ok x → o ≡ some x
    found_of none h = cc
    found_of (some y) h = cc h
