-- ===== src/Execution/Traces/Matches.antt =====
-- A trace passes exactly where it and its context agree with a node and a binding.
use market_cell.Prelude.{
  ◌≡◌, ◌↔◌, refl, ap, sym, ◌∙◌, String, Bool, true, false, ◌&&◌, Option, none, some, List, [], ◌∷◌,
  ◌++◌, ◌==◌, eq_iff, is_empty, ok,
}
use market_cell.Execution.Models.{
  Binding, Node, Trace, Runtime, python_local, python_service, rust_service, external_service,
  binding_id,
}
use market_cell.Execution.Models.Codes.{same_option, same_runtime}
use market_cell.Execution.Outcomes.{Context}
use market_cell.Execution.Traces.{
  unless, same_text, node_mismatches, planned_mismatches, binding_mismatches, context_mismatches,
  raise_mismatches, validate_execution_trace_context,
}

-- The trace was made by this binding for this node.
pub record IsFor (t : Trace) (n : Node) (b : Binding) : Type 0 where
  pub node_id : t.node_id ≡ n.node_id
  pub cell_id : t.cell_id ≡ n.cell_id
  pub formula_version : t.formula_version ≡ n.formula_version
  pub planned_binding : n.binding_id ≡ binding_id b
  pub planned_cell : n.cell_id ≡ b.cell_id
  pub planned_version : n.formula_version ≡ b.formula_version
  pub implementation_id : t.implementation_id ≡ some b.implementation_id
  pub service_id : t.service_id ≡ some b.service_id
  pub runtime : t.runtime ≡ some b.runtime

pub record IsOf (t : Trace) (c : Context) : Type 0 where
  pub run_id : t.run_id ≡ c.run_id
  pub trace_id : t.trace_id ≡ c.trace_id
  pub plan_id : t.plan_id ≡ c.plan_id
  pub work : (n : Node) × (b : Binding) × (c.node ≡ some n) × (c.binding ≡ some b) × IsFor t n b

pub same_text_iff : (a b : Option String) → (same_text a b ≡ true) ↔ (a ≡ b)
same_text_iff none none = (λ e. refl, λ e. refl)
same_text_iff none (some b) = (λ e. cc, λ e. cc)
same_text_iff (some a) none = (λ e. cc, λ e. cc)
same_text_iff (some a) (some b) = (λ e. ap some ((eq_iff a b).0 e), λ e. (eq_iff a b).1 (cc e))

pub same_runtime_iff : (a b : Runtime) → (same_runtime a b ≡ true) ↔ (a ≡ b)
same_runtime_iff python_local python_local = (λ e. refl, λ e. refl)
same_runtime_iff python_service python_service = (λ e. refl, λ e. refl)
same_runtime_iff rust_service rust_service = (λ e. refl, λ e. refl)
same_runtime_iff external_service external_service = (λ e. refl, λ e. refl)
same_runtime_iff _ _ = (λ e. cc, λ e. cc)

same_some_iff :
    (a : Option Runtime) (b : Runtime) → (same_option same_runtime a (some b) ≡ true) ↔ (a ≡ some b)
same_some_iff none b = (λ e. cc, λ e. cc)
same_some_iff (some a) b =
    (λ e. ap some ((same_runtime_iff a b).0 e), λ e. (same_runtime_iff a b).1 (cc e))

-- Three tests, in front of more.
is_empty-three :
    (a b c : Bool) (x y z : String) (rest : List String)
    → is_empty ((unless a x ++ unless b y ++ unless c z) ++ rest)
      ≡ ((a && (b && c)) && is_empty rest)
is_empty-three true true true x y z rest = refl
is_empty-three true true false x y z rest = refl
is_empty-three true false c x y z rest = refl
is_empty-three false b c x y z rest = refl

is_empty-first :
    (a b c : Bool) (x y z : String) (rest : List String)
    → is_empty (unless a x ++ unless b y ++ unless c z ++ rest) ≡ ((a && (b && c)) && is_empty rest)
is_empty-first true true true x y z rest = refl
is_empty-first true true false x y z rest = refl
is_empty-first true false c x y z rest = refl
is_empty-first false b c x y z rest = refl

is_empty-last :
    (a b c : Bool) (x y z : String)
    → is_empty (unless a x ++ unless b y ++ unless c z) ≡ (a && (b && c))
is_empty-last true true true x y z = refl
is_empty-last true true false x y z = refl
is_empty-last true false c x y z = refl
is_empty-last false b c x y z = refl

-- The tests of a context that has a node and a binding.
abbrev tests : Trace → Context → Node → Binding → Bool
tests t c n b =
    (t.run_id == c.run_id && (t.trace_id == c.trace_id && same_text t.plan_id c.plan_id))
    && ((t.node_id == n.node_id
          && (t.cell_id == n.cell_id && t.formula_version == n.formula_version))
        && ((n.binding_id == binding_id b
              && (n.cell_id == b.cell_id && n.formula_version == b.formula_version))
            && (same_text t.implementation_id (some b.implementation_id)
                && (same_text t.service_id (some b.service_id)
                    && same_option same_runtime t.runtime (some b.runtime)))))

is_empty-tests :
    (t : Trace) (c : Context) (n : Node) (b : Binding)
    → is_empty (
        unless (t.run_id == c.run_id) "run_id"
        ++ unless (t.trace_id == c.trace_id) "trace_id"
        ++ unless (same_text t.plan_id c.plan_id) "plan_id"
        ++ (node_mismatches t (some n) ++ binding_mismatches t (some n) (some b)))
      ≡ tests t c n b
is_empty-tests t c n b =
    let own =
      unless (same_text t.implementation_id (some b.implementation_id)) "implementation_id"
      ++ unless (same_text t.service_id (some b.service_id)) "service_id"
      ++ unless (same_option same_runtime t.runtime (some b.runtime)) "runtime" in
    let bound = planned_mismatches (some n) b ++ own in
    is_empty-first (t.run_id == c.run_id) (t.trace_id == c.trace_id) (same_text t.plan_id c.plan_id)
      "run_id" "trace_id" "plan_id" (node_mismatches t (some n) ++ bound)
    ∙ ap
        (λ r.
          (t.run_id == c.run_id && (t.trace_id == c.trace_id && same_text t.plan_id c.plan_id))
          && r)
        (is_empty-three (t.node_id == n.node_id) (t.cell_id == n.cell_id)
            (t.formula_version == n.formula_version) "node_id" "cell_id" "formula_version" bound
          ∙ ap
              (λ r.
                (t.node_id == n.node_id
                  && (t.cell_id == n.cell_id && t.formula_version == n.formula_version))
                && r)
              (is_empty-three (n.binding_id == binding_id b) (n.cell_id == b.cell_id)
                  (n.formula_version == b.formula_version) "node_binding_id" "binding_cell_id"
                  "binding_formula_version" own
                ∙ ap
                    (λ r.
                      (n.binding_id == binding_id b
                        && (n.cell_id == b.cell_id && n.formula_version == b.formula_version))
                      && r)
                    (is_empty-last (same_text t.implementation_id (some b.implementation_id))
                      (same_text t.service_id (some b.service_id))
                      (same_option same_runtime t.runtime (some b.runtime)) "implementation_id"
                      "service_id" "runtime")))

both : {a b : Bool} → a ≡ true → b ≡ true → (a && b) ≡ true
both h k = rw h k

parts : (a b : Bool) → (a && b) ≡ true → (a ≡ true) × (b ≡ true)
parts true b h = (refl, h)
parts false b h = cc

three : (a b c : Bool) → (a && (b && c)) ≡ true → (a ≡ true) × (b ≡ true) × (c ≡ true)
three true true c h = (refl, refl, h)
three true false c h = cc
three false b c h = cc

IsFor-tests :
    (t : Trace) (c : Context) (n : Node) (b : Binding)
    → IsOf t c
    → IsFor t n b
    → tests t c n b ≡ true
IsFor-tests t c n b w v =
    both
      (both ((eq_iff t.run_id c.run_id).1 w.run_id) (
        both ((eq_iff t.trace_id c.trace_id).1 w.trace_id)
          ((same_text_iff t.plan_id c.plan_id).1 w.plan_id)))
      (both
        (both ((eq_iff t.node_id n.node_id).1 v.node_id) (
          both ((eq_iff t.cell_id n.cell_id).1 v.cell_id)
            ((eq_iff t.formula_version n.formula_version).1 v.formula_version)))
        (both
          (both ((eq_iff n.binding_id (binding_id b)).1 v.planned_binding) (
            both ((eq_iff n.cell_id b.cell_id).1 v.planned_cell)
              ((eq_iff n.formula_version b.formula_version).1 v.planned_version)))
          (both
            ((same_text_iff t.implementation_id (some b.implementation_id)).1 v.implementation_id)
            (both ((same_text_iff t.service_id (some b.service_id)).1 v.service_id)
              ((same_some_iff t.runtime b.runtime).1 v.runtime)))))

tests-IsOf :
    (t : Trace) (c : Context) (n : Node) (b : Binding)
    → c.node ≡ some n
    → c.binding ≡ some b
    → tests t c n b ≡ true
    → IsOf t c
tests-IsOf t c n b e f h =
    let (own, rest) = parts _ _ h in
    let (ofnode, rest') = parts _ _ rest in
    let (ofplan, ofbinding) = parts _ _ rest' in
    let (run, trace, plan) = three _ _ _ own in
    let (node', cell, version) = three _ _ _ ofnode in
    let (pbinding, pcell, pversion) = three _ _ _ ofplan in
    let (impl, service, runtime') = three _ _ _ ofbinding in
    record {
      run_id = (eq_iff t.run_id c.run_id).0 run;
      trace_id = (eq_iff t.trace_id c.trace_id).0 trace;
      plan_id = (same_text_iff t.plan_id c.plan_id).0 plan;
      work = (
        n,
        b,
        e,
        f,
        record {
          node_id = (eq_iff t.node_id n.node_id).0 node';
          cell_id = (eq_iff t.cell_id n.cell_id).0 cell;
          formula_version = (eq_iff t.formula_version n.formula_version).0 version;
          planned_binding = (eq_iff n.binding_id (binding_id b)).0 pbinding;
          planned_cell = (eq_iff n.cell_id b.cell_id).0 pcell;
          planned_version = (eq_iff n.formula_version b.formula_version).0 pversion;
          implementation_id = (same_text_iff t.implementation_id (some b.implementation_id)).0 impl;
          service_id = (same_text_iff t.service_id (some b.service_id)).0 service;
          runtime = (same_some_iff t.runtime b.runtime).0 runtime';
        },
      );
    }

raise_mismatches_iff : (ms : List String) → (raise_mismatches ms ≡ ok tt) ↔ (is_empty ms ≡ true)
raise_mismatches_iff [] = (λ e. refl, λ e. refl)
raise_mismatches_iff (m ∷ ms) = (λ e. cc, λ e. cc)

-- The mismatches for a context's node and binding.
abbrev mismatches : Trace → Context → Option Node → Option Binding → List String
mismatches t c node' binding =
    unless (t.run_id == c.run_id) "run_id"
    ++ unless (t.trace_id == c.trace_id) "trace_id"
    ++ unless (same_text t.plan_id c.plan_id) "plan_id"
    ++ (node_mismatches t node' ++ binding_mismatches t node' binding)

is_empty-mismatches :
    (t : Trace) (c : Context) (node' : Option Node) (binding : Option Binding)
    → is_empty (mismatches t c node' binding) ≡ true
    → is_empty (node_mismatches t node' ++ binding_mismatches t node' binding) ≡ true
is_empty-mismatches t c node' binding h =
    (parts _ _ (
      sym (
        is_empty-first (t.run_id == c.run_id) (t.trace_id == c.trace_id)
          (same_text t.plan_id c.plan_id) "run_id" "trace_id" "plan_id"
          (node_mismatches t node' ++ binding_mismatches t node' binding))
      ∙ h)).1

ends_in : (xs : List String) → is_empty (xs ++ "binding" ∷ []) ≡ true → ⊥
ends_in [] h = cc
ends_in (x ∷ xs) h = cc

accepted :
    (t : Trace) (c : Context) (node' : Option Node) (binding : Option Binding)
    → c.node ≡ node'
    → c.binding ≡ binding
    → is_empty (mismatches t c node' binding) ≡ true
    → IsOf t c
accepted t c none binding e f h = cc (is_empty-mismatches t c none binding h)
accepted t c (some n) none e f h =
    absurd (ends_in (node_mismatches t (some n)) (is_empty-mismatches t c (some n) none h))
accepted t c (some n) (some b) e f h = tests-IsOf t c n b e f (sym (is_empty-tests t c n b) ∙ h)

-- A trace is accepted for a context exactly where its identifiers are the context's, the context
-- has a node and a binding that agree with each other, and the trace names both.
pub validate_execution_trace_context_iff :
    (t : Trace) (c : Context) → (validate_execution_trace_context t c ≡ ok tt) ↔ IsOf t c
unfolding validate_execution_trace_context
validate_execution_trace_context_iff t c =
    let (there, back) = raise_mismatches_iff (context_mismatches t c) in
    (
      λ h. accepted t c c.node c.binding refl refl (there h),
      λ w.
          let (n, b, e, f, v) = w.work in
          back (rw (e, f) (is_empty-tests t c n b ∙ IsFor-tests t c n b w v)),
    )
