-- ===== src/Execution/Placement/Selection.antt =====
-- A selection over distinct bindings, one of them compatible, returns a decision.
use market_cell.Prelude.{
  ℕ, ◌≡◌, refl, sym, ◌∙◌, subst, String, Bool, true, false, ◌&&◌, Option, none, some, List, [], ◌∷◌,
  ◌++◌, map, All, mem, is_empty, length, ◌==◌, eq_iff, arith, if◌then◌else◌, Bool-cases,
  Option-cases, inl, inr, Result, ok, ◌>>=◌, nat_eq, ltb, find, is_none, min, IsUnique, eq_refl,
  All-weaken,
}
use market_cell.Execution.Models.{Binding, binding_id, binding_ids}
use market_cell.Execution.Placement.{
  PlacementError, Policy, Entry, Evaluation, evaluate, evaluation_of, evaluation_ids, is_healthy,
  lookup, binding_at, bindings_at, reason_codes, smallest, present, is_fastest, same_priority,
  first_reasons, reason_if,
}

-- A lookup of a key that is there finds a binding of that key.
lookup-some :
    (id : String) (bs : List Binding)
    → mem id (binding_ids bs) ≡ true
    → (b : Binding) × (lookup id bs ≡ some b) × (binding_id b ≡ id)
lookup-some id [] m = cc
lookup-some id (x ∷ bs) m = elim (Option-cases (lookup id bs)) [
  | inl e ↦ let (b, f, g) = found (lookup-none id bs e) in (b, rw e f, g)
  | inr (y, e) ↦ (y, rw e refl, lookup-id id bs y e)
]
  where
    lookup-none :
        (id : String) (bs : List Binding) → lookup id bs ≡ none → mem id (binding_ids bs) ≡ false
    lookup-none id [] e = refl
    lookup-none id (x ∷ bs) e = elim (Option-cases (lookup id bs)) [
      | inl f ↦ ground (arith, lookup-none id bs f, rw f at e)
      | inr (y, f) ↦ ground (arith, rw f at e)
    ]

    lookup-id :
        (id : String) (bs : List Binding) (y : Binding) → lookup id bs ≡ some y → binding_id y ≡ id
    lookup-id id [] y e = cc
    lookup-id id (x ∷ bs) y e = elim (Option-cases (lookup id bs)) [
      | inl f ↦ ground (arith, eq_iff (binding_id x) id, rw f at e)
      | inr (z, f) ↦ lookup-id id bs y (f ∙ (rw f at e))
    ]

    found :
        mem id (binding_ids bs) ≡ false
        → (b : Binding) × ((if binding_id x == id then some x else none) ≡ some b)
          × (binding_id b ≡ id)
    found f =
        let e : (binding_id x == id) ≡ true = ground (arith, f, m) in
        (x, rw e refl, (eq_iff (binding_id x) id).0 e)

lookup-All :
    (P : Binding → Type 0) (id : String) (bs : List Binding) (b : Binding)
    → All P bs
    → lookup id bs ≡ some b
    → P b
lookup-All P id [] b h e = cc
lookup-All P id (x ∷ bs) b (h, hs) e = elim (Option-cases (lookup id bs)) [
  | inr (y, f) ↦ lookup-All P id bs b hs (f ∙ (rw f at e))
  | inl f ↦ elim (Bool-cases (binding_id x == id)) [
    | inl g ↦ let same : x ≡ b = ground (arith, rw (f, g) at e) in subst P same h
    | inr g ↦ ground (arith, rw (f, g) at e)
  ]
]

found_ok :
    (id : String) (bs : List Binding) (b : Binding)
    → lookup id bs ≡ some b
    → binding_at bs id ≡ ok b
found_ok id bs b e = rw (binding_at, e) refl

ap2_ok :
    (x : Result PlacementError Binding) (y : Result PlacementError (List Binding)) {b : Binding}
    {bs : List Binding}
    → x ≡ ok b
    → y ≡ ok bs
    → (x >>= λ b. y >>= λ bs. ok (b ∷ bs)) ≡ ok (b ∷ bs)
ap2_ok x y e f = rw (e, f) refl

-- The bindings of evaluations whose identifiers are known.
pub bindings_at-ok :
    (P : Binding → Type 0) (candidates : List Binding) (es : List Evaluation)
    → All P candidates
    → All (λ e. mem e.binding_id (binding_ids candidates) ≡ true) es
    → (bs : List Binding) × (bindings_at candidates es ≡ ok bs)
      × (binding_ids bs ≡ evaluation_ids es)
      × All P bs
bindings_at-ok P candidates [] h k = ([], refl, refl, tt)
bindings_at-ok P candidates (e ∷ es) h (k, ks) =
    let (b, f, g) = lookup-some e.binding_id candidates k in
    let (bs, i, j, l) = bindings_at-ok P candidates es h ks in
    (
      b ∷ bs,
      ap2_ok (binding_at candidates e.binding_id) (bindings_at candidates es)
          (found_ok e.binding_id candidates b f) i,
      cc (g, j),
      (lookup-All P e.binding_id candidates b h f, l),
    )

-- A healthy history has a latency.
abbrev pub HasLatency : Evaluation → Type 0
HasLatency e = is_healthy e ≡ true → is_none e.p95_duration_ms ≡ false

evaluation_of-HasLatency :
    (p : Policy) (b : Binding) (history : Option Entry) → HasLatency (evaluation_of p b history)
evaluation_of-HasLatency p b none h = cc
evaluation_of-HasLatency p b (some e) h = refl

pub evaluations-HasLatency :
    (p : Policy) (entries : List Entry) (bs : List Binding)
    → All HasLatency (map (evaluate p entries) bs)
evaluations-HasLatency p entries [] = tt
evaluations-HasLatency p entries (b ∷ bs) =
    (evaluation_of-HasLatency p b (find _ entries), evaluations-HasLatency p entries bs)

smallest-some : (xs : List ℕ) → is_empty xs ≡ false → (y : ℕ) × (smallest xs ≡ some y)
smallest-some [] e = cc
smallest-some (x ∷ xs) e = elim (Option-cases (smallest xs)) [
  | inl f ↦ (x, rw f refl)
  | inr (y, f) ↦ (min x y, rw f refl)
]

peers-some :
    (best : Evaluation) (es : List Evaluation)
    → All HasLatency es
    → is_empty (same_priority best es)
      ≡ is_empty (present (map (λ e. e.p95_duration_ms) (same_priority best es)))
peers-some best [] h = refl
peers-some best (e ∷ es) (h, hs) =
    elim (Bool-cases (nat_eq e.priority best.priority && is_healthy e)) [
      | inr f ↦ rw f (peers-some best es hs)
      | inl f ↦ rw f (first e (h (ground (arith, f))) (same_priority best es))
    ]
  where
    first :
        (e : Evaluation)
        → is_none e.p95_duration_ms ≡ false
        → (rest : List Evaluation)
        → false ≡ is_empty (present (e.p95_duration_ms ∷ map (λ e. e.p95_duration_ms) rest))
    first e h rest = elim (Option-cases e.p95_duration_ms) [
      | inl f ↦ ground (arith, h, f)
      | inr (d, f) ↦ rw f refl
    ]

is_fastest-some :
    (d : Option ℕ) (best : Evaluation) (es : List Evaluation)
    → All HasLatency es
    → (b : Bool) × (is_fastest d (same_priority best es) ≡ some b)
is_fastest-some none best es h = (false, refl)
is_fastest-some (some d) best es h = elim (Bool-cases (ltb 1 (length (same_priority best es)))) [
  | inr f ↦ (false, rw f refl)
  | inl f ↦
      let (y, e) =
        smallest-some (present (map (λ e. e.p95_duration_ms) (same_priority best es)))
          (sym (peers-some best es h) ∙ long (same_priority best es) f) in
      (nat_eq d y, rw (f, e) refl)
]
  where
    long : (xs : List Evaluation) → ltb 1 (length xs) ≡ true → is_empty xs ≡ false
    long [] f = cc
    long (x ∷ xs) f = refl

pub reason_codes-ok :
    (best : Evaluation) (es : List Evaluation)
    → All HasLatency es
    → is_empty es ≡ false
    → (reasons : List String) × (reason_codes best es ≡ ok reasons)
unfolding reason_codes
reason_codes-ok best [] h f = cc
reason_codes-ok best (e ∷ es) h f =
    let (lowest, i) = smallest-some (map (λ e. e.priority) (e ∷ es)) refl in
    let (b, j) = is_fastest-some best.p95_duration_ms best (e ∷ es) h in
    (
      first_reasons best (e ∷ es) lowest ++ reason_if b "selected_by_runtime_latency",
      rw (i, j) refl,
    )

pub binding_at-ok :
    (P : Binding → Type 0) (candidates : List Binding) (id : String)
    → All P candidates
    → mem id (binding_ids candidates) ≡ true
    → (b : Binding) × (binding_at candidates id ≡ ok b) × (binding_id b ≡ id) × P b
binding_at-ok P candidates id h k =
    let (b, f, g) = lookup-some id candidates k in
    (b, found_ok id candidates b f, g, lookup-All P id candidates b h f)

lookup_missing :
    (id : String) (bs : List Binding) → mem id (binding_ids bs) ≡ false → lookup id bs ≡ none
lookup_missing id [] m = refl
lookup_missing id (x ∷ bs) m =
    let other : (binding_id x == id) ≡ false = ground (arith, m) in
    rw (lookup_missing id bs (ground (arith, m)), other) refl

-- Under distinct identifiers each binding is found under its own.
pub lookup_self :
    (bs : List Binding)
    → IsUnique (binding_ids bs)
    → All (λ b. lookup (binding_id b) bs ≡ some b) bs
lookup_self [] u = tt
lookup_self (x ∷ bs) (m, u) =
    let here : (binding_id x == binding_id x) ≡ true = eq_refl (binding_id x) in
    (
      rw (lookup_missing (binding_id x) bs m, here) refl,
      All-weaken bs (λ b e. rw e refl) (lookup_self bs u),
    )
