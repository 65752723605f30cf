-- ===== src/Graph/Closure/Correct.antt =====
-- The closure holds exactly the nodes that a walk along dependencies reaches.
use market_cell.Prelude.{
  ℕ, zero, suc, ◌+◌, ◌≤◌, ◌≡◌, ◌↔◌, inl, inr, refl, String, Bool, true, false, not, ◌||◌, List, [],
  ◌∷◌, length, keep, mem, mem-keep, sum_of, if◌then◌else◌, Bool-cases, ◌==◌, eq_iff, eq_refl, arith,
  subst,
}
use market_cell.Graph.Models.{Vertex}
use market_cell.Graph.Topology.{ids, dependencies_of}
use market_cell.Graph.Closure.{extend, closure_loop, dependency_closure}

-- The walks from known roots along known dependencies.
pub data Reach (roots : List String) (vs : List Vertex) : String → Type 0 where
  root : {j : String} → mem j roots ≡ true → mem j (ids vs) ≡ true → Reach roots vs j
  step :
      {u d : String}
      → Reach roots vs u
      → mem d (dependencies_of vs u) ≡ true
      → mem d (ids vs) ≡ true
      → Reach roots vs d

mem-extend :
    (j : String) (xs pending : List String)
    → mem j (extend xs pending) ≡ (mem j xs || mem j pending)
unfolding extend
mem-extend j [] pending = refl
mem-extend j (x ∷ xs) pending = ground (arith, mem-extend j xs (x ∷ pending))

length-extend : (xs pending : List String) → length (extend xs pending) ≡ length xs + length pending
unfolding extend
length-extend [] pending = omega arith
length-extend (x ∷ xs) pending = omega (arith, length-extend xs (x ∷ pending))

length-keep-le : (p : String → Bool) (xs : List String) → length (keep p xs) ≤ length xs
length-keep-le p [] = omega arith
length-keep-le p (x ∷ xs) = ground (arith, length-keep-le p xs)

-- The dependencies that expansions may still push.
abbrev weight : List Vertex → List String → ℕ
weight vs reachable = sum_of (λ v. if mem v.node_id reachable then 0 else length v.dependencies) vs

weight-cons-le :
    (vs : List Vertex) (u : String) (reachable : List String)
    → weight vs (u ∷ reachable) ≤ weight vs reachable
weight-cons-le [] u reachable = omega arith
weight-cons-le (v ∷ vs) u reachable = ground (arith, weight-cons-le vs u reachable)

weight-expand :
    (vs : List Vertex) (u : String) (reachable : List String)
    → mem u (ids vs) ≡ true
    → mem u reachable ≡ false
    → weight vs (u ∷ reachable) + length (dependencies_of vs u) ≤ weight vs reachable
unfolding dependencies_of
weight-expand [] u reachable known fresh = ground arith
weight-expand (v ∷ vs) u reachable known fresh = ground (
  arith,
  weight-expand vs u reachable,
  weight-cons-le vs u reachable,
  eq_iff v.node_id u,
  eq_iff u v.node_id,
)

module _ (roots : List String) (vs : List Vertex) where
  record Inv (pending reachable : List String) : Type 0 where
    sound : (j : String) → mem j reachable ≡ true → Reach roots vs j
    queued : (j : String) → mem j pending ≡ true → mem j (ids vs) ≡ true → Reach roots vs j
    started :
        (j : String)
        → mem j roots ≡ true
        → mem j (ids vs) ≡ true
        → (mem j reachable || mem j pending) ≡ true
    closed :
        (u d : String)
        → mem u reachable ≡ true
        → mem d (dependencies_of vs u) ≡ true
        → mem d (ids vs) ≡ true
        → (mem d reachable || mem d pending) ≡ true

  record Closed (reachable : List String) : Type 0 where
    sound : (j : String) → mem j reachable ≡ true → Reach roots vs j
    started : (j : String) → mem j roots ≡ true → mem j (ids vs) ≡ true → mem j reachable ≡ true
    closed :
        (u d : String)
        → mem u reachable ≡ true
        → mem d (dependencies_of vs u) ≡ true
        → mem d (ids vs) ≡ true
        → mem d reachable ≡ true

  Inv-done : (reachable : List String) → Inv [] reachable → Closed reachable
  Inv-done reachable h = record {
    sound = h.sound;
    started = λ j a b. ground (arith, h.started j a b);
    closed = λ u d a b c. ground (arith, h.closed u d a b c);
  }

  Inv-skip :
      (u : String) (pending reachable : List String)
      → (mem u reachable || not (mem u (ids vs))) ≡ true
      → Inv (u ∷ pending) reachable
      → Inv pending reachable
  Inv-skip u pending reachable e h = record {
    sound = h.sound;
    queued = λ j a b. h.queued j (ground arith) b;
    started = λ j a b. ground (arith, h.started j a b, eq_iff u j);
    closed = λ w d a b c. ground (arith, h.closed w d a b c, eq_iff u d);
  }

  abbrev known_dependencies : String → List String
  known_dependencies u = keep (λ d. mem d (ids vs)) (dependencies_of vs u)

  Inv-expand :
      (u : String) (pending reachable : List String)
      → mem u (ids vs) ≡ true
      → Inv (u ∷ pending) reachable
      → Inv (extend (known_dependencies u) pending) (u ∷ reachable)
  Inv-expand u pending reachable known h =
      let here : Reach roots vs u = h.queued u (ground (arith, eq_refl u)) known in
      let pushed = λ (j : String). mem-extend j (known_dependencies u) pending in
      let kept = λ (j : String). mem-keep (λ d. mem d (ids vs)) j (dependencies_of vs u) in
      record {
        sound = λ j a. elim (Bool-cases (u == j)) [
          | inl e ↦ subst (Reach roots vs) ((eq_iff u j).0 e) here
          | inr e ↦ h.sound j (ground arith)
        ];
        queued = λ j a b. elim (Bool-cases (mem j (known_dependencies u))) [
          | inl e ↦ step here (ground (arith, kept j)) b
          | inr e ↦ h.queued j (ground (arith, pushed j)) b
        ];
        started = λ j a b. ground (arith, h.started j a b, pushed j);
        closed =
            λ w d a b c. ground (arith, h.closed w d, pushed d, kept d, eq_iff u w, eq_iff u d);
      }

  closure_loop-Closed :
      (fuel : ℕ) (pending reachable : List String)
      → Inv pending reachable
      → length pending + weight vs reachable ≤ fuel
      → Closed (closure_loop vs fuel pending reachable)
  unfolding closure_loop
  closure_loop-Closed zero [] reachable h f = Inv-done reachable h
  closure_loop-Closed zero (u ∷ pending) reachable h f = absurd (omega arith)
  closure_loop-Closed (suc fuel) [] reachable h f = Inv-done reachable h
  closure_loop-Closed (suc fuel) (u ∷ pending) reachable h f =
      elim (Bool-cases (mem u reachable || not (mem u (ids vs)))) [
        | inl e ↦ rw e (
            closure_loop-Closed fuel pending reachable (Inv-skip u pending reachable e h)
              (omega arith))
        | inr e ↦ rw e (
            closure_loop-Closed fuel (extend (known_dependencies u) pending) (u ∷ reachable)
              (Inv-expand u pending reachable (ground arith) h)
              (omega (
                arith,
                length-extend (known_dependencies u) pending,
                length-keep-le (λ d. mem d (ids vs)) (dependencies_of vs u),
                weight-expand vs u reachable (ground arith) (ground arith),
              )))
      ]

  start-Inv : Inv (extend roots []) []
  start-Inv = record {
    sound = λ j a. cc;
    queued = λ j a b. root (ground (arith, mem-extend j roots [])) b;
    started = λ j a b. ground (arith, mem-extend j roots []);
    closed = λ u d a b c. cc;
  }

  complete :
      (reachable : List String)
      → Closed reachable
      → {j : String} → Reach roots vs j
      → mem j reachable ≡ true
  complete reachable h (root {j} a b) = h.started j a b
  complete reachable h (step {u} {d} p a b) = h.closed u d (complete reachable h p) a b

  -- A node is in the closure exactly where a walk from a known root along known dependencies
  -- leads to it; so the fuel suffices.
  pub mem-dependency_closure :
      (j : String) → (mem j (dependency_closure roots vs) ≡ true) ↔ Reach roots vs j
  unfolding dependency_closure
  mem-dependency_closure j =
      let all =
        closure_loop-Closed (length roots + sum_of (λ v. length v.dependencies) vs)
          (extend roots []) [] start-Inv (omega (arith, length-extend roots [])) in
      (all.sound j, complete _ all)
