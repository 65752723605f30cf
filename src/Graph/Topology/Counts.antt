-- ===== src/Graph/Topology/Counts.antt =====
-- What the counters of `stable_topological_levels` count.
use market_cell.Prelude.{
  ℕ, suc, ◌+◌, ◌≡◌, refl, String, true, false, not, ◌&&◌, ◌||◌, List, [], ◌∷◌, ◌++◌, ltb, nat_eq,
  mem, mem-append, IsUnique, sort_by, insert_by, sorted, text_le, ◌==◌, eq_iff, eq_refl,
  if◌then◌else◌, arith, Bool-cases, inl, inr,
}
use market_cell.Graph.Models.{Vertex}
use market_cell.Graph.Topology.{
  pos, decrement, is_zero, ids, Counts, dependencies_of, count_known, mentions, dependents_of,
  relax,
}

-- How often a text stands in a list.
unfoldable pub occurrences : String → List String → ℕ
occurrences j [] = 0
occurrences j (x ∷ xs) = let rest = occurrences j xs in if x == j then suc rest else rest

-- The known dependencies that are not visited, with their multiplicity.
unfoldable pub pending : List Vertex → List String → List String → ℕ
pending vs visited [] = 0
pending vs visited (d ∷ ds) =
    let rest = pending vs visited ds in
    if mem d (ids vs) && not (mem d visited) then suc rest else rest

pub count_known-eq-pending :
    (vs : List Vertex) (ds : List String) → count_known vs ds ≡ pending vs [] ds
unfolding count_known pending
count_known-eq-pending vs [] = refl
count_known-eq-pending vs (d ∷ ds) = ground (arith, count_known-eq-pending vs ds)

pub pending-cons :
    (vs : List Vertex) (visited : List String) (u : String) (ds : List String)
    → mem u (ids vs) ≡ true
    → mem u visited ≡ false
    → pending vs visited ds ≡ pending vs (u ∷ visited) ds + occurrences u ds
unfolding pending occurrences
pending-cons vs visited u [] known fresh = omega arith
pending-cons vs visited u (d ∷ ds) known fresh =
    ground (arith, pending-cons vs visited u ds known fresh, eq_iff d u, eq_iff u d)

pub occurrences-append :
    (j : String) (xs ys : List String)
    → occurrences j (xs ++ ys) ≡ occurrences j xs + occurrences j ys
unfolding occurrences
occurrences-append j [] ys = omega arith
occurrences-append j (x ∷ xs) ys = ground (arith, occurrences-append j xs ys)

occurrences-mentions :
    (u id j : String) (ds : List String)
    → occurrences j (mentions u id ds) ≡ (if id == j then occurrences u ds else 0)
unfolding occurrences mentions
occurrences-mentions u id j [] = ground arith
occurrences-mentions u id j (d ∷ ds) = ground (arith, occurrences-mentions u id j ds)

occurrences-dependents_absent :
    (vs : List Vertex) (u j : String)
    → mem j (ids vs) ≡ false
    → occurrences j (dependents_of vs u) ≡ 0
unfolding dependents_of occurrences
occurrences-dependents_absent [] u j h = refl
occurrences-dependents_absent (v ∷ vs) u j h = ground (
  arith,
  occurrences-append j (mentions u v.node_id v.dependencies) (dependents_of vs u),
  occurrences-mentions u v.node_id j v.dependencies,
  occurrences-dependents_absent vs u j,
)

-- A node stands among the dependents of `u` as often as `u` stands among its dependencies.
pub occurrences-dependents_of :
    (vs : List Vertex) (u j : String)
    → IsUnique (ids vs)
    → occurrences j (dependents_of vs u) ≡ occurrences u (dependencies_of vs j)
unfolding dependents_of dependencies_of occurrences
occurrences-dependents_of [] u j unique = refl
occurrences-dependents_of (v ∷ vs) u j unique = ground (
  arith,
  occurrences-append j (mentions u v.node_id v.dependencies) (dependents_of vs u),
  occurrences-mentions u v.node_id j v.dependencies,
  occurrences-dependents_absent vs u j,
  occurrences-dependents_of vs u j unique.1,
  eq_iff v.node_id j,
  unique.0,
)

occurrences-insert_by :
    (j x : String) (xs : List String)
    → occurrences j (insert_by text_le x xs) ≡ occurrences j (x ∷ xs)
unfolding insert_by occurrences
occurrences-insert_by j x [] = refl
occurrences-insert_by j x (y ∷ ys) = ground (arith, occurrences-insert_by j x ys)

pub occurrences-sorted :
    (j : String) (xs : List String) → occurrences j (sorted xs) ≡ occurrences j xs
unfolding sort_by occurrences
occurrences-sorted j [] = refl
occurrences-sorted j (x ∷ xs) =
    ground (arith, occurrences-insert_by j x (sorted xs), occurrences-sorted j xs)

-- A counter that covers its decrements falls by their number.
pub relax_counts :
    (ds : List String) (counts : Counts) (next : List String) (j : String) (k : ℕ)
    → counts j ≡ pos (occurrences j ds + k)
    → (relax ds counts next).0 j ≡ pos k
unfolding relax occurrences
relax_counts [] counts next j k h = ground arith
relax_counts (d ∷ ds) counts next j k h = relax_counts ds _ _ j k (ground arith)

-- It joins the next level exactly where it falls to 0.
pub relax_next :
    (ds : List String) (counts : Counts) (next : List String) (j : String) (k : ℕ)
    → counts j ≡ pos (occurrences j ds + k)
    → mem j (relax ds counts next).1 ≡ (mem j next || (ltb 0 (occurrences j ds) && nat_eq k 0))
unfolding relax occurrences
relax_next [] counts next j k h = ground arith
relax_next (d ∷ ds) counts next j k h =
    let counts' : Counts = λ i. if d == i then decrement (counts i) else counts i in
    let next' : List String = if is_zero (counts' d) then next ++ d ∷ [] else next in
    rw (relax_next ds counts' next' j k (ground arith))
      (ground (arith, mem-append j next (d ∷ []), eq_iff d j, eq_refl d))

-- What joins the next level is a dependent.
pub relax-mem :
    (ds : List String) (counts : Counts) (next : List String) (j : String)
    → mem j (relax ds counts next).1 ≡ true
    → (mem j ds || mem j next) ≡ true
unfolding relax
relax-mem [] counts next j h = h
relax-mem (d ∷ ds) counts next j h =
    let counts' : Counts = λ i. if d == i then decrement (counts i) else counts i in
    let next' : List String = if is_zero (counts' d) then next ++ d ∷ [] else next in
    let below : (mem j ds || mem j next') ≡ true = relax-mem ds counts' next' j h in
    ground (arith, below, mem-append j next (d ∷ []))

mem-mentions :
    (u id j : String) (ds : List String) → mem j (mentions u id ds) ≡ true → (id == j) ≡ true
unfolding mentions
mem-mentions u id j [] h = ground arith
mem-mentions u id j (d ∷ ds) h = ground (arith, mem-mentions u id j ds)

pub dependents_known :
    (vs : List Vertex) (u j : String) → mem j (dependents_of vs u) ≡ true → mem j (ids vs) ≡ true
unfolding dependents_of
dependents_known [] u j h = h
dependents_known (v ∷ vs) u j h = ground (
  arith,
  mem-append j (mentions u v.node_id v.dependencies) (dependents_of vs u),
  mem-mentions u v.node_id j v.dependencies,
  dependents_known vs u j,
)

-- Nothing pending: every known dependency is visited.
pub pending_zero :
    (vs : List Vertex) (visited ds : List String) (d : String)
    → nat_eq (pending vs visited ds) 0 ≡ true
    → mem d ds ≡ true
    → mem d (ids vs) ≡ true
    → mem d visited ≡ true
unfolding pending
pending_zero vs visited [] d z h k = cc
pending_zero vs visited (x ∷ ds) d z h k = ground (arith, pending_zero vs visited ds d, eq_iff x d)

-- Something pending: a known dependency that is not visited.
pub pending_some :
    (vs : List Vertex) (visited ds : List String)
    → nat_eq (pending vs visited ds) 0 ≡ false
    → (d : String) × (mem d ds ≡ true) × (mem d (ids vs) ≡ true) × (mem d visited ≡ false)
unfolding pending
pending_some vs visited [] z = cc
pending_some vs visited (x ∷ ds) z = elim (Bool-cases (mem x (ids vs) && not (mem x visited))) [
  | inl e ↦ (x, ground (arith, eq_refl x), ground arith, ground arith)
  | inr e ↦
      let (d, inside, known, fresh) = pending_some vs visited ds (ground arith) in
      (d, ground arith, known, fresh)
]
