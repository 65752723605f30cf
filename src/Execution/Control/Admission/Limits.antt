-- ===== src/Execution/Control/Admission/Limits.antt =====
-- The controller counts the live leases of each binding, and never grants more than the limit.
use market_cell.Prelude.{
  ℕ, zero, suc, ◌+◌, ◌-◌, ◌≤◌, ◌≡◌, refl, String, true, false, some, List, [], ◌∷◌, ◌==◌, eq_iff,
  if◌then◌else◌, inl, inr, All, arith, Option-cases,
}
use market_cell.Execution.Models.{binding_id}
use market_cell.Execution.Control.Admission.{
  Controller, active, set_active, drop_active, Lease, noop, held, try_acquire, release_binding,
  release, Pool, Operation, acquire, free, release_at, step, run, live,
}

active-set_active :
    (id j : String) (n : ℕ) (c : Controller)
    → active j (set_active id n c) ≡ (if id == j then n else active j c)
unfolding active set_active
active-set_active id j n [] = refl
active-set_active id j n ((key, m) ∷ rest) =
    ground (arith, active-set_active id j n rest, eq_iff key id, eq_iff key j, eq_iff id j)

active-drop_active :
    (id j : String) (c : Controller)
    → active j (drop_active id c) ≡ (if id == j then 0 else active j c)
unfolding active drop_active
active-drop_active id j [] = ground arith
active-drop_active id j ((key, m) ∷ rest) =
    ground (arith, active-drop_active id j rest, eq_iff key id, eq_iff key j, eq_iff id j)

active-release_binding :
    (id j : String) (c : Controller)
    → active j (release_binding id c) ≡ (if id == j then active j c - 1 else active j c)
unfolding release_binding
active-release_binding id j c =
    ground
      (arith, active-drop_active id j c, active-set_active id j (active id c - 1) c, eq_iff id j)

-- Every count is the number of live leases.
abbrev pub IsExact : Pool → Type 0
IsExact p = (id : String) → active id p.controller ≡ live id p.leases

release_at-exact :
    (id : String) (i : ℕ) (c : Controller) (leases : List Lease)
    → live id leases ≤ active id c
    → active id (release_at i c leases).0 + live id leases
      ≡ active id c + live id (release_at i c leases).1
unfolding release_at release live
release_at-exact id i c [] h = omega arith
release_at-exact id zero c (noop ∷ rest) h = omega arith
release_at-exact id zero c (held key true ∷ rest) h = omega arith
release_at-exact id zero c (held key false ∷ rest) h =
    ground (arith, active-release_binding key id c, eq_iff key id)
release_at-exact id (suc i) c (lease ∷ rest) h = ground (arith, release_at-exact id i c rest)

step-IsExact : (operation : Operation) (p : Pool) → IsExact p → IsExact (step operation p)
unfolding step try_acquire live
step-IsExact (acquire binding) p h id = ground (
  arith,
  h id,
  eq_iff (binding_id binding) id,
  active-set_active (binding_id binding) id (active (binding_id binding) p.controller + 1)
      p.controller,
)
step-IsExact (free i) p h id =
    omega (arith, h id, release_at-exact id i p.controller p.leases (omega (arith, h id)))

run-IsExact : (operations : List Operation) (p : Pool) → IsExact p → IsExact (run operations p)
unfolding run
run-IsExact [] p h = h
run-IsExact (operation ∷ rest) p h =
    run-IsExact rest (step operation p) (step-IsExact operation p h)

release_at-le :
    (id : String) (i : ℕ) (c : Controller) (leases : List Lease)
    → active id (release_at i c leases).0 ≤ active id c
unfolding release_at release
release_at-le id i c [] = omega arith
release_at-le id zero c (noop ∷ rest) = omega arith
release_at-le id zero c (held key true ∷ rest) = omega arith
release_at-le id zero c (held key false ∷ rest) =
    ground (arith, active-release_binding key id c, eq_iff key id)
release_at-le id (suc i) c (lease ∷ rest) = release_at-le id i c rest

-- What a binding of this identifier sets as its limit is at most `limit`.
abbrev pub IsLimited : String → ℕ → Operation → Type 0
IsLimited id limit (acquire binding) =
    (max : ℕ) → binding_id binding ≡ id → binding.max_concurrency ≡ some max → max ≤ limit
IsLimited id limit (free i) = Unit

step-le-limit :
    (id : String) (limit : ℕ) (operation : Operation) (p : Pool)
    → IsLimited id limit operation
    → active id p.controller ≤ limit
    → active id (step operation p).controller ≤ limit
unfolding step try_acquire
step-le-limit id limit (acquire binding) p bounded h = elim (Option-cases binding.max_concurrency) [
  | inl e ↦ rw e h
  | inr (max, e) ↦ rw e (
      ground (
        arith,
        bounded max,
        e,
        eq_iff (binding_id binding) id,
        active-set_active (binding_id binding) id (active (binding_id binding) p.controller + 1)
            p.controller,
      ))
]
step-le-limit id limit (free i) p bounded h =
    omega (arith, release_at-le id i p.controller p.leases)

run-le-limit :
    (id : String) (limit : ℕ) (operations : List Operation) (p : Pool)
    → All (IsLimited id limit) operations
    → active id p.controller ≤ limit
    → active id (run operations p).controller ≤ limit
unfolding run
run-le-limit id limit [] p bounded h = h
run-le-limit id limit (operation ∷ rest) p bounded h =
    run-le-limit id limit rest (step operation p) bounded.1
      (step-le-limit id limit operation p bounded.0 h)

abbrev pub empty : Pool
empty = record { controller = []; leases = [] }

empty-IsExact : IsExact empty
unfolding active live
empty-IsExact id = refl

-- After any interleaving of acquisitions and releases, double releases included, the controller's
-- count of a binding is the number of its live leases, and that number is at most the limit that
-- the bindings of this identifier set.
pub live-le-limit :
    (id : String) (limit : ℕ) (operations : List Operation)
    → All (IsLimited id limit) operations
    → (active id (run operations empty).controller ≡ live id (run operations empty).leases)
      × (live id (run operations empty).leases ≤ limit)
live-le-limit id limit operations bounded =
    let exact = run-IsExact operations empty empty-IsExact id in
    let start : active id empty.controller ≤ limit = unfold active in omega arith in
    (exact, omega (arith, exact, run-le-limit id limit operations empty bounded start))
