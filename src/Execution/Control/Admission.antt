-- ===== src/Execution/Control/Admission.antt =====
-- InMemoryConcurrencyAdmissionController of execution/control.py, its leases, and schedules of
-- acquisitions and releases. The lock makes each call one step.
pub mod Limits
use market_cell.Prelude.{
  ℕ, zero, suc, ◌+◌, ◌-◌, ◌≤◌, ◌<◌, ◌≡◌, String, Bool, true, false, Option, none, some, List, [],
  ◌∷◌, leb, ◌==◌, if◌then◌else◌,
}
use market_cell.Execution.Models.{Binding, binding_id}

-- `_active_by_binding`
abbrev pub Controller : Type 0
Controller = List (String × ℕ)

-- `get(binding_id, 0)`
unfoldable pub active : String → Controller → ℕ
active id [] = 0
active id ((key, n) ∷ rest) = if key == id then n else active id rest

unfoldable pub set_active : String → ℕ → Controller → Controller
set_active id n [] = (id, n) ∷ []
set_active id n ((key, m) ∷ rest) =
    let rest' = set_active id n rest in if key == id then (key, n) ∷ rest else (key, m) ∷ rest'

-- `pop(binding_id, None)`
unfoldable pub drop_active : String → Controller → Controller
drop_active id [] = []
drop_active id ((key, m) ∷ rest) =
    let rest' = drop_active id rest in if key == id then rest' else (key, m) ∷ rest'

-- `_NoopAdmissionLease` and `_ConcurrencyAdmissionLease` with its flag `_released`.
pub data Lease : Type 0 where
  noop : Lease
  held : String → Bool → Lease

-- `try_acquire`: the controller after the call, and the lease if one is granted.
abbrev limited : Binding → ℕ → Controller → Controller × Option Lease
limited binding limit c =
    let id = binding_id binding in
    if leb limit (active id c)
    then (c, none)
    else (set_active id (active id c + 1) c, some (held id false))

abbrev by_limit : Binding → Option ℕ → Controller → Controller × Option Lease
by_limit binding none c = (c, some noop)
by_limit binding (some limit) c = limited binding limit c

unfoldable pub try_acquire : Binding → Controller → Controller × Option Lease
try_acquire binding c = by_limit binding binding.max_concurrency c

-- `_release`
unfoldable pub release_binding : String → Controller → Controller
release_binding id c =
    if leb (active id c) 1 then drop_active id c else set_active id (active id c - 1) c

-- `release` of a lease: the controller and the lease after the call.
unfoldable pub release : Lease → Controller → Controller × Lease
release noop c = (c, noop)
release (held id true) c = (c, held id true)
release (held id false) c = (release_binding id c, held id true)

-- The controller and the leases that it has granted, in the order of the grants.
pub record Pool : Type 0 where
  pub controller : Controller
  pub leases : List Lease

pub data Operation : Type 0 where
  acquire : Binding → Operation
  free : ℕ → Operation

abbrev grant : Option Lease → List Lease → List Lease
grant none leases = leases
grant (some lease) leases = lease ∷ leases

-- The release of the lease at a position; none stands behind the end.
unfoldable pub release_at : ℕ → Controller → List Lease → Controller × List Lease
release_at i c [] = (c, [])
release_at zero c (lease ∷ rest) = let (c', lease') = release lease c in (c', lease' ∷ rest)
release_at (suc i) c (lease ∷ rest) = let (c', rest') = release_at i c rest in (c', lease ∷ rest')

unfoldable pub step : Operation → Pool → Pool
step (acquire binding) p =
    let (c, lease) = try_acquire binding p.controller in
    record { controller = c; leases = grant lease p.leases }
step (free i) p =
    let (c, leases) = release_at i p.controller p.leases in
    record { controller = c; leases = leases }

-- Any interleaving of the calls of several threads.
unfoldable pub run : List Operation → Pool → Pool
run [] p = p
run (operation ∷ rest) p = run rest (step operation p)

abbrev pub is_live : String → Lease → ℕ
is_live id noop = 0
is_live id (held key true) = 0
is_live id (held key false) = if key == id then 1 else 0

-- The leases of a binding that are granted and not released.
unfoldable pub live : String → List Lease → ℕ
live id [] = 0
live id (lease ∷ rest) = is_live id lease + live id rest
