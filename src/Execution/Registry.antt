-- ===== src/Execution/Registry.antt =====
-- `CellRegistry` of market_cell/registry.py: the check of its constructor and the resolution of a cell.
use market_cell.Prelude.{
  repeated_ids, no_repeats-IsUnique, ◌≡◌, refl, String, false, not, some, List, [], ◌∷◌, map, mem,
  is_empty, IsUnique, All, All-weaken, by_key, by_key_absent, eq_refl, Result, ok, err, raise_if,
}
use market_cell.Execution.Outcomes.{foreign, CellIdentity}
use market_cell.Execution.Coordinator.Environment.{error}
use market_cell.Execution.Coordinator.Node.{resolve_cell}

abbrev pub cell_ids : List CellIdentity → List String
cell_ids cells = map (λ c. c.cell_id) cells

-- `CellRegistry.__init__`
unfoldable pub check_registry : List CellIdentity → Result String (Unit {0})
check_registry cells =
    raise_if (not (is_empty (repeated_ids (cell_ids cells)))) "duplicate local cell registrations"

check_registry-IsUnique :
    (cells : List CellIdentity) → check_registry cells ≡ ok tt → IsUnique (cell_ids cells)
unfolding check_registry
check_registry-IsUnique cells h = no_repeats-IsUnique (cell_ids cells) _ h

-- In a list without repetitions, each cell is the one of its identifier.
each_by_key :
    (cells : List CellIdentity)
    → IsUnique (cell_ids cells)
    → All (λ c. by_key (λ (x : CellIdentity). x.cell_id) c.cell_id cells ≡ some c) cells
each_by_key [] u = tt
each_by_key (x ∷ xs) (absent, u) = (first, All-weaken xs (λ c e. rw e refl) (each_by_key xs u))
  where
    first : by_key (λ (c : CellIdentity). c.cell_id) x.cell_id (x ∷ xs) ≡ some x
    first =
        rw (by_key_absent (λ (c : CellIdentity). c.cell_id) x.cell_id xs absent, eq_refl x.cell_id)
          refl

resolve_cell-found :
    (cells : List CellIdentity) (c : CellIdentity)
    → by_key (λ (x : CellIdentity). x.cell_id) c.cell_id cells ≡ some c
    → resolve_cell cells c.cell_id ≡ ok c
resolve_cell-found cells c e = rw (resolve_cell, e) refl

-- A registry that its constructor accepts resolves each registered cell by its identifier, and
-- raises for any other identifier.
pub resolve_cell-registered :
    (cells : List CellIdentity)
    → check_registry cells ≡ ok tt
    → All (λ c. resolve_cell cells c.cell_id ≡ ok c) cells
      × ((id : String)
          → mem id (cell_ids cells) ≡ false
          → resolve_cell cells id
            ≡ err (
                error (foreign "CellNotRegisteredError") "no local Cell implementation registered"))
resolve_cell-registered cells h = (
  All-weaken cells (resolve_cell-found cells) (each_by_key cells (check_registry-IsUnique cells h)),
  λ id m. rw (resolve_cell, by_key_absent (λ (c : CellIdentity). c.cell_id) id cells m) refl,
)
