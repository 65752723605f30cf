-- ===== src/Tests/Registry.antt =====
-- A registry of two cells.
use market_cell.Prelude.{◌≡◌, refl, String, List, [], ◌∷◌, All, mem, ok, err, false}
use market_cell.Execution.Outcomes.{CellIdentity, foreign}
use market_cell.Execution.Coordinator.Environment.{error}
use market_cell.Execution.Coordinator.Node.{resolve_cell}
use market_cell.Execution.Registry.{cell_ids, check_registry, resolve_cell-registered}
use market_cell.Prelude.{sort_by, insert_by}

abbrev cells : List CellIdentity
cells =
    record { cell_id = "trend"; formula_version = "v1" }
    ∷ record { cell_id = "volume"; formula_version = "v2" }
    ∷ []

check_registry-cells : check_registry cells ≡ ok tt
unfolding check_registry sort_by insert_by
check_registry-cells = refl

resolve_cell-registered_example :
    All (λ c. resolve_cell cells c.cell_id ≡ ok c) cells
    × ((id : String)
        → mem id (cell_ids cells) ≡ false
        → resolve_cell cells id
          ≡ err
              (error (foreign "CellNotRegisteredError") "no local Cell implementation registered"))
resolve_cell-registered_example = resolve_cell-registered cells check_registry-cells
