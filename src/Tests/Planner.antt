-- ===== src/Tests/Planner.antt =====
-- The planner on the catalog of two bindings, and the inputs of a cell.
use market_cell.Prelude.{
  ◌≡◌, refl, ◌⊎◌, String, List, [], ◌∷◌, map, mem, All, IsUnique, ok, err, true, false, Result,
}
use market_cell.Execution.Models.{Role, binding_ids}
use market_cell.Execution.Placement.{Decision, evaluate, decision_of}
use market_cell.Execution.Placement.Decisions.{IsSelection}
use market_cell.Execution.Catalog.{candidates_for}
use market_cell.Inputs.Models.{Reference}
use market_cell.Execution.Planner.{
  composition, matches, place, runtime_aware, plan_bindings, references_for_manifest,
}
use market_cell.Execution.Planner.Places.{named_ids, place_returns, plan_bindings_lem}
use market_cell.Execution.Planner.Inputs.{IsComposable, references_for_manifest_decides}
use market_cell.Graph.Models.{Graph}
use market_cell.Execution.Plans.{Plan}
use market_cell.Execution.Planner.Build.{BuildError, build}
use market_cell.Execution.Planner.Build.Answers.{IsExpected}
use market_cell.Execution.Planner.Build.Returns.{IsBuilt, build_answers}
use market_cell.Tests.Control.{binding_of}
use market_cell.Tests.Placement.{policy, trend, offered, failing, offered_catalog}

place_returns_example :
    (d : Decision) × (place (runtime_aware policy (failing ∷ [])) offered trend ≡ ok d)
    × (d.cell_id ≡ trend.cell_id)
    × IsSelection
        (candidates_for trend offered)
        (map (evaluate policy (failing ∷ [])) (candidates_for trend offered))
        d
place_returns_example = place_returns policy trend (failing ∷ []) offered offered_catalog refl

abbrev decisions : List Decision
decisions =
    decision_of trend [] (binding_of "a" false 1) (binding_of "b" false 0 ∷ []) []
    ∷ decision_of trend [] (binding_of "b" false 0) (binding_of "c" true 0 ∷ []) []
    ∷ []

plan_bindings_lem_example :
    IsUnique (binding_ids (plan_bindings decisions))
    × ((j : String) → mem j (binding_ids (plan_bindings decisions)) ≡ mem j (named_ids decisions))
plan_bindings_lem_example = plan_bindings_lem decisions

abbrev kinds : List String
kinds = "analysis_request" ∷ "candle_batch" ∷ []

abbrev pub reference : String → String → Reference
reference id kind = record {
  reference_id = id;
  snapshot_id = id;
  input_kind = kind;
  uri = id;
  content_hash = "h";
  data_version = "v1";
  source = "test";
  target = "BTC";
  horizon = "1h";
  payload_size_bytes = 2;
  schema_version = "input_reference.v1";
}

abbrev references : List Reference
references = reference "1" "candle_batch" ∷ reference "2" "analysis_request" ∷ []

references_for_manifest_decides_example :
    (IsComposable kinds references
      × ((rs : List Reference) × (references_for_manifest kinds references ≡ ok rs)
          × (map (λ r. r.input_kind) rs ≡ kinds)
          × All (λ r. matches r.input_kind references ≡ (r ∷ [])) rs))
    ⊎ ((¬ IsComposable kinds references)
        × ((message : String) × (references_for_manifest kinds references
              ≡ err (composition message))))
references_for_manifest_decides_example = references_for_manifest_decides kinds references

abbrev one_node : Graph
one_node = record {
  graph_id = "g";
  graph_version = "v1";
  root_node_id = "root";
  nodes =
      record { node_id = "root"; cell_id = "trend"; execution_role = Role.root; dependencies = [] }
      ∷ [];
  organs = [];
}

abbrev built : List Reference → Result BuildError Plan
built given =
    build (runtime_aware policy (failing ∷ [])) offered (trend ∷ []) "p" "BTC" "1h" one_node given
      (reference "request" "analysis_request")

build_answers_example :
    ((p : Plan) × (built [] ≡ ok p) × IsBuilt (trend ∷ []) one_node p)
    ⊎ ((x : BuildError) × (built [] ≡ err x)
        × IsExpected
            (runtime_aware policy (failing ∷ []))
            offered
            (trend ∷ [])
            one_node
            (reference "request" "analysis_request" ∷ [])
            x)
build_answers_example =
    build_answers (runtime_aware policy (failing ∷ [])) offered (trend ∷ []) one_node []
      (reference "request" "analysis_request") "p" "BTC" "1h"
