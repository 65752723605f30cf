-- ===== src/Tests/Placement.antt =====
-- A catalog of two bindings for one cell, one of them with an unhealthy history.
use market_cell.Prelude.{◌≡◌, refl, false, some, List, [], ◌∷◌, ok, sort_by, insert_by}
use market_cell.Execution.Models.{Binding, python_local, service_binding_id}
use market_cell.Execution.Placement.{Policy, Manifest, Entry}
use market_cell.Execution.Catalog.{check_catalog}
use market_cell.Tests.Control.{binding_of}

abbrev pub policy : Policy
policy = record { minimum_trace_count = 5; max_failure_rate = 200000 }

abbrev pub trend : Manifest
trend = record {
  cell_id = "trend";
  formula_version = "v1";
  category = "signal";
  inputs = [];
  outputs = [];
  required_input_kinds = "analysis_request" ∷ [];
}

abbrev pub offered : List Binding
offered = binding_of "a" false 1 ∷ binding_of "b" false 0 ∷ []

abbrev pub failing : Entry
failing = record {
  cell_id = "trend";
  formula_version = "v1";
  implementation_id = some "a";
  service_id = some "local";
  runtime = some python_local;
  trace_count = 9;
  failure_rate = 500000;
  p95_duration_ms = 10;
}

pub offered_catalog : check_catalog offered ≡ ok tt
unfolding check_catalog service_binding_id sort_by insert_by
offered_catalog = refl
