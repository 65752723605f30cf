-- ===== src/Execution/Catalog.antt =====
-- market_cell/execution/catalog.py. The manifests of the registry are an argument; identifiers of a
-- catalog, times and metadata are left out.
pub mod Placed
use Prim.Native.String.{◌++◌ as join}
use market_cell.Prelude.{
  repeated_ids, ℕ, suc, zero, String, Bool, true, false, not, ◌&&◌, ◌||◌, Option, none, some, List,
  [], ◌∷◌, map, keep, distinct, sorted, ltb, nat_eq, ◌==◌, is_empty, text_le, sort_by,
  if◌then◌else◌, Result, raise_if, count,
}
use market_cell.Execution.Models.{Binding, Runtime, python_local, ResourceHints, binding_ids}
use market_cell.Execution.Placement.{Manifest, is_compatible, lex, lex_text}

abbrev pub duplicates : List Binding → List String
duplicates bindings = repeated_ids (binding_ids bindings)

-- `ServiceCapabilityCatalog.__post_init__`
unfoldable pub check_catalog : List Binding → Result String (Unit {0})
check_catalog bindings =
    raise_if (not (is_empty (duplicates bindings))) "duplicate binding_id values"

abbrev pub binding_le : Binding → Binding → Bool
binding_le a b =
    lex a.priority b.priority
      (lex_text a.implementation_id b.implementation_id (text_le a.service_id b.service_id))

unfoldable pub candidates_for : Manifest → List Binding → List Binding
candidates_for m bindings = sort_by binding_le (keep (is_compatible m) bindings)

abbrev pub implementation_id : String → Manifest → String
implementation_id service_id m =
    join service_id (join ":" (join m.cell_id (join ":" m.formula_version)))

-- The defaults of `ResourceHints`.
abbrev pub default_hints : ResourceHints
default_hints = record {
  cpu_weight = "unknown";
  latency_sensitivity = "normal";
  stateful = false;
  expected_timeout_ms = 30000;
  max_retries = 0;
}

abbrev pub build_local_service_binding : Manifest → String → Binding
build_local_service_binding m service_id = record {
  implementation_id = implementation_id service_id m;
  cell_id = m.cell_id;
  service_id = service_id;
  runtime = python_local;
  language = "python";
  formula_version = m.formula_version;
  endpoint = none;
  task_queue = some (join "cell." service_id);
  priority = 100;
  capabilities = m.category ∷ [];
  supports_batch = false;
  max_concurrency = none;
  resource_hints = default_hints;
}

-- The bindings of `build_local_capability_catalog`.
abbrev pub local_bindings : List Manifest → String → List Binding
local_bindings manifests service_id = map (λ m. build_local_service_binding m service_id) manifests
