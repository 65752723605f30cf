-- ===== src/Execution/Control/Identity.antt =====
-- The identities of execution/control.py. `stable_json_hash` (hashing.py) is SHA-256 over JSON text:
-- the digest is a parameter here, a function of the payload's fields.
use market_cell.Prelude.{ℕ, String, Option, none, some, List, [], ◌∷◌, ◌==◌, if◌then◌else◌}

pub data Field : Type 0 where
  text : String → Field
  number : ℕ → Field

abbrev pub Digest : Type 0
Digest = List (String × Field) → String

unfoldable pub execution_idempotency_key : Digest → String → String → String → String
execution_idempotency_key hash run_id plan_id node_id = hash (
    ("schema_version", text "execution_idempotency.v1")
    ∷ ("run_id", text run_id)
    ∷ ("plan_id", text plan_id)
    ∷ ("node_id", text node_id)
    ∷ [])

-- The test `attempt_number < 1` never holds of the loop's numbers, which start at 1.
unfoldable pub execution_attempt_id : Digest → String → String → ℕ → String
execution_attempt_id hash idempotency_key binding_id attempt_number = hash (
    ("schema_version", text "execution_attempt_identity.v1")
    ∷ ("idempotency_key", text idempotency_key)
    ∷ ("binding_id", text binding_id)
    ∷ ("attempt_number", number attempt_number)
    ∷ [])

unfoldable pub execution_control_id : Digest → String → String
execution_control_id hash idempotency_key = hash (
    ("schema_version", text "execution_control_identity.v1")
    ∷ ("idempotency_key", text idempotency_key)
    ∷ [])

-- `given or computed`: an empty text counts as absent.
abbrev pub or_computed : Option String → String → String
or_computed none computed = computed
or_computed (some given) computed = if given == "" then computed else given
