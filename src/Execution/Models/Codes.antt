-- ===== src/Execution/Models/Codes.antt =====
-- Equality tests on the enumerations of execution/models.py, and on optional values.
use market_cell.Prelude.{
  ℕ, Bool, true, false, Option, none, some, String, ◌==◌, eq_iff, nat_eq, ◌≡◌, refl, ◌&&◌, List, [],
  ◌∷◌, arith,
}
use market_cell.Execution.Models.{
  Runtime, python_local, python_service, rust_service, external_service, FailureKind, ControlStatus,
}

abbrev kind_code : FailureKind → ℕ
kind_code FailureKind.routing = 0
kind_code FailureKind.dispatch = 1
kind_code FailureKind.execution = 2
kind_code FailureKind.timeout = 3
kind_code FailureKind.backpressure = 4
kind_code FailureKind.canceled = 5
kind_code FailureKind.contract = 6

abbrev pub same_kind : FailureKind → FailureKind → Bool
same_kind a b = nat_eq (kind_code a) (kind_code b)

abbrev control_code : ControlStatus → ℕ
control_code ControlStatus.succeeded = 0
control_code ControlStatus.failed = 1
control_code ControlStatus.canceled = 2

abbrev pub same_control_status : ControlStatus → ControlStatus → Bool
same_control_status a b = nat_eq (control_code a) (control_code b)

abbrev runtime_code : Runtime → ℕ
runtime_code python_local = 0
runtime_code python_service = 1
runtime_code rust_service = 2
runtime_code external_service = 3

abbrev pub same_runtime : Runtime → Runtime → Bool
same_runtime a b = nat_eq (runtime_code a) (runtime_code b)

abbrev pub same_option : {A : Type 0} → (A → A → Bool) → Option A → Option A → Bool
same_option eq none none = true
same_option eq none (some b) = false
same_option eq (some a) none = false
same_option eq (some a) (some b) = eq a b

abbrev pub same_texts : List String → List String → Bool
same_texts [] [] = true
same_texts [] (b ∷ bs) = false
same_texts (a ∷ as') [] = false
same_texts (a ∷ as') (b ∷ bs) = a == b && same_texts as' bs

pub same_kind_refl : (a : FailureKind) → same_kind a a ≡ true
same_kind_refl FailureKind.routing = refl
same_kind_refl _ = refl

pub same_option-kind_refl : (a : Option FailureKind) → same_option same_kind a a ≡ true
same_option-kind_refl none = refl
same_option-kind_refl (some a) = same_kind_refl a

pub same_control_status_refl : (a : ControlStatus) → same_control_status a a ≡ true
same_control_status_refl ControlStatus.succeeded = refl
same_control_status_refl _ = refl

pub same_texts_refl : (as' : List String) → same_texts as' as' ≡ true
same_texts_refl [] = refl
same_texts_refl (a ∷ as') = ground (arith, same_texts_refl as', eq_iff a a)

pub same_texts→eq : (as' bs : List String) → same_texts as' bs ≡ true → as' ≡ bs
same_texts→eq [] [] h = refl
same_texts→eq [] (b ∷ bs) h = ground arith
same_texts→eq (a ∷ as') [] h = ground arith
same_texts→eq (a ∷ as') (b ∷ bs) h = ground (arith, same_texts→eq as' bs, eq_iff a b)
