-- ===== src/Prelude/Results.antt =====
-- Code that may raise: a value or the error, and `if bad: raise error` as a step of a `do` block.
use mathlib.Core.Path.{◌≡◌, refl}
use mathlib.Core.Bool.{Bool, true, false}

pub data Result {ℓ} (E A : Type ℓ) : Type ℓ where
  err : E → Result E A
  ok : A → Result E A

module _ {ℓ} {E : Type ℓ} where
  infixl 5 ◌>>=◌ ◌>>◌
  abbrev pub ◌>>=◌ : {A B : Type ℓ} → Result E A → (A → Result E B) → Result E B
  err reason >>= next = err reason
  ok value >>= next = next value

  abbrev pub ◌>>◌ : {B : Type ℓ} → Result E (Unit {ℓ}) → Result E B → Result E B
  err reason >> next = err reason
  ok value >> next = next

  abbrev pub raise_if : Bool → E → Result E (Unit {ℓ})
  raise_if true reason = err reason
  raise_if false reason = ok tt

  -- A passed guard leaves the rest of the block.
  pub raise_if-false :
      {B : Type ℓ} (b : Bool) (reason : E) (next : Result E B)
      → b ≡ false
      → (raise_if b reason >> next) ≡ next
  raise_if-false b reason next h = rw h

  -- The parts of a chain that succeeds.
  pub >>=-eq-ok :
      {A B : Type ℓ} (first : Result E A) (next : A → Result E B) {y : B}
      → (first >>= next) ≡ ok y
      → (x : A) × (first ≡ ok x) × (next x ≡ ok y)
  >>=-eq-ok (err reason) next passed = cc
  >>=-eq-ok (ok x) next passed = (x, refl, passed)

  pub >>-eq-ok :
      {B : Type ℓ} (first : Result E (Unit {ℓ})) (next : Result E B) {y : B}
      → (first >> next) ≡ ok y
      → (first ≡ ok tt) × (next ≡ ok y)
  >>-eq-ok (err reason) next passed = cc
  >>-eq-ok (ok x) next passed = (refl, passed)

abbrev pub is_ok {ℓ} : {E A : Type ℓ} → Result E A → Bool
is_ok (err _) = false
is_ok (ok _) = true
