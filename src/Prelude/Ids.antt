-- ===== src/Prelude/Ids.antt =====
-- Identifiers are texts. Python's `in`, `set`, `dict.get` over them, as lists.
use Prim.Native.Nat.{suc, ◌≤◌, ℕ, ◌+◌}
use Prim.Native.String.{String}
use mathlib.Core.Path.{◌≡◌, refl, ap, subst}
use mathlib.Core.Logic.{inl, inr, ◌↔◌}
use mathlib.Core.Bool.{Bool, true, false, not, ◌&&◌, ◌||◌}
use mathlib.Core.List.{List, [], ◌∷◌, ◌++◌}
use text.Mathlib.Text.{◌==◌}
use text.Mathlib.TextEquality.{eq_iff}
use native.Mathlib.Omega.{arith}
use text.Mathlib.TextPositions.{eq_refl}
use market_cell.Prelude.Tests.{ltb, Bool-cases, nat_eq, if◌then◌else◌}
use market_cell.Prelude.Lists.{is_empty, length, keep, sum_of}

-- `x in xs`
abbrev pub mem : String → List String → Bool
mem x [] = false
mem x (y ∷ ys) = y == x || mem x ys

-- `set(xs)`: each element once. A set has no order, and no order is read from this list.
abbrev pub distinct : List String → List String
distinct [] = []
distinct (x ∷ xs) = let rest = distinct xs in if mem x xs then rest else x ∷ rest

-- `len(xs) == len(set(xs))`
abbrev pub is_unique : List String → Bool
is_unique xs = nat_eq (length xs) (length (distinct xs))

pub length-distinct-le : (xs : List String) → length (distinct xs) ≤ length xs
length-distinct-le [] = omega arith
length-distinct-le (x ∷ xs) = ground (arith, length-distinct-le xs)

pub is_unique-cons :
    (x : String) (xs : List String) → is_unique (x ∷ xs) ≡ (not (mem x xs) && is_unique xs)
is_unique-cons x xs = ground (arith, length-distinct-le xs)

-- No element stands twice.
abbrev pub IsUnique : List String → Type 0
IsUnique [] = Unit
IsUnique (x ∷ xs) = (mem x xs ≡ false) × IsUnique xs

pub is_unique→IsUnique : (xs : List String) → is_unique xs ≡ true → IsUnique xs
is_unique→IsUnique [] h = tt
is_unique→IsUnique (x ∷ xs) h =
    let split : (not (mem x xs) && is_unique xs) ≡ true = rw (← is_unique-cons x xs) h in
    (ground arith, is_unique→IsUnique xs (ground arith))

pub IsUnique→is_unique : (xs : List String) → IsUnique xs → is_unique xs ≡ true
IsUnique→is_unique [] h = refl
IsUnique→is_unique (x ∷ xs) h = rw (is_unique-cons x xs) (ground (arith, IsUnique→is_unique xs h.1))

pub mem-append : (x : String) (xs ys : List String) → mem x (xs ++ ys) ≡ (mem x xs || mem x ys)
mem-append x [] ys = refl
mem-append x (y ∷ xs) ys = ground (arith, mem-append x xs ys)

pub mem-distinct : (x : String) (xs : List String) → mem x (distinct xs) ≡ mem x xs
mem-distinct x [] = refl
mem-distinct x (y ∷ xs) = ground (arith, mem-distinct x xs, eq_iff y x)

pub distinct-IsUnique : (xs : List String) → IsUnique (distinct xs)
distinct-IsUnique [] = tt
distinct-IsUnique (x ∷ xs) = ground (arith, distinct-IsUnique xs, mem-distinct x xs)

pub mem-keep :
    (p : String → Bool) (j : String) (xs : List String) → mem j (keep p xs) ≡ (mem j xs && p j)
mem-keep p j [] = refl
mem-keep p j (x ∷ xs) = ground (arith, mem-keep p j xs, eq_iff x j)

pub keep-IsUnique : (p : String → Bool) (xs : List String) → IsUnique xs → IsUnique (keep p xs)
keep-IsUnique p [] u = tt
keep-IsUnique p (x ∷ xs) u = ground (arith, keep-IsUnique p xs u.1, mem-keep p x xs)

-- How many of the texts stand outside of a list.
abbrev pub outside : List String → List String → ℕ
outside done xs = sum_of (λ x. if mem x done then 0 else 1) xs

pub outside-le :
    (done more xs : List String)
    → ((j : String) → mem j done ≡ true → mem j more ≡ true)
    → outside more xs ≤ outside done xs
outside-le done more [] h = omega arith
outside-le done more (x ∷ xs) h = ground (arith, outside-le done more xs h, h x)

pub outside-lt :
    (done more xs : List String) (x : String)
    → ((j : String) → mem j done ≡ true → mem j more ≡ true)
    → mem x xs ≡ true
    → mem x done ≡ false
    → mem x more ≡ true
    → outside more xs + 1 ≤ outside done xs
outside-lt done more [] x h a b c = ground arith
outside-lt done more (y ∷ xs) x h a b c =
    ground (arith, outside-lt done more xs x h, outside-le done more xs h, h y, eq_iff y x)

-- `Counter(ids)[id]`
abbrev pub count : String → List String → ℕ
count id [] = 0
count id (x ∷ xs) = let rest = count id xs in if x == id then suc rest else rest

count-some : (j : String) (xs : List String) → mem j xs ≡ true → ltb 0 (count j xs) ≡ true
count-some j [] m = cc
count-some j (x ∷ xs) m = ground (arith, m, count-some j xs)

pub once-IsUnique : (xs : List String) → ((j : String) → ltb 1 (count j xs) ≡ false) → IsUnique xs
once-IsUnique [] h = tt
once-IsUnique (x ∷ xs) h =
    (ground (arith, h x, count-some x xs, eq_refl x), once-IsUnique xs (λ j. ground (arith, h j)))

pub not_counted : (j : String) (xs : List String) → mem j xs ≡ false → count j xs ≡ 0
not_counted j [] m = refl
not_counted j (x ∷ xs) m = ground (arith, m, not_counted j xs)

pub count_of_IsUnique : (j : String) (xs : List String) → IsUnique xs → ltb 1 (count j xs) ≡ false
count_of_IsUnique j [] u = refl
count_of_IsUnique j (x ∷ xs) (m, u) = elim (Bool-cases (x == j)) [
  | inl e ↦
      let absent : count j xs ≡ 0 =
        not_counted j xs (subst (λ i. mem i xs ≡ false) ((eq_iff x j).0 e) m) in
      rw (e, absent) refl
  | inr e ↦ rw e (count_of_IsUnique j xs u)
]

-- Nothing is kept exactly where the test fails at each element.
pub is_empty-keep :
    (p : String → Bool) (xs : List String)
    → (is_empty (keep p xs) ≡ true) ↔ ((j : String) → mem j xs ≡ true → p j ≡ false)
is_empty-keep p [] = (λ e j m. cc, λ h. refl)
is_empty-keep p (x ∷ xs) =
    let (there, back) = is_empty-keep p xs in
    (
      λ e j m. elim (Bool-cases (p x)) [
        | inl f ↦ cc (rw f at e)
        | inr f ↦ ground (arith, there (rw f at e) j, m, f, ap p ((eq_iff x j).0 _))
      ],
      λ h. rw (h x (ground (arith, eq_refl x))) (back (λ j m. h j (ground (arith, m)))),
    )
