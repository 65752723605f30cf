-- ===== src/Prelude/Sort.antt =====
-- Python's `sorted`: a stable sort by a test, and the order of texts.
use text.Mathlib.TextEquality.{eq_iff}
use mathlib.Core.Logic.{inl, inr}
use Prim.Native.String.{String, compare}
use mathlib.Core.Path.{◌≡◌, refl, ◌∙◌}
use mathlib.Core.Bool.{Bool, false, ◌||◌}
use mathlib.Core.List.{List, [], ◌∷◌, map}
use text.Mathlib.Text.{is_le, ◌==◌}
use native.Mathlib.Omega.{arith}
use Prim.Native.Nat.{◌+◌}
use market_cell.Prelude.Tests.{if◌then◌else◌, Bool-cases}
use market_cell.Prelude.Lists.{length, All}
use market_cell.Prelude.Ids.{mem, IsUnique}

module _ {ℓ} {A : Type ℓ} (le : A → A → Bool) where
  unfoldable pub insert_by : A → List A → List A
  insert_by x [] = x ∷ []
  insert_by x (y ∷ ys) = let rest = insert_by x ys in if le x y then x ∷ y ∷ ys else y ∷ rest

  unfoldable pub sort_by : List A → List A
  sort_by [] = []
  sort_by (x ∷ xs) = insert_by x (sort_by xs)

  pub All-insert_by {κ} :
      (P : A → Type κ) (x : A) (xs : List A) → P x → All P xs → All P (insert_by x xs)
  unfolding insert_by
  All-insert_by P x [] h hs = (h, tt)
  All-insert_by P x (y ∷ ys) h hs = elim (Bool-cases (le x y)) [
    | inl e ↦ rw e (h, hs)
    | inr e ↦ rw e (hs.0, All-insert_by P x ys h hs.1)
  ]

  pub All-sort_by {κ} : (P : A → Type κ) (xs : List A) → All P xs → All P (sort_by xs)
  unfolding sort_by
  All-sort_by P [] h = tt
  All-sort_by P (x ∷ xs) h = All-insert_by P x (sort_by xs) h.0 (All-sort_by P xs h.1)

  length-insert_by : (x : A) (xs : List A) → length (insert_by x xs) ≡ length xs + 1
  unfolding insert_by
  length-insert_by x [] = omega arith
  length-insert_by x (y ∷ ys) = ground (arith, length-insert_by x ys)

  pub length-sort_by : (xs : List A) → length (sort_by xs) ≡ length xs
  unfolding sort_by
  length-sort_by [] = refl
  length-sort_by (x ∷ xs) = omega (arith, length-insert_by x (sort_by xs), length-sort_by xs)

  -- The identifiers of a sorted list are those of the list.
  mem-insert_by :
      (f : A → String) (j : String) (x : A) (xs : List A)
      → mem j (map f (insert_by x xs)) ≡ (f x == j || mem j (map f xs))
  unfolding insert_by
  mem-insert_by f j x [] = refl
  mem-insert_by f j x (y ∷ ys) = ground (arith, mem-insert_by f j x ys)

  pub mem-sort_by :
      (f : A → String) (j : String) (xs : List A) → mem j (map f (sort_by xs)) ≡ mem j (map f xs)
  unfolding sort_by
  mem-sort_by f j [] = refl
  mem-sort_by f j (x ∷ xs) = ground (arith, mem-insert_by f j x (sort_by xs), mem-sort_by f j xs)

  insert_by-IsUnique :
      (f : A → String) (x : A) (xs : List A)
      → mem (f x) (map f xs) ≡ false
      → IsUnique (map f xs)
      → IsUnique (map f (insert_by x xs))
  unfolding insert_by
  insert_by-IsUnique f x [] h u = (refl, tt)
  insert_by-IsUnique f x (y ∷ ys) h u = ground (
    arith,
    insert_by-IsUnique f x ys,
    mem-insert_by f (f y) x ys,
    eq_iff (f x) (f y),
    eq_iff (f y) (f x),
  )

  pub sort_by-IsUnique :
      (f : A → String) (xs : List A) → IsUnique (map f xs) → IsUnique (map f (sort_by xs))
  unfolding sort_by
  sort_by-IsUnique f [] u = tt
  sort_by-IsUnique f (x ∷ xs) u =
      insert_by-IsUnique f x (sort_by xs) (mem-sort_by f (f x) xs ∙ u.0) (sort_by-IsUnique f xs u.1)

abbrev pub text_le : String → String → Bool
text_le a b = is_le (compare a b)

-- `sorted(xs)` of texts
abbrev pub sorted : List String → List String
sorted xs = sort_by text_le xs

map_self : (xs : List String) → map (λ x. x) xs ≡ xs
map_self [] = refl
map_self (x ∷ xs) = rw (map_self xs)

pub mem-sorted : (j : String) (xs : List String) → mem j (sorted xs) ≡ mem j xs
mem-sorted j xs = rw (map_self (sorted xs), map_self xs) at (mem-sort_by text_le (λ x. x) j xs)

pub sorted-IsUnique : (xs : List String) → IsUnique xs → IsUnique (sorted xs)
sorted-IsUnique xs u =
    rw (map_self (sorted xs)) at (sort_by-IsUnique text_le (λ x. x) xs (rw (map_self xs) u))
