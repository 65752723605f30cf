-- ===== src/Execution/Models/Scans.antt =====
-- How the checks of a control record take one more attempt at the end of the list.
use market_cell.Prelude.{
  ℕ, zero, suc, ◌+◌, ◌<◌, ◌≡◌, ◌⊎◌, String, true, some, List, [], ◌∷◌, ◌++◌, length, get_elem?,
  eq_iff, ok, arith, >>=-eq-ok,
}
use market_cell.Execution.Models.{Attempt}
use market_cell.Execution.Models.Checks.{Scan, count_of, scan_attempt, scan_attempts, is_contiguous}

pub scan_attempts-append :
    (ids : List String) (xs : List Attempt) (s t : Scan) (a : Attempt)
    → scan_attempts ids s xs ≡ ok t
    → scan_attempts ids s (xs ++ a ∷ []) ≡ scan_attempt ids t a
unfolding scan_attempts
scan_attempts-append ids [] s t a h = ground arith
scan_attempts-append ids (x ∷ xs) s t a h =
    let (u, taken, rest) = >>=-eq-ok (scan_attempt ids s x) (λ s'. scan_attempts ids s' xs) h in
    rw taken (scan_attempts-append ids xs u t a rest)

pub is_contiguous-append :
    (n : ℕ) (xs : List Attempt) (a : Attempt)
    → is_contiguous n xs ≡ true
    → a.attempt_number ≡ n + length xs
    → is_contiguous n (xs ++ a ∷ []) ≡ true
unfolding is_contiguous
is_contiguous-append n [] a h e = ground arith
is_contiguous-append n (x ∷ xs) a h e = ground (arith, is_contiguous-append (n + 1) xs a)

pub get_elem?-lt :
    (ids : List String) (i : ℕ) {x : String} → get_elem? ids i ≡ some x → i < length ids
get_elem?-lt [] i h = ground arith
get_elem?-lt (y ∷ ids) zero h = omega arith
get_elem?-lt (y ∷ ids) (suc i) h = omega (arith, get_elem?-lt ids i h)

-- An attempt that follows the scan's rules is taken.
pub scan_attempt_lem :
    (ids : List String) (s : Scan) (a : Attempt)
    → get_elem? ids a.fallback_index ≡ some a.binding_id
    → (a.fallback_index ≡ s.previous) ⊎ (a.fallback_index ≡ suc s.previous)
    → a.binding_attempt_number ≡ count_of a.fallback_index s.counts + 1
    → scan_attempt ids s a
      ≡ ok (record {
        previous = a.fallback_index;
        counts = (a.fallback_index, count_of a.fallback_index s.counts + 1) ∷ s.counts;
      })
unfolding scan_attempt
scan_attempt_lem ids s a found order number =
    ground (arith, get_elem?-lt ids a.fallback_index found, eq_iff a.binding_id a.binding_id)
