-- ===== src/Prelude/Repeats.antt =====
-- The identifiers that stand in a list more than once, as the constructors of the catalog and of the
-- registry report them.
use Prim.Native.String.{String}
use mathlib.Core.Path.{◌≡◌, refl}
use mathlib.Core.Bool.{Bool, true, false, not}
use mathlib.Core.List.{List, [], ◌∷◌}
use native.Mathlib.Omega.{arith}
use market_cell.Prelude.Tests.{ltb}
use market_cell.Prelude.Lists.{is_empty, keep}
use market_cell.Prelude.Ids.{
  mem, distinct, IsUnique, count, mem-keep, mem-distinct, once-IsUnique, not_counted,
}
use market_cell.Prelude.Sort.{sorted, mem-sorted}
use market_cell.Prelude.Results.{ok, raise_if}

abbrev pub repeated_ids : List String → List String
repeated_ids ids = sorted (keep (λ id. ltb 1 (count id ids)) (distinct ids))

none_in : (j : String) (xs : List String) → is_empty xs ≡ true → mem j xs ≡ false
none_in j [] h = refl
none_in j (x ∷ xs) h = cc

raise_if-passed :
    (b : Bool) (reason : String) → raise_if {E = String} (not b) reason ≡ ok tt → b ≡ true
raise_if-passed true reason h = refl
raise_if-passed false reason h = cc

-- The check passes on distinct identifiers only.
pub no_repeats-IsUnique :
    (ids : List String) (reason : String)
    → raise_if {E = String} (not (is_empty (repeated_ids ids))) reason ≡ ok tt
    → IsUnique ids
no_repeats-IsUnique ids reason h =
    let empty = raise_if-passed (is_empty (repeated_ids ids)) reason h in
    once-IsUnique ids (λ j. ground (
      arith,
      none_in j (repeated_ids ids) empty,
      mem-sorted j (keep (λ id. ltb 1 (count id ids)) (distinct ids)),
      mem-keep (λ id. ltb 1 (count id ids)) j (distinct ids),
      mem-distinct j ids,
      not_counted j ids,
    ))
