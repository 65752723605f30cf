-- ===== src/Execution/Catalog/Placed.antt =====
-- A catalog that its constructor accepts places every cell that it has a binding for.
use market_cell.Prelude.{
  no_repeats-IsUnique, ◌≡◌, refl, sym, ◌∙◌, subst, String, Bool, true, false, List, [], ◌∷◌, map,
  keep, mem, IsUnique, is_empty, sort_by, mem-sort_by, sort_by-IsUnique, All-sort_by, All, eq_refl,
  arith, ok,
}
use market_cell.Execution.Models.{Binding, binding_id, binding_ids}
use market_cell.Execution.Placement.{
  Policy, Manifest, Entry, Decision, evaluate, is_compatible, check_decision, select,
}
use market_cell.Execution.Placement.Decisions.{
  IsSelection, keep-ids_IsUnique, All-keep, select_returns,
}
use market_cell.Execution.Catalog.{check_catalog, binding_le, candidates_for}

-- The constructor's check passes on distinct binding identifiers only.
pub check_catalog-IsUnique :
    (bs : List Binding) → check_catalog bs ≡ ok tt → IsUnique (binding_ids bs)
unfolding check_catalog
check_catalog-IsUnique bs h = no_repeats-IsUnique (binding_ids bs) _ h

keep-All : {A : Type 0} (q : A → Bool) (xs : List A) → All (λ x. q x ≡ true) xs → keep q xs ≡ xs
keep-All q [] h = refl
keep-All q (x ∷ xs) (h, hs) = rw (h, keep-All q xs hs) refl

compatible_again :
    (m : Manifest) (bs : List Binding)
    → keep (is_compatible m) (candidates_for m bs) ≡ candidates_for m bs
unfolding candidates_for
compatible_again m bs =
    keep-All (is_compatible m) (sort_by binding_le (keep (is_compatible m) bs)) (
      All-sort_by binding_le (λ b. is_compatible m b ≡ true) (keep (is_compatible m) bs)
        (All-keep (is_compatible m) bs))

candidates_for-some :
    (m : Manifest) (bs : List Binding)
    → is_empty (keep (is_compatible m) bs) ≡ false
    → is_empty (candidates_for m bs) ≡ false
unfolding candidates_for
candidates_for-some m bs f = go (keep (is_compatible m) bs) f
  where
    has : (j : String) (xs : List Binding) → mem j (binding_ids xs) ≡ true → is_empty xs ≡ false
    has j [] h = cc
    has j (x ∷ xs) h = refl

    go : (xs : List Binding) → is_empty xs ≡ false → is_empty (sort_by binding_le xs) ≡ false
    go [] f = cc
    go (x ∷ xs) f = has (binding_id x) (sort_by binding_le (x ∷ xs)) (
        mem-sort_by binding_le (λ b. binding_id b) (binding_id x) (x ∷ xs)
        ∙ ground (arith, eq_refl (binding_id x)))

candidates_for-IsUnique :
    (m : Manifest) (bs : List Binding)
    → IsUnique (binding_ids bs)
    → IsUnique (binding_ids (candidates_for m bs))
unfolding candidates_for
candidates_for-IsUnique m bs u =
    sort_by-IsUnique binding_le (λ b. binding_id b) (keep (is_compatible m) bs)
      (keep-ids_IsUnique (λ b. binding_id b) (is_compatible m) bs u)

-- Where the catalog's constructor raises nothing and the catalog has a binding of the cell's
-- identifier and formula version, the selection among the catalog's candidates raises nothing. Its
-- decision passes its checks, and its bindings are these candidates in rank order, the unhealthy ones
-- only where all are.
pub catalog_places :
    (p : Policy) (m : Manifest) (entries : List Entry) (bs : List Binding)
    → check_catalog bs ≡ ok tt
    → is_empty (keep (is_compatible m) bs) ≡ false
    → (d : Decision) × (select p m (candidates_for m bs) entries ≡ ok d)
      × (check_decision d ≡ ok tt)
      × IsSelection (candidates_for m bs) (map (evaluate p entries) (candidates_for m bs)) d
catalog_places p m entries bs h f =
    let same = compatible_again m bs in
    let (d, e, passes, s) =
      select_returns p m entries (candidates_for m bs)
        (candidates_for-IsUnique m bs (check_catalog-IsUnique bs h))
        (subst (λ xs. is_empty xs ≡ false) (sym same) (candidates_for-some m bs f)) in
    (d, e, passes, subst (λ xs. IsSelection xs (map (evaluate p entries) xs) d) same s)
