-- ===== src/Execution/Planner/Inputs.antt =====
-- `_references_for_manifest` composes the inputs of a cell exactly where each kind that it requires
-- has one reference.
use market_cell.Prelude.{
  is_empty-keep, ◌≡◌, ◌↔◌, ◌⊎◌, inl, inr, refl, ap, ◌∙◌, subst, String, Bool, true, false, not,
  ◌&&◌, List, [], ◌∷◌, map, All, mem, IsUnique, is_unique, is_unique→IsUnique, IsUnique→is_unique,
  is_empty, length, ltb, ◌==◌, eq_iff, eq_refl, arith, Bool-cases, Result, ok, err, ◌>>◌, raise_if,
}
use market_cell.Inputs.Models.{Reference, supported_kinds}
use market_cell.Execution.Planner.{
  CompositionError, composition, matches, firsts, unsupported, missing, repeated,
  references_for_manifest,
}

-- Distinct supported kinds, the request among them, and one reference for each.
pub record IsComposable (kinds : List String) (references : List Reference) : Type 0 where
  pub unique : IsUnique kinds
  pub request : mem "analysis_request" kinds ≡ true
  pub supported : (j : String) → mem j kinds ≡ true → mem j supported_kinds ≡ true
  pub single : (j : String) → mem j kinds ≡ true → length (matches j references) ≡ 1

matches_kind :
    (kind : String) (rs : List Reference) → All (λ r. r.input_kind ≡ kind) (matches kind rs)
matches_kind kind [] = tt
matches_kind kind (r ∷ rs) = elim (Bool-cases (r.input_kind == kind)) [
  | inl e ↦ rw e ((eq_iff r.input_kind kind).0 e, matches_kind kind rs)
  | inr e ↦ rw e (matches_kind kind rs)
]

single_of : (xs : List Reference) → length xs ≡ 1 → (r : Reference) × (xs ≡ (r ∷ []))
single_of [] h = ground arith
single_of (r ∷ []) h = (r, refl)
single_of (r ∷ x ∷ xs) h = ground arith

firsts-ok :
    (references : List Reference) (kinds : List String)
    → ((j : String) → mem j kinds ≡ true → length (matches j references) ≡ 1)
    → (rs : List Reference) × (firsts references kinds ≡ ok rs)
      × (map (λ r. r.input_kind) rs ≡ kinds)
      × All (λ r. matches r.input_kind references ≡ (r ∷ [])) rs
firsts-ok references [] h = ([], refl, refl, tt)
firsts-ok references (kind ∷ kinds) h =
    let (r, e) = single_of (matches kind references) (h kind (ground (arith, eq_refl kind))) in
    let same : r.input_kind ≡ kind =
      (subst (λ xs. All (λ x. x.input_kind ≡ kind) xs) e (matches_kind kind references)).0 in
    let (rs, f, g, a) = firsts-ok references kinds (λ j m. h j (ground (arith, m))) in
    (r ∷ rs, rw (e, f) refl, cc (same, g), (ap (λ k. matches k references) same ∙ e, a))

-- The five guards in front of the rest.
guards :
    (a b c d e : Bool) (s t u v w : String) (rest : Result CompositionError (List Reference))
    → ((a && (b && (c && (d && e)))) ≡ true)
        × ((raise_if (not a) (composition s)
              >> (raise_if (not b) (composition t)
                  >> (raise_if (not c) (composition u)
                      >> (raise_if (not d) (composition v)
                          >> (raise_if (not e) (composition w) >> rest)))))
            ≡ rest)
      ⊎ ((a && (b && (c && (d && e)))) ≡ false)
        × ((message : String) × ((raise_if (not a) (composition s)
                >> (raise_if (not b) (composition t)
                    >> (raise_if (not c) (composition u)
                        >> (raise_if (not d) (composition v)
                            >> (raise_if (not e) (composition w) >> rest)))))
              ≡ err (composition message)))
guards false b c d e s t u v w rest = inr (refl, (s, refl))
guards true false c d e s t u v w rest = inr (refl, (t, refl))
guards true true false d e s t u v w rest = inr (refl, (u, refl))
guards true true true false e s t u v w rest = inr (refl, (v, refl))
guards true true true true false s t u v w rest = inr (refl, (w, refl))
guards true true true true true s t u v w rest = inl (refl, refl)

module _ (kinds : List String) (references : List Reference) where
  abbrev is_composable : Bool
  is_composable =
      is_unique kinds
      && (mem "analysis_request" kinds
          && (is_empty (unsupported kinds)
              && (is_empty (missing references kinds) && is_empty (repeated references kinds))))

  is_composable_iff : (is_composable ≡ true) ↔ IsComposable kinds references
  is_composable_iff =
      let (s, s') = is_empty-keep (λ kind. not (mem kind supported_kinds)) kinds in
      let (m, m') = is_empty-keep (λ kind. is_empty (matches kind references)) kinds in
      let (r, r') = is_empty-keep (λ kind. ltb 1 (length (matches kind references))) kinds in
      (
        λ h. record {
          unique = is_unique→IsUnique kinds (ground (arith, h));
          request = ground (arith, h);
          supported = λ j k. opened (mem j supported_kinds) (s (ground (arith, h)) j k);
          single = λ j k.
              exactly (matches j references) (m (ground (arith, h)) j k)
                (r (ground (arith, h)) j k);
        },
        λ w. ground (
          arith,
          IsUnique→is_unique kinds w.unique,
          w.request,
          s' (λ j k. ap not (w.supported j k)),
          m' (λ j k. some_of (matches j references) (w.single j k)),
          r' (λ j k. ground (arith, w.single j k)),
        ),
      )
    where
      opened : (b : Bool) → not b ≡ false → b ≡ true
      opened true h = refl
      opened false h = cc

      exactly :
          (xs : List Reference) → is_empty xs ≡ false → ltb 1 (length xs) ≡ false → length xs ≡ 1
      exactly [] h k = cc
      exactly (x ∷ xs) h k = ground (arith, k)

      some_of : (xs : List Reference) → length xs ≡ 1 → is_empty xs ≡ false
      some_of [] h = ground (arith, h)
      some_of (x ∷ xs) h = refl

  -- Either each kind the cell requires is supported and has one reference, no kind is repeated and
  -- the request is among them, and the result is these references in the order of the kinds; or one
  -- of this fails, and the function raises `InputCompositionError`.
  pub references_for_manifest_decides :
      (IsComposable kinds references
        × ((rs : List Reference) × (references_for_manifest kinds references ≡ ok rs)
            × (map (λ r. r.input_kind) rs ≡ kinds)
            × All (λ r. matches r.input_kind references ≡ (r ∷ [])) rs))
      ⊎ ((¬ IsComposable kinds references)
          × ((message : String) × (references_for_manifest kinds references
                ≡ err (composition message))))
  unfolding references_for_manifest
  references_for_manifest_decides =
      elim (guards (is_unique kinds) (mem "analysis_request" kinds) (is_empty (unsupported kinds))
        (is_empty (missing references kinds)) (is_empty (repeated references kinds))
        "Cell repeats a required input kind" "Cell must require analysis_request"
        "Cell requires unsupported input kinds" "Cell is missing required input kinds"
        "Cell received multiple snapshots for input kinds" (firsts references kinds)) [
          | inl (good, same) ↦
              let w = is_composable_iff.0 good in
              let (rs, e, k, a) = firsts-ok references kinds w.single in
              inl (w, (rs, same ∙ e, k, a))
          | inr (bad, (message, raised)) ↦
              inr (λ w. cc (bad, is_composable_iff.1 w), (message, raised))
        ]
