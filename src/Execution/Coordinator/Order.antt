-- ===== src/Execution/Coordinator/Order.antt =====
-- The identifiers of validated levels, in the order in which the loops visit them.
use market_cell.Prelude.{
  append_nil, ◌≡◌, ap, sym, ◌∙◌, subst, String, true, false, List, [], ◌∷◌, ◌++◌, append_assoc, mem,
  mem-append, IsUnique, arith, eq_iff, eq_refl,
}
use market_cell.Graph.Models.{Vertex}
use market_cell.Graph.Topology.{ids, dependencies_of}
use market_cell.Graph.Topology.Levels.{IsLayered, all_of}

-- The known dependencies of each identifier stand in front of it.
abbrev pub IsOrdered : List Vertex → List String → List String → Type 0
IsOrdered vs done [] = Unit
IsOrdered vs done (j ∷ js) =
    (mem j (ids vs) ≡ true)
    × (mem j done ≡ false)
    × ((d : String)
        → mem d (dependencies_of vs j) ≡ true
        → mem d (ids vs) ≡ true
        → mem d done ≡ true)
    × IsOrdered vs (done ++ j ∷ []) js

module _ (vs : List Vertex) (unique : IsUnique (ids vs)) where
  -- One level, in front of the rest.
  level-IsOrdered :
      (done level rest : List String)
      → ((j : String)
          → mem j level ≡ true
          → (mem j (ids vs) ≡ true)
            × (mem j done ≡ false)
            × ((d : String)
                → mem d (dependencies_of vs j) ≡ true
                → mem d (ids vs) ≡ true
                → mem d done ≡ true))
      → IsUnique level
      → IsOrdered vs (done ++ level) rest
      → IsOrdered vs done (level ++ rest)
  level-IsOrdered done [] rest h u o = subst (λ xs. IsOrdered vs xs rest) (append_nil done) o
  level-IsOrdered done (j ∷ js) rest h u o =
      let (known, fresh, behind) = h j (ground (arith, eq_refl j)) in
      (
        known,
        fresh,
        behind,
        level-IsOrdered (done ++ j ∷ []) js rest
            (λ i m.
              let (a, b, c) = h i (ground (arith, m)) in
              (
                a,
                ground (
                  arith,
                  b,
                  mem-append i done (j ∷ []),
                  m,
                  u.0,
                  ap (λ k. mem k js) ((eq_iff j i).0 _),
                ),
                λ d x y. ground (arith, c d x y, mem-append d done (j ∷ [])),
              ))
            u.1 (subst (λ xs. IsOrdered vs xs rest) (sym (append_assoc done (j ∷ []) js)) o),
      )

  pub levels-IsOrdered :
      (before done : List String) (levels : List (List String))
      → ((j : String) → mem j before ≡ mem j done)
      → IsLayered vs unique before levels
      → IsOrdered vs done (all_of vs unique levels)
  levels-IsOrdered before done [] same l = tt
  levels-IsOrdered before done (level ∷ levels) same (here, u, later) =
      level-IsOrdered done level (all_of vs unique levels)
        (λ j m. let (a, b, c) = here j m in (a, sym (same j) ∙ b, λ d x y. sym (same d) ∙ c d x y))
        u
        (levels-IsOrdered (level ++ before) (done ++ level) levels
          (λ j. ground (arith, same j, mem-append j level before, mem-append j done level)) later)
