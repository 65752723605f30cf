-- ===== src/Graph/Topology/Acyclic.antt =====
-- The search finds no cyclic nodes exactly where a rank falls along every known dependency.
use market_cell.Prelude.{
  ℕ, suc, ◌<◌, ◌≡◌, ◌⊎◌, inl, inr, String, true, List, [], ◌∷◌, ◌++◌, mem, mem-append, IsUnique,
  if◌then◌else◌, arith, Bool-cases,
}
use market_cell.Graph.Models.{Vertex}
use market_cell.Graph.Topology.{ids, dependencies_of}
use market_cell.Graph.Topology.Levels.{IsLayered, all_of}
use market_cell.Graph.Topology.Order.{IsTopological}

-- No cycle of known dependencies: some rank falls along each of them.
abbrev pub IsAcyclic : List Vertex → Type 0
IsAcyclic vs =
    (rank : String → ℕ) × ((j d : String)
      → mem j (ids vs) ≡ true
      → mem d (dependencies_of vs j) ≡ true
      → mem d (ids vs) ≡ true
      → rank d < rank j)

abbrev level_of : List (List String) → String → ℕ
level_of [] j = 0
level_of (level ∷ rest) j = let later = level_of rest j in if mem j level then 0 else suc later

module _ (vs : List Vertex) (unique : IsUnique (ids vs)) where
  earlier :
      (done : List String) (levels : List (List String)) (j d : String)
      → IsLayered vs unique done levels
      → mem j (all_of vs unique levels) ≡ true
      → mem d (dependencies_of vs j) ≡ true
      → mem d (ids vs) ≡ true
      → (mem d done ≡ true) ⊎ (level_of levels d < level_of levels j)
  earlier done [] j d h k m n = ground arith
  earlier done (level ∷ rest) j d h k m n = elim (Bool-cases (mem j level)) [
    | inl e ↦ inl ((h.0 j e).2 d m n)
    | inr e ↦ ground (
      arith,
      earlier (level ++ done) rest j d h.2
          (ground (arith, mem-append j level (all_of vs unique rest))) m n,
      mem-append d level done,
    )
  ]

  pub levels-IsAcyclic :
      (levels : List (List String)) → IsTopological vs unique levels [] → IsAcyclic vs
  levels-IsAcyclic levels t = (
    level_of levels,
    λ j d k m n. ground (arith, earlier [] levels j d t.layered (t.complete j k) m n),
  )
