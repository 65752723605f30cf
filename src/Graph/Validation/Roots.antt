-- ===== src/Graph/Validation/Roots.antt =====
-- `_validate_root` finds nothing exactly on graphs with one root, the named one.
use market_cell.Prelude.{
  All-both, is_empty-append, is_empty-issue_if, is_empty-each, issue_if, each, ◌≡◌, ◌↔◌, refl, ap,
  ◌∙◌, String, true, false, not, ◌&&◌, Option, none, some, List, [], ◌∷◌, All, All-weaken, is_empty,
  subst, Option-cases, mem, IsUnique, eq_iff, ◌==◌, arith, Bool-cases, inl, inr,
}
use market_cell.Execution.Models.{Role}
use market_cell.Graph.Models.{GraphNode, Graph}
use market_cell.Graph.Validation.{
  Issue, issue_of, node_ids, node_of, is_root, root_issues, validate_root, unexpected_root_role,
}
use market_cell.Graph.Validation.WellFormed.{IsRooted}

is_root_iff : (r : Role) → (is_root r ≡ true) ↔ (r ≡ Role.root)
is_root_iff Role.leaf = (λ e. cc, λ e. cc)
is_root_iff Role.aggregator = (λ e. cc, λ e. cc)
is_root_iff Role.root = (λ e. refl, λ e. refl)

node_of-none :
    (id : String) (nodes : List GraphNode)
    → node_of id nodes ≡ none
    → mem id (node_ids nodes) ≡ false
node_of-none id [] h = refl
node_of-none id (n ∷ ns) h = ground (arith, node_of-none id ns)

node_of-some :
    (id : String) (nodes : List GraphNode) (r : GraphNode)
    → node_of id nodes ≡ some r
    → (r.node_id ≡ id) × (mem id (node_ids nodes) ≡ true)
node_of-some id [] r h = cc
node_of-some id (n ∷ ns) r h = ground (arith, node_of-some id ns r, eq_iff n.node_id id)

no_other :
    (id : String) (nodes : List GraphNode)
    → mem id (node_ids nodes) ≡ false
    → All (λ n. n.node_id ≡ id → ⊥) nodes
no_other id [] h = tt
no_other id (n ∷ ns) h = (λ e. ground (arith, eq_iff n.node_id id), no_other id ns (ground arith))

-- The node found is the only one of its identifier.
node_of-All :
    (id : String) (nodes : List GraphNode) (r : GraphNode)
    → IsUnique (node_ids nodes)
    → node_of id nodes ≡ some r
    → All (λ n. n.node_id ≡ id → n ≡ r) nodes
node_of-All id [] r u h = tt
node_of-All id (n ∷ ns) r u h = elim (Bool-cases (n.node_id == id)) [
  | inl e ↦
      let here : n ≡ r = ground (arith, rw e at h) in
      (
        λ k. here,
        All-weaken ns (λ m absent k. absurd (absent k))
            (no_other id ns
              (ground (arith, ap (λ i. mem i (node_ids ns)) ((eq_iff n.node_id id).0 e), u.0))),
      )
  | inr e ↦ (λ k. ground (arith, eq_iff n.node_id id), node_of-All id ns r u.1 (rw e at h))
]

node_of-in :
    (P : GraphNode → Type 0) (id : String) (nodes : List GraphNode) (r : GraphNode)
    → node_of id nodes ≡ some r
    → All P nodes
    → P r
node_of-in P id [] r h p = cc
node_of-in P id (n ∷ ns) r h (p, ps) = elim (Bool-cases (n.node_id == id)) [
  | inl e ↦ let here : n ≡ r = ground (arith, rw e at h) in subst P here p
  | inr e ↦ node_of-in P id ns r (rw e at h) ps
]

module _ (g : Graph) where
  HasRootOnly : GraphNode → Type 0
  HasRootOnly n = n.execution_role ≡ Role.root → n.node_id ≡ g.root_node_id

  abbrev root_only : GraphNode → List Issue
  root_only n =
      issue_if (is_root n.execution_role && not (n.node_id == g.root_node_id))
        (issue_of unexpected_root_role (some n.node_id) none none none)

  root_only_iff : (n : GraphNode) → (is_empty (root_only n) ≡ true) ↔ HasRootOnly n
  unfolding HasRootOnly
  root_only_iff n = (
    λ e r. ground (
      arith,
      e,
      is_empty-issue_if {I = Issue} (is_root n.execution_role && not (n.node_id == g.root_node_id))
          _,
      (is_root_iff n.execution_role).1 r,
      eq_iff n.node_id g.root_node_id,
    ),
    λ h.
        is_empty-issue_if {I = Issue}
          (is_root n.execution_role && not (n.node_id == g.root_node_id)) _
        ∙ ground (arith, h ((is_root_iff n.execution_role).0 _), eq_iff n.node_id g.root_node_id),
  )

  FoundIssues : Option GraphNode → Type 0
  FoundIssues o = (r : GraphNode) × (o ≡ some r) × (r.execution_role ≡ Role.root)

  root_issues_iff : (o : Option GraphNode) → (is_empty (root_issues g o) ≡ true) ↔ FoundIssues o
  unfolding FoundIssues
  root_issues_iff none = (λ e. cc, λ (r, e, f). cc)
  root_issues_iff (some r) = (
    λ e. (
      r,
      refl,
      (is_root_iff r.execution_role).0
          (ground (arith, e, is_empty-issue_if {I = Issue} (not (is_root r.execution_role)) _)),
    ),
    λ (s, e, f).
        is_empty-issue_if {I = Issue} (not (is_root r.execution_role)) _
        ∙ ground (arith, (is_root_iff r.execution_role).1 (cc)),
  )

  pub validate_root_iff :
      IsUnique (node_ids g.nodes) → (is_empty (validate_root g g.nodes) ≡ true) ↔ IsRooted g
  unfolding FoundIssues HasRootOnly
  validate_root_iff u =
      let (there, back) = is_empty-each HasRootOnly root_only g.nodes root_only_iff in
      let split =
        is_empty-append (root_issues g (node_of g.root_node_id g.nodes)) (each root_only g.nodes) in
      (
        λ e.
            let (r, found, role) =
              (root_issues_iff (node_of g.root_node_id g.nodes)).0 (ground (arith, e, split)) in
            record {
              present = (node_of-some g.root_node_id g.nodes r found).1;
              roles =
                  All-weaken g.nodes (λ n (p, q). (p, λ k. ap (λ m. m.execution_role) (q k) ∙ role))
                    (All-both _ _ g.nodes (there (ground (arith, e, split)))
                      (node_of-All g.root_node_id g.nodes r u found));
            },
        λ w. split ∙ elim (Option-cases (node_of g.root_node_id g.nodes)) [
          | inl none_found ↦
              ground (arith, w.present, node_of-none g.root_node_id g.nodes none_found)
          | inr (r, found) ↦ ground (
            arith,
            (root_issues_iff (node_of g.root_node_id g.nodes)).1 (
              r,
              found,
              (node_of-in _ g.root_node_id g.nodes r found w.roles).1
                  (node_of-some g.root_node_id g.nodes r found).0,
            ),
            back (All-weaken g.nodes (λ n p. p.0) w.roles),
          )
        ],
      )
