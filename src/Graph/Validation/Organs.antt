-- ===== src/Graph/Validation/Organs.antt =====
-- `_validate_organs` finds nothing exactly where each organ is a closed set of nodes that its
-- outputs reach, under an identifier of its own.
use market_cell.Prelude.{
  is_empty-append, is_empty-issue_if, is_empty-each, is_empty-each-mem, issue_if, each, ◌≡◌, ◌↔◌,
  ◌≢◌, refl, ap, ◌∙◌, String, Bool, true, false, not, ◌&&◌, none, some, List, [], ◌∷◌, ◌++◌, map,
  keep, All, is_empty, is_unique, is_unique→IsUnique, IsUnique→is_unique, mem, mem-keep, IsUnique,
  eq_iff, eq_refl, arith,
}
use market_cell.Graph.Models.{GraphNode, Organ, Vertex, vertices}
use market_cell.Graph.Topology.{ids}
use market_cell.Graph.Closure.Correct.{Reach, root, step}
use market_cell.Graph.Validation.{
  Issue, issue_of, node_ids, existing_members, outside_issues, valid_outputs, output_issues,
  member_issues, validate_organ, organs_from, missing_organ_node, organ_output_not_member,
  organ_dependency_outside_subgraph, organ_unreachable_node, duplicate_organ_id,
  duplicate_organ_node, duplicate_organ_output, organ_has_no_outputs,
}
use market_cell.Graph.Validation.WellFormed.{IsOrgan}
use market_cell.Graph.Validation.Empty.{unreached_iff}

mem-existing_members :
    (o : Organ) (nodes : List GraphNode) (j : String)
    → mem j (node_ids (existing_members o nodes)) ≡ (mem j (node_ids nodes) && mem j o.node_ids)
mem-existing_members o [] j = refl
mem-existing_members o (n ∷ ns) j = ground (
  arith,
  mem-existing_members o ns j,
  eq_iff n.node_id j,
  ap (λ i. mem i o.node_ids) ((eq_iff n.node_id j).0 _),
)

-- A walk starts at known roots only.
Reach-weaken :
    (roots others : List String) (vs : List Vertex)
    → ((j : String) → mem j roots ≡ true → mem j (ids vs) ≡ true → mem j others ≡ true)
    → (j : String) → Reach roots vs j
    → Reach others vs j
Reach-weaken roots others vs h j (root a b) = root (h j a b) b
Reach-weaken roots others vs h j (step {u} p a b) = step (Reach-weaken roots others vs h u p) a b

module _ (nodes : List GraphNode) (o : Organ) where
  is_inside : String → Bool
  is_inside d = not (mem d (node_ids nodes) && not (mem d o.node_ids))

  IsClosed : GraphNode → Type 0
  IsClosed n =
      (d : String)
      → mem d n.dependencies ≡ true
      → mem d (node_ids nodes) ≡ true
      → mem d o.node_ids ≡ true

  outside_issues_iff : (n : GraphNode) → (is_empty (outside_issues o nodes n) ≡ true) ↔ IsClosed n
  unfolding is_inside IsClosed
  outside_issues_iff n =
      let (there, back) = is_empty-each-mem is_inside _ n.dependencies (λ d.
        is_empty-issue_if (mem d (node_ids nodes) && not (mem d o.node_ids)) (
          issue_of organ_dependency_outside_subgraph (some n.node_id) (some d) none
            (some o.organ_id))) in
      (λ e d m k. ground (arith, there e d m, k), λ h. back (λ d m. ground (arith, h d m)))

  record HasMembers : Type 0 where
    members : IsUnique o.node_ids
    outputs : IsUnique o.output_node_ids
    some_output : is_empty o.output_node_ids ≡ false
    present : (j : String) → mem j o.node_ids ≡ true → mem j (node_ids nodes) ≡ true
    inside : (j : String) → mem j o.output_node_ids ≡ true → mem j o.node_ids ≡ true

  member_issues_iff : (is_empty (member_issues o nodes) ≡ true) ↔ HasMembers
  member_issues_iff =
      let (there, back) =
        is_empty-each-mem (λ j. mem j (node_ids nodes))
          (λ id.
            issue_if (not (mem id (node_ids nodes)))
              (issue_of missing_organ_node (some id) none none (some o.organ_id)))
          o.node_ids (λ j. is_empty-issue_if (not (mem j (node_ids nodes))) _ ∙ ground arith) in
      let (there', back') =
        is_empty-each-mem (λ j. mem j o.node_ids)
          (λ id.
            issue_if (not (mem id o.node_ids))
              (issue_of organ_output_not_member (some id) none none (some o.organ_id)))
          o.output_node_ids (λ j. is_empty-issue_if (not (mem j o.node_ids)) _ ∙ ground arith) in
      let a =
        issue_if (not (is_unique o.node_ids))
          (issue_of duplicate_organ_node none none none (some o.organ_id)) in
      let b =
        issue_if (not (is_unique o.output_node_ids))
          (issue_of duplicate_organ_output none none none (some o.organ_id)) in
      let c =
        issue_if (is_empty o.output_node_ids)
          (issue_of organ_has_no_outputs none none none (some o.organ_id)) in
      let d =
        each
          (λ id.
            issue_if (not (mem id (node_ids nodes)))
              (issue_of missing_organ_node (some id) none none (some o.organ_id)))
          o.node_ids in
      let e =
        each
          (λ id.
            issue_if (not (mem id o.node_ids))
              (issue_of organ_output_not_member (some id) none none (some o.organ_id)))
          o.output_node_ids in
      let split : is_empty (member_issues o nodes) ≡ (
          is_unique o.node_ids
          && (is_unique o.output_node_ids
              && (not (is_empty o.output_node_ids) && (is_empty d && is_empty e)))) =
        ground (
          arith,
          is_empty-append a (b ++ c ++ d ++ e),
          is_empty-append b (c ++ d ++ e),
          is_empty-append c (d ++ e),
          is_empty-append d e,
          is_empty-issue_if (not (is_unique o.node_ids))
              (issue_of duplicate_organ_node none none none (some o.organ_id)),
          is_empty-issue_if (not (is_unique o.output_node_ids))
              (issue_of duplicate_organ_output none none none (some o.organ_id)),
          is_empty-issue_if (is_empty o.output_node_ids)
              (issue_of organ_has_no_outputs none none none (some o.organ_id)),
        ) in
      (
        λ h. record {
          members = is_unique→IsUnique o.node_ids (ground (arith, h, split));
          outputs = is_unique→IsUnique o.output_node_ids (ground (arith, h, split));
          some_output = ground (arith, h, split);
          present = there (ground (arith, h, split));
          inside = there' (ground (arith, h, split));
        },
        λ w.
            split
            ∙ ground (
              arith,
              IsUnique→is_unique o.node_ids w.members,
              IsUnique→is_unique o.output_node_ids w.outputs,
              w.some_output,
              back w.present,
              back' w.inside,
            ),
      )

  keep_some :
      (p : String → Bool) (xs : List String)
      → is_empty xs ≡ false
      → ((j : String) → mem j xs ≡ true → p j ≡ true)
      → is_empty (keep p xs) ≡ false
  keep_some p [] e h = cc
  keep_some p (x ∷ xs) e h = rw (h x (ground (arith, eq_refl x))) refl

  valid_outputs_some : HasMembers → is_empty (valid_outputs o nodes) ≡ false
  valid_outputs_some w =
      keep_some (λ id. mem id (node_ids (existing_members o nodes))) o.output_node_ids w.some_output
        (λ j m.
          ground (arith, mem-existing_members o nodes j, w.inside j m, w.present j (w.inside j m)))

  unreached_issues : String → List Issue
  unreached_issues id = issue_of organ_unreachable_node (some id) none none (some o.organ_id) ∷ []

  IsReached : List String → Type 0
  IsReached outputs =
      (j : String)
      → mem j (node_ids (existing_members o nodes)) ≡ true
      → Reach outputs (vertices (existing_members o nodes)) j

  output_issues_iff :
      (outputs : List String)
      → is_empty outputs ≡ false
      → (is_empty (output_issues o nodes outputs) ≡ true) ↔ IsReached outputs
  unfolding IsReached
  output_issues_iff [] e = cc
  output_issues_iff (x ∷ xs) e =
      unreached_iff
        (λ id. issue_of organ_unreachable_node (some id) none none (some o.organ_id) ∷ []) (x ∷ xs)
        (existing_members o nodes) (λ j. refl)

  pub validate_organ_iff : (is_empty (validate_organ nodes o) ≡ true) ↔ IsOrgan nodes o
  unfolding IsReached IsClosed
  validate_organ_iff =
      let (there, back) = member_issues_iff in
      let (there', back') =
        is_empty-each IsClosed (outside_issues o nodes) (existing_members o nodes)
          outside_issues_iff in
      let m = member_issues o nodes in
      let c = each (outside_issues o nodes) (existing_members o nodes) in
      let r = output_issues o nodes (valid_outputs o nodes) in
      let split : is_empty (validate_organ nodes o) ≡ (is_empty m && (is_empty c && is_empty r)) =
        ground (arith, is_empty-append m (c ++ r), is_empty-append c r) in
      let valid = λ (j : String).
        mem-keep (λ id. mem id (node_ids (existing_members o nodes))) j o.output_node_ids in
      (
        λ h.
            let w = there (ground (arith, h, split)) in
            let reach =
              (output_issues_iff (valid_outputs o nodes) (valid_outputs_some w)).0
                (ground (arith, h, split)) in
            record {
              members = w.members;
              outputs = w.outputs;
              some_output = λ e. ground (arith, w.some_output, ap is_empty e);
              present = w.present;
              inside = w.inside;
              closed = there' (ground (arith, h, split));
              reached = λ j k.
                  Reach-weaken (valid_outputs o nodes) o.output_node_ids
                    (vertices (existing_members o nodes)) (λ i a b. ground (arith, valid i, a)) j
                    (reach j (ground (arith, mem-existing_members o nodes j, w.present j k, k)));
            },
        λ w.
            let full : HasMembers = record {
              members = w.members;
              outputs = w.outputs;
              some_output = some_of o.output_node_ids w.some_output;
              present = w.present;
              inside = w.inside;
            } in
            split
            ∙ ground (
              arith,
              back full,
              back' w.closed,
              (output_issues_iff (valid_outputs o nodes) (valid_outputs_some full)).1 (λ j k.
                  Reach-weaken o.output_node_ids (valid_outputs o nodes)
                    (vertices (existing_members o nodes)) (λ i a b. ground (arith, valid i, a, b)) j
                    (w.reached j (ground (arith, mem-existing_members o nodes j, k)))),
            ),
      )
    where
      some_of : (xs : List String) → xs ≢ [] → is_empty xs ≡ false
      some_of [] h = absurd (h refl)
      some_of (x ∷ xs) h = refl

module _ (nodes : List GraphNode) where
  abbrev organ_names : List Organ → List String
  organ_names os = map (λ o. o.organ_id) os

  -- The organs repeat neither each other's identifiers nor those seen before.
  AreOrgans : List String → List Organ → Type 0
  AreOrgans seen os =
      IsUnique (organ_names os)
      × ((j : String) → mem j (organ_names os) ≡ true → mem j seen ≡ false)
      × All (IsOrgan nodes) os

  organs_from_iff :
      (seen : List String) (os : List Organ)
      → (is_empty (organs_from nodes seen os) ≡ true) ↔ AreOrgans seen os
  unfolding organs_from AreOrgans
  organs_from_iff seen [] = (λ e. (tt, λ j m. cc, tt), λ e. refl)
  organs_from_iff seen (o ∷ os) =
      let (there, back) = organs_from_iff (o.organ_id ∷ seen) os in
      let (there', back') = validate_organ_iff nodes o in
      let i =
        issue_if (mem o.organ_id seen)
          (issue_of duplicate_organ_id none none none (some o.organ_id)) in
      let rest = organs_from nodes (o.organ_id ∷ seen) os in
      let split : is_empty (organs_from nodes seen (o ∷ os))
          ≡ (not (mem o.organ_id seen) && (is_empty (validate_organ nodes o) && is_empty rest)) =
        ground (
          arith,
          is_empty-append i (validate_organ nodes o ++ rest),
          is_empty-append (validate_organ nodes o) rest,
          is_empty-issue_if (mem o.organ_id seen)
              (issue_of duplicate_organ_id none none none (some o.organ_id)),
        ) in
      (
        λ h.
            let (u, fresh, all') = there (ground (arith, h, split)) in
            (
              (ground (arith, fresh o.organ_id, eq_refl o.organ_id), u),
              λ j m. ground (
                arith,
                h,
                split,
                m,
                fresh j,
                eq_iff o.organ_id j,
                ap (λ k. mem k seen) ((eq_iff o.organ_id j).0 _),
              ),
              (there' (ground (arith, h, split)), all'),
            ),
        λ ((m, u), fresh, (here, all')).
            split
            ∙ ground (
              arith,
              fresh o.organ_id,
              eq_refl o.organ_id,
              back' here,
              back (
                u,
                (λ j k. ground (
                  arith,
                  k,
                  m,
                  fresh j,
                  eq_iff o.organ_id j,
                  ap (λ i. mem i (organ_names os)) ((eq_iff o.organ_id j).0 _),
                )),
                all',
              ),
            ),
      )

  pub validate_organs_iff :
      (os : List Organ)
      → (is_empty (organs_from nodes [] os) ≡ true)
        ↔ (IsUnique (map (λ o. o.organ_id) os) × All (IsOrgan nodes) os)
  unfolding AreOrgans
  validate_organs_iff os =
      let (there, back) = organs_from_iff [] os in
      (λ h. let (u, fresh, a) = there h in (u, a), λ (u, a). back (u, (λ j m. refl), a))
