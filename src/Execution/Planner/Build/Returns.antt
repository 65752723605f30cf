-- ===== src/Execution/Planner/Build/Returns.antt =====
-- What `build` returns, and what it may raise.
use market_cell.Prelude.{
  by_key, ◌>>◌, All-both, ◌≡◌, ◌⊎◌, inl, inr, refl, ap, sym, ◌∙◌, subst, String, Bool, true, false,
  not, ◌||◌, some, List, [], ◌∷◌, map, mem, All, by_key-found, Result, ok, err, ◌>>=◌, >>=-eq-ok,
  >>-eq-ok, raise_if, eq_iff, ◌==◌,
}
use market_cell.Execution.Models.{Binding, Node}
use market_cell.Inputs.Models.{Reference}
use market_cell.Graph.Models.{GraphNode, Graph}
use market_cell.Graph.Validation.{validate_cell_graph_definition}
use market_cell.Graph.Validation.WellFormed as Graph
use market_cell.Graph.Validation.Exact.{validate_decides}
use market_cell.Execution.Placement.{Manifest, Decision, PlacementError}
use market_cell.Execution.Catalog.{candidates_for}
use market_cell.Execution.Planner.{place, is_invalid, invalid_decision}
use market_cell.Execution.Planner.Inputs.{references_for_manifest_decides}
use market_cell.Execution.Planner.Build.{
  BuildError, invalid_graph, unplaced, invalid_plan, wrapped, first_seen, manifest_by_cell,
  planned_node, or_request, plan_of, build,
}
use market_cell.Execution.Plans.{Plan, graph_node, graph_nodes}
use market_cell.Execution.Validation.{validate_execution_plan}
use market_cell.Execution.Validation.WellFormed.{IsWellFormed}
use market_cell.Execution.Validation.Exact.{validate_plan_decides}
use market_cell.Execution.Planner.Build.Answers.{
  IsRegistered, Pairs-All, IsExpected, Pairs, Answers, each_result-Answers, first_seen-All,
  mem-first_seen_all, cells_listed, map-Pairs, graph_nodes-Pairs,
}

abbrev pub IsBuilt : List Manifest → Graph → Plan → Type 0
IsBuilt manifests g p =
    Graph.IsWellFormed g (some (map (λ m. m.cell_id) manifests))
    × IsWellFormed p
    × (graph_nodes p.nodes ≡ g.nodes)

-- A placement raises what the policy raises, or refuses its decision.
place-err :
    (policy : Manifest → List Binding → Result PlacementError Decision) (catalog : List Binding)
    (m : Manifest) (x : PlacementError)
    → place policy catalog m ≡ err x
    → (policy m (candidates_for m catalog) ≡ err x)
      ⊎ ((d : Decision) × (policy m (candidates_for m catalog) ≡ ok d) × (x ≡ invalid_decision))
unfolding place
place-err policy catalog m x h = go (policy m (candidates_for m catalog)) refl h
  where
    refusal :
        (b : Bool) (d : Decision)
        → (raise_if b invalid_decision >> ok d) ≡ err x
        → x ≡ invalid_decision
    refusal true d k = cc
    refusal false d k = cc

    go :
        (r : Result PlacementError Decision)
        → policy m (candidates_for m catalog) ≡ r
        → (r >>= λ d. raise_if (is_invalid m (candidates_for m catalog) d) invalid_decision >> ok d)
          ≡ err x
        → (policy m (candidates_for m catalog) ≡ err x)
          ⊎ ((d : Decision) × (policy m (candidates_for m catalog) ≡ ok d) × (x ≡ invalid_decision))
    go (err y) e k = inl (e ∙ k)
    go (ok d) e k = inr (d, e, refusal (is_invalid m (candidates_for m catalog) d) d k)

-- A placement that returns is about the cell.
place-cell :
    (policy : Manifest → List Binding → Result PlacementError Decision) (catalog : List Binding)
    (m : Manifest) (d : Decision)
    → place policy catalog m ≡ ok d
    → d.cell_id ≡ m.cell_id
unfolding place
place-cell policy catalog m d h =
    let (d', e, k) = >>=-eq-ok (policy m (candidates_for m catalog)) _ h in
    let (passed, same) =
      >>-eq-ok (raise_if (is_invalid m (candidates_for m catalog) d') _) (ok d') k in
    let d_same : d' ≡ d = cc same in
    subst (λ x. x.cell_id ≡ m.cell_id) d_same
      ((eq_iff d'.cell_id m.cell_id).0 (
        first_test (d'.cell_id == m.cell_id) _ _ _
          (valid (is_invalid m (candidates_for m catalog) d') _ passed)))
  where
    first_test : (a b c e : Bool) → (not a || b || c || e) ≡ false → a ≡ true
    first_test true b c e h = refl
    first_test false b c e h = cc

    valid : (b : Bool) (message : PlacementError) → raise_if b message ≡ ok tt → b ≡ false
    valid false message h = refl
    valid true message h = cc

module _ (policy : Manifest → List Binding → Result PlacementError Decision)
    (catalog : List Binding) (manifests : List Manifest) (g : Graph)
    (input_references : List Reference) (request_reference : Reference) where
  abbrev references : List Reference
  references = or_request input_references request_reference

  abbrev available : List String
  available = map (λ m. m.cell_id) manifests

  abbrev Expected : BuildError → Type 0
  Expected x = IsExpected policy catalog manifests g references x

  -- The manifest that stands under an identifier.
  abbrev Found : String → Manifest → Type 0
  Found id m = (by_key (λ x. x.cell_id) id manifests ≡ some m) × (m.cell_id ≡ id)

  manifest-Answers :
      (id : String)
      → mem id available ≡ true
      → Answers Expected (Found id) (manifest_by_cell manifests id)
  manifest-Answers id m =
      let (x, found, same) = by_key-found (λ (m : Manifest). m.cell_id) id manifests m in
      rw found (found, same)

  decision-Answers :
      (m : Manifest)
      → IsRegistered manifests m
      → Answers Expected (λ d. d.cell_id ≡ m.cell_id) (wrapped unplaced (place policy catalog m))
  decision-Answers m listed = go (place policy catalog m) refl
    where
      go :
          (r : Result PlacementError Decision)
          → place policy catalog m ≡ r
          → Answers Expected (λ d. d.cell_id ≡ m.cell_id) (wrapped unplaced r)
      go (err x) e = (m, listed, place-err policy catalog m x e)
      go (ok d) e = place-cell policy catalog m d e

  planned_node-Answers :
      (decisions : List Decision) (n : GraphNode)
      → mem n.cell_id available ≡ true
      → mem n.cell_id (map (λ d. d.cell_id) decisions) ≡ true
      → Answers Expected (λ x. graph_node x ≡ n) (planned_node manifests decisions references n)
  planned_node-Answers decisions n m k =
      let (x, found, same) = by_key-found (λ (m : Manifest). m.cell_id) n.cell_id manifests m in
      let (d, placed, _) = by_key-found (λ (d : Decision). d.cell_id) n.cell_id decisions k in
      elim (references_for_manifest_decides x.required_input_kinds references) [
        | inl (w, (rs, e, kinds, matched)) ↦
            rw (found, placed, e) (ap (λ id. record n { cell_id = id }) same)
        | inr (no_inputs, (message, e)) ↦ rw (found, placed, e) (x, (n.cell_id, found), no_inputs)
      ]

  graph-Answers :
      Answers Expected
        (λ v. Graph.IsWellFormed g (some available))
        (wrapped invalid_graph (validate_cell_graph_definition g (some available)))
  graph-Answers = elim (validate_decides g (some available)) [
    | inl (w, (levels, e, are)) ↦ rw e w
    | inr (malformed, (i, is, e)) ↦ rw e malformed
  ]

  plan-Answers :
      (p : Plan)
      → graph_nodes p.nodes ≡ g.nodes
      → p.input_references ≡ references
      → Answers Expected
          (λ v. (v.plan ≡ p) × IsWellFormed p)
          (wrapped invalid_plan (validate_execution_plan p))
  plan-Answers p same given = elim (validate_plan_decides p) [
    | inl (w, (levels, e, are)) ↦ rw e (refl, w)
    | inr (malformed, (i, is, e)) ↦ rw e (p, same, given, malformed)
  ]

  abbrev Built : Plan → Type 0
  Built p = IsBuilt manifests g p

  bind-Answers :
      {A B : Type 0} (Q : A → Type 0) (R : B → Type 0) (r : Result BuildError A)
      (f : A → Result BuildError B)
      → Answers Expected Q r
      → ((a : A) → Q a → Answers Expected R (f a))
      → Answers Expected R (r >>= f)
  bind-Answers Q R (err x) f q h = q
  bind-Answers Q R (ok a) f q h = h a q

  answer_cases :
      {A : Type 0} (Q : A → Type 0) (r : Result BuildError A)
      → Answers Expected Q r
      → ((a : A) × (r ≡ ok a) × Q a) ⊎ ((x : BuildError) × (r ≡ err x) × Expected x)
  answer_cases Q (err x) q = inr (x, refl, q)
  answer_cases Q (ok a) q = inl (a, refl, q)

  abbrev cells : List String
  cells = map (λ n. n.cell_id) g.nodes

  covered_ids :
      (ns : List GraphNode)
      → All (λ n. mem n.cell_id available ≡ true) ns
      → All (λ id. mem id available ≡ true) (map (λ n. n.cell_id) ns)
  covered_ids [] a = tt
  covered_ids (n ∷ ns) (m, a) = (m, covered_ids ns a)

  -- Building a plan returns a plan or raises. Where it returns, the graph is well formed with all
  -- its cells registered, the plan passes its validation, and its nodes are those of the graph. What
  -- it raises is one of: a non-empty list of issues of the graph, which is then not well formed; what
  -- the policy raises on a registered cell's candidates, or the refusal of its decision; an
  -- InputCompositionError, and then there is a registered cell whose inputs the references do not
  -- compose; a non-empty list of issues of a plan, which has the graph's nodes and the given
  -- references and is not well formed. No lookup of a manifest, of a decision or of a
  -- reference fails, and no validation runs out of fuel.
  pub build_answers :
      (plan_id target horizon : String)
      → ((p : Plan) × (build policy catalog manifests plan_id target horizon g input_references
              request_reference
            ≡ ok p)
          × IsBuilt manifests g p)
        ⊎ ((x : BuildError) × (build policy catalog manifests plan_id target horizon g
                input_references request_reference
              ≡ err x)
            × IsExpected policy catalog manifests g
                (or_request input_references request_reference)
                x)
  unfolding build
  build_answers plan_id target horizon =
      let plan = λ (nodes : List Node) (ds : List Decision).
        plan_of plan_id target horizon g nodes references ds in
      answer_cases Built _ (
        bind-Answers _ Built _ _ graph-Answers (λ v w.
          bind-Answers (Pairs Found (first_seen [] cells)) Built _ _
            (each_result-Answers Expected (λ id. mem id available ≡ true) Found
              (manifest_by_cell manifests) (first_seen [] cells) manifest-Answers
              (first_seen-All (λ id. mem id available ≡ true) [] cells
                (covered_ids g.nodes w.covered)))
            (λ ms placed.
              bind-Answers (Pairs (λ m d. d.cell_id ≡ m.cell_id) ms) Built _ _
                (each_result-Answers Expected (IsRegistered manifests)
                  (λ m d. d.cell_id ≡ m.cell_id) (λ m. wrapped unplaced (place policy catalog m)) ms
                  decision-Answers
                  (Pairs-All Found (IsRegistered manifests) (first_seen [] cells) ms
                    (λ id m (e, _). (id, e)) placed))
                (λ ds decided.
                  let same : map (λ d. d.cell_id) ds ≡ first_seen [] cells =
                    map-Pairs _ (λ d. d.cell_id) (λ m. m.cell_id) ms ds (λ m d e. e) decided
                    ∙ (map-Pairs _ (λ m. m.cell_id) (λ id. id) (first_seen [] cells) ms
                          (λ id m (_, e). e) placed
                        ∙ map_id (first_seen [] cells)) in
                  bind-Answers (Pairs (λ n x. graph_node x ≡ n) g.nodes) Built _ _
                    (each_result-Answers Expected
                      (λ n. (mem n.cell_id available ≡ true) × (mem n.cell_id cells ≡ true))
                      (λ n x. graph_node x ≡ n) (planned_node manifests ds references) g.nodes
                      (λ n (m, k).
                        planned_node-Answers ds n m
                          (ap (mem n.cell_id) same ∙ mem-first_seen_all n.cell_id cells k))
                      (All-both _ _ g.nodes w.covered (cells_listed g.nodes)))
                    (λ nodes paired.
                      bind-Answers (λ v. (v.plan ≡ plan nodes ds) × IsWellFormed (plan nodes ds))
                        Built _ _
                        (plan-Answers (plan nodes ds) (graph_nodes-Pairs g.nodes nodes paired) refl)
                        (λ v (e, good).
                          subst Built (sym e)
                            (w, good, graph_nodes-Pairs g.nodes nodes paired)))))))
    where
      map_id : (xs : List String) → map (λ id. id) xs ≡ xs
      map_id [] = refl
      map_id (x ∷ xs) = ap (λ ys. x ∷ ys) (map_id xs)
