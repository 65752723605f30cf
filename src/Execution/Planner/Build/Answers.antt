-- ===== src/Execution/Planner/Build/Answers.antt =====
-- Steps of `build` that return or raise, and the lists that they are mapped over.
use market_cell.Prelude.{
  by_key, ◌⊎◌, ◌≡◌, inl, inr, refl, ap, String, true, ◌||◌, some, List, [], ◌∷◌, map, mem, All,
  Result, ok, err, ◌>>=◌, Bool-cases, eq_iff, eq_refl, arith,
}
use market_cell.Execution.Models.{Node, Binding}
use market_cell.Graph.Models.{GraphNode, Graph}
use market_cell.Graph.Validation as GraphValidation
use market_cell.Graph.Validation.{validate_cell_graph_definition}
use market_cell.Graph.Validation.WellFormed as Graph
use market_cell.Execution.Placement.{Manifest, Decision, PlacementError}
use market_cell.Execution.Catalog.{candidates_for}
use market_cell.Execution.Planner.{composition, invalid_decision}
use market_cell.Execution.Planner.Inputs.{IsComposable}
use market_cell.Inputs.Models.{Reference}
use market_cell.Execution.Planner.Build.{
  BuildError, invalid_graph, unplaced, uncomposed, invalid_plan, each_result, first_seen,
}
use market_cell.Execution.Plans.{Plan, graph_node, graph_nodes}
use market_cell.Execution.Validation as PlanValidation
use market_cell.Execution.Validation.WellFormed.{IsWellFormed}
use market_cell.Execution.Validation.{validate_execution_plan}

-- The manifest of some registered cell.
abbrev pub IsRegistered : List Manifest → Manifest → Type 0
IsRegistered manifests m = (id : String) × (by_key (λ x. x.cell_id) id manifests ≡ some m)

-- The exceptions that callers see, and when: the graph is not well formed; the policy raises, or its
-- decision is refused; the references do not compose the inputs of a cell; a plan of the graph's nodes
-- is not well formed. Never a missing key or an index out of range, and never an empty list of issues.
abbrev pub IsExpected :
    (Manifest → List Binding → Result PlacementError Decision)
    → List Binding
    → List Manifest
    → Graph
    → List Reference
    → BuildError
    → Type 0
IsExpected policy catalog manifests g references
      (invalid_graph (GraphValidation.invalid (i ∷ is))) =
    ¬ Graph.IsWellFormed g (some (map (λ m. m.cell_id) manifests))
IsExpected policy catalog manifests g references (unplaced e) =
    (m : Manifest) × IsRegistered manifests m
    × ((policy m (candidates_for m catalog) ≡ err e)
        ⊎ ((d : Decision) × (policy m (candidates_for m catalog) ≡ ok d) × (e ≡ invalid_decision)))
IsExpected policy catalog manifests g references (uncomposed (composition message)) =
    (m : Manifest) × IsRegistered manifests m × ¬ IsComposable m.required_input_kinds references
IsExpected policy catalog manifests g references (invalid_plan (PlanValidation.invalid (i ∷ is))) =
    (p : Plan) × (graph_nodes p.nodes ≡ g.nodes)
    × (p.input_references ≡ references)
    × ¬ IsWellFormed p
IsExpected policy catalog manifests g references _ = ⊥

abbrev pub Pairs : {A B : Type 0} → (A → B → Type 0) → List A → List B → Type 0
Pairs Q [] [] = Unit
Pairs Q (x ∷ xs) (y ∷ ys) = Q x y × Pairs Q xs ys
Pairs Q _ _ = ⊥

pub Pairs-All :
    {A B : Type 0} (Q : A → B → Type 0) (P : B → Type 0) (xs : List A) (ys : List B)
    → ((x : A) (y : B) → Q x y → P y)
    → Pairs Q xs ys
    → All P ys
Pairs-All Q P [] [] h q = tt
Pairs-All Q P [] (y ∷ ys) h q = absurd q
Pairs-All Q P (x ∷ xs) [] h q = absurd q
Pairs-All Q P (x ∷ xs) (y ∷ ys) h (q, qs) = (h x y q, Pairs-All Q P xs ys h qs)

-- A step returns a value of this kind, or raises an expected exception.
abbrev pub Answers :
    {A : Type 0} → (BuildError → Type 0) → (A → Type 0) → Result BuildError A → Type 0
Answers E Q (ok a) = Q a
Answers E Q (err x) = E x

pub each_result-Answers :
    {A B : Type 0} (E : BuildError → Type 0) (P : A → Type 0) (Q : A → B → Type 0)
    (f : A → Result BuildError B) (xs : List A)
    → ((x : A) → P x → Answers E (Q x) (f x))
    → All P xs
    → Answers E (Pairs Q xs) (each_result f xs)
each_result-Answers E P Q f [] h a = tt
each_result-Answers E P Q f (x ∷ xs) h (p, ps) =
    first (f x) (h x p) (each_result-Answers E P Q f xs h ps)
  where
    rest :
        (y : _)
        → Q x y
        → (zs : Result BuildError (List _)) → Answers E (Pairs Q xs) zs
        → Answers E (Pairs Q (x ∷ xs)) (zs >>= λ ys. ok (y ∷ ys))
    rest y q (err e) w = w
    rest y q (ok ys) w = (q, w)

    first :
        (y : Result BuildError _)
        → Answers E (Q x) y
        → Answers E (Pairs Q xs) (each_result f xs)
        → Answers E (Pairs Q (x ∷ xs)) (y >>= λ z. each_result f xs >>= λ ys. ok (z ∷ ys))
    first (err e) w r = w
    first (ok y) q r = rest y q (each_result f xs) r

pub first_seen-All :
    (P : String → Type 0) (seen xs : List String) → All P xs → All P (first_seen seen xs)
first_seen-All P seen [] a = tt
first_seen-All P seen (x ∷ xs) (p, ps) = elim (Bool-cases (mem x seen)) [
  | inl e ↦ rw e (first_seen-All P (x ∷ seen) xs ps)
  | inr e ↦ rw e (p, first_seen-All P (x ∷ seen) xs ps)
]

mem-first_seen :
    (j : String) (seen xs : List String)
    → (mem j (first_seen seen xs) || mem j seen) ≡ (mem j xs || mem j seen)
mem-first_seen j seen [] = refl
mem-first_seen j seen (x ∷ xs) =
    ground (arith, mem-first_seen j (x ∷ seen) xs, ap (λ i. mem i seen) ((eq_iff x j).0 _))

pub mem-first_seen_all :
    (j : String) (xs : List String) → mem j xs ≡ true → mem j (first_seen [] xs) ≡ true
mem-first_seen_all j xs m = ground (arith, mem-first_seen j [] xs, m)

pub cells_listed :
    (ns : List GraphNode) → All (λ n. mem n.cell_id (map (λ x. x.cell_id) ns) ≡ true) ns
cells_listed ns = go ns ns (λ j m. m)
  where
    go :
        (all' xs : List GraphNode)
        → ((j : String)
            → mem j (map (λ x. x.cell_id) xs) ≡ true
            → mem j (map (λ x. x.cell_id) all') ≡ true)
        → All (λ n. mem n.cell_id (map (λ x. x.cell_id) all') ≡ true) xs
    go all' [] h = tt
    go all' (x ∷ xs) h = (
      h x.cell_id (ground (arith, eq_refl x.cell_id)),
      go all' xs (λ j m. h j (ground (arith, m))),
    )

pub map-Pairs :
    {A B : Type 0} (Q : A → B → Type 0) (f : B → String) (g : A → String) (xs : List A)
    (ys : List B)
    → ((x : A) (y : B) → Q x y → f y ≡ g x)
    → Pairs Q xs ys
    → map f ys ≡ map g xs
map-Pairs Q f g [] [] h q = refl
map-Pairs Q f g [] (y ∷ ys) h q = absurd q
map-Pairs Q f g (x ∷ xs) [] h q = absurd q
map-Pairs Q f g (x ∷ xs) (y ∷ ys) h (q, qs) = cc (h x y q, map-Pairs Q f g xs ys h qs)

pub graph_nodes-Pairs :
    (xs : List GraphNode) (ys : List Node)
    → Pairs (λ x y. graph_node y ≡ x) xs ys
    → graph_nodes ys ≡ xs
graph_nodes-Pairs [] [] q = refl
graph_nodes-Pairs [] (y ∷ ys) q = absurd q
graph_nodes-Pairs (x ∷ xs) [] q = absurd q
graph_nodes-Pairs (x ∷ xs) (y ∷ ys) (q, qs) = cc (q, graph_nodes-Pairs xs ys qs)
