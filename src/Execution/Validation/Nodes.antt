-- ===== src/Execution/Validation/Nodes.antt =====
-- The checks of one node and of its bindings find nothing exactly on a node that is well formed.
use market_cell.Prelude.{
  ◌≡◌, ◌≢◌, ◌↔◌, refl, ap, sym, ◌∙◌, String, Bool, true, false, not, ◌&&◌, Option, none, some, List,
  [], ◌∷◌, is_empty, is_empty-issue_if_iff, is_empty-issue_if, is_empty-each-mem, is_empty-gather,
  find, mem, is_unique, IsUnique, is_unique→IsUnique, IsUnique→is_unique, issue_if, each, arith,
  ◌==◌, eq_iff, is_empty-append,
}
use market_cell.Execution.Models.{Node, Binding, binding_id}
use market_cell.Execution.Plans.{graph_node, graph_nodes}
use market_cell.Inputs.Models.{Reference, reference_ids}
use market_cell.Execution.Validation.{
  Issue, issue_of, node_issue, dependency_issues, bound_issues, validate_node_binding,
  validate_node, validate_node_input_kinds, known_references, leaf_has_dependencies,
  duplicate_dependency, missing_node_input_reference, duplicate_node_input_reference,
  missing_input_reference, duplicate_fallback_binding, primary_binding_in_fallback,
}
use market_cell.Execution.Validation.WellFormed.{IsBound, IsExecutable}
use market_cell.Execution.Validation.Uses.{carries_iff}
use market_cell.Execution.Validation.Kinds.{input_kind_issues_iff}
use market_cell.Execution.Validation.Structure.{dependencies_iff}
use market_cell.Graph.Validation as Graph
use market_cell.Graph.Validation.{is_leaf}
use market_cell.Graph.Validation.WellFormed.{IsNode}

-- Both comparisons with the node hold.
abbrev fits : Node → Option Binding → Bool
fits n none = false
fits n (some b) = (n.cell_id == b.cell_id) && (n.formula_version == b.formula_version)

is_empty-bound_issues :
    (n : Node) (fallback : Bool) (id : String) (o : Option Binding)
    → is_empty (bound_issues n fallback id o) ≡ fits n o
is_empty-bound_issues n fallback id none = refl
is_empty-bound_issues n fallback id (some b) =
    is_empty-append (issue_if (not (n.cell_id == b.cell_id)) _)
      (issue_if (not (n.formula_version == b.formula_version)) _)
    ∙ ground (
      arith,
      is_empty-issue_if {I = Issue} (not (n.cell_id == b.cell_id)) _,
      is_empty-issue_if {I = Issue} (not (n.formula_version == b.formula_version)) _,
    )

fits_iff :
    (bindings : List Binding) (n : Node) (id : String) (o : Option Binding)
    → find (λ b. binding_id b == id) bindings ≡ o
    → (fits n o ≡ true) ↔ IsBound bindings n id
fits_iff bindings n id none e = (λ h. cc, λ w. cc (e, w.found))
fits_iff bindings n id (some b) e = (
  λ h. record {
    binding = b;
    found = e;
    cell = (eq_iff n.cell_id b.cell_id).0 (ground (arith, h));
    version = (eq_iff n.formula_version b.formula_version).0 (ground (arith, h));
  },
  λ w.
      let same : w.binding ≡ b = cc (w.found, e) in
      ground (
        arith,
        (eq_iff n.cell_id b.cell_id).1 (w.cell ∙ ap (λ c. c.cell_id) same),
        (eq_iff n.formula_version b.formula_version).1
            (w.version ∙ ap (λ c. c.formula_version) same),
      ),
)

module _ (bindings : List Binding) (n : Node) where
  bound : String → Bool
  bound id = fits n (find (λ b. binding_id b == id) bindings)

  bound_iff : (id : String) → (bound id ≡ true) ↔ IsBound bindings n id
  unfolding bound
  bound_iff id = fits_iff bindings n id _ refl

  is_empty-validate_node_binding :
      (fallback : Bool) (id : String)
      → is_empty (validate_node_binding n bindings fallback id) ≡ bound id
  unfolding bound
  is_empty-validate_node_binding fallback id = is_empty-bound_issues n fallback id _

not_iff : (b : Bool) → (not b ≡ false) ↔ (b ≡ true)
not_iff true = (λ e. refl, λ e. refl)
not_iff false = (λ e. cc, λ e. cc)

pub issue_unless_iff : (b : Bool) (i : Issue) → (is_empty (issue_if (not b) i) ≡ true) ↔ (b ≡ true)
issue_unless_iff b i =
    let (a, c) = is_empty-issue_if_iff (not b) i in
    let (d, e) = not_iff b in (λ h. d (a h), λ h. c (e h))

unique_iff :
    (xs : List String) (i : Issue)
    → (is_empty (issue_if (not (is_unique xs)) i) ≡ true) ↔ IsUnique xs
unique_iff xs i =
    let (a, c) = issue_unless_iff (is_unique xs) i in
    (λ h. is_unique→IsUnique xs (a h), λ h. c (IsUnique→is_unique xs h))

some_iff : (xs : List String) (i : Issue) → (is_empty (issue_if (is_empty xs) i) ≡ true) ↔ (xs ≢ [])
some_iff [] i = (λ e. cc, λ e. absurd (e refl))
some_iff (x ∷ xs) i = (λ e k. cc, λ e. refl)

module _ (nodes : List Node) (bindings : List Binding) (references : List Reference)
    (n : Node) where
  abbrev missing_reference : String → List Issue
  missing_reference id =
      issue_if (not (mem id (reference_ids references)))
        (issue_of missing_input_reference (some n.node_id) none (some id) none)

  known_iff : (is_empty (each missing_reference n.input_reference_ids) ≡ true) ↔ (
      (j : String) → mem j n.input_reference_ids ≡ true → mem j (reference_ids references) ≡ true)
  known_iff =
      is_empty-each-mem (λ id. mem id (reference_ids references)) missing_reference
        n.input_reference_ids
        (λ id. is_empty-issue_if (not (mem id (reference_ids references))) _ ∙ ground arith)

  fallbacks_iff :
      (is_empty (each (validate_node_binding n bindings true) n.fallback_binding_ids) ≡ true)
      ↔ ((j : String) → mem j n.fallback_binding_ids ≡ true → IsBound bindings n j)
  fallbacks_iff =
      let (there, back) =
        is_empty-each-mem (bound bindings n) (validate_node_binding n bindings true)
          n.fallback_binding_ids (is_empty-validate_node_binding bindings n true) in
      (
        λ h j m. (bound_iff bindings n j).0 (there h j m),
        λ w. back (λ j m. (bound_iff bindings n j).1 (w j m)),
      )

  pub validate_node_iff : (is_empty (validate_node nodes bindings references n) ≡ true) ↔ (
      IsNode (Graph.node_ids (graph_nodes nodes)) (graph_node n)
      × IsExecutable bindings references n)
  validate_node_iff =
      let leaf = node_issue leaf_has_dependencies n in
      let repeated = node_issue duplicate_dependency n in
      let (there, back) = is_empty-gather (
        issue_if (is_leaf n.execution_role && not (is_empty n.dependencies)) leaf
        ∷ issue_if (not (is_unique n.dependencies)) repeated
        ∷ issue_if (is_empty n.input_reference_ids) (node_issue missing_node_input_reference n)
        ∷ issue_if (not (is_unique n.input_reference_ids))
            (node_issue duplicate_node_input_reference n)
        ∷ each missing_reference n.input_reference_ids
        ∷ validate_node_input_kinds n references
        ∷ each (dependency_issues nodes n) n.dependencies
        ∷ issue_if (not (is_unique n.fallback_binding_ids))
            (node_issue duplicate_fallback_binding n)
        ∷ issue_if (mem n.binding_id n.fallback_binding_ids)
            (issue_of primary_binding_in_fallback (some n.node_id) (some n.binding_id) none none)
        ∷ validate_node_binding n bindings false n.binding_id
        ∷ each (validate_node_binding n bindings true) n.fallback_binding_ids
        ∷ []) in
      let deps = dependencies_iff nodes n leaf repeated in
      let some_input = some_iff n.input_reference_ids (node_issue missing_node_input_reference n) in
      let inputs = unique_iff n.input_reference_ids (node_issue duplicate_node_input_reference n) in
      let kinds = input_kind_issues_iff n (known_references references n.input_reference_ids) in
      let fallbacks = unique_iff n.fallback_binding_ids (node_issue duplicate_fallback_binding n) in
      let primary =
        is_empty-issue_if_iff (mem n.binding_id n.fallback_binding_ids)
          (issue_of primary_binding_in_fallback (some n.node_id) (some n.binding_id) none none) in
      let same = is_empty-validate_node_binding bindings n false n.binding_id in
      (
        λ e.
            let (a, (b, (c, (d, (k, (i, (g, (f, (p, (q, (r, _))))))))))) = there e in
            let (required, request, same_kinds) = kinds.0 i in
            let known = known_iff.0 k in
            (
              deps.0 (a, b, g),
              record {
                some_input = some_input.0 c;
                inputs = inputs.0 d;
                known = known;
                required = required;
                request = request;
                kinds =
                    (carries_iff references n.input_reference_ids n.required_input_kinds known).0
                      same_kinds;
                fallbacks = fallbacks.0 f;
                primary = primary.0 p;
                bound = (bound_iff bindings n n.binding_id).0 (sym same ∙ q);
                fallbacks_bound = fallbacks_iff.0 r;
              },
            ),
        λ (node_ok, w).
            let (a, b, g) = deps.1 node_ok in
            back (
              a,
              (
                b,
                (
                  some_input.1 w.some_input,
                  (
                    inputs.1 w.inputs,
                    (
                      known_iff.1 w.known,
                      (
                        kinds.1 (
                          w.required,
                          w.request,
                          (carries_iff references n.input_reference_ids n.required_input_kinds
                                w.known).1
                              w.kinds,
                        ),
                        (
                          g,
                          (
                            fallbacks.1 w.fallbacks,
                            (
                              primary.1 w.primary,
                              (
                                same ∙ (bound_iff bindings n n.binding_id).1 w.bound,
                                (fallbacks_iff.1 w.fallbacks_bound, tt),
                              ),
                            ),
                          ),
                        ),
                      ),
                    ),
                  ),
                ),
              ),
            ),
      )
