-- ===== src/Execution/Validation/Uses.antt =====
-- What the lists that the validation builds say: which identifiers the nodes name, and the kinds of
-- the references of a node.
use market_cell.Prelude.{
  ◌||◌, ℕ, zero, suc, ◌≡◌, ◌↔◌, refl, ap, sym, ◌∙◌, subst, String, true, some, List, [], ◌∷◌, ◌++◌,
  mem, mem-append, find, get_elem?, arith, ◌==◌, eq_refl, Bool-cases, inl, inr,
}
use market_cell.Execution.Models.{Node}
use market_cell.Inputs.Models.{Reference, reference_ids}
use market_cell.Execution.Validation.{
  known_references, kinds_of, used_binding_ids, used_reference_ids,
}
use market_cell.Execution.Validation.WellFormed.{IsNamed, Carries, bindings_of, inputs_of}

-- A list that is gathered from the nodes holds what one of them names.
gathered_iff :
    (ids_of : Node → List String) (gather : List Node → List String)
    → gather [] ≡ []
    → ((n : Node) (ns : List Node) → gather (n ∷ ns) ≡ ids_of n ++ gather ns)
    → (ns : List Node) (id : String) → (mem id (gather ns) ≡ true) ↔ IsNamed ids_of ns id
gathered_iff ids_of gather nil cons [] id = (λ m. cc (rw nil at m), λ (i, n, found, m). cc)
gathered_iff ids_of gather nil cons (n ∷ ns) id =
    let (there, back) = gathered_iff ids_of gather nil cons ns id in
    let split = ap (mem id) (cons n ns) ∙ mem-append id (ids_of n) (gather ns) in
    (
      λ m. elim (Bool-cases (mem id (ids_of n))) [
        | inl here ↦ (zero, n, refl, here)
        | inr absent ↦
            let (i, x, found, k) = there (ground (arith, split, m, absent)) in (suc i, x, found, k)
      ],
      λ (i, x, found, k). split ∙ later i x found k back,
    )
  where
    later :
        (i : ℕ) (x : Node)
        → get_elem? (n ∷ ns) i ≡ some x
        → mem id (ids_of x) ≡ true
        → (IsNamed ids_of ns id → mem id (gather ns) ≡ true)
        → (mem id (ids_of n) || mem id (gather ns)) ≡ true
    later zero x found k back =
        let same : n ≡ x = cc found in
        let here : mem id (ids_of n) ≡ true = subst (λ y. mem id (ids_of y) ≡ true) (sym same) k in
        ground (arith, here)
    later (suc i) x found k back = ground (arith, back (i, x, found, k))

pub used_binding_iff :
    (ns : List Node) (id : String)
    → (mem id (used_binding_ids ns) ≡ true) ↔ IsNamed bindings_of ns id
used_binding_iff ns id = gathered_iff bindings_of used_binding_ids refl (λ n ns. refl) ns id

pub used_reference_iff :
    (ns : List Node) (id : String)
    → (mem id (used_reference_ids ns) ≡ true) ↔ IsNamed inputs_of ns id
used_reference_iff ns id = gathered_iff inputs_of used_reference_ids refl (λ n ns. refl) ns id

found_in :
    (id : String) (rs : List Reference)
    → mem id (reference_ids rs) ≡ true
    → (r : Reference) × (find (λ x. x.reference_id == id) rs ≡ some r)
found_in id [] m = cc
found_in id (r ∷ rs) m = elim (Bool-cases (r.reference_id == id)) [
  | inl e ↦ (r, rw e refl)
  | inr e ↦ let (x, f) = found_in id rs (ground (arith, m, e)) in (x, rw e f)
]

known_step :
    (rs : List Reference) (id : String) (ids : List String) (r : Reference)
    → find (λ x. x.reference_id == id) rs ≡ some r
    → kinds_of (known_references rs (id ∷ ids))
      ≡ (r.input_kind ∷ kinds_of (known_references rs ids))
known_step rs id ids r f = rw (known_references, f) refl

-- Where all are there, the kinds of the references are those listed exactly if each is.
pub carries_iff :
    (rs : List Reference) (ids kinds : List String)
    → ((j : String) → mem j ids ≡ true → mem j (reference_ids rs) ≡ true)
    → (kinds_of (known_references rs ids) ≡ kinds) ↔ Carries rs ids kinds
carries_iff rs [] [] known = (λ e. tt, λ c. refl)
carries_iff rs [] (kind ∷ kinds) known = (λ e. cc, λ c. absurd c)
carries_iff rs (id ∷ ids) [] known =
    let (r, f) = found_in id rs (known id (ground (arith, eq_refl id))) in
    let step = known_step rs id ids r f in (λ e. cc (step, e), λ c. absurd c)
carries_iff rs (id ∷ ids) (kind ∷ kinds) known =
    let (r, f) = found_in id rs (known id (ground (arith, eq_refl id))) in
    let (there, back) = carries_iff rs ids kinds (λ j m. known j (ground (arith, m))) in
    let step = known_step rs id ids r f in
    (
      λ e.
          let e' : (r.input_kind ∷ kinds_of (known_references rs ids)) ≡ (kind ∷ kinds) =
            sym step ∙ e in
          ((r, f, cc e'), there (cc e')),
      λ ((x, g, same), rest).
          let one : r ≡ x = cc (f, g) in step ∙ cc (ap (λ y. y.input_kind) one, same, back rest),
    )
