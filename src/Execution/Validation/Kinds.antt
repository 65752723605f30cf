-- ===== src/Execution/Validation/Kinds.antt =====
-- `_validate_node_input_kinds` finds nothing exactly where the referenced kinds are the required ones
-- in their order, without repetition and with the request.
use market_cell.Prelude.{
  ◌≡◌, ◌↔◌, refl, ap, sym, ◌∙◌, subst, String, true, false, not, ◌&&◌, List, [], ◌∷◌, keep,
  is_empty, mem, distinct, mem-distinct, sorted, mem-sorted, IsUnique, is_unique,
  is_unique→IsUnique, IsUnique→is_unique, count, once-IsUnique, count_of_IsUnique, is_empty-keep,
  length, leb, ltb, eq_refl, arith, issue_if, each, is_empty-issue_if_iff, is_empty-issue_if,
  is_empty-each_one, is_empty-gather, is_empty-each-mem, Bool-cases, inl, inr, none, some,
  get_elem?, not_counted,
}
use market_cell.Execution.Models.{Node}
use market_cell.Execution.Models.Codes.{same_texts, same_texts_refl, same_texts→eq}
use market_cell.Inputs.Models.{Reference}
use market_cell.Execution.Validation.{
  issue_of, node_issue, kinds_of, of_kind, reference_at, mismatch_index, difference, same_elements,
  input_kind_issues, missing_required_input_kind, unexpected_input_kind,
  duplicate_required_input_kind,
}

length-of_kind :
    (kind : String) (rs : List Reference) → length (of_kind kind rs) ≡ count kind (kinds_of rs)
length-of_kind kind [] = refl
length-of_kind kind (r ∷ rs) = ground (arith, length-of_kind kind rs)

is_empty-of_mem : (xs : List String) → ((j : String) → mem j xs ≡ false) → is_empty xs ≡ true
is_empty-of_mem [] h = refl
is_empty-of_mem (x ∷ xs) h = cc (h x, eq_refl x)

mem-nothing : (j : String) (xs : List String) → is_empty xs ≡ true → mem j xs ≡ false
mem-nothing j [] h = refl
mem-nothing j (x ∷ xs) h = cc

-- A set difference is empty where one set is a part of the other.
difference_iff :
    (xs ys : List String)
    → (is_empty (difference xs ys) ≡ true) ↔ ((j : String) → mem j xs ≡ true → mem j ys ≡ true)
difference_iff xs ys =
    let inside = λ (j : String). mem-sorted j (keep (λ x. not (mem x ys)) (distinct xs)) in
    let (there, back) = is_empty-keep (λ x. not (mem x ys)) (distinct xs) in
    (
      λ h j m. ground (
        arith,
        there
            (is_empty-of_mem (keep (λ x. not (mem x ys)) (distinct xs)) (λ i.
              sym (mem-sorted i (keep (λ x. not (mem x ys)) (distinct xs)))
              ∙ mem-nothing i (difference xs ys) h))
            j (mem-distinct j xs ∙ m),
      ),
      λ h. is_empty-of_mem (difference xs ys) (λ j.
          inside j
          ∙ mem-nothing j (keep (λ x. not (mem x ys)) (distinct xs))
              (back (λ i m. ap not (h i (sym (mem-distinct i xs) ∙ m))))),
    )

difference_self : (xs : List String) → is_empty (difference xs xs) ≡ true
difference_self xs = (difference_iff xs xs).1 (λ j m. m)

module _ (n : Node) (known : List Reference) where
  abbrev required : List String
  required = n.required_input_kinds

  abbrev referenced : List String
  referenced = kinds_of known

  -- At most one reference of each kind.
  at_most_once :
      (is_empty (
          each
            (λ kind. issue_if (not (leb (length (of_kind kind known)) 1)) (
              issue_of unexpected_input_kind
                (some n.node_id)
                none
                (reference_at (of_kind kind known) 1)
                none))
            (sorted (distinct referenced)))
        ≡ true)
      ↔ IsUnique referenced
  at_most_once =
      let (there, back) =
        is_empty-each-mem (λ kind. leb (length (of_kind kind known)) 1)
          (λ kind. issue_if (not (leb (length (of_kind kind known)) 1)) (
            issue_of unexpected_input_kind (some n.node_id) none
              (reference_at (of_kind kind known) 1) none))
          (sorted (distinct referenced))
          (λ kind.
            is_empty-issue_if (not (leb (length (of_kind kind known)) 1)) _ ∙ ground arith) in
      (
        λ h. once-IsUnique referenced (λ j. counted j (λ m.
            there h j (mem-sorted j (distinct referenced) ∙ (mem-distinct j referenced ∙ m)))),
        λ u. back (λ j m. ground (arith, length-of_kind j known, count_of_IsUnique j referenced u)),
      )
    where
      counted :
          (j : String)
          → (mem j referenced ≡ true → leb (length (of_kind j known)) 1 ≡ true)
          → ltb 1 (count j referenced) ≡ false
      counted j h = elim (Bool-cases (mem j referenced)) [
        | inl m ↦ ground (arith, h m, length-of_kind j known)
        | inr m ↦ ground (arith, not_counted j referenced m)
      ]

  -- The six checks together.
  pub input_kind_issues_iff :
      (is_empty (input_kind_issues n known) ≡ true)
      ↔ (IsUnique required × (mem "analysis_request" required ≡ true) × (referenced ≡ required))
  input_kind_issues_iff =
      let (there, back) = is_empty-gather (
        issue_if (not (is_unique required)) (node_issue duplicate_required_input_kind n)
        ∷ issue_if (not (mem "analysis_request" required))
            (node_issue missing_required_input_kind n)
        ∷ each (λ kind. node_issue missing_required_input_kind n ∷ [])
            (difference required referenced)
        ∷ each
            (λ kind.
              issue_of unexpected_input_kind (some n.node_id) none
                (reference_at (of_kind kind known) 0) none
              ∷ [])
            (difference referenced required)
        ∷ each
            (λ kind. issue_if (not (leb (length (of_kind kind known)) 1)) (
              issue_of unexpected_input_kind (some n.node_id) none
                (reference_at (of_kind kind known) 1) none))
            (sorted (distinct referenced))
        ∷ issue_if
            (is_unique required
              && (is_unique referenced
                  && (same_elements required referenced && not (same_texts required referenced))))
            (issue_of unexpected_input_kind (some n.node_id) none
              (get_elem? n.input_reference_ids (mismatch_index required referenced)) none)
        ∷ []) in
      (
        λ h.
            let (a, (b, (c, (d, (e, (f, _)))))) = there h in
            let unique : is_unique required ≡ true =
              ground (arith, (is_empty-issue_if_iff (not (is_unique required)) _).0 a) in
            let unique' = at_most_once.0 e in
            let same : same_elements required referenced ≡ true = ground (
              arith,
              sym (is_empty-each_one _ (difference required referenced)) ∙ c,
              sym (is_empty-each_one _ (difference referenced required)) ∙ d,
            ) in
            (
              is_unique→IsUnique required unique,
              ground (arith, (is_empty-issue_if_iff (not (mem "analysis_request" required)) _).0 b),
              sym (
                  same_texts→eq required referenced (
                    ground (
                      arith,
                      unique,
                      IsUnique→is_unique referenced unique',
                      same,
                      (is_empty-issue_if_iff _ _).0 f,
                    ))),
            ),
        λ (u, m, e).
            let same : same_texts required referenced ≡ true =
              subst (λ ks. same_texts required ks ≡ true) (sym e) (same_texts_refl required) in
            let empty = λ (xs ys : List String) (k : xs ≡ ys).
              subst (λ zs. is_empty (difference xs zs) ≡ true) k (difference_self xs) in
            back (
              (is_empty-issue_if_iff (not (is_unique required)) _).1
                  (ground (arith, IsUnique→is_unique required u)),
              (
                (is_empty-issue_if_iff (not (mem "analysis_request" required)) _).1
                    (ground (arith, m)),
                (
                  is_empty-each_one _ (difference required referenced)
                      ∙ empty required referenced (sym e),
                  (
                    is_empty-each_one _ (difference referenced required)
                        ∙ empty referenced required e,
                    (
                      at_most_once.1 (subst IsUnique (sym e) u),
                      ((is_empty-issue_if_iff _ _).1 (ground (arith, same)), tt),
                    ),
                  ),
                ),
              ),
            ),
      )
