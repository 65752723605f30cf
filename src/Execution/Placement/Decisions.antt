-- ===== src/Execution/Placement/Decisions.antt =====
-- A selection over distinct bindings, one of them compatible, returns a decision.
use market_cell.Prelude.{
  ℕ, zero, suc, get_elem?, ◌≡◌, refl, sym, ◌∙◌, subst, String, Bool, true, false, not, ◌||◌, List,
  [], ◌∷◌, map, keep, any, All, All-weaken, mem, IsUnique, IsUnique→is_unique, is_empty, sort_by,
  mem-sort_by, sort_by-IsUnique, All-sort_by, ◌==◌, eq_refl, arith, Bool-cases, inl, inr, Result,
  ok, ◌>>=◌, ◌>>◌, raise_if-false, all, ap, some,
}
use market_cell.Execution.Models.{Binding, binding_id, binding_ids}
use market_cell.Execution.Placement.{
  PlacementError, unavailable, value_checked, Policy, Manifest, Entry, Evaluation, Decision,
  evaluate, evaluation_ids, evaluation_le, is_compatible, is_unhealthy, selection_pool, or_else,
  decide, decision_of, check_decision, select, reason_codes, binding_at, bindings_at, lookup,
}
use market_cell.Execution.Placement.Ranks.{IsOrdered, sort_by-IsOrdered}
use market_cell.Execution.Placement.Selection.{
  bindings_at-ok, evaluations-HasLatency, reason_codes-ok, HasLatency, binding_at-ok, lookup_self,
}

-- One of the evaluations itself.
abbrev pub IsMember : Evaluation → List Evaluation → Type 0
IsMember e es = (i : ℕ) × (get_elem? es i ≡ some e)

-- The evaluations behind the bindings of a decision, in their order.
pub record IsSelection (candidates : List Binding) (evaluations : List Evaluation) (d : Decision)
    : Type 0 where
  pub ranked : List Evaluation
  pub drawn : All (λ e. IsMember e evaluations) ranked
  pub same_bindings : evaluation_ids ranked ≡ binding_ids (d.selected_binding ∷ d.fallback_bindings)
  pub ordered : IsOrdered ranked
  -- They are the candidates themselves.
  pub found :
      All
        (λ b. lookup (binding_id b) candidates ≡ some b)
        (d.selected_binding ∷ d.fallback_bindings)
  -- Those that are not unhealthy, or all where each is.
  pub members :
      (j : String)
      → mem j (evaluation_ids ranked)
        ≡ mem j (
            evaluation_ids
              (keep (λ e. not (is_unhealthy e) || all is_unhealthy evaluations) evaluations))
  pub avoided :
      any (λ e. not (is_unhealthy e)) evaluations ≡ true → All (λ e. is_unhealthy e ≡ false) ranked

All-IsMember : (es : List Evaluation) → All (λ e. IsMember e es) es
All-IsMember [] = tt
All-IsMember (e ∷ es) =
    ((zero, refl), All-weaken es (λ x (i, found). (suc i, found)) (All-IsMember es))

All-kept :
    (P : Evaluation → Type 0) (q : Evaluation → Bool) (es : List Evaluation)
    → All P es
    → All P (keep q es)
All-kept P q [] h = tt
All-kept P q (e ∷ es) (h, hs) = elim (Bool-cases (q e)) [
  | inl t ↦ rw t (h, All-kept P q es hs)
  | inr t ↦ rw t (All-kept P q es hs)
]

pool_members : (es : List Evaluation) → All (λ e. IsMember e es) (selection_pool es)
pool_members es =
    go (keep (λ e. not (is_unhealthy e)) es)
      (All-kept (λ e. IsMember e es) (λ e. not (is_unhealthy e)) es (All-IsMember es))
  where
    go :
        (kept : List Evaluation)
        → All (λ e. IsMember e es) kept
        → All (λ e. IsMember e es) (or_else kept es)
    go [] h = All-IsMember es
    go (x ∷ xs) h = h

ids-evaluate :
    (p : Policy) (entries : List Entry) (bs : List Binding)
    → evaluation_ids (map (evaluate p entries) bs) ≡ binding_ids bs
ids-evaluate p entries [] = refl
ids-evaluate p entries (b ∷ bs) = rw (ids-evaluate p entries bs) refl

mem-ids_keep :
    {A : Type 0} (f : A → String) (q : A → Bool) (j : String) (xs : List A)
    → mem j (map f (keep q xs)) ≡ true
    → mem j (map f xs) ≡ true
mem-ids_keep f q j [] h = h
mem-ids_keep f q j (x ∷ xs) h = ground (arith, h, mem-ids_keep f q j xs)

pub keep-ids_IsUnique :
    {A : Type 0} (f : A → String) (q : A → Bool) (xs : List A)
    → IsUnique (map f xs)
    → IsUnique (map f (keep q xs))
keep-ids_IsUnique f q [] u = tt
keep-ids_IsUnique f q (x ∷ xs) u =
    ground (arith, keep-ids_IsUnique f q xs u.1, mem-ids_keep f q (f x) xs)

pub All-keep : {A : Type 0} (q : A → Bool) (xs : List A) → All (λ x. q x ≡ true) (keep q xs)
All-keep q [] = tt
All-keep q (x ∷ xs) = elim (Bool-cases (q x)) [
  | inl e ↦ rw e (e, All-keep q xs)
  | inr e ↦ rw e (All-keep q xs)
]

-- The pool: all evaluations, or those that are not unhealthy where there is one.
pool-IsUnique :
    (es : List Evaluation)
    → IsUnique (evaluation_ids es)
    → IsUnique (evaluation_ids (selection_pool es))
pool-IsUnique es u =
    go (keep (λ e. not (is_unhealthy e)) es)
      (keep-ids_IsUnique (λ e. e.binding_id) (λ e. not (is_unhealthy e)) es u)
  where
    go :
        (ks : List Evaluation)
        → IsUnique (evaluation_ids ks)
        → IsUnique (evaluation_ids (or_else ks es))
    go [] v = u
    go (k ∷ ks) v = v

mem-pool :
    (es : List Evaluation) (j : String)
    → mem j (evaluation_ids (selection_pool es)) ≡ true
    → mem j (evaluation_ids es) ≡ true
mem-pool es j =
    go (keep (λ e. not (is_unhealthy e)) es)
      (mem-ids_keep (λ e. e.binding_id) (λ e. not (is_unhealthy e)) j es)
  where
    go :
        (ks : List Evaluation)
        → (mem j (evaluation_ids ks) ≡ true → mem j (evaluation_ids es) ≡ true)
        → mem j (evaluation_ids (or_else ks es)) ≡ true
        → mem j (evaluation_ids es) ≡ true
    go [] h k = k
    go (x ∷ xs) h k = h k

pool-avoids :
    (es : List Evaluation)
    → any (λ e. not (is_unhealthy e)) es ≡ true
    → All (λ e. is_unhealthy e ≡ false) (selection_pool es)
pool-avoids es h =
    go (keep (λ e. not (is_unhealthy e)) es) (kept es h)
      (All-weaken _ (λ e k. ground (arith, k)) (All-keep (λ e. not (is_unhealthy e)) es))
  where
    kept :
        (xs : List Evaluation)
        → any (λ e. not (is_unhealthy e)) xs ≡ true
        → is_empty (keep (λ e. not (is_unhealthy e)) xs) ≡ false
    kept [] h = cc
    kept (x ∷ xs) h = ground (arith, h, kept xs)

    go :
        (ks : List Evaluation)
        → is_empty ks ≡ false
        → All (λ e. is_unhealthy e ≡ false) ks
        → All (λ e. is_unhealthy e ≡ false) (or_else ks es)
    go [] f a = cc
    go (x ∷ xs) f a = a

pool-some : (es : List Evaluation) → is_empty es ≡ false → is_empty (selection_pool es) ≡ false
pool-some es f = go (keep (λ e. not (is_unhealthy e)) es)
  where
    go : (ks : List Evaluation) → is_empty (or_else ks es) ≡ false
    go [] = f
    go (x ∷ xs) = refl

any-false : {A : Type 0} (q : A → Bool) (xs : List A) → All (λ x. q x ≡ false) xs → any q xs ≡ false
any-false q [] h = refl
any-false q (x ∷ xs) (h, hs) = ground (arith, h, any-false q xs hs)

ids_known :
    (xs ys : List String)
    → ((j : String) → mem j xs ≡ true → mem j ys ≡ true)
    → All (λ id. not (mem id ys) ≡ false) xs
ids_known [] ys h = tt
ids_known (x ∷ xs) ys h =
    (ground (arith, h x, eq_refl x), ids_known xs ys (λ j k. h j (ground (arith, k))))

is_empty-ids :
    (j : String) (es : List Evaluation) → mem j (evaluation_ids es) ≡ true → is_empty es ≡ false
is_empty-ids j [] h = cc
is_empty-ids j (e ∷ es) h = refl

check_decision-ok :
    (m : Manifest) (es : List Evaluation) (selected : Binding) (fallbacks : List Binding)
    (reasons : List String)
    → IsUnique (evaluation_ids es)
    → IsUnique (binding_ids (selected ∷ fallbacks))
    → All (λ b. is_compatible m b ≡ true) (selected ∷ fallbacks)
    → ((j : String)
        → mem j (binding_ids (selected ∷ fallbacks)) ≡ true
        → mem j (evaluation_ids es) ≡ true)
    → check_decision (decision_of m es selected fallbacks reasons) ≡ ok tt
unfolding check_decision
check_decision-ok m es selected fallbacks reasons u v compatible known =
    let bs = selected ∷ fallbacks in
    let sorted' = sort_by evaluation_le es in
    let inside = λ (j : String) (k : mem j (binding_ids bs) ≡ true).
      mem-sort_by evaluation_le (λ e. e.binding_id) j es ∙ known j k in
    let unique_ids = IsUnique→is_unique (binding_ids bs) v in
    let same_cell =
      any-false (λ b. not (b.cell_id == m.cell_id) || not (b.formula_version == m.formula_version))
        bs (All-weaken bs (λ b k. ground (arith, k)) compatible) in
    let some_evaluation =
      is_empty-ids (binding_id selected) sorted'
        (inside (binding_id selected) (ground (arith, eq_refl (binding_id selected)))) in
    let unique_evaluations =
      IsUnique→is_unique (evaluation_ids sorted')
        (sort_by-IsUnique evaluation_le (λ e. e.binding_id) es u) in
    let none_missing =
      any-false (λ id. not (mem id (evaluation_ids sorted'))) (binding_ids bs)
        (ids_known (binding_ids bs) (evaluation_ids sorted') inside) in
    rw (unique_ids, same_cell, some_evaluation, unique_evaluations, none_missing) refl

All-pair :
    {A : Type 0} (P Q : A → Type 0) (xs : List A) → All P xs → All Q xs → All (λ x. P x × Q x) xs
All-pair P Q [] p q = tt
All-pair P Q (x ∷ xs) (p, ps) (q, qs) = ((p, q), All-pair P Q xs ps qs)

ids_All :
    (xs : List Evaluation) (ys : List String)
    → ((j : String) → mem j (evaluation_ids xs) ≡ true → mem j ys ≡ true)
    → All (λ e. mem e.binding_id ys ≡ true) xs
ids_All [] ys h = tt
ids_All (x ∷ xs) ys h = (
  h x.binding_id (ground (arith, eq_refl x.binding_id)),
  ids_All xs ys (λ j k. h j (ground (arith, k))),
)

module _ (m : Manifest) (candidates : List Binding) (es : List Evaluation) where
  -- The evaluations are those of distinct, compatible candidates.
  record AreEvaluated : Type 0 where
    same_ids : evaluation_ids es ≡ binding_ids candidates
    unique : IsUnique (evaluation_ids es)
    compatible : All (λ b. is_compatible m b ≡ true) candidates
    latency : All HasLatency es
    some_evaluation : is_empty es ≡ false

  decide-ok :
      AreEvaluated
      → (ranked : List Evaluation) → is_empty ranked ≡ false
      → IsUnique (evaluation_ids ranked)
      → ((j : String) → mem j (evaluation_ids ranked) ≡ true → mem j (evaluation_ids es) ≡ true)
      → (d : Decision) × (decide m candidates es ranked ≡ ok d)
        × (check_decision d ≡ ok tt)
        × (evaluation_ids ranked ≡ binding_ids (d.selected_binding ∷ d.fallback_bindings))
        × All
            (λ b. lookup (binding_id b) candidates ≡ some b)
            (d.selected_binding ∷ d.fallback_bindings)
  decide-ok w [] f u k = cc
  decide-ok w (best ∷ rest) f u k =
      let P =
        λ (b : Binding). (is_compatible m b ≡ true) × (lookup (binding_id b) candidates ≡ some b) in
      let all_known =
        All-pair _ _ candidates w.compatible
          (lookup_self candidates (subst IsUnique w.same_ids w.unique)) in
      let known = λ (j : String) (l : mem j (evaluation_ids (best ∷ rest)) ≡ true).
        subst (λ ids. mem j ids ≡ true) w.same_ids (k j l) in
      let (a, as') = ids_All (best ∷ rest) (binding_ids candidates) known in
      let (b, e, i, c) = binding_at-ok P candidates best.binding_id all_known a in
      let (bs, e', i', c') = bindings_at-ok P candidates rest all_known as' in
      let (reasons, e'') = reason_codes-ok best es w.latency w.some_evaluation in
      let same : evaluation_ids (best ∷ rest) ≡ binding_ids (b ∷ bs) = cc (i, i') in
      let passes =
        check_decision-ok m es b bs reasons w.unique (subst IsUnique same u)
          (c.0, All-weaken bs (λ x y. y.0) c')
          (λ j l. k j (subst (λ ids. mem j ids ≡ true) (sym same) l)) in
      (
        decision_of m es b bs reasons,
        chain (binding_at candidates best.binding_id) (bindings_at candidates rest)
            (reason_codes best es) e e' e'' passes,
        passes,
        same,
        (c.1, All-weaken bs (λ x y. y.1) c'),
      )
    where
      chain :
          (x : Result PlacementError Binding) (y : Result PlacementError (List Binding))
          (z : Result PlacementError (List String)) {b : Binding} {bs : List Binding}
          {reasons : List String}
          → x ≡ ok b
          → y ≡ ok bs
          → z ≡ ok reasons
          → check_decision (decision_of m es b bs reasons) ≡ ok tt
          → (x >>= λ b. y >>= λ bs. z >>= λ reasons.
              value_checked (check_decision (decision_of m es b bs reasons))
              >> ok (decision_of m es b bs reasons))
            ≡ ok (decision_of m es b bs reasons)
      chain x y z e f g h = rw (e, f, g, h) refl

evaluated :
    (p : Policy) (m : Manifest) (entries : List Entry) (given : List Binding)
    → IsUnique (binding_ids given)
    → is_empty (keep (is_compatible m) given) ≡ false
    → AreEvaluated m
        (keep (is_compatible m) given)
        (map (evaluate p entries) (keep (is_compatible m) given))
evaluated p m entries given u f =
    let candidates = keep (is_compatible m) given in
    let same = ids-evaluate p entries candidates in
    record {
      same_ids = same;
      unique =
          subst IsUnique (sym same)
            (keep-ids_IsUnique (λ b. binding_id b) (is_compatible m) given u);
      compatible = All-keep (is_compatible m) given;
      latency = evaluations-HasLatency p entries candidates;
      some_evaluation = is_empty-map candidates f;
    }
  where
    is_empty-map :
        (bs : List Binding) → is_empty bs ≡ false → is_empty (map (evaluate p entries) bs) ≡ false
    is_empty-map [] f = f
    is_empty-map (b ∷ bs) f = refl

is_empty-sort_by :
    (es : List Evaluation) → is_empty es ≡ false → is_empty (sort_by evaluation_le es) ≡ false
is_empty-sort_by [] f = cc
is_empty-sort_by (e ∷ es) f = is_empty-ids e.binding_id (sort_by evaluation_le (e ∷ es)) (
    mem-sort_by evaluation_le (λ x. x.binding_id) e.binding_id (e ∷ es)
    ∙ ground (arith, eq_refl e.binding_id))

keep-eq :
    {A : Type 0} (p q : A → Bool) (xs : List A) → ((x : A) → p x ≡ q x) → keep p xs ≡ keep q xs
keep-eq p q [] h = refl
keep-eq p q (x ∷ xs) h = rw (h x, keep-eq p q xs h) refl

keep-eq-all : {A : Type 0} (p : A → Bool) (xs : List A) → ((x : A) → p x ≡ true) → keep p xs ≡ xs
keep-eq-all p [] h = refl
keep-eq-all p (x ∷ xs) h = rw (h x, keep-eq-all p xs h) refl

keep_none :
    (xs : List Evaluation) → all is_unhealthy xs ≡ true → keep (λ e. not (is_unhealthy e)) xs ≡ []
keep_none [] h = refl
keep_none (x ∷ xs) h =
    let here : is_unhealthy x ≡ true = ground (arith, h) in
    rw (here, keep_none xs (ground (arith, h))) refl

keep_some :
    (xs : List Evaluation)
    → all is_unhealthy xs ≡ false
    → is_empty (keep (λ e. not (is_unhealthy e)) xs) ≡ false
keep_some [] h = cc
keep_some (x ∷ xs) h = ground (arith, h, keep_some xs)

or_else_first : (xs ys : List Evaluation) → is_empty xs ≡ false → or_else xs ys ≡ xs
or_else_first [] ys h = cc
or_else_first (x ∷ xs) ys h = refl

selection_pool-eq-keep :
    (es : List Evaluation)
    → selection_pool es ≡ keep (λ e. not (is_unhealthy e) || all is_unhealthy es) es
selection_pool-eq-keep es = elim (Bool-cases (all is_unhealthy es)) [
  | inl h ↦
      rw (selection_pool, keep_none es h)
        (sym (
          keep-eq-all (λ e. not (is_unhealthy e) || all is_unhealthy es) es
            (λ e. ground (arith, h))))
  | inr h ↦
      or_else_first (keep (λ e. not (is_unhealthy e)) es) es (keep_some es h)
      ∙ keep-eq (λ e. not (is_unhealthy e)) (λ e. not (is_unhealthy e) || all is_unhealthy es) es
          (λ e. ground (arith, h))
]

pub select_returns :
    (p : Policy) (m : Manifest) (entries : List Entry) (given : List Binding)
    → IsUnique (binding_ids given)
    → is_empty (keep (is_compatible m) given) ≡ false
    → (d : Decision) × (select p m given entries ≡ ok d)
      × (check_decision d ≡ ok tt)
      × IsSelection
          (keep (is_compatible m) given)
          (map (evaluate p entries) (keep (is_compatible m) given))
          d
unfolding select
select_returns p m entries given u f =
    let candidates = keep (is_compatible m) given in
    let es = map (evaluate p entries) candidates in
    let pool = selection_pool es in
    let w = evaluated p m entries given u f in
    let inside = λ (j : String). mem-sort_by evaluation_le (λ e. e.binding_id) j pool in
    let (d, e, passes, same, found) =
      decide-ok m candidates es w (sort_by evaluation_le pool)
        (is_empty-sort_by pool (pool-some es w.some_evaluation))
        (sort_by-IsUnique evaluation_le (λ e. e.binding_id) pool (pool-IsUnique es w.unique))
        (λ j k. mem-pool es j (sym (inside j) ∙ k)) in
    (
      d,
      raise_if-false (is_empty candidates) (unavailable "no compatible implementation")
            (decide m candidates es (sort_by evaluation_le pool)) f
          ∙ e,
      passes,
      record {
        ranked = sort_by evaluation_le pool;
        drawn = All-sort_by evaluation_le (λ e. IsMember e es) pool (pool_members es);
        same_bindings = same;
        ordered = sort_by-IsOrdered pool;
        found = found;
        members = λ j. inside j ∙ ap (λ xs. mem j (evaluation_ids xs)) (selection_pool-eq-keep es);
        avoided =
            λ h. All-sort_by evaluation_le (λ e. is_unhealthy e ≡ false) pool (pool-avoids es h);
      },
    )
