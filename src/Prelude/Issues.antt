-- ===== src/Prelude/Issues.antt =====
-- Validators that gather issues: each returns what it appends to `issues`, and here is when they
-- append nothing.
use Prim.Native.String.{String}
use mathlib.Core.Path.{◌≡◌, refl, ap, sym, ◌∙◌}
use mathlib.Core.Logic.{◌↔◌, inl, inr}
use mathlib.Core.Bool.{Bool, true, false, not, ◌&&◌, ◌||◌}
use mathlib.Core.List.{List, [], ◌∷◌, ◌++◌, map, append_assoc}
use text.Mathlib.Text.{◌==◌}
use text.Mathlib.TextEquality.{eq_iff}
use text.Mathlib.TextPositions.{eq_refl}
use native.Mathlib.Omega.{arith}
use market_cell.Prelude.Tests.{if◌then◌else◌, Bool-cases}
use market_cell.Prelude.Lists.{append_nil, is_empty, is_empty-append, is_empty-append_iff, All}
use market_cell.Prelude.Ids.{mem, mem-append, IsUnique}

-- `if bad: issues.append(issue)`
abbrev pub issue_if {ℓ} : {I : Type ℓ} → Bool → I → List I
issue_if true i = i ∷ []
issue_if false i = []

-- `for x in xs`, where the body appends `f x`
abbrev pub each {ℓ μ} : {I : Type μ} {A : Type ℓ} → (A → List I) → List A → List I
each f [] = []
each f (x ∷ xs) = f x ++ each f xs

-- Issues that are appended one after the other.
abbrev pub gather {ℓ} : {I : Type ℓ} → List (List I) → List I
gather [] = []
gather (xs ∷ xss) = xs ++ gather xss

pub is_empty-gather {ℓ} :
    {I : Type ℓ} (xss : List (List I))
    → (is_empty (gather xss) ≡ true) ↔ All (λ xs. is_empty xs ≡ true) xss
is_empty-gather [] = (λ e. tt, λ e. refl)
is_empty-gather (xs ∷ xss) =
    let (there, back) = is_empty-append_iff xs (gather xss) in
    let (more, fewer) = is_empty-gather xss in
    (λ h. let (a, b) = there h in (a, more b), λ (a, b). back (a, fewer b))

pub is_empty-issue_if {ℓ} : {I : Type ℓ} (b : Bool) (i : I) → is_empty (issue_if b i) ≡ not b
is_empty-issue_if true i = refl
is_empty-issue_if false i = refl

pub is_empty-issue_if_iff {ℓ} :
    {I : Type ℓ} (b : Bool) (i : I) → (is_empty (issue_if b i) ≡ true) ↔ (b ≡ false)
is_empty-issue_if_iff true i = (λ e. cc, λ e. cc)
is_empty-issue_if_iff false i = (λ e. refl, λ e. refl)

-- A body that always appends.
pub is_empty-each_one {ℓ μ} :
    {I : Type μ} {A : Type ℓ} (f : A → I) (xs : List A)
    → is_empty (each (λ x. f x ∷ []) xs) ≡ is_empty xs
is_empty-each_one f [] = refl
is_empty-each_one f (x ∷ xs) = refl

pub is_empty-each_same {ℓ μ κ} :
    {I : Type μ} {J : Type κ} {A : Type ℓ} (f : A → List I) (g : A → List J) (xs : List A)
    → ((x : A) → is_empty (f x) ≡ is_empty (g x))
    → is_empty (each f xs) ≡ is_empty (each g xs)
is_empty-each_same f g [] h = refl
is_empty-each_same f g (x ∷ xs) h =
    is_empty-append (f x) (each f xs)
    ∙ (ap (λ b. b && is_empty (each f xs)) (h x)
        ∙ (ap (λ b. is_empty (g x) && b) (is_empty-each_same f g xs h)
            ∙ sym (is_empty-append (g x) (each g xs))))

pub is_empty-each {ℓ κ μ} :
    {I : Type μ} {A : Type ℓ} (P : A → Type κ) (f : A → List I) (xs : List A)
    → ((x : A) → (is_empty (f x) ≡ true) ↔ P x)
    → (is_empty (each f xs) ≡ true) ↔ All P xs
is_empty-each P f [] h = (λ e. tt, λ e. refl)
is_empty-each P f (x ∷ xs) h =
    let (there, back) = is_empty-each P f xs h in
    (
      λ e. (
        (h x).0 (ground (arith, is_empty-append (f x) (each f xs))),
        there (ground (arith, is_empty-append (f x) (each f xs))),
      ),
      λ p. ground (arith, is_empty-append (f x) (each f xs), (h x).1 p.0, back p.1),
    )

-- For texts, the elements are those that are in the list.
pub is_empty-each-mem {ℓ} :
    {I : Type ℓ} (p : String → Bool) (f : String → List I) (xs : List String)
    → ((x : String) → is_empty (f x) ≡ p x)
    → (is_empty (each f xs) ≡ true) ↔ ((j : String) → mem j xs ≡ true → p j ≡ true)
is_empty-each-mem p f [] h = (λ e j m. cc, λ e. refl)
is_empty-each-mem p f (x ∷ xs) h =
    let (there, back) = is_empty-each-mem p f xs h in
    (
      λ e j m.
          ground
            (arith, is_empty-append (f x) (each f xs), h x, ap p ((eq_iff x j).0 _), there _ j),
      λ q. ground (
        arith,
        is_empty-append (f x) (each f xs),
        h x,
        q x,
        eq_refl x,
        back (λ j m. q j (ground (arith, m))),
      ),
    )

-- A mapping from identifiers, filled in order: an element whose identifier is taken is reported and
-- left out.
module _ {A I : Type 0} (id : A → String) (repeated : A → I) where
  unfoldable pub collect : List A → List A → List A × List I
  collect [] found = (found, [])
  collect (n ∷ ns) found =
      let taken = mem (id n) (map id found) in
      let (by_id, issues) = collect ns (if taken then found else found ++ n ∷ []) in
      (by_id, issue_if taken (repeated n) ++ issues)

  map_append : (xs ys : List A) → map id (xs ++ ys) ≡ (map id xs ++ map id ys)
  map_append [] ys = refl
  map_append (x ∷ xs) ys = rw (map_append xs ys)

  mem-snoc :
      (j : String) (xs : List A) (n : A)
      → mem j (map id (xs ++ n ∷ [])) ≡ (mem j (map id xs) || (id n) == j)
  mem-snoc j xs n =
      rw (map_append xs (n ∷ [])) (ground (arith, mem-append j (map id xs) ((id n) ∷ [])))

  snoc-IsUnique :
      (xs : List A) (n : A)
      → IsUnique (map id xs)
      → mem (id n) (map id xs) ≡ false
      → IsUnique (map id (xs ++ n ∷ []))
  snoc-IsUnique [] n u m = (refl, tt)
  snoc-IsUnique (x ∷ xs) n u m = ground (
    arith,
    snoc-IsUnique xs n u.1,
    mem-snoc (id x) xs n,
    eq_iff (id x) (id n),
    eq_iff (id n) (id x),
  )

  pub collect-IsUnique :
      (ns found : List A) → IsUnique (map id found) → IsUnique (map id (collect ns found).0)
  unfolding collect
  collect-IsUnique [] found u = u
  collect-IsUnique (n ∷ ns) found u = elim (Bool-cases (mem (id n) (map id found))) [
    | inl e ↦ rw e (collect-IsUnique ns found u)
    | inr e ↦ rw e (collect-IsUnique ns (found ++ n ∷ []) (snoc-IsUnique found n u e))
  ]

  -- The nodes repeat neither each other nor those found before.
  abbrev AreNew : List A → List A → Type 0
  AreNew ns found =
      IsUnique (map id ns)
      × ((j : String) → mem j (map id ns) ≡ true → mem j (map id found) ≡ false)

  collect-new :
      (ns found : List A)
      → is_empty (collect ns found).1 ≡ true
      → AreNew ns found × ((collect ns found).0 ≡ (found ++ ns))
  unfolding collect
  collect-new [] found h = ((tt, λ j m. cc), sym (append_nil found))
  collect-new (n ∷ ns) found h = elim (Bool-cases (mem (id n) (map id found))) [
    | inl e ↦ ground (arith, rw e at h)
    | inr e ↦
        let ((unique, new), same) = collect-new ns (found ++ n ∷ []) (rw e at h) in
        let here = new (id n) in
        (
          (
            (ground (arith, here, mem-snoc (id n) found n, eq_refl (id n)), unique),
            λ j m. ground (
              arith,
              m,
              new j,
              mem-snoc j found n,
              eq_iff (id n) j,
              ap (λ i. mem i (map id found)) ((eq_iff (id n) j).0 _),
              e,
            ),
          ),
          rw e (same ∙ append_assoc found (n ∷ []) ns),
        )
  ]

  collect-AreNew : (ns found : List A) → AreNew ns found → is_empty (collect ns found).1 ≡ true
  unfolding collect
  collect-AreNew [] found h = refl
  collect-AreNew (n ∷ ns) found ((m, u), new) =
      let e : mem (id n) (map id found) ≡ false = new (id n) (ground (arith, eq_refl (id n))) in
      rw e (
        collect-AreNew ns (found ++ n ∷ []) (
          u,
          λ j k. ground (
            arith,
            new j,
            k,
            m,
            mem-snoc j found n,
            ap (λ i. mem i (map id ns)) ((eq_iff (id n) j).0 _),
          ),
        ))

  -- Nothing is reported exactly where no identifier repeats, and then nothing is left out.
  pub collect_iff : (ns : List A) → (is_empty (collect ns []).1 ≡ true) ↔ IsUnique (map id ns)
  collect_iff ns = (λ h. (collect-new ns [] h).0.0, λ u. collect-AreNew ns [] (u, λ j m. refl))

  pub collect_same : (ns : List A) → IsUnique (map id ns) → (collect ns []).0 ≡ ns
  collect_same ns u = (collect-new ns [] ((collect_iff ns).1 u)).1
