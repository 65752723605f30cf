-- ===== src/Graph/Topology/Levels.antt =====
-- The levels are a topological order of all nodes but those that a cycle holds back.
use market_cell.Prelude.{
  ℕ, zero, suc, ◌+◌, ◌≤◌, ◌≡◌, refl, ap, sym, ◌∙◌, String, Bool, true, false, not, ◌&&◌, ◌||◌,
  Option, none, some, List, [], ◌∷◌, ◌++◌, nat_eq, mem, mem-append, IsUnique, keep, distinct,
  mem-distinct, distinct-IsUnique, sorted, mem-sorted, sorted-IsUnique, eq_iff, eq_refl, arith,
  mem-keep, keep-IsUnique, outside, outside-lt,
}
use market_cell.Graph.Models.{Vertex}
use market_cell.Graph.Topology.{
  pos, is_zero, ids, Counts, dependencies_of, dependency_counts, dependents_of, relax, Sweep,
  visit_level, level_loop, first_level,
}
use market_cell.Graph.Topology.Counts.{
  occurrences, pending, count_known-eq-pending, pending-cons, occurrences-dependents_of,
  occurrences-sorted, relax_counts, relax_next, relax-mem, dependents_known, pending_zero,
}

module _ (vs : List Vertex) (unique : IsUnique (ids vs)) where
  abbrev pub open_at : List String → String → ℕ
  open_at visited j = pending vs visited (dependencies_of vs j)

  abbrev pub is_open_zero : List String → String → Bool
  is_open_zero visited j = nat_eq (open_at visited j) 0

  -- During a level that began with `before` visited.
  record Sweeping (before : List String) (s : Sweep) : Type 0 where
    counted : (j : String) → mem j (ids vs) ≡ true → s.counts j ≡ pos (open_at s.visited j)
    fewer : (j : String) → open_at s.visited j ≤ open_at before j
    freed :
        (j : String)
        → mem j (ids vs) ≡ true
        → mem j s.next_level ≡ (is_open_zero s.visited j && not (is_open_zero before j))
    known : (j : String) → mem j s.next_level ≡ true → mem j (ids vs) ≡ true

  -- The nodes of a level that are still to be visited.
  abbrev pub Fresh : List String → List String → Type 0
  Fresh visited us =
      IsUnique us
      × ((j : String) → mem j us ≡ true → (mem j (ids vs) ≡ true) × (mem j visited ≡ false))

  dependents : String → List String
  dependents u = sorted (dependents_of vs u)

  occurrences-dependents :
      (u j : String) → occurrences j (dependents u) ≡ occurrences u (dependencies_of vs j)
  unfolding dependents
  occurrences-dependents u j =
      occurrences-sorted j (dependents_of vs u) ∙ occurrences-dependents_of vs u j unique

  visit_one : String → Sweep → Sweep
  visit_one u s =
      let (counts, next_level) = relax (sorted (dependents_of vs u)) s.counts s.next_level in
      record { counts = counts; next_level = next_level; visited = u ∷ s.visited }

  -- Where `u` is known and fresh, a node waits for `u` as often as it names it.
  open_at-cons :
      (visited : List String) (u j : String)
      → mem u (ids vs) ≡ true
      → mem u visited ≡ false
      → open_at visited j ≡ open_at (u ∷ visited) j + occurrences j (dependents u)
  open_at-cons visited u j known fresh = omega (
    arith,
    pending-cons vs visited u (dependencies_of vs j) known fresh,
    occurrences-dependents u j,
  )

  visit_one-Sweeping :
      (before : List String) (u : String) (s : Sweep)
      → Sweeping before s
      → mem u (ids vs) ≡ true
      → mem u s.visited ≡ false
      → Sweeping before (visit_one u s)
  unfolding visit_one dependents
  visit_one-Sweeping before u s w known fresh = record {
    counted = λ j h.
        relax_counts (dependents u) s.counts s.next_level j (open_at (u ∷ s.visited) j)
          (w.counted j h ∙ ap pos (omega (arith, open_at-cons s.visited u j known fresh)));
    fewer = λ j. omega (arith, open_at-cons s.visited u j known fresh, w.fewer j);
    freed = λ j h.
        relax_next (dependents u) s.counts s.next_level j (open_at (u ∷ s.visited) j)
          (w.counted j h ∙ ap pos (omega (arith, open_at-cons s.visited u j known fresh)))
        ∙ ground (arith, w.freed j h, w.fewer j, open_at-cons s.visited u j known fresh);
    known = λ j h. ground (
      arith,
      relax-mem (dependents u) s.counts s.next_level j h,
      w.known j,
      mem-sorted j (dependents_of vs u),
      dependents_known vs u j,
    );
  }

  visit_level-Sweeping :
      (before us : List String) (s : Sweep)
      → Sweeping before s
      → Fresh s.visited us
      → Sweeping before (visit_level vs us s)
  unfolding visit_level visit_one
  visit_level-Sweeping before [] s w f = w
  visit_level-Sweeping before (u ∷ us) s w (once, f) =
      visit_level-Sweeping before us (visit_one u s)
        (visit_one-Sweeping before u s w (f u (ground (arith, eq_refl u))).0
          (f u (ground (arith, eq_refl u))).1)
        (once.1, λ j h. ground (arith, f j, once.0, eq_iff u j))

  mem-visit_level :
      (us : List String) (s : Sweep) (j : String)
      → mem j (visit_level vs us s).visited ≡ (mem j us || mem j s.visited)
  unfolding visit_level visit_one
  mem-visit_level [] s j = refl
  mem-visit_level (u ∷ us) s j = ground (arith, mem-visit_level us (visit_one u s) j)

  -- At the head of `while current`.
  pub record Heading (visited current : List String) (counts : Counts) : Type 0 where
    counted : (j : String) → mem j (ids vs) ≡ true → counts j ≡ pos (open_at visited j)
    settled :
        (j : String)
        → mem j (ids vs) ≡ true
        → is_open_zero visited j ≡ (mem j visited || mem j current)
    fresh : Fresh visited current
    known : (j : String) → mem j visited ≡ true → mem j (ids vs) ≡ true

  abbrev swept : List String → List String → Counts → Sweep
  swept visited current counts =
      visit_level vs current (record { counts = counts; next_level = []; visited = visited })

  start-Sweeping :
      (visited current : List String) (counts : Counts)
      → Heading visited current counts
      → Sweeping visited (record { counts = counts; next_level = []; visited = visited })
  start-Sweeping visited current counts h = record {
    counted = h.counted;
    fewer = λ j. omega arith;
    freed = λ j k. ground arith;
    known = λ j k. cc;
  }

  swept-Sweeping :
      (visited current : List String) (counts : Counts)
      → Heading visited current counts
      → Sweeping visited (swept visited current counts)
  swept-Sweeping visited current counts h =
      visit_level-Sweeping visited current _ (start-Sweeping visited current counts h) h.fresh

  mem-next : (s : Sweep) (j : String) → mem j (sorted (distinct s.next_level)) ≡ mem j s.next_level
  mem-next s j = mem-sorted j (distinct s.next_level) ∙ mem-distinct j s.next_level

  swept-Heading :
      (visited current : List String) (counts : Counts)
      → Heading visited current counts
      → Heading
          (swept visited current counts).visited
          (sorted (distinct (swept visited current counts).next_level))
          (swept visited current counts).counts
  swept-Heading visited current counts h =
      let s = swept visited current counts in
      let w = swept-Sweeping visited current counts h in
      let seen =
        mem-visit_level current (record { counts = counts; next_level = []; visited = visited }) in
      record {
        counted = w.counted;
        settled =
            λ j k. ground (arith, h.settled j k, w.freed j k, w.fewer j, seen j, mem-next s j);
        fresh = (
          sorted-IsUnique (distinct s.next_level) (distinct-IsUnique s.next_level),
          λ j k.
              let inside : mem j s.next_level ≡ true = rw (← mem-next s j) k in
              (
                w.known j inside,
                ground
                    (arith, w.freed j (w.known j inside), h.settled j (w.known j inside), seen j),
              ),
        );
        known = λ j k. ground (arith, seen j, h.known j, h.fresh.1 j);
      }

  mem-first_level : (j : String) → mem j (first_level vs) ≡ (mem j (ids vs) && is_open_zero [] j)
  mem-first_level j =
      mem-sorted j (keep (λ id. is_zero (dependency_counts vs id)) (ids vs))
      ∙ mem-keep (λ id. is_zero (dependency_counts vs id)) j (ids vs)
      ∙ ground (arith, count_known-eq-pending vs (dependencies_of vs j))

  pub start-Heading : Heading [] (first_level vs) (dependency_counts vs)
  start-Heading = record {
    counted = λ j h. ap pos (count_known-eq-pending vs (dependencies_of vs j));
    settled = λ j h. ground (arith, mem-first_level j);
    fresh = (
      sorted-IsUnique (keep (λ id. is_zero (dependency_counts vs id)) (ids vs))
          (keep-IsUnique (λ id. is_zero (dependency_counts vs id)) (ids vs) unique),
      λ j h. (ground (arith, mem-first_level j), refl),
    );
    known = λ j h. cc;
  }

  -- Each level's nodes are known, distinct, in no earlier level, and their known dependencies are all
  -- in earlier levels.
  abbrev pub IsLayered : List String → List (List String) → Type 0
  IsLayered done [] = Unit
  IsLayered done (level ∷ rest) =
      ((j : String)
        → mem j level ≡ true
        → (mem j (ids vs) ≡ true)
          × (mem j done ≡ false)
          × ((d : String)
              → mem d (dependencies_of vs j) ≡ true
              → mem d (ids vs) ≡ true
              → mem d done ≡ true))
      × IsUnique level
      × IsLayered (level ++ done) rest

  IsLayered-ext :
      (a b : List String) (levels : List (List String))
      → ((j : String) → mem j a ≡ mem j b)
      → IsLayered a levels
      → IsLayered b levels
  IsLayered-ext a b [] e h = tt
  IsLayered-ext a b (level ∷ rest) e (here, distinct_here, later) = (
    λ j k.
        let (known, fresh, behind) = here j k in
        (known, sym (e j) ∙ fresh, λ d m n. sym (e d) ∙ behind d m n),
    distinct_here,
    IsLayered-ext (level ++ a) (level ++ b) rest
        (λ j. ground (arith, e j, mem-append j level a, mem-append j level b)) later,
  )

  abbrev pub all_of : List (List String) → List String
  all_of [] = []
  all_of (level ∷ rest) = level ++ all_of rest

  -- What the loop returns from `visited` on; it does not run out of fuel.
  abbrev pub Returned : List String → Option (List (List String) × List String) → Type 0
  Returned visited none = ⊥
  Returned visited (some (levels, visited')) =
      IsLayered visited levels
      × ((j : String) → mem j (ids vs) ≡ true → is_open_zero visited' j ≡ mem j visited')
      × ((j : String) → mem j visited' ≡ (mem j visited || mem j (all_of levels)))

  Returned-nil :
      (counts : Counts) (visited : List String)
      → Heading visited [] counts
      → Returned visited (some ([], visited))
  Returned-nil counts visited h = (tt, λ j k. ground (arith, h.settled j k), λ j. ground arith)

  level-IsLayered :
      (visited current : List String) (counts : Counts) (j : String)
      → Heading visited current counts
      → mem j current ≡ true
      → (mem j (ids vs) ≡ true)
        × (mem j visited ≡ false)
        × ((d : String)
            → mem d (dependencies_of vs j) ≡ true
            → mem d (ids vs) ≡ true
            → mem d visited ≡ true)
  level-IsLayered visited current counts j h k =
      let (known, fresh) = h.fresh.1 j k in
      (
        known,
        fresh,
        λ d m n.
            pending_zero vs visited (dependencies_of vs j) d (ground (arith, h.settled j known)) m
              n,
      )

  Returned-cons :
      (visited current done : List String) (counts : Counts)
      (rest : Option (List (List String) × List String))
      → Heading visited current counts
      → ((j : String) → mem j done ≡ (mem j current || mem j visited))
      → Returned done rest
      → Returned visited
          (elim rest [ none ↦ none | some (levels, visited') ↦ some (current ∷ levels, visited') ])
  Returned-cons visited current done counts none h seen r = r
  Returned-cons visited current done counts (some (levels, visited')) h seen
        (layered, zero', all') =
      (
        (
          λ j k. level-IsLayered visited current counts j h k,
          h.fresh.0,
          IsLayered-ext done (current ++ visited) levels
              (λ j. seen j ∙ sym (mem-append j current visited)) layered,
        ),
        zero',
        λ j. ground (arith, all' j, seen j, mem-append j current (all_of levels)),
      )

  -- A level that is not empty visits a node.
  shrinks :
      (x : String) (xs visited : List String) (counts : Counts)
      → Heading visited (x ∷ xs) counts
      → outside (swept visited (x ∷ xs) counts).visited (ids vs) + 1 ≤ outside visited (ids vs)
  shrinks x xs visited counts h =
      let s : Sweep = record { counts = counts; next_level = []; visited = visited } in
      let head : mem x (x ∷ xs) ≡ true = ground (arith, eq_refl x) in
      outside-lt visited (visit_level vs (x ∷ xs) s).visited (ids vs) x
        (λ j k. ground (arith, mem-visit_level (x ∷ xs) s j)) (h.fresh.1 x head).0
        (h.fresh.1 x head).1 (ground (arith, mem-visit_level (x ∷ xs) s x))

  pub level_loop-Returned :
      (fuel : ℕ) (current : List String) (counts : Counts) (visited : List String)
      → Heading visited current counts
      → outside visited (ids vs) ≤ fuel
      → Returned visited (level_loop vs fuel current counts visited)
  unfolding level_loop
  level_loop-Returned zero [] counts visited h f = Returned-nil counts visited h
  level_loop-Returned zero (x ∷ xs) counts visited h f =
      absurd (omega (arith, shrinks x xs visited counts h))
  level_loop-Returned (suc fuel) [] counts visited h f = Returned-nil counts visited h
  level_loop-Returned (suc fuel) (x ∷ xs) counts visited h f =
      let s = swept visited (x ∷ xs) counts in
      let seen =
        mem-visit_level (x ∷ xs) (record { counts = counts; next_level = []; visited = visited }) in
      Returned-cons visited (x ∷ xs) s.visited counts
        (level_loop vs fuel (sorted (distinct s.next_level)) s.counts s.visited) h seen
        (level_loop-Returned fuel (sorted (distinct s.next_level)) s.counts s.visited
          (swept-Heading visited (x ∷ xs) counts h) (omega (arith, shrinks x xs visited counts h)))
