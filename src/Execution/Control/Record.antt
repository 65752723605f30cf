-- ===== src/Execution/Control/Record.antt =====
-- The control record that `execute` builds passes every check of its constructor.
use market_cell.Execution.Models.Codes.{same_option-kind_refl, same_control_status_refl}
use market_cell.Prelude.{
  ℕ, zero, suc, ◌+◌, ◌<◌, ◌≡◌, ◌⊎◌, inl, inr, refl, ap, sym, ◌∙◌, String, Bool, true, false, not,
  some, List, [], ◌∷◌, ◌++◌, map, length, get_elem?, mem, ◌==◌, eq_iff, All, All-append, any,
  is_empty, IsUnique, ok, arith, is_unique, eq_refl, nat_eq_refl, IsUnique→is_unique, last?,
}
use market_cell.Execution.Models.{Binding, Attempt, binding_id, binding_ids}
use market_cell.Execution.Models.Checks.{
  Scan, count_of, scan_attempts, is_contiguous, first_fallback, check_final, check_control_record,
  expected_status, retries, max_fallback,
}
use market_cell.Execution.Models.Scans.{
  scan_attempts-append, is_contiguous-append, scan_attempt_lem,
}
use market_cell.Execution.Outcomes.{Context}
use market_cell.Execution.Control.Identity.{Digest, execution_attempt_id}
use market_cell.Execution.Control.Environment.{Environment}
use market_cell.Execution.Control.Loop.{
  Planned, Progress, candidate_bindings, attempt_once, note_attempt, control_record, run, start,
}
use market_cell.Execution.Control.Loop.Rule.{Rule, run_rule}

-- No two attempt numbers of one run share an identity: SHA-256 has no known collision.
abbrev pub HasDistinctIdentities : Digest → String → Type 0
HasDistinctIdentities hash key =
    (b c : String) (m n : ℕ)
    → execution_attempt_id hash key b m ≡ execution_attempt_id hash key c n
    → m ≡ n

module _ (hash : Digest) (key : String) where
  abbrev Identified : Attempt → Type 0
  Identified a = a.attempt_id ≡ execution_attempt_id hash key a.binding_id a.attempt_number

  later_ids :
      (distinct : HasDistinctIdentities hash key) (xs : List Attempt) (b : String) (m n : ℕ)
      → m < n
      → is_contiguous n xs ≡ true
      → All Identified xs
      → mem (execution_attempt_id hash key b m) (map (λ a. a.attempt_id) xs) ≡ false
  unfolding is_contiguous
  later_ids distinct [] b m n lt c h = refl
  later_ids distinct (x ∷ xs) b m n lt c h = ground (
    arith,
    later_ids distinct xs b m (n + 1) (omega arith),
    h.0,
    distinct x.binding_id b x.attempt_number m,
    eq_iff x.attempt_id (execution_attempt_id hash key b m),
  )

  attempt_ids-IsUnique :
      (distinct : HasDistinctIdentities hash key) (n : ℕ) (xs : List Attempt)
      → is_contiguous n xs ≡ true
      → All Identified xs
      → IsUnique (map (λ a. a.attempt_id) xs)
  unfolding is_contiguous
  attempt_ids-IsUnique distinct n [] c h = tt
  attempt_ids-IsUnique distinct n (x ∷ xs) c h =
      let number : x.attempt_number ≡ n = ground arith in
      let rest : is_contiguous (n + 1) xs ≡ true = ground arith in
      (
        rw (h.0, number) (later_ids distinct xs x.binding_id n (n + 1) (omega arith) rest h.1),
        attempt_ids-IsUnique distinct (n + 1) xs rest h.1,
      )

module _ (env : Environment) (context : Context) (planned : Planned) where
  open env use {World, hash}
  open planned use {key}

  abbrev ids : List String
  ids = binding_ids (candidate_bindings env context planned)

  -- What is true of the attempts so far, whatever comes next.
  record Listed (xs : List Attempt) : Type 0 where
    contiguous : is_contiguous 1 xs ≡ true
    identified : All (Identified hash key) xs
    keyed : any (λ a. not (a.idempotency_key == key)) xs ≡ false
    first : first_fallback xs ≡ 0

  record Ready (b : Binding) (i n : ℕ) (p : Progress World) : Type 0 where
    listed : Listed p.attempts
    candidate : get_elem? (candidate_bindings env context planned) i ≡ some b
    scan : Scan
    scanned : scan_attempts ids (record { previous = 0; counts = [] }) p.attempts ≡ ok scan
    order : (i ≡ scan.previous) ⊎ (i ≡ suc scan.previous)
    number : n ≡ count_of i scan.counts + 1
    later : (j : ℕ) → i < j → count_of j scan.counts ≡ 0
    primary : is_empty p.attempts ≡ true → i ≡ 0

  record Done (b : Binding) (i n : ℕ) (p : Progress World) : Type 0 where
    listed : Listed p.attempts
    candidate : get_elem? (candidate_bindings env context planned) i ≡ some b
    scan : Scan
    scanned : scan_attempts ids (record { previous = 0; counts = [] }) p.attempts ≡ ok scan
    order : i ≡ scan.previous
    number : n ≡ count_of i scan.counts
    later : (j : ℕ) → i < j → count_of j scan.counts ≡ 0
    nonempty : is_empty p.attempts ≡ false

  abbrev IsScanned : Progress World → Type 0
  IsScanned p =
      Listed p.attempts
      × ((s : Scan) × (scan_attempts ids (record { previous = 0; counts = [] }) p.attempts ≡ ok s))
      × (is_empty p.attempts ≡ false)

  get_elem?-ids :
      (bs : List Binding) (i : ℕ) (b : Binding)
      → get_elem? bs i ≡ some b
      → get_elem? (binding_ids bs) i ≡ some (binding_id b)
  get_elem?-ids [] i b h = ground arith
  get_elem?-ids (x ∷ bs) zero b h = ground arith
  get_elem?-ids (x ∷ bs) (suc i) b h = get_elem?-ids bs i b h

  any-append :
      (f : Attempt → Bool) (xs : List Attempt) (a : Attempt)
      → any f xs ≡ false
      → f a ≡ false
      → any f (xs ++ a ∷ []) ≡ false
  any-append f [] a h e = ground arith
  any-append f (x ∷ xs) a h e = ground (arith, any-append f xs a)

  Listed-append :
      (xs : List Attempt) (a : Attempt)
      → Listed xs
      → a.attempt_number ≡ length xs + 1
      → Identified hash key a
      → a.idempotency_key ≡ key
      → (is_empty xs ≡ true → a.fallback_index ≡ 0)
      → Listed (xs ++ a ∷ [])
  Listed-append xs a l number identity same primary = record {
    contiguous = is_contiguous-append 1 xs a l.contiguous (omega arith);
    identified = All-append (Identified hash key) xs (a ∷ []) l.identified (identity, tt);
    keyed =
        any-append (λ x. not (x.idempotency_key == key)) xs a l.keyed
          (ground (arith, eq_iff a.idempotency_key key));
    first = first_lem xs l.first primary;
  }
    where
      first_lem :
          (ys : List Attempt)
          → first_fallback ys ≡ 0
          → (is_empty ys ≡ true → a.fallback_index ≡ 0)
          → first_fallback (ys ++ a ∷ []) ≡ 0
      first_lem [] h e = e refl
      first_lem (y ∷ ys) h e = h

  nonempty_append : (xs : List Attempt) (a : Attempt) → is_empty (xs ++ a ∷ []) ≡ false
  nonempty_append [] a = refl
  nonempty_append (x ∷ xs) a = refl

  later_counts :
      (i n : ℕ) (counts : List (ℕ × ℕ)) (j : ℕ)
      → i < j
      → count_of j counts ≡ 0
      → count_of j ((i, n) ∷ counts) ≡ 0
  unfolding count_of
  later_counts i n counts j lt h = ground arith

  count_self : (i n : ℕ) (counts : List (ℕ × ℕ)) → count_of i ((i, n) ∷ counts) ≡ n
  unfolding count_of
  count_self i n counts = ground arith

  rule : Rule env context planned Ready Done IsScanned
  unfolding attempt_once note_attempt
  rule = record {
    attempt = λ b i n p _ r. record {
      listed = Listed-append p.attempts _ r.listed refl refl refl r.primary;
      candidate = r.candidate;
      scan = record { previous = i; counts = (i, count_of i r.scan.counts + 1) ∷ r.scan.counts };
      scanned =
          scan_attempts-append ids p.attempts _ r.scan _ r.scanned
          ∙ scan_attempt_lem ids r.scan _
              (get_elem?-ids (candidate_bindings env context planned) i b r.candidate) r.order
              r.number;
      order = refl;
      number = r.number ∙ sym (count_self i (count_of i r.scan.counts + 1) r.scan.counts);
      later = λ j lt. later_counts i _ r.scan.counts j lt (r.later j lt);
      nonempty = nonempty_append p.attempts _;
    };
    retry = λ b i n p _ d. record {
      listed = d.listed;
      candidate = d.candidate;
      scan = d.scan;
      scanned = d.scanned;
      order = inl d.order;
      number = omega (arith, d.number);
      later = d.later;
      primary = λ e. cc (d.nonempty);
    };
    fall_back = λ b c i n p found _ d. record {
      listed = d.listed;
      candidate = found;
      scan = d.scan;
      scanned = d.scanned;
      order = inr (ap suc d.order);
      number = omega (arith, d.later (suc i) (omega arith));
      later = λ j lt. d.later j (omega arith);
      primary = λ e. cc (d.nonempty);
    };
    finish = λ b i n p d. (d.listed, (d.scan, d.scanned), d.nonempty);
  }

  start-Ready : (w : World) → Ready planned.binding 0 1 (start env context planned w)
  unfolding count_of scan_attempts is_contiguous
  start-Ready w = record {
    listed = record { contiguous = refl; identified = tt; keyed = refl; first = refl };
    candidate = refl;
    scan = record { previous = 0; counts = [] };
    scanned = refl;
    order = inl refl;
    number = omega arith;
    later = λ j lt. refl;
    primary = λ e. refl;
  }

  last_of : (xs : List Attempt) → is_empty xs ≡ false → (a : Attempt) × (last? xs ≡ some a)
  last_of [] e = cc
  last_of (x ∷ []) e = (x, refl)
  last_of (x ∷ y ∷ xs) e = let (z, h) = last_of (y ∷ xs) refl in (z, rw h)

  check_final_lem :
      (xs : List Attempt) (final : Attempt) (started_at finished_at : String)
      → check_final
          (control_record env context planned xs final started_at finished_at)
          (some final)
        ≡ ok tt
  unfolding check_final control_record
  check_final_lem xs final started_at finished_at = rw (
    eq_refl final.binding_id,
    same_option-kind_refl final.failure_kind,
    same_control_status_refl (expected_status final.status),
  )

  accepted :
      (xs : List Attempt) (final : Attempt) (started_at finished_at : String) (s : Scan)
      → HasDistinctIdentities hash key
      → is_unique ids ≡ true
      → Listed xs
      → scan_attempts ids (record { previous = 0; counts = [] }) xs ≡ ok s
      → is_empty xs ≡ false
      → last? xs ≡ some final
      → check_control_record (control_record env context planned xs final started_at finished_at)
        ≡ ok tt
  unfolding check_control_record control_record
  accepted xs final started_at finished_at s distinct unique l scanned nonempty found =
      let attempt_ids =
        IsUnique→is_unique (map (λ a. a.attempt_id) xs)
          (attempt_ids-IsUnique hash key distinct 1 xs l.contiguous l.identified) in
      rw
        (
          nonempty,
          l.contiguous,
          attempt_ids,
          l.keyed,
          unique,
          l.first,
          scanned,
          nat_eq_refl (retries xs),
          nat_eq_refl (max_fallback xs),
          found,
        )
        (unfold control_record in check_final_lem xs final started_at finished_at)

  -- For any environment whose digest tells attempt numbers apart, and distinct binding identifiers,
  -- the run makes an attempt, and the control record built from its attempts passes the checks
  -- of `ExecutionControlRecord.__post_init__`.
  pub control_record_accepted :
      (w : World) (started_at finished_at : String)
      → HasDistinctIdentities hash key
      → is_unique ids ≡ true
      → (final : Attempt) × (last? (run env context planned w).attempts ≡ some final)
        × (check_control_record (
              control_record env context planned
                (run env context planned w).attempts
                final
                started_at
                finished_at)
            ≡ ok tt)
  control_record_accepted w started_at finished_at distinct unique =
      let (listed, (s, scanned), nonempty) = run_rule env context planned rule w (start-Ready w) in
      let xs = (run env context planned w).attempts in
      let (final, found) = last_of xs nonempty in
      (
        final,
        found,
        accepted xs final started_at finished_at s distinct unique listed scanned nonempty found,
      )
