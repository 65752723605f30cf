-- ===== src/Inputs/Resolver/Stored.antt =====
-- A registered snapshot stays resolvable by the reference that its registration returned.
use market_cell.Prelude.{
  ℕ, ◌≡◌, inl, inr, refl, ap, sym, ◌∙◌, subst, String, Bool, true, false, Option, none, some, List,
  [], ◌∷◌, is_empty, is_empty-gather, nat_eq, ◌==◌, eq_iff, nat_eq_refl, get, set, get-set_same,
  get-set_other, Result, ok, err, >>-eq-ok, arith, Bool-cases,
}
use market_cell.Execution.Traces.{unless}
use market_cell.Inputs.Models.{Reference, Snapshot}
use market_cell.Inputs.Identity.{Json, to_reference}
use market_cell.Inputs.Resolver.{
  ResolutionError, require_none, validate_snapshot, reference_checks, reference_mismatches, Store,
  check_collision, store_at, register, checked, resolve,
}

unless_passed : (b : Bool) (name : String) → is_empty (unless b name) ≡ true → b ≡ true
unless_passed true name h = refl
unless_passed false name h = cc

require_none-ok :
    (names : List String) (hash : String) (size : ℕ)
    → require_none names hash size ≡ ok tt
    → is_empty names ≡ true
require_none-ok [] hash size h = refl
require_none-ok (name ∷ names) hash size h = cc

ok_of_empty :
    (names : List String) (hash : String) (size : ℕ)
    → is_empty names ≡ true
    → require_none names hash size ≡ ok tt
ok_of_empty [] hash size h = refl
ok_of_empty (name ∷ names) hash size h = cc

-- The references agree in every field that is compared.
pub record Agrees (r s : Reference) : Type 0 where
  pub reference_id : r.reference_id ≡ s.reference_id
  pub snapshot_id : r.snapshot_id ≡ s.snapshot_id
  pub input_kind : r.input_kind ≡ s.input_kind
  pub content_hash : r.content_hash ≡ s.content_hash
  pub data_version : r.data_version ≡ s.data_version
  pub source : r.source ≡ s.source
  pub target : r.target ≡ s.target
  pub horizon : r.horizon ≡ s.horizon
  pub size : r.payload_size_bytes ≡ s.payload_size_bytes
  pub schema : r.schema_version ≡ s.schema_version

nat_same : (a b : ℕ) → nat_eq a b ≡ true → a ≡ b
nat_same a b h = ground (arith, h)

mismatches-Agrees : (r s : Reference) → is_empty (reference_mismatches r s) ≡ true → Agrees r s
unfolding reference_mismatches
mismatches-Agrees r s h =
    let (a, (b, (c, (d, (e, (f, (g, (k, (l, (m, _)))))))))) =
      (is_empty-gather (reference_checks r s)).0 h in
    let same = λ (x y name : String) (p : is_empty (unless (x == y) name) ≡ true).
      (eq_iff x y).0 (unless_passed (x == y) name p) in
    record {
      reference_id = same _ _ _ a;
      snapshot_id = same _ _ _ b;
      input_kind = same _ _ _ c;
      content_hash = same _ _ _ d;
      data_version = same _ _ _ e;
      source = same _ _ _ f;
      target = same _ _ _ g;
      horizon = same _ _ _ k;
      size = nat_same _ _ (unless_passed _ _ l);
      schema = same _ _ _ m;
    }

Agrees-mismatches : (r s : Reference) → Agrees r s → is_empty (reference_mismatches r s) ≡ true
unfolding reference_mismatches
Agrees-mismatches r s w =
    let same =
      λ (x y name : String) (e : x ≡ y). ap (λ b. is_empty (unless b name)) ((eq_iff x y).1 e) in
    (is_empty-gather (reference_checks r s)).1 (
      same _ _ _ w.reference_id,
      (
        same _ _ _ w.snapshot_id,
        (
          same _ _ _ w.input_kind,
          (
            same _ _ _ w.content_hash,
            (
              same _ _ _ w.data_version,
              (
                same _ _ _ w.source,
                (
                  same _ _ _ w.target,
                  (
                    same _ _ _ w.horizon,
                    (
                      subst
                          (λ n.
                            is_empty (unless (nat_eq r.payload_size_bytes n) "payload_size_bytes")
                            ≡ true)
                          w.size
                          (ap (λ b. is_empty (unless b "payload_size_bytes"))
                            (nat_eq_refl r.payload_size_bytes)),
                      (same _ _ _ w.schema, tt),
                    ),
                  ),
                ),
              ),
            ),
          ),
        ),
      ),
    )

-- Two references that agree with the same one.
both_agree : {r s t : Reference} → Agrees r t → Agrees s t → Agrees r s
both_agree a b = record {
  reference_id = a.reference_id ∙ sym b.reference_id;
  snapshot_id = a.snapshot_id ∙ sym b.snapshot_id;
  input_kind = a.input_kind ∙ sym b.input_kind;
  content_hash = a.content_hash ∙ sym b.content_hash;
  data_version = a.data_version ∙ sym b.data_version;
  source = a.source ∙ sym b.source;
  target = a.target ∙ sym b.target;
  horizon = a.horizon ∙ sym b.horizon;
  size = a.size ∙ sym b.size;
  schema = a.schema ∙ sym b.schema;
}

-- The URI is not compared.
any_uri :
    {Payload : Type 0} (a b : Option String) (s : Snapshot Payload)
    → Agrees (to_reference a s) (to_reference b s)
unfolding to_reference
any_uri a b s = record {
  reference_id = refl;
  snapshot_id = refl;
  input_kind = refl;
  content_hash = refl;
  data_version = refl;
  source = refl;
  target = refl;
  horizon = refl;
  size = refl;
  schema = refl;
}

module _ {Payload : Type 0} (json : Json Payload) where
  -- A valid snapshot with this reference stands at its URI.
  pub record Holds (r : Reference) (store : Store Payload) : Type 0 where
    pub snapshot : Snapshot Payload
    pub found : get r.uri store.snapshots_by_uri ≡ some snapshot
    pub valid : validate_snapshot json snapshot ≡ ok tt
    pub agrees : Agrees r (to_reference none snapshot)

  -- What a registration that returns has checked.
  register-eq-ok :
      (s : Snapshot Payload) (store : Store Payload) {r : Reference} {after : Store Payload}
      → register json s store ≡ ok (r, after)
      → (validate_snapshot json s ≡ ok tt)
        × (check_collision json
              (to_reference none s)
              (get (to_reference none s).uri store.snapshots_by_uri)
            ≡ ok tt)
        × (to_reference none s ≡ r)
        × (store_at json (to_reference none s) s store ≡ after)
  unfolding register
  register-eq-ok s store h =
      let (valid, rest) = >>-eq-ok (validate_snapshot json s) _ h in
      let (clear, done) =
        >>-eq-ok
          (check_collision json (to_reference none s)
            (get (to_reference none s).uri store.snapshots_by_uri))
          (ok (to_reference none s, store_at json (to_reference none s) s store)) rest in
      (valid, clear, cc done, cc done)

  register-Holds :
      (s : Snapshot Payload) (store : Store Payload) {r : Reference} {after : Store Payload}
      → register json s store ≡ ok (r, after)
      → Holds r after
  register-Holds s store {r} {after} h =
      let (valid, clear, same, stored) = register-eq-ok s store h in
      let here : Holds (to_reference none s) (store_at json (to_reference none s) s store) =
        record {
          snapshot = s;
          found = get-set_same (to_reference none s).uri s store.snapshots_by_uri;
          valid = valid;
          agrees = any_uri none none s;
        } in
      subst (λ r. Holds r after) same (subst (Holds (to_reference none s)) stored here)

  collision-Agrees :
      (r : Reference) (o : Option (Snapshot Payload)) (old : Snapshot Payload)
      → o ≡ some old
      → check_collision json r o ≡ ok tt
      → Agrees r (to_reference none old)
  collision-Agrees r none old e h = cc
  collision-Agrees r (some found) old e h =
      let same : found ≡ old = cc e in
      let (valid, passed) =
        >>-eq-ok (validate_snapshot json found)
          (require_none (reference_mismatches r (to_reference (some r.uri) found))
            found.content_hash found.payload_size_bytes)
          h in
      let agrees = mismatches-Agrees r (to_reference (some r.uri) found) (
        require_none-ok (reference_mismatches r (to_reference (some r.uri) found))
          found.content_hash found.payload_size_bytes passed) in
      subst (λ x. Agrees r (to_reference none x)) same
        (both_agree agrees (any_uri none (some r.uri) found))

  -- Another registration keeps what is stored, or puts a snapshot with the same reference there.
  register-keeps_Holds :
      (r : Reference) (s : Snapshot Payload) (store : Store Payload) {r' : Reference}
      {after : Store Payload}
      → Holds r store
      → register json s store ≡ ok (r', after)
      → Holds r after
  register-keeps_Holds r s store w h =
      let (valid, clear, same, stored) = register-eq-ok s store h in
      let uri = (to_reference none s).uri in
      subst (Holds r) stored (elim (Bool-cases (uri == r.uri)) [
        | inr apart ↦ record {
          snapshot = w.snapshot;
          found = get-set_other uri r.uri s store.snapshots_by_uri apart ∙ w.found;
          valid = w.valid;
          agrees = w.agrees;
        }
        | inl meet ↦
            let together = (eq_iff uri r.uri).0 meet in
            let agrees =
              collision-Agrees (to_reference none s) (get uri store.snapshots_by_uri) w.snapshot
                (ap (λ u. get u store.snapshots_by_uri) together ∙ w.found) clear in
            record {
              snapshot = s;
              found =
                  subst (λ u. get u (set uri s store.snapshots_by_uri) ≡ some s) together
                    (get-set_same uri s store.snapshots_by_uri);
              valid = valid;
              agrees = both_agree w.agrees agrees;
            }
      ])

-- A call of the store.
pub data Call (Payload : Type 0) : Type 0 where
  registration : Snapshot Payload → Call Payload
  resolution : Reference → Call Payload

module _ {Payload : Type 0} (json : Json Payload) where
  abbrev pub store_after :
      Store Payload → Result ResolutionError (Reference × Store Payload) → Store Payload
  store_after store (err x) = store
  store_after store (ok (r, after)) = after

  -- The store after one call, whether it returned or raised.
  abbrev pub call : Call Payload → Store Payload → Store Payload
  call (registration s) store = store_after store (register json s store)
  call (resolution r) store = (resolve json r store).1

  abbrev pub calls : List (Call Payload) → Store Payload → Store Payload
  calls [] store = store
  calls (c ∷ cs) store = calls cs (call c store)

  call-Holds :
      (r : Reference) (c : Call Payload) (store : Store Payload)
      → Holds json r store
      → Holds json r (call c store)
  unfolding resolve
  call-Holds r (resolution q) store w = record {
    snapshot = w.snapshot;
    found = w.found;
    valid = w.valid;
    agrees = w.agrees;
  }
  call-Holds r (registration s) store w = go (register json s store) refl
    where
      go :
          (answer : Result ResolutionError (Reference × Store Payload))
          → register json s store ≡ answer
          → Holds json r (store_after store answer)
      go (err x) e = w
      go (ok (q, after)) e = register-keeps_Holds json r s store w e

  calls-Holds :
      (r : Reference) (cs : List (Call Payload)) (store : Store Payload)
      → Holds json r store
      → Holds json r (calls cs store)
  calls-Holds r [] store w = w
  calls-Holds r (c ∷ cs) store w = calls-Holds r cs (call c store) (call-Holds r c store w)

  Holds-checked :
      (r : Reference) (store : Store Payload) (w : Holds json r store)
      → checked json r (get r.uri store.snapshots_by_uri) ≡ ok w.snapshot
  Holds-checked r store w =
      let passed =
        ok_of_empty (reference_mismatches r (to_reference (some r.uri) w.snapshot))
          w.snapshot.content_hash w.snapshot.payload_size_bytes
          (Agrees-mismatches r (to_reference (some r.uri) w.snapshot)
            (both_agree w.agrees (any_uri (some r.uri) none w.snapshot))) in
      ap (checked json r) w.found ∙ rw (w.valid, passed) refl

  -- Where a registration returned a reference, resolving the reference after any further calls of
  -- the store, returning or raising, returns a snapshot that is valid and has this reference: it
  -- agrees with it in every field that is compared.
  pub resolve-register :
      (s : Snapshot Payload) (store after : Store Payload) (r : Reference)
      (cs : List (Call Payload))
      → register json s store ≡ ok (r, after)
      → (found : Snapshot Payload) × ((resolve json r (calls cs after)).0 ≡ ok found)
        × (validate_snapshot json found ≡ ok tt)
        × Agrees r (to_reference none found)
  unfolding resolve
  resolve-register s store after r cs h =
      let w = calls-Holds r cs after (register-Holds json s store h) in
      (w.snapshot, Holds-checked r (calls cs after) w, w.valid, w.agrees)

  -- At once, the reference resolves to the snapshot that was registered.
  pub resolve-register_same :
      (s : Snapshot Payload) (store after : Store Payload) (r : Reference)
      → register json s store ≡ ok (r, after)
      → (resolve json r after).0 ≡ ok s
  unfolding resolve
  resolve-register_same s store after r h =
      let (valid, clear, same, stored) = register-eq-ok json s store h in
      let w : Holds json (to_reference none s) (store_at json (to_reference none s) s store) =
        record {
          snapshot = s;
          found = get-set_same (to_reference none s).uri s store.snapshots_by_uri;
          valid = valid;
          agrees = any_uri none none s;
        } in
      subst (λ q. (resolve json q after).0 ≡ ok s) same
        (subst (λ st. (resolve json (to_reference none s) st).0 ≡ ok s) stored
          (Holds-checked (to_reference none s) (store_at json (to_reference none s) s store) w))
