-- ===== src/Prelude/Dicts.antt =====
-- Dictionaries with texts as keys: the entries in insertion order.
use Prim.Native.String.{String}
use mathlib.Core.Path.{◌≡◌, refl, ap, sym, ◌∙◌, subst}
use mathlib.Core.Logic.{◌⊎◌, inl, inr}
use mathlib.Core.Bool.{true, false}
use mathlib.Core.Option.{Option, none, some}
use mathlib.Core.List.{List, [], ◌∷◌, ◌++◌, map}
use text.Mathlib.Text.{◌==◌}
use text.Mathlib.TextEquality.{eq_iff}
use text.Mathlib.TextPositions.{eq_refl}
use native.Mathlib.Omega.{arith}
use market_cell.Prelude.Tests.{if◌then◌else◌, Bool-cases}
use market_cell.Prelude.Lists.{All, find}
use market_cell.Prelude.Ids.{mem, IsUnique}

module _ {A : Type 0} (key : A → String) where
  -- `{key(x): x for x in xs}.get(id)`: the last element of a key counts.
  abbrev pub by_key : String → List A → Option A
  by_key id [] = none
  by_key id (x ∷ xs) =
      let later = by_key id xs in
      elim later [ none ↦ if key x == id then some x else none | some y ↦ some y ]

  pub by_key_absent :
      (id : String) (xs : List A) → mem id (map key xs) ≡ false → by_key id xs ≡ none
  by_key_absent id [] m = refl
  by_key_absent id (x ∷ xs) m =
      let rest = by_key_absent id xs (ground (arith, m)) in
      let other : (key x == id) ≡ false = ground (arith, m) in rw (rest, other) refl

  pub by_key-found :
      (id : String) (xs : List A)
      → mem id (map key xs) ≡ true
      → (x : A) × (by_key id xs ≡ some x) × (key x ≡ id)
  by_key-found id [] m = cc
  by_key-found id (x ∷ xs) m = elim (Bool-cases (mem id (map key xs))) [
    | inl e ↦ let (y, f, k) = by_key-found id xs e in (y, rw f refl, k)
    | inr e ↦
        let here : (key x == id) ≡ true = ground (arith, m, e) in
        (x, rw (by_key_absent id xs e, here) refl, (eq_iff (key x) id).0 here)
  ]

  -- The element found is the first one, where the rest has none, or it is found in the rest.
  pub by_key-cases :
      (id : String) (x : A) (xs : List A) (y : A)
      → by_key id (x ∷ xs) ≡ some y
      → ((mem id (map key xs) ≡ false) × (x ≡ y) × (key x ≡ id)) ⊎ (by_key id xs ≡ some y)
  by_key-cases id x xs y h = elim (Bool-cases (mem id (map key xs))) [
    | inl m ↦ let (z, found, k) = by_key-found id xs m in inr (found ∙ (rw found at h))
    | inr m ↦ only (by_key id xs) (by_key_absent id xs m) m h
  ]
    where
      only :
          (o : Option A)
          → o ≡ none
          → mem id (map key xs) ≡ false
          → (elim o [ none ↦ if key x == id then some x else none | some z ↦ some z ]) ≡ some y
          → ((mem id (map key xs) ≡ false) × (x ≡ y) × (key x ≡ id)) ⊎ (by_key id xs ≡ some y)
      only (some z) e m h = cc
      only none e m h = elim (Bool-cases (key x == id)) [
        | inl f ↦
            let same : x ≡ y = ground (arith, rw f at h) in inl (m, same, (eq_iff (key x) id).0 f)
        | inr f ↦ cc (rw f at h)
      ]

  pub by_key-mem :
      (id : String) (xs : List A) (y : A) → by_key id xs ≡ some y → mem id (map key xs) ≡ true
  by_key-mem id [] y h = cc
  by_key-mem id (x ∷ xs) y h = elim (by_key-cases id x xs y h) [
    | inl (m, same, k) ↦ ground (arith, (eq_iff (key x) id).1 k)
    | inr later ↦ ground (arith, by_key-mem id xs y later)
  ]

  -- Where no key repeats, the first element of a key is the last.
  pub find-eq-by_key :
      (id : String) (xs : List A) (y : A)
      → IsUnique (map key xs)
      → by_key id xs ≡ some y
      → find (λ x. key x == id) xs ≡ some y
  find-eq-by_key id [] y u h = cc
  find-eq-by_key id (x ∷ xs) y (absent, u) h = elim (by_key-cases id x xs y h) [
    | inl (m, same, k) ↦
        let here : (key x == id) ≡ true = (eq_iff (key x) id).1 k in rw here (ap some same)
    | inr later ↦
        let other : (key x == id) ≡ false = ground (
          arith,
          by_key-mem id xs y later,
          absent,
          ap (λ i. mem i (map key xs)) ((eq_iff (key x) id).0 _),
        ) in
        rw other (find-eq-by_key id xs y u later)
  ]

  pub by_key-All :
      (P : A → Type 0) (id : String) (xs : List A) (x : A) → All P xs → by_key id xs ≡ some x → P x
  by_key-All P id [] x a e = cc
  by_key-All P id (y ∷ ys) x (p, ps) e = elim (by_key-cases id y ys x e) [
    | inl (m, same, k) ↦ subst P same p
    | inr later ↦ by_key-All P id ys x ps later
  ]

  pub find-mem :
      (id : String) (xs : List A) (x : A)
      → find (λ y. key y == id) xs ≡ some x
      → mem id (map key xs) ≡ true
  find-mem id [] x e = cc
  find-mem id (y ∷ ys) x e = elim (Bool-cases (key y == id)) [
    | inl k ↦ ground (arith, k)
    | inr k ↦ ground (arith, find-mem id ys x (rw k at e))
  ]

module _ {V : Type 0} where
  abbrev pub keys : List (String × V) → List String
  keys d = map (λ e. e.0) d

  -- `d.get(key)`
  abbrev pub get : String → List (String × V) → Option V
  get key [] = none
  get key ((k, v) ∷ rest) = let later = get key rest in if k == key then some v else later

  -- `d[key] = value`
  abbrev pub set : String → V → List (String × V) → List (String × V)
  set key v [] = (key, v) ∷ []
  set key v ((k, w) ∷ rest) =
      let later = set key v rest in if k == key then (k, v) ∷ rest else (k, w) ∷ later

  pub get-found :
      (key : String) (d : List (String × V))
      → mem key (keys d) ≡ true
      → (v : V) × (get key d ≡ some v)
  get-found key [] m = cc
  get-found key ((k, w) ∷ rest) m = elim (Bool-cases (k == key)) [
    | inl e ↦ (w, rw e refl)
    | inr e ↦ let (v, f) = get-found key rest (ground (arith, m, e)) in (v, rw e f)
  ]

  -- A new key is appended.
  pub keys-set_new :
      (key : String) (v : V) (d : List (String × V))
      → mem key (keys d) ≡ false
      → keys (set key v d) ≡ (keys d ++ key ∷ [])
  keys-set_new key v [] m = refl
  keys-set_new key v ((k, w) ∷ rest) m =
      let other : (k == key) ≡ false = ground (arith, m) in
      rw other (ap (λ ks. k ∷ ks) (keys-set_new key v rest (ground (arith, m))))

  pub get-set_same : (key : String) (v : V) (d : List (String × V)) → get key (set key v d) ≡ some v
  get-set_same key v [] = ground (arith, eq_refl key)
  get-set_same key v ((k, w) ∷ rest) = elim (Bool-cases (k == key)) [
    | inl e ↦ rw e (rw e refl)
    | inr e ↦ rw e (rw e (get-set_same key v rest))
  ]

  pub get-set_other :
      (key other : String) (v : V) (d : List (String × V))
      → (key == other) ≡ false
      → get other (set key v d) ≡ get other d
  get-set_other key other v [] h = rw h refl
  get-set_other key other v ((k, w) ∷ rest) h = elim (Bool-cases (k == key)) [
    | inl e ↦
        let away : (k == other) ≡ false =
          subst (λ j. (j == other) ≡ false) (sym ((eq_iff k key).0 e)) h in
        rw e (rw away refl)
    | inr e ↦ elim (Bool-cases (k == other)) [
      | inl f ↦ rw e (rw f refl)
      | inr f ↦ rw e (rw f (get-set_other key other v rest h))
    ]
  ]
