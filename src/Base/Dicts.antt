-- ===== src/Base/Dicts.antt =====
-- Python's `dict`, as the list of its entries in insertion order.
use Prim.Native.Nat.{suc}
use mathlib.Core.Path.{◌≡◌, refl, sym, ap}
use mathlib.Core.Logic.{inl, inr}
use mathlib.Core.Bool.{Bool, true, false, not, ◌||◌}
use mathlib.Core.Option.{Option, none, some}
use mathlib.Core.List.{List, [], ◌∷◌, ◌++◌, map, Memᴰ}
use native.Mathlib.Omega.{arith}
use project_os.Base.Tests.{Bool-cases, if◌then◌else◌}
use project_os.Base.Equality.{Eq, ◌==◌}
use project_os.Base.Lists.{filter, length}
use project_os.Base.Members.{elem, subset, distinct, elem-map_of_mem}

abbrev pub Dict {ℓ κ} : Type ℓ → Type κ → Type (ℓ ⊔ κ)
Dict K V = List (K × V)

abbrev pub keys {ℓ κ} : {K : Type ℓ} {V : Type κ} → Dict K V → List K
keys = map (λ entry. entry.0)

module _ {ℓ κ} {K : Type ℓ} {V : Type κ} ⦃e : Eq K⦄ where
  -- d.get(k)
  abbrev pub lookup : K → Dict K V → Option V
  lookup key [] = none
  lookup key ((other, value) ∷ rest) = if key == other then some value else lookup key rest

  -- k in d
  abbrev pub has_key : K → Dict K V → Bool
  has_key k d = elem k (keys d)

  -- d[k] = v: a present key keeps its place
  abbrev pub insert : K → V → Dict K V → Dict K V
  insert k v [] = (k, v) ∷ []
  insert k v ((j, w) ∷ d) = let rest = insert k v d in if k == j then (j, v) ∷ d else (j, w) ∷ rest

  -- d.pop(k, None)
  abbrev pub erase : K → Dict K V → Dict K V
  erase k d = filter (λ entry. not (k == entry.0)) d

module _ {ℓ κ} {K : Type ℓ} {V : Type κ} ⦃e : Eq K⦄ where
  pub lookup-insert :
      (k j : K) (v : V) (d : Dict K V)
      → lookup j (insert k v d) ≡ (if j == k then some v else lookup j d)
  lookup-insert k j v [] = refl
  lookup-insert k j v ((i, w) ∷ d) = ground (
    arith,
    e.beq_iff k j,
    e.beq_iff j k,
    e.beq_iff i k,
    e.beq_iff k i,
    e.beq_iff j i,
    lookup-insert k j v d,
  )

  pub lookup-erase :
      (k j : K) (d : Dict K V) → lookup j (erase k d) ≡ (if k == j then none else lookup j d)
  lookup-erase k j [] = ground arith
  lookup-erase k j ((i, w) ∷ d) =
      ground (arith, e.beq_iff k j, e.beq_iff k i, e.beq_iff j i, lookup-erase k j d)

  pub elem-keys-insert :
      (k j : K) (v : V) (d : Dict K V) → elem j (keys (insert k v d)) ≡ (j == k || elem j (keys d))
  elem-keys-insert k j v [] = refl
  elem-keys-insert k j v ((i, w) ∷ d) =
      ground (arith, e.beq_iff k i, e.beq_iff j i, e.beq_iff j k, elem-keys-insert k j v d)

  -- A key is present exactly when it has a value.
  pub has_key-lookup : (k : K) (d : Dict K V) → has_key k d ≡ true → (v : V) × (lookup k d ≡ some v)
  has_key-lookup k [] h = cc
  has_key-lookup k ((j, v) ∷ d) h = elim (Bool-cases (k == j)) [
    | inl t ↦ (v, rw t)
    | inr f ↦ let (w, p) = has_key-lookup k d (ground arith) in (w, rw f p)
  ]

  pub lookup-has_key : (k : K) (d : Dict K V) {v : V} → lookup k d ≡ some v → has_key k d ≡ true
  lookup-has_key k [] h = cc
  lookup-has_key k ((j, w) ∷ d) {v} h = ground (arith, lookup-has_key k d {v = v})

  -- A value that is found stands in an entry under its key.
  pub lookup-mem : (k : K) (d : Dict K V) {v : V} → lookup k d ≡ some v → Memᴰ (k, v) d
  lookup-mem k [] h = cc
  lookup-mem k ((j, w) ∷ d) {v} h = elim (Bool-cases (k == j)) [
    | inl t ↦
        let found : Option.some w ≡ some v = rw t at h in
        let same : w ≡ v = cc in
        let here : k ≡ j = (e.beq_iff k j).0 t in
        let back = sym same in Memᴰ.head (λ i. (here i, back i))
    | inr f ↦ let later : lookup k d ≡ some v = rw f at h in Memᴰ.tail (lookup-mem k d later)
  ]

  pub distinct-keys-insert :
      (k : K) (v : V) (d : Dict K V)
      → distinct (keys d) ≡ true
      → distinct (keys (insert k v d)) ≡ true
  distinct-keys-insert k v [] h = refl
  distinct-keys-insert k v ((j, w) ∷ d) h =
      ground
        (arith, e.beq_iff k j, e.beq_iff j k, elem-keys-insert k j v d, distinct-keys-insert k v d)

  -- Where the keys are distinct, an entry is what is found under its key.
  pub lookup-of_mem :
      (k : K) (v : V) (d : Dict K V)
      → distinct (keys d) ≡ true
      → Memᴰ (k, v) d
      → lookup k d ≡ some v
  lookup-of_mem k v [] h m = elim m [ ]
  lookup-of_mem k v ((j, w) ∷ d) h (Memᴰ.head q) =
      let here : k ≡ j = ap (λ (x : K × V). x.0) q in
      let there : v ≡ w = ap (λ (x : K × V). x.1) q in rw ((e.beq_iff k j).1 here, there) refl
  lookup-of_mem k v ((j, w) ∷ d) h (Memᴰ.tail m) =
      let known = elem-map_of_mem (λ (x : K × V). x.0) d m in
      elim (Bool-cases (k == j)) [
        | inl t ↦
            let same = ap (λ x. elem x (keys d)) ((e.beq_iff k j).0 t) in
            ground (arith, known, same)
        | inr f ↦ rw f (lookup-of_mem k v d (ground arith) m)
      ]

  -- A new key hides no entry.
  pub lookup-insert_fresh :
      (k j : K) (v : V) (d : Dict K V) {w : V}
      → has_key k d ≡ false
      → lookup j d ≡ some w
      → lookup j (insert k v d) ≡ some w
  lookup-insert_fresh k j v d fresh h = elim (Bool-cases (j == k)) [
    | inl t ↦
        let same = ap (λ x. has_key x d) ((e.beq_iff j k).0 t) in
        absurd (ground (arith, same, fresh, lookup-has_key j d h))
    | inr f ↦ rw (lookup-insert k j v d, f) h
  ]

  pub subset-keys-insert :
      (k : K) (v : V) (d : Dict K V) (known : List K)
      → elem k known ≡ true
      → subset (keys d) known ≡ true
      → subset (keys (insert k v d)) known ≡ true
  subset-keys-insert k v [] known h s = ground arith
  subset-keys-insert k v ((j, w) ∷ d) known h s = ground (arith, subset-keys-insert k v d known h)

  pub length-insert_fresh :
      (k : K) (v : V) (d : Dict K V) → has_key k d ≡ false → length (insert k v d) ≡ suc (length d)
  length-insert_fresh k v [] h = refl
  length-insert_fresh k v ((j, w) ∷ d) h = ground (arith, length-insert_fresh k v d)

  -- A new key is put at the end.
  pub insert_fresh :
      (k : K) (v : V) (d : Dict K V) → has_key k d ≡ false → insert k v d ≡ d ++ (k, v) ∷ []
  insert_fresh k v [] h = refl
  insert_fresh k v ((j, w) ∷ d) h =
      let other : (k == j) ≡ false = ground arith in
      rw (other, insert_fresh k v d (ground arith)) refl
