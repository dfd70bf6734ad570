-- ===== src/Base/Members.antt =====
-- `x in xs`, `set(xs) <= set(ys)` and `len(set(xs)) == len(xs)` over an equality.
use Prim.Native.Nat.{◌≤◌, ◌<◌}
use mathlib.Core.Path.{◌≡◌, refl, ap, sym, ◌∙◌}
use mathlib.Core.Logic.{inl, inr}
use mathlib.Core.Bool.{Bool, true, false, not, ◌&&◌, ◌||◌}
use mathlib.Core.List.{List, [], ◌∷◌, ◌++◌, map, Memᴰ}
use native.Mathlib.Omega.{arith}
use project_os.Base.Tests.{Bool-cases}
use project_os.Base.Equality.{Eq, ◌==◌}
use project_os.Base.Lists.{all, filter, length, length-filter-lt}

module _ {ℓ} {A : Type ℓ} ⦃e : Eq A⦄ where
  abbrev pub elem : A → List A → Bool
  elem x [] = false
  elem x (y ∷ ys) = x == y || elem x ys

  abbrev pub subset : List A → List A → Bool
  subset xs ys = all (λ x. elem x ys) xs

  -- len(set(xs)) == len(xs)
  abbrev pub distinct : List A → Bool
  distinct [] = true
  distinct (x ∷ xs) = not (elem x xs) && distinct xs

  -- dict.fromkeys(xs): the first of each, in order
  abbrev pub unique : List A → List A
  unique [] = []
  unique (x ∷ xs) = let rest = unique xs in x ∷ filter (λ y. not (y == x)) rest

module _ {ℓ} {A : Type ℓ} ⦃e : Eq A⦄ where
  pub elem-append : (x : A) (xs ys : List A) → elem x (xs ++ ys) ≡ (elem x xs || elem x ys)
  elem-append x [] ys = refl
  elem-append x (z ∷ xs) ys = ground (arith, elem-append x xs ys)

  pub elem-mem : (x : A) (xs : List A) → elem x xs ≡ true → Memᴰ x xs
  elem-mem x [] h = cc
  elem-mem x (y ∷ ys) h = elim (Bool-cases (x == y)) [
    | inl t ↦ Memᴰ.head ((e.beq_iff x y).0 t)
    | inr f ↦ Memᴰ.tail (elem-mem x ys (ground arith))
  ]

  pub mem-elem : {x : A} (xs : List A) → Memᴰ x xs → elem x xs ≡ true
  mem-elem [] m = elim m [ ]
  mem-elem {x} (y ∷ ys) (Memᴰ.head p) = ground (arith, e.beq_iff x y)
  mem-elem (y ∷ ys) (Memᴰ.tail m) = ground (arith, mem-elem ys m)

  pub subset-elem :
      (x : A) (xs ys : List A) → subset xs ys ≡ true → elem x xs ≡ true → elem x ys ≡ true
  subset-elem x [] ys h m = cc
  subset-elem x (z ∷ xs) ys h m = elim (Bool-cases (x == z)) [
    | inl t ↦ rw ((e.beq_iff x z).0 t) (ground arith)
    | inr f ↦ subset-elem x xs ys (ground arith) (ground arith)
  ]

  pub subset_intro :
      (xs ys : List A) → ((x : A) → elem x xs ≡ true → elem x ys ≡ true) → subset xs ys ≡ true
  subset_intro [] ys h = refl
  subset_intro (x ∷ xs) ys h =
      ground (arith, h x, e.beq_iff x x, subset_intro xs ys (λ z m. h z (ground arith)))

  pub elem-filter : (p : A → Bool) (x : A) (xs : List A) → elem x (filter p xs) ≡ (elem x xs && p x)
  elem-filter p x [] = refl
  elem-filter p x (y ∷ ys) = elim (Bool-cases (x == y)) [
    | inl t ↦ let same = ap p ((e.beq_iff x y).0 t) in ground (arith, elem-filter p x ys)
    | inr f ↦ ground (arith, elem-filter p x ys)
  ]

  -- dict.fromkeys keeps every key.
  pub elem-unique : (x : A) (xs : List A) → elem x (unique xs) ≡ elem x xs
  elem-unique x [] = refl
  elem-unique x (y ∷ ys) =
      ground (arith, elem-filter (λ z. not (z == y)) x (unique ys), elem-unique x ys)

  pub distinct-filter :
      (p : A → Bool) (xs : List A) → distinct xs ≡ true → distinct (filter p xs) ≡ true
  distinct-filter p [] h = refl
  distinct-filter p (x ∷ xs) h = ground (arith, elem-filter p x xs, distinct-filter p xs)

  pub distinct-unique : (xs : List A) → distinct (unique xs) ≡ true
  distinct-unique [] = refl
  distinct-unique (x ∷ xs) = ground (
    arith,
    elem-filter (λ z. not (z == x)) x (unique xs),
    distinct-filter (λ z. not (z == x)) (unique xs),
    distinct-unique xs,
    e.beq_iff x x,
  )

module _ {ℓ κ} {A : Type ℓ} {B : Type κ} ⦃e : Eq B⦄ (f : A → B) where
  pub elem-map_of_mem : {a : A} (xs : List A) → Memᴰ a xs → elem (f a) (map f xs) ≡ true
  elem-map_of_mem [] m = elim m [ ]
  elem-map_of_mem {a} (x ∷ xs) (Memᴰ.head p) =
      let q = ap f p in ground (arith, e.beq_iff (f a) (f x))
  elem-map_of_mem (x ∷ xs) (Memᴰ.tail m) = ground (arith, elem-map_of_mem xs m)

  pub elem-map : (b : B) (xs : List A) → elem b (map f xs) ≡ true → (a : A) × Memᴰ a xs × (f a ≡ b)
  elem-map b [] h = cc
  elem-map b (x ∷ xs) h = elim (Bool-cases (b == f x)) [
    | inl t ↦ (x, Memᴰ.head refl, sym ((e.beq_iff b (f x)).0 t))
    | inr t ↦ let (a, m, p) = elem-map b xs (ground arith) in (a, Memᴰ.tail m, p)
  ]

  -- Where the keys are distinct, a key has one owner.
  pub distinct-map_injective :
      (xs : List A)
      → distinct (map f xs) ≡ true
      → {a b : A} → Memᴰ a xs
      → Memᴰ b xs
      → f a ≡ f b
      → a ≡ b
  distinct-map_injective [] h m n p = elim m [ ]
  distinct-map_injective (x ∷ xs) h (Memᴰ.head q) (Memᴰ.head r) p = q ∙ sym r
  distinct-map_injective (x ∷ xs) h {b = b} (Memᴰ.head q) (Memᴰ.tail n) p =
      let same = sym (ap f q) ∙ p in ground (arith, elem-map_of_mem xs n)
  distinct-map_injective (x ∷ xs) h {a = a} (Memᴰ.tail m) (Memᴰ.head r) p =
      let same = sym (ap f r) ∙ sym p in ground (arith, elem-map_of_mem xs m)
  distinct-map_injective (x ∷ xs) h (Memᴰ.tail m) (Memᴰ.tail n) p =
      distinct-map_injective xs (ground arith) m n p

module _ {ℓ} {A : Type ℓ} ⦃e : Eq A⦄ where
  abbrev without : A → List A → List A
  without x = filter (λ y. not (x == y))

  subset-without :
      (x : A) (xs ys : List A)
      → elem x xs ≡ false
      → subset xs ys ≡ true
      → subset xs (without x ys) ≡ true
  subset-without x xs ys h s = subset_intro xs (without x ys) (λ z m.
      rw (elem-filter (λ y. not (x == y)) z ys)
        (ground (arith, subset-elem z xs ys s m, e.beq_iff x z, other z m)))
    where
      other : (z : A) → elem z xs ≡ true → (x == z) ≡ false
      other z m = elim (Bool-cases (x == z)) [
        | inl t ↦ let same = ap (λ y. elem y xs) ((e.beq_iff x z).0 t) in ground (arith, same)
        | inr f ↦ f
      ]

  length-without-lt : (x : A) (ys : List A) → elem x ys ≡ true → length (without x ys) < length ys
  length-without-lt x ys h =
      length-filter-lt (λ y. not (x == y)) ys (elem-mem x ys h) (ground (arith, e.beq_iff x x))

  -- Distinct members of a list are no more than its elements,
  pub length-subset-le :
      (xs ys : List A) → distinct xs ≡ true → subset xs ys ≡ true → length xs ≤ length ys
  length-subset-le [] ys h s = omega arith
  length-subset-le (x ∷ xs) ys h s = ground (
    arith,
    length-without-lt x ys,
    length-subset-le xs (without x ys) (ground arith)
        (subset-without x xs ys (ground arith) (ground arith)),
  )

  -- and where they are as many, they are all of them.
  pub subset_of_length :
      (xs ys : List A)
      → distinct xs ≡ true
      → subset xs ys ≡ true
      → length ys ≤ length xs
      → subset ys xs ≡ true
  subset_of_length xs ys h s l = subset_intro ys xs (λ x m. elim (Bool-cases (elem x xs)) [
    | inl t ↦ t
    | inr f ↦ absurd (
        omega (
          arith,
          length-without-lt x ys m,
          length-subset-le xs (without x ys) h (subset-without x xs ys f s),
        ))
  ])
