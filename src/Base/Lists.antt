-- ===== src/Base/Lists.antt =====
-- Lists walked with Boolean tests, and measured by native numbers.
use Prim.Native.Nat.{ℕ, suc, ◌+◌, ◌≤◌, ◌<◌}
use mathlib.Core.Path.{◌≡◌, refl, ap, sym, ◌∙◌}
use mathlib.Core.Logic.{inl, inr}
use mathlib.Core.Bool.{Bool, true, false, not, ◌&&◌, ◌||◌}
use mathlib.Core.Option.{Option, none, some}
use mathlib.Core.List.{List, [], ◌∷◌, ◌++◌, map, Memᴰ}
use native.Mathlib.Omega.{arith}
use project_os.Base.Tests.{if◌then◌else◌, Bool-cases, leb, leb→le}

module _ {ℓ} {A : Type ℓ} where
  abbrev pub length : List A → ℕ
  length [] = 0
  length (x ∷ xs) = suc (length xs)

  -- not xs
  abbrev pub is_empty : List A → Bool
  is_empty [] = true
  is_empty (x ∷ xs) = false

  abbrev pub all : (A → Bool) → List A → Bool
  all p [] = true
  all p (x ∷ xs) = p x && all p xs

  abbrev pub any : (A → Bool) → List A → Bool
  any p [] = false
  any p (x ∷ xs) = p x || any p xs

  -- [x for x in xs if p(x)]
  abbrev pub filter : (A → Bool) → List A → List A
  filter p [] = []
  filter p (x ∷ xs) = let rest = filter p xs in if p x then x ∷ rest else rest

  -- next((x for x in xs if p(x)), None)
  abbrev pub find? : (A → Bool) → List A → Option A
  find? p [] = none
  find? p (x ∷ xs) = if p x then some x else find? p xs

  -- sum(p(x) for x in xs)
  abbrev pub count_if : (A → Bool) → List A → ℕ
  count_if p [] = 0
  count_if p (x ∷ xs) = (if p x then 1 else 0) + count_if p xs

module _ {ℓ} {A : Type ℓ} where
  pub length-append : (xs ys : List A) → length (xs ++ ys) ≡ length xs + length ys
  length-append [] ys = omega arith
  length-append (x ∷ xs) ys = omega (arith, length-append xs ys)

  pub all-mem : (p : A → Bool) {x : A} (xs : List A) → all p xs ≡ true → Memᴰ x xs → p x ≡ true
  all-mem p [] h m = elim m [ ]
  all-mem p (y ∷ ys) h (Memᴰ.head e) = rw e (ground arith)
  all-mem p (y ∷ ys) h (Memᴰ.tail m) = all-mem p ys (ground arith) m

  pub all_intro :
      (p : A → Bool) (xs : List A) → ((x : A) → Memᴰ x xs → p x ≡ true) → all p xs ≡ true
  all_intro p [] h = refl
  all_intro p (x ∷ xs) h =
      ground (arith, h x (Memᴰ.head refl), all_intro p xs (λ y m. h y (Memᴰ.tail m)))

  -- What a test lets through, and nothing else.
  pub filter_test : (p : A → Bool) {x : A} (xs : List A) → Memᴰ x (filter p xs) → p x ≡ true
  filter_test p [] m = elim m [ ]
  filter_test p {x} (y ∷ ys) m = elim (Bool-cases (p y)) [
    | inl t ↦ at_kept t (rw t at m) (filter_test p ys)
    | inr f ↦ filter_test p ys (rw f at m)
  ]
    where
      at_kept :
          p y ≡ true → Memᴰ x (y ∷ filter p ys) → (Memᴰ x (filter p ys) → p x ≡ true) → p x ≡ true
      at_kept t (Memᴰ.head e) rec = rw e t
      at_kept t (Memᴰ.tail n) rec = rec n

  pub mem-filter : (p : A → Bool) {x : A} (xs : List A) → Memᴰ x (filter p xs) → Memᴰ x xs
  mem-filter p [] m = m
  mem-filter p {x} (y ∷ ys) m = elim (Bool-cases (p y)) [
    | inl t ↦ at_kept (rw t at m) (mem-filter p ys)
    | inr f ↦ Memᴰ.tail (mem-filter p ys (rw f at m))
  ]
    where
      at_kept : Memᴰ x (y ∷ filter p ys) → (Memᴰ x (filter p ys) → Memᴰ x ys) → Memᴰ x (y ∷ ys)
      at_kept (Memᴰ.head e) rec = Memᴰ.head e
      at_kept (Memᴰ.tail n) rec = Memᴰ.tail (rec n)

  pub filter-mem :
      (p : A → Bool) {x : A} (xs : List A) → Memᴰ x xs → p x ≡ true → Memᴰ x (filter p xs)
  filter-mem p [] m t = elim m [ ]
  filter-mem p (y ∷ ys) (Memᴰ.head e) t = rw (ap p (sym e) ∙ t) (Memᴰ.head e)
  filter-mem p (y ∷ ys) (Memᴰ.tail m) t = elim (Bool-cases (p y)) [
    | inl h ↦ rw h (Memᴰ.tail (filter-mem p ys m t))
    | inr h ↦ rw h (filter-mem p ys m t)
  ]

  pub length-filter-le : (p : A → Bool) (xs : List A) → length (filter p xs) ≤ length xs
  length-filter-le p [] = omega arith
  length-filter-le p (x ∷ xs) = ground (arith, length-filter-le p xs)

  -- A test that refuses an element shortens the list.
  pub length-filter-lt :
      (p : A → Bool) {x : A} (xs : List A)
      → Memᴰ x xs
      → p x ≡ false
      → length (filter p xs) < length xs
  length-filter-lt p [] m h = elim m [ ]
  length-filter-lt p (y ∷ ys) (Memᴰ.head e) h =
      let refused : p y ≡ false = ap p (sym e) ∙ h in ground (arith, length-filter-le p ys)
  length-filter-lt p (y ∷ ys) (Memᴰ.tail m) h = ground (arith, length-filter-lt p ys m h)

  abbrev IsLeast : (A → ℕ) → A → List A → Type ℓ
  IsLeast f m xs = (y : A) → Memᴰ y xs → f m ≤ f y

  IsLeast-cons :
      (f : A → ℕ) (m x : A) (xs : List A) → f m ≤ f x → IsLeast f m xs → IsLeast f m (x ∷ xs)
  IsLeast-cons f m x xs h below y (Memᴰ.head e) = rw e h
  IsLeast-cons f m x xs h below y (Memᴰ.tail n) = below y n

  IsLeast-below : (f : A → ℕ) (m x : A) (xs : List A) → f x ≤ f m → IsLeast f m xs → IsLeast f x xs
  IsLeast-below f m x xs h below y n = omega (arith, below y n)

  -- An element where a measure is least.
  pub least :
      (f : A → ℕ) (x : A) (xs : List A)
      → (m : A) × Memᴰ m (x ∷ xs) × ((y : A) → Memᴰ y (x ∷ xs) → f m ≤ f y)
  least f x [] = (x, Memᴰ.head refl, IsLeast-cons f x x [] (omega arith) (λ y m. elim m [ ]))
  least f x (y ∷ ys) =
      let (m, here, below) = least f y ys in
      elim (Bool-cases (leb (f m) (f x))) [
        | inl h ↦ (m, Memᴰ.tail here, IsLeast-cons f m x (y ∷ ys) (leb→le _ _ h) below)
        | inr h ↦ (
          x,
          Memᴰ.head refl,
          IsLeast-cons f x x (y ∷ ys) (omega arith)
              (IsLeast-below f m x (y ∷ ys) (ground arith) below),
        )
      ]

  pub count_if-append :
      (p : A → Bool) (xs ys : List A) → count_if p (xs ++ ys) ≡ count_if p xs + count_if p ys
  count_if-append p [] ys = omega arith
  count_if-append p (x ∷ xs) ys = omega (arith, count_if-append p xs ys)

  -- A stronger test passes less often.
  pub count_if_mono :
      (p q : A → Bool) (xs : List A)
      → ((x : A) → p x ≡ true → q x ≡ true)
      → count_if p xs ≤ count_if q xs
  count_if_mono p q [] h = omega arith
  count_if_mono p q (x ∷ xs) h = ground (arith, h x, count_if_mono p q xs h)

module _ {ℓ κ} {A : Type ℓ} {B : Type κ} (f : A → B) where
  pub mem_map : {x : A} (xs : List A) → Memᴰ x xs → Memᴰ (f x) (map f xs)
  mem_map [] m = elim m [ ]
  mem_map (y ∷ ys) (Memᴰ.head e) = Memᴰ.head (ap f e)
  mem_map (y ∷ ys) (Memᴰ.tail m) = Memᴰ.tail (mem_map ys m)

  pub mem-map : {y : B} (xs : List A) → Memᴰ y (map f xs) → (x : A) × Memᴰ x xs × (f x ≡ y)
  mem-map [] m = elim m [ ]
  mem-map (x ∷ xs) (Memᴰ.head e) = (x, Memᴰ.head refl, sym e)
  mem-map (x ∷ xs) (Memᴰ.tail m) = let (z, n, e) = mem-map xs m in (z, Memᴰ.tail n, e)

  pub is_empty-map : (xs : List A) → is_empty (map f xs) ≡ is_empty xs
  is_empty-map [] = refl
  is_empty-map (x ∷ xs) = refl

  pub length-map : (xs : List A) → length (map f xs) ≡ length xs
  length-map [] = refl
  length-map (x ∷ xs) = ap suc (length-map xs)

module _ {ℓ} {A : Type ℓ} where
  -- A list with an element is not empty.
  pub is_empty_of_mem : {x : A} (xs : List A) → Memᴰ x xs → is_empty xs ≡ false
  is_empty_of_mem [] m = elim m [ ]
  is_empty_of_mem (y ∷ ys) m = refl

  -- What no element passes lets nothing through,
  pub is_empty-filter :
      (p : A → Bool) (xs : List A)
      → ((x : A) → Memᴰ x xs → p x ≡ false)
      → is_empty (filter p xs) ≡ true
  is_empty-filter p [] h = refl
  is_empty-filter p (x ∷ xs) h =
      ground (arith, h x (Memᴰ.head refl), is_empty-filter p xs (λ y m. h y (Memᴰ.tail m)))

  -- and where nothing fails, every element passes.
  pub all_of_none_filtered :
      (p : A → Bool) (xs : List A) → is_empty (filter (λ x. not (p x)) xs) ≡ true → all p xs ≡ true
  all_of_none_filtered p [] h = refl
  all_of_none_filtered p (x ∷ xs) h = ground (arith, all_of_none_filtered p xs)

  -- What passes a test of some element,
  pub any-mem : (p : A → Bool) (xs : List A) → any p xs ≡ true → (x : A) × Memᴰ x xs × (p x ≡ true)
  any-mem p [] h = cc
  any-mem p (x ∷ xs) h = elim (Bool-cases (p x)) [
    | inl t ↦ (x, Memᴰ.head refl, t)
    | inr f ↦ let (y, m, t) = any-mem p xs (ground arith) in (y, Memᴰ.tail m, t)
  ]

  -- and the other way round.
  pub any_intro : (p : A → Bool) {x : A} (xs : List A) → Memᴰ x xs → p x ≡ true → any p xs ≡ true
  any_intro p [] m h = elim m [ ]
  any_intro p (y ∷ ys) (Memᴰ.head e) h = let here = ap p (sym e) in ground arith
  any_intro p (y ∷ ys) (Memᴰ.tail m) h = ground (arith, any_intro p ys m h)

  -- Fewer elements pass no more tests.
  pub any_mono :
      (p : A → Bool) (xs ys : List A)
      → ((x : A) → Memᴰ x xs → Memᴰ x ys)
      → any p ys ≡ false
      → any p xs ≡ false
  any_mono p xs ys sub h = elim (Bool-cases (any p xs)) [
    | inl t ↦ let (x, m, q) = any-mem p xs t in let found = any_intro p ys (sub x m) q in cc
    | inr f ↦ f
  ]
