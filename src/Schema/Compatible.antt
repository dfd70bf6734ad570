-- ===== src/Schema/Compatible.antt =====
-- What a registry keeps where the comparison finds no breaking change.
use project_os.Base.{
  ℕ, String, ◌≡◌, refl, sym, ◌∙◌, ap, Bool, true, false, suc, ◌≤◌, Option, none, some, List, [],
  ◌∷◌, ◌++◌, Memᴰ, any, ◌==◌, arith, ◌||◌, ◌&&◌, not, Bool-cases, Option-cases, inl, inr, option_eq,
  nat_eq, if◌then◌else◌,
}
use project_os.Schema.{FieldSchema, ModelSchema, SchemaRegistry, get_field, get_model, type_eq}
use project_os.Schema.Evolution.{
  SchemaChange, is_breaking, is_breaking_level, is_below, level_of_bounds, level_of_optional,
  field_change, differs, breaking_change, field_type_changed, field_optional_changed,
  field_constraint_changed, compare_fields, compare_models, compare_registries, changes_of,
  added_field, removed_field, kept_field, added_model, removed_model, kept_model,
  has_breaking_changes,
}

-- A field of which values stay good: the type is the same, it may still be left out where it could
-- be, a maximum is not lowered but to 0, and a minimum is not raised but from 0.
pub record Keeps (old new : FieldSchema) : Type 0 where
  pub same_type : old.field_type ≡ new.field_type
  pub stays_optional : old.optional ≡ true → new.optional ≡ true
  pub longest : (a b : ℕ) → old.max_length ≡ some a → new.max_length ≡ some (suc b) → a ≤ suc b
  pub shortest : (a b : ℕ) → old.min_length ≡ some (suc a) → new.min_length ≡ some b → b ≤ suc a

module _ {A : Type 0} where
  any-++ : (p : A → Bool) (xs ys : List A) → any p (xs ++ ys) ≡ (any p xs || any p ys)
  any-++ p [] ys = refl
  any-++ p (x ∷ xs) ys = ground (arith, any-++ p xs ys)

-- Without a breaking change among those of all, there is none among those of one.
unbroken :
    {A : Type 0} (change : A → List SchemaChange) (xs : List A) {x : A}
    → any is_breaking (changes_of change xs) ≡ false
    → Memᴰ x xs
    → any is_breaking (change x) ≡ false
unbroken change [] h m = elim m [ ]
unbroken change (y ∷ ys) h (Memᴰ.head e) =
    let split = any-++ is_breaking (change y) (changes_of change ys) in
    let same = ap (λ z. any is_breaking (change z)) e in ground arith
unbroken change (y ∷ ys) h (Memᴰ.tail m) =
    let split = any-++ is_breaking (change y) (changes_of change ys) in
    unbroken change ys (ground arith) m

any-if :
    (b : Bool) (change : SchemaChange)
    → any is_breaking (if b then change ∷ [] else []) ≡ (b && is_breaking change)
any-if true change = ground arith
any-if false change = refl

parts_unbroken :
    (xs ys zs : List SchemaChange)
    → any is_breaking (xs ++ ys ++ zs) ≡ false
    → (any is_breaking xs ≡ false) × (any is_breaking ys ≡ false) × (any is_breaking zs ≡ false)
parts_unbroken xs ys zs h =
    let first = any-++ is_breaking (xs ++ ys) zs in
    let second = any-++ is_breaking xs ys in (ground arith, ground arith, ground arith)

-- Of three changes that may be there, none is breaking.
three :
    (a b c : Bool) (x y z : SchemaChange)
    → any is_breaking
        ((if a then x ∷ [] else []) ++ (if b then y ∷ [] else []) ++ (if c then z ∷ [] else []))
      ≡ false
    → ((a && is_breaking x) ≡ false)
      × ((b && is_breaking y) ≡ false)
      × ((c && is_breaking z) ≡ false)
three a b c x y z h =
    let (p, q, r) =
      parts_unbroken (if a then x ∷ [] else []) (if b then y ∷ [] else [])
        (if c then z ∷ [] else []) h in
    (sym (any-if a x) ∙ p, sym (any-if b y) ∙ q, sym (any-if c z) ∙ r)

same-not_below :
    (a b : Option ℕ) → (a == b) ≡ true → (is_below a b ≡ false) × (is_below b a ≡ false)
same-not_below none none h = (refl, refl)
same-not_below none (some b) h = (refl, refl)
same-not_below (some a) none h = (refl, refl)
same-not_below (some a) (some b) h =
    let same = (nat_eq.beq_iff a b).0 h in (ground arith, ground arith)

-- Bounds that are equal, or different but not tighter, are not below one another.
no_bound_below :
    (old new : FieldSchema)
    → ((not (old.max_length == new.max_length) || not (old.min_length == new.min_length))
        && is_breaking_level (level_of_bounds old new))
      ≡ false
    → (is_below new.max_length old.max_length ≡ false)
      × (is_below old.min_length new.min_length ≡ false)
no_bound_below old new h = elim (Bool-cases (old.max_length == new.max_length)) [
  | inl t ↦ elim (Bool-cases (old.min_length == new.min_length)) [
    | inl u ↦ (
      (same-not_below old.max_length new.max_length t).1,
      (same-not_below old.min_length new.min_length u).0,
    )
    | inr n ↦ (ground arith, ground arith)
  ]
  | inr n ↦ (ground arith, ground arith)
]

le_of_not_below :
    (o n : Option ℕ) (a b : ℕ) → o ≡ some a → n ≡ some (suc b) → is_below n o ≡ false → a ≤ suc b
le_of_not_below o n a b p q h = let computed = rw (p, q) at h in ground arith

ge_of_not_below :
    (o n : Option ℕ) (a b : ℕ) → o ≡ some (suc a) → n ≡ some b → is_below o n ≡ false → b ≤ suc a
ge_of_not_below o n a b p q h = let computed = rw (p, q) at h in ground arith

compare_fields-Keeps :
    (model_name : String) (old new : FieldSchema)
    → any is_breaking (compare_fields model_name old new) ≡ false
    → Keeps old new
unfolding compare_fields
compare_fields-Keeps model_name old new h =
    let (types, options, bounds) =
      three (not (old.field_type == new.field_type)) (differs old.optional new.optional)
        (not (old.max_length == new.max_length) || not (old.min_length == new.min_length))
        (field_change field_type_changed breaking_change model_name old)
        (field_change field_optional_changed (level_of_optional new) model_name old)
        (field_change field_constraint_changed (level_of_bounds old new) model_name old) h in
    let (most, least) = no_bound_below old new bounds in
    record {
      same_type = (type_eq.beq_iff old.field_type new.field_type).0 (ground arith);
      stays_optional = λ o. ground arith;
      longest = λ a b p q. le_of_not_below old.max_length new.max_length a b p q most;
      shortest = λ a b p q. ge_of_not_below old.min_length new.min_length a b p q least;
    }

-- A model of which instances stay good: each field is still there and keeps its values, and a field
-- that was not there may be left out.
pub record ModelKeeps (old new : ModelSchema) : Type 0 where
  pub fields_keep :
      (f : FieldSchema)
      → Memᴰ f old.fields
      → (g : FieldSchema) × (get_field f.name new ≡ some g) × Keeps f g
  pub additions_optional :
      (g : FieldSchema) → Memᴰ g new.fields → get_field g.name old ≡ none → g.optional ≡ true

compare_models-ModelKeeps :
    (old new : ModelSchema) → any is_breaking (compare_models old new) ≡ false → ModelKeeps old new
unfolding compare_models
compare_models-ModelKeeps old new h =
    let (added, removed, kept) =
      parts_unbroken (changes_of (added_field old) new.fields)
        (changes_of (removed_field old new) old.fields) (changes_of (kept_field old new) old.fields)
        h in
    record {
      fields_keep = λ f m. elim (Option-cases (get_field f.name new)) [
        | inl absent ↦ absurd (
            let broken = unbroken (removed_field old new) old.fields removed m in
            let left = rw (absent, removed_field) at broken in cc)
        | inr (g, found) ↦
            let still = unbroken (kept_field old new) old.fields kept m in
            (g, found, compare_fields-Keeps old.name f g (rw (found, kept_field) at still))
      ];
      additions_optional = λ g m absent.
          let fresh = unbroken (added_field old) new.fields added m in
          let level = rw (absent, added_field) at fresh in ground arith;
    }

-- Where the comparison of two registries has no breaking change, each model of the old one stands in
-- the new one, with each of its fields: of the same type, still optional if it was; where both have a
-- maximum and the new one is not 0, it is not lower, and where both have a minimum and the old one is
-- not 0, it is not higher. A field that is new in a model is optional.
pub compare_registries-ModelKeeps :
    (old new : SchemaRegistry)
    → has_breaking_changes (compare_registries old new) ≡ false
    → (m : ModelSchema) → Memᴰ m old.models
    → (n : ModelSchema) × (get_model m.name new ≡ some n) × ModelKeeps m n
unfolding has_breaking_changes compare_registries
compare_registries-ModelKeeps old new h m stood =
    let (added, removed, kept) =
      parts_unbroken (changes_of (added_model old) new.models)
        (changes_of (removed_model new) old.models) (changes_of (kept_model new) old.models) h in
    elim (Option-cases (get_model m.name new)) [
      | inl absent ↦ absurd (
          let broken = unbroken (removed_model new) old.models removed stood in
          let left = rw (absent, removed_model) at broken in cc)
      | inr (n, found) ↦
          let still = unbroken (kept_model new) old.models kept stood in
          (n, found, compare_models-ModelKeeps m n (rw (found, kept_model) at still))
    ]
