-- ===== src/Tools/Once.antt =====
-- The grants that `_read_all` reads: one for each id (app/tool_manager/grants.py).
use project_os.Base.{
  String, ◌≡◌, ◌⊎◌, refl, ap, sym, ◌∙◌, Bool, true, false, not, ◌&&◌, ◌||◌, List, [], ◌∷◌, ◌++◌,
  map, Memᴰ, ◌==◌, string_eq, elem, elem-map_of_mem, filter, arith, inl, inr, Bool-cases,
}
use project_os.Tools.{CapabilityGrant}
use project_os.Tools.Grants.{first_of_each}

abbrev pub ids : List CapabilityGrant → List String
ids grants = map (λ grant. grant.grant_id) grants

-- The ids that are not empty are distinct.
abbrev pub once_named : List String → Bool
once_named [] = true
once_named (id ∷ rest) = (id == "" || not (elem id rest)) && once_named rest

pub mem-append :
    {g : CapabilityGrant} (xs ys : List CapabilityGrant) → Memᴰ g (xs ++ ys) → Memᴰ g xs ⊎ Memᴰ g ys
mem-append [] ys m = inr m
mem-append (x ∷ xs) ys (Memᴰ.head e) = inl (Memᴰ.head e)
mem-append (x ∷ xs) ys (Memᴰ.tail m) = elim (mem-append xs ys m) [
  | inl n ↦ inl (Memᴰ.tail n)
  | inr n ↦ inr n
]

pub append-mem :
    {g : CapabilityGrant} (xs ys : List CapabilityGrant) → Memᴰ g xs ⊎ Memᴰ g ys → Memᴰ g (xs ++ ys)
append-mem [] ys (inl m) = elim m [ ]
append-mem [] ys (inr m) = m
append-mem (x ∷ xs) ys (inl (Memᴰ.head e)) = Memᴰ.head e
append-mem (x ∷ xs) ys (inl (Memᴰ.tail m)) = Memᴰ.tail (append-mem xs ys (inl m))
append-mem (x ∷ xs) ys (inr m) = Memᴰ.tail (append-mem xs ys (inr m))

-- first_of_each drops grants only,
pub first_of_each-sub :
    (seen : List String) {g : CapabilityGrant} (grants : List CapabilityGrant)
    → Memᴰ g (first_of_each seen grants)
    → Memᴰ g grants
first_of_each-sub seen [] m = m
first_of_each-sub seen {g} (x ∷ grants) m = elim (Bool-cases (x.grant_id == "")) [
  | inl e ↦ at_kept (first_of_each seen grants) (rw e at m) (first_of_each-sub seen grants)
  | inr n ↦ elim (Bool-cases (elem x.grant_id seen)) [
    | inl s ↦ Memᴰ.tail (first_of_each-sub seen grants (rw (n, s) at m))
    | inr f ↦
        at_kept (first_of_each (x.grant_id ∷ seen) grants) (rw (n, f) at m)
          (first_of_each-sub (x.grant_id ∷ seen) grants)
  ]
]
  where
    at_kept :
        (kept : List CapabilityGrant)
        → Memᴰ g (x ∷ kept)
        → (Memᴰ g kept → Memᴰ g grants)
        → Memᴰ g (x ∷ grants)
    at_kept kept (Memᴰ.head e) rec = Memᴰ.head e
    at_kept kept (Memᴰ.tail n) rec = Memᴰ.tail (rec n)

-- keeps one of each id that it has not seen,
pub first_of_each-has :
    (seen : List String) {g : CapabilityGrant} (grants : List CapabilityGrant)
    → (g.grant_id == "") ≡ false
    → elem g.grant_id seen ≡ false
    → Memᴰ g grants
    → (h : CapabilityGrant) × Memᴰ h (first_of_each seen grants) × (h.grant_id ≡ g.grant_id)
first_of_each-has seen [] n s m = elim m [ ]
first_of_each-has seen {g} (x ∷ grants) n s (Memᴰ.head e) =
    let same : g.grant_id ≡ x.grant_id = ap (λ (w : CapabilityGrant). w.grant_id) e in
    let named = ap (λ k. k == "") (sym same) ∙ n in
    let unseen = ap (λ k. elem k seen) (sym same) ∙ s in
    (x, rw (named, unseen) (Memᴰ.head refl), sym same)
first_of_each-has seen {g} (x ∷ grants) n s (Memᴰ.tail m) = elim (Bool-cases (x.grant_id == "")) [
  | inl e ↦ let (h, k, q) = first_of_each-has seen grants n s m in (h, rw e (Memᴰ.tail k), q)
  | inr e ↦ elim (Bool-cases (elem x.grant_id seen)) [
    | inl t ↦ let (h, k, q) = first_of_each-has seen grants n s m in (h, rw (e, t) k, q)
    | inr t ↦ elim (Bool-cases (g.grant_id == x.grant_id)) [
      | inl p ↦ (x, rw (e, t) (Memᴰ.head refl), sym ((string_eq.beq_iff g.grant_id x.grant_id).0 p))
      | inr p ↦
          let (h, k, q) = first_of_each-has (x.grant_id ∷ seen) grants n (ground arith) m in
          (h, rw (e, t) (Memᴰ.tail k), q)
    ]
  ]
]

-- has seen none of what it keeps, and names each once.
first_of_each-unseen :
    (seen : List String) (key : String) (grants : List CapabilityGrant)
    → (key == "") ≡ false
    → elem key seen ≡ true
    → elem key (ids (first_of_each seen grants)) ≡ false
first_of_each-unseen seen key [] n s = refl
first_of_each-unseen seen key (x ∷ grants) n s = elim (Bool-cases (x.grant_id == "")) [
  | inl e ↦
      let empty = (string_eq.beq_iff x.grant_id "").0 e in
      let other = ap (λ k. key == k) empty ∙ n in
      rw e (ground (arith, first_of_each-unseen seen key grants n s))
  | inr e ↦ elim (Bool-cases (elem x.grant_id seen)) [
    | inl t ↦ rw (e, t) (first_of_each-unseen seen key grants n s)
    | inr t ↦ elim (Bool-cases (key == x.grant_id)) [
      | inl p ↦
          let same = ap (λ k. elem k seen) ((string_eq.beq_iff key x.grant_id).0 p) in
          absurd (ground arith)
      | inr p ↦
          rw (e, t)
            (ground (arith, first_of_each-unseen (x.grant_id ∷ seen) key grants n (ground arith)))
    ]
  ]
]

pub first_of_each-once :
    (seen : List String) (grants : List CapabilityGrant)
    → once_named (ids (first_of_each seen grants)) ≡ true
first_of_each-once seen [] = refl
first_of_each-once seen (x ∷ grants) = elim (Bool-cases (x.grant_id == "")) [
  | inl e ↦ rw e (ground (arith, first_of_each-once seen grants))
  | inr e ↦ elim (Bool-cases (elem x.grant_id seen)) [
    | inl t ↦ rw (e, t) (first_of_each-once seen grants)
    | inr t ↦
        rw (e, t)
          (ground (
            arith,
            first_of_each-once (x.grant_id ∷ seen) grants,
            first_of_each-unseen (x.grant_id ∷ seen) x.grant_id grants e
                (ground (arith, string_eq.beq_iff x.grant_id x.grant_id)),
          ))
  ]
]

-- A filter names each once, too,
elem-filtered :
    (p : CapabilityGrant → Bool) (key : String) (grants : List CapabilityGrant)
    → elem key (ids grants) ≡ false
    → elem key (ids (filter p grants)) ≡ false
elem-filtered p key [] h = refl
elem-filtered p key (x ∷ grants) h = elim (Bool-cases (p x)) [
  | inl t ↦ rw t (ground (arith, elem-filtered p key grants))
  | inr f ↦ rw f (elem-filtered p key grants (ground arith))
]

pub filter-once :
    (p : CapabilityGrant → Bool) (grants : List CapabilityGrant)
    → once_named (ids grants) ≡ true
    → once_named (ids (filter p grants)) ≡ true
filter-once p [] h = refl
filter-once p (x ∷ grants) h = elim (Bool-cases (p x)) [
  | inl t ↦ rw t (ground (arith, filter-once p grants, elem-filtered p x.grant_id grants))
  | inr f ↦ rw f (filter-once p grants (ground arith))
]

-- and where each is named once, a name has one grant.
pub one_of_once :
    {g h : CapabilityGrant} (grants : List CapabilityGrant)
    → once_named (ids grants) ≡ true
    → (g.grant_id == "") ≡ false
    → Memᴰ g grants
    → Memᴰ h grants
    → h.grant_id ≡ g.grant_id
    → h ≡ g
one_of_once [] o n m k e = elim m [ ]
one_of_once (x ∷ grants) o n (Memᴰ.head p) (Memᴰ.head q) e = q ∙ sym p
one_of_once {g} {h} (x ∷ grants) o n (Memᴰ.head p) (Memᴰ.tail k) e =
    let there = elem-map_of_mem (λ (w : CapabilityGrant). w.grant_id) grants k in
    let same : h.grant_id ≡ x.grant_id = e ∙ ap (λ (w : CapabilityGrant). w.grant_id) p in
    let moved = ap (λ key. elem key (ids grants)) same in
    let named = ap (λ (w : CapabilityGrant). w.grant_id == "") p in absurd (ground arith)
one_of_once {g} {h} (x ∷ grants) o n (Memᴰ.tail m) (Memᴰ.head q) e =
    let there = elem-map_of_mem (λ (w : CapabilityGrant). w.grant_id) grants m in
    let same : g.grant_id ≡ x.grant_id = sym e ∙ ap (λ (w : CapabilityGrant). w.grant_id) q in
    let moved = ap (λ key. elem key (ids grants)) same in
    let named = ap (λ key. key == "") same in absurd (ground arith)
one_of_once (x ∷ grants) o n (Memᴰ.tail m) (Memᴰ.tail k) e =
    one_of_once grants (ground arith) n m k e
