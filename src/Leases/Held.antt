-- ===== src/Leases/Held.antt =====
-- Who holds a port, and that no two leases hold the same one (app/runtime/port_lifecycle.py).
use project_os.Base.{
  ℕ, String, ◌≡◌, refl, ap, sym, ◌∙◌, Bool, true, false, not, ◌&&◌, Option, none, some, List, [],
  ◌∷◌, ◌++◌, ◌==◌, string_eq, nat_eq, option_eq, elem, elem-append, all, distinct, filter,
  if◌then◌else◌, erase, lookup, arith, inl, inr, Bool-cases, all-mem, elem-mem,
}
use project_os.Leases.{RawLease, readable, unreadable, Registry, leases_of, held_by}

abbrev pub ports_of : RawLease → List ℕ
ports_of unreadable = []
ports_of (readable lease) = lease.ports

abbrev pub all_ports : Registry → List ℕ
all_ports [] = []
all_ports ((key, raw) ∷ state) = ports_of raw ++ all_ports state

-- No port is in two leases, or twice in one.
abbrev pub is_disjoint : Registry → Bool
is_disjoint [] = true
is_disjoint ((key, raw) ∷ state) =
    distinct (ports_of raw)
    && all (λ port. not (elem port (all_ports state))) (ports_of raw)
    && is_disjoint state

-- The lease that holds a port.
abbrev pub holder_of : Registry → ℕ → Option String
holder_of [] port = none
holder_of ((key, raw) ∷ state) port =
    if elem port (ports_of raw) then some key else holder_of state port

pub held_by-leases_of : (state : Registry) → held_by (leases_of state) ≡ all_ports state
held_by-leases_of [] = refl
held_by-leases_of ((key, unreadable) ∷ state) = held_by-leases_of state
held_by-leases_of ((key, readable lease) ∷ state) =
    ap (λ l. lease.ports ++ l) (held_by-leases_of state)

-- A port of no lease has no holder.
pub holder_of-none :
    (state : Registry) (port : ℕ)
    → elem port (all_ports state) ≡ false
    → holder_of state port ≡ none
holder_of-none [] port h = refl
holder_of-none ((key, raw) ∷ state) port h =
    let split = elem-append port (ports_of raw) (all_ports state) in
    let here : elem port (ports_of raw) ≡ false = ground arith in
    rw here (holder_of-none state port (ground arith))

pub all-elem :
    (p : ℕ → Bool) (ports : List ℕ) (port : ℕ)
    → all p ports ≡ true
    → elem port ports ≡ true
    → p port ≡ true
all-elem p ports port h m = all-mem p ports h (elem-mem port ports m)

-- The lease that holds a port, where a test keeps it.
abbrev pub kept_holder : (String × RawLease → Bool) → Registry → ℕ → Option String
kept_holder keep [] port = none
kept_holder keep ((key, raw) ∷ state) port =
    if elem port (ports_of raw)
    then (if keep (key, raw) then some key else none)
    else kept_holder keep state port

-- Dropping leases
module _ (keep : String × RawLease → Bool) where
  pub filtered_ports :
      (state : Registry) (port : ℕ)
      → elem port (all_ports state) ≡ false
      → elem port (all_ports (filter keep state)) ≡ false
  filtered_ports [] port h = refl
  filtered_ports ((key, raw) ∷ state) port h =
      let split = elem-append port (ports_of raw) (all_ports state) in
      let rest = filtered_ports state port (ground arith) in
      elim (Bool-cases (keep (key, raw))) [
        | inl t ↦
            rw t (elem-append port (ports_of raw) (all_ports (filter keep state)) ∙ (ground arith))
        | inr f ↦ rw f rest
      ]

  -- leaves the others apart,
  pub filter-disjoint :
      (state : Registry) → is_disjoint state ≡ true → is_disjoint (filter keep state) ≡ true
  filter-disjoint [] h = refl
  filter-disjoint ((key, raw) ∷ state) h =
      let rest = filter-disjoint state (ground arith) in
      elim (Bool-cases (keep (key, raw))) [
        | inl t ↦ rw t (three (ground arith) (still_apart state (ports_of raw) (ground arith)) rest)
        | inr f ↦ rw f rest
      ]
    where
      three : {a b c : Bool} → a ≡ true → b ≡ true → c ≡ true → (a && b && c) ≡ true
      three p q r = ground arith

      still_apart :
          (state : Registry) (ports : List ℕ)
          → all (λ port. not (elem port (all_ports state))) ports ≡ true
          → all (λ port. not (elem port (all_ports (filter keep state)))) ports ≡ true
      still_apart state [] h = refl
      still_apart state (port ∷ ports) h =
          ground (arith, filtered_ports state port, still_apart state ports)

  -- and a port has the holder that it had, where that is kept, or none.
  pub holder_of-filter :
      (state : Registry) (port : ℕ)
      → is_disjoint state ≡ true
      → holder_of (filter keep state) port ≡ kept_holder keep state port
  holder_of-filter [] port h = refl
  holder_of-filter ((key, raw) ∷ state) port h = elim (Bool-cases (elem port (ports_of raw))) [
    | inl t ↦
        let apart =
          all-elem (λ p. not (elem p (all_ports state))) (ports_of raw) port (ground arith) t in
        elim (Bool-cases (keep (key, raw))) [
          | inl k ↦ rw (k, t) refl
          | inr k ↦
              rw (k, t)
                (holder_of-none (filter keep state) port (filtered_ports state port (ground arith)))
        ]
    | inr f ↦
        let rest = holder_of-filter state port (ground arith) in
        elim (Bool-cases (keep (key, raw))) [ inl k ↦ rw (k, f) rest | inr k ↦ rw (k, f) rest ]
  ]

-- A lease that the registry does not have holds no port,
pub holder_of-fresh :
    (lease_id : String) (state : Registry) (port : ℕ)
    → lookup lease_id state ≡ none
    → (holder_of state port == some lease_id) ≡ false
holder_of-fresh lease_id [] port h = refl
holder_of-fresh lease_id ((key, raw) ∷ state) port h = elim (Bool-cases (lease_id == key)) [
  | inl t ↦ absurd (let e = rw t at h in cc)
  | inr f ↦
      let rest = holder_of-fresh lease_id state port (rw f at h) in
      elim (Bool-cases (elem port (ports_of raw))) [
        | inl t ↦
            rw t (ground (arith, string_eq.beq_iff lease_id key, string_eq.beq_iff key lease_id))
        | inr g ↦ rw g rest
      ]
]

-- and one that it has holds each of its ports.
pub holder_of-lookup :
    (lease_id : String) (state : Registry) (port : ℕ) {raw : RawLease}
    → is_disjoint state ≡ true
    → lookup lease_id state ≡ some raw
    → elem port (ports_of raw) ≡ true
    → holder_of state port ≡ some lease_id
holder_of-lookup lease_id [] port d h m = cc
holder_of-lookup lease_id ((key, first) ∷ state) port {raw} d h m =
    elim (Bool-cases (lease_id == key)) [
      | inl t ↦
          let e = rw t at h in
          let same : first ≡ raw = cc in
          let here : elem port (ports_of first) ≡ true =
            ap (λ r. elem port (ports_of r)) same ∙ m in
          rw here (ap some (sym ((string_eq.beq_iff lease_id key).0 t)))
      | inr f ↦
          let later = rw f at h in
          let rest = holder_of-lookup lease_id state port (ground arith) later m in
          elim (Bool-cases (elem port (ports_of first))) [
            | inl t ↦
                let apart =
                  all-elem (λ p. not (elem p (all_ports state))) (ports_of first) port
                    (ground arith) t in
                let nobody = holder_of-none state port (ground arith) in absurd (cc)
            | inr g ↦ rw g rest
          ]
    ]

-- Erasing a lease frees its ports, and no other.
pub holder_of-erase :
    (lease_id : String) (state : Registry) (port : ℕ)
    → is_disjoint state ≡ true
    → holder_of (erase lease_id state) port
      ≡ (if holder_of state port == some lease_id then none else holder_of state port)
holder_of-erase lease_id [] port h = refl
holder_of-erase lease_id ((key, raw) ∷ state) port h =
    elim (Bool-cases (elem port (ports_of raw))) [
      | inl t ↦
          let apart =
            all-elem (λ p. not (elem p (all_ports state))) (ports_of raw) port (ground arith) t in
          let gone =
            holder_of-none (erase lease_id state) port
              (filtered_ports (λ entry. not (lease_id == entry.0)) state port (ground arith)) in
          elim (Bool-cases (lease_id == key)) [
            | inl k ↦ rw (k, t, turned k) gone
            | inr k ↦ rw (k, t, turned_not k) refl
          ]
      | inr f ↦
          let rest = holder_of-erase lease_id state port (ground arith) in
          elim (Bool-cases (lease_id == key)) [ inl k ↦ rw (k, f) rest | inr k ↦ rw (k, f) rest ]
    ]
  where
    turned : (lease_id == key) ≡ true → (key == lease_id) ≡ true
    turned k = ground (arith, string_eq.beq_iff lease_id key, string_eq.beq_iff key lease_id)

    turned_not : (lease_id == key) ≡ false → (key == lease_id) ≡ false
    turned_not k = ground (arith, string_eq.beq_iff lease_id key, string_eq.beq_iff key lease_id)
