-- ===== src/Leases/Operations.antt =====
-- The operations on the registry of leases (app/runtime/port_lifecycle.py) as steps, and what they do
-- to the holders of the ports.
use project_os.Base.{
  ℕ, String, ◌≡◌, refl, ap, sym, ◌∙◌, Bool, true, false, not, ◌&&◌, ◌||◌, Option, none, some, List,
  [], ◌∷◌, ◌++◌, ◌==◌, string_eq, nat_eq, option_eq, elem, elem-append, length, all, all_intro,
  mem-elem, distinct, if◌then◌else◌, ok, lookup, has_key, insert, arith, inl, inr, Bool-cases,
}
use project_os.Ports.{PortAllocator}
use project_os.Leases.{
  Probe, PortLease, RawLease, readable, Registry, reclaimed, acquire, renew, release, is_live,
}
use project_os.Leases.Held.{ports_of, all_ports, is_disjoint, holder_of, kept_holder, all-elem}

-- One operation of some process, at some time; a process acquires with an id that the registry does
-- not have.
pub data Step : Registry → Registry → Type 0 where
  acquired :
      (kill : ℕ → Probe) (now ttl : ℕ) (is_free : ℕ → Bool) (pid : ℕ) (lease_id owner_id : String)
      (count : ℕ) (pool next : PortAllocator) (lease : PortLease) {before after : Registry}
      → has_key lease_id before ≡ false
      → acquire kill now ttl is_free pid lease_id owner_id count pool before
        ≡ ok (lease, next, after)
      → Step before after
  renewed :
      (kill : ℕ → Probe) (now ttl : ℕ) (lease_id : String) (lease : PortLease)
      {before after : Registry}
      → renew kill now ttl lease_id before ≡ ok (lease, after)
      → Step before after
  released :
      (lease_id : String) (pool next : PortAllocator) (ports : List ℕ) {before after : Registry}
      → release lease_id pool before ≡ ok (ports, next, after)
      → Step before after
  reclaimed_leases :
      (kill : ℕ → Probe) (now : ℕ) {before : Registry} → Step before (reclaimed kill now before)

pub data Reaches : Registry → Type 0 where
  nothing_leased : Reaches []
  after_step : {before after : Registry} → Reaches before → Step before after → Reaches after

-- Who holds a port once the leases that have ended are left out.
abbrev pub live_holder : (ℕ → Probe) → ℕ → Registry → ℕ → Option String
live_holder kill now = kept_holder (λ entry. is_live kill now entry.1)

-- What is promised of each operation, in terms of who holds the ports before and after it. Acquiring
-- gives the new lease as many ports as were asked for, distinct and held by no lease that has not
-- ended; renewing lets its lease hold its ports; both, and reclaiming, take the ports from the leases
-- that have ended, and no other. Releasing frees the ports of its lease, which it returns, and no
-- other.
abbrev pub Promise : {before after : Registry} → Step before after → Type 0
Promise {before} {after}
      (acquired kill now ttl is_free pid lease_id owner_id count pool next lease fresh h) =
    (length lease.ports ≡ count)
    × (distinct lease.ports ≡ true)
    × (all (λ port. live_holder kill now before port == none) lease.ports ≡ true)
    × ((port : ℕ)
        → holder_of after port
          ≡ (if elem port lease.ports then some lease_id else live_holder kill now before port))
Promise {before} {after} (renewed kill now ttl lease_id lease h) =
    (all (λ port. holder_of after port == some lease_id) lease.ports ≡ true)
    × ((port : ℕ) → holder_of after port ≡ live_holder kill now before port)
Promise {before} {after} (released lease_id pool next ports h) =
    (all (λ port. holder_of before port == some lease_id) ports ≡ true)
    × ((port : ℕ)
        → holder_of after port
          ≡ (if holder_of before port == some lease_id then none else holder_of before port))
Promise {before} {after} (reclaimed_leases kill now) =
    (port : ℕ) → holder_of after port ≡ live_holder kill now before port

all_ports-append :
    (state : Registry) (key : String) (lease : PortLease) (port : ℕ)
    → elem port (all_ports (state ++ (key, readable lease) ∷ []))
      ≡ (elem port (all_ports state) || elem port lease.ports)
all_ports-append [] key lease port =
    elem-append port lease.ports [] ∙ or_false (elem port lease.ports)
  where
    or_false : (b : Bool) → (b || false) ≡ b
    or_false b = ground arith
all_ports-append ((other, raw) ∷ state) key lease port =
    let first = elem-append port (ports_of raw) (all_ports (state ++ (key, readable lease) ∷ [])) in
    let rest = all_ports-append state key lease port in
    let split = elem-append port (ports_of raw) (all_ports state) in ground arith

-- Ports that are apart from those of a list of leases are apart from the rest of it.
apart_from_rest :
    (ports : List ℕ) (raw : RawLease) (state : Registry)
    → all (λ port. not (elem port (ports_of raw ++ all_ports state))) ports ≡ true
    → all (λ port. not (elem port (all_ports state))) ports ≡ true
apart_from_rest [] raw state h = refl
apart_from_rest (port ∷ ports) raw state h =
    ground
      (arith, elem-append port (ports_of raw) (all_ports state), apart_from_rest ports raw state)

-- A lease at the end.
pub append-disjoint :
    (state : Registry) (key : String) (lease : PortLease)
    → is_disjoint state ≡ true
    → distinct lease.ports ≡ true
    → all (λ port. not (elem port (all_ports state))) lease.ports ≡ true
    → is_disjoint (state ++ (key, readable lease) ∷ []) ≡ true
append-disjoint [] key lease h d a = ground arith
append-disjoint ((other, raw) ∷ state) key lease h d a =
    three (ground arith)
      (all_intro (λ port. not (elem port (all_ports (state ++ (key, readable lease) ∷ []))))
        (ports_of raw) (λ port m. apart port (mem-elem (ports_of raw) m)))
      (append-disjoint state key lease (ground arith) d (apart_from_rest lease.ports raw state a))
  where
    three : {a b c : Bool} → a ≡ true → b ≡ true → c ≡ true → (a && b && c) ≡ true
    three p q r = ground arith

    other_ports : (port : ℕ) → elem port (ports_of raw) ≡ true → elem port lease.ports ≡ false
    other_ports port m = elim (Bool-cases (elem port lease.ports)) [
      | inl t ↦
          let away =
            all-elem (λ port. not (elem port (ports_of raw ++ all_ports state))) lease.ports port a
              t in
          let split = elem-append port (ports_of raw) (all_ports state) in absurd (ground arith)
      | inr f ↦ f
    ]

    apart :
        (port : ℕ)
        → elem port (ports_of raw) ≡ true
        → not (elem port (all_ports (state ++ (key, readable lease) ∷ []))) ≡ true
    apart port m =
        let away =
          all-elem (λ port. not (elem port (all_ports state))) (ports_of raw) port (ground arith)
            m in
        let own = other_ports port m in
        let whole = all_ports-append state key lease port in ground arith

pub holder_of-append :
    (state : Registry) (key : String) (lease : PortLease) (port : ℕ)
    → all (λ port. not (elem port (all_ports state))) lease.ports ≡ true
    → holder_of (state ++ (key, readable lease) ∷ []) port
      ≡ (if elem port lease.ports then some key else holder_of state port)
holder_of-append [] key lease port a = refl
holder_of-append ((other, raw) ∷ state) key lease port a =
    let rest = holder_of-append state key lease port (apart_from_rest lease.ports raw state a) in
    elim (Bool-cases (elem port (ports_of raw))) [
      | inl t ↦ rw (t, other_ports t) refl
      | inr f ↦ rw f rest
    ]
  where
    other_ports : elem port (ports_of raw) ≡ true → elem port lease.ports ≡ false
    other_ports m = elim (Bool-cases (elem port lease.ports)) [
      | inl t ↦
          let away =
            all-elem (λ port. not (elem port (ports_of raw ++ all_ports state))) lease.ports port a
              t in
          let split = elem-append port (ports_of raw) (all_ports state) in absurd (ground arith)
      | inr f ↦ f
    ]

-- A lease in the place of one with the same ports.
module _ (key : String) (lease : PortLease) where
  all_ports-insert :
      (state : Registry) {raw : RawLease}
      → lookup key state ≡ some raw
      → ports_of raw ≡ lease.ports
      → all_ports (insert key (readable lease) state) ≡ all_ports state
  all_ports-insert [] h e = cc
  all_ports-insert ((other, old) ∷ state) {raw} h e = elim (Bool-cases (key == other)) [
    | inl t ↦
        let found = rw t at h in
        let same : old ≡ raw = cc in let ports = ap ports_of same ∙ e in rw (t, sym ports) refl
    | inr f ↦ rw (f, all_ports-insert state (rw f at h) e) refl
  ]

  pub insert-disjoint :
      (state : Registry) {raw : RawLease}
      → lookup key state ≡ some raw
      → ports_of raw ≡ lease.ports
      → is_disjoint (insert key (readable lease) state) ≡ is_disjoint state
  insert-disjoint [] h e = cc
  insert-disjoint ((other, old) ∷ state) {raw} h e = elim (Bool-cases (key == other)) [
    | inl t ↦
        let found = rw t at h in
        let same : old ≡ raw = cc in let ports = ap ports_of same ∙ e in rw (t, sym ports) refl
    | inr f ↦
        let later = rw f at h in
        rw (f, all_ports-insert state later e, insert-disjoint state later e) refl
  ]

  pub holder_of-insert :
      (state : Registry) (port : ℕ) {raw : RawLease}
      → lookup key state ≡ some raw
      → ports_of raw ≡ lease.ports
      → holder_of (insert key (readable lease) state) port ≡ holder_of state port
  holder_of-insert [] port h e = cc
  holder_of-insert ((other, old) ∷ state) port {raw} h e = elim (Bool-cases (key == other)) [
    | inl t ↦
        let found = rw t at h in
        let same : old ≡ raw = cc in let ports = ap ports_of same ∙ e in rw (t, sym ports) refl
    | inr f ↦ rw (f, holder_of-insert state port (rw f at h) e) refl
  ]
