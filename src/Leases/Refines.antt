-- ===== src/Leases/Refines.antt =====
-- Every operation on the registry of leases (app/runtime/port_lifecycle.py) keeps the leases apart, and
-- does to the holders of the ports what is promised.
use project_os.Base.{
  ℕ, String, ◌≡◌, ◌⊎◌, refl, ap, sym, ◌∙◌, subst, Bool, true, false, not, ◌&&◌, none, some, List,
  [], ◌∷◌, ◌++◌, ◌==◌, string_eq, nat_eq, option_eq, elem, all, length, mem-elem, if◌then◌else◌,
  all_intro, all-mem, distinct, filter, is_blank, ok, >>-eq-ok, >>=-eq-ok, refuse_if, lookup,
  has_key, insert, insert_fresh, erase, arith, inl, inr, Bool-cases, Option-cases,
}
use project_os.Ports.{PortAllocator, allocate}
use project_os.Ports.Allocation.{allocate_lem}
use project_os.Patch.{raising}
use project_os.Patch.Revisions.{raising-eq-ok}
use project_os.Leases.{
  Probe, PortLease, RawLease, readable, unreadable, Registry, port_error, blank_owner, reclaimed,
  leases_of, held_by, acquire, renew, release, extended, new_lease, is_live,
}
use project_os.Leases.Held.{
  all_ports, is_disjoint, holder_of, held_by-leases_of, holder_of-none, filter-disjoint,
  holder_of-filter, holder_of-erase, holder_of-fresh, holder_of-lookup, ports_of,
}
use project_os.Leases.Operations.{
  Step, acquired, renewed, released, reclaimed_leases, Reaches, nothing_leased, after_step, Promise,
  live_holder, append-disjoint, holder_of-append, insert-disjoint, holder_of-insert,
}

fresh-filter :
    (keep : String × RawLease → Bool) (key : String) (state : Registry)
    → has_key key state ≡ false
    → has_key key (filter keep state) ≡ false
fresh-filter keep key [] h = refl
fresh-filter keep key ((other, raw) ∷ state) h = elim (Bool-cases (keep (other, raw))) [
  | inl t ↦ rw t (ground (arith, fresh-filter keep key state))
  | inr f ↦ rw f (fresh-filter keep key state (ground arith))
]

-- What a process that acquires a lease finds, and leaves.
pub record Taken (state after : Registry) (lease_id : String) (lease : PortLease) (count : ℕ)
    : Type 0 where
  pub no_twice : distinct lease.ports ≡ true
  pub as_many : length lease.ports ≡ count
  pub were_free : all (λ port. not (elem port (all_ports state))) lease.ports ≡ true
  pub put_in : after ≡ insert lease_id (readable lease) state

module _ (kill : ℕ → Probe) (now ttl : ℕ) where
  acquire-eq-ok :
      (is_free : ℕ → Bool) (pid : ℕ) (lease_id owner_id : String) (count : ℕ) (pool : PortAllocator)
      (state : Registry) {lease : PortLease} {next : PortAllocator} {after : Registry}
      → acquire kill now ttl is_free pid lease_id owner_id count pool state
        ≡ ok (lease, next, after)
      → Taken (reclaimed kill now state) after lease_id lease count
  unfolding acquire
  acquire-eq-ok is_free pid lease_id owner_id count pool state {lease} {next} {after} h =
      let (c, h1) = >>-eq-ok (refuse_if (is_blank owner_id) blank_owner) _ h in
      let held = held_by (leases_of (reclaimed kill now state)) in
      let (got, g, h2) = >>=-eq-ok (raising port_error (allocate is_free count held pool)) _ h1 in
      let (n, d, r, u, a) =
        allocate_lem is_free count held pool {ports = got.0} {next = got.1}
          (raising-eq-ok port_error (allocate is_free count held pool) g) in
      let made = new_lease kill now ttl pid lease_id owner_id got.0 in
      let same_lease : made ≡ lease = cc in
      let same_after : insert lease_id (readable made) (reclaimed kill now state) ≡ after = cc in
      let free =
        all_intro (λ port. not (elem port (all_ports (reclaimed kill now state)))) got.0
          (λ port m.
            let usable =
              all-mem
                (λ port. not (elem port pool.reserved) && not (elem port held) && is_free port)
                got.0 u m in
            let held_ports = ap (elem port) (held_by-leases_of (reclaimed kill now state)) in
            ground arith) in
      record {
        no_twice = subst (λ (l : PortLease). distinct l.ports ≡ true) same_lease d;
        as_many = subst (λ (l : PortLease). length l.ports ≡ count) same_lease n;
        were_free =
            subst
              (λ (l : PortLease).
                all (λ port. not (elem port (all_ports (reclaimed kill now state)))) l.ports ≡ true)
              same_lease free;
        put_in =
            sym same_after
            ∙ ap (λ l. insert lease_id (readable l) (reclaimed kill now state)) same_lease;
      }

  renew-eq-ok :
      (lease_id : String) (state : Registry) {lease : PortLease} {after : Registry}
      → renew kill now ttl lease_id state ≡ ok (lease, after)
      → (old : PortLease) × (lookup lease_id (reclaimed kill now state) ≡ some (readable old))
        × (insert lease_id
              (readable (extended kill now ttl lease_id old))
              (reclaimed kill now state)
            ≡ after)
        × (extended kill now ttl lease_id old ≡ lease)
  unfolding renew
  renew-eq-ok lease_id state {lease} {after} h =
      elim (Option-cases (lookup lease_id (reclaimed kill now state))) [
        | inl n ↦ absurd (let e = rw (n, renew) at h in cc)
        | inr (unreadable, f) ↦ absurd (let e = rw (f, renew) at h in cc)
        | inr (readable old, f) ↦ let e = rw (f, renew) at h in (old, f, cc, cc)
      ]

release-eq-ok :
    (lease_id : String) (pool : PortAllocator) (state : Registry) {ports : List ℕ}
    {next : PortAllocator} {after : Registry}
    → release lease_id pool state ≡ ok (ports, next, after)
    → ((lookup lease_id state ≡ none) × (ports ≡ []) × (state ≡ after))
      ⊎ ((old : PortLease) × (lookup lease_id state ≡ some (readable old))
          × (ports ≡ old.ports)
          × (erase lease_id state ≡ after))
unfolding release
release-eq-ok lease_id pool state {ports} {next} {after} h =
    elim (Option-cases (lookup lease_id state)) [
      | inl n ↦ let e = rw (n, release) at h in inl (n, cc, cc)
      | inr (unreadable, f) ↦ absurd (let e = rw (f, release) at h in cc)
      | inr (readable old, f) ↦ let e = rw (f, release) at h in inr (old, f, cc, cc)
    ]

-- A lease holds all its ports.
all-holder_of :
    (lease_id : String) (state : Registry) (ports : List ℕ) {raw : RawLease}
    → is_disjoint state ≡ true
    → lookup lease_id state ≡ some raw
    → ports ≡ ports_of raw
    → all (λ port. holder_of state port == some lease_id) ports ≡ true
all-holder_of lease_id state ports d f e =
    all_intro (λ port. holder_of state port == some lease_id) ports
      (λ port m.
        (option_eq.beq_iff (holder_of state port) (some lease_id)).1
          (holder_of-lookup lease_id state port d f (ap (elem port) (sym e) ∙ mem-elem ports m)))

-- What each step does, where the leases are apart before.
Step-Promise :
    {before after : Registry} (step : Step before after)
    → is_disjoint before ≡ true
    → (is_disjoint after ≡ true) × Promise step
Step-Promise {before} {after}
      (acquired kill now ttl is_free pid lease_id owner_id count pool next lease fresh h) d =
    let got = acquire-eq-ok kill now ttl is_free pid lease_id owner_id count pool before h in
    let left = reclaimed kill now before in
    let live = λ (port : ℕ). holder_of-filter (λ entry. is_live kill now entry.1) before port d in
    let here : is_disjoint left ≡ true =
      filter-disjoint (λ entry. is_live kill now entry.1) before d in
    let at_end =
      insert_fresh lease_id (readable lease) left
        (fresh-filter (λ entry. is_live kill now entry.1) lease_id before fresh) in
    let same : after ≡ left ++ (lease_id, readable lease) ∷ [] = got.put_in ∙ at_end in
    (
      ap is_disjoint same ∙ append-disjoint left lease_id lease here got.no_twice got.were_free,
      (
        got.as_many,
        got.no_twice,
        all_intro (λ port. live_holder kill now before port == none) lease.ports
            (λ port m.
              let free =
                all-mem (λ port. not (elem port (all_ports left))) lease.ports got.were_free m in
              ap (λ o. o == none) (sym (live port) ∙ holder_of-none left port (ground arith))),
        λ port.
            ap (λ s. holder_of s port) same
            ∙ holder_of-append left lease_id lease port got.were_free
            ∙ ap (λ o. if elem port lease.ports then some lease_id else o) (live port),
      ),
    )
Step-Promise {before} {after} (renewed kill now ttl lease_id lease h) d =
    let (old, f, same, is_new) = renew-eq-ok kill now ttl lease_id before h in
    let left = reclaimed kill now before in
    let here : is_disjoint left ≡ true =
      filter-disjoint (λ entry. is_live kill now entry.1) before d in
    let new = extended kill now ttl lease_id old in
    let still = λ (port : ℕ).
      ap (λ s. holder_of s port) (sym same) ∙ holder_of-insert lease_id new left port f refl in
    (
      ap is_disjoint (sym same) ∙ insert-disjoint lease_id new left f refl ∙ here,
      (
        all_intro (λ port. holder_of after port == some lease_id) lease.ports
            (λ port m.
              ap (λ o. o == some lease_id) (still port)
              ∙ all-mem (λ port. holder_of left port == some lease_id) lease.ports
                  (all-holder_of lease_id left lease.ports here f (ap (λ l. l.ports) (sym is_new)))
                  m),
        λ port. still port ∙ holder_of-filter (λ entry. is_live kill now entry.1) before port d,
      ),
    )
Step-Promise {before} {after} (released lease_id pool next ports h) d =
    elim (release-eq-ok lease_id pool before h) [
      | inl (n, none_there, same) ↦ (
        ap is_disjoint (sym same) ∙ d,
        (
          rw none_there refl,
          λ port.
              ap (λ s. holder_of s port) (sym same)
              ∙ rw (holder_of-fresh lease_id before port n) refl,
        ),
      )
      | inr (old, f, its_ports, same) ↦ (
        ap is_disjoint (sym same) ∙ filter-disjoint (λ entry. not (lease_id == entry.0)) before d,
        (
          all-holder_of lease_id before ports d f its_ports,
          λ port. ap (λ s. holder_of s port) (sym same) ∙ holder_of-erase lease_id before port d,
        ),
      )
    ]
Step-Promise {before} (reclaimed_leases kill now) d = (
  filter-disjoint (λ entry. is_live kill now entry.1) before d,
  λ port. holder_of-filter (λ entry. is_live kill now entry.1) before port d,
)

-- Whatever the processes do, no port is in two leases of the registry.
pub Reaches-disjoint : {state : Registry} → Reaches state → is_disjoint state ≡ true
Reaches-disjoint nothing_leased = refl
Reaches-disjoint (after_step r s) = (Step-Promise s (Reaches-disjoint r)).0

-- In a registry that the processes reach, each operation does to the holders of the ports what is
-- promised. Acquiring gives its lease as many ports as were asked for, distinct and held by no lease
-- that has not ended; renewing lets its lease hold its ports; both, and reclaiming, take the ports
-- from the leases that have ended. Releasing frees the ports of its lease. No other port changes
-- its holder.
pub Step-refines :
    {before after : Registry} → Reaches before → (step : Step before after) → Promise step
Step-refines r step = (Step-Promise step (Reaches-disjoint r)).1
