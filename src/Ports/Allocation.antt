-- ===== src/Ports/Allocation.antt =====
-- What an allocation gives, and what releasing it gives back.
use project_os.Base.{
  ℕ, zero, suc, ◌+◌, ◌-◌, ◌≤◌, ◌<◌, ◌≡◌, refl, ap, sym, ◌∙◌, Bool, true, false, not, ◌&&◌, ◌||◌,
  List, [], ◌∷◌, ◌++◌, ◌==◌, nat_eq, nat_beq_iff, elem, elem-append, elem-filter, elem-mem,
  mem-elem, filter, all_intro, all-mem, distinct, all, count_if, length, ltb, leb, ok, refuse_if,
  refuse_if-eq-ok, >>-eq-ok, arith,
}
use project_os.Ports.{
  PortAllocator, bad_count, not_enough_ports, range_from, port_range, take_usable, is_usable,
  allocate, release,
}

-- The loop keeps what it takes in order, and takes only what passes.
module _ (usable : ℕ → Bool) where
  all-take_usable : (n : ℕ) (ports : List ℕ) → all usable (take_usable usable n ports) ≡ true
  all-take_usable n [] = refl
  all-take_usable zero (port ∷ ports) = refl
  all-take_usable (suc n) (port ∷ ports) =
      ground (arith, all-take_usable n ports, all-take_usable (suc n) ports)

  length-take_usable : (n : ℕ) (ports : List ℕ) → length (take_usable usable n ports) ≤ n
  length-take_usable n [] = omega arith
  length-take_usable zero (port ∷ ports) = omega arith
  length-take_usable (suc n) (port ∷ ports) =
      ground (arith, length-take_usable n ports, length-take_usable (suc n) ports)

  elem-take_usable :
      (x n : ℕ) (ports : List ℕ) → elem x (take_usable usable n ports) ≡ true → elem x ports ≡ true
  elem-take_usable x n [] h = h
  elem-take_usable x zero (port ∷ ports) h = cc
  elem-take_usable x (suc n) (port ∷ ports) h =
      ground (arith, elem-take_usable x n ports, elem-take_usable x (suc n) ports)

  distinct-take_usable :
      (n : ℕ) (ports : List ℕ)
      → distinct ports ≡ true
      → distinct (take_usable usable n ports) ≡ true
  distinct-take_usable n [] h = refl
  distinct-take_usable zero (port ∷ ports) h = refl
  distinct-take_usable (suc n) (port ∷ ports) h = ground (
    arith,
    elem-take_usable port n ports,
    distinct-take_usable n ports,
    distinct-take_usable (suc n) ports,
  )

  -- Enough ports are found where enough pass.
  enough :
      (n : ℕ) (ports : List ℕ) → n ≤ count_if usable ports → n ≤ length (take_usable usable n ports)
  enough n [] h = ground arith
  enough zero (port ∷ ports) h = omega arith
  enough (suc n) (port ∷ ports) h = ground (arith, enough n ports, enough (suc n) ports)

elem-range_from :
    (x first n : ℕ) → elem x (range_from first n) ≡ true → (first ≤ x) × (x < first + n)
elem-range_from x first zero h = cc
elem-range_from x first (suc n) h =
    ground (arith, nat_beq_iff x first, elem-range_from x (first + 1) n)

distinct-range_from : (first n : ℕ) → distinct (range_from first n) ≡ true
distinct-range_from first zero = refl
distinct-range_from first (suc n) =
    ground (arith, elem-range_from first (first + 1) n, distinct-range_from (first + 1) n)

release-elem :
    (ports : List ℕ) (pool : PortAllocator) (x : ℕ)
    → elem x (release ports pool).reserved ≡ (elem x pool.reserved && not (elem x ports))
unfolding release
release-elem [] pool x = and_true (elem x pool.reserved)
  where
    and_true : (b : Bool) → b ≡ (b && true)
    and_true b = ground arith
release-elem (port ∷ ports) pool x = ground (
  arith,
  release-elem ports
      (record pool { reserved = filter (λ other. not (port == other)) pool.reserved }) x,
  elem-filter (λ other. not (port == other)) x pool.reserved,
  nat_beq_iff port x,
  nat_beq_iff x port,
)

module _ (is_free : ℕ → Bool) (count : ℕ) (excluded_ports : List ℕ) (pool : PortAllocator) where
  abbrev found : List ℕ
  found = take_usable (is_usable is_free pool.reserved excluded_ports) count (port_range pool)

  allocate-ok :
      {ports : List ℕ} {next : PortAllocator}
      → allocate is_free count excluded_ports pool ≡ ok (ports, next)
      → (leb count (length found) ≡ true)
        × (found ≡ ports)
        × (record pool { reserved = pool.reserved ++ found } ≡ next)
  unfolding allocate
  allocate-ok {ports} {next} h =
      let (c1, h1) = >>-eq-ok (refuse_if (ltb count 1) bad_count) _ h in
      let (c2, h2) =
        >>-eq-ok (refuse_if (ltb (length found) count) not_enough_ports)
          (ok (found, record pool { reserved = pool.reserved ++ found })) h1 in
      let t = refuse_if-eq-ok (ltb (length found) count) not_enough_ports c2 in
      (not_less (length found) count t, cc, cc)
    where
      not_less : (a b : ℕ) → ltb a b ≡ false → leb b a ≡ true
      not_less a b h = ground arith

  -- An allocation gives as many ports as were asked for, distinct, from the pool's range, and each of
  -- them neither reserved nor excluded and free; these and no others are reserved besides.
  pub allocate_lem :
      {ports : List ℕ} {next : PortAllocator}
      → allocate is_free count excluded_ports pool ≡ ok (ports, next)
      → (length ports ≡ count)
        × (distinct ports ≡ true)
        × (all (λ port. leb pool.first_port port && leb port pool.last_port) ports ≡ true)
        × (all
              (λ port.
                not (elem port pool.reserved) && not (elem port excluded_ports) && is_free port)
              ports
            ≡ true)
        × (next ≡ record pool { reserved = pool.reserved ++ ports })
  allocate_lem {ports} {next} h =
      let (enough_found, same, after) = allocate-ok h in
      let usable = is_usable is_free pool.reserved excluded_ports in
      rw (← same) (
        exact (length found) count enough_found (length-take_usable usable count (port_range pool)),
        distinct-take_usable usable count (port_range pool) (distinct-range_from pool.first_port _),
        all_intro (λ port. leb pool.first_port port && leb port pool.last_port) found
            (λ port m.
              let (low, high) =
                elem-range_from port pool.first_port (pool.last_port + 1 - pool.first_port)
                  (elem-take_usable usable port count (port_range pool) (mem-elem found m)) in
              within pool.first_port pool.last_port port low high),
        all-take_usable usable count (port_range pool),
        sym after,
      )
    where
      exact : (a b : ℕ) → leb b a ≡ true → a ≤ b → a ≡ b
      exact a b h k = ground arith

      within :
          (first last port : ℕ)
          → first ≤ port
          → port < first + (last + 1 - first)
          → (leb first port && leb port last) ≡ true
      within first last port low high = let below : port ≤ last = omega arith in ground arith

  -- Releasing what was allocated leaves reserved what was reserved before.
  pub release-allocate :
      {ports : List ℕ} {next : PortAllocator}
      → allocate is_free count excluded_ports pool ≡ ok (ports, next)
      → (port : ℕ) → elem port (release ports next).reserved ≡ elem port pool.reserved
  release-allocate {ports} {next} h port =
      let (n, d, r, u, after) = allocate_lem h in
      let now =
        ap (λ (p : PortAllocator). elem port p.reserved) after
        ∙ elem-append port pool.reserved ports in
      release-elem ports next port ∙ ap (λ b. b && not (elem port ports)) now ∙ apart u
    where
      or_and : (a : Bool) → ((a || false) && true) ≡ a
      or_and a = ground arith

      both : (a b : Bool) → (b ≡ true → a ≡ false) → ((a || b) && not b) ≡ a
      both a true h = let none_reserved = h refl in ground arith
      both a false h = or_and a

      unreserved : (a b c : Bool) → (not a && b && c) ≡ true → a ≡ false
      unreserved a b c h = ground arith

      apart :
          all (is_usable is_free pool.reserved excluded_ports) ports ≡ true
          → ((elem port pool.reserved || elem port ports) && not (elem port ports))
            ≡ elem port pool.reserved
      apart u = both (elem port pool.reserved) (elem port ports) (λ m. unreserved _ _ _ (
          all-mem (is_usable is_free pool.reserved excluded_ports) ports u (elem-mem port ports m)))

  -- Where enough ports of the range are usable, an allocation succeeds.
  pub allocate-succeeds :
      1 ≤ count
      → count ≤ count_if (is_usable is_free pool.reserved excluded_ports) (port_range pool)
      → (ports : List ℕ) × (allocate is_free count excluded_ports pool
          ≡ ok (ports, record pool { reserved = pool.reserved ++ ports }))
  unfolding allocate
  allocate-succeeds some_count many =
      let plenty =
        enough (is_usable is_free pool.reserved excluded_ports) count (port_range pool) many in
      (found, rw (positive count some_count, positive_length (length found) count plenty) refl)
    where
      positive : (n : ℕ) → 1 ≤ n → ltb n 1 ≡ false
      positive n h = ground arith

      positive_length : (n m : ℕ) → m ≤ n → ltb n m ≡ false
      positive_length n m h = ground arith
