-- ===== src/Examples/Leasing.antt =====
-- Two processes lease ports of a pool of two; the first lease ends.
use project_os.Base.{
  ℕ, ◌+◌, String, ◌≡◌, refl, Bool, true, List, [], ◌∷◌, ok, raise, string_eq, is_blank,
}
use project_os.Ports.{PortAllocator, not_enough_ports, allocate}
use project_os.Leases.{
  Probe, delivered, PortLease, readable, Registry, port_error, acquire, renew, release,
  process_alive, reclaimed, unknown_lease,
}
use project_os.Leases.Held.{is_disjoint}
use project_os.Leases.Operations.{Step, acquired, Reaches, nothing_leased, after_step, Promise}
use project_os.Leases.Refines.{Reaches-disjoint, Step-refines}

abbrev kill : ℕ → Probe
kill pid = delivered

abbrev is_free : ℕ → Bool
is_free port = true

abbrev pool : PortAllocator
pool = record { first_port = 8100; last_port = 8101; reserved = [] }

abbrev pool_of : List ℕ → PortAllocator
pool_of reserved = record pool { reserved = reserved }

abbrev leased : String → ℕ → ℕ → ℕ → PortLease
leased lease_id port pid now = record {
  lease_id = lease_id;
  owner_id = "run";
  ports = port ∷ [];
  pid = pid;
  created_at = now;
  expires_at = now + 60;
}

abbrev one : Registry
one = ("a", readable (leased "a" 8100 7 0)) ∷ []

abbrev two : Registry
two = ("a", readable (leased "a" 8100 7 0)) ∷ ("b", readable (leased "b" 8101 8 5)) ∷ []

first_acquired :
    acquire kill 0 60 is_free 7 "a" "run" 1 pool []
    ≡ ok (leased "a" 8100 7 0, pool_of (8100 ∷ []), one)
unfolding acquire is_blank allocate
first_acquired = refl

-- The other process has an allocator of its own, and takes the other port.
second_acquired :
    acquire kill 5 60 is_free 8 "b" "run" 1 pool one
    ≡ ok (leased "b" 8101 8 5, pool_of (8101 ∷ []), two)
unfolding acquire is_blank allocate process_alive
second_acquired = refl

one_reached : Reaches one
one_reached = after_step nothing_leased (
    acquired kill 0 60 is_free 7 "a" "run" 1 pool (pool_of (8100 ∷ [])) (leased "a" 8100 7 0) refl
      first_acquired)

second_acquisition : Step one two
second_acquisition =
    acquired kill 5 60 is_free 8 "b" "run" 1 pool (pool_of (8101 ∷ [])) (leased "b" 8101 8 5) refl
      second_acquired

Reaches-disjoint_example : is_disjoint two ≡ true
Reaches-disjoint_example = Reaches-disjoint (after_step one_reached second_acquisition)

Step-refines_example : Promise second_acquisition
Step-refines_example = Step-refines one_reached second_acquisition

-- A lease that has ended cannot be renewed.
ended_refused : renew kill 60 60 "a" one ≡ raise unknown_lease
unfolding renew
ended_refused = refl

-- The first lease ends and is reclaimed; its release then changes nothing, so that the first process's
-- allocator keeps its port reserved and cannot give it again.
after_end :
    release "a" (pool_of (8100 ∷ [])) (reclaimed kill 60 one) ≡ ok ([], pool_of (8100 ∷ []), [])
unfolding release
after_end = refl

port_lost :
    acquire kill 61 60 is_free 7 "c" "run" 2 (pool_of (8100 ∷ [])) []
    ≡ raise (port_error not_enough_ports)
unfolding acquire is_blank allocate
port_lost = refl
