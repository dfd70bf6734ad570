-- ===== src/Examples/Allocations.antt =====
-- Allocations from a pool of four ports, of which another process holds one.
use project_os.Base.{
  ℕ, ◌≡◌, refl, Bool, true, not, ◌&&◌, ◌==◌, nat_eq, List, [], ◌∷◌, ◌++◌, elem, distinct, all,
  length, leb, ok, raise, arith,
}
use project_os.Ports.{PortAllocator, not_enough_ports, allocate, release}
use project_os.Ports.Allocation.{allocate_lem, release-allocate, allocate-succeeds}

abbrev pool : PortAllocator
pool = record { first_port = 8100; last_port = 8103; reserved = 8100 ∷ [] }

abbrev is_free : ℕ → Bool
is_free port = not (port == 8101)

abbrev given : List ℕ
given = 8102 ∷ 8103 ∷ []

abbrev pool_after : PortAllocator
pool_after = record { first_port = 8100; last_port = 8103; reserved = 8100 ∷ 8102 ∷ 8103 ∷ [] }

two_given : allocate is_free 2 [] pool ≡ ok (given, pool_after)
unfolding allocate
two_given = refl

three_refused : allocate is_free 3 [] pool ≡ raise not_enough_ports
unfolding allocate
three_refused = refl

allocate_lem_example :
    (length given ≡ 2)
    × (distinct given ≡ true)
    × (all (λ port. leb 8100 port && leb port 8103) given ≡ true)
    × (all (λ port. not (elem port (8100 ∷ [])) && not (elem {A = ℕ} port []) && is_free port) given
        ≡ true)
    × (pool_after ≡ record pool { reserved = (8100 ∷ []) ++ given })
allocate_lem_example = allocate_lem is_free 2 [] pool {ports = given} {next = pool_after} two_given

release-allocate_example : elem 8102 (release given pool_after).reserved ≡ elem 8102 pool.reserved
release-allocate_example =
    release-allocate is_free 2 [] pool {ports = given} {next = pool_after} two_given 8102

allocate-succeeds_example :
    (ports : List ℕ) × (allocate is_free 2 [] pool
      ≡ ok (ports, record pool { reserved = (8100 ∷ []) ++ ports }))
allocate-succeeds_example = allocate-succeeds is_free 2 [] pool (omega arith) (omega arith)
