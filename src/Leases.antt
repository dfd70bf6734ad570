-- ===== src/Leases.antt =====
-- `PortLifecycleManager` (app/runtime/port_lifecycle.py): leases of ports in a registry that processes
-- share. Each operation runs under the lock of the registry's file, and one that raises leaves the file
-- as it was. A time is a number of seconds; what the operating system answers about a process is a
-- parameter, and so is the fresh id of a lease.
pub mod Held
pub mod Operations
pub mod Refines
use project_os.Base.{
  ℕ, ◌+◌, String, Bool, true, false, not, ◌&&◌, Option, none, some, List, [], ◌∷◌, ◌++◌, ◌==◌,
  string_eq, elem, filter, ltb, leb, is_blank, sorted, if◌then◌else◌, Result, ok, raise, ◌>>=◌,
  ◌>>◌, refuse_if, Dict, keys, lookup, insert, erase,
}
use project_os.Ports.{PortAllocator, PortError, allocate, release as release_ports}
use project_os.Patch.{raising}

pub record PortLease : Type 0 where
  pub lease_id : String
  pub owner_id : String
  pub ports : List ℕ
  pub pid : ℕ
  pub created_at : ℕ
  pub expires_at : ℕ

-- An entry of the file: a lease, or something else.
pub data RawLease : Type 0 where
  readable : PortLease → RawLease
  unreadable : RawLease

abbrev pub Registry : Type 0
Registry = Dict String RawLease

pub data LeaseError : Type 0 where
  short_ttl blank_owner unknown_lease unreadable_lease : LeaseError
  port_error : PortError → LeaseError

-- What `os.kill(pid, 0)` answers.
pub data Probe : Type 0 where
  delivered no_process not_permitted : Probe

-- PortLifecycleManager(lease_ttl_seconds=ttl)
unfoldable pub check_ttl : ℕ → Result LeaseError (Unit {0})
check_ttl ttl = refuse_if (ltb ttl 30) short_ttl

-- The leases that _reclaim_state returns: the key is the id.
abbrev pub leases_of : Registry → List PortLease
leases_of [] = []
leases_of ((key, unreadable) ∷ state) = leases_of state
leases_of ((key, readable lease) ∷ state) = record lease { lease_id = key } ∷ leases_of state

-- {port for lease in leases for port in lease.ports}
abbrev pub held_by : List PortLease → List ℕ
held_by [] = []
held_by (lease ∷ leases) = lease.ports ++ held_by leases

module _ (kill : ℕ → Probe) (now : ℕ) where
  -- _process_alive
  unfoldable pub process_alive : ℕ → Bool
  process_alive pid = if leb pid 0 then false else elim (kill pid) [ no_process ↦ false | _ ↦ true ]

  abbrev pub is_live : RawLease → Bool
  is_live unreadable = false
  is_live (readable lease) = not (leb lease.expires_at now) && process_alive lease.pid

  -- What _reclaim_state leaves in the state.
  abbrev pub reclaimed : Registry → Registry
  reclaimed state = filter (λ entry. is_live entry.1) state

  -- manager.active_leases()
  unfoldable pub active_leases : Registry → List PortLease × Registry
  active_leases state = (leases_of (reclaimed state), reclaimed state)

  -- manager.reclaim()
  unfoldable pub reclaim : Registry → List String × Registry
  reclaim state = (
    sorted (filter (λ key. not (elem key (keys (reclaimed state)))) (keys state)),
    reclaimed state,
  )

  module _ (ttl : ℕ) where
    abbrev pub new_lease : ℕ → String → String → List ℕ → PortLease
    new_lease pid lease_id owner_id ports = record {
      lease_id = lease_id;
      owner_id = owner_id;
      ports = ports;
      pid = pid;
      created_at = now;
      expires_at = now + ttl;
    }

    -- manager.acquire(owner_id, count, allocator=pool), where the process is `pid` and the new lease
    -- has the given id
    unfoldable pub acquire :
        (ℕ → Bool)
        → ℕ
        → String
        → String
        → ℕ
        → PortAllocator
        → Registry
        → Result LeaseError (PortLease × PortAllocator × Registry)
    acquire is_free pid lease_id owner_id count pool state = do
      refuse_if (is_blank owner_id) blank_owner
      allocated ←
          raising port_error (allocate is_free count (held_by (leases_of (reclaimed state))) pool)
      let lease = new_lease pid lease_id owner_id allocated.0
      ok (lease, allocated.1, insert lease_id (readable lease) (reclaimed state))

    -- The lease with a new end.
    abbrev pub extended : String → PortLease → PortLease
    extended lease_id lease = record lease { lease_id = lease_id; expires_at = now + ttl }

    -- manager.renew(lease_id)
    unfoldable pub renew : String → Registry → Result LeaseError (PortLease × Registry)
    renew lease_id state = elim (lookup lease_id (reclaimed state)) [
      | none ↦ raise unknown_lease
      | some unreadable ↦ raise unreadable_lease
      | some (readable lease) ↦ ok (
        extended lease_id lease,
        insert lease_id (readable (extended lease_id lease)) (reclaimed state),
      )
    ]

-- manager.release(lease_id, allocator=pool)
unfoldable pub release :
    String → PortAllocator → Registry → Result LeaseError (List ℕ × PortAllocator × Registry)
unfolding release_ports
release lease_id pool state = elim (lookup lease_id state) [
  | none ↦ ok ([], pool, state)
  | some unreadable ↦ raise unreadable_lease
  | some (readable lease) ↦ ok (lease.ports, release_ports lease.ports pool, erase lease_id state)
]
