-- ===== src/Ports.antt =====
-- `PortAllocator` (app/runtime/port_allocator.py). Every method runs under the allocator's lock. The
-- bind probe `_is_free` asks the operating system: a parameter of what uses it.
pub mod Allocation
use project_os.Base.{
  ℕ, zero, suc, ◌+◌, ◌-◌, Bool, not, ◌&&◌, ◌||◌, List, [], ◌∷◌, ◌++◌, ◌==◌, nat_eq, elem, filter,
  length, ltb, leb, if◌then◌else◌, Result, ok, raise, ◌>>=◌, ◌>>◌, refuse_if,
}

-- The first and the last port, and the reserved ones.
pub record PortAllocator : Type 0 where
  pub first_port : ℕ
  pub last_port : ℕ
  pub reserved : List ℕ

pub data PortError : Type 0 where
  bad_range bad_count not_enough_ports : PortError

-- PortAllocator(port_range=(start, end))
unfoldable pub port_allocator : ℕ → ℕ → Result PortError PortAllocator
port_allocator first_port last_port = do
  refuse_if (ltb first_port 1 || ltb last_port first_port || ltb 65535 last_port) bad_range
  ok (record { first_port = first_port; last_port = last_port; reserved = [] })

-- range(first, first + n)
abbrev pub range_from : ℕ → ℕ → List ℕ
range_from first zero = []
range_from first (suc n) = first ∷ range_from (first + 1) n

abbrev pub port_range : PortAllocator → List ℕ
port_range pool = range_from pool.first_port (pool.last_port + 1 - pool.first_port)

-- The loop: what passes, until there are enough.
abbrev pub take_usable : (ℕ → Bool) → ℕ → List ℕ → List ℕ
take_usable usable missing [] = []
take_usable usable zero (port ∷ ports) = []
take_usable usable (suc missing) (port ∷ ports) =
    if usable port
    then port ∷ take_usable usable missing ports
    else take_usable usable (suc missing) ports

module _ (is_free : ℕ → Bool) where
  abbrev pub is_usable : List ℕ → List ℕ → ℕ → Bool
  is_usable reserved excluded port =
      not (elem port reserved) && not (elem port excluded) && is_free port

  unfoldable pub allocate : ℕ → List ℕ → PortAllocator → Result PortError (List ℕ × PortAllocator)
  allocate count excluded_ports pool = do
    refuse_if (ltb count 1) bad_count
    let available = take_usable (is_usable pool.reserved excluded_ports) count (port_range pool)
    refuse_if (ltb (length available) count) not_enough_ports
    ok (available, record pool { reserved = pool.reserved ++ available })

-- PortAllocator.release
unfoldable pub release : List ℕ → PortAllocator → PortAllocator
release [] pool = pool
release (port ∷ ports) pool =
    release ports (record pool { reserved = filter (λ other. not (port == other)) pool.reserved })
