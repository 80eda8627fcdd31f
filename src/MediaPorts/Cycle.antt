-- ===== src/MediaPorts/Cycle.antt =====
-- The ports are handed out in a cycle.
use sip_processing.Prelude.{
  ℕ, zero, suc, ◌+◌, ◌*◌, ◌%◌, ◌^◌, ◌≤◌, ◌<◌, ◌≡◌, ◌≢◌, ◌∙◌, refl, sym, ap, List, [], ◌∷◌, some,
  Option, ◌>>=◌, leb, if◌then◌else◌, length, get_elem?, arith,
}
use sip_processing.MediaPorts.{PortPool, fill_ports, create, allocate_port}

-- The pool as the constructor fills it; the next port is at an index inside.
pub record IsPool (m : PortPool) : Type 0 where
  pub ports : (i : ℕ) → i < 1499 → get_elem? m.port_pool i ≡ some (4000 + 2 * i)
  pub total : m.port_total_count ≡ 1499
  pub ready : m.next_ready_port_index < 1499

fill_ports-at :
    (left port i : ℕ)
    → port + 2 * left < 7000
    → i < left
    → get_elem? (fill_ports left port) i ≡ some (port + 2 * i)
unfolding fill_ports
fill_ports-at zero port i h l = absurd (omega arith)
fill_ports-at (suc left) port zero h l = ground arith
fill_ports-at (suc left) port (suc i) h l =
    ground (arith, fill_ports-at left (port + 2) i (omega arith) (omega arith))

-- The pool of the constructor has its ports.
pub create-IsPool : IsPool create
unfolding create
create-IsPool = record {
  ports = λ i l. fill_ports-at 1499 4000 i (omega arith) l;
  total = refl;
  ready = omega arith;
}

-- The pool with the next index.
abbrev moved : PortPool → PortPool
moved m = record m { next_ready_port_index = (m.next_ready_port_index + 1) % 1499 }

moved-IsPool : (m : PortPool) → IsPool m → IsPool (moved m)
moved-IsPool m v = record { ports = v.ports; total = v.total; ready = omega arith }

next_index :
    (r total : ℕ)
    → r < 1499
    → total ≡ 1499
    → (if leb total ((r + 1) % 2 ^ 16) then 0 else (r + 1) % 2 ^ 16) ≡ (r + 1) % 1499
next_index r total h e = ground arith

allocate_port-moved :
    (m : PortPool) → IsPool m → allocate_port m ≡ some (4000 + 2 * m.next_ready_port_index, moved m)
unfolding allocate_port
allocate_port-moved m v =
    let index : (if leb m.port_total_count ((m.next_ready_port_index + 1) % 2 ^ 16)
          then 0
          else (m.next_ready_port_index + 1) % 2 ^ 16)
        ≡ (m.next_ready_port_index + 1) % 1499 =
      next_index m.next_ready_port_index m.port_total_count v.ready v.total in
    ground (arith, v.ports m.next_ready_port_index v.ready, index)

later :
    (r : ℕ) (ports : List ℕ) (calls : ℕ)
    → r < 1499
    → ((i : ℕ) → i < calls → get_elem? ports i ≡ some (4000 + 2 * (((r + 1) % 1499 + i) % 1499)))
    → (i : ℕ) → i < suc calls
    → get_elem? ((4000 + 2 * r) ∷ ports) i ≡ some (4000 + 2 * ((r + i) % 1499))
later r ports calls l at zero k = ap some (omega arith)
later r ports calls l at (suc i) k = at i (omega arith) ∙ ap some (omega arith)

apart :
    (r i j : ℕ)
    → i < j
    → j < 1499
    → some (4000 + 2 * ((r + i) % 1499)) ≢ some (4000 + 2 * ((r + j) % 1499))
apart r i j l k e = ground (arith, e)

-- `calls` calls of `allocatePort` in a row: the ports that they return.
abbrev pub allocated : ℕ → PortPool → Option (List ℕ × PortPool)
allocated zero m = some ([], m)
allocated (suc calls) m = do
  p ← allocate_port m
  rest ← allocated calls p.1
  some (p.0 ∷ rest.0, rest.1)

-- From a pool as the constructor fills it, any number of calls of `allocatePort` in a row return the
-- ports 4000, 4002, … 6996 in a cycle, from the next one on, read no place outside the array and leave
-- such a pool.
pub allocate_port-cycle :
    (calls : ℕ) (m : PortPool)
    → IsPool m
    → (ports : List ℕ) × (m' : PortPool) × (allocated calls m ≡ some (ports, m'))
      × IsPool m'
      × (length ports ≡ calls)
      × ((i : ℕ)
          → i < calls
          → get_elem? ports i ≡ some (4000 + 2 * ((m.next_ready_port_index + i) % 1499)))
allocate_port-cycle zero m v = ([], m, refl, v, refl, λ i l. absurd (omega arith))
allocate_port-cycle (suc calls) m v =
    let (ports, m', run, v', count, at) = allocate_port-cycle calls (moved m) (moved-IsPool m v) in
    (
      (4000 + 2 * m.next_ready_port_index) ∷ ports,
      m',
      ground (arith, allocate_port-moved m v, run),
      v',
      ground (arith, count),
      later m.next_ready_port_index ports calls v.ready at,
    )

-- From a pool as the constructor fills it, as many calls of `allocatePort` in a row as there are ports,
-- or less, return different ports.
pub allocate_port-distinct :
    (calls : ℕ) (m : PortPool)
    → IsPool m
    → calls ≤ 1499
    → (ports : List ℕ) × (m' : PortPool) × (allocated calls m ≡ some (ports, m'))
      × ((i j : ℕ) → i < j → j < calls → get_elem? ports i ≢ get_elem? ports j)
allocate_port-distinct calls m v few =
    let (ports, m', run, _, _, at) = allocate_port-cycle calls m v in
    (
      ports,
      m',
      run,
      λ i j l k e.
          apart m.next_ready_port_index i j l (omega arith) (sym (at i (omega arith)) ∙ e ∙ at j k),
    )
