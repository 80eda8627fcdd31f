-- ===== src/MediaPorts/Release.antt =====
-- What happens to a port that is given back.
use sip_processing.Prelude.{
  ℕ, zero, suc, ◌≡◌, refl, ap, inl, inr, List, [], ◌∷◌, some, leb, set, arith, Bool-cases,
  length-set,
}
use sip_processing.MediaPorts.{PortPool, release_port}

set-set : (xs : List ℕ) (i a b : ℕ) → set (set xs i a) i b ≡ set xs i b
set-set [] i a b = refl
set-set (x ∷ xs) zero a b = refl
set-set (x ∷ xs) (suc i) a b = ap (λ ys. x ∷ ys) (set-set xs i a b)

-- A port that was given back is overwritten by the next one: what follows is as if the first had
-- never been.
pub release_port-overwrites :
    (m m' : PortPool) (port other : ℕ)
    → release_port m port ≡ some m'
    → release_port m' other ≡ release_port m other
unfolding release_port
release_port-overwrites m m' port other run =
    elim (Bool-cases (leb m.port_total_count m.next_old_port_index)) [
      | inl past ↦
          ground (arith, run, past, set-set m.port_pool 0 port other, length-set m.port_pool 0 port)
      | inr inside ↦ ground (
        arith,
        run,
        inside,
        set-set m.port_pool m.next_old_port_index port other,
        length-set m.port_pool m.next_old_port_index port,
      )
    ]
