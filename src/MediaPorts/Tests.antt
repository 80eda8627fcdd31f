-- ===== src/MediaPorts/Tests.antt =====
-- The first ports of a new pool.
use sip_processing.Prelude.{
  ℕ, ◌+◌, ◌*◌, ◌%◌, ◌<◌, ◌≡◌, ◌≢◌, refl, List, [], ◌∷◌, some, none, codes, ◌⊎◌, length, get_elem?,
  arith,
}
use sip_processing.Sdp.Description
use sip_processing.Sdp.Description.{
  Sdp, default_sdp, set_session_id, get_session_id, set_origin, set_connection,
}
use sip_processing.Sdp.Origin
use sip_processing.MediaPorts.Sessions.{
  MediaSessionManager, new_manager, local_answer, get_session, id_of_call, answer_streams, allocate,
}
use sip_processing.MediaPorts.Answer.{start, step, allocate-Outcome}
use sip_processing.MediaPorts.{PortPool, allocate_session_id, create, release_port}
use sip_processing.MediaPorts.Cycle.{
  IsPool, create-IsPool, allocated, allocate_port-cycle, allocate_port-distinct,
}
use sip_processing.MediaPorts.Release.{release_port-overwrites}

allocate_port-cycle_example :
    (ports : List ℕ) × (m' : PortPool) × (allocated 2 create ≡ some (ports, m'))
    × IsPool m'
    × (length ports ≡ 2)
    × ((i : ℕ)
        → i < 2
        → get_elem? ports i ≡ some (4000 + 2 * ((create.next_ready_port_index + i) % 1499)))
allocate_port-cycle_example = allocate_port-cycle 2 create create-IsPool

allocate_port-distinct_example :
    (ports : List ℕ) × (m' : PortPool) × (allocated 2 create ≡ some (ports, m'))
    × ((i j : ℕ) → i < j → j < 2 → get_elem? ports i ≢ get_elem? ports j)
allocate_port-distinct_example = allocate_port-distinct 2 create create-IsPool (omega arith)

abbrev small : PortPool
small = record {
  port_pool = 4000 ∷ 4002 ∷ [];
  next_ready_port_index = 0;
  next_old_port_index = 0;
  port_available_count = 2;
  port_in_use_count = 0;
  port_total_count = 2;
  next_session_id = 1001;
}

abbrev released : PortPool
released = record small { port_pool = 4004 ∷ 4002 ∷ [] }

release_port-overwrites_example : release_port released 4006 ≡ release_port small 4006
release_port-overwrites_example =
    release_port-overwrites small released 4004 4006 (unfold release_port in refl)

-- An offer without streams, and its text.
abbrev offer : Sdp
offer = local_answer (default_sdp 5)

-- The manager after a first call.
abbrev second_manager : MediaSessionManager
second_manager = record new_manager { ports = (allocate_session_id create).1 }

abbrev first_answer : Sdp
first_answer = set_session_id 1001 (local_answer (default_sdp 6))

first_call :
    allocate (codes "call") offer (default_sdp 6) new_manager
    ≡ some (1001, first_answer, second_manager)
unfolding allocate create set_session_id set_connection set_origin Origin.of_strings
    Description.to_string get_session id_of_call answer_streams
first_call = refl

allocate-Outcome_example :
    ((Description.to_string offer ≡ none)
      × (allocate (codes "call") offer (default_sdp 7) second_manager ≡ none))
    ⊎ ((0 < offer.stream_count)
        × (allocate (codes "call") offer (default_sdp 7) second_manager ≡ none))
    ⊎ ((Description.to_string offer ≢ none)
        × (offer.stream_count ≡ 0)
        × ((a : Sdp) × (allocate (codes "call") offer (default_sdp 7) second_manager
              ≡ some (
                second_manager.ports.next_session_id,
                a,
                record second_manager { ports = (allocate_session_id second_manager.ports).1 },
              ))
            × (get_session_id a ≡ second_manager.ports.next_session_id)))
allocate-Outcome_example = allocate-Outcome (codes "call") offer 7 second_manager (
    step (codes "call") offer (default_sdp 6) new_manager second_manager 1001 first_answer start
      first_call)
