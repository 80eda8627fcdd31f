-- ===== src/MediaPorts.antt =====
-- The ports and session ids of src/components/media/session/MediaSessionManager.cpp. A read or a
-- write outside the array `portPool` is undefined in C++: here it returns `none`. Every `uint16_t`
-- and `uint32_t` keeps its wrap-around.
use mathlib.Core.Option
pub mod Cycle
pub mod Release
pub mod Sessions
pub mod Answer
mod Tests
use sip_processing.Prelude.{
  ◌>>=◌, ℕ, zero, suc, ◌+◌, ◌-◌, ◌/◌, ◌%◌, ◌^◌, Bool, true, false, ◌&&◌, List, [], ◌∷◌, Option,
  none, some, ltb, leb, if◌then◌else◌, length, get_elem?, set,
}

abbrev pub config_rtp_port_min : ℕ
config_rtp_port_min = 4000

abbrev pub config_rtp_port_max : ℕ
config_rtp_port_max = 6998

pub record PortPool : Type 0 where
  pub port_pool : List ℕ
  pub next_ready_port_index : ℕ
  pub next_old_port_index : ℕ
  pub port_available_count : ℕ
  pub port_in_use_count : ℕ
  pub port_total_count : ℕ
  pub next_session_id : ℕ

-- The constructor's loop over the port numbers, with `left` places of the array to fill.
unfoldable pub fill_ports : ℕ → ℕ → List ℕ
fill_ports zero port = []
fill_ports (suc left) port =
    let rest = fill_ports left ((port + 2) % 2 ^ 16) in
    if leb port config_rtp_port_max then port ∷ rest else []

abbrev pub total_count : ℕ
total_count = (config_rtp_port_max - config_rtp_port_min) / 2 % 2 ^ 16

unfoldable pub create : PortPool
unfolding fill_ports
create = record {
  port_pool = fill_ports total_count config_rtp_port_min;
  next_ready_port_index = 0;
  next_old_port_index = 0;
  port_available_count = total_count;
  port_in_use_count = 0;
  port_total_count = total_count;
  next_session_id = 1001;
}

unfoldable pub allocate_port : PortPool → Option (ℕ × PortPool)
allocate_port m =
    let index = (m.next_ready_port_index + 1) % 2 ^ 16 in
    Option.map
      (λ port. (
        port,
        record m { next_ready_port_index = if leb m.port_total_count index then 0 else index },
      ))
      (get_elem? m.port_pool m.next_ready_port_index)

abbrev pub allocate_session_id : PortPool → ℕ × PortPool
allocate_session_id m =
    (m.next_session_id, record m { next_session_id = (m.next_session_id + 1) % 2 ^ 32 })

unfoldable pub release_port : PortPool → ℕ → Option PortPool
release_port m port =
    let index = if leb m.port_total_count m.next_old_port_index then 0 else m.next_old_port_index in
    if ltb index (length m.port_pool)
    then some (record m { next_old_port_index = index; port_pool = set m.port_pool index port })
    else none
