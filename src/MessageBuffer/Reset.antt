-- ===== src/MessageBuffer/Reset.antt =====
-- The constructor and `flush`.
use sip_processing.Prelude.{ℕ, ◌+◌, ◌^◌, ◌<◌, ◌≡◌, refl, List, [], length, arith}
use sip_processing.MessageBuffer.{
  MessageBuffer, flush, create, get_stored_byte_count, get_space_available_byte_count,
}
use sip_processing.MessageBuffer.Valid.{IsValid, contents}

-- A new buffer of a positive capacity is valid and empty.
pub create-IsValid :
    (capacity : ℕ) (fresh : List ℕ)
    → 0 < capacity
    → capacity + 1 < 2 ^ 64
    → length fresh ≡ capacity + 1
    → IsValid (create capacity fresh) × (contents (create capacity fresh) ≡ [])
unfolding create get_stored_byte_count
create-IsValid capacity fresh p s l = (ground arith, refl)

pub space-create :
    (capacity : ℕ) (fresh : List ℕ)
    → capacity < 2 ^ 64
    → get_space_available_byte_count (create capacity fresh) ≡ capacity
unfolding create get_space_available_byte_count get_stored_byte_count
space-create capacity fresh s = ground arith

-- `flush` leaves a valid buffer valid and empty, and returns the space that is then available.
pub flush-IsValid :
    (m : MessageBuffer)
    → IsValid m
    → IsValid (flush m).1
      × (contents (flush m).1 ≡ [])
      × (get_space_available_byte_count (flush m).1 ≡ (flush m).0)
unfolding flush get_stored_byte_count get_space_available_byte_count
flush-IsValid m v = (ground arith, refl, ground arith)
