-- ===== src/SipReceive.antt =====
-- The loops of `SipInterface::onUdpRecv` and `onTcpRecv` in src/components/sip/SipInterface.cpp, and
-- src/components/sip/SipConnection.hpp. The parser is a parameter: `load` is its `loadMessageData`,
-- which gets the memory at the pointer and the number of bytes, and `S` its state. What is undefined in
-- C++ is `faulted`.
pub mod Segments
pub mod Udp
pub mod Tcp
mod Tests
use sip_processing.Prelude.{
  ℕ, zero, suc, ◌+◌, ◌-◌, Bool, true, false, ◌&&◌, not, List, [], ◌∷◌, ◌++◌, Option, none, some,
  Text, ltb, ◌==◌, if◌then◌else◌, length, take, ◌>>=◌, ℤ, pos, negsuc, is_zero,
}
use sip_processing.MessageBuffer.{
  MessageBuffer, create, push, pull, pull_delimited, get_stored_byte_count,
}
use sip_processing.SipParser.{message_delimiter}
use sip_processing.SipParser.Normalise.{Parser}
use sip_processing.SipParser.Load.{load_message_data}
use sip_processing.SipMessage.{SipMessage}

-- What a loop comes to.
pub data Received {ℓ} (A : Type ℓ) : Type ℓ where
  drained : A → Received A
  faulted : Received A
  out_of_fuel : Received A

abbrev pub received {ℓ κ} : {A : Type ℓ} {B : Type κ} → Option A → (A → Received B) → Received B
received none next = faulted
received (some a) next = next a

-- A connection; its buffer has room for 16192 bytes, and `context` says that the pointer `data` to its
-- interface is set.
pub record SipConnection (S : Type 0) : Type 0 where
  pub message_buffer : MessageBuffer
  pub sip_parser : S
  pub pending_message_bytes : ℕ
  pub context : Bool

-- A new connection; `fresh` is the memory of the buffer's array, which is not written.
abbrev pub new_connection : {S : Type 0} → S → Bool → List ℕ → SipConnection S
new_connection parser context fresh = record {
  message_buffer = create 16192 fresh;
  sip_parser = parser;
  pending_message_bytes = 0;
  context = context;
}

-- The first `pull` of a round, and the second one if it gives nothing while bytes are stored.
unfoldable pub pull_segment : MessageBuffer → List ℕ → Option (ℕ × List ℕ × MessageBuffer)
unfolding get_stored_byte_count
pull_segment m buf = pull_delimited m buf message_delimiter >>= λ (count, out, next).
    if count == 0 && ltb 0 (get_stored_byte_count next)
    then pull next out (get_stored_byte_count next)
    else some (count, out, next)

-- One `pull` of `onTcpRecv`: the bytes of the message's content that are missing, or a header section.
unfoldable pub pull_pending :
    {S : Type 0} → SipConnection S → List ℕ → Option (ℕ × List ℕ × MessageBuffer)
pull_pending c buf =
    if ltb 0 c.pending_message_bytes
    then pull c.message_buffer buf c.pending_message_bytes
    else pull_delimited c.message_buffer buf message_delimiter

module _ {S : Type 0} (load : Text → ℕ → S → Option (ℕ × S)) where
  -- The loop of `onUdpRecv`, whose body runs at least once.
  unfoldable pub udp_loop : ℕ → MessageBuffer → List ℕ → S → Received S
  unfolding pull_segment get_stored_byte_count
  udp_loop zero m buf parser = out_of_fuel
  udp_loop (suc fuel) m buf parser = received (pull_segment m buf) (λ (count, out, next).
      received (load out count parser) (λ (pending, loaded).
        let rest = udp_loop fuel next out loaded in
        if ltb 0 (get_stored_byte_count next) then rest else drained loaded))

  -- `onUdpRecv` for a datagram: `bytes_read` is negative for an error, `base` are the bytes read. `fresh` and
  -- `buf` are the memory of the two arrays.
  unfoldable pub on_udp_recv : ℤ → Text → List ℕ → List ℕ → S → Received S
  unfolding udp_loop
  on_udp_recv bytes_read base fresh buf parser = elim bytes_read [
    | negsuc n ↦ drained parser
    | pos zero ↦ drained parser
    | pos (suc n) ↦
        received (push (create 4096 fresh) base)
          (λ (count, m). udp_loop (length base + 1) m buf parser)
  ]

  -- The loop of `onTcpRecv`, which ends with the first `pull` that gives nothing.
  unfoldable pub tcp_loop : ℕ → List ℕ → SipConnection S → Received (SipConnection S)
  unfolding pull_pending
  tcp_loop zero buf c = out_of_fuel
  tcp_loop (suc fuel) buf c = received (pull_pending c buf) (λ (count, out, next).
      let rest = received (load out count c.sip_parser) (λ (pending, loaded).
        tcp_loop fuel out (record c {
          message_buffer = next;
          sip_parser = loaded;
          pending_message_bytes = pending;
        })) in
      if ltb 0 count then rest else drained (record c { message_buffer = next }))

  -- `onTcpRecv` for `bytes_read` bytes at `base`. An error is negative, and so is the end of the stream,
  -- `UV_EOF` of libuv, `negsuc uv_eof`, which is logged through the interface.
  unfoldable pub on_tcp_recv : ℕ → ℤ → Text → List ℕ → SipConnection S → Received (SipConnection S)
  unfolding tcp_loop get_stored_byte_count
  on_tcp_recv uv_eof bytes_read base buf c = elim bytes_read [
    | negsuc n ↦ if n == uv_eof && not c.context then faulted else drained c
    | pos zero ↦ drained c
    | pos (suc n) ↦
        let drain = received (push c.message_buffer base) (λ (count, m).
          tcp_loop (get_stored_byte_count m + 1) buf (record c { message_buffer = m })) in
        if c.context then drain else drained c
  ]

-- The parser with the events that it has raised.
abbrev pub load_events :
    Bool → ℕ → Bool → Text → ℕ → Parser × List SipMessage → Option (ℕ × (Parser × List SipMessage))
load_events log channel_id reinvite_flag buf len (p, events) =
    load_message_data log channel_id reinvite_flag buf len p >>= λ r.
    some (r.pending, (r.parser, events ++ r.events))
