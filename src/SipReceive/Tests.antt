-- ===== src/SipReceive/Tests.antt =====
-- The receive loops on a datagram and on a stream.
use sip_processing.Prelude.{
  ℕ, refl, List, [], ◌∷◌, ◌++◌, Option, some, Text, length, codes, replicate, pos, take, ◌==◌,
  if◌then◌else◌, arith, ◌≡◌, ◌≤◌, ◌<◌, ◌⊎◌, true, false,
}
use sip_processing.MessageBuffer.{create, get_space_available_byte_count}
use sip_processing.MessageBuffer.Valid.{contents}
use sip_processing.MessageBuffer.Reset.{create-IsValid}
use sip_processing.SipReceive.{drained, on_udp_recv, on_tcp_recv, new_connection, SipConnection}
use sip_processing.SipReceive.Segments.{Outcome}
use sip_processing.SipReceive.Udp.{on_udp_recv-Outcome}
use sip_processing.SipReceive.Tcp.{TcpOutcome, on_tcp_recv-TcpOutcome}

-- A parser that keeps the segments; content of 4 bytes follows a segment of 5.
abbrev keep : Text → ℕ → List Text → Option (ℕ × List Text)
keep out n seen = some (if n == 5 then 4 else 0, seen ++ (take n out ∷ []))

abbrev zeros : ℕ → List ℕ
zeros n = replicate n 0

-- Two sections, of which the second one is not ended.
abbrev datagram : Text
datagram = codes "INVITE\r\n\r\nv=0"

on_udp_recv-Outcome_example :
    Outcome keep [] datagram
      (λ u. u)
      (λ u. [])
      (on_udp_recv keep (pos 13) datagram (zeros 4097) (zeros 4096) [])
on_udp_recv-Outcome_example =
    on_udp_recv-Outcome keep 12 datagram (zeros 4097) (zeros 4096) [] refl (omega arith) refl refl

abbrev connection : SipConnection (List Text)
connection = new_connection [] true (zeros 16193)

abbrev chunk : Text
chunk = codes "A\r\n\r\nbodyB\r\n"

on_tcp_recv-TcpOutcome_example :
    ((connection.context ≡ false)
      × (on_tcp_recv keep 4094 (pos 12) chunk (zeros 1024) connection ≡ drained connection))
    ⊎ ((connection.context ≡ true)
        × (length chunk ≤ get_space_available_byte_count connection.message_buffer)
        × TcpOutcome keep []
            (contents (create 16192 (zeros 16193)) ++ chunk)
            (length (zeros 1024))
            (on_tcp_recv keep 4094 (pos 12) chunk (zeros 1024) connection))
    ⊎ ((connection.context ≡ true)
        × (get_space_available_byte_count connection.message_buffer < length chunk)
        × TcpOutcome keep []
            (contents (create 16192 (zeros 16193)))
            (length (zeros 1024))
            (on_tcp_recv keep 4094 (pos 12) chunk (zeros 1024) connection))
on_tcp_recv-TcpOutcome_example =
    let (v, nothing) = create-IsValid 16192 (zeros 16193) (omega arith) (omega arith) refl in
    on_tcp_recv-TcpOutcome keep 4094 11 chunk (zeros 1024) connection v
