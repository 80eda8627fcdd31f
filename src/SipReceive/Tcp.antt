-- ===== src/SipReceive/Tcp.antt =====
-- The loop of `SipInterface::onTcpRecv`: it ends, and no byte of the stream is lost.
use sip_processing.Prelude.{
  ℕ, zero, suc, ◌+◌, ◌-◌, ◌≤◌, ◌<◌, ◌≡◌, ◌⊎◌, ◌∙◌, inl, inr, refl, sym, ap, Bool-cases, true, false,
  Option-cases, List, [], ◌∷◌, ◌++◌, Option, some, none, Text, ltb, length, take, drop, stream,
  arith, take-append_of, pos, replicate,
}
use mathlib.Core.Path.{subst}
use sip_processing.MessageBuffer.{
  MessageBuffer, push, get_stored_byte_count, get_space_available_byte_count,
}
use sip_processing.MessageBuffer.Push.{push-appends}
use sip_processing.MessageBuffer.Valid.{IsValid, contents, length-contents}
use sip_processing.MessageBuffer.Pull.{pull-takes, taken}
use sip_processing.MessageBuffer.Delimited.{pull_delimited-Ends, length-taken}
use sip_processing.MessageBuffer.Length.{pull-length, pull_delimited-length}
use sip_processing.SipParser.{message_delimiter}
use sip_processing.SipReceive.{
  Received, drained, faulted, SipConnection, pull_pending, tcp_loop, on_tcp_recv,
}
use sip_processing.SipReceive.Segments.{Fed, none_yet, more-taken, stream-moved}
use sip_processing.SipReceive.Udp.{stored-drop}

-- What the loop comes to, for the parser's state `s` before it and the `bytes` stored and received: it ends with the
-- rest of the bytes stored; or the parser does not return; or a message's content needs more
-- bytes than the local array has, and `pull` writes past its end.
pub data TcpOutcome {S : Type 0} (load : Text → ℕ → S → Option (ℕ × S)) (s : S) (bytes : Text)
    (room : ℕ) : Received (SipConnection S) → Type 0 where
  waits :
      (segments : List Text) (c : SipConnection S)
      → Fed load s segments c.sip_parser
      → IsValid c.message_buffer
      → stream segments ++ contents c.message_buffer ≡ bytes
      → TcpOutcome load s bytes room (drained c)
  stuck :
      (segments : List Text) (t : S) (out rest : Text) (n : ℕ)
      → Fed load s segments t
      → load out n t ≡ none
      → stream segments ++ rest ≡ bytes
      → TcpOutcome load s bytes room faulted
  overrun :
      (segments : List Text) (c : SipConnection S)
      → Fed load s segments c.sip_parser
      → room < c.pending_message_bytes
      → room < get_stored_byte_count c.message_buffer
      → stream segments ++ contents c.message_buffer ≡ bytes
      → TcpOutcome load s bytes room faulted

-- What one `pull` of the loop gives.
abbrev Taken : {S : Type 0} → SipConnection S → List ℕ → ℕ → List ℕ → MessageBuffer → Type 0
Taken c buf n out next =
    (pull_pending c buf ≡ some (n, out, next))
    × IsValid next
    × (length out ≡ length buf)
    × (n ≤ get_stored_byte_count c.message_buffer)
    × (take n out ≡ take n (contents c.message_buffer))
    × (contents next ≡ drop n (contents c.message_buffer))

pull_pending-Taken :
    {S : Type 0} (c : SipConnection S) (buf : List ℕ)
    → IsValid c.message_buffer
    → ((pull_pending c buf ≡ none)
        × (length buf < c.pending_message_bytes)
        × (length buf < get_stored_byte_count c.message_buffer))
      ⊎ ((n : ℕ) × (out : List ℕ) × (next : MessageBuffer) × Taken c buf n out next)
unfolding pull_pending
pull_pending-Taken c buf v =
    let m = c.message_buffer in
    let count = c.pending_message_bytes in
    elim (Bool-cases (ltb 0 count)) [
      | inr section ↦
          let (n, out, next, e, fits, w, front, rest, ends) =
            pull_delimited-Ends m buf message_delimiter v (omega arith) in
          let (same, few) =
            pull_delimited-length m buf message_delimiter n out next v (omega arith) e in
          inr (n, out, next, (rw section e, w, same, few, front, rest))
      | inl content ↦ elim (pull-takes m buf count v) [
        | inr (over, q) ↦ inl (rw content q, ground arith, ground arith)
        | inl (fits, (next, q, w, rest)) ↦
            let (same, few) = pull-length m buf count _ _ next v q in
            inr (
              taken m count,
              take (taken m count) (contents m) ++ replicate (length buf - taken m count) 0,
              next,
              (
                rw content q,
                w,
                same,
                few,
                take-append_of (taken m count) _ _ (sym (length-taken m count v)),
                rest,
              ),
            )
      ]
    ]

tcp_loop-TcpOutcome :
    {S : Type 0} (load : Text → ℕ → S → Option (ℕ × S)) (fuel : ℕ) (buf : List ℕ)
    (c : SipConnection S) (s : S) (segments : List Text)
    → IsValid c.message_buffer
    → get_stored_byte_count c.message_buffer < fuel
    → Fed load s segments c.sip_parser
    → TcpOutcome load s
        (stream segments ++ contents c.message_buffer)
        (length buf)
        (tcp_loop load fuel buf c)
unfolding tcp_loop
tcp_loop-TcpOutcome load zero buf c s segments v enough fed = absurd (omega arith)
tcp_loop-TcpOutcome load (suc fuel) buf c s segments v enough fed =
    elim (pull_pending-Taken c buf v) [
      | inl (e, short, stored) ↦ rw e (overrun segments c fed short stored refl)
      | inr (n, out, next, (e, w, same, few, front, rest)) ↦
          let m = c.message_buffer in
          let t = c.sip_parser in
          let left = stored-drop m next n v w rest in
          elim (Bool-cases (ltb 0 n)) [
            | inr stop ↦
                let nothing : n ≡ 0 = ground arith in
                rw e (
                  rw stop (
                    waits segments (record c { message_buffer = next }) fed w
                      (ap (λ k. stream segments ++ k)
                        (rest ∙ ap (λ k. drop k (contents m)) nothing))))
            | inl go ↦ elim (Option-cases (load out n t)) [
              | inl none_back ↦
                  rw e
                    (rw go (rw none_back (stuck segments t out (contents m) n fed none_back refl)))
              | inr ((pending, u), back) ↦
                  let fed' =
                    more-taken load s t u segments n pending out (contents m) fed
                      (omega (arith, few, length-contents m v)) front back in
                  rw e (
                    rw go (
                      rw back (
                        subst
                          (λ b. TcpOutcome load s b (length buf) (
                            tcp_loop load fuel out (record c {
                              message_buffer = next;
                              sip_parser = u;
                              pending_message_bytes = pending;
                            })))
                          (stream-moved segments n (contents m) (contents next) rest)
                          (subst
                            (λ k.
                              TcpOutcome load s
                                (stream (segments ++ (take n (contents m) ∷ [])) ++ contents next) k
                                (tcp_loop load fuel out (record c {
                                  message_buffer = next;
                                  sip_parser = u;
                                  pending_message_bytes = pending;
                                })))
                            same
                            (tcp_loop-TcpOutcome load fuel out
                              (record c {
                                message_buffer = next;
                                sip_parser = u;
                                pending_message_bytes = pending;
                              })
                              s (segments ++ (take n (contents m) ∷ [])) w
                              (ground (arith, left, enough)) fed')))))
            ]
          ]
    ]

pushed :
    {S : Type 0} (load : Text → ℕ → S → Option (ℕ × S)) (uv_eof bytes_read : ℕ) (base : Text)
    (buf : List ℕ) (c : SipConnection S) (n : ℕ) (m : MessageBuffer)
    → c.context ≡ true
    → push c.message_buffer base ≡ some (n, m)
    → on_tcp_recv load uv_eof (pos (suc bytes_read)) base buf c
      ≡ tcp_loop load (get_stored_byte_count m + 1) buf (record c { message_buffer = m })
unfolding on_tcp_recv
pushed load uv_eof bytes_read base buf c n m context q = rw (context, q) refl

-- `onTcpRecv` for bytes that arrive on a connection with a valid buffer. Without the pointer to its
-- interface it changes nothing. With it, the loop ends, and the bytes that it is about are those stored and,
-- where the buffer has room for all the new bytes, these behind them; where it has not, the
-- new bytes are all lost. Either the loop leaves a valid buffer, and what the parser has loaded with what is
-- still stored are these bytes, in order; or a call of the parser does not return; or the content of
-- a message wants more bytes than the local array has room for while as many are stored, and `pull`
-- writes past its end. Up to there none of these bytes is lost either.
pub on_tcp_recv-TcpOutcome :
    {S : Type 0} (load : Text → ℕ → S → Option (ℕ × S)) (uv_eof bytes_read : ℕ) (base : Text)
    (buf : List ℕ) (c : SipConnection S)
    → IsValid c.message_buffer
    → ((c.context ≡ false)
        × (on_tcp_recv load uv_eof (pos (suc bytes_read)) base buf c ≡ drained c))
      ⊎ ((c.context ≡ true)
          × (length base ≤ get_space_available_byte_count c.message_buffer)
          × TcpOutcome load c.sip_parser
              (contents c.message_buffer ++ base)
              (length buf)
              (on_tcp_recv load uv_eof (pos (suc bytes_read)) base buf c))
      ⊎ ((c.context ≡ true)
          × (get_space_available_byte_count c.message_buffer < length base)
          × TcpOutcome load c.sip_parser
              (contents c.message_buffer)
              (length buf)
              (on_tcp_recv load uv_eof (pos (suc bytes_read)) base buf c))
unfolding on_tcp_recv
on_tcp_recv-TcpOutcome load uv_eof bytes_read base buf c v = elim (Bool-cases c.context) [
  | inr unset ↦ inl (unset, rw unset refl)
  | inl context ↦ elim (push-appends c.message_buffer base v) [
    | inr (over, q) ↦ inr (
        inr (
          context,
          omega (arith, over),
          rw (pushed load uv_eof bytes_read base buf c _ _ context q) (
              tcp_loop-TcpOutcome load (get_stored_byte_count c.message_buffer + 1) buf
                (record c { message_buffer = c.message_buffer }) c.sip_parser [] v (omega arith)
                none_yet),
        ))
    | inl (room, (m, q, w, e)) ↦ inr (
        inl (
          context,
          omega (arith, room),
          rw (pushed load uv_eof bytes_read base buf c _ _ context q) (
              subst
                (λ k. TcpOutcome load c.sip_parser k (length buf) (
                  tcp_loop load (get_stored_byte_count m + 1) buf
                    (record c { message_buffer = m })))
                e
                (tcp_loop-TcpOutcome load (get_stored_byte_count m + 1) buf
                  (record c { message_buffer = m }) c.sip_parser [] w (omega arith) none_yet)),
        ))
  ]
]
