-- ===== src/SipReceive/Udp.antt =====
-- The loop of `SipInterface::onUdpRecv`: it ends, and what the parser gets is the datagram.
use sip_processing.Prelude.{
  ℕ, zero, suc, ◌+◌, ◌-◌, ◌≤◌, ◌<◌, ◌≡◌, ◌∙◌, inl, inr, refl, sym, ap, Bool-cases, Option-cases,
  List, [], ◌∷◌, ◌++◌, Option, some, Text, ltb, ◌==◌, ◌&&◌, length, take, drop, stream, arith,
  length-drop, take-append_of, pos, replicate,
}
use mathlib.Core.Path.{subst}
use sip_processing.MessageBuffer.{MessageBuffer, create, get_stored_byte_count}
use sip_processing.MessageBuffer.Push.{push-appends}
use sip_processing.MessageBuffer.Reset.{create-IsValid, space-create}
use sip_processing.MessageBuffer.Valid.{IsValid, contents, length-contents}
use sip_processing.MessageBuffer.Pull.{pull-takes, taken}
use sip_processing.MessageBuffer.Delimited.{pull_delimited-Ends, length-taken}
use sip_processing.MessageBuffer.Length.{pull-length, pull_delimited-length}
use sip_processing.SipParser.{message_delimiter}
use sip_processing.SipReceive.{pull_segment, udp_loop, on_udp_recv}
use sip_processing.SipReceive.Segments.{
  Fed, none_yet, Outcome, loaded, stuck, more-taken, stream-moved,
}

-- What a round pulls: the oldest bytes, and not nothing while some are stored.
abbrev Pulled : MessageBuffer → List ℕ → ℕ → List ℕ → MessageBuffer → Type 0
Pulled m buf n out next =
    (pull_segment m buf ≡ some (n, out, next))
    × IsValid next
    × (length out ≡ length buf)
    × (n ≤ get_stored_byte_count m)
    × (take n out ≡ take n (contents m))
    × (contents next ≡ drop n (contents m))
    × ((n ≡ 0) → get_stored_byte_count next ≡ 0)

pub stored-drop :
    (m next : MessageBuffer) (n : ℕ)
    → IsValid m
    → IsValid next
    → contents next ≡ drop n (contents m)
    → get_stored_byte_count next ≡ get_stored_byte_count m - n
stored-drop m next n v w c =
    sym (length-contents next w)
    ∙ ap length c
    ∙ length-drop n (contents m)
    ∙ ap (λ k. k - n) (length-contents m v)

pull_segment-Pulled :
    (m : MessageBuffer) (buf : List ℕ)
    → IsValid m
    → get_stored_byte_count m ≤ length buf
    → (n : ℕ) × (out : List ℕ) × (next : MessageBuffer) × Pulled m buf n out next
unfolding pull_segment
pull_segment-Pulled m buf v room =
    let (n, out, next, e, fits, w, front, rest, ends) =
      pull_delimited-Ends m buf message_delimiter v (omega arith) in
    let left = stored-drop m next n v w rest in
    let (same, few) = pull_delimited-length m buf message_delimiter n out next v (omega arith) e in
    elim (Bool-cases (n == 0 && ltb 0 (get_stored_byte_count next))) [
      | inr stop ↦ (n, out, next, (rw (e, stop) refl, w, same, few, front, rest, λ z. ground arith))
      | inl again ↦
          let nothing : n ≡ 0 = ground arith in
          let stored = get_stored_byte_count next in
          let all : taken next stored ≡ stored = ground arith in
          elim (pull-takes next out stored w) [
            | inr (over, _) ↦ absurd (omega arith)
            | inl (fits', (last, q, x, c)) ↦
                let (same', few') = pull-length next out stored _ _ last w q in
                let whole : contents next ≡ contents m =
                  rest ∙ ap (λ k. drop k (contents m)) nothing in
                (
                  taken next stored,
                  take (taken next stored) (contents next)
                      ++ replicate (length out - taken next stored) 0,
                  last,
                  (
                    rw (e, again) q,
                    x,
                    same' ∙ same,
                    omega (arith, few', left, nothing),
                    take-append_of (taken next stored) _ _ (sym (length-taken next stored w))
                        ∙ ap (take (taken next stored)) whole,
                    c ∙ ap (drop (taken next stored)) whole,
                    λ z. absurd (ground arith),
                  ),
                )
          ]
    ]

length-zero : (xs : Text) → length xs ≡ 0 → xs ≡ []
length-zero [] e = refl
length-zero (x ∷ xs) e = absurd (omega arith)

pub empty : (m : MessageBuffer) → IsValid m → get_stored_byte_count m ≡ 0 → contents m ≡ []
empty m v e = length-zero (contents m) (length-contents m v ∙ e)

udp_loop-Outcome :
    {S : Type 0} (load : Text → ℕ → S → Option (ℕ × S)) (fuel : ℕ) (m : MessageBuffer)
    (buf : List ℕ) (s t : S) (segments : List Text)
    → IsValid m
    → get_stored_byte_count m ≤ length buf
    → get_stored_byte_count m < fuel
    → Fed load s segments t
    → Outcome load s (stream segments ++ contents m) (λ u. u) (λ u. []) (udp_loop load fuel m buf t)
unfolding udp_loop
udp_loop-Outcome load zero m buf s t segments v room enough fed = absurd (omega arith)
udp_loop-Outcome load (suc fuel) m buf s t segments v room enough fed =
    let (n, out, next, (e, w, same, few, front, rest, ends)) = pull_segment-Pulled m buf v room in
    let left = stored-drop m next n v w rest in
    elim (Option-cases (load out n t)) [
      | inl none_back ↦ rw (e, none_back) (stuck segments t out (contents m) n fed none_back refl)
      | inr ((pending, u), back) ↦
          let fed' =
            more-taken load s t u segments n pending out (contents m) fed
              (omega (arith, few, length-contents m v)) front back in
          let moved = stream-moved segments n (contents m) (contents next) rest in
          elim (Bool-cases (ltb 0 (get_stored_byte_count next))) [
            | inr stop ↦
                rw (e, back, stop)
                  (loaded (segments ++ (take n (contents m) ∷ [])) u fed' (
                    ap (λ k. stream (segments ++ (take n (contents m) ∷ [])) ++ k)
                      (sym (empty next w (ground arith)))
                    ∙ moved))
            | inl again ↦
                rw (e, back, again)
                  (subst (λ b. Outcome load s b (λ u. u) (λ u. []) (udp_loop load fuel next out u))
                    moved
                    (udp_loop-Outcome load fuel next out s u
                      (segments ++ (take n (contents m) ∷ [])) w (omega (arith, left, same, room))
                      (ground (arith, left, ends, enough)) fed'))
          ]
    ]

-- `onUdpRecv` for a datagram of 1 to 4096 bytes: the loop ends, and either the parser has loaded
-- segments that, one after the other, are the datagram, or it has loaded the start of it in this way and does
-- not return from the call that comes next. No byte is lost, repeated or put in another place, and
-- nothing is accessed outside the two buffers.
pub on_udp_recv-Outcome :
    {S : Type 0} (load : Text → ℕ → S → Option (ℕ × S)) (bytes_read : ℕ) (base : Text)
    (fresh buf : List ℕ) (s : S)
    → length base ≡ suc bytes_read
    → length base ≤ 4096
    → length fresh ≡ 4097
    → length buf ≡ 4096
    → Outcome load s base
        (λ u. u)
        (λ u. [])
        (on_udp_recv load (pos (suc bytes_read)) base fresh buf s)
unfolding on_udp_recv
on_udp_recv-Outcome load bytes_read base fresh buf s n fits f b =
    let (v, nothing) = create-IsValid 4096 fresh (omega arith) (omega arith) f in
    elim (push-appends (create 4096 fresh) base v) [
      | inr (over, q) ↦ absurd (omega (arith, over, space-create 4096 fresh (omega arith), fits))
      | inl (room, (m, q, w, c)) ↦
          let stored = sym (length-contents m w) ∙ ap length (c ∙ ap (λ k. k ++ base) nothing) in
          rw q (
            subst
              (λ k. Outcome load s k (λ u. u) (λ u. []) (udp_loop load (length base + 1) m buf s))
              (c ∙ ap (λ k. k ++ base) nothing)
              (udp_loop-Outcome load (length base + 1) m buf s s [] w
                (omega (arith, stored, fits, b)) (omega (arith, stored)) none_yet))
    ]
