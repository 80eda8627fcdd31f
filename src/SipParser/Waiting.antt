-- ===== src/SipParser/Waiting.antt =====
-- The states of the parser between the calls of `SipParser::loadMessageData` in
-- src/components/sip/SipParser.cpp.
use sip_processing.Prelude.{
  ℕ, zero, suc, ◌+◌, ◌-◌, ◌%◌, ◌^◌, ◌≡◌, ◌∙◌, inl, inr, refl, Bool, true, false, Bool-cases,
  Option-cases, [], ◌++◌, Option, some, none, Text, ℤ, pos, is_zero, if◌then◌else◌, take, length,
  drop, ◌==◌, ◌&&◌, c_string, codes, ltb,
}
use mathlib.Core.Path.{subst}
use sip_processing.Util.{are_equivalent}
use sip_processing.Buffers.{mapped_buffer, buffer_starts_with, buffer_contains, buffer_split}
use sip_processing.SipMessage.{SipMessage, BodyType}
use sip_processing.SipMessage.Builder.{builder, get_content_type, get_content_length}
use sip_processing.SipParser.ReadLine.{HeaderLine, read_header_line}
use sip_processing.SipParser.Normalise.{
  Parser, parts_key, read_content_type, read_line, normalise_from, normalise_header_data,
  max_header_line_length, max_method_length, normal_line,
}
use sip_processing.SipParser.Load.{expect_body, with_message, parse_header_data, to_size}

-- Between two messages the count of the content is zero.
abbrev pub IsCounted : Parser → Type 0
IsCounted p = p.processing_message ≡ false → p.received_content_length ≡ pos 0

-- The `size_t` of what is missing of `n` bytes.
abbrev pub missing : ℤ → ℤ → ℕ
missing n received = (to_size n + 2 ^ 64 - to_size received) % 2 ^ 64

-- The two members that reading a header section leaves.
pub record Keeps (p q : Parser) : Type 0 where
  pub processing : q.processing_message ≡ p.processing_message
  pub received : q.received_content_length ≡ p.received_content_length

Keeps-all : (p : Parser) → Keeps p p
Keeps-all p = record { processing = refl; received = refl }

Keeps-trans : (p q r : Parser) → Keeps p q → Keeps q r → Keeps p r
Keeps-trans p q r k l = record {
  processing = l.processing ∙ k.processing;
  received = l.received ∙ k.received;
}

if-Keeps : (b : Bool) (p q r : Parser) → Keeps p q → Keeps p r → Keeps p (if b then q else r)
if-Keeps true p q r k l = k
if-Keeps false p q r k l = l

same-Keeps :
    (p q : Parser)
    → q.processing_message ≡ p.processing_message
    → q.received_content_length ≡ p.received_content_length
    → Keeps p q
same-Keeps p q a b = record { processing = a; received = b }

read_content_type-Keeps : (line : Text) (p : Parser) → Keeps p (read_content_type line p)
unfolding read_content_type
read_content_type-Keeps line p =
    let value = c_string line in
    if-Keeps (are_equivalent value (codes "application/sdp") 0) p _ _
      (same-Keeps p
        (record p { body_type = BodyType.sdp; expecting_body_content_type = BodyType.sdp }) refl
        refl)
      (if-Keeps (buffer_starts_with (mapped_buffer value) (codes "multipart/mixed") false) p _ _
        (same-Keeps p
          (record p {
            body_type = BodyType.multiple;
            expecting_body_content_type = BodyType.boundary;
            body_boundary_key =
                parts_key p.body_boundary_key (buffer_split (mapped_buffer value) b';');
          })
          refl refl)
        (if-Keeps (buffer_contains (mapped_buffer value) (codes "XML") false) p _ _
          (same-Keeps p
            (record p { body_type = BodyType.xml; expecting_body_content_type = BodyType.xml }) refl
            refl)
          (same-Keeps p
            (record p {
              body_type = BodyType.other;
              expecting_body_content_type = BodyType.other;
              expecting_body_content_type_string = line;
            })
            refl refl)))

read_line-Keeps : (h : HeaderLine) (p : Parser) → Keeps p (read_line h p)
unfolding read_line
read_line-Keeps h p =
    if-Keeps (ltb 1 (length h.method) && are_equivalent h.method (codes "Content-Type") 0) p _ _
      (read_content_type-Keeps h.line p) (Keeps-all p)

normalise_from-Keeps :
    (fuel start : ℕ) (message : Text) (p : Parser) (text : Text)
    → Keeps p (normalise_from fuel start message p text).0
unfolding normalise_from
normalise_from-Keeps zero start message p text = Keeps-all p
normalise_from-Keeps (suc fuel) start message p text =
    let h =
      read_header_line start (length message) max_header_line_length max_method_length
        (drop start message) in
    let first = read_line-Keeps h p in
    let rest = normalise_from-Keeps fuel h.pos message (read_line h p) (text ++ normal_line h) in
    elim (Bool-cases (length h.line == 0)) [
      | inl stop ↦ rw stop (Keeps-all p)
      | inr more ↦ rw more (Keeps-trans p (read_line h p) _ first rest)
    ]

normalise_header_data-Keeps :
    (message : Text) (size : ℕ) (p : Parser) → Keeps p (normalise_header_data message size p)
unfolding normalise_header_data
normalise_header_data-Keeps message size p =
    let start = record p { body_type = BodyType.no_body } in
    let k = normalise_from-Keeps (length (take size message) + 1) 0 (take size message) start [] in
    record { processing = k.processing; received = k.received }

expect_body-Keeps :
    (n : ℤ) (log : Bool) (m : SipMessage) (p q : Parser)
    → expect_body n log m p ≡ some q
    → Keeps p q
expect_body-Keeps n log m p q e = elim (Bool-cases (is_zero n)) [
  | inl zero_length ↦ let e' = rw zero_length at e in same-Keeps p q (cc) (cc)
  | inr more ↦ elim (Option-cases (get_content_type log m)) [
    | inl no_type ↦ let e' = rw (more, no_type) at e in absurd (cc)
    | inr (t, is_type) ↦ let e' = rw (more, is_type) at e in same-Keeps p q (cc) (cc)
  ]
]

with_message-Keeps :
    (log : Bool) (p : Parser) (msg m : Option SipMessage) (q : Parser)
    → with_message log p msg ≡ some (m, q)
    → Keeps p q
with_message-Keeps log p none m q e = same-Keeps p q (cc) (cc)
with_message-Keeps log p (some a) m q e = elim (Option-cases (get_content_length log a)) [
  | inl no_length ↦ let e' = rw no_length at e in absurd (cc)
  | inr (n, is_length) ↦
      let e' = rw is_length at e in
      elim (Option-cases (expect_body n log a p)) [
        | inl nothing ↦ let e'' = rw nothing at e' in absurd (cc)
        | inr (next, expects) ↦
            let e'' = rw expects at e' in
            let same : next ≡ q = cc in
            subst (Keeps p) same (expect_body-Keeps n log a p next expects)
      ]
]

pub parse_header_data-Keeps :
    (log : Bool) (channel_id : ℕ) (flag : Bool) (message : Text) (size : ℕ) (p q : Parser)
    (m : Option SipMessage)
    → parse_header_data log channel_id flag message size p ≡ some (m, q)
    → Keeps p q
unfolding parse_header_data
parse_header_data-Keeps log channel_id flag message size p q m e =
    let read = normalise_header_data message size p in
    elim (Option-cases (builder log channel_id flag read.message read.bodies)) [
      | inl nothing ↦ let e' = rw nothing at e in absurd (cc)
      | inr (msg, built) ↦
          let e' = rw built at e in
          Keeps-trans p read q (normalise_header_data-Keeps message size p)
            (with_message-Keeps log read msg m q e')
    ]
