-- ===== src/SipParser/Loop.antt =====
-- The loop of `SipParser::normaliseHeaderData` in src/components/sip/SipParser.cpp, without a bound on its rounds.
use sip_processing.Prelude.{
  ℕ, zero, suc, ◌+◌, ◌≤◌, ◌<◌, ◌≡◌, inl, inr, refl, true, false, Bool-cases, ltb→lt, ltb, [], ◌∷◌,
  ◌++◌, Text, ◌==◌, length, take, drop, arith,
}
use sip_processing.SipMessage.{BodyType}
use sip_processing.SipParser.ReadLine.{
  Reader, advance, read_loop, HeaderLine, read_header_line, read_name, read_value,
}
use sip_processing.SipParser.Normalise.{
  Parser, read_line, normal_line, normalise_from, normalise_header_data, max_header_line_length,
  max_method_length,
}

-- The line that is read at a place of the message.
abbrev pub line_at : Text → ℕ → HeaderLine
line_at message start =
    read_header_line start (length message) max_header_line_length max_method_length
      (drop start message)

-- From a place of the message, a parser and what the stream holds, the loop comes to an end with the last two.
pub data Loop (message : Text) : ℕ → Parser → Text → Parser → Text → Type 0 where
  ends :
      (start : ℕ) (p : Parser) (text : Text)
      → length ((line_at message start).line) ≡ 0
      → Loop message start p text p text
  turns :
      (start : ℕ) (p q : Parser) (text out : Text)
      → 0 < length ((line_at message start).line)
      → Loop message
          ((line_at message start).pos)
          (read_line (line_at message start) p)
          (text ++ normal_line (line_at message start))
          q
          out
      → Loop message start p text q out

read_name-pos : (size : ℕ) (r : Reader) (c : ℕ) → (read_name size r c).pos ≡ r.pos
unfolding read_name
read_name-pos size r c = ground arith

read_value-pos : (r : Reader) (c : ℕ) → (read_value r c).pos ≡ r.pos
unfolding read_value
read_value-pos r c = ground arith

read_loop-pos :
    (message_size size_of_line size_of_method : ℕ) (cs : Text) (r : Reader)
    → r.pos ≤ (read_loop message_size size_of_line size_of_method cs r).pos
unfolding read_loop
read_loop-pos m l s [] r = ground arith
read_loop-pos m l s (c ∷ cs) r =
    let n = read_name s r c in
    let go = read_loop-pos m l s cs in
    ground (
      arith,
      go (advance (record r { skipping = false })),
      go (record r { pos = r.pos + 1 }),
      go (record r { pos = r.pos + 1; skipping = true }),
      go (advance n),
      go (advance (read_value n c)),
      read_name-pos s r c,
      read_value-pos n c,
    )

-- Behind the message nothing is read, and each line that is read moves the place on.
line_at-behind :
    (message : Text) (start : ℕ)
    → length message ≤ start
    → length ((line_at message start).line) ≡ 0
unfolding read_header_line
line_at-behind message start h = ground arith

line_at-pos :
    (message : Text) (start : ℕ) → start < length message → start < (line_at message start).pos
unfolding read_header_line
line_at-pos message start h =
    let moved =
      read_loop-pos (length message) max_header_line_length max_method_length (drop start message)
        (record {
          pos = start;
          message_index = start;
          line = [];
          method = [];
          have_name = false;
          have_start_of_value = false;
          skipping = false;
        }) in
    ground (arith, moved)

line_at-moves :
    (message : Text) (start : ℕ)
    → 0 < length ((line_at message start).line)
    → start < (line_at message start).pos
line_at-moves message start some_line = elim (Bool-cases (ltb start (length message))) [
  | inl inside ↦ line_at-pos message start (ltb→lt _ _ inside)
  | inr behind ↦
      let nothing = line_at-behind message start (ground arith) in
      absurd (omega (arith, nothing, some_line))
]

normalise_from-Loop :
    (fuel start : ℕ) (message : Text) (p : Parser) (text : Text)
    → length message < start + fuel
    → Loop message start p text
        (normalise_from fuel start message p text).0
        (normalise_from fuel start message p text).1
unfolding normalise_from
normalise_from-Loop zero start message p text enough =
    ends start p text (line_at-behind message start (omega arith))
normalise_from-Loop (suc fuel) start message p text enough =
    elim (Bool-cases (length ((line_at message start).line) == 0)) [
      | inl stop ↦ rw stop (ends start p text (ground arith))
      | inr more ↦ rw more (
          turns start p _ text _ (ground arith) (
            normalise_from-Loop fuel ((line_at message start).pos) message
              (read_line (line_at message start) p) (text ++ normal_line (line_at message start))
              (omega (arith, enough, line_at-moves message start (ground arith)))))
    ]

-- `normaliseHeaderData` ends for every message: its loop, run without a bound on its rounds from the start of the
-- message, comes to the parser and the stream that the model gives.
pub normalise_header_data-Loop :
    (message : Text) (message_size : ℕ) (p : Parser)
    → (q : Parser) × (out : Text) × (Loop
          (take message_size message)
          0
          (record p { body_type = BodyType.no_body })
          []
          q
          out
        × (normalise_header_data message message_size p ≡ record q { message = out }))
unfolding normalise_header_data
normalise_header_data-Loop message message_size p =
    let header = take message_size message in
    let start = record p { body_type = BodyType.no_body } in
    (
      (normalise_from (length header + 1) 0 header start []).0,
      (normalise_from (length header + 1) 0 header start []).1,
      (normalise_from-Loop (length header + 1) 0 header start [] (omega arith), refl),
    )
