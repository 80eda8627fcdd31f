-- ===== src/SipParser/Normalise.antt =====
-- `SipParser::normaliseHeaderData` of src/components/sip/SipParser.cpp, and the members that the parser
-- keeps. A number that no constructor sets is taken as it is given.
use sip_processing.Prelude.{
  c_string, ℕ, zero, suc, ◌+◌, Bool, false, ◌&&◌, List, [], ◌∷◌, ◌++◌, Option, none, Text, codes,
  stream, ltb, ◌==◌, if◌then◌else◌, length, take, drop, ℤ, pos,
}
use sip_processing.Buffers.{
  MappedBuffer, bytes, mapped_buffer, buffer_equals, buffer_starts_with, buffer_contains,
  buffer_split,
}
use sip_processing.Util.{are_equivalent}
use sip_processing.SipMessage.{BodyType, SipMessage}
use sip_processing.SipParser.ReadLine.{HeaderLine, read_header_line}

pub record Parser : Type 0 where
  pub processing_message : Bool
  pub message : Text
  pub bodies : List (BodyType × Text)
  pub required_content_length : ℤ
  pub received_content_length : ℤ
  pub body_boundary_key : Text
  pub body_type : BodyType
  pub expecting_body_content_type : BodyType
  pub expecting_body_content_type_string : Text
  pub sip_message : Option SipMessage

-- A parser as it is constructed; what it expects is not set.
abbrev pub new_parser : BodyType → Parser
new_parser expecting = record {
  processing_message = false;
  message = [];
  bodies = [];
  required_content_length = pos 0;
  received_content_length = pos 0;
  body_boundary_key = codes "uniqueBoundary";
  body_type = BodyType.no_body;
  expecting_body_content_type = expecting;
  expecting_body_content_type_string = [];
  sip_message = none;
}

-- The boundary of `multipart/mixed;boundary=key`, or the key that is set already.
abbrev pub subparts_key : Text → List MappedBuffer → Text
subparts_key key (name ∷ value ∷ rest) =
    if buffer_equals name (codes "boundary") false then bytes value else key
subparts_key key subparts = key

abbrev pub parts_key : Text → List MappedBuffer → Text
parts_key key (first ∷ second ∷ rest) = subparts_key key (buffer_split second b'=')
parts_key key parts = key

-- What a Content-Type field tells the parser; `line` is the buffer of the field's value.
unfoldable pub read_content_type : Text → Parser → Parser
unfolding are_equivalent buffer_starts_with buffer_split buffer_equals buffer_contains c_string
read_content_type line p =
    let value = c_string line in
    if are_equivalent value (codes "application/sdp") 0
    then record p { body_type = BodyType.sdp; expecting_body_content_type = BodyType.sdp }
    else if buffer_starts_with (mapped_buffer value) (codes "multipart/mixed") false
    then record p {
      body_type = BodyType.multiple;
      expecting_body_content_type = BodyType.boundary;
      body_boundary_key = parts_key p.body_boundary_key (buffer_split (mapped_buffer value) b';');
    }
    else if buffer_contains (mapped_buffer value) (codes "XML") false
    then record p { body_type = BodyType.xml; expecting_body_content_type = BodyType.xml }
    else record p {
      body_type = BodyType.other;
      expecting_body_content_type = BodyType.other;
      expecting_body_content_type_string = line;
    }

-- A line that is not empty: what it tells the parser, and what the stream gets.
unfoldable pub read_line : HeaderLine → Parser → Parser
unfolding read_content_type are_equivalent
read_line h p =
    if ltb 1 (length h.method) && are_equivalent h.method (codes "Content-Type") 0
    then read_content_type h.line p
    else p

unfoldable pub normal_line : HeaderLine → Text
normal_line h =
    if ltb 1 (length h.method)
    then stream (h.method ∷ codes ":" ∷ h.line ∷ codes "\r\n" ∷ [])
    else stream (h.method ∷ h.line ∷ codes "\r\n" ∷ [])

abbrev pub max_header_line_length : ℕ
max_header_line_length = 512

abbrev pub max_method_length : ℕ
max_method_length = 64

-- The loop, from the place `start` of the message; `text` is what the stream holds. A line without value ends
-- it.
unfoldable pub normalise_from : ℕ → ℕ → Text → Parser → Text → Parser × Text
unfolding read_header_line read_line normal_line
normalise_from zero start message p text = (p, text)
normalise_from (suc fuel) start message p text =
    let h =
      read_header_line start (length message) max_header_line_length max_method_length
        (drop start message) in
    let rest = normalise_from fuel h.pos message (read_line h p) (text ++ normal_line h) in
    if length h.line == 0 then (p, text) else rest

unfoldable pub normalise_header_data : Text → ℕ → Parser → Parser
unfolding normalise_from
normalise_header_data message message_size p =
    let header = take message_size message in
    let (read, text) =
      normalise_from (length header + 1) 0 header (record p { body_type = BodyType.no_body }) [] in
    record read { message = text }
