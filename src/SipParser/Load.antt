-- ===== src/SipParser/Load.antt =====
-- `SipParser::parseHeaderData`, `parseBodyData` and `loadMessageData` of src/components/sip/SipParser.cpp.
-- `message` is the memory from the pointer on, `log` tells whether a message's own pointer to the log is
-- set. Calls of the event handler are a list of the messages that it gets. The use of a null pointer, of
-- an index outside a vector and of a C string without end returns `none`.
use sip_processing.Prelude.{
  ℕ, ◌+◌, ◌-◌, ◌%◌, ◌^◌, Bool, true, false, List, [], ◌∷◌, ◌++◌, Option, none, some, Text, codes,
  leb, ◌==◌, if◌then◌else◌, ◌>>=◌, take, ℤ, pos, negsuc, is_zero, c_string,
}
use sip_processing.Buffers.{
  MappedBuffer, view, buffer_split_lines, buffer_contains, buffer_ends_with,
}
use sip_processing.SipMessage.{BodyType, SipMessage, body_type_eq, find_body, add_body}
use sip_processing.SipMessage.Builder.{builder, get_content_type, get_content_length}
use sip_processing.SipHeaders.{signed_32}
use sip_processing.SipParser.Normalise.{Parser, normalise_header_data}

-- `size_t` of an `int`, and the `int` of a sum of the two.
abbrev pub to_size : ℤ → ℕ
to_size (pos n) = n
to_size (negsuc n) = 2 ^ 64 - 1 - n

abbrev pub add_length : ℤ → ℕ → ℤ
add_length z len = signed_32 ((to_size z + len) % 2 ^ 32)

abbrev pub int_leb : ℤ → ℤ → Bool
int_leb (pos a) (pos b) = leb a b
int_leb (pos a) (negsuc b) = false
int_leb (negsuc a) (pos b) = true
int_leb (negsuc a) (negsuc b) = leb b a

-- What the parser expects for the body of a message with this content type.
abbrev pub expected : BodyType → BodyType
expected BodyType.multiple = BodyType.boundary
expected t = t

abbrev pub expect_body : ℤ → Bool → SipMessage → Parser → Option Parser
expect_body n log m p =
    if is_zero n
    then some
        (record p { required_content_length = n; expecting_body_content_type = BodyType.no_body })
    else (get_content_type log m >>= λ t.
        some (record p { required_content_length = n; expecting_body_content_type = expected t }))

-- The message that was built, and the parser.
abbrev pub with_message : Bool → Parser → Option SipMessage → Option (Option SipMessage × Parser)
with_message log p none = some (none, p)
with_message log p (some m) = do
  n ← get_content_length log m
  next ← expect_body n log m p
  some (some m, next)

-- The channel id and the flag are those of the new message, which no constructor sets.
unfoldable pub parse_header_data :
    Bool → ℕ → Bool → Text → ℕ → Parser → Option (Option SipMessage × Parser)
unfolding normalise_header_data builder get_content_length get_content_type
parse_header_data log channel_id reinvite_flag message message_size p = do
  let read = normalise_header_data message message_size p
  msg ← builder log channel_id reinvite_flag read.message read.bodies
  with_message log read msg

-- The type that the lines behind a boundary announce, of which the last counts.
unfoldable pub announced : List MappedBuffer → BodyType → BodyType
unfolding buffer_contains
announced [] t = t
announced (line ∷ lines) t =
    let found =
      if buffer_contains line (codes "sdp") false
      then BodyType.sdp
      else if buffer_contains line (codes "xml") false
      then BodyType.xml
      else BodyType.other in
    announced lines (if buffer_contains line (codes "Content-Type") false then found else t)

abbrev pub read_boundary : Text → List MappedBuffer → Option BodyType
read_boundary key [] = none
read_boundary key (first ∷ lines) = some (
    if buffer_contains first (c_string key) false
    then if buffer_ends_with first (codes "--") false
      then BodyType.no_body
      else announced lines BodyType.no_body
    else BodyType.no_body)

-- The C string at a pointer, if it ends in the memory.
unfoldable pub c_string? : Text → Option Text
c_string? [] = none
c_string? (c ∷ cs) = elim (c == 0) [ true ↦ some [] | false ↦ (c_string? cs >>= λ s. some (c ∷ s)) ]

-- `data.bodies.insert`, which leaves an entry that is there.
abbrev pub insert_body : BodyType → Text → Parser → Parser
insert_body t body p = elim (find_body t p.bodies) [
  | none ↦ record p { bodies = p.bodies ++ ((t, body) ∷ []) }
  | some s ↦ p
]

abbrev pub next_of : Parser → BodyType
next_of p =
    if body_type_eq p.body_type BodyType.multiple then BodyType.boundary else BodyType.no_body

-- A body for the message that the parser holds.
abbrev pub add_to_message : Bool → BodyType → Text → Option SipMessage → Option SipMessage
add_to_message log t message none = none
add_to_message log t message (some m) = do body ← c_string? message; add_body log t body m

-- A body of a type that the message keeps.
abbrev pub keep_body : Bool → BodyType → Text → ℕ → Parser → Option Parser
keep_body log t message message_size p = do
  m ← add_to_message log t message p.sip_message
  some (record (insert_body t (take message_size message) p) {
    sip_message = some m;
    expecting_body_content_type = next_of p;
  })

abbrev pub parse_expected : Bool → BodyType → Text → ℕ → Parser → Option Parser
parse_expected log BodyType.boundary message message_size p = do
  next ← read_boundary p.body_boundary_key (buffer_split_lines (view message message_size))
  some (record p { expecting_body_content_type = next })
parse_expected log BodyType.sdp message message_size p =
    keep_body log BodyType.sdp message message_size p
parse_expected log BodyType.xml message message_size p =
    keep_body log BodyType.xml message message_size p
parse_expected log BodyType.other message message_size p =
    some (record (insert_body BodyType.other (take message_size message) p) {
      expecting_body_content_type = next_of p;
    })
parse_expected log t message message_size p =
    some (record p { expecting_body_content_type = BodyType.no_body })

unfoldable pub parse_body_data : Bool → Text → ℕ → Parser → Option Parser
unfolding buffer_split_lines buffer_contains buffer_ends_with announced c_string find_body
    body_type_eq c_string? add_body
parse_body_data log message message_size p =
    parse_expected log p.expecting_body_content_type message message_size p

-- What a call returns, the parser it leaves, and what the event handler gets.
pub record Loaded : Type 0 where
  pub pending : ℕ
  pub parser : Parser
  pub events : List SipMessage

-- The message goes to the event handler, and the next one may come.
abbrev pub completed : Parser → SipMessage → Option Loaded
completed p m = some (record {
  pending = 0;
  parser = record p {
    sip_message = some m;
    received_content_length = pos 0;
    processing_message = false;
  };
  events = m ∷ [];
})

-- The message waits for the rest of its content.
abbrev pub awaiting : ℤ → Bool → SipMessage → Parser → Option Loaded
awaiting n log m p = do
  t ← get_content_type log m
  some (record {
    pending = to_size n;
    parser = record p {
      sip_message = some m;
      body_type = t;
      expecting_body_content_type = expected t;
      processing_message = true;
    };
    events = [];
  })

-- A header section that was read.
abbrev pub load_header : Bool → Option SipMessage → Parser → Option Loaded
load_header log none p =
    some (record { pending = 0; parser = record p { sip_message = none }; events = [] })
load_header log (some m) p = do
  n ← get_content_length log m
  if is_zero n then completed p m else awaiting n log m p

-- The message behind the pointer, once the body data was read: it is handed on if it is complete.
abbrev pub load_body : Bool → Parser → Option Loaded
load_body log p = do
  m ← p.sip_message
  n ← get_content_length log m
  if int_leb n p.received_content_length
      then completed p m
      else some (record {
        pending = (to_size n + 2 ^ 64 - to_size p.received_content_length) % 2 ^ 64;
        parser = record p { processing_message = true };
        events = [];
      })

-- A call while no message is in work, and one while the content of a message is.
unfoldable pub load_section : Bool → ℕ → Bool → Text → ℕ → Parser → Option Loaded
unfolding parse_header_data get_content_type get_content_length
load_section log channel_id reinvite_flag buf len p =
    parse_header_data log channel_id reinvite_flag buf len p >>= λ (msg, read).
    load_header log msg read

unfoldable pub load_content : Bool → Text → ℕ → Parser → Option Loaded
unfolding parse_body_data get_content_type get_content_length
load_content log buf len p = do
  m ← p.sip_message
  t ← get_content_type log m
  read ←
      parse_body_data log buf len
        (record p { received_content_length = add_length p.received_content_length len })
  load_body log read

unfoldable pub load_message_data : Bool → ℕ → Bool → Text → ℕ → Parser → Option Loaded
unfolding load_section load_content
load_message_data log channel_id reinvite_flag buf len p =
    if p.processing_message
    then load_content log buf len p
    else load_section log channel_id reinvite_flag buf len p
