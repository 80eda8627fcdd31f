-- ===== src/SipMessage/Builder.antt =====
-- `SipMessage::builder` of src/components/sip/messages/SipMessage.cpp, and the accessors of the content
-- headers. The constructor of SipMessage writes to its log, a member that no code sets: `log` tells
-- whether it is set nevertheless, and the use of a null pointer returns `none`. The line of a request
-- behind its method is kept by no accessor.
use sip_processing.Prelude.{
  c_string, ℕ, Bool, true, false, List, [], ◌∷◌, Option, none, some, Text, codes, text_eq, ltb,
  ◌==◌, if◌then◌else◌, ◌>>=◌, ℤ, pos,
}
use sip_processing.Buffers.{
  MappedBuffer, bytes, mapped_buffer, buffer_split_lines, buffer_split_on_first, buffer_equals,
}
use sip_processing.SipMessage.{
  SipHeader, HeaderMap, SipMessage, SipMessageType, invite, ack, bye, options, subscribe, BodyType,
  find_header,
}
use sip_processing.SipHeaders.{plain_header, via_header, header_content_type, header_content_length}

-- The order of the map's keys.
unfoldable pub text_less : Text → Text → Bool
text_less [] [] = false
text_less [] (d ∷ t) = true
text_less (c ∷ s) [] = false
text_less (c ∷ s) (d ∷ t) = if c == d then text_less s t else ltb c d

-- `headers[name] = header`.
unfoldable pub put_header : Text → SipHeader → HeaderMap → HeaderMap
unfolding text_less text_eq
put_header name header [] = (name, some header) ∷ []
put_header name header ((n, h) ∷ hs) = elim (text_eq n name) [
  | true ↦ (n, some header) ∷ hs
  | false ↦ elim (text_less name n) [
    | true ↦ (name, some header) ∷ (n, h) ∷ hs
    | false ↦ (n, h) ∷ put_header name header hs
  ]
]

-- The headers that the builder knows, beside the Via: the name in the map and the field's name.
abbrev pub known_headers : List (Text × Text)
known_headers =
    (codes "FROM", codes "From")
    ∷ (codes "TO", codes "To")
    ∷ (codes "CALL-ID", codes "Call-ID")
    ∷ (codes "CSEQ", codes "C-Seq")
    ∷ (codes "CONTENT-LENGTH", codes "Content-Length")
    ∷ (codes "CONTENT-TYPE", codes "Content-Type")
    ∷ (codes "CONTACT", codes "Contact")
    ∷ (codes "MAX-FORWARDS", codes "Max-Forwards")
    ∷ (codes "SUBJECT", codes "Subject")
    ∷ []

-- The branches behind the Via, in their order; an unknown name makes an extended header.
unfoldable pub put_known : List (Text × Text) → MappedBuffer → MappedBuffer → HeaderMap → HeaderMap
unfolding put_header buffer_equals c_string
put_known [] name value hs =
    put_header (c_string (bytes name)) (plain_header (c_string (bytes name)) (bytes value)) hs
put_known ((key, field_name) ∷ known) name value hs =
    let rest = put_known known name value hs in
    if buffer_equals name key false
    then put_header key (plain_header field_name (bytes value)) hs
    else rest

-- One header line.
unfoldable pub put_line : MappedBuffer → MappedBuffer → HeaderMap → Option HeaderMap
unfolding put_known via_header
put_line name value hs = elim (buffer_equals name (codes "VIA") false) [
  | true ↦ via_header value >>= λ header. some (put_header (codes "VIA") header hs)
  | false ↦ some (put_known known_headers name value hs)
]

-- The two parts that a split on the first colon always has.
abbrev pub put_items : List MappedBuffer → HeaderMap → Option HeaderMap
put_items (name ∷ value ∷ rest) hs = put_line name value hs
put_items items hs = some hs

-- The loop over the lines.
unfoldable pub build_headers : List MappedBuffer → HeaderMap → Option HeaderMap
unfolding put_line buffer_split_on_first
build_headers [] hs = some hs
build_headers (line ∷ lines) hs = do
  next ← put_items (buffer_split_on_first line b':') hs
  build_headers lines next

-- The type of the request that is made for a method, if there is one.
unfoldable pub request_type : MappedBuffer → Option SipMessageType
unfolding buffer_equals
request_type method =
    if buffer_equals method (codes "SIP") false
    then none
    else if buffer_equals method (codes "INVITE") false
    then some invite
    else if buffer_equals method (codes "ACK") false
    then some ack
    else if buffer_equals method (codes "BYE") false
    then some bye
    else if buffer_equals method (codes "OPTIONS") false
    then some options
    else if buffer_equals method (codes "SUBSCRIBE") false
    then some subscribe
    else none

-- Only an INVITE gets the bodies that the parser has kept.
abbrev pub bodies_of : SipMessageType → List (BodyType × Text) → List (BodyType × Text)
bodies_of SipMessageType.invite bodies = bodies
bodies_of t bodies = []

-- `SipMessage(mapped_buffer_t, std::map, std::map)`; the channel id and the flag are not set.
abbrev pub construct :
    Bool → ℕ → Bool → SipMessageType → HeaderMap → List (BodyType × Text) → Option SipMessage
construct log channel_id reinvite_flag t headers bodies =
    if log
    then some (record {
      is_request = true;
      message_type = t;
      headers = headers;
      bodies = bodies_of t bodies;
      channel_id = channel_id;
      reinvite_flag = reinvite_flag;
      logger = log;
    })
    else none

abbrev pub first_buffer : List MappedBuffer → MappedBuffer → MappedBuffer
first_buffer [] b = b
first_buffer (a ∷ l) b = a

-- The message for the first line and the headers; `some none` is a null pointer.
abbrev pub build_message :
    Bool
    → ℕ
    → Bool
    → Option SipMessageType
    → HeaderMap
    → List (BodyType × Text)
    → Option (Option SipMessage)
build_message log channel_id reinvite_flag none headers bodies = some none
build_message log channel_id reinvite_flag (some t) headers bodies =
    construct log channel_id reinvite_flag t headers bodies >>= λ m. some (some m)

-- `lines` are those of the message.
abbrev pub build_lines :
    Bool → ℕ → Bool → List MappedBuffer → List (BodyType × Text) → Option (Option SipMessage)
build_lines log channel_id reinvite_flag [] bodies = some none
build_lines log channel_id reinvite_flag (line ∷ lines) bodies = do
  headers ← build_headers lines []
  build_message log channel_id reinvite_flag
      (request_type (first_buffer (buffer_split_on_first line b':') line)) headers bodies

unfoldable pub builder :
    Bool → ℕ → Bool → Text → List (BodyType × Text) → Option (Option SipMessage)
unfolding build_headers request_type buffer_split_lines buffer_split_on_first
builder log channel_id reinvite_flag message bodies =
    build_lines log channel_id reinvite_flag (buffer_split_lines (mapped_buffer message)) bodies

-- What follows a use of the log.
abbrev logged {ℓ} : {A : Type ℓ} → Bool → A → Option A
logged log a = if log then some a else none

-- `getContentType` and `getContentLength`, which do not put anything into the map.
unfoldable pub get_content_type : Bool → SipMessage → Option BodyType
unfolding find_header header_content_type
get_content_type log m = elim (find_header (codes "CONTENT-TYPE") m.headers) [
  | none ↦ logged log BodyType.no_body
  | some none ↦ none
  | some (some h) ↦ some (header_content_type h)
]

unfoldable pub get_content_length : Bool → SipMessage → Option ℤ
unfolding find_header header_content_length
get_content_length log m = elim (find_header (codes "CONTENT-LENGTH") m.headers) [
  | none ↦ logged log (pos 0)
  | some none ↦ none
  | some (some h) ↦ some (header_content_length h)
]
