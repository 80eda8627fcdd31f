-- ===== src/SipMessage.antt =====
-- src/components/sip/messages/SipMessage.h and SipMessage.cpp, with the parts of SipMessageBody.h,
-- SipHeader.h and SipViaHeader.h that a message reads. A message's header map holds pointers: the
-- `[ ]` of std::map puts a null pointer in for a name that is missing, so the accessors return the
-- message as well. The use of a null pointer is undefined in C++: here it returns `none`.
pub mod Accessors
pub mod Whole
pub mod Nulls
pub mod Builder
use mathlib.Core.Option
use sip_processing.Prelude.{
  ◌>>=◌, ℕ, Bool, true, false, List, [], ◌∷◌, ◌++◌, Option, none, some, Text, codes, text_eq, ℤ,
  pos, is_zero, decimal_int, ◌==◌, if◌then◌else◌, length,
}

pub data SipMessageType : Type 0 where
  unknown invite ack bye cancel options register prack subscribe notify publish : SipMessageType
  info refer message update trying progress ringing ok service_unavailable : SipMessageType

pub data TransportType : Type 0 where
  unknown udp tcp : TransportType

pub data BodyType : Type 0 where
  unknown no_body sdp xml multiple boundary other : BodyType

unfoldable pub get_type_str : SipMessageType → Text
get_type_str SipMessageType.invite = codes "INVITE"
get_type_str SipMessageType.ack = codes "ACK"
get_type_str SipMessageType.bye = codes "BYE"
get_type_str SipMessageType.options = codes "OPTIONS"
get_type_str SipMessageType.cancel = codes "CANCEL"
get_type_str SipMessageType.register = codes "REGISTER"
get_type_str SipMessageType.prack = codes "PRACK"
get_type_str SipMessageType.subscribe = codes "SUBSCRIBE"
get_type_str SipMessageType.notify = codes "NOTIFY"
get_type_str SipMessageType.publish = codes "PUBLISH"
get_type_str SipMessageType.info = codes "INFO"
get_type_str SipMessageType.refer = codes "REFER"
get_type_str SipMessageType.message = codes "MESSAGE"
get_type_str SipMessageType.update = codes "UPDATE"
get_type_str SipMessageType.trying = codes "PROGRESS"
get_type_str SipMessageType.progress = codes "PROGRESS"
get_type_str SipMessageType.ringing = codes "RINGING"
get_type_str SipMessageType.ok = codes "OK"
get_type_str SipMessageType.service_unavailable = codes "SERVICE_UNAVAILABLE"
get_type_str SipMessageType.unknown = codes "UNKNOWN"

-- A header object: its field name and value, and what the Via header has read from its value.
pub record SipHeader : Type 0 where
  pub field_name : Text
  pub value : Text
  pub transport_type : TransportType
  pub remote_address : Text
  pub remote_branch : Text
  pub remote_port : ℤ

abbrev pub HeaderMap : Type 0
HeaderMap = List (Text × Option SipHeader)

-- `logger` tells whether the message's pointer to the log is set.
pub record SipMessage : Type 0 where
  pub is_request : Bool
  pub message_type : SipMessageType
  pub headers : HeaderMap
  pub bodies : List (BodyType × Text)
  pub channel_id : ℕ
  pub reinvite_flag : Bool
  pub logger : Bool

-- `headers.find(name)`: `none` is `end()`, `some none` an entry with a null pointer.
unfoldable pub find_header : Text → HeaderMap → Option (Option SipHeader)
find_header name [] = none
find_header name ((n, h) ∷ hs) = if text_eq n name then some h else find_header name hs

-- `headers[name]`.
unfoldable pub index_header : Text → SipMessage → Option SipHeader × SipMessage
unfolding find_header
index_header name m = elim (find_header name m.headers) [
  | none ↦ (none, record m { headers = m.headers ++ (name, none) ∷ [] })
  | some h ↦ (h, m)
]

-- The shape of the accessors: what `read` reads from the header, or `missing` for a null pointer.
abbrev pub header_field {ℓ} :
    {A : Type ℓ} → A → (SipHeader → A) → Option SipHeader × SipMessage → A × SipMessage
header_field missing read (none, m) = (missing, m)
header_field missing read (some h, m) = (read h, m)

unfoldable pub get_call_id : SipMessage → Text × SipMessage
get_call_id m = header_field [] (λ h. h.value) (index_header (codes "CALL-ID") m)

unfoldable pub get_from : SipMessage → Text × SipMessage
get_from m = header_field [] (λ h. h.value) (index_header (codes "FROM") m)

unfoldable pub get_to : SipMessage → Text × SipMessage
get_to m = header_field [] (λ h. h.value) (index_header (codes "TO") m)

unfoldable pub get_c_sequence : SipMessage → Text × SipMessage
get_c_sequence m = header_field [] (λ h. h.value) (index_header (codes "CSEQ") m)

unfoldable pub get_remote_address : SipMessage → Text × SipMessage
get_remote_address m = header_field [] (λ h. h.remote_address) (index_header (codes "VIA") m)

unfoldable pub get_remote_port : SipMessage → ℤ × SipMessage
get_remote_port m = header_field (pos 5060) (λ h. h.remote_port) (index_header (codes "VIA") m)

unfoldable pub get_transport_type : SipMessage → TransportType × SipMessage
get_transport_type m =
    header_field TransportType.udp (λ h. h.transport_type) (index_header (codes "VIA") m)

unfoldable pub get_transport_type_str : TransportType → Text
get_transport_type_str TransportType.tcp = codes "TCP"
get_transport_type_str TransportType.udp = codes "UDP"
get_transport_type_str TransportType.unknown = codes "UDP"

-- `SipViaHeader::getResponseValue`.
unfoldable pub get_response_value : SipHeader → Text
unfolding get_transport_type_str decimal_int
get_response_value h =
    codes "SIP/2.0/"
    ++ (get_transport_type_str h.transport_type
        ++ (codes " "
            ++ (h.remote_address
                ++ ((if length h.remote_branch == 0
                      then []
                      else codes ";branch=" ++ h.remote_branch)
                    ++ ((if length h.remote_address == 0
                          then []
                          else codes ";received=" ++ h.remote_address)
                        ++ (if is_zero h.remote_port
                            then codes ";rport"
                            else codes ";rport=" ++ decimal_int h.remote_port))))))

unfoldable pub get_response_via_content : SipMessage → Option Text
get_response_via_content m = elim (find_header (codes "VIA") m.headers) [
  | none ↦ if m.logger then some [] else none
  | some h ↦ if m.logger then Option.map get_response_value h else none
]

-- The descriptors of all headers, in the order of the list.
unfoldable pub descriptors : HeaderMap → Option (List (Text × Text))
descriptors [] = some []
descriptors ((n, none) ∷ hs) = none
descriptors ((n, some h) ∷ hs) = Option.map (λ ds. (h.field_name, h.value) ∷ ds) (descriptors hs)

unfoldable pub get_headers : SipMessage → Option (List (Text × Text))
unfolding descriptors
get_headers m = descriptors m.headers

unfoldable pub body_type_eq : BodyType → BodyType → Bool
body_type_eq BodyType.unknown BodyType.unknown = true
body_type_eq BodyType.no_body BodyType.no_body = true
body_type_eq BodyType.sdp BodyType.sdp = true
body_type_eq BodyType.xml BodyType.xml = true
body_type_eq BodyType.multiple BodyType.multiple = true
body_type_eq BodyType.boundary BodyType.boundary = true
body_type_eq BodyType.other BodyType.other = true
body_type_eq _ _ = false

unfoldable pub find_body : BodyType → List (BodyType × Text) → Option Text
unfolding body_type_eq
find_body t [] = none
find_body t ((u, s) ∷ bs) = if body_type_eq u t then some s else find_body t bs

unfoldable pub has_body : BodyType → SipMessage → Bool
unfolding find_body
has_body t m = elim (find_body t m.bodies) [ none ↦ false | some s ↦ true ]

unfoldable pub get_body : BodyType → SipMessage → Text
unfolding find_body
get_body t m = elim (find_body t m.bodies) [ none ↦ [] | some s ↦ s ]

-- `log` tells whether the message's pointer to the log is set.
unfoldable pub add_body : Bool → BodyType → Text → SipMessage → Option SipMessage
unfolding has_body
add_body log t body m =
    if has_body t m
    then if log then some m else none
    else some (record m { bodies = m.bodies ++ (t, body) ∷ [] })
