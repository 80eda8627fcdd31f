-- ===== src/Sdp/Description.antt =====
-- src/components/sdp/Sdp.h and Sdp.cpp. `logger` tells whether the object's pointer to the log is set; its
-- use as a null pointer and an index outside a vector are undefined in C++: they return `none`. The
-- array `data` is never written.
use sip_processing.Prelude.{
  ℕ, zero, suc, ◌+◌, ◌-◌, ◌%◌, ◌^◌, ◌∷◌, [], ◌++◌, List, Option, none, some, Bool, true, false,
  ◌&&◌, Text, codes, stream, leb, ◌==◌, if◌then◌else◌, ◌>>=◌, map, get_elem?, set, min,
}
use sip_processing.Buffers.{MappedBuffer, buffer_split_lines, buffer_split_on_first}
use sip_processing.Sdp.Attribute
use sip_processing.Sdp.Attribute.{SdpAttribute, SdpAttributeLine, attribute_line}
use sip_processing.Sdp.Connection
use sip_processing.Sdp.Connection.{SdpConnection, default_connection, connection_line}
use sip_processing.Sdp.Origin
use sip_processing.Sdp.Origin.{SdpOrigin, default_origin, origin_line}
use sip_processing.Sdp.Timing
use sip_processing.Sdp.Timing.{SdpTiming, default_timing, timing_line}
use sip_processing.Sdp.Session.{
  SdpSession, default_session, session_line, session_to_string, session_to_json, SdpVersion,
  default_version, version_to_string, version_to_json,
}
use sip_processing.Sdp.Format.{SdpFormat}
use sip_processing.Sdp.Media
use sip_processing.Sdp.Media.{
  SdpMedia, SdpMediaLine, media_line, line_to_string, copy, add_format, add_attribute,
}

pub record Sdp : Type 0 where
  pub stream_count : ℕ
  pub version : SdpVersion
  pub origin : SdpOrigin
  pub session : SdpSession
  pub connection : SdpConnection
  pub timing : SdpTiming
  pub attributes : List SdpAttribute
  pub media : List SdpMedia
  pub logger : Bool

-- The members as their initialisers leave them, at the time `t`.
abbrev pub members : ℕ → Bool → Sdp
members t logger = record {
  stream_count = 0;
  version = default_version;
  origin = default_origin t;
  session = default_session;
  connection = default_connection;
  timing = default_timing;
  attributes = [];
  media = [];
  logger = logger;
}

-- `Sdp()`, which gets the log.
abbrev pub default_sdp : ℕ → Sdp
default_sdp t = members t true

-- `Sdp(Sdp &)`: the version is not copied.
abbrev pub copy_sdp : Sdp → Sdp
copy_sdp other = record other {
  version = default_version;
  media = map copy other.media;
  logger = true;
}

-- What follows a use of the log.
abbrev pub logged {ℓ} : {A : Type ℓ} → Sdp → Option A → Option A
logged sdp rest = if sdp.logger then rest else none

unfoldable pub set_origin : SdpOrigin → Sdp → Sdp
set_origin o sdp = record sdp { origin = o }

unfoldable pub set_connection : SdpConnection → Sdp → Sdp
set_connection c sdp = record sdp { connection = c }

unfoldable pub set_session_id : ℕ → Sdp → Sdp
unfolding Origin.set_session_number
set_session_id id sdp = record sdp { origin = Origin.set_session_number id sdp.origin }

unfoldable pub get_session_id : Sdp → ℕ
unfolding Origin.get_session_id
get_session_id sdp = Origin.get_session_id sdp.origin

-- One more stream, of which `push_back` keeps a copy.
abbrev pub push_media : SdpMedia → Sdp → Sdp
push_media m sdp = record sdp {
  stream_count = (sdp.stream_count + 1) % 2 ^ 8;
  media = sdp.media ++ (copy m ∷ []);
}

-- The number of streams is also the result.
unfoldable pub add_media_stream : SdpMedia → Sdp → Sdp
add_media_stream media_item sdp = push_media media_item sdp

unfoldable pub add_media_line : SdpMediaLine → Sdp → Option Sdp
unfolding line_to_string
add_media_line line sdp = do
  text ← line_to_string line
  logged sdp (some (push_media (Media.of_line line) sdp))

abbrev pub push_attribute : SdpAttribute → Sdp → Sdp
push_attribute a sdp = record sdp { attributes = sdp.attributes ++ (a ∷ []) }

-- `streamId - 1` as a `uint16_t`.
abbrev pub media_index : ℕ → ℕ
media_index stream_id = (stream_id + 2 ^ 16 - 1) % 2 ^ 16

-- The change of the stream at an index, once it was compared with the number of streams.
abbrev pub change_media : (SdpMedia → Option SdpMedia) → ℕ → Sdp → Option Sdp
change_media f index sdp = if leb sdp.stream_count index then logged sdp (some sdp) else (do
  m ← get_elem? sdp.media index
  changed ← f m
  some (record sdp { media = set sdp.media index changed }))

unfoldable pub add_attribute_line : ℕ → SdpAttributeLine → Sdp → Option Sdp
unfolding add_attribute
add_attribute_line stream_id line sdp =
    if stream_id == 0
    then some (push_attribute (Attribute.of_line line) sdp)
    else change_media (λ m. some (add_attribute (Attribute.of_line line) m)) (media_index stream_id)
        sdp

unfoldable pub add_stream_format : ℕ → SdpFormat → Sdp → Option Sdp
unfolding add_format
add_stream_format stream_id format sdp =
    change_media (add_format format) (media_index stream_id) sdp

unfoldable pub add_common_attribute : SdpAttribute → Sdp → Sdp
add_common_attribute attribute sdp = push_attribute attribute sdp

unfoldable pub add_common_strings : Text → Text → Text → Sdp → Sdp
add_common_strings name value parameters sdp =
    push_attribute (Attribute.of_strings name value parameters) sdp

unfoldable pub add_common_name : Text → Sdp → Sdp
add_common_name name sdp = push_attribute (Attribute.of_key name) sdp

unfoldable pub add_stream_strings : ℕ → Text → Text → Text → Sdp → Option Sdp
unfolding add_attribute
add_stream_strings stream_id name value parameters sdp =
    change_media (λ m. some (add_attribute (Attribute.of_strings name value parameters) m))
      (media_index stream_id) sdp

unfoldable pub add_stream_name : ℕ → Text → Sdp → Option Sdp
unfolding add_attribute
add_stream_name stream_id name sdp =
    change_media (λ m. some (add_attribute (Attribute.of_key name) m)) (media_index stream_id) sdp

unfoldable pub to_lower : ℕ → ℕ
to_lower c = if leb b'A' c && leb c b'Z' then c + 32 else c

-- The cases of the switch, for the letter of the line and what stands behind its `=`.
unfoldable pub parse_entry : ℕ → MappedBuffer → Sdp → Option Sdp
unfolding origin_line connection_line timing_line media_line attribute_line add_media_line
    add_attribute_line Origin.of_line
parse_entry c entry sdp =
    if c == b'o'
    then some (record sdp { origin = Origin.of_line (origin_line entry) })
    else if c == b'v'
    then some sdp
    else if c == b's'
    then some (record sdp { session = session_line entry })
    else if c == b'c'
    then (do connection ← connection_line entry; some (record sdp { connection = connection }))
    else if c == b't'
    then some (record sdp { timing = timing_line entry })
    else if c == b'm'
    then (do line ← media_line entry; add_media_line line sdp)
    else if c == b'a'
    then add_attribute_line sdp.stream_count (attribute_line entry) sdp
    else logged sdp (some sdp)

-- The two parts that a split on the first `=` always has.
abbrev pub parse_pair : List MappedBuffer → Sdp → Option Sdp
parse_pair (key ∷ value ∷ []) sdp = do
  letter ← get_elem? key.buf 0
  parse_entry (to_lower letter) value sdp
parse_pair pair sdp = logged sdp (some sdp)

unfoldable pub parse_line : MappedBuffer → Sdp → Option Sdp
unfolding buffer_split_on_first to_lower parse_entry
parse_line line sdp = parse_pair (buffer_split_on_first line b'=') sdp

unfoldable pub parse_lines : List MappedBuffer → Sdp → Option Sdp
unfolding parse_line
parse_lines [] sdp = some sdp
parse_lines (line ∷ lines) sdp = do next ← parse_line line sdp; parse_lines lines next

abbrev pub max_sdp_body_length : ℕ
max_sdp_body_length = 4096

-- The constructor for a body, behind its first line.
unfoldable pub parse_body : Text → ℕ → Sdp → Option Sdp
unfolding buffer_split_lines parse_lines
parse_body raw_sdp_body_data size sdp =
    let buffer : MappedBuffer = record {
      buf = raw_sdp_body_data;
      len = min size max_sdp_body_length;
    } in
    parse_lines (buffer_split_lines buffer) sdp

-- `Sdp(const char *, size_t)`: the first line uses the log, which this constructor has not got.
unfoldable pub of_body : Text → ℕ → ℕ → Option Sdp
unfolding parse_body
of_body raw_sdp_body_data size t =
    let sdp = members t false in logged sdp (parse_body raw_sdp_body_data size sdp)

-- The loop over the streams, with the rounds that are left; each text has the separator in front that
-- `between` gives for the index.
abbrev pub media_texts : (SdpMedia → Option Text) → (ℕ → Text) → ℕ → ℕ → List SdpMedia → Option Text
media_texts print between index zero media = some []
media_texts print between index (suc rounds) [] = none
media_texts print between index (suc rounds) (m ∷ media) = do
  text ← print m
  rest ← media_texts print between (index + 1) rounds media
  some (stream (between index ∷ text ∷ rest ∷ []))

-- An attribute on each line.
abbrev pub attribute_lines : List SdpAttribute → Text
attribute_lines [] = []
attribute_lines (a ∷ l) = stream (Attribute.to_string a ∷ codes "\r\n" ∷ attribute_lines l ∷ [])

abbrev pub media_line_text : SdpMedia → Option Text
media_line_text m = do text ← Media.to_string m; some (stream (text ∷ codes "\r\n" ∷ []))

unfoldable pub to_string : Sdp → Option Text
unfolding version_to_string Origin.to_string session_to_string Connection.to_string Timing.to_string
    Attribute.to_string Media.to_string
to_string sdp = do
  origin ← Origin.to_string sdp.origin
  media ← media_texts media_line_text (λ index. []) 0 sdp.stream_count sdp.media
  some (
      stream (
        version_to_string sdp.version
        ∷ codes "\r\n"
        ∷ origin
        ∷ codes "\r\n"
        ∷ session_to_string sdp.session
        ∷ codes "\r\n"
        ∷ Connection.to_string sdp.connection
        ∷ codes "\r\n"
        ∷ Timing.to_string sdp.timing
        ∷ codes "\r\n"
        ∷ attribute_lines sdp.attributes
        ∷ media
        ∷ []))

abbrev pub attributes_json : List SdpAttribute → Text
attributes_json [] = []
attributes_json (a ∷ l) = stream (Attribute.to_json a ∷ codes "," ∷ attributes_json l ∷ [])

abbrev pub comma_between : ℕ → Text
comma_between index = if index == 0 then [] else codes ","

unfoldable pub to_json : Sdp → Option Text
unfolding version_to_json Origin.to_json session_to_json Connection.to_json Timing.to_json
    Attribute.to_json Media.to_json
to_json sdp = do
  origin ← Origin.to_json sdp.origin
  media ← media_texts Media.to_json comma_between 0 sdp.stream_count sdp.media
  some (
      stream (
        codes "{"
        ∷ codes "\"version\":"
        ∷ version_to_json sdp.version
        ∷ codes ","
        ∷ codes "\"owner\":"
        ∷ origin
        ∷ codes ","
        ∷ codes "\"session\":"
        ∷ session_to_json sdp.session
        ∷ codes ","
        ∷ codes "\"connection\":"
        ∷ Connection.to_json sdp.connection
        ∷ codes ","
        ∷ codes "\"time\":"
        ∷ Timing.to_json sdp.timing
        ∷ codes ","
        ∷ attributes_json sdp.attributes
        ∷ codes "\"media\":["
        ∷ media
        ∷ codes "]"
        ∷ codes "}"
        ∷ []))
