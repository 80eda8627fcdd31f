-- ===== src/Sdp/Media.antt =====
-- src/components/sdp/SdpMediaLine.hpp and SdpMedia.hpp: a media stream. A port that no constructor has
-- set is `none`. `logger` tells whether the object's pointer to the log is set; the use of a null
-- pointer, of an unset number and of an index outside a vector are undefined in C++: they return `none`.
use sip_processing.Prelude.{
  ℕ, ◌%◌, ◌^◌, ◌∷◌, [], ◌++◌, List, Option, none, some, Bool, true, false, Text, codes, stream,
  decimal, ◌==◌, if◌then◌else◌, ◌>>=◌, map,
}
use sip_processing.Buffers.{MappedBuffer, buffer_split}
use sip_processing.Buffers.Numbers.{to_unsigned_long_integer, to_unsigned_short_integer}
use sip_processing.Sdp.MediaType
use sip_processing.Sdp.MediaType.{SdpMediaType}
use sip_processing.Sdp.ProtocolType
use sip_processing.Sdp.ProtocolType.{SdpProtocolType}
use sip_processing.Sdp.Attribute
use sip_processing.Sdp.Attribute.{SdpAttribute, of_key_value}
use sip_processing.Sdp.Format.{SdpFormat, Fmt, set_fmt, get_fmt_number}

pub record SdpMediaLine : Type 0 where
  pub media_type : SdpMediaType
  pub port : Option ℕ
  pub port_count : ℕ
  pub protocol : SdpProtocolType
  pub formats : List ℕ

-- The port and the number of ports.
abbrev pub port_of : List MappedBuffer → Option (ℕ × ℕ)
port_of [] = none
port_of (port ∷ []) = some (to_unsigned_long_integer port % 2 ^ 16, 1)
port_of (port ∷ count ∷ rest) =
    some (to_unsigned_long_integer port % 2 ^ 16, to_unsigned_long_integer count % 2 ^ 16)

-- The line of four items or more, once its port is read.
abbrev pub with_port :
    Option (ℕ × ℕ) → MappedBuffer → MappedBuffer → List MappedBuffer → Option SdpMediaLine
with_port port_info media_type protocol formats = do
  port ← port_info
  some (record {
    media_type = MediaType.set_type media_type;
    port = some port.0;
    port_count = port.1;
    protocol = ProtocolType.set_type protocol;
    formats = map to_unsigned_short_integer formats;
  })

-- A line with less than four items is only logged.
abbrev pub of_content : List MappedBuffer → Option SdpMediaLine
of_content (media_type ∷ transport_port ∷ protocol ∷ format ∷ formats) =
    with_port (port_of (buffer_split transport_port b'/')) media_type protocol (format ∷ formats)
of_content content = some (record {
  media_type = MediaType.audio;
  port = none;
  port_count = 1;
  protocol = ProtocolType.rtp;
  formats = [];
})

unfoldable pub media_line : MappedBuffer → Option SdpMediaLine
unfolding buffer_split to_unsigned_long_integer to_unsigned_short_integer MediaType.set_type
    ProtocolType.set_type
media_line line = of_content (buffer_split line b' ')

-- Each number behind a blank.
abbrev pub numbers : List ℕ → Text
numbers [] = []
numbers (n ∷ ns) = stream (codes " " ∷ decimal n ∷ numbers ns ∷ [])

unfoldable pub line_to_string : SdpMediaLine → Option Text
unfolding MediaType.to_string ProtocolType.to_string decimal
line_to_string line = do
  port ← line.port
  some (
      stream (
        MediaType.to_string line.media_type
        ∷ codes " "
        ∷ decimal port
        ∷ codes " "
        ∷ ProtocolType.to_string line.protocol
        ∷ numbers line.formats
        ∷ []))

pub record SdpMedia : Type 0 where
  pub media_type : SdpMediaType
  pub port : Option ℕ
  pub protocol : SdpProtocolType
  pub formats : List SdpFormat
  pub attributes : List SdpAttribute
  pub logger : Bool

-- `SdpMedia(SdpMediaLine &)`: the formats of the line stay behind.
abbrev pub of_line : SdpMediaLine → SdpMedia
of_line line = record {
  media_type = line.media_type;
  port = line.port;
  protocol = line.protocol;
  formats = [];
  attributes = [];
  logger = false;
}

abbrev pub of_port : SdpMediaType → ℕ → SdpProtocolType → SdpMedia
of_port media_type port protocol = record {
  media_type = media_type;
  port = some (port % 2 ^ 16);
  protocol = protocol;
  formats = [];
  attributes = [];
  logger = false;
}

-- The copy constructor, which leaves the logger out.
abbrev pub copy : SdpMedia → SdpMedia
copy m = record m { logger = false }

-- The loop of `hasFormat`, for the number of the format type.
abbrev pub has_number : Option Fmt → List SdpFormat → Option Bool
has_number fmt [] = some false
has_number fmt (f ∷ fs) = do
  number ← fmt
  if f.id == get_fmt_number number then some true else has_number fmt fs

unfoldable pub has_format : ℕ → SdpMedia → Option Bool
unfolding set_fmt get_fmt_number
has_format fmt_id m = has_number (set_fmt fmt_id) m.formats

unfoldable pub add_format : SdpFormat → SdpMedia → Option SdpMedia
unfolding has_format
add_format format m = do
  present ← has_format format.id m
  let added : SdpMedia = record m { formats = m.formats ++ (format ∷ []) }
  if present then if m.logger then some added else none else some added

unfoldable pub add_attribute : SdpAttribute → SdpMedia → SdpMedia
add_attribute attribute m = record m { attributes = m.attributes ++ (attribute ∷ []) }

-- The overload for C strings, which writes to the log first; none of the first two is null.
unfoldable pub add_key_value : Text → Text → Text → SdpMedia → Option SdpMedia
unfolding add_attribute
add_key_value key value parameters m =
    if m.logger then some (add_attribute (of_key_value key value parameters) m) else none

-- Each attribute on a line of its own.
abbrev pub attribute_lines : List SdpAttribute → Text
attribute_lines [] = []
attribute_lines (a ∷ l) = stream (codes "\r\n" ∷ Attribute.to_string a ∷ attribute_lines l ∷ [])

unfoldable pub to_string : SdpMedia → Option Text
unfolding MediaType.to_string ProtocolType.to_string Attribute.to_string decimal
to_string m = do
  port ← m.port
  some (
      stream (
        codes "m="
        ∷ MediaType.to_string m.media_type
        ∷ codes " "
        ∷ decimal port
        ∷ codes " "
        ∷ ProtocolType.to_string m.protocol
        ∷ numbers (map (λ f. f.id) m.formats)
        ∷ attribute_lines m.attributes
        ∷ []))

-- A comma before each attribute but the first.
abbrev pub attributes_json : Bool → List SdpAttribute → Text
attributes_json first [] = []
attributes_json first (a ∷ l) = stream (
    (if first then [] else codes ",")
    ∷ codes "\r\n"
    ∷ Attribute.to_json a
    ∷ attributes_json false l
    ∷ [])

unfoldable pub to_json : SdpMedia → Option Text
unfolding MediaType.to_string ProtocolType.to_string Attribute.to_json decimal
to_json m = do
  port ← m.port
  some (
      stream (
        codes "{"
        ∷ codes "\"type\":\""
        ∷ MediaType.to_string m.media_type
        ∷ codes "\","
        ∷ codes "\"port\":"
        ∷ decimal port
        ∷ codes ","
        ∷ codes "\"protocol\":\""
        ∷ ProtocolType.to_string m.protocol
        ∷ codes "\","
        ∷ codes "\"attribute\":["
        ∷ attributes_json true m.attributes
        ∷ codes "]"
        ∷ codes "}"
        ∷ []))
