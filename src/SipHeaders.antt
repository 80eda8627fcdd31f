-- ===== src/SipHeaders.antt =====
-- src/components/sip/headers: what the headers read from their values when they are made. A member of the Via header
-- that is left unset, and an index outside the vector of a split, are undefined in C++: they return
-- `none`, the former already when the header is made, since the builder reads it then.
pub mod Tokens
pub mod RoundTrip
mod Tests
use sip_processing.Prelude.{
  ℕ, ◌+◌, ◌-◌, ◌%◌, ◌^◌, List, [], ◌∷◌, ◌++◌, Option, none, some, Bool, true, false, Text, codes,
  ltb, ◌==◌, if◌then◌else◌, ◌>>=◌, ℤ, pos, negsuc, is_zero,
}
use sip_processing.Buffers.{
  MappedBuffer, bytes, mapped_buffer, buffer_split, buffer_equals, buffer_ends_with,
  buffer_contains,
}
use sip_processing.Buffers.Numbers.{strtol, to_long_integer, uint32}
use sip_processing.SipMessage.{SipHeader, TransportType, BodyType}

-- The conversion of a `long` to `int`.
abbrev pub signed_32 : ℕ → ℤ
signed_32 n = if ltb n (2 ^ 31) then pos n else negsuc (2 ^ 32 - 1 - n)

abbrev pub int32 : ℤ → ℤ
int32 z = signed_32 (uint32 z)

-- `atoi`.
unfoldable pub atoi : Text → ℤ
unfolding strtol
atoi s = int32 (strtol s)

-- A header that reads nothing from its value.
abbrev pub plain_header : Text → Text → SipHeader
plain_header field_name value = record {
  field_name = field_name;
  value = value;
  transport_type = TransportType.udp;
  remote_address = [];
  remote_branch = [];
  remote_port = pos 0;
}

unfoldable pub transport_of : MappedBuffer → TransportType
unfolding buffer_ends_with
transport_of section =
    if buffer_ends_with section (codes "UDP") false
    then TransportType.udp
    else if buffer_ends_with section (codes "TCP") false
    then TransportType.tcp
    else TransportType.udp

-- The address and the port of the first sub-section.
abbrev pub address_of : List MappedBuffer → Option (Text × ℤ)
address_of [] = none
address_of (address ∷ []) = some (bytes address, pos 0)
address_of (address ∷ port ∷ rest) = some (bytes address, atoi (bytes port))

-- A pair of name and value in the sub-sections behind the first.
abbrev pub read_pair : List MappedBuffer → SipHeader → SipHeader
read_pair (name ∷ value ∷ []) h =
    if buffer_equals name (codes "branch") false
    then record h { remote_branch = bytes value }
    else if buffer_equals name (codes "rport") false
    then if is_zero h.remote_port
      then record h { remote_port = int32 (to_long_integer value) }
      else h
    else h
read_pair kvp h = h

abbrev pub read_pairs : List MappedBuffer → SipHeader → SipHeader
read_pairs [] h = h
read_pairs (section ∷ sections) h = read_pairs sections (read_pair (buffer_split section b'=') h)

-- The loop over the sub-sections.
abbrev pub read_sub_sections : List MappedBuffer → SipHeader → Option SipHeader
read_sub_sections [] h = none
read_sub_sections (first ∷ rest) h = do
  address ← address_of (buffer_split first b':')
  some (read_pairs rest (record h { remote_address = address.0; remote_port = address.1 }))

abbrev pub read_sections : List MappedBuffer → SipHeader → Option SipHeader
read_sections (protocol ∷ remote ∷ []) h =
    read_sub_sections (buffer_split remote b';')
      (record h { transport_type = transport_of protocol })
read_sections sections h = none

unfoldable pub via_header : MappedBuffer → Option SipHeader
unfolding buffer_split atoi to_long_integer buffer_equals transport_of
via_header header_value =
    read_sections (buffer_split header_value b' ') (plain_header (codes "Via") (bytes header_value))

-- `SipContentTypeHeader`: the type that it keeps.
unfoldable pub header_content_type : SipHeader → BodyType
unfolding buffer_contains
header_content_type h =
    let header_value = mapped_buffer h.value in
    if buffer_contains header_value (codes "XML") false
    then BodyType.xml
    else if buffer_contains header_value (codes "SDP") false
    then BodyType.sdp
    else if buffer_contains header_value (codes "MULTIPLE") false
    then BodyType.multiple
    else if buffer_contains header_value (codes "BOUNDARY") false
    then BodyType.boundary
    else BodyType.unknown

-- `SipContentLengthHeader`: the number that it keeps. Behind the value stands the line end, where the
-- number ends at the latest if the value is not blank.
unfoldable pub header_content_length : SipHeader → ℤ
unfolding to_long_integer
header_content_length h = int32 (to_long_integer (mapped_buffer h.value))
