-- ===== src/Sdp/Connection.antt =====
-- src/components/sdp/SdpConnectionLine.hpp and SdpConnection.hpp. An index outside the vector of a
-- split is undefined in C++: here it returns `none`.
use sip_processing.Prelude.{◌∷◌, [], List, Option, none, some, Text, codes, stream}
use sip_processing.Buffers.{MappedBuffer, bytes, buffer_split}
use sip_processing.Sdp.AddrType
use sip_processing.Sdp.AddrType.{SdpAddrType, set_type}

-- Both classes have these fields, and the one is copied from the other.
pub record SdpConnection : Type 0 where
  pub address : Text
  pub addr_type : SdpAddrType
  pub net_type : Text

abbrev pub default_connection : SdpConnection
default_connection = record { address = []; addr_type = AddrType.ipv4; net_type = codes "IN" }

-- `SdpConnection(std::string)`.
abbrev pub of_address : Text → SdpConnection
of_address address = record { address = address; addr_type = AddrType.ipv4; net_type = codes "IN" }

abbrev pub of_content : List MappedBuffer → Option SdpConnection
of_content (net_type ∷ addr_type ∷ address ∷ rest) =
    some (record {
      address = bytes address;
      addr_type = set_type addr_type;
      net_type = bytes net_type;
    })
of_content content = none

unfoldable pub connection_line : MappedBuffer → Option SdpConnection
unfolding buffer_split set_type
connection_line line = of_content (buffer_split line b' ')

unfoldable pub line_to_string : SdpConnection → Text
unfolding AddrType.to_string
line_to_string c =
    stream (c.net_type ∷ codes " " ∷ AddrType.to_string c.addr_type ∷ codes " " ∷ c.address ∷ [])

unfoldable pub to_string : SdpConnection → Text
unfolding AddrType.to_string
to_string c = stream (
    codes "c="
    ∷ c.net_type
    ∷ codes " "
    ∷ AddrType.to_string c.addr_type
    ∷ codes " "
    ∷ c.address
    ∷ [])

unfoldable pub to_json : SdpConnection → Text
unfolding AddrType.to_string
to_json c = stream (
    codes "{"
    ∷ codes "\"netType\":\""
    ∷ c.net_type
    ∷ codes "\","
    ∷ codes "\"addressType\":\""
    ∷ AddrType.to_string c.addr_type
    ∷ codes "\","
    ∷ codes "\"address\":\""
    ∷ c.address
    ∷ codes "\""
    ∷ codes "}"
    ∷ [])
