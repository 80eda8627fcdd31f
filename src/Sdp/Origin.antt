-- ===== src/Sdp/Origin.antt =====
-- src/components/sdp/SdpOriginLine.hpp and SdpOrigin.hpp. A number that no constructor has set is
-- `none`; to print one is undefined in C++, and so is the result then.
use sip_processing.Prelude.{
  ℕ, ◌%◌, ◌^◌, ◌∷◌, [], List, Option, none, some, Text, codes, stream, decimal, if◌then◌else◌,
  ◌>>=◌, false,
}
use sip_processing.Buffers.{MappedBuffer, bytes, buffer_split, buffer_equals}
use sip_processing.Buffers.Numbers.{strtoul, to_long_integer, uint32}
use sip_processing.Sdp.AddrType
use sip_processing.Sdp.AddrType.{SdpAddrType}

pub record SdpOriginLine : Type 0 where
  pub username : Text
  pub session_id : Text
  pub session_version : Option ℕ
  pub net_type : Text
  pub address : Text
  pub addr_type : SdpAddrType

abbrev pub of_content : List MappedBuffer → SdpOriginLine
of_content (username ∷ session_id ∷ session_version ∷ net_type ∷ addr_type ∷ address ∷ []) =
    record {
      username = bytes username;
      session_id = bytes session_id;
      session_version = some (uint32 (to_long_integer session_version));
      net_type = bytes net_type;
      address = bytes address;
      addr_type =
          if buffer_equals addr_type (codes "IP6") false then AddrType.ipv6 else AddrType.ipv4;
    }
of_content content = record {
  username = [];
  session_id = [];
  session_version = none;
  net_type = codes "IN";
  address = [];
  addr_type = AddrType.ipv4;
}

unfoldable pub origin_line : MappedBuffer → SdpOriginLine
unfolding buffer_split to_long_integer buffer_equals
origin_line line = of_content (buffer_split line b' ')

pub record SdpOrigin : Type 0 where
  pub username : Text
  pub session_id : ℕ
  pub session_version : Option ℕ
  pub address : Text
  pub addr_type : SdpAddrType
  pub net_type : Text

-- The default constructor, at the time `t`.
abbrev pub default_origin : ℕ → SdpOrigin
default_origin t = record {
  username = [];
  session_id = t % 2 ^ 64;
  session_version = none;
  address = [];
  addr_type = AddrType.ipv4;
  net_type = codes "IN";
}

unfoldable pub set_session_id : Text → SdpOrigin → SdpOrigin
unfolding strtoul
set_session_id id o = record o { session_id = strtoul id }

unfoldable pub set_session_number : ℕ → SdpOrigin → SdpOrigin
set_session_number id o = record o { session_id = id % 2 ^ 32 }

unfoldable pub get_session_id : SdpOrigin → ℕ
get_session_id o = o.session_id % 2 ^ 32

-- `SdpOrigin(std::string, std::string, uint32_t, std::string)`.
unfoldable pub of_strings : Text → Text → ℕ → Text → SdpOrigin
unfolding set_session_id
of_strings username session_id session_version address = set_session_id session_id (record {
  username = username;
  session_id = 0;
  session_version = some (session_version % 2 ^ 32);
  address = address;
  addr_type = AddrType.ipv4;
  net_type = codes "IN";
})

-- `SdpOrigin(const SdpOriginLine &)`, which leaves the network type of the line out.
unfoldable pub of_line : SdpOriginLine → SdpOrigin
unfolding set_session_id
of_line line = set_session_id line.session_id (record {
  username = line.username;
  session_id = 0;
  session_version = line.session_version;
  address = line.address;
  addr_type = line.addr_type;
  net_type = codes "IN";
})

unfoldable pub to_string : SdpOrigin → Option Text
unfolding AddrType.to_string decimal
to_string o = do
  session_version ← o.session_version
  some (
      stream (
        codes "o="
        ∷ o.username
        ∷ codes " "
        ∷ decimal o.session_id
        ∷ codes " "
        ∷ decimal session_version
        ∷ codes " "
        ∷ o.net_type
        ∷ codes " "
        ∷ AddrType.to_string o.addr_type
        ∷ codes " "
        ∷ o.address
        ∷ []))

unfoldable pub to_json : SdpOrigin → Option Text
unfolding AddrType.to_string decimal
to_json o = do
  session_version ← o.session_version
  some (
      stream (
        codes "{"
        ∷ codes "\"username\":\""
        ∷ o.username
        ∷ codes "\","
        ∷ codes "\"sessionId\":"
        ∷ decimal o.session_id
        ∷ codes ","
        ∷ codes "\"sessionVersion\":"
        ∷ decimal session_version
        ∷ codes ","
        ∷ codes "\"networkType\":\""
        ∷ o.net_type
        ∷ codes "\","
        ∷ codes "\"addressType\":\""
        ∷ AddrType.to_string o.addr_type
        ∷ codes "\","
        ∷ codes "\"address\":\""
        ∷ o.address
        ∷ codes "\""
        ∷ codes "}"
        ∷ []))
