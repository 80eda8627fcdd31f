-- ===== src/Sdp/AddrType.antt =====
-- src/components/sdp/SdpAddrType.hpp
use sip_processing.Prelude.{◌≡◌, refl, Text, codes, if◌then◌else◌, false}
use sip_processing.Buffers.{MappedBuffer, mapped_buffer, buffer_trim, buffer_equals}

pub data SdpAddrType : Type 0 where
  ipv4 : SdpAddrType
  ipv6 : SdpAddrType

unfoldable pub to_string : SdpAddrType → Text
to_string ipv4 = codes "IP4"
to_string ipv6 = codes "IP6"

unfoldable pub set_type : MappedBuffer → SdpAddrType
unfolding buffer_trim buffer_equals
set_type value =
    let buffer = buffer_trim value 0 in
    if buffer_equals buffer (codes "IP4") false
    then ipv4
    else if buffer_equals buffer (codes "IP6") false
    then ipv6
    else ipv4

pub set_type-to_string : (t : SdpAddrType) → set_type (mapped_buffer (to_string t)) ≡ t
unfolding set_type to_string
set_type-to_string ipv4 = refl
set_type-to_string ipv6 = refl
