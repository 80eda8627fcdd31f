-- ===== src/Sdp/ProtocolType.antt =====
-- src/components/sdp/SdpProtocolType.hpp
use sip_processing.Prelude.{◌≡◌, refl, Text, codes, if◌then◌else◌, false}
use sip_processing.Buffers.{MappedBuffer, mapped_buffer, buffer_trim, buffer_equals}

pub data SdpProtocolType : Type 0 where
  udp : SdpProtocolType
  rtp : SdpProtocolType
  srtp : SdpProtocolType

unfoldable pub to_string : SdpProtocolType → Text
to_string udp = codes "UDP"
to_string rtp = codes "RTP/AVP"
to_string srtp = codes "RTP/SAVP"

unfoldable pub set_type : MappedBuffer → SdpProtocolType
unfolding buffer_trim buffer_equals
set_type value =
    let protocol_type = buffer_trim value 0 in
    if buffer_equals protocol_type (codes "RTP/AVP") false
    then rtp
    else if buffer_equals protocol_type (codes "RTP/SAVP") false
    then srtp
    else if buffer_equals protocol_type (codes "UDP") false
    then udp
    else rtp

pub set_type-to_string : (t : SdpProtocolType) → set_type (mapped_buffer (to_string t)) ≡ t
unfolding set_type to_string
set_type-to_string udp = refl
set_type-to_string rtp = refl
set_type-to_string srtp = refl
