-- ===== src/Sdp/AttributeType.antt =====
-- src/components/sdp/SdpAttributeType.hpp
use sip_processing.Prelude.{◌≡◌, refl, Text, codes, if◌then◌else◌, false}
use sip_processing.Buffers.{MappedBuffer, mapped_buffer, buffer_trim, buffer_equals}

pub data SdpAttributeType : Type 0 where
  none : SdpAttributeType
  rtpmap : SdpAttributeType
  ptime : SdpAttributeType
  recvonly : SdpAttributeType
  sendonly : SdpAttributeType
  sendrecv : SdpAttributeType
  inactive : SdpAttributeType
  orient : SdpAttributeType
  conferencetype : SdpAttributeType
  lang : SdpAttributeType
  sdplang : SdpAttributeType
  framerate : SdpAttributeType
  quality : SdpAttributeType
  fmtp : SdpAttributeType

unfoldable pub to_string : SdpAttributeType → Text
to_string rtpmap = codes "rtpmap"
to_string ptime = codes "ptime"
to_string recvonly = codes "recvonly"
to_string sendonly = codes "sendonly"
to_string sendrecv = codes "sendrecv"
to_string inactive = codes "inactive"
to_string orient = codes "orient"
to_string conferencetype = codes "conferencetype"
to_string lang = codes "lang"
to_string sdplang = codes "sdplang"
to_string framerate = codes "framerate"
to_string quality = codes "quality"
to_string fmtp = codes "fmtp"
to_string none = codes "none"

unfoldable pub set_type : MappedBuffer → SdpAttributeType
unfolding buffer_trim buffer_equals
set_type value =
    let buffer = buffer_trim value 0 in
    if buffer_equals buffer (codes "rtpmap") false
    then rtpmap
    else if buffer_equals buffer (codes "ptime") false
    then ptime
    else if buffer_equals buffer (codes "recvonly") false
    then recvonly
    else if buffer_equals buffer (codes "sendonly") false
    then sendonly
    else if buffer_equals buffer (codes "sendrecv") false
    then sendrecv
    else if buffer_equals buffer (codes "inactive") false
    then inactive
    else if buffer_equals buffer (codes "orient") false
    then orient
    else if buffer_equals buffer (codes "conferencetype") false
    then conferencetype
    else if buffer_equals buffer (codes "lang") false
    then lang
    else if buffer_equals buffer (codes "sdplang") false
    then sdplang
    else if buffer_equals buffer (codes "framerate") false
    then framerate
    else if buffer_equals buffer (codes "quality") false
    then quality
    else if buffer_equals buffer (codes "fmtp") false
    then fmtp
    else none

pub set_type-to_string : (t : SdpAttributeType) → set_type (mapped_buffer (to_string t)) ≡ t
unfolding set_type to_string
set_type-to_string none = refl
set_type-to_string rtpmap = refl
set_type-to_string ptime = refl
set_type-to_string recvonly = refl
set_type-to_string sendonly = refl
set_type-to_string sendrecv = refl
set_type-to_string inactive = refl
set_type-to_string orient = refl
set_type-to_string conferencetype = refl
set_type-to_string lang = refl
set_type-to_string sdplang = refl
set_type-to_string framerate = refl
set_type-to_string quality = refl
set_type-to_string fmtp = refl
