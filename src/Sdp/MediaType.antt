-- ===== src/Sdp/MediaType.antt =====
-- src/components/sdp/SdpMediaType.hpp
use sip_processing.Prelude.{◌≡◌, refl, Text, codes, if◌then◌else◌, false}
use sip_processing.Buffers.{MappedBuffer, mapped_buffer, buffer_trim, buffer_equals}

pub data SdpMediaType : Type 0 where
  unknown : SdpMediaType
  audio : SdpMediaType
  video : SdpMediaType
  text : SdpMediaType
  application : SdpMediaType
  message : SdpMediaType

unfoldable pub to_string : SdpMediaType → Text
to_string audio = codes "audio"
to_string video = codes "video"
to_string text = codes "text"
to_string application = codes "application"
to_string message = codes "message"
to_string unknown = codes "unknown"

unfoldable pub set_type : MappedBuffer → SdpMediaType
unfolding buffer_trim buffer_equals
set_type value =
    let buffer = buffer_trim value 0 in
    if buffer_equals buffer (codes "audio") false
    then audio
    else if buffer_equals buffer (codes "video") false
    then video
    else if buffer_equals buffer (codes "text") false
    then text
    else if buffer_equals buffer (codes "application") false
    then application
    else if buffer_equals buffer (codes "message") false
    then message
    else unknown

pub set_type-to_string : (t : SdpMediaType) → set_type (mapped_buffer (to_string t)) ≡ t
unfolding set_type to_string
set_type-to_string unknown = refl
set_type-to_string audio = refl
set_type-to_string video = refl
set_type-to_string text = refl
set_type-to_string application = refl
set_type-to_string message = refl
