-- ===== src/Sdp/Session.antt =====
-- src/components/sdp/SdpSession.hpp and SdpVersion.hpp: two classes with one text each.
use sip_processing.Prelude.{◌∷◌, [], Text, codes, stream}
use sip_processing.Buffers.{MappedBuffer, bytes}

pub record SdpSession : Type 0 where
  pub name : Text

abbrev pub default_session : SdpSession
default_session = record { name = codes "-" }

abbrev pub session_line : MappedBuffer → SdpSession
session_line raw_s_line_data = record { name = bytes raw_s_line_data }

unfoldable pub session_to_string : SdpSession → Text
session_to_string s = stream (codes "s=" ∷ s.name ∷ [])

unfoldable pub session_to_json : SdpSession → Text
session_to_json s = stream (codes "{\"name\":\"" ∷ s.name ∷ codes "\"}" ∷ [])

pub record SdpVersion : Type 0 where
  pub version : Text

abbrev pub default_version : SdpVersion
default_version = record { version = codes "0" }

abbrev pub version_line : MappedBuffer → SdpVersion
version_line raw_line_data = record { version = bytes raw_line_data }

unfoldable pub version_to_string : SdpVersion → Text
version_to_string v = stream (codes "v=" ∷ v.version ∷ [])

unfoldable pub version_to_json : SdpVersion → Text
version_to_json v = stream (codes "{\"version\":\"" ∷ v.version ∷ codes "\"}" ∷ [])
