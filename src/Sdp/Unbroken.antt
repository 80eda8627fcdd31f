-- ===== src/Sdp/Unbroken.antt =====
-- src/components/sdp/Sdp.cpp: none of the lines that `toString` prints is empty or holds a line end.
use mathlib.Core.List.{append-nil}
use sip_processing.Prelude.{◌≢◌, refl, List, [], ◌∷◌, ◌++◌, Text}
use sip_processing.Buffers.{is_line_end}
use sip_processing.Buffers.Words.{Unstopped, AreWords}
use sip_processing.Sdp.Attribute
use sip_processing.Sdp.Attribute.{SdpAttribute}
use sip_processing.Sdp.Connection
use sip_processing.Sdp.Connection.{SdpConnection}
use sip_processing.Sdp.Timing
use sip_processing.Sdp.Timing.{SdpTiming}
use sip_processing.Sdp.Session.{SdpSession, session_to_string, SdpVersion, version_to_string}
use sip_processing.Sdp.Media.{SdpMedia}
use sip_processing.Sdp.Description.{Sdp}
use sip_processing.Sdp.Lines.{timing-unbroken, connection-unbroken}
use sip_processing.Sdp.Lines.OriginText.{origin-unbroken, origin-full}
use sip_processing.Sdp.Lines.AttributeText.{to_string-unbroken}
use sip_processing.Sdp.Lines.MediaText.{media-unbroken, media-full}
use sip_processing.Sdp.Printed.{
  AreAttributes, number, AreStreams, IsPrinted, attribute_texts, stream_lines, lines_of,
}

version-unbroken :
    (v : SdpVersion) → Unstopped is_line_end v.version → Unstopped is_line_end (version_to_string v)
unfolding version_to_string
version-unbroken v h = rw (append-nil v.version) (refl, (refl, h))

session-unbroken :
    (s : SdpSession) → Unstopped is_line_end s.name → Unstopped is_line_end (session_to_string s)
unfolding session_to_string
session-unbroken s h = rw (append-nil s.name) (refl, (refl, h))

version-full : (v : SdpVersion) → version_to_string v ≢ []
unfolding version_to_string
version-full v = λ e. cc

session-full : (s : SdpSession) → session_to_string s ≢ []
unfolding session_to_string
session-full s = λ e. cc

connection-full : (c : SdpConnection) → Connection.to_string c ≢ []
unfolding Connection.to_string
connection-full c = λ e. cc

timing-full : (t : SdpTiming) → Timing.to_string t ≢ []
unfolding Timing.to_string
timing-full t = λ e. cc

attribute-full : (a : SdpAttribute) → Attribute.to_string a ≢ []
unfolding Attribute.to_string
attribute-full a = λ e. cc

attributes-AreWords :
    (l : List SdpAttribute) (ls : List Text)
    → AreAttributes l
    → AreWords is_line_end ls
    → AreWords is_line_end (attribute_texts l ++ ls)
attributes-AreWords [] ls h k = k
attributes-AreWords (a ∷ l) ls h k =
    (attribute-full a, to_string-unbroken a h.0, attributes-AreWords l ls h.1 k)

stream_lines-AreWords :
    (ms : List SdpMedia) → AreStreams ms → AreWords is_line_end (stream_lines ms)
stream_lines-AreWords [] h = tt
stream_lines-AreWords (m ∷ ms) h = (
  media-full m (number m.port),
  media-unbroken m (number m.port),
  attributes-AreWords m.attributes (stream_lines ms) h.0.3 (stream_lines-AreWords ms h.1),
)

pub lines_of-AreWords : (sdp : Sdp) → IsPrinted sdp → AreWords is_line_end (lines_of sdp)
lines_of-AreWords sdp h =
    let version = number sdp.origin.session_version in
    let streams =
      attributes-AreWords sdp.attributes (stream_lines sdp.media) h.attributes
        (stream_lines-AreWords sdp.media h.media) in
    (
      version-full sdp.version,
      version-unbroken sdp.version h.version,
      (
        origin-full sdp.origin version,
        origin-unbroken sdp.origin version h.origin,
        (
          session-full sdp.session,
          session-unbroken sdp.session h.session,
          (
            connection-full sdp.connection,
            connection-unbroken sdp.connection h.net_type h.address,
            (timing-full sdp.timing, timing-unbroken sdp.timing, streams),
          ),
        ),
      ),
    )
