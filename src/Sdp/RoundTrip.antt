-- ===== src/Sdp/RoundTrip.antt =====
-- src/components/sdp/Sdp.cpp: what the constructor's loop makes of the text that `toString` prints.
use mathlib.Core.List.{append-nil}
use sip_processing.Prelude.{
  ℕ, suc, ◌≤◌, ◌≡◌, refl, sym, ap, ◌∙◌, List, [], ◌∷◌, ◌++◌, Text, length, arith, some, none, Bool,
  if◌then◌else◌, map, min,
}
use sip_processing.Buffers.{buffer_split_lines}
use sip_processing.Buffers.Words.{unlines, line_views, buffer_split_lines-unlines}
use sip_processing.Buffers.Kept.{before, bytes-before}
use sip_processing.Sdp.Connection
use sip_processing.Sdp.Timing
use sip_processing.Sdp.Session.{SdpSession, session_to_string, SdpVersion, version_to_string}
use sip_processing.Sdp.Media.{SdpMedia}
use sip_processing.Sdp.Description
use sip_processing.Sdp.Description.{
  Sdp, to_lower, parse_entry, parse_line, parse_lines, parse_body, add_attribute_line, push_media,
  members,
}
use sip_processing.Sdp.Lines.{parse_line-letter, parse_line-timing, parse_line-connection}
use sip_processing.Sdp.Lines.OriginText.{origin_text, parse_line-origin}
use sip_processing.Sdp.Unbroken.{lines_of-AreWords}
use sip_processing.Sdp.Printed.{
  number, IsPrinted, attribute_texts, stream_lines, lines_of, to_string-lines,
}
use sip_processing.Sdp.ReadBack.{
  parsed_media, parsed, logs, lines_step, attributes_to_all, first_streams,
}

parse_line-session :
    (s : SdpSession) (r : Text) (sdp : Sdp)
    → parse_line (before (session_to_string s) r) sdp ≡ some (record sdp { session = s })
unfolding session_to_string to_lower parse_entry
parse_line-session s r sdp = rw (append-nil s.name) (
    parse_line-letter b's' s.name r sdp refl
    ∙ ap (λ t. some (record sdp { session = record { name = t } })) (bytes-before s.name r))

parse_line-version :
    (v : SdpVersion) (r : Text) (sdp : Sdp)
    → parse_line (before (version_to_string v) r) sdp ≡ some sdp
unfolding version_to_string to_lower parse_entry
parse_line-version v r sdp = rw (append-nil v.version) (parse_line-letter b'v' v.version r sdp refl)

length-map : (ms : List SdpMedia) → length (map parsed_media ms) ≡ length ms
length-map [] = refl
length-map (m ∷ ms) = ap suc (length-map ms)

lines_lem :
    (sdp : Sdp) (t : ℕ) (log : Bool)
    → IsPrinted sdp
    → parse_lines (line_views (lines_of sdp)) (members t log)
      ≡ (if logs log sdp.media then some (parsed log sdp) else none)
lines_lem sdp t log h =
    let new = members t log in
    let has_origin : Sdp = record new { origin = sdp.origin } in
    let has_session : Sdp = record has_origin { session = sdp.session } in
    let has_connection : Sdp = record has_session { connection = sdp.connection } in
    let has_timing : Sdp = record has_connection { timing = sdp.timing } in
    let has_attributes : Sdp = record has_timing { attributes = sdp.attributes } in
    let from_attributes = attribute_texts sdp.attributes ++ stream_lines sdp.media in
    let from_timing = Timing.to_string sdp.timing ∷ from_attributes in
    let from_connection = Connection.to_string sdp.connection ∷ from_timing in
    let from_session = session_to_string sdp.session ∷ from_connection in
    let origin = origin_text sdp.origin (number sdp.origin.session_version) in
    lines_step (version_to_string sdp.version) (origin ∷ from_session) new new
      (λ r. parse_line-version sdp.version (b'\r' ∷ r) new)
    ∙ lines_step origin from_session new has_origin (λ r.
      parse_line-origin sdp.origin (number sdp.origin.session_version) (b'\r' ∷ r) new h.origin)
    ∙ lines_step (session_to_string sdp.session) from_connection has_origin has_session
        (λ r. parse_line-session sdp.session (b'\r' ∷ r) has_origin)
    ∙ lines_step (Connection.to_string sdp.connection) from_timing has_session has_connection
        (λ r. parse_line-connection sdp.connection (b'\r' ∷ r) has_session h.net_type h.address)
    ∙ lines_step (Timing.to_string sdp.timing) from_attributes has_connection has_timing
        (λ r. parse_line-timing sdp.timing r has_connection h.start h.stop)
    ∙ attributes_to_all sdp.attributes (stream_lines sdp.media) has_timing refl h.attributes
    ∙ first_streams sdp.media has_attributes log h.few h.media
    ∙ ap
        (λ n.
          if logs log sdp.media then some (record (parsed log sdp) { stream_count = n }) else none)
        (length-map sdp.media ∙ sym h.counted)

-- A description whose numbers are set and fit, which counts its streams, of which each has a
-- format, and whose lines take 4096 bytes at most, is printed. Its texts do not break the lines and
-- fields that they stand in, and are not empty where a field is read; the net type of its origin is `IN`; an
-- attribute that is a property has no value, and any other one has; no name of an attribute has a colon, and
-- no parameters end with white space. From the printed text the constructor's loop, on the members of a new description with the log set or not set, reads the same
-- description, except that the version is the default one and that no stream has its formats; without
-- the log this holds if the description has no streams, and one with streams makes the loop use the null
-- pointer. The constructor itself never has the log, and uses it once before the loop.
pub parse_body-to_string :
    (sdp : Sdp) (t : ℕ) (log : Bool)
    → IsPrinted sdp
    → length (unlines (lines_of sdp)) ≤ 4096
    → (text : Text) × (Description.to_string sdp ≡ some text)
      × (parse_body text (length text) (members t log)
          ≡ (if logs log sdp.media then some (parsed log sdp) else none))
unfolding parse_body
parse_body-to_string sdp t log h fits =
    let text = unlines (lines_of sdp) in
    let all : min (length text) 4096 ≡ length text = omega arith in
    (
      text,
      to_string-lines sdp h,
      ap (λ n. parse_lines (buffer_split_lines (record { buf = text; len = n })) (members t log))
            all
          ∙ ap (λ l. parse_lines l (members t log))
              (buffer_split_lines-unlines (lines_of sdp) (lines_of-AreWords sdp h))
          ∙ lines_lem sdp t log h,
    )
