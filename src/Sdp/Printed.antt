-- ===== src/Sdp/Printed.antt =====
-- src/components/sdp/Sdp.cpp: the lines that `toString` prints.
use mathlib.Core.List.{append_assoc, append-nil}
use sip_processing.Prelude.{
  ℕ, ◌+◌, ◌^◌, ◌<◌, ◌≡◌, ◌≢◌, refl, sym, ap, ◌∙◌, List, [], ◌∷◌, ◌++◌, Text, length, decimal, codes,
  some, none, Option, map, ◌>>=◌,
}
use sip_processing.Buffers.{is_line_end}
use sip_processing.Buffers.Words.{Unstopped, unlines}
use sip_processing.Sdp.Attribute
use sip_processing.Sdp.Attribute.{SdpAttribute}
use sip_processing.Sdp.Connection
use sip_processing.Sdp.MediaType
use sip_processing.Sdp.ProtocolType
use sip_processing.Sdp.Timing
use sip_processing.Sdp.Session.{session_to_string, version_to_string}
use sip_processing.Sdp.Media
use sip_processing.Sdp.Media.{SdpMedia, numbers}
use sip_processing.Sdp.Description
use sip_processing.Sdp.Description.{Sdp, media_texts, media_line_text}
use sip_processing.Sdp.Lines.{IsWord}
use sip_processing.Sdp.Lines.OriginText.{IsPrintedOrigin, origin_text, to_string-origin_text}
use sip_processing.Sdp.Lines.AttributeText.{IsPrintedAttribute}
use sip_processing.Sdp.Lines.MediaText.{media_text, media_text-stream}

abbrev pub AreAttributes : List SdpAttribute → Type 0
AreAttributes [] = Unit
AreAttributes (a ∷ l) = IsPrintedAttribute a × AreAttributes l

abbrev pub number : Option ℕ → ℕ
number none = 0
number (some n) = n

-- A stream with a port and a format.
abbrev pub IsPrintedMedia : SdpMedia → Type 0
IsPrintedMedia m =
    (m.port ≡ some (number m.port))
    × (number m.port < 2 ^ 16)
    × (m.formats ≢ [])
    × AreAttributes m.attributes

abbrev pub AreStreams : List SdpMedia → Type 0
AreStreams [] = Unit
AreStreams (m ∷ ms) = IsPrintedMedia m × AreStreams ms

-- A description whose texts do not break the lines and fields that they stand in, whose numbers are set
-- and fit, and which counts its streams.
pub record IsPrinted (sdp : Sdp) : Type 0 where
  pub counted : sdp.stream_count ≡ length sdp.media
  pub few : length sdp.media < 2 ^ 8
  pub version : Unstopped is_line_end sdp.version.version
  pub origin : IsPrintedOrigin sdp.origin (number sdp.origin.session_version)
  pub session : Unstopped is_line_end sdp.session.name
  pub net_type : IsWord sdp.connection.net_type
  pub address : IsWord sdp.connection.address
  pub start : sdp.timing.start < 2 ^ 32
  pub stop : sdp.timing.stop < 2 ^ 32
  pub attributes : AreAttributes sdp.attributes
  pub media : AreStreams sdp.media

abbrev pub attribute_texts : List SdpAttribute → List Text
attribute_texts [] = []
attribute_texts (a ∷ l) = Attribute.to_string a ∷ attribute_texts l

abbrev pub stream_lines : List SdpMedia → List Text
stream_lines [] = []
stream_lines (m ∷ ms) =
    media_text m (number m.port) ∷ (attribute_texts m.attributes ++ stream_lines ms)

abbrev pub lines_of : Sdp → List Text
lines_of sdp =
    version_to_string sdp.version
    ∷ origin_text sdp.origin (number sdp.origin.session_version)
    ∷ session_to_string sdp.session
    ∷ Connection.to_string sdp.connection
    ∷ Timing.to_string sdp.timing
    ∷ (attribute_texts sdp.attributes ++ stream_lines sdp.media)

attribute_lines-unlines :
    (l : List SdpAttribute) (ls : List Text)
    → Description.attribute_lines l ++ unlines ls ≡ unlines (attribute_texts l ++ ls)
attribute_lines-unlines [] ls = refl
attribute_lines-unlines (a ∷ l) ls =
    let rest = Description.attribute_lines l in
    append_assoc (Attribute.to_string a) (b'\r' ∷ b'\n' ∷ (rest ++ [])) (unlines ls)
    ∙ ap (λ t. Attribute.to_string a ++ (b'\r' ∷ b'\n' ∷ (t ++ unlines ls))) (append-nil rest)
    ∙ ap (λ t. Attribute.to_string a ++ (b'\r' ∷ b'\n' ∷ t)) (attribute_lines-unlines l ls)

-- The attributes of a stream, each behind a line end, and the line end behind them.
media_lines-unlines :
    (l : List SdpAttribute) (ls : List Text)
    → Media.attribute_lines l ++ (b'\r' ∷ b'\n' ∷ unlines ls)
      ≡ b'\r' ∷ b'\n' ∷ unlines (attribute_texts l ++ ls)
media_lines-unlines [] ls = refl
media_lines-unlines (a ∷ l) ls =
    let rest = Media.attribute_lines l in
    let end = b'\r' ∷ b'\n' ∷ unlines ls in
    ap (λ t. b'\r' ∷ b'\n' ∷ t)
      (append_assoc (Attribute.to_string a) (rest ++ []) end
        ∙ ap (λ t. Attribute.to_string a ++ (t ++ end)) (append-nil rest)
        ∙ ap (λ t. Attribute.to_string a ++ t) (media_lines-unlines l ls))

media_to_string :
    (m : SdpMedia) (port : ℕ)
    → m.port ≡ some port
    → Media.to_string m ≡ some (media_text m port ++ Media.attribute_lines m.attributes)
unfolding Media.to_string
media_to_string m port e =
    let kind = MediaType.to_string m.media_type in
    let protocol = ProtocolType.to_string m.protocol in
    let formats = numbers (map (λ f. f.id) m.formats) in
    let attributes = Media.attribute_lines m.attributes in
    let apart : (kind ++ (codes " " ++ (decimal port ++ (codes " " ++ (protocol ++ formats)))))
          ++ attributes
        ≡ kind
          ++ (codes " " ++ (decimal port ++ (codes " " ++ (protocol ++ (formats ++ attributes))))) =
      append_assoc kind _ attributes
      ∙ ap (λ t. kind ++ (codes " " ++ t))
          (append_assoc (decimal port) _ attributes
            ∙ ap (λ t. decimal port ++ (codes " " ++ t))
                (append_assoc protocol formats attributes)) in
    ap
      (λ o. o >>= (λ p. some (
        codes "m="
        ++ (kind
            ++ (codes " "
                ++ (decimal p ++ (codes " " ++ (protocol ++ (formats ++ (attributes ++ []))))))))))
      e
    ∙ ap
        (λ t. some (
          codes "m="
          ++ (kind
              ++ (codes " " ++ (decimal port ++ (codes " " ++ (protocol ++ (formats ++ t))))))))
        (append-nil attributes)
    ∙ ap (λ t. some (codes "m=" ++ t)) (sym apart)
    ∙ ap (λ t. some (t ++ attributes)) (sym (media_text-stream m port))

media_texts-unlines :
    (ms : List SdpMedia) (index : ℕ)
    → AreStreams ms
    → media_texts media_line_text (λ i. []) index (length ms) ms ≡ some (unlines (stream_lines ms))
media_texts-unlines [] index h = refl
media_texts-unlines (m ∷ ms) index h =
    let text = media_text m (number m.port) in
    let attributes = Media.attribute_lines m.attributes in
    let lines = unlines (stream_lines ms) in
    rw (media_to_string m (number m.port) h.0.0, media_texts-unlines ms (index + 1) h.1)
      (ap some (
        append_assoc (text ++ attributes) (codes "\r\n") (lines ++ [])
        ∙ ap (λ t. (text ++ attributes) ++ (codes "\r\n" ++ t)) (append-nil lines)
        ∙ append_assoc text attributes (codes "\r\n" ++ lines)
        ∙ ap (λ t. text ++ t) (media_lines-unlines m.attributes (stream_lines ms))))

-- `toString` prints these lines.
pub to_string-lines :
    (sdp : Sdp) → IsPrinted sdp → Description.to_string sdp ≡ some (unlines (lines_of sdp))
unfolding Description.to_string
to_string-lines sdp h =
    let front : Text → Text = λ t.
      version_to_string sdp.version
      ++ (codes "\r\n"
          ++ (origin_text sdp.origin (number sdp.origin.session_version)
              ++ (codes "\r\n"
                  ++ (session_to_string sdp.session
                      ++ (codes "\r\n"
                          ++ (Connection.to_string sdp.connection
                              ++ (codes "\r\n"
                                  ++ (Timing.to_string sdp.timing ++ (codes "\r\n" ++ t))))))))) in
    let attributes = Description.attribute_lines sdp.attributes in
    let streams = unlines (stream_lines sdp.media) in
    ap (λ n. Description.to_string (record sdp { stream_count = n })) h.counted
    ∙ rw
        (
          to_string-origin_text sdp.origin (number sdp.origin.session_version) h.origin.0,
          media_texts-unlines sdp.media 0 h.media,
        )
        (ap (λ t. some (front (attributes ++ t))) (append-nil streams)
          ∙ ap (λ t. some (front t))
              (attribute_lines-unlines sdp.attributes (stream_lines sdp.media)))
