-- ===== src/Sdp/Lines/MediaText.antt =====
-- src/components/sdp/SdpMedia.hpp and SdpMediaLine.hpp: the `m=` line.
use mathlib.Core.List.{append-nil}
use sip_processing.Prelude.{
  ℕ, ◌^◌, ◌<◌, ◌≡◌, ◌≢◌, refl, sym, ap, ◌∙◌, true, false, List, [], ◌∷◌, ◌++◌, Text, map, arith,
  some, none, if◌then◌else◌, decimal, codes,
}
use sip_processing.Buffers.{MappedBuffer, is_space, is_separator, is_line_end, buffer_split}
use sip_processing.Buffers.Numbers.{is_digit, to_unsigned_short_integer}
use sip_processing.Buffers.Words.{Unstopped, joined, word_views, buffer_split-joined}
use sip_processing.Buffers.Decimal.{
  ends_number, AreDigits, decimal-AreDigits, decimal_ne, to_unsigned_long_integer-decimal,
}
use sip_processing.Buffers.Kept.{before}
use sip_processing.Sdp.MediaType
use sip_processing.Sdp.MediaType.{SdpMediaType}
use sip_processing.Sdp.ProtocolType
use sip_processing.Sdp.ProtocolType.{SdpProtocolType}
use sip_processing.Sdp.Format.{SdpFormat}
use sip_processing.Sdp.Media
use sip_processing.Sdp.Media.{SdpMedia, SdpMediaLine, media_line, line_to_string, numbers}
use sip_processing.Sdp.Description.{
  Sdp, to_lower, parse_entry, parse_line, add_media_line, push_media,
}
use sip_processing.Sdp.Lines.{
  IsWord, WordsAreGood, decimal-IsWord, split_words, parse_line-letter, joined-unbroken,
}

media_type-IsWord : (t : SdpMediaType) → IsWord (MediaType.to_string t)
unfolding MediaType.to_string is_space
media_type-IsWord MediaType.unknown = ((λ e. cc), ground arith)
media_type-IsWord MediaType.audio = ((λ e. cc), ground arith)
media_type-IsWord MediaType.video = ((λ e. cc), ground arith)
media_type-IsWord MediaType.text = ((λ e. cc), ground arith)
media_type-IsWord MediaType.application = ((λ e. cc), ground arith)
media_type-IsWord MediaType.message = ((λ e. cc), ground arith)

protocol-IsWord : (t : SdpProtocolType) → IsWord (ProtocolType.to_string t)
unfolding ProtocolType.to_string is_space
protocol-IsWord ProtocolType.udp = ((λ e. cc), ground arith)
protocol-IsWord ProtocolType.rtp = ((λ e. cc), ground arith)
protocol-IsWord ProtocolType.srtp = ((λ e. cc), ground arith)

media_type-before :
    (t : SdpMediaType) (r : Text) → MediaType.set_type (before (MediaType.to_string t) r) ≡ t
unfolding MediaType.to_string MediaType.set_type
media_type-before MediaType.unknown r = refl
media_type-before MediaType.audio r = refl
media_type-before MediaType.video r = refl
media_type-before MediaType.text r = refl
media_type-before MediaType.application r = refl
media_type-before MediaType.message r = refl

protocol-before :
    (t : SdpProtocolType) (r : Text)
    → ProtocolType.set_type (before (ProtocolType.to_string t) r) ≡ t
unfolding ProtocolType.to_string ProtocolType.set_type
protocol-before ProtocolType.udp r = refl
protocol-before ProtocolType.rtp r = refl
protocol-before ProtocolType.srtp r = refl

numbers-joined : (w : Text) (ns : List ℕ) → joined b' ' (w ∷ map decimal ns) ≡ w ++ numbers ns
numbers-joined w [] = sym (append-nil w)
numbers-joined w (n ∷ ns) =
    ap (λ t. w ++ (b' ' ∷ t)) (numbers-joined (decimal n) ns)
    ∙ ap (λ t. w ++ (b' ' ∷ (decimal n ++ t))) (sym (append-nil (numbers ns)))

numbers-WordsAreGood : (ns : List ℕ) → WordsAreGood (map decimal ns)
numbers-WordsAreGood [] = tt
numbers-WordsAreGood (n ∷ ns) = (decimal-IsWord n, numbers-WordsAreGood ns)

-- The words of the line.
media_words : SdpMedia → ℕ → List ℕ → List Text
media_words m port ns =
    MediaType.to_string m.media_type
    ∷ decimal port
    ∷ ProtocolType.to_string m.protocol
    ∷ map decimal ns

-- The line of a stream, without its attributes.
pub media_text : SdpMedia → ℕ → Text
unfolding media_words
media_text m port = b'm' ∷ b'=' ∷ joined b' ' (media_words m port (map (λ f. f.id) m.formats))

slash_lem : (w : Text) → AreDigits w → Unstopped (is_separator b'/') w
slash_lem [] h = tt
slash_lem (c ∷ w) h = (unfold is_digit in ground (arith, h.0), slash_lem w h.1)

port_lem :
    (port : ℕ) (t : Text)
    → ends_number t ≡ true
    → port < 2 ^ 16
    → Media.port_of (buffer_split (before (decimal port) t) b'/') ≡ some (port, 1)
port_lem port t h k =
    rw
      (
        buffer_split-joined b'/' (decimal port ∷ []) t
            (decimal_ne port, slash_lem (decimal port) (decimal-AreDigits port), tt),
        to_unsigned_long_integer-decimal port t h (omega arith),
      )
      (ap (λ p. some (p, 1)) (omega arith))

-- What is kept of a stream by its line.
abbrev pub line_media : SdpMedia → ℕ → SdpMedia
line_media m port = record m { port = some port; formats = []; attributes = []; logger = false }

parsed_line : SdpMedia → ℕ → List ℕ → SdpMediaLine
parsed_line m port formats = record {
  media_type = m.media_type;
  port = some port;
  port_count = 1;
  protocol = m.protocol;
  formats = formats;
}

word_views-cons :
    (w : Text) (ws : List Text) (t : Text)
    → (v : MappedBuffer) × (vs : List MappedBuffer) × (word_views b' ' (w ∷ ws) t ≡ v ∷ vs)
word_views-cons w [] t = (_, _, refl)
word_views-cons w (u ∷ ws) t = (_, _, refl)

media_line-joined :
    (m : SdpMedia) (port n : ℕ) (ns : List ℕ) (r : Text)
    → port < 2 ^ 16
    → (formats : List ℕ) × (media_line (before (joined b' ' (media_words m port (n ∷ ns))) r)
        ≡ some (parsed_line m port formats))
unfolding media_line media_words ends_number parsed_line
media_line-joined m port n ns r small =
    let formats = joined b' ' (decimal n ∷ map decimal ns) ++ r in
    let protocol =
      joined b' ' (ProtocolType.to_string m.protocol ∷ decimal n ∷ map decimal ns) ++ r in
    let all =
      joined b' ' (decimal port ∷ ProtocolType.to_string m.protocol ∷ decimal n ∷ map decimal ns)
      ++ r in
    let type_view = before (MediaType.to_string m.media_type) (b' ' ∷ all) in
    let port_view = before (decimal port) (b' ' ∷ protocol) in
    let protocol_view = before (ProtocolType.to_string m.protocol) (b' ' ∷ formats) in
    let (v, vs, views) = word_views-cons (decimal n) (map decimal ns) r in
    (
      map to_unsigned_short_integer (v ∷ vs),
      ap Media.of_content (
            split_words (media_words m port (n ∷ ns)) r (
              media_type-IsWord m.media_type,
              (decimal-IsWord port, (protocol-IsWord m.protocol, numbers-WordsAreGood (n ∷ ns))),
            )
            ∙ ap (λ l. type_view ∷ port_view ∷ protocol_view ∷ l) views)
          ∙ ap (λ p. Media.with_port p type_view protocol_view (v ∷ vs))
              (port_lem port (b' ' ∷ protocol) refl small)
          ∙ rw
              (
                media_type-before m.media_type (b' ' ∷ all),
                protocol-before m.protocol (b' ' ∷ formats),
              )
              refl,
    )

-- The line of a stream is read with the log, and uses the null pointer without.
pub parse_line-media :
    (m : SdpMedia) (port : ℕ) (r : Text) (sdp : Sdp)
    → port < 2 ^ 16
    → m.formats ≢ []
    → parse_line (before (media_text m port) r) sdp
      ≡ (if sdp.logger then some (push_media (line_media m port) sdp) else none)
unfolding media_text to_lower parse_entry parsed_line add_media_line line_to_string
parse_line-media m port r sdp small full =
    by_formats (map (λ f. f.id) m.formats) (ids_full m.formats full)
  where
    ids_full : (l : List SdpFormat) → l ≢ [] → map (λ f. f.id) l ≢ []
    ids_full [] h = absurd (h refl)
    ids_full (f ∷ l) h = λ e. cc

    by_formats :
        (ns : List ℕ)
        → ns ≢ []
        → parse_line (before (b'm' ∷ b'=' ∷ joined b' ' (media_words m port ns)) r) sdp
          ≡ (if sdp.logger then some (push_media (line_media m port) sdp) else none)
    by_formats [] h = absurd (h refl)
    by_formats (n ∷ ns) h =
        let (formats, e) = media_line-joined m port n ns r small in
        parse_line-letter b'm' (joined b' ' (media_words m port (n ∷ ns))) r sdp refl ∙ rw e refl

-- The line as the stream of `SdpMedia::toString` puts it together.
pub media_text-stream :
    (m : SdpMedia) (port : ℕ)
    → media_text m port
      ≡ codes "m="
        ++ (MediaType.to_string m.media_type
            ++ (codes " "
                ++ (decimal port
                    ++ (codes " "
                        ++ (ProtocolType.to_string m.protocol
                            ++ numbers (map (λ f. f.id) m.formats))))))
unfolding media_text
media_text-stream m port =
    ap
      (λ t.
        codes "m="
        ++ (MediaType.to_string m.media_type ++ (codes " " ++ (decimal port ++ (codes " " ++ t)))))
      (numbers-joined (ProtocolType.to_string m.protocol) (map (λ f. f.id) m.formats))

-- The line has no line end.
pub media-unbroken : (m : SdpMedia) (port : ℕ) → Unstopped is_line_end (media_text m port)
unfolding media_text media_words
media-unbroken m port = (
  refl,
  (
    refl,
    joined-unbroken (media_words m port (map (λ f. f.id) m.formats)) (
      media_type-IsWord m.media_type,
      (
        decimal-IsWord port,
        (protocol-IsWord m.protocol, numbers-WordsAreGood (map (λ f. f.id) m.formats)),
      ),
    ),
  ),
)

pub media-full : (m : SdpMedia) (port : ℕ) → media_text m port ≢ []
unfolding media_text
media-full m port = λ e. cc
