-- ===== src/Sdp/Lines.antt =====
-- src/components/sdp: each line that a description prints, read by the constructor's loop. `r` is the
-- memory behind the line, which begins with its carriage return.
pub mod OriginText
pub mod AttributeText
pub mod MediaText
use mathlib.Core.List.{append_assoc, append-nil}
use sip_processing.Prelude.{
  ℕ, zero, suc, ◌+◌, ◌%◌, ◌^◌, ◌<◌, ◌≡◌, ◌≢◌, refl, sym, ap, ◌∙◌, Bool, true, false, ◌||◌, List, [],
  ◌∷◌, ◌++◌, Text, length, ◌==◌, ==_iff, if◌then◌else◌, arith, decimal, stream, codes, some, Option,
  map, get_elem?,
}
use sip_processing.Buffers.{
  MappedBuffer, bytes, is_space, is_separator, is_line_end, buffer_split, buffer_split_on_first,
  buffer_trim,
}
use sip_processing.Buffers.Numbers.{is_digit, to_long_integer, uint32, strtoul}
use sip_processing.Buffers.Words.{
  Unstopped, Unstopped-append, AreWords, joined, word_views, buffer_split-joined,
}
use sip_processing.Buffers.Decimal.{
  ends_number, AreDigits, decimal-AreDigits, decimal_ne, to_long_integer-decimal,
  to_unsigned_long_integer-decimal, strtoul-decimal,
}
use sip_processing.Buffers.First.{Lacks}
use sip_processing.Buffers.Kept.{
  before, bytes-before, buffer_trim-kept, buffer_split_on_first-at, buffer_split_on_first-absent,
}
use sip_processing.Sdp.AddrType
use sip_processing.Sdp.AddrType.{SdpAddrType}
use sip_processing.Sdp.Timing
use sip_processing.Sdp.Timing.{SdpTiming, timing_line}
use sip_processing.Sdp.Connection
use sip_processing.Sdp.Connection.{SdpConnection, connection_line}
use sip_processing.Sdp.Origin
use sip_processing.Sdp.Origin.{SdpOrigin, origin_line}
use sip_processing.Sdp.Session.{SdpSession, session_to_string, SdpVersion, version_to_string}
use sip_processing.Sdp.Description.{Sdp, to_lower, parse_entry, parse_line, add_attribute_line}

-- White space and the zero byte.
abbrev pub breaks : ℕ → Bool
breaks c = is_space c || c == 0

-- A field of a line: not empty, without white space and zero bytes.
abbrev pub IsWord : Text → Type 0
IsWord w = (w ≢ []) × Unstopped breaks w

pub Unstopped-sub :
    (f g : ℕ → Bool) (w : Text)
    → ((c : ℕ) → f c ≡ false → g c ≡ false)
    → Unstopped f w
    → Unstopped g w
Unstopped-sub f g [] h k = tt
Unstopped-sub f g (c ∷ w) h k = (h c k.0, Unstopped-sub f g w h k.1)

separator_lem : (c : ℕ) → breaks c ≡ false → is_separator b' ' c ≡ false
separator_lem c h = unfold is_space in ground arith

pub line_end_lem : (c : ℕ) → breaks c ≡ false → is_line_end c ≡ false
line_end_lem c h = unfold is_space in ground arith

pub IsWord-separated : (w : Text) → IsWord w → Unstopped (is_separator b' ') w
IsWord-separated w h = Unstopped-sub breaks (is_separator b' ') w separator_lem h.1

digit_breaks : (c : ℕ) → is_digit c ≡ true → breaks c ≡ false
digit_breaks c h = unfold is_space in unfold is_digit in ground arith

digits-Unstopped : (w : Text) → AreDigits w → Unstopped breaks w
digits-Unstopped [] h = tt
digits-Unstopped (c ∷ w) h = (digit_breaks c h.0, digits-Unstopped w h.1)

pub decimal-IsWord : (n : ℕ) → IsWord (decimal n)
decimal-IsWord n = (decimal_ne n, digits-Unstopped (decimal n) (decimal-AreDigits n))

abbrev pub WordsAreGood : List Text → Type 0
WordsAreGood [] = Unit
WordsAreGood (w ∷ ws) = IsWord w × WordsAreGood ws

pub split_words :
    (ws : List Text) (t : Text)
    → WordsAreGood ws
    → buffer_split (before (joined b' ' ws) t) b' ' ≡ word_views b' ' ws t
split_words ws t h = buffer_split-joined b' ' ws t (words ws h)
  where
    words : (ws : List Text) → WordsAreGood ws → AreWords (is_separator b' ') ws
    words [] h = tt
    words (w ∷ ws) h = (h.0.0, IsWord-separated w h.0, words ws h.1)

-- A line with a letter and an `=`.
pub parse_line-letter :
    (k : ℕ) (body r : Text) (sdp : Sdp)
    → (k == b'=') ≡ false
    → parse_line (before (k ∷ b'=' ∷ body) r) sdp ≡ parse_entry (to_lower k) (before body r) sdp
unfolding parse_line
parse_line-letter k body r sdp h =
    rw (buffer_split_on_first-at b'=' (k ∷ []) body r ((λ e. absurd (ground arith)), tt)) refl

-- The memory behind a line.
abbrev pub behind : Text → Text
behind r = b'\r' ∷ r

timing_line-joined :
    (t : SdpTiming) (r : Text)
    → t.start < 2 ^ 32
    → t.stop < 2 ^ 32
    → timing_line (before (joined b' ' (decimal t.start ∷ decimal t.stop ∷ [])) (behind r)) ≡ t
unfolding timing_line ends_number
timing_line-joined t r h k =
    rw
      (
        split_words (decimal t.start ∷ decimal t.stop ∷ []) (behind r)
            (decimal-IsWord t.start, (decimal-IsWord t.stop, tt)),
        to_long_integer-decimal t.start (b' ' ∷ (decimal t.stop ++ behind r)) refl h,
        to_long_integer-decimal t.stop (behind r) refl k,
      )
      refl

pub parse_line-timing :
    (t : SdpTiming) (r : Text) (sdp : Sdp)
    → t.start < 2 ^ 32
    → t.stop < 2 ^ 32
    → parse_line (before (Timing.to_string t) (behind r)) sdp ≡ some (record sdp { timing = t })
unfolding Timing.to_string to_lower parse_entry
parse_line-timing t r sdp h k = rw (append-nil (decimal t.stop)) (
    parse_line-letter b't' (joined b' ' (decimal t.start ∷ decimal t.stop ∷ [])) (behind r) sdp refl
    ∙ ap (λ x. some (record sdp { timing = x })) (timing_line-joined t r h k))

pub addr_type-IsWord : (a : SdpAddrType) → IsWord (AddrType.to_string a)
unfolding AddrType.to_string is_space
addr_type-IsWord AddrType.ipv4 = ((λ e. cc), (refl, (refl, (refl, tt))))
addr_type-IsWord AddrType.ipv6 = ((λ e. cc), (refl, (refl, (refl, tt))))

set_type-before :
    (a : SdpAddrType) (r : Text) → AddrType.set_type (before (AddrType.to_string a) r) ≡ a
unfolding AddrType.to_string AddrType.set_type
set_type-before AddrType.ipv4 r = refl
set_type-before AddrType.ipv6 r = refl

-- Three words with blanks between them, as a connection prints them.
connection_words : SdpConnection → List Text
connection_words c = c.net_type ∷ AddrType.to_string c.addr_type ∷ c.address ∷ []

connection_line-joined :
    (c : SdpConnection) (r : Text)
    → IsWord c.net_type
    → IsWord c.address
    → connection_line (before (joined b' ' (connection_words c)) r) ≡ some c
unfolding connection_line connection_words
connection_line-joined c r h k =
    rw
      (
        split_words (connection_words c) r (h, (addr_type-IsWord c.addr_type, (k, tt))),
        bytes-before c.net_type
            (b' ' ∷ (joined b' ' (AddrType.to_string c.addr_type ∷ c.address ∷ []) ++ r)),
        set_type-before c.addr_type (b' ' ∷ (c.address ++ r)),
        bytes-before c.address r,
      )
      refl

pub parse_line-connection :
    (c : SdpConnection) (r : Text) (sdp : Sdp)
    → IsWord c.net_type
    → IsWord c.address
    → parse_line (before (Connection.to_string c) r) sdp ≡ some (record sdp { connection = c })
unfolding Connection.to_string to_lower parse_entry connection_words
parse_line-connection c r sdp h k = rw (append-nil c.address) (
    parse_line-letter b'c' (joined b' ' (connection_words c)) r sdp refl
    ∙ rw (connection_line-joined c r h k) refl)

-- Words with blanks between them stand on one line.
pub joined-unbroken : (ws : List Text) → WordsAreGood ws → Unstopped is_line_end (joined b' ' ws)
joined-unbroken [] h = tt
joined-unbroken (w ∷ []) h = Unstopped-sub breaks is_line_end w line_end_lem h.0.1
joined-unbroken (w ∷ v ∷ ws) h =
    Unstopped-append is_line_end w (b' ' ∷ joined b' ' (v ∷ ws))
      (Unstopped-sub breaks is_line_end w line_end_lem h.0.1) (refl, joined-unbroken (v ∷ ws) h.1)

pub timing-unbroken : (t : SdpTiming) → Unstopped is_line_end (Timing.to_string t)
unfolding Timing.to_string
timing-unbroken t = rw (append-nil (decimal t.stop)) (
  refl,
  (
    refl,
    joined-unbroken (decimal t.start ∷ decimal t.stop ∷ [])
        (decimal-IsWord t.start, (decimal-IsWord t.stop, tt)),
  ),
)

pub connection-unbroken :
    (c : SdpConnection)
    → IsWord c.net_type
    → IsWord c.address
    → Unstopped is_line_end (Connection.to_string c)
unfolding Connection.to_string
connection-unbroken c h k = rw (append-nil c.address) (
  refl,
  (
    refl,
    joined-unbroken (c.net_type ∷ AddrType.to_string c.addr_type ∷ c.address ∷ [])
        (h, (addr_type-IsWord c.addr_type, (k, tt))),
  ),
)
