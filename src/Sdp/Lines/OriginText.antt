-- ===== src/Sdp/Lines/OriginText.antt =====
-- src/components/sdp/SdpOrigin.hpp and SdpOriginLine.hpp: the `o=` line.
use mathlib.Core.List.{append-nil}
use sip_processing.Prelude.{
  ℕ, ◌^◌, ◌<◌, ◌≡◌, refl, ◌≢◌, sym, ap, ◌∙◌, false, List, [], ◌∷◌, ◌++◌, Text, decimal, codes, some,
  if◌then◌else◌,
}
use sip_processing.Buffers.{buffer_equals, is_space, is_line_end}
use sip_processing.Buffers.Words.{joined, Unstopped}
use sip_processing.Buffers.Decimal.{ends_number, to_long_integer-decimal, strtoul-decimal}
use sip_processing.Buffers.Kept.{before, bytes-before}
use sip_processing.Sdp.AddrType
use sip_processing.Sdp.AddrType.{SdpAddrType}
use sip_processing.Sdp.Origin
use sip_processing.Sdp.Origin.{SdpOrigin, SdpOriginLine, origin_line}
use sip_processing.Sdp.Description.{Sdp, to_lower, parse_entry, parse_line}
use sip_processing.Sdp.Lines.{
  IsWord, WordsAreGood, decimal-IsWord, addr_type-IsWord, split_words, parse_line-letter,
  joined-unbroken,
}

-- The session version is set, all numbers fit, and the texts can be fields.
abbrev pub IsPrintedOrigin : SdpOrigin → ℕ → Type 0
IsPrintedOrigin o version =
    (o.session_version ≡ some version)
    × (version < 2 ^ 32)
    × (o.session_id < 2 ^ 64)
    × (o.net_type ≡ codes "IN")
    × IsWord o.username
    × IsWord o.address

origin_words : SdpOrigin → ℕ → List Text
origin_words o version =
    o.username
    ∷ decimal o.session_id
    ∷ decimal version
    ∷ o.net_type
    ∷ AddrType.to_string o.addr_type
    ∷ o.address
    ∷ []

pub origin_text : SdpOrigin → ℕ → Text
unfolding origin_words
origin_text o version = b'o' ∷ b'=' ∷ joined b' ' (origin_words o version)

pub to_string-origin_text :
    (o : SdpOrigin) (version : ℕ)
    → o.session_version ≡ some version
    → Origin.to_string o ≡ some (origin_text o version)
unfolding Origin.to_string origin_text
to_string-origin_text o version e = rw (e, append-nil o.address) refl

addr_type_lem :
    (a : SdpAddrType) (r : Text)
    → (if buffer_equals (before (AddrType.to_string a) r) (codes "IP6") false
        then AddrType.ipv6
        else AddrType.ipv4)
      ≡ a
unfolding AddrType.to_string buffer_equals
addr_type_lem AddrType.ipv4 r = refl
addr_type_lem AddrType.ipv6 r = refl

in-IsWord : (w : Text) → w ≡ codes "IN" → IsWord w
unfolding is_space
in-IsWord w e = rw e ((λ d. cc), (refl, (refl, tt)))

origin_words-good :
    (o : SdpOrigin) (version : ℕ)
    → IsPrintedOrigin o version
    → WordsAreGood (origin_words o version)
unfolding origin_words
origin_words-good o version (e, small, id, net, user, address) = (
  user,
  (
    decimal-IsWord o.session_id,
    (
      decimal-IsWord version,
      (in-IsWord o.net_type net, (addr_type-IsWord o.addr_type, (address, tt))),
    ),
  ),
)

-- The line has no line end.
pub origin-unbroken :
    (o : SdpOrigin) (version : ℕ)
    → IsPrintedOrigin o version
    → Unstopped is_line_end (origin_text o version)
unfolding origin_text
origin-unbroken o version h =
    (refl, (refl, joined-unbroken (origin_words o version) (origin_words-good o version h)))

pub origin-full : (o : SdpOrigin) (version : ℕ) → origin_text o version ≢ []
unfolding origin_text
origin-full o version = λ e. cc

origin_line-joined :
    (o : SdpOrigin) (version : ℕ) (r : Text)
    → IsPrintedOrigin o version
    → Origin.of_line (origin_line (before (joined b' ' (origin_words o version)) r)) ≡ o
unfolding origin_words origin_line ends_number Origin.of_line
origin_line-joined o version r h =
    let words = split_words (origin_words o version) r (origin_words-good o version h) in
    let (e, small, id, net, user, address) = h in
    let last = b' ' ∷ (o.address ++ r) in
    let type_on = b' ' ∷ (joined b' ' (AddrType.to_string o.addr_type ∷ o.address ∷ []) ++ r) in
    let net_on =
      b' ' ∷ (joined b' ' (o.net_type ∷ AddrType.to_string o.addr_type ∷ o.address ∷ []) ++ r) in
    let id_on =
      b' '
      ∷ (joined b' ' (
            decimal o.session_id
            ∷ decimal version
            ∷ o.net_type
            ∷ AddrType.to_string o.addr_type
            ∷ o.address
            ∷ [])
          ++ r) in
    let version_on =
      b' '
      ∷ (joined b' '
            (decimal version ∷ o.net_type ∷ AddrType.to_string o.addr_type ∷ o.address ∷ [])
          ++ r) in
    rw
      (
        words,
        bytes-before o.username id_on,
        bytes-before (decimal o.session_id) version_on,
        to_long_integer-decimal version net_on refl small,
        bytes-before o.address r,
        addr_type_lem o.addr_type last,
        strtoul-decimal o.session_id id,
      )
      (ap (λ v. record o { session_version = v; net_type = codes "IN" }) (sym e)
        ∙ ap (λ t. record o { net_type = t }) (sym net))

pub parse_line-origin :
    (o : SdpOrigin) (version : ℕ) (r : Text) (sdp : Sdp)
    → IsPrintedOrigin o version
    → parse_line (before (origin_text o version) r) sdp ≡ some (record sdp { origin = o })
unfolding origin_text to_lower parse_entry
parse_line-origin o version r sdp h =
    parse_line-letter b'o' (joined b' ' (origin_words o version)) r sdp refl
    ∙ ap (λ x. some (record sdp { origin = x })) (origin_line-joined o version r h)
