-- ===== src/SipHeaders/Tokens.antt =====
-- The tokens of a Via value and how src/components/sip/headers/SipViaHeader.h reads its parts.
use sip_processing.Prelude.{
  ℕ, suc, ◌<◌, ◌^◌, ◌≡◌, ◌≢◌, ◌∙◌, refl, ap, Bool, true, false, ◌||◌, List, [], ◌∷◌, ◌++◌, some,
  Text, codes, decimal, ◌==◌, ltb, pos, arith,
}
use sip_processing.Buffers.{buffer_split, is_separator, buffer_equals}
use sip_processing.Buffers.Words.{Unstopped, passes-Unstopped, buffer_split-joined}
use sip_processing.Buffers.Kept.{before, bytes-before}
use sip_processing.Buffers.Numbers.{is_digit}
use sip_processing.Buffers.Decimal.{
  AreDigits, decimal-AreDigits, decimal_ne, ends_number, to_long_integer-decimal,
}
use sip_processing.Sdp.Lines.{Unstopped-sub}
use sip_processing.SipMessage.{SipHeader, TransportType, get_transport_type_str}
use sip_processing.SipHeaders.{address_of, read_pair}

-- What separates the parts of the value.
abbrev pub via_break : ℕ → Bool
via_break c = (c == b' ' || c == b';') || ((c == b':' || c == b'=') || c == 0)

abbrev pub IsToken : Text → Type 0
IsToken w = (w ≢ []) × Unstopped via_break w

-- A Via header as it is kept, with a port that is not zero.
abbrev pub via_of : Text → TransportType → Text → Text → ℕ → SipHeader
via_of value transport address branch port = record {
  field_name = codes "Via";
  value = value;
  transport_type = transport;
  remote_address = address;
  remote_branch = branch;
  remote_port = pos (suc port);
}

abbrev pub protocol : TransportType → Text
protocol t = codes "SIP/2.0/" ++ get_transport_type_str t

abbrev pub pairs : Text → Text → ℕ → List Text
pairs address branch port =
    (codes "branch=" ++ branch)
    ∷ (codes "received=" ++ address)
    ∷ (codes "rport=" ++ decimal (suc port))
    ∷ []

pub token_lem :
    (d : ℕ) (w : Text)
    → ((c : ℕ) → via_break c ≡ false → is_separator d c ≡ false)
    → IsToken w
    → Unstopped (is_separator d) w
token_lem d w h k = Unstopped-sub via_break (is_separator d) w h k.1

pub blank_lem : (c : ℕ) → via_break c ≡ false → is_separator b' ' c ≡ false
blank_lem c h = ground arith

pub semicolon_lem : (c : ℕ) → via_break c ≡ false → is_separator b';' c ≡ false
semicolon_lem c h = ground arith

colon_lem : (c : ℕ) → via_break c ≡ false → is_separator b':' c ≡ false
colon_lem c h = ground arith

equals_lem : (c : ℕ) → via_break c ≡ false → is_separator b'=' c ≡ false
equals_lem c h = ground arith

digit_lem : (c : ℕ) → is_digit c ≡ true → via_break c ≡ false
digit_lem c h = unfold is_digit in ground arith

digits-IsToken : (w : Text) → AreDigits w → Unstopped via_break w
digits-IsToken [] h = tt
digits-IsToken (c ∷ w) h = (digit_lem c h.0, digits-IsToken w h.1)

pub decimal-IsToken : (n : ℕ) → IsToken (decimal n)
decimal-IsToken n = (decimal_ne n, digits-IsToken (decimal n) (decimal-AreDigits n))

-- The address is read from the first part.
pub address_of-before :
    (address t : Text)
    → IsToken address
    → address_of (buffer_split (before address t) b':') ≡ some (address, pos 0)
address_of-before address t h =
    ap address_of
      (buffer_split-joined b':' (address ∷ []) t (h.0, token_lem b':' address colon_lem h, tt))
    ∙ ap (λ a. some (a, pos 0)) (bytes-before address t)

-- A pair of a name and a token.
pair_views :
    (name value t : Text)
    → IsToken name
    → IsToken value
    → buffer_split (before (name ++ (b'=' ∷ value)) t) b'='
      ≡ before name (b'=' ∷ (value ++ t)) ∷ before value t ∷ []
pair_views name value t h k =
    buffer_split-joined b'=' (name ∷ value ∷ []) t
      (h.0, token_lem b'=' name equals_lem h, (k.0, token_lem b'=' value equals_lem k, tt))

pub branch_lem :
    (value t : Text) (h : SipHeader)
    → IsToken value
    → read_pair (buffer_split (before (codes "branch=" ++ value) t) b'=') h
      ≡ record h { remote_branch = value }
unfolding buffer_equals
branch_lem value t h k =
    ap (λ kvp. read_pair kvp h)
      (pair_views (codes "branch") value t
        ((λ e. cc), passes-Unstopped via_break (codes "branch") refl) k)
    ∙ ap (λ v. record h { remote_branch = v }) (bytes-before value t)

pub received_lem :
    (value t : Text) (h : SipHeader)
    → IsToken value
    → read_pair (buffer_split (before (codes "received=" ++ value) t) b'=') h ≡ h
unfolding buffer_equals
received_lem value t h k =
    ap (λ kvp. read_pair kvp h)
      (pair_views (codes "received") value t
        ((λ e. cc), passes-Unstopped via_break (codes "received") refl) k)

pub rport_lem :
    (port : ℕ) (h : SipHeader)
    → h.remote_port ≡ pos 0
    → suc port < 2 ^ 31
    → read_pair (buffer_split (before (codes "rport=" ++ decimal (suc port)) []) b'=') h
      ≡ record h { remote_port = pos (suc port) }
unfolding buffer_equals ends_number
rport_lem port h z small =
    let fits : ltb (suc port) (2 ^ 31) ≡ true = ground arith in
    ap (λ kvp. read_pair kvp h)
      (pair_views (codes "rport") (decimal (suc port)) []
        ((λ e. cc), passes-Unstopped via_break (codes "rport") refl) (decimal-IsToken (suc port)))
    ∙ rw (z, to_long_integer-decimal (suc port) [] refl (omega arith), fits) refl
