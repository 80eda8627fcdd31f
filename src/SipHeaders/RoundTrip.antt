-- ===== src/SipHeaders/RoundTrip.antt =====
-- The value of a Via header of src/components/sip/headers/SipViaHeader.h that a response gets, read again.
use sip_processing.Prelude.{
  ℕ, suc, ◌<◌, ◌^◌, ◌≡◌, ◌≢◌, ◌∙◌, refl, sym, ap, false, List, [], ◌∷◌, ◌++◌, some, Text, codes,
  decimal, length, ◌==◌, ◌>>=◌, take_all, pos, arith,
}
use mathlib.Core.List.{append-nil}
use sip_processing.Buffers.{view, bytes, mapped_buffer, buffer_split, is_separator}
use sip_processing.Buffers.Words.{
  Unstopped, Unstopped-append, passes-Unstopped, AreWords, joined, word_views, buffer_split-joined,
}
use sip_processing.Buffers.Kept.{before}
use sip_processing.SipMessage.{SipHeader, TransportType, get_transport_type_str, get_response_value}
use sip_processing.SipHeaders.{
  via_header, transport_of, read_pair, read_pairs, read_sub_sections, read_sections, plain_header,
}
use sip_processing.SipHeaders.Tokens.{
  IsToken, via_of, protocol, pairs, token_lem, blank_lem, semicolon_lem, decimal-IsToken,
  address_of-before, branch_lem, received_lem, rport_lem,
}

pair_part :
    (name value : Text)
    → Unstopped (is_separator b';') name
    → IsToken value
    → Unstopped (is_separator b';') (name ++ value)
pair_part name value h k =
    Unstopped-append (is_separator b';') name value h (token_lem b';' value semicolon_lem k)

-- The parts of the value behind the protocol.
abbrev parts : Text → Text → ℕ → List Text
parts address branch port = address ∷ pairs address branch port

parts-AreWords :
    (address branch : Text) (port : ℕ)
    → IsToken address
    → IsToken branch
    → AreWords (is_separator b';') (parts address branch port)
parts-AreWords address branch port h k = (
  h.0,
  token_lem b';' address semicolon_lem h,
  (
    (λ e. cc),
    pair_part (codes "branch=") branch (passes-Unstopped (is_separator b';') (codes "branch=") refl)
        k,
    (
      (λ e. cc),
      pair_part (codes "received=") address
          (passes-Unstopped (is_separator b';') (codes "received=") refl) h,
      (
        (λ e. cc),
        pair_part (codes "rport=") (decimal (suc port))
            (passes-Unstopped (is_separator b';') (codes "rport=") refl)
            (decimal-IsToken (suc port)),
        tt,
      ),
    ),
  ),
)

length-not_zero : (w : Text) → w ≢ [] → (length w == 0) ≡ false
length-not_zero [] h = absurd (h refl)
length-not_zero (c ∷ w) h = ground arith

response_text :
    (value address branch : Text) (t : TransportType) (port : ℕ)
    → IsToken address
    → IsToken branch
    → get_response_value (via_of value t address branch port)
      ≡ joined b' ' (protocol t ∷ joined b';' (parts address branch port) ∷ [])
unfolding get_response_value
response_text value address branch t port h k =
    rw (length-not_zero branch k.0, length-not_zero address h.0) refl

rest_plain :
    (address branch : Text) (port : ℕ)
    → IsToken address
    → IsToken branch
    → Unstopped (is_separator b' ') (joined b';' (parts address branch port))
rest_plain address branch port h k =
    let blank = is_separator b' ' in
    Unstopped-append blank address _ (token_lem b' ' address blank_lem h) (
      Unstopped-append blank (codes ";branch=") _ (passes-Unstopped blank (codes ";branch=") refl) (
        Unstopped-append blank branch _ (token_lem b' ' branch blank_lem k) (
          Unstopped-append blank (codes ";received=") _
            (passes-Unstopped blank (codes ";received=") refl)
            (Unstopped-append blank address _ (token_lem b' ' address blank_lem h) (
              Unstopped-append blank (codes ";rport=") _
                (passes-Unstopped blank (codes ";rport=") refl)
                (token_lem b' ' (decimal (suc port)) blank_lem (decimal-IsToken (suc port))))))))

append_ne : (w t : Text) → w ≢ [] → w ++ t ≢ []
append_ne [] t h e = h refl
append_ne (c ∷ w) t h e = cc

protocol_word : (t : TransportType) → (protocol t ≢ []) × Unstopped (is_separator b' ') (protocol t)
unfolding get_transport_type_str
protocol_word TransportType.unknown =
    ((λ e. cc), passes-Unstopped (is_separator b' ') (protocol TransportType.unknown) refl)
protocol_word TransportType.udp =
    ((λ e. cc), passes-Unstopped (is_separator b' ') (protocol TransportType.udp) refl)
protocol_word TransportType.tcp =
    ((λ e. cc), passes-Unstopped (is_separator b' ') (protocol TransportType.tcp) refl)

transport_of-before :
    (t : TransportType) (r : Text)
    → t ≢ TransportType.unknown
    → transport_of (before (protocol t) r) ≡ t
unfolding transport_of get_transport_type_str
transport_of-before TransportType.unknown r h = absurd (h refl)
transport_of-before TransportType.udp r h = refl
transport_of-before TransportType.tcp r h = refl

via_sections :
    (value address branch : Text) (t : TransportType) (port : ℕ)
    → IsToken address
    → IsToken branch
    → buffer_split (mapped_buffer (get_response_value (via_of value t address branch port))) b' '
      ≡ before (protocol t) (b' ' ∷ (joined b';' (parts address branch port) ++ []))
        ∷ before (joined b';' (parts address branch port)) []
        ∷ []
via_sections value address branch t port h k =
    let rest = joined b';' (parts address branch port) in
    let whole = joined b' ' (protocol t ∷ rest ∷ []) in
    let p = protocol_word t in
    ap (λ s. buffer_split (mapped_buffer s) b' ') (response_text value address branch t port h k)
    ∙ ap (λ s. buffer_split (view s (length whole)) b' ') (sym (append-nil whole))
    ∙ buffer_split-joined b' ' (protocol t ∷ rest ∷ []) []
        (p.0, p.1, (append_ne address _ h.0, rest_plain address branch port h k, tt))

read_pairs-pairs :
    (address branch : Text) (port : ℕ) (s : SipHeader)
    → IsToken address
    → IsToken branch
    → suc port < 2 ^ 31
    → s.remote_port ≡ pos 0
    → read_pairs (word_views b';' (pairs address branch port) []) s
      ≡ record s { remote_branch = branch; remote_port = pos (suc port) }
read_pairs-pairs address branch port s h k small z =
    let w2 = codes "received=" ++ address in
    let w3 = codes "rport=" ++ decimal (suc port) in
    let t2 = b';' ∷ (w3 ++ []) in
    let t1 = b';' ∷ (joined b';' (w2 ∷ w3 ∷ []) ++ []) in
    ap
      (λ x.
        read_pair (buffer_split (before w3 []) b'=')
          (read_pair (buffer_split (before w2 t2) b'=') x))
      (branch_lem branch t1 s k)
    ∙ ap (λ x. read_pair (buffer_split (before w3 []) b'=') x)
        (received_lem address t2 (record s { remote_branch = branch }) h)
    ∙ rport_lem port (record s { remote_branch = branch }) z small

read_sub_sections-parts :
    (address branch : Text) (port : ℕ) (s : SipHeader)
    → IsToken address
    → IsToken branch
    → suc port < 2 ^ 31
    → read_sub_sections (word_views b';' (parts address branch port) []) s
      ≡ some (record s {
        remote_address = address;
        remote_branch = branch;
        remote_port = pos (suc port);
      })
read_sub_sections-parts address branch port s h k small =
    let views = word_views b';' (pairs address branch port) [] in
    ap
      (λ o.
        o >>= λ a. some (read_pairs views (record s { remote_address = a.0; remote_port = a.1 })))
      (address_of-before address (b';' ∷ (joined b';' (pairs address branch port) ++ [])) h)
    ∙ ap some (
        read_pairs-pairs address branch port
          (record s { remote_address = address; remote_port = pos 0 }) h k small refl)

read_sections-parts :
    (text address branch : Text) (t : TransportType) (port : ℕ) (r : Text)
    → t ≢ TransportType.unknown
    → IsToken address
    → IsToken branch
    → suc port < 2 ^ 31
    → read_sections
        (before (protocol t) r ∷ before (joined b';' (parts address branch port)) [] ∷ [])
        (plain_header (codes "Via") text)
      ≡ some (via_of text t address branch port)
read_sections-parts text address branch t port r known h k small =
    let rest = joined b';' (parts address branch port) in
    let plain = plain_header (codes "Via") text in
    ap
      (λ u.
        read_sub_sections (buffer_split (before rest []) b';')
          (record plain { transport_type = u }))
      (transport_of-before t r known)
    ∙ ap (λ ss. read_sub_sections ss (record plain { transport_type = t }))
        (buffer_split-joined b';' (parts address branch port) []
          (parts-AreWords address branch port h k))
    ∙ read_sub_sections-parts address branch port (record plain { transport_type = t }) h k small

-- The value that a response gets for a Via header with a known transport, an address and a branch without the
-- characters that separate its parts, and a port from 1 to 2 ^ 31 - 1, is read as a header with the same
-- transport, address, branch and port.
pub via_header-get_response_value :
    (value address branch : Text) (t : TransportType) (port : ℕ)
    → t ≢ TransportType.unknown
    → IsToken address
    → IsToken branch
    → suc port < 2 ^ 31
    → via_header (mapped_buffer (get_response_value (via_of value t address branch port)))
      ≡ some
          (via_of (get_response_value (via_of value t address branch port)) t address branch port)
unfolding via_header
via_header-get_response_value value address branch t port known h k small =
    let text = get_response_value (via_of value t address branch port) in
    let sections =
      before (protocol t) (b' ' ∷ (joined b';' (parts address branch port) ++ []))
      ∷ before (joined b';' (parts address branch port)) []
      ∷ [] in
    ap (λ ss. read_sections ss (plain_header (codes "Via") (bytes (mapped_buffer text))))
      (via_sections value address branch t port h k)
    ∙ ap (λ v. read_sections sections (plain_header (codes "Via") v)) (take_all text)
    ∙ read_sections-parts text address branch t port
        (b' ' ∷ (joined b';' (parts address branch port) ++ [])) known h k small
