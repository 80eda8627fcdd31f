-- ===== src/Sdp/Returns.antt =====
-- src/components/sdp/Sdp.cpp: which bodies the constructor's loop gets through, and what it keeps.
use sip_processing.Prelude.{
  ℕ, zero, suc, ◌+◌, ◌-◌, ◌%◌, ◌^◌, ◌<◌, ◌≤◌, ◌≡◌, ◌≢◌, ◌⊎◌, inl, inr, refl, sym, ◌∙◌, ap, ◌∷◌, [],
  List, Option, none, some, Bool, true, false, ◌&&◌, Text, leb, ◌==◌, ==_iff, if◌then◌else◌, ◌>>=◌,
  map, get_elem?, min, length, arith, length-append, length-set, get_elem?-some, take, Bool-cases,
}
use sip_processing.Buffers.{
  MappedBuffer, bytes, is_line_end, is_separator, buffer_split, buffer_split_lines,
  buffer_split_on_first, split_first_from,
}
use sip_processing.Buffers.Split.{
  components_from, fields, drop_empty, buffer_split-fields, buffer_split_lines-fields,
}
use sip_processing.Buffers.Numbers.{to_unsigned_long_integer}
use sip_processing.Sdp.MediaType
use sip_processing.Sdp.ProtocolType
use sip_processing.Sdp.Attribute.{SdpAttributeLine, attribute_line}
use sip_processing.Sdp.Connection
use sip_processing.Sdp.Connection.{SdpConnection, connection_line}
use sip_processing.Sdp.Media
use sip_processing.Sdp.Media.{
  SdpMedia, SdpMediaLine, media_line, line_to_string, copy, of_port, add_attribute,
}
use sip_processing.Sdp.Description.{
  Sdp, to_lower, parse_entry, parse_line, parse_lines, parse_body, logged, push_media,
  add_attribute_line, add_media_line,
}
use sip_processing.Sdp.Readable.{
  after_first, has_fields, second, readable_entry, readable_line, readable, IsReady, Outcome,
  returns, faults,
}

parts_lem :
    (b : MappedBuffer) (d n : ℕ) (p : Text) (count : ℕ)
    → (key value : MappedBuffer) × (split_first_from b d n p count ≡ key ∷ value ∷ [])
      × (key.buf ≡ b.buf)
      × (bytes value ≡ after_first d (take n p))
unfolding split_first_from after_first
parts_lem b d zero p count = (b, _, refl, refl, refl)
parts_lem b d (suc n) [] count = (b, _, refl, refl, refl)
parts_lem b d (suc n) (c ∷ cs) count = elim (Bool-cases (c == d)) [
  | inl e ↦ rw (e, split_first_from, after_first) (_, _, refl, refl, refl)
  | inr e ↦ rw (e, split_first_from, after_first) (parts_lem b d n cs (count + 1))
]

mod_lem : (n : ℕ) → (n % 2 ^ 8 + 1) % 2 ^ 8 ≡ (n + 1) % 2 ^ 8
mod_lem n = omega arith

index_lem : (i : ℕ) → i ≢ 0 → i < 2 ^ 8 → (i + 2 ^ 16 - 1) % 2 ^ 16 ≡ i - 1
index_lem i h k = omega arith

attribute_outcome :
    (line : SdpAttributeLine) (sdp : Sdp) (log : Bool)
    → IsReady log sdp
    → Outcome log (add_attribute_line sdp.stream_count line sdp) true
unfolding add_attribute_line
attribute_outcome line sdp log (set, count) = elim (Bool-cases (sdp.stream_count == 0)) [
  | inl e ↦ rw (e, add_attribute_line) (returns _ refl (set, count))
  | inr e ↦
      let below : sdp.stream_count ≤ length sdp.media = omega arith in
      let index : (sdp.stream_count + 2 ^ 16 - 1) % 2 ^ 16 ≡ sdp.stream_count - 1 =
        index_lem sdp.stream_count (ground arith) (omega arith) in
      let inside : leb sdp.stream_count (sdp.stream_count - 1) ≡ false = ground arith in
      let (m, found) = get_elem?-some sdp.media (sdp.stream_count - 1) (ground arith) in
      rw (e, add_attribute_line)
        (rw (index, inside, found)
          (returns _ refl (set, count ∙ ap (λ n. n % 2 ^ 8) (sym (length-set sdp.media _ _)))))
]

push_outcome :
    (m : SdpMedia) (sdp : Sdp) (log : Bool)
    → IsReady log sdp
    → Outcome log (logged sdp (some (push_media m sdp))) log
push_outcome m sdp true (set, count) =
    rw set (returns _ refl (refl, omega (arith, count, length-append sdp.media (copy m ∷ []))))
push_outcome m sdp false (set, count) = rw set (faults refl)

with_test : {log : Bool} {r : Option Sdp} {b c : Bool} → b ≡ c → Outcome log r c → Outcome log r b
with_test e o = rw e o

-- A connection is read exactly where there are three fields.
connection_outcome :
    (entry : MappedBuffer) (sdp : Sdp) (log : Bool)
    → IsReady log sdp
    → Outcome log
        (connection_line entry >>= λ c. some (record sdp { connection = c }))
        (has_fields 3 b' ' (bytes entry))
unfolding has_fields connection_line
connection_outcome entry sdp log ready =
    rw (sym (buffer_split-fields entry b' ')) (by_content (buffer_split entry b' '))
  where
    by_content :
        (l : List MappedBuffer)
        → Outcome log
            (Connection.of_content l >>= λ c. some (record sdp { connection = c }))
            (leb 3 (length (map bytes l)))
    by_content [] = faults refl
    by_content (a ∷ []) = faults refl
    by_content (a ∷ b ∷ []) = faults refl
    by_content (a ∷ b ∷ c ∷ l) = with_test (ground arith) (returns _ refl ready)

add_media : Sdp → SdpMediaLine → Option Sdp
add_media sdp line = add_media_line line sdp

media_content_outcome :
    (l : List MappedBuffer) (sdp : Sdp) (log : Bool)
    → IsReady log sdp
    → Outcome log
        (Media.of_content l >>= add_media sdp)
        (leb 4 (length (map bytes l)) && has_fields 1 b'/' (second (map bytes l)) && log)
unfolding add_media_line line_to_string add_media has_fields
media_content_outcome [] sdp log ready = faults refl
media_content_outcome (a ∷ []) sdp log ready = faults refl
media_content_outcome (a ∷ b ∷ []) sdp log ready = faults refl
media_content_outcome (a ∷ b ∷ c ∷ []) sdp log ready = faults refl
media_content_outcome (a ∷ b ∷ c ∷ d ∷ l) sdp log ready =
    let four : leb 4 (suc (suc (suc (suc (length (map bytes l)))))) ≡ true = ground arith in
    rw (four, sym (buffer_split-fields b b'/')) (by_port (buffer_split b b'/'))
  where
    stream_at : MappedBuffer → SdpMedia
    stream_at p =
        of_port (MediaType.set_type a) (to_unsigned_long_integer p) (ProtocolType.set_type c)

    by_port :
        (ports : List MappedBuffer)
        → Outcome log
            (Media.with_port (Media.port_of ports) a c (d ∷ l) >>= add_media sdp)
            (true && leb 1 (length (map bytes ports)) && log)
    by_port [] = faults refl
    by_port (p ∷ []) = push_outcome (stream_at p) sdp log ready
    by_port (p ∷ q ∷ ports) = with_test (ground arith) (push_outcome (stream_at p) sdp log ready)

media_outcome :
    (entry : MappedBuffer) (sdp : Sdp) (log : Bool)
    → IsReady log sdp
    → Outcome log (media_line entry >>= add_media sdp) (
        has_fields 4 b' ' (bytes entry)
        && has_fields 1 b'/' (second (fields (is_separator b' ') (bytes entry)))
        && log)
unfolding media_line has_fields
media_outcome entry sdp log ready =
    rw (sym (buffer_split-fields entry b' '))
      (media_content_outcome (buffer_split entry b' ') sdp log ready)

parse_entry-Outcome :
    (c : ℕ) (entry : MappedBuffer) (sdp : Sdp) (log : Bool)
    → IsReady log sdp
    → Outcome log (parse_entry c entry sdp) (readable_entry log c (bytes entry))
unfolding parse_entry readable_entry add_media
parse_entry-Outcome c entry sdp log ready = elim (Bool-cases (c == b'o')) [
  | inl e ↦ rw ((==_iff _ _).0 e) (returns _ refl ready)
  | inr o ↦ elim (Bool-cases (c == b'v')) [
    | inl e ↦ rw ((==_iff _ _).0 e) (returns _ refl ready)
    | inr v ↦ elim (Bool-cases (c == b's')) [
      | inl e ↦ rw ((==_iff _ _).0 e) (returns _ refl ready)
      | inr s ↦ elim (Bool-cases (c == b'c')) [
        | inl e ↦ rw ((==_iff _ _).0 e) (connection_outcome entry sdp log ready)
        | inr n ↦ elim (Bool-cases (c == b't')) [
          | inl e ↦ rw ((==_iff _ _).0 e) (returns _ refl ready)
          | inr t ↦ elim (Bool-cases (c == b'm')) [
            | inl e ↦ rw ((==_iff _ _).0 e) (media_outcome entry sdp log ready)
            | inr m ↦ rw (o, v, s, n, t, m) (rest (Bool-cases (c == b'a')))
          ]
        ]
      ]
    ]
  ]
]
  where
    unknown_letter : (l : Bool) → sdp.logger ≡ l → log ≡ l → Outcome log (logged sdp (some sdp)) log
    unknown_letter true set e =
        with_test e (returns sdp (ap (λ l. if l then some sdp else none) set) ready)
    unknown_letter false set e = with_test e (faults (ap (λ l. if l then some sdp else none) set))

    rest :
        ((c == b'a') ≡ true) ⊎ ((c == b'a') ≡ false)
        → Outcome log
            (if c == b'a'
              then add_attribute_line sdp.stream_count (attribute_line entry) sdp
              else logged sdp (some sdp))
            (if c == b'a' then true else log)
    rest (inl e) = rw e (attribute_outcome _ sdp log ready)
    rest (inr e) = rw e (unknown_letter log ready.0 refl)

first_letter : (n : ℕ) (p : Text) (c : ℕ) (cs : Text) → take n p ≡ c ∷ cs → get_elem? p 0 ≡ some c
first_letter zero p c cs e = absurd (cc)
first_letter (suc n) [] c cs e = absurd (cc)
first_letter (suc n) (x ∷ p) c cs e = cc

parse_line-Outcome :
    (line : MappedBuffer) (sdp : Sdp) (log : Bool)
    → bytes line ≢ []
    → IsReady log sdp
    → Outcome log (parse_line line sdp) (readable_line log (bytes line))
unfolding parse_line readable_line buffer_split_on_first
parse_line-Outcome line sdp log full ready = from_bytes (bytes line) refl
  where
    from_bytes :
        (s : Text) → bytes line ≡ s → Outcome log (parse_line line sdp) (readable_line log s)
    from_bytes [] e = absurd (full e)
    from_bytes (c ∷ cs) e =
        let (key, value, pair, start, after) = parts_lem line b'=' line.len line.buf 0 in
        let entry : bytes value ≡ after_first b'=' (c ∷ cs) = after ∙ ap (after_first b'=') e in
        rw (pair, start, first_letter line.len line.buf c cs e, sym entry)
          (parse_entry-Outcome (to_lower c) value sdp log ready)

-- Texts that are not empty, as the lines of a split are.
abbrev AreFull : List Text → Type 0
AreFull [] = Unit
AreFull (s ∷ l) = (s ≢ []) × AreFull l

drop_empty-AreFull : (l : List Text) → AreFull (drop_empty l)
unfolding drop_empty
drop_empty-AreFull [] = tt
drop_empty-AreFull ([] ∷ l) = drop_empty-AreFull l
drop_empty-AreFull ((c ∷ cs) ∷ l) = ((λ e. cc), drop_empty-AreFull l)

fields-AreFull : (stop : ℕ → Bool) (s : Text) → AreFull (fields stop s)
unfolding fields
fields-AreFull stop s = drop_empty-AreFull (components_from stop [] s)

-- The lines one after the other, from a description that is ready.
parse_lines-Outcome :
    (lines : List MappedBuffer) (sdp : Sdp) (log : Bool)
    → AreFull (map bytes lines)
    → IsReady log sdp
    → Outcome log (parse_lines lines sdp) (readable log (map bytes lines))
unfolding parse_lines readable
parse_lines-Outcome [] sdp log full ready = returns sdp refl ready
parse_lines-Outcome (line ∷ lines) sdp log (full, rest) ready =
    go _ refl (parse_line-Outcome line sdp log full ready)
      (λ next. parse_lines-Outcome lines next log rest)
  where
    go :
        (b : Bool)
        → readable_line log (bytes line) ≡ b
        → Outcome log (parse_line line sdp) b
        → ((next : Sdp)
            → IsReady log next
            → Outcome log (parse_lines lines next) (readable log (map bytes lines)))
        → Outcome log (parse_lines (line ∷ lines) sdp) (readable log (map bytes (line ∷ lines)))
    go true e (returns next r kept) later = rw (e, r, parse_lines, readable) (later next kept)
    go false e (faults r) later = rw (e, r, parse_lines, readable) (faults refl)

-- The loop of the constructor, from any description that counts its streams modulo 256, as a new one
-- does, with the log set or not: it returns such a description, with the log set if it was set,
-- exactly if each line of the body, of which it reads 4096 bytes at most, is readable; for any other
-- body it uses what is not there. Readable means that a `c` line has at least three fields, that an
-- `m` line has at least four, of which the second holds a port, and that the log is set for an `m` line
-- and for a line with a letter other than `o`, `v`, `s`, `c`, `t`, `m` and `a`. Without the log, as the
-- constructor starts, no body with an `m` line is read.
pub parse_body-Outcome :
    (raw_sdp_body_data : Text) (size : ℕ) (sdp : Sdp) (log : Bool)
    → IsReady log sdp
    → Outcome log
        (parse_body raw_sdp_body_data size sdp)
        (readable log (fields is_line_end (take (min size 4096) raw_sdp_body_data)))
unfolding parse_body
parse_body-Outcome raw size sdp log ready =
    let buffer : MappedBuffer = record { buf = raw; len = min size 4096 } in
    let lines = buffer_split_lines-fields buffer in
    rw (sym lines) (
      parse_lines-Outcome (buffer_split_lines buffer) sdp log
        (rw lines (fields-AreFull is_line_end (bytes buffer))) ready)
