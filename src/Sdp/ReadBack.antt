-- ===== src/Sdp/ReadBack.antt =====
-- src/components/sdp/Sdp.cpp: the attributes and streams that the constructor's loop reads from printed lines.
use mathlib.Core.List.{append_assoc, append-nil}
use sip_processing.Prelude.{
  ℕ, suc, ◌+◌, ◌-◌, ◌%◌, ◌^◌, ◌<◌, ◌≡◌, refl, sym, ap, ◌∙◌, true, false, List, [], ◌∷◌, ◌++◌, Text,
  length, arith, some, none, Bool, if◌then◌else◌, map, ◌==◌, leb, get_elem?, set, length-append,
}
use sip_processing.Buffers.Words.{unlines, line_views}
use sip_processing.Buffers.Kept.{before}
use sip_processing.Sdp.Attribute
use sip_processing.Sdp.Attribute.{SdpAttribute}
use sip_processing.Sdp.Session.{default_version}
use sip_processing.Sdp.Media.{SdpMedia, add_attribute}
use sip_processing.Sdp.Description.{Sdp, parse_line, parse_lines, add_attribute_line, push_media}
use sip_processing.Sdp.Lines.AttributeText.{as_line, parse_line-attribute}
use sip_processing.Sdp.Lines.MediaText.{media_text, line_media, parse_line-media}
use sip_processing.Sdp.Printed.{AreAttributes, number, AreStreams, attribute_texts, stream_lines}

-- A stream as it comes back: without its formats.
abbrev pub parsed_media : SdpMedia → SdpMedia
parsed_media m = record m { formats = []; logger = false }

-- The description as it comes back: the version is not read, and no stream has its formats. The log is the
-- one that was there.
abbrev pub parsed : Bool → Sdp → Sdp
parsed log sdp = record sdp {
  version = default_version;
  media = map parsed_media sdp.media;
  logger = log;
}

-- The log is there, or there is no stream that would use it.
abbrev pub logs : Bool → List SdpMedia → Bool
logs log [] = true
logs log (m ∷ ms) = log

-- A description that holds these streams.
abbrev with_media : Sdp → List SdpMedia → Sdp
with_media sdp media = record sdp { stream_count = length media; media = media; logger = true }

last_lem : (ms : List SdpMedia) (m : SdpMedia) → get_elem? (ms ++ (m ∷ [])) (length ms) ≡ some m
last_lem [] m = refl
last_lem (x ∷ ms) m = last_lem ms m

set_last_lem :
    (ms : List SdpMedia) (m n : SdpMedia) → set (ms ++ (m ∷ [])) (length ms) n ≡ ms ++ (n ∷ [])
set_last_lem [] m n = refl
set_last_lem (x ∷ ms) m n = ap (◌∷◌ x) (set_last_lem ms m n)

length_last :
    (ms : List SdpMedia) (m n : SdpMedia) → length (ms ++ (m ∷ [])) ≡ length (ms ++ (n ∷ []))
length_last [] m n = refl
length_last (x ∷ ms) m n = ap suc (length_last ms m n)

index_lem : (n k : ℕ) → n ≡ k + 1 → n < 2 ^ 8 → (n + 2 ^ 16 - 1) % 2 ^ 16 ≡ k
index_lem n k e h = omega arith

-- The last stream gets the attribute.
attribute_to_last :
    (a : SdpAttribute) (sdp : Sdp) (ms : List SdpMedia) (m : SdpMedia)
    → length (ms ++ (m ∷ [])) < 2 ^ 8
    → add_attribute_line (length (ms ++ (m ∷ []))) (as_line a) (with_media sdp (ms ++ (m ∷ [])))
      ≡ some (with_media sdp (ms ++ (add_attribute a m ∷ [])))
unfolding add_attribute_line
attribute_to_last a sdp ms m small =
    let count : length (ms ++ (m ∷ [])) ≡ length ms + 1 = length-append ms (m ∷ []) in
    let some_stream : (length (ms ++ (m ∷ [])) == 0) ≡ false = ground arith in
    let index = index_lem (length (ms ++ (m ∷ []))) (length ms) count small in
    let inside : leb (length (ms ++ (m ∷ []))) (length ms) ≡ false = ground arith in
    rw (some_stream, add_attribute_line)
      (rw (index, inside, last_lem ms m, set_last_lem ms m (add_attribute a m))
        (ap
          (λ n. some (record sdp {
            stream_count = n;
            media = ms ++ (add_attribute a m ∷ []);
            logger = true;
          }))
          (length_last ms m (add_attribute a m))))

-- The views of some lines before others.
pub lines_step :
    (l : Text) (ls : List Text) (sdp next : Sdp)
    → ((r : Text) → parse_line (before l (b'\r' ∷ r)) sdp ≡ some next)
    → parse_lines (line_views (l ∷ ls)) sdp ≡ parse_lines (line_views ls) next
unfolding parse_lines
lines_step l ls sdp next h = rw (h (b'\n' ∷ unlines ls)) refl

attributes_to_last :
    (l : List SdpAttribute) (ls : List Text) (sdp : Sdp) (ms : List SdpMedia) (m : SdpMedia)
    → length (ms ++ (m ∷ [])) < 2 ^ 8
    → AreAttributes l
    → parse_lines (line_views (attribute_texts l ++ ls)) (with_media sdp (ms ++ (m ∷ [])))
      ≡ parse_lines
          (line_views ls)
          (with_media sdp (ms ++ (record m { attributes = m.attributes ++ l } ∷ [])))
unfolding add_attribute
attributes_to_last [] ls sdp ms m small h =
    ap
      (λ l. parse_lines (line_views ls) (with_media sdp (ms ++ (record m { attributes = l } ∷ []))))
      (sym (append-nil m.attributes))
attributes_to_last (a ∷ l) ls sdp ms m small h =
    lines_step (Attribute.to_string a) (attribute_texts l ++ ls) (with_media sdp (ms ++ (m ∷ [])))
      (with_media sdp (ms ++ (add_attribute a m ∷ [])))
      (λ r.
        parse_line-attribute a (b'\r' ∷ r) (with_media sdp (ms ++ (m ∷ []))) h.0
        ∙ attribute_to_last a sdp ms m small)
    ∙ attributes_to_last l ls sdp ms (add_attribute a m)
        (rw (sym (length_last ms m (add_attribute a m))) small) h.1
    ∙ ap
        (λ l.
          parse_lines (line_views ls) (with_media sdp (ms ++ (record m { attributes = l } ∷ []))))
        (append_assoc m.attributes (a ∷ []) l)

-- An attribute before any stream.
attribute_to_all :
    (a : SdpAttribute) (sdp : Sdp)
    → sdp.stream_count ≡ 0
    → add_attribute_line sdp.stream_count (as_line a) sdp
      ≡ some (record sdp { attributes = sdp.attributes ++ (a ∷ []) })
unfolding add_attribute_line
attribute_to_all a sdp h =
    let none_yet : (sdp.stream_count == 0) ≡ true = ground arith in
    rw (none_yet, add_attribute_line) refl

pub attributes_to_all :
    (l : List SdpAttribute) (ls : List Text) (sdp : Sdp)
    → sdp.stream_count ≡ 0
    → AreAttributes l
    → parse_lines (line_views (attribute_texts l ++ ls)) sdp
      ≡ parse_lines (line_views ls) (record sdp { attributes = sdp.attributes ++ l })
attributes_to_all [] ls sdp e h =
    ap (λ l. parse_lines (line_views ls) (record sdp { attributes = l }))
      (sym (append-nil sdp.attributes))
attributes_to_all (a ∷ l) ls sdp e h =
    let next : Sdp = record sdp { attributes = sdp.attributes ++ (a ∷ []) } in
    lines_step (Attribute.to_string a) (attribute_texts l ++ ls) sdp next
      (λ r. parse_line-attribute a (b'\r' ∷ r) sdp h.0 ∙ attribute_to_all a sdp e)
    ∙ attributes_to_all l ls next e h.1
    ∙ ap (λ l. parse_lines (line_views ls) (record sdp { attributes = l }))
        (append_assoc sdp.attributes (a ∷ []) l)

push_lem :
    (m : SdpMedia) (port : ℕ) (sdp : Sdp) (done : List SdpMedia)
    → length done + 1 < 2 ^ 8
    → push_media (line_media m port) (with_media sdp done)
      ≡ with_media sdp (done ++ (line_media m port ∷ []))
push_lem m port sdp done small =
    let count : (length done + 1) % 2 ^ 8 ≡ length (done ++ (line_media m port ∷ [])) =
      omega (arith, length-append done (line_media m port ∷ [])) in
    ap
      (λ n. record sdp {
        stream_count = n;
        media = done ++ (line_media m port ∷ []);
        logger = true;
      })
      count

-- The streams, each with its attributes, behind those that are there.
streams_lem :
    (ms : List SdpMedia) (sdp : Sdp) (done : List SdpMedia)
    → length done + length ms < 2 ^ 8
    → AreStreams ms
    → parse_lines (line_views (stream_lines ms)) (with_media sdp done)
      ≡ some (with_media sdp (done ++ map parsed_media ms))
unfolding parse_lines
streams_lem [] sdp done small h = ap (λ l. some (with_media sdp l)) (sym (append-nil done))
streams_lem (m ∷ ms) sdp done small (printed, h) =
    let port = number m.port in
    let stream = line_media m port in
    let with_attributes : SdpMedia = record stream { attributes = m.attributes } in
    let rest = attribute_texts m.attributes ++ stream_lines ms in
    let counted = length-append done (stream ∷ []) in
    let counted_too = length-append done (with_attributes ∷ []) in
    lines_step (media_text m port) rest (with_media sdp done)
      (with_media sdp (done ++ (stream ∷ [])))
      (λ r.
        parse_line-media m port (b'\r' ∷ r) (with_media sdp done) printed.1 printed.2
        ∙ ap some (push_lem m port sdp done (omega arith)))
    ∙ attributes_to_last m.attributes (stream_lines ms) sdp done stream (omega (arith, counted))
        printed.3
    ∙ streams_lem ms sdp (done ++ (with_attributes ∷ [])) (omega (arith, counted_too)) h
    ∙ ap (λ l. some (with_media sdp l))
        (append_assoc done (with_attributes ∷ []) (map parsed_media ms))
    ∙ ap
        (λ p. some (
          with_media sdp
            (done ++ (record m { port = p; formats = []; logger = false } ∷ map parsed_media ms))))
        (sym printed.0)

-- The streams of a description that has no stream yet.
pub first_streams :
    (ms : List SdpMedia) (sdp : Sdp) (log : Bool)
    → length ms < 2 ^ 8
    → AreStreams ms
    → parse_lines
        (line_views (stream_lines ms))
        (record sdp { stream_count = 0; media = []; logger = log })
      ≡ (if logs log ms
          then some (record sdp {
            stream_count = length (map parsed_media ms);
            media = map parsed_media ms;
            logger = log;
          })
          else none)
unfolding parse_lines
first_streams [] sdp log small h = refl
first_streams (m ∷ ms) sdp true small h = streams_lem (m ∷ ms) sdp [] (omega arith) h
first_streams (m ∷ ms) sdp false small (printed, h) =
    let port = number m.port in
    let rest = attribute_texts m.attributes ++ stream_lines ms in
    rw
      (parse_line-media m port (b'\r' ∷ b'\n' ∷ unlines rest)
        (record sdp { stream_count = 0; media = []; logger = false }) printed.1 printed.2)
      refl
