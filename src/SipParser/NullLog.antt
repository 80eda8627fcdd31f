-- ===== src/SipParser/NullLog.antt =====
-- The parser of src/components/sip/SipParser.cpp while the pointer to the log that the constructor of SipMessage uses
-- is not set, as no code sets it.
use sip_processing.Prelude.{
  ℕ, ◌≡◌, ◌≢◌, ◌⊎◌, ◌∙◌, inl, inr, refl, sym, ap, Bool, false, Option-cases, List, [], ◌∷◌, Option,
  some, none, Text,
}
use mathlib.Core.Path.{subst}
use sip_processing.Buffers.{MappedBuffer, mapped_buffer, buffer_split_lines, buffer_split_on_first}
use sip_processing.SipMessage.{SipMessage, BodyType, SipMessageType, HeaderMap}
use sip_processing.SipMessage.Builder.{
  builder, build_lines, build_headers, build_message, request_type, first_buffer,
}
use sip_processing.SipParser.Normalise.{Parser, normalise_header_data}
use sip_processing.SipParser.Load.{
  Loaded, load_message_data, load_section, load_content, load_header, parse_header_data,
  with_message,
}
use sip_processing.SipParser.Waiting.{parse_header_data-Keeps}
use sip_processing.SipParser.Rests.{bind-some, if-some}

-- No message is in work and none is held.
pub record IsEmpty (p : Parser) : Type 0 where
  pub between : p.processing_message ≡ false
  pub holds_none : p.sip_message ≡ none

build_message-none :
    (channel_id : ℕ) (flag : Bool) (t : Option SipMessageType) (headers : HeaderMap)
    (bodies : List (BodyType × Text)) (m : SipMessage)
    → build_message false channel_id flag t headers bodies ≢ some (some m)
build_message-none channel_id flag none headers bodies m e = absurd (cc)
build_message-none channel_id flag (some t) headers bodies m e = absurd (cc)

build_lines-none :
    (channel_id : ℕ) (flag : Bool) (lines : List MappedBuffer) (bodies : List (BodyType × Text))
    (m : SipMessage)
    → build_lines false channel_id flag lines bodies ≢ some (some m)
build_lines-none channel_id flag [] bodies m e = absurd (cc)
build_lines-none channel_id flag (line ∷ lines) bodies m e =
    let t = request_type (first_buffer (buffer_split_on_first line b':') line) in
    let (headers, built, rest) =
      bind-some (build_headers lines [])
        (λ headers. build_message false channel_id flag t headers bodies) (some m) e in
    build_message-none channel_id flag t headers bodies m rest

builder-none :
    (channel_id : ℕ) (flag : Bool) (message : Text) (bodies : List (BodyType × Text))
    (m : SipMessage)
    → builder false channel_id flag message bodies ≢ some (some m)
unfolding builder
builder-none channel_id flag message bodies m e =
    build_lines-none channel_id flag (buffer_split_lines (mapped_buffer message)) bodies m e

parse_header_data-none :
    (channel_id : ℕ) (flag : Bool) (message : Text) (size : ℕ) (p q : Parser)
    (msg : Option SipMessage)
    → parse_header_data false channel_id flag message size p ≡ some (msg, q)
    → msg ≡ none
unfolding parse_header_data
parse_header_data-none channel_id flag message size p q msg e =
    let read = normalise_header_data message size p in
    let (made, built, rest) =
      bind-some (builder false channel_id flag read.message read.bodies)
        (λ made. with_message false read made) (msg, q) e in
    go read made built rest
  where
    go :
        (read : Parser) (made : Option SipMessage)
        → builder false channel_id flag read.message read.bodies ≡ some made
        → with_message false read made ≡ some (msg, q)
        → msg ≡ none
    go read none built rest = cc
    go read (some m) built rest =
        absurd (builder-none channel_id flag read.message read.bodies m built)

load_header-none :
    (p : Parser) (r : Loaded)
    → p.processing_message ≡ false
    → load_header false none p ≡ some r
    → (r.pending ≡ 0) × (r.events ≡ []) × IsEmpty r.parser
load_header-none p r f e =
    let made : Loaded = record {
      pending = 0;
      parser = record p { sip_message = none };
      events = [];
    } in
    let same : made ≡ r = cc in
    subst (λ k. (k.pending ≡ 0) × (k.events ≡ []) × IsEmpty k.parser) same
      (refl, refl, record { between = f; holds_none = refl })

returns :
    (channel_id : ℕ) (flag : Bool) (buf : Text) (len : ℕ) (p : Parser) (r : Loaded)
    → IsEmpty p
    → load_message_data false channel_id flag buf len p ≡ some r
    → (r.pending ≡ 0) × (r.events ≡ []) × IsEmpty r.parser
unfolding load_message_data load_section
returns channel_id flag buf len p r v e =
    elim (if-some p.processing_message (load_content false buf len p)
      (load_section false channel_id flag buf len p) r e) [
        | inl (in_work, run) ↦ absurd (cc (v.between, in_work))
        | inr (idle, run) ↦
            let ((msg, read), parsed, rest) =
              bind-some (parse_header_data false channel_id flag buf len p)
                (λ (msg, read). load_header false msg read) r run in
            let k = parse_header_data-Keeps false channel_id flag buf len p read msg parsed in
            let gone = parse_header_data-none channel_id flag buf len p read msg parsed in
            load_header-none read r (k.processing ∙ idle)
              (ap (λ k. load_header false k read) (sym gone) ∙ rest)
      ]

-- While that pointer is null, a parser that holds no message never gets one: whatever bytes a call is given, it
-- does not return or it returns 0, hands nothing on, and leaves the parser without a message.
pub load_message_data-NullLog :
    (channel_id : ℕ) (reinvite_flag : Bool) (buf : Text) (len : ℕ) (p : Parser)
    → IsEmpty p
    → (load_message_data false channel_id reinvite_flag buf len p ≡ none)
      ⊎ ((r : Loaded) × (load_message_data false channel_id reinvite_flag buf len p ≡ some r)
          × (r.pending ≡ 0)
          × (r.events ≡ [])
          × IsEmpty r.parser)
load_message_data-NullLog channel_id flag buf len p v =
    elim (Option-cases (load_message_data false channel_id flag buf len p)) [
      | inl stuck ↦ inl stuck
      | inr (r, run) ↦
          let (nothing, silent, empty) = returns channel_id flag buf len p r v run in
          inr (r, run, nothing, silent, empty)
    ]
