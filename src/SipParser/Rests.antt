-- ===== src/SipParser/Rests.antt =====
-- What a call of `SipParser::loadMessageData` in src/components/sip/SipParser.cpp leaves.
use sip_processing.Prelude.{
  ℕ, ◌+◌, ◌-◌, ◌%◌, ◌^◌, ◌<◌, ◌≡◌, ◌⊎◌, ◌∙◌, inl, inr, refl, sym, ap, Bool, true, false, Bool-cases,
  Option-cases, [], ◌∷◌, Option, some, none, Text, codes, ℤ, pos, negsuc, is_zero, arith, ◌>>=◌,
  if◌then◌else◌,
}
use mathlib.Core.Path.{subst}
use sip_processing.Buffers.{mapped_buffer}
use sip_processing.Buffers.Numbers.{to_long_integer}
use sip_processing.SipHeaders.{int32, header_content_length}
use sip_processing.SipMessage.{SipMessage, find_header}
use sip_processing.SipMessage.Builder.{get_content_type, get_content_length}
use sip_processing.SipParser.Normalise.{Parser}
use sip_processing.SipParser.Waiting.{IsCounted, missing, parse_header_data-Keeps}
use sip_processing.SipParser.Load.{
  Loaded, load_message_data, load_section, load_content, load_header, load_body, parse_header_data,
  parse_body_data, completed, awaiting, int_leb, to_size, add_length, expected,
}

-- The parser has no message in work, and it has handed on at most one; or it waits for the
-- content of the message that it holds, and the call returned the number of bytes that are missing.
pub data Rests (log : Bool) (r : Loaded) : Type 0 where
  idle :
      r.parser.processing_message ≡ false
      → r.parser.received_content_length ≡ pos 0
      → r.pending ≡ 0
      → (r.events ≡ []) ⊎ ((m : SipMessage) × (r.events ≡ m ∷ []) × (r.parser.sip_message ≡ some m))
      → Rests log r
  waiting :
      (m : SipMessage) (n : ℤ)
      → r.parser.processing_message ≡ true
      → r.parser.sip_message ≡ some m
      → get_content_length log m ≡ some n
      → r.pending ≡ missing n r.parser.received_content_length
      → r.events ≡ []
      → Rests log r

to_size-int32 : (z : ℤ) → to_size (int32 z) < 2 ^ 64
to_size-int32 (pos n) = ground arith
to_size-int32 (negsuc n) = ground arith

get_content_length-small :
    (log : Bool) (m : SipMessage) (n : ℤ) → get_content_length log m ≡ some n → to_size n < 2 ^ 64
unfolding get_content_length header_content_length
get_content_length-small log m n e =
    elim (Option-cases (find_header (codes "CONTENT-LENGTH") m.headers)) [
      | inl no_header ↦
          let e' = rw (get_content_length, no_header) at e in
          elim (Bool-cases log) [
            | inr unset ↦ let e'' = rw unset at e' in absurd (cc)
            | inl set ↦
                let e'' = rw set at e' in
                let same : pos 0 ≡ n = cc in subst (λ k. to_size k < 2 ^ 64) same (omega arith)
          ]
      | inr (none, null) ↦ let e' = rw (get_content_length, null) at e in absurd (cc)
      | inr (some h, found) ↦
          let e' = rw (get_content_length, found) at e in
          let same : int32 (to_long_integer (mapped_buffer h.value)) ≡ n = cc in
          subst (λ k. to_size k < 2 ^ 64) same
            (to_size-int32 (to_long_integer (mapped_buffer h.value)))
    ]

completed-Rests :
    (log : Bool) (p : Parser) (m : SipMessage) (r : Loaded) → completed p m ≡ some r → Rests log r
completed-Rests log p m r e =
    let made : Loaded = record {
      pending = 0;
      parser = record p {
        sip_message = some m;
        received_content_length = pos 0;
        processing_message = false;
      };
      events = m ∷ [];
    } in
    let same : made ≡ r = cc in subst (Rests log) same (idle refl refl refl (inr (m, refl, refl)))

missing-zero : (k : ℕ) → k < 2 ^ 64 → (k + 2 ^ 64 - 0) % 2 ^ 64 ≡ k
missing-zero k h = omega arith

awaiting-Rests :
    (log : Bool) (p : Parser) (m : SipMessage) (n : ℤ) (r : Loaded)
    → p.received_content_length ≡ pos 0
    → get_content_length log m ≡ some n
    → awaiting n log m p ≡ some r
    → Rests log r
awaiting-Rests log p m n r z l e = elim (Option-cases (get_content_type log m)) [
  | inl no_type ↦ let e' = rw no_type at e in absurd (cc)
  | inr (t, is_type) ↦
      let e' = rw is_type at e in
      let made : Loaded = record {
        pending = to_size n;
        parser = record p {
          sip_message = some m;
          body_type = t;
          expecting_body_content_type = expected t;
          processing_message = true;
        };
        events = [];
      } in
      let same : made ≡ r = cc in
      let size : to_size n ≡ missing n p.received_content_length =
        sym (missing-zero (to_size n) (get_content_length-small log m n l))
        ∙ ap (missing n) (sym z) in
      subst (Rests log) same (waiting m n refl refl l size refl)
]

load_header-Rests :
    (log : Bool) (msg : Option SipMessage) (p : Parser) (r : Loaded)
    → p.processing_message ≡ false
    → p.received_content_length ≡ pos 0
    → load_header log msg p ≡ some r
    → Rests log r
load_header-Rests log none p r f z e =
    let made : Loaded = record {
      pending = 0;
      parser = record p { sip_message = none };
      events = [];
    } in
    let same : made ≡ r = cc in subst (Rests log) same (idle f z refl (inl refl))
load_header-Rests log (some m) p r f z e = elim (Option-cases (get_content_length log m)) [
  | inl no_length ↦ let e' = rw no_length at e in absurd (cc)
  | inr (n, is_length) ↦
      let e' = rw is_length at e in
      elim (Bool-cases (is_zero n)) [
        | inl zero_length ↦ completed-Rests log p m r (rw zero_length at e')
        | inr more ↦ awaiting-Rests log p m n r z is_length (rw more at e')
      ]
]

load_body-Rests : (log : Bool) (p : Parser) (r : Loaded) → load_body log p ≡ some r → Rests log r
load_body-Rests log p r e = elim (Option-cases p.sip_message) [
  | inl no_message ↦ let e' = rw no_message at e in absurd (cc)
  | inr (m, holds) ↦
      let e' = rw holds at e in
      elim (Option-cases (get_content_length log m)) [
        | inl no_length ↦ let e'' = rw no_length at e' in absurd (cc)
        | inr (n, is_length) ↦
            let e'' = rw is_length at e' in
            elim (Bool-cases (int_leb n p.received_content_length)) [
              | inl whole ↦ completed-Rests log p m r (rw whole at e'')
              | inr part ↦
                  let f = rw part at e'' in
                  let made : Loaded = record {
                    pending = missing n p.received_content_length;
                    parser = record p { processing_message = true; sip_message = some m };
                    events = [];
                  } in
                  let same : made ≡ r = cc in
                  subst (Rests log) same (waiting m n refl refl is_length refl refl)
            ]
      ]
]

Rests-IsCounted : (log : Bool) (r : Loaded) → Rests log r → IsCounted r.parser
Rests-IsCounted log r (idle f z n e) = λ g. z
Rests-IsCounted log r (waiting m n f h l q e) = λ g. absurd (cc)

pub bind-some :
    {A : Type 0} {B : Type 0} (o : Option A) (f : A → Option B) (b : B)
    → (o >>= f) ≡ some b
    → (a : A) × (o ≡ some a) × (f a ≡ some b)
bind-some none f b e = absurd (cc)
bind-some (some a) f b e = (a, refl, e)

load_section-Rests :
    (log : Bool) (channel_id : ℕ) (flag : Bool) (buf : Text) (len : ℕ) (p : Parser) (r : Loaded)
    → p.processing_message ≡ false
    → p.received_content_length ≡ pos 0
    → load_section log channel_id flag buf len p ≡ some r
    → Rests log r
unfolding load_section
load_section-Rests log channel_id flag buf len p r f z e =
    let ((msg, read), parsed, rest) =
      bind-some (parse_header_data log channel_id flag buf len p)
        (λ (msg, read). load_header log msg read) r e in
    let k = parse_header_data-Keeps log channel_id flag buf len p read msg parsed in
    load_header-Rests log msg read r (k.processing ∙ f) (k.received ∙ z) rest

load_content-Rests :
    (log : Bool) (buf : Text) (len : ℕ) (p : Parser) (r : Loaded)
    → load_content log buf len p ≡ some r
    → Rests log r
unfolding load_content
load_content-Rests log buf len p r e =
    let counted = record p { received_content_length = add_length p.received_content_length len } in
    let (m, holds, found) =
      bind-some p.sip_message
        (λ m. get_content_type log m >>= λ t.
          parse_body_data log buf len counted >>= λ read. load_body log read)
        r e in
    let (t, is_type, typed) =
      bind-some (get_content_type log m)
        (λ t. parse_body_data log buf len counted >>= λ read. load_body log read) r found in
    let (read, parsed, rest) =
      bind-some (parse_body_data log buf len counted) (λ read. load_body log read) r typed in
    load_body-Rests log read r rest

pub if-some :
    {A : Type 0} (b : Bool) (x y : Option A) (a : A)
    → (if b then x else y) ≡ some a
    → ((b ≡ true) × (x ≡ some a)) ⊎ ((b ≡ false) × (y ≡ some a))
if-some true x y a e = inl (refl, e)
if-some false x y a e = inr (refl, e)

returned-Rests :
    (log : Bool) (channel_id : ℕ) (reinvite_flag : Bool) (buf : Text) (len : ℕ) (p : Parser)
    (r : Loaded)
    → IsCounted p
    → load_message_data log channel_id reinvite_flag buf len p ≡ some r
    → Rests log r
unfolding load_message_data
returned-Rests log channel_id flag buf len p r counted e =
    elim (if-some p.processing_message (load_content log buf len p)
      (load_section log channel_id flag buf len p) r e) [
        | inl (in_work, run) ↦ load_content-Rests log buf len p r run
        | inr (between, run) ↦
            load_section-Rests log channel_id flag buf len p r between (counted between) run
      ]

-- The parser's states between calls. If the count of the content is zero while no message is in work,
-- as it is for a new parser, a call of `loadMessageData` that returns leaves it so, and either no message is in
-- work, 0 is returned and at most one message was handed on, which is the one that the parser holds; or
-- the parser holds a message and waits for its content, nothing was handed on, and what
-- is returned is its content length less the bytes counted.
pub load_message_data-Rests :
    (log : Bool) (channel_id : ℕ) (reinvite_flag : Bool) (buf : Text) (len : ℕ) (p : Parser)
    (r : Loaded)
    → IsCounted p
    → load_message_data log channel_id reinvite_flag buf len p ≡ some r
    → Rests log r × IsCounted r.parser
load_message_data-Rests log channel_id flag buf len p r counted e =
    let rests = returned-Rests log channel_id flag buf len p r counted e in
    (rests, Rests-IsCounted log r rests)
