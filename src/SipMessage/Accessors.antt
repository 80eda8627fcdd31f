-- ===== src/SipMessage/Accessors.antt =====
-- The accessors of a message that put null pointers into its map: what they leave as it is.
use sip_processing.Prelude.{
  ℕ, ◌≡◌, ◌⊎◌, ◌∙◌, refl, sym, ap, inl, inr, true, List, [], ◌∷◌, ◌++◌, Option, none, some, Text,
  codes, text_eq, text_eq_iff, if◌then◌else◌, arith, Option-cases, Bool-cases,
}
use mathlib.Core.Path.{subst}
use sip_processing.SipMessage.{
  SipMessage, header_field, SipHeader, HeaderMap, find_header, index_header, get_call_id,
  get_c_sequence, descriptors,
}

-- The Call-ID that a message tells.
abbrev pub call_id_of : SipMessage → Text
call_id_of m = (get_call_id m).0

-- The message has a header object under this name.
abbrev pub Has : Text → SipMessage → Type 0
Has name m = (h : SipHeader) × (find_header name m.headers ≡ some (some h))

-- No header is a null pointer, and those that a response copies are there.
pub record Complete (m : SipMessage) : Type 0 where
  pub via : Has (codes "VIA") m
  pub from : Has (codes "FROM") m
  pub to : Has (codes "TO") m
  pub call_id : Has (codes "CALL-ID") m
  pub c_sequence : Has (codes "CSEQ") m
  pub listed : (ds : List (Text × Text)) × (descriptors m.headers ≡ some ds)

-- The message has no header object under this name, but may have a null pointer.
abbrev pub Missing : Text → SipMessage → Type 0
Missing name m = (find_header name m.headers ≡ none) ⊎ (find_header name m.headers ≡ some none)

-- What no accessor changes.
pub record SameRequest (m n : SipMessage) : Type 0 where
  pub kind : n.is_request ≡ m.is_request
  pub message_type : n.message_type ≡ m.message_type
  pub bodies : n.bodies ≡ m.bodies
  pub logger : n.logger ≡ m.logger
  pub call_id : call_id_of n ≡ call_id_of m
  pub complete : Complete m → Complete n
  pub missing : (name : Text) → Missing name m → Missing name n

pub same_request : (m : SipMessage) → SameRequest m m
same_request m = record {
  kind = refl;
  message_type = refl;
  bodies = refl;
  logger = refl;
  call_id = refl;
  complete = λ c. c;
  missing = λ name h. h;
}

pub same_request_trans : (l m n : SipMessage) → SameRequest l m → SameRequest m n → SameRequest l n
same_request_trans l m n a b = record {
  kind = b.kind ∙ a.kind;
  message_type = b.message_type ∙ a.message_type;
  bodies = b.bodies ∙ a.bodies;
  logger = b.logger ∙ a.logger;
  call_id = b.call_id ∙ a.call_id;
  complete = λ c. b.complete (a.complete c);
  missing = λ name h. b.missing name (a.missing name h);
}

pub find_header-snoc :
    (c name : Text) (hs : HeaderMap)
    → find_header c (hs ++ (name, none) ∷ []) ≡ elim (find_header c hs) [
      | some h ↦ some h
      | none ↦ if text_eq name c then some none else none
    ]
unfolding find_header
find_header-snoc c name [] = ground arith
find_header-snoc c name ((n, h) ∷ hs) = ground (arith, find_header-snoc c name hs)

pub index_header-Missing :
    (other name : Text) (m : SipMessage) → Missing other m → Missing other (index_header name m).1
unfolding index_header
index_header-Missing other name m h = elim (Option-cases (find_header name m.headers)) [
  | inr (o, present) ↦
      let same : (index_header name m).1 ≡ m = ground (arith, present) in
      subst (Missing other) (sym same) h
  | inl absent ↦ elim h [
    | inl none_there ↦ elim (Bool-cases (text_eq name other)) [
      | inl y ↦ inr (ground (arith, absent, find_header-snoc other name m.headers, none_there, y))
      | inr n ↦ inl (ground (arith, absent, find_header-snoc other name m.headers, none_there, n))
    ]
    | inr null_there ↦
        inr (ground (arith, absent, find_header-snoc other name m.headers, null_there))
  ]
]

index_header-SameRequest :
    (name : Text) (m : SipMessage)
    → (Complete m → Has name m)
    → SameRequest m (index_header name m).1
unfolding index_header get_call_id
index_header-SameRequest name m has = elim (Option-cases (find_header name m.headers)) [
  | inl absent ↦ record {
    kind = ground (arith, absent);
    message_type = ground (arith, absent);
    bodies = ground (arith, absent);
    logger = ground (arith, absent);
    call_id = ground (arith, absent, find_header-snoc (codes "CALL-ID") name m.headers);
    complete = λ c. absurd (ground (arith, absent, (has c).1));
    missing = λ other h. index_header-Missing other name m h;
  }
  | inr (h, present) ↦ record {
    kind = ground (arith, present);
    message_type = ground (arith, present);
    bodies = ground (arith, present);
    logger = ground (arith, present);
    call_id = ground (arith, present);
    complete = λ c. subst Complete (sym (ground (arith, present))) c;
    missing = λ other h. index_header-Missing other name m h;
  }
]

pub header_field-message {ℓ} :
    {A : Type ℓ} (missing : A) (read : SipHeader → A) (x : Option SipHeader × SipMessage)
    → (header_field missing read x).1 ≡ x.1
header_field-message missing read (none, m) = refl
header_field-message missing read (some h, m) = refl

-- An accessor of this shape changes nothing of it.
header_field-SameRequest {ℓ} :
    {A : Type ℓ} (missing : A) (read : SipHeader → A) (name : Text) (m : SipMessage)
    → (Complete m → Has name m)
    → SameRequest m (header_field missing read (index_header name m)).1
header_field-SameRequest missing read name m has =
    subst (SameRequest m) (sym (header_field-message missing read (index_header name m)))
      (index_header-SameRequest name m has)

pub get_call_id-SameRequest : (m : SipMessage) → SameRequest m (get_call_id m).1
unfolding get_call_id
get_call_id-SameRequest m =
    header_field-SameRequest [] (λ h. h.value) (codes "CALL-ID") m (λ c. c.call_id)

pub get_c_sequence-SameRequest : (m : SipMessage) → SameRequest m (get_c_sequence m).1
unfolding get_c_sequence
get_c_sequence-SameRequest m =
    header_field-SameRequest [] (λ h. h.value) (codes "CSEQ") m (λ c. c.c_sequence)

text_eq_self : (s : Text) → text_eq s s ≡ true
text_eq_self s = (text_eq_iff s s).1 refl

index_header-again :
    (name : Text) (m : SipMessage)
    → (index_header name (index_header name m).1).1 ≡ (index_header name m).1
unfolding index_header
index_header-again name m = elim (Option-cases (find_header name m.headers)) [
  | inl absent ↦ ground (arith, absent, find_header-snoc name name m.headers, text_eq_self name)
  | inr (h, present) ↦ ground (arith, present)
]

-- The second read of a Call-ID changes nothing.
pub get_call_id-again : (m : SipMessage) → (get_call_id (get_call_id m).1).1 ≡ (get_call_id m).1
unfolding get_call_id
get_call_id-again m =
    let plain = λ (n : SipMessage).
      header_field-message [] (λ h. h.value) (index_header (codes "CALL-ID") n) in
    plain (get_call_id m).1
    ∙ ap (λ n. (index_header (codes "CALL-ID") n).1) (plain m)
    ∙ index_header-again (codes "CALL-ID") m
    ∙ sym (plain m)

call_id_of-headers : (m n : SipMessage) → m.headers ≡ n.headers → call_id_of m ≡ call_id_of n
unfolding get_call_id index_header
call_id_of-headers m n same = elim (Option-cases (find_header (codes "CALL-ID") m.headers)) [
  | inl absent ↦ ground (arith, absent, ap (find_header (codes "CALL-ID")) same)
  | inr (h, present) ↦ ground (arith, present, ap (find_header (codes "CALL-ID")) same)
]

Complete-headers : (m n : SipMessage) → n.headers ≡ m.headers → Complete m → Complete n
Complete-headers m n same c =
    let has : (name : Text) → Has name m → Has name n =
      λ name h. (h.0, ap (find_header name) same ∙ h.1) in
    record {
      via = has (codes "VIA") c.via;
      from = has (codes "FROM") c.from;
      to = has (codes "TO") c.to;
      call_id = has (codes "CALL-ID") c.call_id;
      c_sequence = has (codes "CSEQ") c.c_sequence;
      listed = (c.listed.0, ap descriptors same ∙ c.listed.1);
    }

-- The re-INVITE flag is not read by an accessor.
pub marked-SameRequest :
    (m n : SipMessage) → SameRequest m n → SameRequest m (record n { reinvite_flag = true })
marked-SameRequest m n s = record {
  kind = s.kind;
  message_type = s.message_type;
  bodies = s.bodies;
  logger = s.logger;
  call_id = call_id_of-headers (record n { reinvite_flag = true }) n refl ∙ s.call_id;
  complete = λ c. Complete-headers n (record n { reinvite_flag = true }) refl (s.complete c);
  missing = s.missing;
}

pub located-SameRequest :
    (m n : SipMessage) (channel : ℕ)
    → SameRequest m n
    → SameRequest m (record n { channel_id = channel })
located-SameRequest m n channel s = record {
  kind = s.kind;
  message_type = s.message_type;
  bodies = s.bodies;
  logger = s.logger;
  call_id = call_id_of-headers (record n { channel_id = channel }) n refl ∙ s.call_id;
  complete = λ c. Complete-headers n (record n { channel_id = channel }) refl (s.complete c);
  missing = s.missing;
}
