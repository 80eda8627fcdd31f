-- ===== src/SipMessage/Nulls.antt =====
-- A null pointer in the header map stays there, and an accessor of a missing header puts one in.
use mathlib.Core.Path.{subst}
use sip_processing.Prelude.{
  pos, ◌≡◌, ◌⊎◌, refl, sym, inl, inr, [], ◌∷◌, ◌++◌, none, some, Text, codes, text_eq, text_eq_iff,
  arith, Option-cases, Bool-cases,
}
use sip_processing.SipMessage.{
  SipMessage, SipHeader, HeaderMap, TransportType, header_field, find_header, index_header,
  get_call_id, get_from, get_to, get_c_sequence, get_remote_address, get_remote_port,
  get_transport_type, descriptors,
}
use sip_processing.SipMessage.Accessors.{
  Missing, index_header-Missing, find_header-snoc, header_field-message,
}

-- Some header of the message is a null pointer.
abbrev pub HasNull : SipMessage → Type 0
HasNull m = descriptors m.headers ≡ none

descriptors-found :
    (name : Text) (hs : HeaderMap) → find_header name hs ≡ some none → descriptors hs ≡ none
unfolding find_header descriptors
descriptors-found name [] e = absurd (cc)
descriptors-found name ((n, none) ∷ hs) e = refl
descriptors-found name ((n, some h) ∷ hs) e = elim (Bool-cases (text_eq n name)) [
  | inl y ↦ absurd (ground (arith, e, y))
  | inr other ↦ ground (arith, descriptors-found name hs (ground (arith, e, other)))
]

descriptors-append : (hs ks : HeaderMap) → descriptors hs ≡ none → descriptors (hs ++ ks) ≡ none
unfolding descriptors
descriptors-append [] ks e = absurd (cc)
descriptors-append ((n, none) ∷ hs) ks e = refl
descriptors-append ((n, some h) ∷ hs) ks e = elim (Option-cases (descriptors hs)) [
  | inl null ↦ ground (arith, descriptors-append hs ks null)
  | inr (ds, whole) ↦ absurd (ground (arith, e, whole))
]

descriptors-snoc : (name : Text) (hs : HeaderMap) → descriptors (hs ++ (name, none) ∷ []) ≡ none
unfolding descriptors
descriptors-snoc name [] = refl
descriptors-snoc name ((n, none) ∷ hs) = refl
descriptors-snoc name ((n, some h) ∷ hs) = ground (arith, descriptors-snoc name hs)

index_header-HasNull : (name : Text) (m : SipMessage) → HasNull m → HasNull (index_header name m).1
unfolding index_header
index_header-HasNull name m h = elim (Option-cases (find_header name m.headers)) [
  | inl absent ↦ ground (arith, absent, descriptors-snoc name m.headers)
  | inr (o, present) ↦ ground (arith, present, h)
]

index_header-own : (name : Text) (m : SipMessage) → Missing name m → HasNull (index_header name m).1
unfolding index_header
index_header-own name m (inl absent) = ground (arith, absent, descriptors-snoc name m.headers)
index_header-own name m (inr null) = ground (arith, null, descriptors-found name m.headers null)

module _ {ℓ} {A : Type ℓ} (missing : A) (read : SipHeader → A) (name : Text) (m : SipMessage) where
  pub header_field-HasNull : HasNull m → HasNull (header_field missing read (index_header name m)).1
  header_field-HasNull h =
      subst HasNull (sym (header_field-message missing read (index_header name m)))
        (index_header-HasNull name m h)

  pub header_field-missing :
      Missing name m → HasNull (header_field missing read (index_header name m)).1
  header_field-missing h =
      subst HasNull (sym (header_field-message missing read (index_header name m)))
        (index_header-own name m h)

-- The header is missing, or some header is a null pointer by now.
abbrev pub Doomed : Text → SipMessage → Type 0
Doomed name m = Missing name m ⊎ HasNull m

module _ {ℓ} {A : Type ℓ} (missing : A) (read : SipHeader → A) (m : SipMessage) where
  pub header_field-Doomed :
      (name other : Text)
      → Doomed name m
      → Doomed name (header_field missing read (index_header other m)).1
  header_field-Doomed name other (inl h) = inl (
      subst (Missing name) (sym (header_field-message missing read (index_header other m)))
        (index_header-Missing name other m h))
  header_field-Doomed name other (inr h) = inr (header_field-HasNull missing read other m h)

  pub header_field-own :
      (name : Text) → Doomed name m → HasNull (header_field missing read (index_header name m)).1
  header_field-own name (inl h) = header_field-missing missing read name m h
  header_field-own name (inr h) = header_field-HasNull missing read name m h

abbrev pub value_of : SipHeader → Text
value_of h = h.value

module _ (m : SipMessage) where
  pub get_from-HasNull : HasNull m → HasNull (get_from m).1
  unfolding get_from
  get_from-HasNull = header_field-HasNull [] value_of (codes "FROM") m

  pub get_to-HasNull : HasNull m → HasNull (get_to m).1
  unfolding get_to
  get_to-HasNull = header_field-HasNull [] value_of (codes "TO") m

  pub get_call_id-HasNull : HasNull m → HasNull (get_call_id m).1
  unfolding get_call_id
  get_call_id-HasNull = header_field-HasNull [] value_of (codes "CALL-ID") m

  pub get_c_sequence-HasNull : HasNull m → HasNull (get_c_sequence m).1
  unfolding get_c_sequence
  get_c_sequence-HasNull = header_field-HasNull [] value_of (codes "CSEQ") m

  pub get_from-Doomed : (name : Text) → Doomed name m → Doomed name (get_from m).1
  unfolding get_from
  get_from-Doomed name = header_field-Doomed [] value_of m name (codes "FROM")

  pub get_to-Doomed : (name : Text) → Doomed name m → Doomed name (get_to m).1
  unfolding get_to
  get_to-Doomed name = header_field-Doomed [] value_of m name (codes "TO")

  pub get_call_id-Doomed : (name : Text) → Doomed name m → Doomed name (get_call_id m).1
  unfolding get_call_id
  get_call_id-Doomed name = header_field-Doomed [] value_of m name (codes "CALL-ID")

  pub get_from-own : Doomed (codes "FROM") m → HasNull (get_from m).1
  unfolding get_from
  get_from-own = header_field-own [] value_of m (codes "FROM")

  pub get_to-own : Doomed (codes "TO") m → HasNull (get_to m).1
  unfolding get_to
  get_to-own = header_field-own [] value_of m (codes "TO")

  pub get_call_id-own : Doomed (codes "CALL-ID") m → HasNull (get_call_id m).1
  unfolding get_call_id
  get_call_id-own = header_field-own [] value_of m (codes "CALL-ID")

  pub get_c_sequence-own : Doomed (codes "CSEQ") m → HasNull (get_c_sequence m).1
  unfolding get_c_sequence
  get_c_sequence-own = header_field-own [] value_of m (codes "CSEQ")

  pub get_remote_address-Doomed :
      (name : Text) → Doomed name m → Doomed name (get_remote_address m).1
  unfolding get_remote_address
  get_remote_address-Doomed name =
      header_field-Doomed [] (λ h. h.remote_address) m name (codes "VIA")

  pub get_remote_port-Doomed : (name : Text) → Doomed name m → Doomed name (get_remote_port m).1
  unfolding get_remote_port
  get_remote_port-Doomed name =
      header_field-Doomed (pos 5060) (λ h. h.remote_port) m name (codes "VIA")

  pub get_transport_type-Doomed :
      (name : Text) → Doomed name m → Doomed name (get_transport_type m).1
  unfolding get_transport_type
  get_transport_type-Doomed name =
      header_field-Doomed TransportType.udp (λ h. h.transport_type) m name (codes "VIA")

-- The header has a null pointer.
abbrev pub Null : Text → SipMessage → Type 0
Null name m = find_header name m.headers ≡ some none

index_header-Null :
    (name : Text) (m : SipMessage) → Missing name m → Null name (index_header name m).1
unfolding index_header
index_header-Null name m (inl absent) =
    ground (arith, absent, find_header-snoc name name m.headers, text_eq_iff name name)
index_header-Null name m (inr null) = ground (arith, null)

header_field-Null {ℓ} :
    {A : Type ℓ} (missing : A) (read : SipHeader → A) (name : Text) (m : SipMessage)
    → Missing name m
    → Null name (header_field missing read (index_header name m)).1
header_field-Null missing read name m h =
    subst (Null name) (sym (header_field-message missing read (index_header name m)))
      (index_header-Null name m h)

pub get_remote_address-Null :
    (m : SipMessage) → Missing (codes "VIA") m → Null (codes "VIA") (get_remote_address m).1
unfolding get_remote_address
get_remote_address-Null m = header_field-Null [] (λ h. h.remote_address) (codes "VIA") m

pub get_remote_port-Null :
    (m : SipMessage) → Missing (codes "VIA") m → Null (codes "VIA") (get_remote_port m).1
unfolding get_remote_port
get_remote_port-Null m = header_field-Null (pos 5060) (λ h. h.remote_port) (codes "VIA") m

pub get_transport_type-Null :
    (m : SipMessage) → Missing (codes "VIA") m → Null (codes "VIA") (get_transport_type m).1
unfolding get_transport_type
get_transport_type-Null m =
    header_field-Null TransportType.udp (λ h. h.transport_type) (codes "VIA") m
