-- ===== src/SipMessage/Whole.antt =====
-- The accessors leave a complete message as it is.
use sip_processing.Prelude.{pos, true, false, none, ◌≡◌, ap, [], some, Text, codes, arith}
use sip_processing.SipMessage.{
  SipMessage, header_field, TransportType, SipHeader, index_header, get_call_id, get_from, get_to,
  get_c_sequence, get_remote_address, get_remote_port, get_transport_type, get_response_via_content,
  get_response_value,
}
use sip_processing.SipMessage.Accessors.{Has, Complete}

index_header-Has :
    (name : Text) (m : SipMessage) (has : Has name m) → index_header name m ≡ (some has.0, m)
unfolding index_header
index_header-Has name m has = ground (arith, has.1)

-- An accessor leaves a message with the header as it is.
header_field-Has {ℓ} :
    {A : Type ℓ} (missing : A) (read : SipHeader → A) (name : Text) (m : SipMessage)
    → Has name m
    → (header_field missing read (index_header name m)).1 ≡ m
header_field-Has missing read name m has =
    ap (λ x. (header_field missing read x).1) (index_header-Has name m has)

module _ (m : SipMessage) (c : Complete m) where
  pub get_call_id-Complete : (get_call_id m).1 ≡ m
  unfolding get_call_id
  get_call_id-Complete = header_field-Has [] (λ h. h.value) (codes "CALL-ID") m c.call_id

  pub get_from-Complete : (get_from m).1 ≡ m
  unfolding get_from
  get_from-Complete = header_field-Has [] (λ h. h.value) (codes "FROM") m c.from

  pub get_to-Complete : (get_to m).1 ≡ m
  unfolding get_to
  get_to-Complete = header_field-Has [] (λ h. h.value) (codes "TO") m c.to

  pub get_c_sequence-Complete : (get_c_sequence m).1 ≡ m
  unfolding get_c_sequence
  get_c_sequence-Complete = header_field-Has [] (λ h. h.value) (codes "CSEQ") m c.c_sequence

  pub get_remote_address-Complete : (get_remote_address m).1 ≡ m
  unfolding get_remote_address
  get_remote_address-Complete = header_field-Has [] (λ h. h.remote_address) (codes "VIA") m c.via

  pub get_remote_port-Complete : (get_remote_port m).1 ≡ m
  unfolding get_remote_port
  get_remote_port-Complete = header_field-Has (pos 5060) (λ h. h.remote_port) (codes "VIA") m c.via

  pub get_transport_type-Complete : (get_transport_type m).1 ≡ m
  unfolding get_transport_type
  get_transport_type-Complete =
      header_field-Has TransportType.udp (λ h. h.transport_type) (codes "VIA") m c.via

  pub get_response_via_content-Complete :
      m.logger ≡ true → get_response_via_content m ≡ some (get_response_value (c.via).0)
  unfolding get_response_via_content
  get_response_via_content-Complete log = ground (arith, (c.via).1, log)

  -- Without the log there is no response.
  pub get_response_via_content-mute : m.logger ≡ false → get_response_via_content m ≡ none
  unfolding get_response_via_content
  get_response_via_content-mute unset = ground (arith, (c.via).1, unset)
