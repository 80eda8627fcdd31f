-- ===== src/SipHeaders/Tests.antt =====
-- src/components/sip/headers: a Via header.
use sip_processing.SipMessage.{get_response_value}
use sip_processing.SipHeaders.Tokens.{via_of, via_break}
use sip_processing.SipHeaders.RoundTrip.{via_header-get_response_value}
use sip_processing.Buffers.Words.{passes-Unstopped}
use sip_processing.Prelude.{Text, arith, ◌≡◌, refl, some, none, codes, pos}
use sip_processing.Buffers.{mapped_buffer}
use sip_processing.SipMessage.{TransportType}
use sip_processing.SipHeaders.{via_header, plain_header}

read_via :
    via_header (mapped_buffer (codes "SIP/2.0/TCP 10.0.0.1:5062;branch=z9hG4bK;rport=7"))
    ≡ some
        (record (plain_header
          (codes "Via")
          (codes "SIP/2.0/TCP 10.0.0.1:5062;branch=z9hG4bK;rport=7")) {
            transport_type = TransportType.tcp;
            remote_address = codes "10.0.0.1";
            remote_branch = codes "z9hG4bK";
            remote_port = pos 5062;
          })
unfolding via_header
read_via = refl

-- A value without the second section leaves the transport type unset.
one_section : via_header (mapped_buffer (codes "SIP/2.0/TCP")) ≡ none
unfolding via_header
one_section = refl

abbrev address : Text
address = codes "10.0.0.1"

abbrev branch : Text
branch = codes "z9hG4bK"

via_header-get_response_value_example :
    via_header (
      mapped_buffer (
        get_response_value
          (via_of (codes "SIP/2.0/TCP 10.0.0.1") TransportType.tcp address branch 5061)))
    ≡ some (
        via_of
          (get_response_value
            (via_of (codes "SIP/2.0/TCP 10.0.0.1") TransportType.tcp address branch 5061))
          TransportType.tcp
          address
          branch
          5061)
via_header-get_response_value_example =
    via_header-get_response_value (codes "SIP/2.0/TCP 10.0.0.1") address branch TransportType.tcp
      5061 (λ e. cc) ((λ e. cc), passes-Unstopped via_break address refl)
      ((λ e. cc), passes-Unstopped via_break branch refl) (omega arith)
