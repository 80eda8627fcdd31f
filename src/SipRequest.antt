-- ===== src/SipRequest.antt =====
-- src/components/sip/messages/SipRequest.cpp, SipInviteRequest.cpp and SipSubscribeRequest.h: the
-- responses to a request, as text. A stream of `<<` is a concatenation.
use sip_processing.Prelude.{◌>>=◌, ℕ, ◌++◌, Option, some, Text, codes, decimal, length}
use sip_processing.SipMessage.{
  SipMessage, get_response_via_content, get_from, get_to, get_call_id, get_c_sequence,
}

abbrev pub crlf : Text
crlf = codes "\r\n"

unfoldable pub build_standard_base_response : Text → Text → SipMessage → Option (Text × SipMessage)
build_standard_base_response method local_tag m = do
  via ← get_response_via_content m
  let (from, m1) = get_from m
  let (to, m2) = get_to m1
  let (call_id, m3) = get_call_id m2
  let (c_seq, m4) = get_c_sequence m3
  some (
    codes "SIP/2.0 "
        ++ (method
            ++ (crlf
                ++ (codes "Via: "
                    ++ (via
                        ++ (crlf
                            ++ (codes "From: "
                                ++ (from
                                    ++ (crlf
                                        ++ (codes "To: "
                                            ++ (to
                                                ++ (codes ";tag="
                                                    ++ (local_tag
                                                        ++ (crlf
                                                            ++ (codes "Call-ID: "
                                                            ++ (call_id
                                                            ++ (crlf
                                                            ++ (codes "CSeq: "
                                                            ++ (c_seq
                                                            ++ (crlf
                                                            ++ codes
                                                            "Contact: <sip:me@192.168.0.4>\r\nUser-Agent: Core-0-1\r\n"))))))))))))))))))),
    m4,
  )

-- A response whose base is followed by `rest`.
abbrev pub with_rest : Text → Option (Text × SipMessage) → Option (Text × SipMessage)
with_rest rest r = r >>= λ p. some (p.0 ++ rest, p.1)

unfoldable pub build_standard_full_response : Text → Text → SipMessage → Option (Text × SipMessage)
unfolding build_standard_base_response
build_standard_full_response method local_tag m =
    with_rest (codes "Content-Length: 0\r\n\r\n") (build_standard_base_response method local_tag m)

unfoldable pub build_ok_response : Text → SipMessage → Option (Text × SipMessage)
unfolding build_standard_full_response
build_ok_response local_tag m = build_standard_full_response (codes "200 OK") local_tag m

unfoldable pub build_trying_response : Text → SipMessage → Option (Text × SipMessage)
unfolding build_standard_full_response
build_trying_response local_tag m = build_standard_full_response (codes "100 Trying") local_tag m

unfoldable pub build_ringing_response : Text → SipMessage → Option (Text × SipMessage)
unfolding build_standard_full_response
build_ringing_response local_tag m = build_standard_full_response (codes "180 Ringing") local_tag m

-- The lines of an answer behind the base response, and the session description.
unfoldable pub answer_rest : Text → Text
unfolding decimal
answer_rest sdp_answer =
    codes
      "Accept: application/sdp\r\nAllow: INVITE, ACK, BYE, CANCEL, INFO, PRACK, REFER, UPDATE, NOTIFY\r\n"
    ++ (codes
          "Supported: siprec, record-aware\r\nContent-Type: application/sdp\r\nContent-Disposition: session\r\n"
        ++ (codes "Content-Length: "
            ++ (decimal (length sdp_answer) ++ (crlf ++ (crlf ++ sdp_answer)))))

unfoldable pub build_answer_response : Text → Text → SipMessage → Option (Text × SipMessage)
unfolding build_standard_base_response answer_rest
build_answer_response local_tag sdp_answer m =
    with_rest (answer_rest sdp_answer) (build_standard_base_response (codes "200 OK") local_tag m)

unfoldable pub build_service_unavailable_response :
    Text → ℕ → SipMessage → Option (Text × SipMessage)
unfolding build_standard_base_response decimal
build_service_unavailable_response local_tag retry_after m =
    with_rest
      (codes "Retry-After: " ++ (decimal retry_after ++ codes "\r\nContent-Length: 0\r\n\r\n"))
      (build_standard_base_response (codes "503 Service Unavailable") local_tag m)

unfoldable pub build_moved_temporarily_response :
    Text → Text → ℕ → SipMessage → Option (Text × SipMessage)
unfolding build_standard_base_response decimal
build_moved_temporarily_response local_tag alternate_address expires_after m =
    with_rest
      (codes "Contact: "
        ++ (alternate_address
            ++ (codes ";expires="
                ++ (decimal expires_after ++ codes "\r\nContent-Length: 0\r\n\r\n"))))
      (build_standard_base_response (codes "302 Moved Temporarily") local_tag m)

unfoldable pub build_subscription_accepted_response : Text → SipMessage → Option (Text × SipMessage)
unfolding build_standard_base_response
build_subscription_accepted_response local_tag m =
    build_standard_base_response (codes "200 OK") local_tag m
