-- ===== src/SipInterface/Tests.antt =====
-- A call from its INVITE to its BYE.
use sip_processing.Prelude.{
  pos, inl, ◌+◌, ◌^◌, ◌<◌, ◌≡◌, refl, true, false, List, [], ◌∷◌, ◌++◌, map, Option, none, some,
  Text, text_eq, codes, arith,
}
use sip_processing.SipMessage.{
  BodyType, get_body, SipMessage, SipHeader, SipMessageType, invite, ack, bye, cancel,
  TransportType, find_header, index_header, descriptors, get_call_id, get_headers, get_from, get_to,
  get_c_sequence, get_response_via_content,
}
use sip_processing.SipMessage.Accessors.{Complete}
use sip_processing.SipDialogue.{SipDialogue, SipTransaction, create}
use sip_processing.DialogueManager.{Manager, find_call, initial, update_transaction}
use sip_processing.DialogueManager.Valid.{lookup, initial-IsValid}
use sip_processing.DialogueManager.Transaction.{Updated, update_transaction-Updated}
use sip_processing.SipRequest.{build_trying_response, build_ok_response}
use sip_processing.SipInterface.{get_media_offer, Effect, dialogue_of, destination, process_message}
use sip_processing.SipInterface.Abstract.{notice_of, sent, rung, answered, ended}
use sip_processing.SipInterface.Step.{Step, process_message-Step}
use sip_processing.SipInterface.MissingHeader.{Lacks, to, process_message-MissingHeader}
use sip_processing.SipInterface.Offer.{get_media_offer-process_message}
use sip_processing.SipInterface.Reach.{Reached, start, next, IsLive, Reached-IsLive}

abbrev header : Text → Text → SipHeader
header name value = record {
  field_name = name;
  value = value;
  transport_type = TransportType.udp;
  remote_address = codes "10.0.0.1";
  remote_branch = codes "z9";
  remote_port = pos 5062;
}

abbrev request : SipMessageType → SipMessage
request t = record {
  is_request = true;
  message_type = t;
  headers =
      (codes "CALL-ID", some (header (codes "Call-ID") (codes "abc")))
      ∷ (codes "CSEQ", some (header (codes "CSeq") (codes "1 INVITE")))
      ∷ (codes "FROM", some (header (codes "From") (codes "alice")))
      ∷ (codes "TO", some (header (codes "To") (codes "bob")))
      ∷ (codes "VIA", some (header (codes "Via") (codes "SIP/2.0/UDP 10.0.0.1:5062")))
      ∷ [];
  bodies = (BodyType.sdp, codes "v=0") ∷ [];
  channel_id = 0;
  reinvite_flag = false;
  logger = true;
}

request-Complete : (t : SipMessageType) → Complete (request t)
unfolding find_header descriptors text_eq
request-Complete t = record {
  via = (_, refl);
  from = (_, refl);
  to = (_, refl);
  call_id = (_, refl);
  c_sequence = (_, refl);
  listed = (_, refl);
}

room : initial.last_channel_id + 1 < 2 ^ 32
room = omega arith

-- What a message leads to; a message that uses a null pointer leads nowhere.
abbrev after : Manager → SipMessage → Manager × List Effect
after g m = elim (process_message g m) [ none ↦ (g, []) | some r ↦ r ]

abbrev ringing_call : Manager × List Effect
ringing_call = after initial (request invite)

ringing_call_run : process_message initial (request invite) ≡ some ringing_call
unfolding process_message update_transaction create get_call_id index_header text_eq dialogue_of
    build_trying_response get_response_via_content destination get_headers get_from get_to
    get_c_sequence
ringing_call_run = refl

-- The notices of a call that is answered and ended by a BYE.
whole_call :
    map notice_of (
      ringing_call.1
      ++ ((after ringing_call.0 (request ack)).1
          ++ (after (after ringing_call.0 (request ack)).0 (request bye)).1))
    ≡ sent ∷ rung 1 ∷ answered 1 ∷ sent ∷ ended 1 200 ∷ []
unfolding process_message update_transaction create get_call_id index_header text_eq dialogue_of
    build_trying_response get_response_via_content destination get_headers get_from get_to
    get_c_sequence build_ok_response
whole_call = refl

-- A CANCEL while the call rings.
cancelled_call : map notice_of (after ringing_call.0 (request cancel)).1 ≡ ended 1 487 ∷ []
unfolding process_message update_transaction create get_call_id index_header text_eq dialogue_of
    build_trying_response get_response_via_content destination get_headers get_from get_to
    get_c_sequence
cancelled_call = refl

update_transaction-Updated_example :
    (r : Option SipTransaction × SipMessage × Manager) × (update_transaction initial
        (request invite)
      ≡ some r)
    × Updated initial (request invite) r
update_transaction-Updated_example =
    update_transaction-Updated initial initial-IsValid room (request invite)

process_message-Step_example : Step initial (request invite) ringing_call
process_message-Step_example =
    process_message-Step initial initial-IsValid room (request invite) ringing_call ringing_call_run

-- An INVITE whose log is not set, as the constructor of a request leaves it.
abbrev mute_request : SipMessage
mute_request = record (request invite) { logger = false }

ringing_call-Reached : Reached ringing_call.0 ([] ++ ringing_call.1)
ringing_call-Reached = next initial [] (request invite) ringing_call start room ringing_call_run

abbrev abc : Text
abc = codes "abc"

ringing_call_lookup : (d : SipDialogue) × (lookup ringing_call.0 abc ≡ some d)
unfolding process_message update_transaction create get_call_id index_header text_eq dialogue_of
    build_trying_response get_response_via_content destination get_headers get_from get_to
    get_c_sequence find_call
ringing_call_lookup = (_, refl)

Reached-IsLive_example : IsLive ringing_call_lookup.0.dialogue_state
Reached-IsLive_example =
    Reached-IsLive ringing_call.0 ([] ++ ringing_call.1) ringing_call-Reached abc
      ringing_call_lookup.0 ringing_call_lookup.1

-- The INVITE without its To header.
abbrev without_to : SipMessage
without_to = record (request invite) {
  headers =
      (codes "CALL-ID", some (header (codes "Call-ID") (codes "abc")))
      ∷ (codes "CSEQ", some (header (codes "CSeq") (codes "1 INVITE")))
      ∷ (codes "FROM", some (header (codes "From") (codes "alice")))
      ∷ (codes "VIA", some (header (codes "Via") (codes "SIP/2.0/UDP 10.0.0.1:5062")))
      ∷ [];
}

without_to-Lacks : Lacks without_to
unfolding find_header text_eq
without_to-Lacks = inl (codes "TO", to, inl refl)

process_message-MissingHeader_example : process_message initial without_to ≡ none
process_message-MissingHeader_example =
    process_message-MissingHeader initial initial-IsValid room without_to refl refl without_to-Lacks

get_media_offer-process_message_example :
    get_media_offer ringing_call.0 1 ≡ get_body BodyType.sdp (request invite)
unfolding find_call
get_media_offer-process_message_example =
    get_media_offer-process_message initial initial-IsValid room (request invite) refl refl refl
      ringing_call ringing_call_run
