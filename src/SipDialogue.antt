-- ===== src/SipDialogue.antt =====
-- src/components/sip/SipDialogue.h and .cpp, and SipTransaction.h.
use sip_processing.Prelude.{ℕ, Bool, false, [], Option, none, some, Text, codes}
use sip_processing.SipMessage.{
  SipMessage, SipMessageType, invite, TransportType, BodyType, get_body,
}

-- A transaction always has its request: a null `sipRequest` comes only from the constructor that
-- no code but the unimplemented `SipInterface::getTransaction` calls.
pub record SipTransaction : Type 0 where
  pub channel_id : ℕ
  pub sip_request : SipMessage
  pub sdp_offer : Text

pub data DialogueState : Type 0 where
  no_state incoming outgoing connected clearing cleared : DialogueState

pub record SipDialogue : Type 0 where
  pub call_id : Text
  pub channel_id : ℕ
  pub current_transaction : Option SipTransaction
  pub response_tag : Text
  pub dialogue_state : DialogueState
  pub recording_state : Bool
  pub transport_type : TransportType

-- The switch of `setCurrentTransaction`: only an INVITE brings a session description.
unfoldable pub offer_of : SipMessageType → SipMessage → Text
unfolding get_body
offer_of invite request = get_body BodyType.sdp request
offer_of _ request = []

unfoldable pub set_current_transaction : SipMessage → SipDialogue → SipDialogue
unfolding offer_of
set_current_transaction request d = elim d.current_transaction [
  | some t ↦ d
  | none ↦ record d {
    current_transaction = some (record {
      channel_id = d.channel_id;
      sip_request = request;
      sdp_offer = offer_of request.message_type request;
    });
  }
]

-- The constructor; `call_id` is the request's Call-ID.
unfoldable pub create : ℕ → Text → SipMessage → SipDialogue
unfolding set_current_transaction
create channel_id call_id request = set_current_transaction request (record {
  call_id = call_id;
  channel_id = channel_id;
  current_transaction = none;
  response_tag = codes "temporary-response-tag";
  dialogue_state = no_state;
  recording_state = false;
  transport_type = TransportType.udp;
})

abbrev pub end_current_transaction : SipDialogue → SipDialogue
end_current_transaction d = record d { current_transaction = none }

abbrev pub set_state : DialogueState → SipDialogue → SipDialogue
set_state s d = record d { dialogue_state = s }

abbrev pub set_recording : Bool → SipDialogue → SipDialogue
set_recording b d = record d { recording_state = b }

-- `getStateStr`; a C string ends at its first zero.
unfoldable pub get_state_str : DialogueState → Text
get_state_str no_state = codes "NONE"
get_state_str incoming = codes "INCOMING"
get_state_str outgoing = codes "OUTGOING"
get_state_str connected = codes "CONNECTED"
get_state_str clearing = codes "CLEARING"
get_state_str cleared = codes "CLEARED"
