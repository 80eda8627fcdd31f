-- ===== src/SipInterface/Mute.antt =====
-- What `processMessage` of src/components/sip/SipInterface.cpp does for a message whose pointer to the log is not set.
use mathlib.Core.Path.{subst}
use sip_processing.Prelude.{
  ℕ, ◌≡◌, refl, sym, inl, inr, Bool, true, false, not, ◌&&◌, List, [], ◌∷◌, Option, none, some,
  Text, codes, arith, Option-cases,
}
use sip_processing.SipMessage.{
  SipMessage, SipMessageType, invite, ack, bye, cancel, options, subscribe, register, prack, notify,
  publish, info, refer, message, update, trying, progress, ringing, service_unavailable,
}
use sip_processing.SipMessage.Accessors.{call_id_of, Complete}
use sip_processing.SipMessage.Whole.{
  get_call_id-Complete, get_remote_address-Complete, get_remote_port-Complete,
  get_transport_type-Complete, get_response_via_content-mute,
}
use sip_processing.SipRequest.{
  build_standard_base_response, build_standard_full_response, build_ok_response,
  build_trying_response, build_subscription_accepted_response,
}
use sip_processing.SipDialogue.{
  SipDialogue, DialogueState, no_state, incoming, outgoing, connected, clearing, cleared,
}
use sip_processing.DialogueManager.{Manager, find_call, retrieve_call}
use sip_processing.DialogueManager.Valid.{lookup}
use sip_processing.SipInterface.Step.{addressed}
use sip_processing.SipInterface.Abstract.{
  Notice, sent, rung, answered, ended, recorded, reaction, notices,
}
use sip_processing.SipInterface.{
  Effect, ack_step, cancel_step, dialogue_of, destination, invite_effects, bye_step, process_invite,
  process_ack, process_bye, process_cancel, process_options, process_subscribe, dispatch,
}

-- Whether a message is sent among these notices.
abbrev pub sends : List Notice → Bool
sends [] = false
sends (sent ∷ ns) = true
sends (rung channel ∷ ns) = sends ns
sends (answered channel ∷ ns) = sends ns
sends (ended channel code ∷ ns) = sends ns
sends (recorded ∷ ns) = sends ns

-- The reaction table has a response for the message.
abbrev pub must_answer : Manager → SipMessage → Bool
must_answer g m = m.is_request && sends (notices m.message_type (addressed g m))

-- The code returns, or it uses a null pointer.
pub data Fate (r : Option (Manager × List Effect)) : Bool → Type 0 where
  returns : (s : Manager × List Effect) → r ≡ some s → Fate r true
  faults : r ≡ none → Fate r false

pub returns-Fate :
    (r : Option (Manager × List Effect)) (b : Bool) (s : Manager × List Effect)
    → b ≡ true
    → r ≡ some s
    → Fate r b
returns-Fate r b s e run = subst (Fate r) (sym e) (returns s run)

dialogue_of-lookup :
    (g : Manager) (call : Text) (d : SipDialogue)
    → lookup g call ≡ some d
    → (p : ℕ) × (dialogue_of g call ≡ some (p, d))
unfolding dialogue_of retrieve_call
dialogue_of-lookup g call d at = elim (Option-cases (find_call call g.call_id_to_dialogue)) [
  | inl absent ↦ absurd (ground (arith, absent, at))
  | inr (p, present) ↦ (p, ground (arith, present, at))
]

-- An ACK and a CANCEL get no response.
ack-silent :
    (s : DialogueState) (r : Bool) (channel : ℕ) → not (sends (reaction ack s r channel)) ≡ true
ack-silent no_state r channel = refl
ack-silent incoming r channel = refl
ack-silent outgoing r channel = refl
ack-silent connected r channel = refl
ack-silent clearing r channel = refl
ack-silent cleared r channel = refl

cancel-silent :
    (s : DialogueState) (r : Bool) (channel : ℕ) → not (sends (reaction cancel s r channel)) ≡ true
cancel-silent no_state r channel = refl
cancel-silent incoming r channel = refl
cancel-silent outgoing r channel = refl
cancel-silent connected r channel = refl
cancel-silent clearing r channel = refl
cancel-silent cleared r channel = refl

module _ (m : SipMessage) (c : Complete m) where
  pub destination-Complete : (destination m).1 ≡ m
  unfolding destination
  destination-Complete = ground (
    arith,
    get_remote_address-Complete m c,
    get_remote_port-Complete m c,
    get_transport_type-Complete m c,
  )

module _ (m : SipMessage) (c : Complete m) (unset : m.logger ≡ false) where
  base_response-mute : (method tag : Text) → build_standard_base_response method tag m ≡ none
  unfolding build_standard_base_response
  base_response-mute method tag = ground (arith, get_response_via_content-mute m c unset)

  full_response-mute : (method tag : Text) → build_standard_full_response method tag m ≡ none
  unfolding build_standard_full_response
  full_response-mute method tag = ground (arith, base_response-mute method tag)

  invite_effects-mute : (d : SipDialogue) → invite_effects d m ≡ none
  unfolding invite_effects build_trying_response
  invite_effects-mute d =
      ground
        (arith, destination-Complete m c, full_response-mute (codes "100 Trying") d.response_tag)

  subscribe-mute : (g : Manager) → process_subscribe g m ≡ none
  unfolding process_subscribe build_subscription_accepted_response
  subscribe-mute g =
      ground (
        arith,
        destination-Complete m c,
        base_response-mute (codes "200 OK") (codes "subscription"),
      )

  bye_step-Fate :
      (s : DialogueState) (g : Manager) (p : ℕ) (d : SipDialogue) (call : Text) (r : Bool)
      → Fate (bye_step s g p d call m) (not (sends (reaction bye s r d.channel_id)))
  unfolding bye_step build_ok_response
  bye_step-Fate connected g p d call true =
      faults (
        ground
          (arith, destination-Complete m c, full_response-mute (codes "200 OK") d.response_tag))
  bye_step-Fate connected g p d call false =
      faults (
        ground
          (arith, destination-Complete m c, full_response-mute (codes "200 OK") d.response_tag))
  bye_step-Fate clearing g p d call r = returns _ refl
  bye_step-Fate no_state g p d call r = returns _ refl
  bye_step-Fate incoming g p d call r = returns _ refl
  bye_step-Fate outgoing g p d call r = returns _ refl
  bye_step-Fate cleared g p d call r = returns _ refl

  module _ (g : Manager) (p : ℕ) (d : SipDialogue)
      (at : dialogue_of g (call_id_of m) ≡ some (p, d)) where
    invite-Fate : Fate (process_invite g m) false
    unfolding process_invite
    invite-Fate = faults (ground (arith, at, get_call_id-Complete m c, invite_effects-mute d))

    bye-Fate :
        Fate
          (process_bye g m)
          (not (sends (reaction bye d.dialogue_state d.recording_state d.channel_id)))
    unfolding process_bye
    bye-Fate =
        let run : process_bye g m ≡ bye_step d.dialogue_state g p d (call_id_of m) m =
          ground (arith, at, get_call_id-Complete m c) in
        subst
          (λ r. Fate r (not (sends (reaction bye d.dialogue_state d.recording_state d.channel_id))))
          (sym run) (bye_step-Fate d.dialogue_state g p d (call_id_of m) d.recording_state)

    found-Fate :
        (t : SipMessageType)
        → Fate
            (dispatch t g m)
            (not (sends (reaction t d.dialogue_state d.recording_state d.channel_id)))
    unfolding dispatch process_ack process_cancel process_options
    found-Fate invite = invite-Fate
    found-Fate ack =
        returns-Fate _ _ (ack_step d.dialogue_state g p d (call_id_of m))
          (ack-silent d.dialogue_state d.recording_state d.channel_id) (ground (arith, at))
    found-Fate bye = bye-Fate
    found-Fate cancel =
        returns-Fate _ _ (g, cancel_step d.dialogue_state d (call_id_of m))
          (cancel-silent d.dialogue_state d.recording_state d.channel_id) (ground (arith, at))
    found-Fate options = returns _ refl
    found-Fate subscribe = faults (subscribe-mute g)
    found-Fate SipMessageType.unknown = returns _ refl
    found-Fate register = returns _ refl
    found-Fate prack = returns _ refl
    found-Fate notify = returns _ refl
    found-Fate publish = returns _ refl
    found-Fate info = returns _ refl
    found-Fate refer = returns _ refl
    found-Fate message = returns _ refl
    found-Fate update = returns _ refl
    found-Fate trying = returns _ refl
    found-Fate progress = returns _ refl
    found-Fate ringing = returns _ refl
    found-Fate SipMessageType.ok = returns _ refl
    found-Fate service_unavailable = returns _ refl

  pub dispatch-Fate :
      (g : Manager) (d : SipDialogue) (t : SipMessageType)
      → lookup g (call_id_of m) ≡ some d
      → Fate
          (dispatch t g m)
          (not (sends (reaction t d.dialogue_state d.recording_state d.channel_id)))
  dispatch-Fate g d t present =
      let (p, at) = dialogue_of-lookup g (call_id_of m) d present in found-Fate g p d at t
