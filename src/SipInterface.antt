-- ===== src/SipInterface.antt =====
-- src/components/sip/SipInterface.h and .cpp: what a received message makes the interface do, and what
-- the application asks of it. The event handler and the UDP socket get their data as a list of
-- effects, in order. Where the order in which C++ evaluates arguments is open, they are taken from
-- left to right.
pub mod Abstract
pub mod Handlers
pub mod Step
pub mod Mute
pub mod Returns
pub mod Reach
pub mod MissingHeader
pub mod Offer
mod Tests
use mathlib.Core.Option
use sip_processing.Prelude.{
  ◌>>=◌, ℕ, ℤ, Bool, true, false, List, [], ◌∷◌, ◌++◌, Option, none, some, Text, codes,
  if◌then◌else◌, get_elem?,
}
use sip_processing.SipMessage.{
  SipMessage, SipMessageType, invite, ack, bye, cancel, options, subscribe, TransportType, BodyType,
  get_call_id, get_to, get_from, get_headers, get_remote_address, get_remote_port,
  get_transport_type,
}
use sip_processing.SipRequest.{
  build_trying_response, build_ok_response, build_answer_response,
  build_subscription_accepted_response,
}
use sip_processing.SipDialogue.{
  SipDialogue, DialogueState, incoming, connected, clearing, cleared, set_state, set_recording,
}
use sip_processing.DialogueManager.{
  Manager, retrieve_channel, retrieve_call, update_dialogue, update_transaction,
}

pub record Destination : Type 0 where
  pub address : Text
  pub port : ℤ
  pub transport : TransportType

pub data Effect : Type 0 where
  send : Destination → Text → Effect
  new_call : ℕ → Text → Text → Text → Text → List (Text × Text) → List (BodyType × Text) → Effect
  call_answered : ℕ → Text → Effect
  call_cleared : ℕ → Text → ℕ → Effect
  recording_started : ℕ → Text → ℕ → Text → Effect

-- The state and what it has caused; `none` is the use of a null pointer.
abbrev pub Outcome : Type 0
Outcome = Option (Manager × List Effect)

-- The dialogue that a handler finds for its request: its pointer and the object.
unfoldable pub dialogue_of : Manager → Text → Option (ℕ × SipDialogue)
unfolding retrieve_call
dialogue_of g call_id = elim (retrieve_call g call_id) [
  | none ↦ none
  | some p ↦ Option.map (λ d. (p, d)) (get_elem? g.dialogues p)
]

-- The first three arguments of a `sendMessage`.
unfoldable pub destination : SipMessage → Destination × SipMessage
unfolding get_remote_address get_remote_port get_transport_type
destination m =
    let (a, m1) = get_remote_address m in
    let (p, m2) = get_remote_port m1 in
    let (t, m3) = get_transport_type m2 in (record { address = a; port = p; transport = t }, m3)

-- What `processInvite` does with dialogue `d`.
unfoldable pub invite_effects : SipDialogue → SipMessage → Option (List Effect)
invite_effects d m0 = do
  let (to_address, m1) = destination m0
  r ← build_trying_response d.response_tag m1
  let (call_id, m2) = get_call_id r.1
  let (to, m3) = get_to m2
  let (from, m4) = get_from m3
  hs ← get_headers m4
  some
      (send to_address r.0 ∷ new_call d.channel_id call_id d.response_tag to from hs m4.bodies ∷ [])

unfoldable pub process_invite : Manager → SipMessage → Outcome
unfolding invite_effects
process_invite g request =
    let (call_id, m) = get_call_id request in
    elim (dialogue_of g call_id) [
      | none ↦ some (g, [])
      | some (p, d) ↦
          Option.map (λ es. (update_dialogue (set_state incoming) p g, es)) (invite_effects d m)
    ]

unfoldable pub ack_step : DialogueState → Manager → ℕ → SipDialogue → Text → Manager × List Effect
ack_step incoming g p d call_id =
    (update_dialogue (set_state connected) p g, call_answered d.channel_id call_id ∷ [])
ack_step _ g p d call_id = (g, [])

unfoldable pub process_ack : Manager → SipMessage → Outcome
unfolding ack_step
process_ack g request =
    let (call_id, m) = get_call_id request in
    elim (dialogue_of g call_id) [
      | none ↦ some (g, [])
      | some (p, d) ↦ some (ack_step d.dialogue_state g p d call_id)
    ]

unfoldable pub bye_step : DialogueState → Manager → ℕ → SipDialogue → Text → SipMessage → Outcome
bye_step connected g p d call_id m = do
  let recorded =
      if d.recording_state then recording_started m.channel_id call_id 0 (codes "OK") ∷ [] else []
  let (to_address, m') = destination m
  r ← build_ok_response d.response_tag m'
  some (
    update_dialogue (set_state cleared) p g,
    recorded ++ send to_address r.0 ∷ call_cleared d.channel_id call_id 200 ∷ [],
  )
bye_step clearing g p d call_id m =
    some (update_dialogue (set_state cleared) p g, call_cleared d.channel_id call_id 200 ∷ [])
bye_step _ g p d call_id m = some (g, [])

unfoldable pub process_bye : Manager → SipMessage → Outcome
unfolding bye_step
process_bye g request =
    let (call_id, m) = get_call_id request in
    elim (dialogue_of g call_id) [
      | none ↦ some (g, [])
      | some (p, d) ↦ bye_step d.dialogue_state g p d call_id m
    ]

unfoldable pub cancel_step : DialogueState → SipDialogue → Text → List Effect
cancel_step incoming d call_id = call_cleared d.channel_id call_id 487 ∷ []
cancel_step _ d call_id = []

unfoldable pub process_cancel : Manager → SipMessage → Outcome
unfolding cancel_step
process_cancel g request =
    let (call_id, m) = get_call_id request in
    elim (dialogue_of g call_id) [
      | none ↦ some (g, [])
      | some (p, d) ↦ some (g, cancel_step d.dialogue_state d call_id)
    ]

-- Both branches of `processOptions` do nothing.
unfoldable pub process_options : Manager → SipMessage → Outcome
process_options g request = some (g, [])

unfoldable pub process_subscribe : Manager → SipMessage → Outcome
process_subscribe g request = do
  let (to_address, m) = destination request
  r ← build_subscription_accepted_response (codes "subscription") m
  some (g, send to_address r.0 ∷ [])

-- The switch of `processMessage` over the request's type.
unfoldable pub dispatch : SipMessageType → Manager → SipMessage → Outcome
unfolding process_invite process_ack process_bye process_cancel process_options process_subscribe
dispatch invite g m = process_invite g m
dispatch ack g m = process_ack g m
dispatch bye g m = process_bye g m
dispatch cancel g m = process_cancel g m
dispatch options g m = process_options g m
dispatch subscribe g m = process_subscribe g m
dispatch _ g m = some (g, [])

-- `processMessage`: nothing happens without a transaction, and a response is not handled.
unfoldable pub process_message : Manager → SipMessage → Outcome
unfolding dispatch
process_message g message = do
  u ← update_transaction g message
  let (t, m, g') = u
  elim t [
    | none ↦ some (g', [])
    | some t' ↦ if m.is_request then dispatch m.message_type g' m else some (g', [])
  ]

unfoldable pub get_media_offer : Manager → ℕ → Text
unfolding retrieve_channel
get_media_offer g channel_id = elim (retrieve_channel g channel_id) [
  | none ↦ []
  | some p ↦ elim (get_elem? g.dialogues p) [
    | none ↦ []
    | some d ↦ elim d.current_transaction [ none ↦ [] | some t ↦ t.sdp_offer ]
  ]
]

-- `answerCall` returns 0 on all its branches that can be reached.
unfoldable pub answer_call : Manager → ℕ → Text → Option (List Effect)
unfolding retrieve_channel
answer_call g channel_id sdp_answer = elim (retrieve_channel g channel_id) [
  | none ↦ some []
  | some p ↦ elim (get_elem? g.dialogues p) [
    | none ↦ some []
    | some d ↦ elim d.current_transaction [
      | none ↦ some []
      | some t ↦ do
        r ← build_answer_response d.response_tag sdp_answer t.sip_request
        let (to_address, _) = destination r.1
        some (send to_address r.0 ∷ [])
    ]
  ]
]

-- `startRecordingCall`: whether it found the dialogue (0) or not (-1), the state and the effects.
unfoldable pub start_recording_call : Manager → ℕ → Bool × Manager × List Effect
unfolding retrieve_channel
start_recording_call g channel_id = elim (retrieve_channel g channel_id) [
  | none ↦ (false, g, [])
  | some p ↦ elim (get_elem? g.dialogues p) [
    | none ↦ (false, g, [])
    | some d ↦ (
      true,
      update_dialogue (set_recording true) p g,
      recording_started d.channel_id d.call_id 0 (codes "OK") ∷ [],
    )
  ]
]
