-- ===== src/SipInterface/Reach.antt =====
-- The managers that received messages lead to from the empty one.
use mathlib.Core.Path.{subst}
use sip_processing.Prelude.{
  ◌+◌, ◌^◌, ◌<◌, ◌≡◌, ◌⊎◌, ◌&&◌, refl, inl, inr, true, List, [], ◌++◌, some, Text, text_eq, arith,
  Option-cases, Bool-cases,
}
use sip_processing.SipMessage.{
  SipMessage, SipMessageType, invite, ack, bye, cancel, options, subscribe, register, prack, notify,
  publish, info, refer, message, update, trying, progress, ringing, service_unavailable,
}
use sip_processing.SipMessage.Accessors.{call_id_of}
use sip_processing.SipDialogue.{SipDialogue, DialogueState, incoming, connected, cleared}
use sip_processing.DialogueManager.{Manager, initial, find_call}
use sip_processing.DialogueManager.Valid.{lookup, IsValid, initial-IsValid}
use sip_processing.DialogueManager.Transaction.{opens}
use sip_processing.SipInterface.{Effect, process_message}
use sip_processing.SipInterface.Abstract.{transition}
use sip_processing.SipInterface.Step.{Step, addressed, process_message-Step}

-- `processMessage` ran on one message after the other, and channels were left for each.
pub data Reached : Manager → List Effect → Type 0 where
  start : Reached initial []
  next :
      (g : Manager) (es : List Effect) (m : SipMessage) (r : Manager × List Effect)
      → Reached g es
      → g.last_channel_id + 1 < 2 ^ 32
      → process_message g m ≡ some r
      → Reached r.0 (es ++ r.1)

abbrev pub IsLive : DialogueState → Type 0
IsLive s = (s ≡ incoming) ⊎ ((s ≡ connected) ⊎ (s ≡ cleared))

transition-IsLive : (t : SipMessageType) (s : DialogueState) → IsLive s → IsLive (transition t s)
transition-IsLive invite s live = inl refl
transition-IsLive ack s (inl e) = inr (inl (ground (arith, e)))
transition-IsLive ack s (inr (inl e)) = inr (inl (ground (arith, e)))
transition-IsLive ack s (inr (inr e)) = inr (inr (ground (arith, e)))
transition-IsLive bye s (inl e) = inl (ground (arith, e))
transition-IsLive bye s (inr (inl e)) = inr (inr (ground (arith, e)))
transition-IsLive bye s (inr (inr e)) = inr (inr (ground (arith, e)))
transition-IsLive SipMessageType.unknown s live = live
transition-IsLive cancel s live = live
transition-IsLive options s live = live
transition-IsLive subscribe s live = live
transition-IsLive register s live = live
transition-IsLive prack s live = live
transition-IsLive notify s live = live
transition-IsLive publish s live = live
transition-IsLive info s live = live
transition-IsLive refer s live = live
transition-IsLive message s live = live
transition-IsLive update s live = live
transition-IsLive trying s live = live
transition-IsLive progress s live = live
transition-IsLive ringing s live = live
transition-IsLive SipMessageType.ok s live = live
transition-IsLive service_unavailable s live = live

abbrev AllLive : Manager → Type 0
AllLive g = (k : Text) (d : SipDialogue) → lookup g k ≡ some d → IsLive d.dialogue_state

-- Only an INVITE opens a dialogue.
opens-invite : (g : Manager) (m : SipMessage) → opens g m ≡ true → m.message_type ≡ invite
opens-invite g m o = ground (arith, o)

addressed-IsLive :
    (g : Manager) (m : SipMessage)
    → AllLive g
    → (d : SipDialogue) → addressed g m ≡ some d
    → IsLive (transition m.message_type d.dialogue_state)
addressed-IsLive g m live d at = elim (Bool-cases (opens g m)) [
  | inl opened ↦ inl (ground (arith, opens-invite g m opened))
  | inr found ↦
      transition-IsLive m.message_type d.dialogue_state
        (live (call_id_of m) d (ground (arith, found, at)))
]

Step-AllLive :
    (g : Manager) (m : SipMessage) (r : Manager × List Effect)
    → Step g m r
    → AllLive g
    → AllLive r.0
Step-AllLive g m r step live k d at = elim (Bool-cases (m.is_request && text_eq (call_id_of m) k)) [
  | inr other ↦ live k d (ground (arith, step.dialogues k, other, at))
  | inl mine ↦ elim (Option-cases (addressed g m)) [
    | inl absent ↦ absurd (ground (arith, step.dialogues k, mine, absent, at))
    | inr (e, found) ↦
        subst IsLive (ground (arith, step.dialogues k, mine, found, at))
          (addressed-IsLive g m live e found)
  ]
]

pub Reached-IsValid : (g : Manager) (es : List Effect) → Reached g es → IsValid g
Reached-IsValid _ _ start = initial-IsValid
Reached-IsValid _ _ (next g es m r before room run) =
    (process_message-Step g (Reached-IsValid g es before) room m r run).valid

-- After any messages, with a channel left for each, a dialogue is incoming, connected or cleared: none is without a state, and
-- none is outgoing or clearing.
pub Reached-IsLive :
    (g : Manager) (es : List Effect)
    → Reached g es
    → (k : Text) (d : SipDialogue) → lookup g k ≡ some d
    → IsLive d.dialogue_state
unfolding find_call
Reached-IsLive _ _ start k d at = absurd (ground (arith, at))
Reached-IsLive _ _ (next g es m r before room run) k d at =
    Step-AllLive g m r (process_message-Step g (Reached-IsValid g es before) room m r run)
      (Reached-IsLive g es before) k d at
