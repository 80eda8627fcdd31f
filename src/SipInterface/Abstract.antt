-- ===== src/SipInterface/Abstract.antt =====
-- What one dialogue promises: the state that a request moves it to and the notices that it gives,
-- with the effect on the map from Call-IDs to dialogues.
use sip_processing.Prelude.{
  ◌>>=◌, ℕ, ◌≡◌, ap, inl, inr, Bool, true, false, List, [], ◌∷◌, map, Option, none, some, Text,
  text_eq, text_eq_iff, if◌then◌else◌, arith, Option-cases, Bool-cases,
}
use sip_processing.SipMessage.{SipMessageType, invite, ack, bye, cancel, subscribe}
use sip_processing.SipDialogue.{
  SipDialogue, DialogueState, incoming, connected, clearing, cleared, set_state,
}
use sip_processing.DialogueManager.{Manager, find_call, update_dialogue}
use sip_processing.DialogueManager.Valid.{Holds, lookup, IsValid}
use sip_processing.DialogueManager.Update.{
  set_state-Keeps, update_dialogue-IsValid, lookup-update_dialogue,
}
use sip_processing.SipInterface.{
  Effect, send, new_call, call_answered, call_cleared, recording_started,
}

-- The state after a request of this type.
abbrev pub transition : SipMessageType → DialogueState → DialogueState
transition invite s = incoming
transition ack incoming = connected
transition bye connected = cleared
transition bye clearing = cleared
transition _ s = s

abbrev pub advance : SipMessageType → SipDialogue → SipDialogue
advance t d = set_state (transition t d.dialogue_state) d

-- An effect without its texts: a message that is sent, or the event and its channel.
pub data Notice : Type 0 where
  sent : Notice
  rung : ℕ → Notice
  answered : ℕ → Notice
  ended : ℕ → ℕ → Notice
  recorded : Notice

abbrev pub notice_of : Effect → Notice
notice_of (send _ _) = sent
notice_of (new_call channel _ _ _ _ _ _) = rung channel
notice_of (call_answered channel _) = answered channel
notice_of (call_cleared channel _ code) = ended channel code
notice_of (recording_started _ _ _ _) = recorded

-- What a dialogue in this state, which is recorded or not, makes of a request.
abbrev pub reaction : SipMessageType → DialogueState → Bool → ℕ → List Notice
reaction invite s r channel = sent ∷ rung channel ∷ []
reaction ack incoming r channel = answered channel ∷ []
reaction bye connected true channel = recorded ∷ sent ∷ ended channel 200 ∷ []
reaction bye connected false channel = sent ∷ ended channel 200 ∷ []
reaction bye clearing r channel = ended channel 200 ∷ []
reaction cancel incoming r channel = ended channel 487 ∷ []
reaction subscribe s r channel = sent ∷ []
reaction _ s r channel = []

abbrev pub notices : SipMessageType → Option SipDialogue → List Notice
notices t none = []
notices t (some d) = reaction t d.dialogue_state d.recording_state d.channel_id

-- The outcome of a request of type `t` for Call-ID `c`: that dialogue has advanced and given its
-- notices, no other one has changed.
pub record Advanced (t : SipMessageType) (c : Text) (g : Manager) (r : Manager × List Effect)
    : Type 0 where
  pub valid : IsValid r.0
  pub dialogues :
      (k : Text)
      → lookup r.0 k
        ≡ (if text_eq c k then lookup g c >>= (λ d. some (advance t d)) else lookup g k)
  pub effects : map notice_of r.1 ≡ notices t (lookup g c)

module _ (g : Manager) (v : IsValid g) (c : Text) where
  same_lookup : (k : Text) → text_eq c k ≡ true → lookup g c ≡ lookup g k
  same_lookup k y = ap (lookup g) ((text_eq_iff c k).0 y)

  -- A dialogue that keeps its state.
  pub stay :
      (t : SipMessageType) (es : List Effect)
      → ((d : SipDialogue) → lookup g c ≡ some d → transition t d.dialogue_state ≡ d.dialogue_state)
      → map notice_of es ≡ notices t (lookup g c)
      → Advanced t c g (g, es)
  stay t es idle told = record {
    valid = v;
    dialogues = λ k. elim (Bool-cases (text_eq c k)) [
      | inr n ↦ ground (arith, n)
      | inl y ↦ elim (Option-cases (lookup g c)) [
        | inl absent ↦ ground (arith, y, absent, same_lookup k y)
        | inr (d, present) ↦ ground (arith, y, present, same_lookup k y, idle d present)
      ]
    ];
    effects = told;
  }

  -- A Call-ID without a dialogue.
  pub unknown :
      (t : SipMessageType) → find_call c g.call_id_to_dialogue ≡ none → Advanced t c g (g, [])
  unknown t absent = stay t [] (λ d e. absurd (ground (arith, absent, e))) (ground (arith, absent))

  -- A dialogue that moves to the state of the transition.
  pub move :
      (t : SipMessageType) (es : List Effect) (p : ℕ) (d : SipDialogue) (s : DialogueState)
      → find_call c g.call_id_to_dialogue ≡ some p
      → Holds g p d
      → transition t d.dialogue_state ≡ s
      → map notice_of es ≡ notices t (some d)
      → Advanced t c g (update_dialogue (set_state s) p g, es)
  move t es p d s e h to told = record {
    valid = update_dialogue-IsValid (set_state s) (set_state-Keeps s) g p d h v;
    dialogues = λ k.
        ground (
          arith,
          e,
          h,
          to,
          lookup-update_dialogue (set_state s) (set_state-Keeps s) g p d h c k v e,
        );
    effects = ground (arith, e, h, told);
  }
