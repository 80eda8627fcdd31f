-- ===== src/SipInterface/Handlers.antt =====
-- Each handler of a request implements the abstract dialogue.
use mathlib.Core.Path.{subst}
use sip_processing.Prelude.{
  ℕ, ◌≡◌, ◌⊎◌, refl, sym, ap, inl, inr, Bool, List, [], ◌∷◌, map, Option, none, some, Text, codes,
  arith, Option-cases, Bool-cases,
}
use sip_processing.SipMessage.{
  SipMessage, SipMessageType, invite, ack, bye, cancel, options, subscribe, register, prack, notify,
  publish, info, refer, message, update, trying, progress, ringing, service_unavailable,
  get_call_id, get_to, get_from, get_headers,
}
use sip_processing.SipRequest.{
  build_trying_response, build_ok_response, build_subscription_accepted_response,
}
use sip_processing.SipMessage.Accessors.{call_id_of}
use sip_processing.SipDialogue.{
  SipDialogue, DialogueState, no_state, incoming, outgoing, connected, clearing, cleared,
}
use sip_processing.DialogueManager.{Manager, find_call, retrieve_call}
use sip_processing.DialogueManager.Valid.{Holds, lookup, IsValid}
use sip_processing.SipInterface.{
  Effect, send, call_answered, call_cleared, recording_started, dialogue_of, destination,
  invite_effects, ack_step, bye_step, cancel_step, process_invite, process_ack, process_bye,
  process_cancel, process_options, process_subscribe, dispatch,
}
use sip_processing.SipInterface.Abstract.{
  transition, notice_of, notices, reaction, sent, rung, Advanced, stay, unknown, move,
}

-- An INVITE's response and its event.
invite_effects-notices :
    (d : SipDialogue) (m : SipMessage) (es : List Effect)
    → invite_effects d m ≡ some es
    → map notice_of es ≡ sent ∷ rung d.channel_id ∷ []
unfolding invite_effects
invite_effects-notices d m es e =
    elim (Option-cases (build_trying_response d.response_tag (destination m).1)) [
      | inl null ↦ absurd (ground (arith, e, null))
      | inr (r, ok) ↦
          elim (Option-cases (get_headers (get_from (get_to (get_call_id r.1).1).1).1)) [
            | inl null ↦ absurd (ground (arith, e, ok, null))
            | inr (hs, listed) ↦ ground (arith, e, ok, listed)
          ]
    ]

module _ (g : Manager) (v : IsValid g) (m : SipMessage) where
  abbrev call : Text
  call = call_id_of m

  -- The dialogue that a handler finds.
  dialogue_of-cases :
      ((find_call call g.call_id_to_dialogue ≡ none) × (dialogue_of g call ≡ none))
      ⊎ ((p : ℕ) × (d : SipDialogue) × (find_call call g.call_id_to_dialogue ≡ some p)
          × Holds g p d
          × (dialogue_of g call ≡ some (p, d)))
  unfolding dialogue_of retrieve_call
  dialogue_of-cases = elim (Option-cases (find_call call g.call_id_to_dialogue)) [
    | inl absent ↦ inl (absent, ground (arith, absent))
    | inr (p, present) ↦
        let (d, hd, _) = v.calls call p present in
        inr (p, d, present, hd, ground (arith, present, hd))
  ]

  process_invite-Advanced :
      (r : Manager × List Effect) → process_invite g m ≡ some r → Advanced invite call g r
  unfolding process_invite
  process_invite-Advanced r run = elim dialogue_of-cases [
    | inl (absent, none_found) ↦
        subst (Advanced invite call g) (ground (arith, run, none_found))
          (unknown g v call invite absent)
    | inr (p, d, present, hd, known) ↦ elim (Option-cases (invite_effects d (get_call_id m).1)) [
      | inl null ↦ absurd (ground (arith, run, known, null))
      | inr (es, ok) ↦ subst (Advanced invite call g) (ground (arith, run, known, ok)) (
          move g v call invite es p d incoming present hd refl
            (invite_effects-notices d (get_call_id m).1 es ok))
    ]
  ]

  -- Only a dialogue that rings hears an ACK.
  ack_step-cases :
      (s : DialogueState)
      → (s ≡ incoming)
        ⊎ ((transition ack s ≡ s)
            × ((b : Bool) (channel : ℕ) → reaction ack s b channel ≡ [])
            × (ack_step s ≡ (λ h p d c. (h, []))))
  unfolding ack_step
  ack_step-cases incoming = inl refl
  ack_step-cases no_state = inr (refl, λ b c. refl, refl)
  ack_step-cases outgoing = inr (refl, λ b c. refl, refl)
  ack_step-cases connected = inr (refl, λ b c. refl, refl)
  ack_step-cases clearing = inr (refl, λ b c. refl, refl)
  ack_step-cases cleared = inr (refl, λ b c. refl, refl)

  process_ack-Advanced :
      (r : Manager × List Effect) → process_ack g m ≡ some r → Advanced ack call g r
  unfolding process_ack ack_step
  process_ack-Advanced r run = elim dialogue_of-cases [
    | inl (absent, none_found) ↦
        subst (Advanced ack call g) (ground (arith, run, none_found)) (unknown g v call ack absent)
    | inr (p, d, present, hd, known) ↦ elim (ack_step-cases d.dialogue_state) [
      | inl rings ↦ subst (Advanced ack call g) (ground (arith, run, known, rings)) (
          move g v call ack (call_answered d.channel_id call ∷ []) p d connected present hd
            (ground (arith, rings)) (ground (arith, rings)))
      | inr (idle, silent, nothing) ↦
          subst (Advanced ack call g) (ground (arith, run, known, nothing)) (
            stay g v call ack [] (λ e at. ground (arith, at, present, hd, idle))
              (ground (arith, present, hd, silent d.recording_state d.channel_id)))
    ]
  ]

  cancel_step-cases :
      (s : DialogueState)
      → (s ≡ incoming)
        ⊎ (((b : Bool) (channel : ℕ) → reaction cancel s b channel ≡ [])
            × (cancel_step s ≡ (λ d c. [])))
  unfolding cancel_step
  cancel_step-cases incoming = inl refl
  cancel_step-cases no_state = inr (λ b c. refl, refl)
  cancel_step-cases outgoing = inr (λ b c. refl, refl)
  cancel_step-cases connected = inr (λ b c. refl, refl)
  cancel_step-cases clearing = inr (λ b c. refl, refl)
  cancel_step-cases cleared = inr (λ b c. refl, refl)

  process_cancel-Advanced :
      (r : Manager × List Effect) → process_cancel g m ≡ some r → Advanced cancel call g r
  unfolding process_cancel cancel_step
  process_cancel-Advanced r run = elim dialogue_of-cases [
    | inl (absent, none_found) ↦
        subst (Advanced cancel call g) (ground (arith, run, none_found))
          (unknown g v call cancel absent)
    | inr (p, d, present, hd, known) ↦ elim (cancel_step-cases d.dialogue_state) [
      | inl rings ↦ subst (Advanced cancel call g) (ground (arith, run, known, rings)) (
          stay g v call cancel (call_cleared d.channel_id call 487 ∷ []) (λ e at. refl)
            (ground (arith, present, hd, rings)))
      | inr (silent, nothing) ↦
          subst (Advanced cancel call g) (ground (arith, run, known, ap (λ f. f d call) nothing)) (
            stay g v call cancel [] (λ e at. refl)
              (ground (arith, present, hd, silent d.recording_state d.channel_id)))
    ]
  ]

  process_options-Advanced :
      (r : Manager × List Effect) → process_options g m ≡ some r → Advanced options call g r
  unfolding process_options
  process_options-Advanced r run = subst (Advanced options call g) (ground (arith, run)) (
      stay g v call options [] (λ e at. refl)
        (elim (Option-cases (lookup g call)) [
          | inl absent ↦ ground (arith, absent)
          | inr (d, present) ↦ ground (arith, present)
        ]))

  -- Only a connected dialogue, or one that is clearing, hears a BYE.
  bye_step-cases :
      (s : DialogueState)
      → (s ≡ connected)
        ⊎ ((s ≡ clearing)
            ⊎ ((transition bye s ≡ s)
                × ((b : Bool) (channel : ℕ) → reaction bye s b channel ≡ [])
                × (bye_step s ≡ (λ h p d c n. some (h, [])))))
  unfolding bye_step
  bye_step-cases connected = inl refl
  bye_step-cases clearing = inr (inl refl)
  bye_step-cases no_state = inr (inr (refl, λ b c. refl, refl))
  bye_step-cases incoming = inr (inr (refl, λ b c. refl, refl))
  bye_step-cases outgoing = inr (inr (refl, λ b c. refl, refl))
  bye_step-cases cleared = inr (inr (refl, λ b c. refl, refl))

  process_bye-Advanced :
      (r : Manager × List Effect) → process_bye g m ≡ some r → Advanced bye call g r
  unfolding process_bye bye_step
  process_bye-Advanced r run = elim dialogue_of-cases [
    | inl (absent, none_found) ↦
        subst (Advanced bye call g) (ground (arith, run, none_found)) (unknown g v call bye absent)
    | inr (p, d, present, hd, known) ↦ elim (bye_step-cases d.dialogue_state) [
      | inl on ↦
          elim (Option-cases (build_ok_response d.response_tag (destination (get_call_id m).1).1)) [
            | inl null ↦ absurd (ground (arith, run, known, on, null))
            | inr (s, ok) ↦ elim (Bool-cases d.recording_state) [
              | inl tape ↦ subst (Advanced bye call g) (ground (arith, run, known, on, ok, tape)) (
                  move g v call bye
                    (recording_started (get_call_id m).1.channel_id call 0 (codes "OK")
                      ∷ send (destination (get_call_id m).1).0 s.0
                      ∷ call_cleared d.channel_id call 200
                      ∷ [])
                    p d cleared present hd (ground (arith, on)) (ground (arith, on, tape)))
              | inr plain ↦
                  subst (Advanced bye call g) (ground (arith, run, known, on, ok, plain)) (
                    move g v call bye
                      (send (destination (get_call_id m).1).0 s.0
                        ∷ call_cleared d.channel_id call 200
                        ∷ [])
                      p d cleared present hd (ground (arith, on)) (ground (arith, on, plain)))
            ]
          ]
      | inr (inl off) ↦ subst (Advanced bye call g) (ground (arith, run, known, off)) (
          move g v call bye (call_cleared d.channel_id call 200 ∷ []) p d cleared present hd
            (ground (arith, off)) (ground (arith, off)))
      | inr (inr (idle, silent, nothing)) ↦
          subst (Advanced bye call g) (ground (arith, run, known, nothing)) (
            stay g v call bye [] (λ e at. ground (arith, at, present, hd, idle))
              (ground (arith, present, hd, silent d.recording_state d.channel_id)))
    ]
  ]

  process_subscribe-Advanced :
      (d : SipDialogue)
      → lookup g call ≡ some d
      → (r : Manager × List Effect) → process_subscribe g m ≡ some r
      → Advanced subscribe call g r
  unfolding process_subscribe
  process_subscribe-Advanced d present r run =
      elim (Option-cases
        (build_subscription_accepted_response (codes "subscription") (destination m).1)) [
          | inl null ↦ absurd (ground (arith, run, null))
          | inr (s, ok) ↦ subst (Advanced subscribe call g) (ground (arith, run, ok)) (
              stay g v call subscribe (send (destination m).0 s.0 ∷ []) (λ e at. refl)
                (ground (arith, present)))
        ]

  -- A type that the switch does not name.
  ignored :
      (t : SipMessageType)
      → ((e : SipDialogue) → transition t e.dialogue_state ≡ e.dialogue_state)
      → ((o : Option SipDialogue) → notices t o ≡ [])
      → (r : Manager × List Effect) → Option.some (g, []) ≡ some r
      → Advanced t call g r
  ignored t idle silent r run =
      subst (Advanced t call g) (ground (arith, run))
        (stay g v call t [] (λ e at. idle e) (sym (silent (lookup g call))))

  -- The switch of `processMessage`, for a Call-ID that has a dialogue.
  pub dispatch-Advanced :
      (t : SipMessageType) (d : SipDialogue)
      → lookup g call ≡ some d
      → (r : Manager × List Effect) → dispatch t g m ≡ some r
      → Advanced t call g r
  unfolding dispatch
  dispatch-Advanced invite d at r run = process_invite-Advanced r run
  dispatch-Advanced ack d at r run = process_ack-Advanced r run
  dispatch-Advanced bye d at r run = process_bye-Advanced r run
  dispatch-Advanced cancel d at r run = process_cancel-Advanced r run
  dispatch-Advanced options d at r run = process_options-Advanced r run
  dispatch-Advanced subscribe d at r run = process_subscribe-Advanced d at r run
  dispatch-Advanced SipMessageType.unknown d at r run =
      ignored SipMessageType.unknown (λ e. refl) elim [ none ↦ refl | some e ↦ refl ] r run
  dispatch-Advanced register d at r run =
      ignored register (λ e. refl) elim [ none ↦ refl | some e ↦ refl ] r run
  dispatch-Advanced prack d at r run =
      ignored prack (λ e. refl) elim [ none ↦ refl | some e ↦ refl ] r run
  dispatch-Advanced notify d at r run =
      ignored notify (λ e. refl) elim [ none ↦ refl | some e ↦ refl ] r run
  dispatch-Advanced publish d at r run =
      ignored publish (λ e. refl) elim [ none ↦ refl | some e ↦ refl ] r run
  dispatch-Advanced info d at r run =
      ignored info (λ e. refl) elim [ none ↦ refl | some e ↦ refl ] r run
  dispatch-Advanced refer d at r run =
      ignored refer (λ e. refl) elim [ none ↦ refl | some e ↦ refl ] r run
  dispatch-Advanced message d at r run =
      ignored message (λ e. refl) elim [ none ↦ refl | some e ↦ refl ] r run
  dispatch-Advanced update d at r run =
      ignored update (λ e. refl) elim [ none ↦ refl | some e ↦ refl ] r run
  dispatch-Advanced trying d at r run =
      ignored trying (λ e. refl) elim [ none ↦ refl | some e ↦ refl ] r run
  dispatch-Advanced progress d at r run =
      ignored progress (λ e. refl) elim [ none ↦ refl | some e ↦ refl ] r run
  dispatch-Advanced ringing d at r run =
      ignored ringing (λ e. refl) elim [ none ↦ refl | some e ↦ refl ] r run
  dispatch-Advanced SipMessageType.ok d at r run =
      ignored SipMessageType.ok (λ e. refl) elim [ none ↦ refl | some e ↦ refl ] r run
  dispatch-Advanced service_unavailable d at r run =
      ignored service_unavailable (λ e. refl) elim [ none ↦ refl | some e ↦ refl ] r run
