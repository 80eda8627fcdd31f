-- ===== src/SipInterface/Step.antt =====
-- `processMessage` implements one step of the abstract dialogues.
use mathlib.Core.Path.{subst}
use sip_processing.Prelude.{
  ◌>>=◌, ◌+◌, ◌^◌, ◌<◌, ◌≡◌, ◌∙◌, ◌&&◌, ap, inl, inr, true, false, List, [], map, Option, none,
  some, Text, text_eq, text_eq_iff, if◌then◌else◌, arith, Option-cases, Bool-cases,
}
use sip_processing.SipMessage.{SipMessage, get_call_id}
use sip_processing.SipMessage.Accessors.{call_id_of}
use sip_processing.SipDialogue.{SipDialogue, SipTransaction, create}
use sip_processing.DialogueManager.{Manager}
use sip_processing.DialogueManager.Valid.{lookup, IsValid, lookup-IsActive}
use sip_processing.DialogueManager.Transaction.{opens, Updated, update_transaction-Updated}
use sip_processing.SipInterface.{Effect, dispatch, process_message}
use sip_processing.SipInterface.Abstract.{advance, notice_of, notices}
use sip_processing.SipInterface.Handlers.{dispatch-Advanced}

-- The dialogue that a request is for, which it may have opened.
abbrev pub addressed : Manager → SipMessage → Option SipDialogue
addressed g m =
    if opens g m
    then some (create (g.last_channel_id + 1) (call_id_of m) (get_call_id m).1)
    else lookup g (call_id_of m)

-- One step: the dialogue of a request has advanced and given its notices, all others are as before.
pub record Step (g : Manager) (m : SipMessage) (r : Manager × List Effect) : Type 0 where
  pub valid : IsValid r.0
  pub dialogues :
      (k : Text)
      → lookup r.0 k ≡ (
          if m.is_request && text_eq (call_id_of m) k
          then addressed g m >>= (λ d. some (advance m.message_type d))
          else lookup g k)
  pub effects :
      map notice_of r.1 ≡ (if m.is_request then notices m.message_type (addressed g m) else [])

module _ (g : Manager) (v : IsValid g) (room : g.last_channel_id + 1 < 2 ^ 32)
    (m : SipMessage) where
  abbrev call : Text
  call = call_id_of m

  -- What `updateTransaction` has done when a request was found.
  pub addressed-lookup :
      (u : Option SipTransaction × SipMessage × Manager)
      → Updated g m u
      → lookup u.2 call ≡ addressed g m
  addressed-lookup u up = ground (arith, up.dialogues call, text_eq_iff call call)

  other-lookup :
      (u : Option SipTransaction × SipMessage × Manager)
      → Updated g m u
      → (k : Text) → text_eq call k ≡ false
      → lookup u.2 k ≡ lookup g k
  other-lookup u up k n = ground (arith, up.dialogues k, n)

  -- A response, and a request without a dialogue.
  response-Step :
      (u : Option SipTransaction × SipMessage × Manager)
      → Updated g m u
      → m.is_request ≡ false
      → Step g m (u.2, [])
  response-Step u up kind = record {
    valid = up.valid;
    dialogues = λ k. ground (arith, kind, up.dialogues k);
    effects = ground (arith, kind);
  }

  silent-Step :
      (u : Option SipTransaction × SipMessage × Manager)
      → Updated g m u
      → m.is_request ≡ true
      → lookup u.2 call ≡ none
      → Step g m (u.2, [])
  silent-Step u up kind absent = record {
    valid = up.valid;
    dialogues = λ k. elim (Bool-cases (text_eq call k)) [
      | inr n ↦ ground (arith, kind, n, other-lookup u up k n)
      | inl y ↦ ground (
        arith,
        kind,
        y,
        absent,
        addressed-lookup u up,
        ap (lookup u.2) ((text_eq_iff call k).0 y),
      )
    ];
    effects = ground (arith, kind, absent, addressed-lookup u up);
  }

  dispatch-Step :
      (u : Option SipTransaction × SipMessage × Manager)
      → Updated g m u
      → m.is_request ≡ true
      → (d : SipDialogue) → lookup u.2 call ≡ some d
      → (r : Manager × List Effect) → dispatch u.1.message_type u.2 u.1 ≡ some r
      → Step g m r
  dispatch-Step u up kind d present r run =
      let a =
        dispatch-Advanced u.2 up.valid u.1 u.1.message_type d
          (ap (lookup u.2) up.request.call_id ∙ present) r run in
      record {
        valid = a.valid;
        dialogues = λ k. elim (Bool-cases (text_eq call k)) [
          | inr n ↦
              ground (arith, kind, n, a.dialogues k, up.request.call_id, other-lookup u up k n)
          | inl y ↦ ground (
            arith,
            kind,
            y,
            present,
            a.dialogues k,
            up.request.message_type,
            up.request.call_id,
            addressed-lookup u up,
          )
        ];
        effects = ground (
          arith,
          kind,
          a.effects,
          up.request.message_type,
          up.request.call_id,
          addressed-lookup u up,
        );
      }

  -- When `processMessage` returns, from a valid manager with a channel left, it has done one step
  -- of the abstract map from Call-IDs to dialogues.
  pub process_message-Step : (r : Manager × List Effect) → process_message g m ≡ some r → Step g m r
  unfolding process_message
  process_message-Step r run =
      let (u, updated, up) = update_transaction-Updated g v room m in
      elim (Bool-cases m.is_request) [
        | inr response ↦
            subst (Step g m) (ground (arith, run, updated, up.transaction, response))
              (response-Step u up response)
        | inl request ↦ elim (Option-cases (lookup u.2 call)) [
          | inl absent ↦
              subst (Step g m) (ground (arith, run, updated, up.transaction, request, absent))
                (silent-Step u up request absent)
          | inr (d, present) ↦
              let (t, at, _) = lookup-IsActive u.2 up.valid call d present in
              dispatch-Step u up request d present r (
                ground (arith, run, updated, up.transaction, up.request.kind, request, present, at))
        ]
      ]
