-- ===== src/DialogueManager/Transaction.antt =====
-- `updateTransaction` against the abstract view: an INVITE with an unknown Call-ID opens a dialogue,
-- any other message finds what is there.
use mathlib.Core.Path.{subst}
use sip_processing.Prelude.{
  ◌>>=◌, ◌+◌, ◌^◌, ◌<◌, ◌≡◌, ◌&&◌, inl, inr, Bool, true, false, Option, none, some, Text, text_eq,
  text_eq_iff, if◌then◌else◌, length, arith, Option-cases, Bool-cases,
}
use sip_processing.SipMessage.{SipMessage, get_call_id, get_c_sequence}
use sip_processing.SipMessage.Accessors.{
  call_id_of, SameRequest, same_request, same_request_trans, get_call_id-SameRequest,
  get_c_sequence-SameRequest, get_call_id-again, marked-SameRequest, located-SameRequest,
}
use sip_processing.SipDialogue.{SipTransaction, create}
use sip_processing.DialogueManager.{
  Manager, find_call, retrieve_call, start_new, start_transaction, current, is_invite,
  mark_reinvite, update_invite, update_request, update_response, update_transaction,
}
use sip_processing.DialogueManager.Valid.{lookup, IsValid}
use sip_processing.DialogueManager.Start.{
  start_new-IsValid, lookup-start_new, create-IsActive, new_held,
}

-- Whether the message opens a dialogue.
abbrev pub opens : Manager → SipMessage → Bool
opens g m =
    m.is_request
    && is_invite m.message_type
    && elim (find_call (call_id_of m) g.call_id_to_dialogue) [ none ↦ true | some p ↦ false ]

pub record Updated (g : Manager) (m : SipMessage) (r : Option SipTransaction × SipMessage × Manager)
    : Type 0 where
  pub valid : IsValid r.2
  pub request : SameRequest m r.1
  pub dialogues :
      (k : Text)
      → lookup r.2 k ≡ (
          if opens g m && text_eq (call_id_of m) k
          then some (create (g.last_channel_id + 1) (call_id_of m) (get_call_id m).1)
          else lookup g k)
  pub transaction :
      r.0
      ≡ (if m.is_request then lookup r.2 (call_id_of m) >>= (λ d. d.current_transaction) else none)

abbrev Result :
    Manager → SipMessage → Option (Option SipTransaction × SipMessage × Manager) → Type 0
Result g m o = (r : Option SipTransaction × SipMessage × Manager) × (o ≡ some r) × Updated g m r

mark_reinvite-SameRequest :
    (t : SipTransaction) (m : SipMessage) → SameRequest m (mark_reinvite t m)
unfolding mark_reinvite
mark_reinvite-SameRequest t m = elim (Bool-cases (is_invite t.sip_request.message_type)) [
  | inl y ↦ elim (Bool-cases (text_eq (get_c_sequence m).0 (get_c_sequence t.sip_request).0)) [
    | inl same ↦ subst (SameRequest m) (ground (arith, y, same)) (get_c_sequence-SameRequest m)
    | inr differ ↦
        subst (SameRequest m) (ground (arith, y, differ))
          (marked-SameRequest m (get_c_sequence m).1 (get_c_sequence-SameRequest m))
  ]
  | inr n ↦ subst (SameRequest m) (ground (arith, n)) (same_request m)
]

module _ (g : Manager) (v : IsValid g) (room : g.last_channel_id + 1 < 2 ^ 32)
    (m : SipMessage) where
  abbrev call : Text
  call = call_id_of m

  abbrev m1 : SipMessage
  m1 = (get_call_id m).1

  -- A message for a Call-ID that is known, or one that opens nothing.
  same_dialogues :
      opens g m ≡ false
      → (k : Text)
      → lookup g k ≡ (
          if opens g m && text_eq call k
          then some (create (g.last_channel_id + 1) call m1)
          else lookup g k)
  same_dialogues n k = ground (arith, n)

  update_response-Updated : m.is_request ≡ false → Result g m (some (update_response g m))
  unfolding update_response retrieve_call
  update_response-Updated kind = elim (Option-cases (find_call call g.call_id_to_dialogue)) [
    | inl absent ↦ (
      (none, m1, g),
      ground (arith, absent),
      record {
        valid = v;
        request = get_call_id-SameRequest m;
        dialogues = same_dialogues (ground (arith, kind));
        transaction = ground (arith, kind);
      },
    )
    | inr (p, present) ↦
        let (d, hd, _) = v.calls call p present in
        (
          (none, record m1 { channel_id = d.channel_id }, g),
          ground (arith, present, hd),
          record {
            valid = v;
            request = located-SameRequest m m1 d.channel_id (get_call_id-SameRequest m);
            dialogues = same_dialogues (ground (arith, kind));
            transaction = ground (arith, kind);
          },
        )
  ]

  update_request-Updated :
      m.is_request ≡ true
      → is_invite m.message_type ≡ false
      → Result g m (some (update_request g m))
  unfolding update_request retrieve_call
  update_request-Updated kind other = elim (Option-cases (find_call call g.call_id_to_dialogue)) [
    | inl absent ↦ (
      (none, m1, g),
      ground (arith, absent),
      record {
        valid = v;
        request = get_call_id-SameRequest m;
        dialogues = same_dialogues (ground (arith, other));
        transaction = ground (arith, absent, kind);
      },
    )
    | inr (p, present) ↦ (
      (current g p, m1, g),
      ground (arith, present),
      record {
        valid = v;
        request = get_call_id-SameRequest m;
        dialogues = same_dialogues (ground (arith, other));
        transaction = ground (arith, present, kind);
      },
    )
  ]

  start_transaction-new :
      find_call call g.call_id_to_dialogue ≡ none
      → start_transaction g m1
        ≡ (current (start_new g call m1) (length g.dialogues), m1, start_new g call m1)
  unfolding start_transaction retrieve_call
  start_transaction-new absent =
      ground (arith, absent, (get_call_id-SameRequest m).call_id, get_call_id-again m)

  update_invite-Updated :
      m.is_request ≡ true → is_invite m.message_type ≡ true → Result g m (update_invite g m)
  unfolding update_invite retrieve_call
  update_invite-Updated kind invite = elim (Option-cases (find_call call g.call_id_to_dialogue)) [
    | inl absent ↦
        let (t, at, _) = create-IsActive (g.last_channel_id + 1) call m1 in
        let held = new_held g v call m1 absent room in
        (
          (some t, m1, start_new g call m1),
          ground (arith, absent, start_transaction-new absent, held, at),
          record {
            valid = start_new-IsValid g v call m1 absent room;
            request = get_call_id-SameRequest m;
            dialogues = λ k.
                ground (arith, kind, invite, absent, lookup-start_new g v call m1 absent room k);
            transaction = ground (
              arith,
              kind,
              absent,
              lookup-start_new g v call m1 absent room call,
              text_eq_iff call call,
              at,
            );
          },
        )
    | inr (p, present) ↦
        let (d, hd, _) = v.calls call p present in
        let (t, at, _) = v.active p d hd in
        (
          (some t, mark_reinvite t m1, g),
          ground (arith, present, hd, at),
          record {
            valid = v;
            request =
                same_request_trans m m1 (mark_reinvite t m1) (get_call_id-SameRequest m)
                  (mark_reinvite-SameRequest t m1);
            dialogues = same_dialogues (ground (arith, present));
            transaction = ground (arith, kind, present, hd, at);
          },
        )
  ]

  -- `updateTransaction` on a valid manager with a channel left returns and keeps it valid; only an INVITE with an unknown Call-ID changes the abstract view,
  -- by a new dialogue, and a request gets the transaction of its Call-ID.
  pub update_transaction-Updated :
      (r : Option SipTransaction × SipMessage × Manager) × (update_transaction g m ≡ some r)
      × Updated g m r
  unfolding update_transaction
  update_transaction-Updated = elim (Bool-cases m.is_request) [
    | inr response ↦
        let (r, e, u) = update_response-Updated response in (r, ground (arith, response, e), u)
    | inl request ↦ elim (Bool-cases (is_invite m.message_type)) [
      | inl invite ↦
          let (r, e, u) = update_invite-Updated request invite in
          (r, ground (arith, request, invite, e), u)
      | inr other ↦
          let (r, e, u) = update_request-Updated request other in
          (r, ground (arith, request, other, e), u)
    ]
  ]
