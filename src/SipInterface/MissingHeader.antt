-- ===== src/SipInterface/MissingHeader.antt =====
-- An INVITE without one of the headers that its response or its event needs.
use mathlib.Core.Path.{subst}
use sip_processing.Prelude.{
  ◌+◌, ◌^◌, ◌<◌, ◌≡◌, ◌⊎◌, ◌∙◌, sym, ap, inl, inr, true, none, some, Text, codes, arith,
  Option-cases,
}
use sip_processing.SipMessage.{
  SipMessage, invite, get_call_id, get_from, get_to, get_c_sequence, get_headers,
  get_response_via_content,
}
use sip_processing.SipMessage.Accessors.{call_id_of, SameRequest, Missing, get_call_id-SameRequest}
use sip_processing.SipMessage.Nulls.{
  HasNull, Doomed, Null, get_from-HasNull, get_to-HasNull, get_call_id-HasNull,
  get_c_sequence-HasNull, get_from-Doomed, get_to-Doomed, get_call_id-Doomed, get_from-own,
  get_to-own, get_call_id-own, get_c_sequence-own, get_remote_address-Doomed,
  get_remote_port-Doomed, get_transport_type-Doomed, get_remote_address-Null, get_remote_port-Null,
  get_transport_type-Null,
}
use sip_processing.SipRequest.{
  build_standard_base_response, build_standard_full_response, build_trying_response,
}
use sip_processing.SipDialogue.{SipDialogue, create}
use sip_processing.DialogueManager.{Manager, find_call, retrieve_call}
use sip_processing.DialogueManager.Valid.{lookup, IsValid, lookup-IsActive}
use sip_processing.DialogueManager.Transaction.{update_transaction-Updated}
use sip_processing.SipInterface.Step.{addressed, addressed-lookup}
use sip_processing.SipInterface.{
  dialogue_of, destination, invite_effects, process_invite, dispatch, process_message,
}

-- The headers that a response copies.
pub data Copied : Text → Type 0 where
  from : Copied (codes "FROM")
  to : Copied (codes "TO")
  call_id : Copied (codes "CALL-ID")
  c_sequence : Copied (codes "CSEQ")

-- The message behind the accessors of the base response.
abbrev read_all : SipMessage → SipMessage
read_all m = (get_c_sequence (get_call_id (get_to (get_from m).1).1).1).1

read_all-HasNull :
    (name : Text) (m : SipMessage) → Copied name → Doomed name m → HasNull (read_all m)
read_all-HasNull _ m from h =
    get_c_sequence-HasNull _ (get_call_id-HasNull _ (get_to-HasNull _ (get_from-own m h)))
read_all-HasNull _ m to h =
    get_c_sequence-HasNull _
      (get_call_id-HasNull _ (get_to-own _ (get_from-Doomed m (codes "TO") h)))
read_all-HasNull _ m call_id h =
    get_c_sequence-HasNull _ (
      get_call_id-own _ (get_to-Doomed _ (codes "CALL-ID") (get_from-Doomed m (codes "CALL-ID") h)))
read_all-HasNull _ m c_sequence h = get_c_sequence-own _ (
    get_call_id-Doomed _ (codes "CSEQ")
      (get_to-Doomed _ (codes "CSEQ") (get_from-Doomed m (codes "CSEQ") h)))

build_trying_response-message :
    (tag : Text) (m : SipMessage) (r : Text × SipMessage)
    → build_trying_response tag m ≡ some r
    → r.1 ≡ read_all m
unfolding build_trying_response build_standard_full_response build_standard_base_response
build_trying_response-message tag m r e = elim (Option-cases (get_response_via_content m)) [
  | inl null ↦ absurd (ground (arith, e, null))
  | inr (via, ok) ↦ ground (arith, e, ok)
]

destination-Doomed : (name : Text) (m : SipMessage) → Doomed name m → Doomed name (destination m).1
unfolding destination
destination-Doomed name m h =
    get_transport_type-Doomed _ name
      (get_remote_port-Doomed _ name (get_remote_address-Doomed m name h))

destination-Null : (m : SipMessage) → Missing (codes "VIA") m → Null (codes "VIA") (destination m).1
unfolding destination
destination-Null m h =
    get_transport_type-Null _ (inr (get_remote_port-Null _ (inr (get_remote_address-Null m h))))

build_trying_response-Null :
    (tag : Text) (m : SipMessage) → Null (codes "VIA") m → build_trying_response tag m ≡ none
unfolding build_trying_response build_standard_full_response build_standard_base_response
    get_response_via_content
build_trying_response-Null tag m h = ground (arith, h)

get_headers-null : (m : SipMessage) → HasNull m → get_headers m ≡ none
unfolding get_headers
get_headers-null m h = h

-- Without one of the headers the handler's response or event fails.
invite_effects-null :
    (d : SipDialogue) (m : SipMessage)
    → ((name : Text) × Copied name × Missing name m) ⊎ Missing (codes "VIA") m
    → invite_effects d m ≡ none
unfolding invite_effects
invite_effects-null d m (inr via) =
    ground
      (arith, build_trying_response-Null d.response_tag (destination m).1 (destination-Null m via))
invite_effects-null d m (inl (name, copied, h)) =
    elim (Option-cases (build_trying_response d.response_tag (destination m).1)) [
      | inl null ↦ ground (arith, null)
      | inr (r, ok) ↦
          let all : HasNull r.1 =
            subst HasNull
              (sym (build_trying_response-message d.response_tag (destination m).1 r ok))
              (read_all-HasNull name (destination m).1 copied
                (destination-Doomed name m (inl h))) in
          let none_listed : get_headers (get_from (get_to (get_call_id r.1).1).1).1 ≡ none =
            get_headers-null (get_from (get_to (get_call_id r.1).1).1).1
              (get_from-HasNull _ (get_to-HasNull _ (get_call_id-HasNull r.1 all))) in
          ground (arith, ok, none_listed)
    ]

-- The message lacks a header that the handler of an INVITE needs.
abbrev pub Lacks : SipMessage → Type 0
Lacks m = ((name : Text) × Copied name × Missing name m) ⊎ Missing (codes "VIA") m

SameRequest-Lacks : (m n : SipMessage) → SameRequest m n → Lacks m → Lacks n
SameRequest-Lacks m n same (inl (name, copied, h)) = inl (name, copied, same.missing name h)
SameRequest-Lacks m n same (inr h) = inr (same.missing (codes "VIA") h)

process_invite-Lacks :
    (g : Manager) (m : SipMessage) (d : SipDialogue)
    → lookup g (call_id_of m) ≡ some d
    → Lacks m
    → process_invite g m ≡ none
unfolding process_invite dialogue_of retrieve_call
process_invite-Lacks g m d at lacks =
    elim (Option-cases (find_call (call_id_of m) g.call_id_to_dialogue)) [
      | inl absent ↦ absurd (ground (arith, absent, at))
      | inr (p, present) ↦ ground (
        arith,
        present,
        at,
        invite_effects-null d (get_call_id m).1
            (SameRequest-Lacks m (get_call_id m).1 (get_call_id-SameRequest m) lacks),
      )
    ]

-- An INVITE always has a dialogue.
addressed-invite :
    (g : Manager)
    → IsValid g
    → (m : SipMessage) → m.is_request ≡ true
    → m.message_type ≡ invite
    → (d : SipDialogue) × (addressed g m ≡ some d)
addressed-invite g v m request is =
    elim (Option-cases (find_call (call_id_of m) g.call_id_to_dialogue)) [
      | inl absent ↦ (
        create (g.last_channel_id + 1) (call_id_of m) (get_call_id m).1,
        ground (arith, absent, request, is),
      )
      | inr (p, present) ↦
          let (d, hd, _) = v.calls (call_id_of m) p present in (d, ground (arith, present, hd))
    ]

-- An INVITE that lacks its VIA, FROM, TO, CALL-ID or CSEQ header, or has a null pointer for it, makes
-- `processMessage` use a null pointer, from any valid manager with a channel left.
pub process_message-MissingHeader :
    (g : Manager)
    → IsValid g
    → g.last_channel_id + 1 < 2 ^ 32
    → (m : SipMessage) → m.is_request ≡ true
    → m.message_type ≡ invite
    → Lacks m
    → process_message g m ≡ none
unfolding process_message dispatch
process_message-MissingHeader g v room m request is lacks =
    let (u, updated, up) = update_transaction-Updated g v room m in
    let (d, found) = addressed-invite g v m request is in
    let present : lookup u.2 (call_id_of m) ≡ some d = addressed-lookup g v room m u up ∙ found in
    let (t, at, _) = lookup-IsActive u.2 up.valid (call_id_of m) d present in
    let fails : process_invite u.2 u.1 ≡ none =
      process_invite-Lacks u.2 u.1 d (ap (lookup u.2) up.request.call_id ∙ present)
        (SameRequest-Lacks m u.1 up.request lacks) in
    ground (
      arith, updated, up.transaction, up.request.kind, up.request.message_type, request, is,
      present, at, fails,
    )
