-- ===== src/SipInterface/Offer.antt =====
-- The session description that an INVITE offers, as the application gets it.
use sip_processing.Prelude.{
  ℕ, ◌+◌, ◌^◌, ◌<◌, ◌≡◌, ◌∙◌, refl, sym, ap, inl, inr, true, List, [], none, some, Text,
  text_eq_iff, arith, Option-cases,
}
use sip_processing.SipMessage.{SipMessage, invite, BodyType, find_body, get_body, get_call_id}
use sip_processing.SipMessage.Accessors.{call_id_of, get_call_id-SameRequest}
use sip_processing.SipDialogue.{SipDialogue, SipTransaction, offer_of, create}
use sip_processing.DialogueManager.{Manager, find_call, retrieve_channel}
use sip_processing.DialogueManager.Valid.{Holds, lookup, IsValid}
use sip_processing.SipInterface.{Effect, get_media_offer, process_message}
use sip_processing.SipInterface.Abstract.{advance}
use sip_processing.SipInterface.Step.{addressed, process_message-Step}

get_media_offer-lookup :
    (g : Manager) (c : Text) (d : SipDialogue) (t : SipTransaction)
    → IsValid g
    → lookup g c ≡ some d
    → d.current_transaction ≡ some t
    → get_media_offer g d.channel_id ≡ t.sdp_offer
unfolding get_media_offer retrieve_channel
get_media_offer-lookup g c d t v at has = elim (Option-cases (find_call c g.call_id_to_dialogue)) [
  | inl absent ↦ absurd (ground (arith, absent, at))
  | inr (p, present) ↦
      let held : Holds g p d = ground (arith, present, at) in
      ground (arith, held, v.channel_found p d held, has)
]

get_body-bodies :
    (t : BodyType) (m n : SipMessage) → n.bodies ≡ m.bodies → get_body t n ≡ get_body t m
unfolding get_body
get_body-bodies t m n same = ap (λ bs. elim (find_body t bs) [ none ↦ [] | some s ↦ s ]) same

create-offer :
    (channel : ℕ) (c : Text) (m : SipMessage)
    → m.message_type ≡ invite
    → (t : SipTransaction) × ((create channel c m).current_transaction ≡ some t)
      × (t.sdp_offer ≡ get_body BodyType.sdp m)
      × ((create channel c m).channel_id ≡ channel)
unfolding create offer_of
create-offer channel c m is = (_, refl, ground (arith, is), refl)

addressed-new :
    (g : Manager)
    → IsValid g
    → (m : SipMessage) → m.is_request ≡ true
    → m.message_type ≡ invite
    → lookup g (call_id_of m) ≡ none
    → addressed g m ≡ some (create (g.last_channel_id + 1) (call_id_of m) (get_call_id m).1)
addressed-new g v m request is new =
    elim (Option-cases (find_call (call_id_of m) g.call_id_to_dialogue)) [
      | inl absent ↦ ground (arith, absent, request, is)
      | inr (p, present) ↦
          let (d, hd, _) = v.calls (call_id_of m) p present in
          absurd (ground (arith, present, hd, new))
    ]

-- After an INVITE with an unknown Call-ID was processed, from a valid manager with a channel left,
-- the media offer of the new channel is the INVITE's session description.
pub get_media_offer-process_message :
    (g : Manager)
    → IsValid g
    → g.last_channel_id + 1 < 2 ^ 32
    → (m : SipMessage) → m.is_request ≡ true
    → m.message_type ≡ invite
    → lookup g (call_id_of m) ≡ none
    → (r : Manager × List Effect) → process_message g m ≡ some r
    → get_media_offer r.0 (g.last_channel_id + 1) ≡ get_body BodyType.sdp m
get_media_offer-process_message g v room m request is new r run =
    let step = process_message-Step g v room m r run in
    let d : SipDialogue = create (g.last_channel_id + 1) (call_id_of m) (get_call_id m).1 in
    let same = get_call_id-SameRequest m in
    let (t, has, offer, own) =
      create-offer (g.last_channel_id + 1) (call_id_of m) (get_call_id m).1
        (same.message_type ∙ is) in
    let at : lookup r.0 (call_id_of m) ≡ some (advance invite d) = ground (
      arith,
      step.dialogues (call_id_of m),
      request,
      is,
      text_eq_iff (call_id_of m) (call_id_of m),
      addressed-new g v m request is new,
    ) in
    ap (get_media_offer r.0) (sym own)
    ∙ get_media_offer-lookup r.0 (call_id_of m) (advance invite d) t step.valid at has
    ∙ offer
    ∙ get_body-bodies BodyType.sdp m (get_call_id m).1 same.bodies
