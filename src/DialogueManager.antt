-- ===== src/DialogueManager.antt =====
-- src/components/sip/SipDialogueManager.h and .cpp. The dialogues stand in a list that is never
-- shortened; a pointer to one is its index. Both maps hold such pointers. The methods get the
-- message by value and return it, with what the accessors and setters did to it; the dialogue keeps
-- its request as it was at `startTransaction`.
pub mod Valid
pub mod Update
pub mod Start
pub mod Transaction
use sip_processing.Prelude.{
  ℕ, ◌+◌, ◌%◌, ◌^◌, Bool, true, false, List, [], ◌∷◌, ◌++◌, Option, none, some, Text, text_eq, ◌==◌,
  if◌then◌else◌, length, get_elem?, set,
}
use sip_processing.SipMessage.{SipMessage, SipMessageType, invite, get_call_id, get_c_sequence}
use sip_processing.SipDialogue.{SipTransaction, SipDialogue, create, end_current_transaction}

pub record Manager : Type 0 where
  pub last_channel_id : ℕ
  pub dialogues : List SipDialogue
  pub channel_to_dialogue : List (ℕ × ℕ)
  pub call_id_to_dialogue : List (Text × ℕ)

abbrev pub initial : Manager
initial = record {
  last_channel_id = 0;
  dialogues = [];
  channel_to_dialogue = [];
  call_id_to_dialogue = [];
}

unfoldable pub find_channel : ℕ → List (ℕ × ℕ) → Option ℕ
find_channel c [] = none
find_channel c ((k, d) ∷ m) = if k == c then some d else find_channel c m

unfoldable pub find_call : Text → List (Text × ℕ) → Option ℕ
find_call c [] = none
find_call c ((k, d) ∷ m) = if text_eq k c then some d else find_call c m

-- `std::map::insert` leaves an entry that is there.
abbrev pub insert_channel : ℕ → ℕ → List (ℕ × ℕ) → List (ℕ × ℕ)
insert_channel c d m = elim (find_channel c m) [ none ↦ (c, d) ∷ m | some e ↦ m ]

abbrev pub insert_call : Text → ℕ → List (Text × ℕ) → List (Text × ℕ)
insert_call c d m = elim (find_call c m) [ none ↦ (c, d) ∷ m | some e ↦ m ]

unfoldable pub retrieve_channel : Manager → ℕ → Option ℕ
unfolding find_channel
retrieve_channel g channel_id = find_channel channel_id g.channel_to_dialogue

unfoldable pub retrieve_call : Manager → Text → Option ℕ
unfolding find_call
retrieve_call g call_id = find_call call_id g.call_id_to_dialogue

-- The change of the dialogue behind pointer `p`.
abbrev pub update_dialogue : (SipDialogue → SipDialogue) → ℕ → Manager → Manager
update_dialogue f p g = elim (get_elem? g.dialogues p) [
  | none ↦ g
  | some d ↦ record g { dialogues = set g.dialogues p (f d) }
]

-- `getNextChannelId`: the id, and what `lastChannelId` becomes.
abbrev pub next_channel_id : Manager → ℕ
next_channel_id g = (g.last_channel_id + 1) % 2 ^ 32

-- The current transaction behind pointer `p`.
abbrev pub current : Manager → ℕ → Option SipTransaction
current g p = elim (get_elem? g.dialogues p) [ none ↦ none | some d ↦ d.current_transaction ]

-- `startTransaction`, with the request's Call-ID and the dialogue that the maps have for it.
unfoldable pub start_new : Manager → Text → SipMessage → Manager
start_new g call_id request =
    let channel = next_channel_id g in
    let p = length g.dialogues in
    record {
      last_channel_id = channel;
      dialogues = g.dialogues ++ create channel call_id request ∷ [];
      channel_to_dialogue = insert_channel channel p g.channel_to_dialogue;
      call_id_to_dialogue = insert_call call_id p g.call_id_to_dialogue;
    }

unfoldable pub start_transaction :
    Manager → SipMessage → Option SipTransaction × SipMessage × Manager
unfolding start_new retrieve_call
start_transaction g request =
    let (call_id, m) = get_call_id request in
    elim (retrieve_call g call_id) [
      | some p ↦ (none, m, g)
      | none ↦ let g' = start_new g call_id m in (current g' (length g.dialogues), m, g')
    ]

unfoldable pub get_transaction : Manager → ℕ → Option SipTransaction
unfolding retrieve_channel
get_transaction g channel_id = elim (retrieve_channel g channel_id) [
  | none ↦ none
  | some p ↦ current g p
]

unfoldable pub end_transaction : Manager → ℕ → Manager
unfolding retrieve_channel
end_transaction g channel_id = elim (retrieve_channel g channel_id) [
  | none ↦ g
  | some p ↦ update_dialogue end_current_transaction p g
]

abbrev pub is_invite : SipMessageType → Bool
is_invite invite = true
is_invite _ = false

-- The INVITE branch for a dialogue with transaction `t`: a request with another sequence number is
-- marked as a re-INVITE.
unfoldable pub mark_reinvite : SipTransaction → SipMessage → SipMessage
mark_reinvite t m =
    let (mine, m') = get_c_sequence m in
    let (theirs, _) = get_c_sequence t.sip_request in
    if is_invite t.sip_request.message_type
    then (if text_eq mine theirs then m' else record m' { reinvite_flag = true })
    else m

unfoldable pub update_invite :
    Manager → SipMessage → Option (Option SipTransaction × SipMessage × Manager)
unfolding mark_reinvite retrieve_call start_transaction
update_invite g request =
    let (call_id, m) = get_call_id request in
    elim (retrieve_call g call_id) [
      | some p ↦ elim (current g p) [
        | none ↦ some (none, m, g)
        | some t ↦ some (some t, mark_reinvite t m, g)
      ]
      | none ↦
          let (t, m', g') = start_transaction g m in
          elim t [ none ↦ none | some t' ↦ some (some t', m', g') ]
    ]

unfoldable pub update_request : Manager → SipMessage → Option SipTransaction × SipMessage × Manager
unfolding retrieve_call
update_request g request =
    let (call_id, m) = get_call_id request in
    elim (retrieve_call g call_id) [ some p ↦ (current g p, m, g) | none ↦ (none, m, g) ]

unfoldable pub update_response : Manager → SipMessage → Option SipTransaction × SipMessage × Manager
unfolding retrieve_call
update_response g response =
    let (call_id, m) = get_call_id response in
    elim (retrieve_call g call_id) [
      | none ↦ (none, m, g)
      | some p ↦ elim (get_elem? g.dialogues p) [
        | none ↦ (none, m, g)
        | some d ↦ (none, record m { channel_id = d.channel_id }, g)
      ]
    ]

-- The transaction of the message, if there is one; the outer `none` is `transaction->toString()`
-- on a null pointer.
unfoldable pub update_transaction :
    Manager → SipMessage → Option (Option SipTransaction × SipMessage × Manager)
unfolding update_invite update_request update_response
update_transaction g m =
    if m.is_request
    then (if is_invite m.message_type then update_invite g m else some (update_request g m))
    else some (update_response g m)
