-- ===== src/DialogueManager/Start.antt =====
-- A new dialogue under a fresh channel and a new Call-ID.
use mathlib.Core.Path.{subst}
use sip_processing.Prelude.{
  ℕ, zero, suc, ◌+◌, ◌^◌, ◌<◌, ◌≡◌, ◌⊎◌, ◌∙◌, refl, sym, ap, inl, inr, List, [], ◌∷◌, ◌++◌, none,
  some, Text, text_eq, text_eq_iff, ◌==◌, if◌then◌else◌, length, get_elem?, arith, Option-cases,
  Bool-cases,
}
use sip_processing.SipMessage.{SipMessage}
use sip_processing.SipDialogue.{SipDialogue, create}
use sip_processing.DialogueManager.{
  Manager, find_channel, find_call, insert_channel, insert_call, next_channel_id, start_new,
}
use sip_processing.DialogueManager.Valid.{Holds, lookup, IsActive, IsValid, get_elem?-lt}

-- The new entry is found under its key, the others as before.
find_channel-insert :
    (c k p : ℕ) (m : List (ℕ × ℕ))
    → find_channel k m ≡ none
    → find_channel c (insert_channel k p m) ≡ (if k == c then some p else find_channel c m)
unfolding find_channel
find_channel-insert c k p m h = ground (arith, h)

find_call-insert :
    (c k : Text) (p : ℕ) (m : List (Text × ℕ))
    → find_call k m ≡ none
    → find_call c (insert_call k p m) ≡ (if text_eq k c then some p else find_call c m)
unfolding find_call
find_call-insert c k p m h = ground (arith, h)

-- One more element.
get_elem?-snoc {ℓ} :
    {A : Type ℓ} (xs : List A) (a : A) (p : ℕ)
    → get_elem? (xs ++ a ∷ []) p ≡ (if p == length xs then some a else get_elem? xs p)
get_elem?-snoc [] a zero = ground arith
get_elem?-snoc [] a (suc p) = ground arith
get_elem?-snoc (x ∷ xs) a zero = ground arith
get_elem?-snoc (x ∷ xs) a (suc p) = ground (arith, get_elem?-snoc xs a p)

-- A new dialogue has the transaction of its request.
pub create-IsActive : (channel : ℕ) (c : Text) (m : SipMessage) → IsActive (create channel c m)
unfolding create
create-IsActive channel c m = (_, refl, refl)

create-keys :
    (channel : ℕ) (c : Text) (m : SipMessage)
    → ((create channel c m).call_id ≡ c) × ((create channel c m).channel_id ≡ channel)
unfolding create
create-keys channel c m = (refl, refl)

module _ (g : Manager) (v : IsValid g) (c : Text) (m : SipMessage)
    (fresh : find_call c g.call_id_to_dialogue ≡ none) (room : g.last_channel_id + 1 < 2 ^ 32) where
  abbrev g' : Manager
  g' = start_new g c m

  channel_fresh : find_channel (g.last_channel_id + 1) g.channel_to_dialogue ≡ none
  channel_fresh = elim (Option-cases (find_channel (g.last_channel_id + 1) g.channel_to_dialogue)) [
    | inl n ↦ n
    | inr (p, e) ↦ let (d, _, _, le) = v.channels _ p e in absurd (omega (arith, le))
  ]

  abbrev channel : ℕ
  channel = g.last_channel_id + 1

  next : next_channel_id g ≡ channel
  next = omega arith

  last : g'.last_channel_id ≡ channel
  unfolding start_new
  last = next

  abbrev new : SipDialogue
  new = create channel c m

  -- The dialogues of the new manager.
  holds :
      (p : ℕ)
      → get_elem? g'.dialogues p
        ≡ (if p == length g.dialogues then some new else get_elem? g.dialogues p)
  unfolding start_new
  holds p =
      ap (λ n. get_elem? (g.dialogues ++ create n c m ∷ []) p) next
      ∙ get_elem?-snoc g.dialogues new p

  calls :
      (k : Text)
      → find_call k g'.call_id_to_dialogue
        ≡ (if text_eq c k then some (length g.dialogues) else find_call k g.call_id_to_dialogue)
  unfolding start_new
  calls k = find_call-insert k c (length g.dialogues) g.call_id_to_dialogue fresh

  channels :
      (k : ℕ)
      → find_channel k g'.channel_to_dialogue
        ≡ (if channel == k then some (length g.dialogues) else find_channel k g.channel_to_dialogue)
  unfolding start_new
  channels k =
      ap (λ n. find_channel k (insert_channel n (length g.dialogues) g.channel_to_dialogue)) next
      ∙ find_channel-insert k channel (length g.dialogues) g.channel_to_dialogue channel_fresh

  new_call : find_call c g'.call_id_to_dialogue ≡ some (length g.dialogues)
  new_call = ground (arith, calls c, (text_eq_iff c c).1 refl)

  new_channel : find_channel channel g'.channel_to_dialogue ≡ some (length g.dialogues)
  new_channel = ground (arith, channels channel)

  kept_call :
      (k : Text) (p : ℕ)
      → find_call k g.call_id_to_dialogue ≡ some p
      → find_call k g'.call_id_to_dialogue ≡ some p
  kept_call k p e = elim (Bool-cases (text_eq c k)) [
    | inl y ↦ absurd (
        ground
          (arith, e, fresh, ap (λ x. find_call x g.call_id_to_dialogue) ((text_eq_iff c k).0 y)))
    | inr n ↦ ground (arith, calls k, n, e)
  ]

  kept_channel :
      (k p : ℕ)
      → find_channel k g.channel_to_dialogue ≡ some p
      → find_channel k g'.channel_to_dialogue ≡ some p
  kept_channel k p e = elim (Bool-cases (channel == k)) [
    | inl y ↦ absurd (ground (arith, e, y, channel_fresh))
    | inr n ↦ ground (arith, channels k, n, e)
  ]

  -- The pointer of the new dialogue.
  pub new_held : Holds (start_new g c m) (length g.dialogues) (create (g.last_channel_id + 1) c m)
  new_held = ground (arith, holds (length g.dialogues))

  kept : (p : ℕ) (d : SipDialogue) → Holds g p d → Holds g' p d
  kept p d h = ground (arith, holds p, h, get_elem?-lt g.dialogues p d h)

  -- A dialogue of the new manager is the new one or an old one.
  which :
      (p : ℕ) (d : SipDialogue)
      → Holds g' p d
      → ((p ≡ length g.dialogues) × (d ≡ new)) ⊎ Holds g p d
  which p d h = elim (Bool-cases (p == length g.dialogues)) [
    | inl y ↦ inl (ground (arith, y), ground (arith, y, h, holds p))
    | inr n ↦ inr (ground (arith, n, h, holds p))
  ]

  -- A new dialogue keeps the manager valid.
  pub start_new-IsValid : IsValid (start_new g c m)
  start_new-IsValid = record {
    calls = λ k p e. elim (Bool-cases (text_eq c k)) [
      | inl y ↦
          let keys = create-keys channel c m in
          (
            new,
            subst (λ q. Holds g' q new) (ground (arith, calls k, y, e)) new_held,
            keys.0 ∙ (text_eq_iff c k).0 y,
          )
      | inr n ↦
          let (d, hd, same) = v.calls k p (ground (arith, calls k, n, e)) in (d, kept p d hd, same)
    ];
    channels = λ k p e. elim (Bool-cases (channel == k)) [
      | inl y ↦
          let keys = create-keys channel c m in
          (
            new,
            subst (λ q. Holds g' q new) (ground (arith, channels k, y, e)) new_held,
            keys.1 ∙ ground (arith, y),
            ground (arith, y, last),
          )
      | inr n ↦
          let (d, hd, same, le) = v.channels k p (ground (arith, channels k, n, e)) in
          (d, kept p d hd, same, omega (arith, le, last))
    ];
    call_found = λ p d h. elim (which p d h) [
      | inl w ↦
          ap (λ x. find_call x g'.call_id_to_dialogue)
            (ap (λ x. x.call_id) (w.1) ∙ (create-keys channel c m).0)
          ∙ new_call
          ∙ ap some (sym (w.0))
      | inr w ↦ kept_call d.call_id p (v.call_found p d w)
    ];
    channel_found = λ p d h. elim (which p d h) [
      | inl w ↦
          ap (λ x. find_channel x g'.channel_to_dialogue)
            (ap (λ x. x.channel_id) (w.1) ∙ (create-keys channel c m).1)
          ∙ new_channel
          ∙ ap some (sym (w.0))
      | inr w ↦ kept_channel d.channel_id p (v.channel_found p d w)
    ];
    active = λ p d h. elim (which p d h) [
      | inl w ↦ subst IsActive (sym (w.1)) (create-IsActive channel c m)
      | inr w ↦ v.active p d w
    ];
  }

  -- The fresh Call-ID has the new dialogue, the others have what they had.
  pub lookup-start_new :
      (k : Text)
      → lookup (start_new g c m) k
        ≡ (if text_eq c k then some (create (g.last_channel_id + 1) c m) else lookup g k)
  lookup-start_new k = elim (Option-cases (find_call k g.call_id_to_dialogue)) [
    | inl none_k ↦ ground (arith, none_k, calls k, new_held)
    | inr (p, some_k) ↦
        let (d, hd, _) = v.calls k p some_k in
        ground (arith, some_k, fresh, text_eq_iff c k, calls k, new_held, hd, kept p d hd)
  ]
