-- ===== src/DialogueManager/Update.antt =====
-- A change of one dialogue keeps what the maps say.
use mathlib.Core.Path.{ap₂}
use sip_processing.Prelude.{
  ℕ, ◌≡◌, ◌∙◌, refl, sym, ap, inl, inr, Bool, true, false, some, Text, text_eq, text_eq_iff, ◌==◌,
  if◌then◌else◌, arith, Option-cases, Bool-cases,
}
use sip_processing.SipDialogue.{SipDialogue, DialogueState, set_state, set_recording}
use sip_processing.DialogueManager.{Manager, find_channel, find_call, update_dialogue}
use sip_processing.DialogueManager.Valid.{Holds, lookup, IsValid, Keeps, updated}

pub set_state-Keeps : (s : DialogueState) → Keeps (set_state s)
set_state-Keeps s = record { call_id = λ d. refl; channel_id = λ d. refl; transaction = λ d. refl }

pub set_recording-Keeps : (b : Bool) → Keeps (set_recording b)
set_recording-Keeps b = record {
  call_id = λ d. refl;
  channel_id = λ d. refl;
  transaction = λ d. refl;
}

module _ (f : SipDialogue → SipDialogue) (k : Keeps f) (g : Manager) (q : ℕ) (old : SipDialogue)
    (h : Holds g q old) where
  -- What stands behind a pointer after the change.
  forward :
      (p : ℕ) (d : SipDialogue)
      → Holds g p d
      → (e : SipDialogue) × Holds (update_dialogue f q g) p e
        × (e.call_id ≡ d.call_id)
        × (e.channel_id ≡ d.channel_id)
        × (e.current_transaction ≡ d.current_transaction)
  forward p d hp = elim (Bool-cases (q == p)) [
    | inl y ↦ (
      f d,
      ground (arith, updated f g q p old h, hp, h, y),
      k.call_id d,
      k.channel_id d,
      k.transaction d,
    )
    | inr n ↦ (d, ground (arith, updated f g q p old h, hp, n), refl, refl, refl)
  ]

  changed :
      (p : ℕ) (e : SipDialogue) → Holds (update_dialogue f q g) p e → (q == p) ≡ true → e ≡ f old
  changed p e hp y = ground (arith, updated f g q p old h, hp, y)

  backward :
      (p : ℕ) (e : SipDialogue)
      → Holds (update_dialogue f q g) p e
      → (d : SipDialogue) × Holds g p d
        × (e.call_id ≡ d.call_id)
        × (e.channel_id ≡ d.channel_id)
        × (e.current_transaction ≡ d.current_transaction)
  backward p e hp = elim (Bool-cases (q == p)) [
    | inl y ↦
        let same : e ≡ f old = changed p e hp y in
        (
          old,
          ground (arith, h, y),
          ap (λ x. x.call_id) same ∙ k.call_id old,
          ap (λ x. x.channel_id) same ∙ k.channel_id old,
          ap (λ x. x.current_transaction) same ∙ k.transaction old,
        )
    | inr n ↦ (e, ground (arith, updated f g q p old h, hp, n), refl, refl, refl)
  ]

  -- The two maps are what they were.
  same_maps :
      ((update_dialogue f q g).call_id_to_dialogue ≡ g.call_id_to_dialogue)
      × ((update_dialogue f q g).channel_to_dialogue ≡ g.channel_to_dialogue)
      × ((update_dialogue f q g).last_channel_id ≡ g.last_channel_id)
  same_maps = ground (arith, h)

  -- The change of one dialogue keeps a valid manager valid.
  pub update_dialogue-IsValid : IsValid g → IsValid (update_dialogue f q g)
  update_dialogue-IsValid v = record {
    calls = λ c p e.
        let (d, hd, same) = v.calls c p (ap (find_call c) (sym (same_maps.0)) ∙ e) in
        let (d', hd', call, _, _) = forward p d hd in (d', hd', call ∙ same);
    channels = λ c p e.
        let (d, hd, same, le) = v.channels c p (ap (find_channel c) (sym (same_maps.1)) ∙ e) in
        let (d', hd', _, channel, _) = forward p d hd in
        (d', hd', channel ∙ same, omega (arith, same_maps.2, le));
    call_found = λ p e he.
        let (d, hd, call, _, _) = backward p e he in
        ap₂ find_call call (same_maps.0) ∙ v.call_found p d hd;
    channel_found = λ p e he.
        let (d, hd, _, channel, _) = backward p e he in
        ap₂ find_channel channel (same_maps.1) ∙ v.channel_found p d hd;
    active = λ p e he.
        let (d, hd, _, channel, transaction) = backward p e he in
        let (t, at, own) = v.active p d hd in (t, transaction ∙ at, own ∙ sym channel);
  }

  -- Two Call-IDs do not share a dialogue.
  apart :
      IsValid g
      → (c k : Text) (p : ℕ) → find_call c g.call_id_to_dialogue ≡ some q
      → find_call k g.call_id_to_dialogue ≡ some p
      → text_eq c k ≡ false
      → (q == p) ≡ false
  apart v c k p e e' n = elim (Bool-cases (q == p)) [
    | inl y ↦
        let (d, hd, same) = v.calls c q e in
        let (d', hd', same') = v.calls k p e' in
        absurd (ground (arith, hd, hd', same, same', n, y, text_eq_iff c k))
    | inr differ ↦ differ
  ]

  -- One Call-ID has the changed dialogue, the others have what they had.
  pub lookup-update_dialogue :
      (c k : Text)
      → IsValid g
      → find_call c g.call_id_to_dialogue ≡ some q
      → lookup (update_dialogue f q g) k ≡ (if text_eq c k then some (f old) else lookup g k)
  lookup-update_dialogue c k v e = elim (Bool-cases (text_eq c k)) [
    | inl y ↦ ground (
      arith,
      e,
      y,
      ap (λ x. find_call x g.call_id_to_dialogue) ((text_eq_iff c k).0 y),
      same_maps.0,
      updated f g q q old h,
    )
    | inr n ↦ elim (Option-cases (find_call k g.call_id_to_dialogue)) [
      | inl none_k ↦ ground (arith, n, none_k, same_maps.0)
      | inr (p, some_k) ↦
          ground (arith, n, some_k, same_maps.0, updated f g q p old h, apart v c k p e some_k n)
    ]
  ]
