-- ===== src/DialogueManager/Valid.antt =====
-- The two maps of the manager agree with the dialogues and with one another.
use sip_processing.Prelude.{
  inl, inr, Option-cases, ℕ, zero, suc, ◌≤◌, ◌<◌, ◌≡◌, List, [], Option, none, ◌∷◌, some, Text,
  ◌==◌, if◌then◌else◌, length, get_elem?, arith, get_elem?-set,
}
use sip_processing.SipDialogue.{SipTransaction, SipDialogue}
use sip_processing.DialogueManager.{Manager, initial, find_channel, find_call, update_dialogue}

-- Dialogue `d` stands behind pointer `p`.
abbrev pub Holds : Manager → ℕ → SipDialogue → Type 0
Holds g p d = get_elem? g.dialogues p ≡ some d

-- The abstract view of the manager: the dialogue of each Call-ID.
abbrev pub lookup : Manager → Text → Option SipDialogue
lookup g c = elim (find_call c g.call_id_to_dialogue) [
  | none ↦ none
  | some p ↦ get_elem? g.dialogues p
]

-- The dialogue has a transaction on its own channel.
abbrev pub IsActive : SipDialogue → Type 0
IsActive d = (t : SipTransaction) × (d.current_transaction ≡ some t) × (t.channel_id ≡ d.channel_id)

-- A map's entry leads to a dialogue with that key, every dialogue is found under its two keys, and
-- it has a transaction; no channel is above the last one that was given.
pub record IsValid (g : Manager) : Type 0 where
  pub calls :
      (c : Text) (p : ℕ)
      → find_call c g.call_id_to_dialogue ≡ some p
      → (d : SipDialogue) × Holds g p d × (d.call_id ≡ c)
  pub channels :
      (c p : ℕ)
      → find_channel c g.channel_to_dialogue ≡ some p
      → (d : SipDialogue) × Holds g p d × (d.channel_id ≡ c) × (c ≤ g.last_channel_id)
  pub call_found :
      (p : ℕ) (d : SipDialogue) → Holds g p d → find_call d.call_id g.call_id_to_dialogue ≡ some p
  pub channel_found :
      (p : ℕ) (d : SipDialogue)
      → Holds g p d
      → find_channel d.channel_id g.channel_to_dialogue ≡ some p
  pub active : (p : ℕ) (d : SipDialogue) → Holds g p d → IsActive d

-- The empty manager is valid.
pub initial-IsValid : IsValid initial
unfolding find_call find_channel
initial-IsValid = record {
  calls = λ c p e. cc;
  channels = λ c p e. cc;
  call_found = λ p d e. cc;
  channel_found = λ p d e. cc;
  active = λ p d e. cc;
}

-- What a change of one dialogue keeps.
pub record Keeps (f : SipDialogue → SipDialogue) : Type 0 where
  pub call_id : (d : SipDialogue) → (f d).call_id ≡ d.call_id
  pub channel_id : (d : SipDialogue) → (f d).channel_id ≡ d.channel_id
  pub transaction : (d : SipDialogue) → (f d).current_transaction ≡ d.current_transaction

pub get_elem?-lt {ℓ} :
    {A : Type ℓ} (xs : List A) (i : ℕ) (a : A) → get_elem? xs i ≡ some a → i < length xs
get_elem?-lt [] i a e = absurd (cc)
get_elem?-lt (x ∷ xs) zero a e = omega arith
get_elem?-lt (x ∷ xs) (suc i) a e = omega (arith, get_elem?-lt xs i a e)

-- The dialogues after the change of one.
pub updated :
    (f : SipDialogue → SipDialogue) (g : Manager) (q p : ℕ) (d : SipDialogue)
    → Holds g q d
    → get_elem? (update_dialogue f q g).dialogues p
      ≡ (if q == p then some (f d) else get_elem? g.dialogues p)
updated f g q p d h =
    ground (arith, h, get_elem?-set g.dialogues q p (f d) (get_elem?-lt g.dialogues q d h))

-- A dialogue that the abstract view shows has a transaction.
pub lookup-IsActive :
    (g : Manager) → IsValid g → (c : Text) (d : SipDialogue) → lookup g c ≡ some d → IsActive d
lookup-IsActive g v c d at = elim (Option-cases (find_call c g.call_id_to_dialogue)) [
  | inl absent ↦ absurd (ground (arith, absent, at))
  | inr (p, present) ↦ v.active p d (ground (arith, present, at))
]
