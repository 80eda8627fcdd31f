-- ===== src/SipInterface/Returns.antt =====
-- The messages on which `processMessage` of src/components/sip/SipInterface.cpp uses no null pointer.
use sip_processing.Prelude.{◌≡◌, Option, some}
use sip_processing.SipMessage.{SipMessage}
use sip_processing.SipDialogue.{SipDialogue}

-- The code returns.
abbrev Returns {ℓ} : {A : Type ℓ} → Option A → Type ℓ
Returns {A = A} o = (a : A) × (o ≡ some a)
