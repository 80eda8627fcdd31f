-- ===== src/MediaPorts/Answer.antt =====
-- `MediaSessionManager::allocate` of src/components/media/session/MediaSessionManager.cpp for the answer
-- of the default constructor.
use mathlib.Core.Option.{some-ne-none, some-injective}
use sip_processing.Prelude.{
  ℕ, zero, suc, ◌^◌, ◌<◌, ◌≡◌, ◌⊎◌, ◌∙◌, inl, inr, refl, Option-cases, Bool-cases, ltb, ltb→lt,
  none, some, Text, arith, ◌≢◌, sym, ap, [], Option,
}
use sip_processing.Sdp.Origin
use sip_processing.Sdp.Media.{add_format, add_key_value}
use sip_processing.Sdp.Description
use sip_processing.Sdp.Description.{
  Sdp, default_sdp, set_session_id, get_session_id, set_origin, set_connection,
}
use sip_processing.MediaPorts.{PortPool, create, allocate_port, allocate_session_id}
use sip_processing.MediaPorts.Sessions.{
  MediaSessionManager, new_manager, id_of_call, get_session, answer_stream, answer_streams,
  local_answer, allocate_new, allocate,
}

answer_streams-none :
    (streams : ℕ) (ports : PortPool) (answer : Sdp)
    → 0 < streams
    → answer_streams streams ports answer ≡ none
unfolding answer_streams answer_stream add_format add_key_value
answer_streams-none zero ports answer h = absurd (omega arith)
answer_streams-none (suc streams) ports answer h = elim (Option-cases (allocate_port ports)) [
  | inl outside ↦ rw outside refl
  | inr (p, inside) ↦ rw inside refl
]

allocate_new-none :
    (offer answer : Sdp) (m : MediaSessionManager)
    → 0 < offer.stream_count
    → allocate_new offer answer m ≡ none
allocate_new-none offer answer m h =
    rw (answer_streams-none offer.stream_count m.ports (local_answer answer) h) refl

allocate_new-empty :
    (offer : Sdp) (t : ℕ) (m : MediaSessionManager)
    → m.ports.next_session_id < 2 ^ 32
    → offer.stream_count ≡ 0
    → (a : Sdp) × (allocate_new offer (default_sdp t) m
        ≡ some (m.ports.next_session_id, a, record m { ports = (allocate_session_id m.ports).1 }))
      × (get_session_id a ≡ m.ports.next_session_id)
unfolding answer_streams set_session_id get_session_id Description.to_string set_connection
    set_origin Origin.of_strings
allocate_new-empty offer t m small e = (
  set_session_id m.ports.next_session_id (local_answer (default_sdp t)),
  rw e refl,
  omega (arith, small),
)

-- What a new call gives, when it returns.
NewCall : MediaSessionManager → Option (ℕ × Sdp × MediaSessionManager) → Type 0
NewCall m r =
    (r ≡ none)
    ⊎ ((a : Sdp) × (ports : PortPool) × (r
          ≡ some (
            (allocate_session_id ports).0,
            a,
            record m { ports = (allocate_session_id ports).1 },
          )))

allocate_new-NewCall :
    (offer answer : Sdp) (m : MediaSessionManager) → NewCall m (allocate_new offer answer m)
unfolding NewCall
allocate_new-NewCall offer answer m =
    elim (Option-cases (answer_streams offer.stream_count m.ports (local_answer answer))) [
      | inl e ↦ inl (rw e refl)
      | inr ((ports, a), e) ↦ elim (Option-cases (Description.to_string a)) [
        | inl q ↦ inl (rw (e, q) refl)
        | inr (text, q) ↦ inr (set_session_id ports.next_session_id a, ports, rw (e, q) refl)
      ]
    ]

allocate-new :
    (call_id : Text) (offer answer : Sdp) (m : MediaSessionManager) (text : Text)
    → Description.to_string offer ≡ some text
    → get_session call_id m ≡ none
    → allocate call_id offer answer m ≡ allocate_new offer answer m
unfolding allocate answer_streams
allocate-new call_id offer answer m text printed new = rw (printed, new) refl

allocate-unprinted :
    (call_id : Text) (offer answer : Sdp) (m : MediaSessionManager)
    → Description.to_string offer ≡ none
    → allocate call_id offer answer m ≡ none
unfolding allocate
allocate-unprinted call_id offer answer m e = rw e refl

-- A manager that calls of `allocate` have led to from the constructor, each with any offer and answer.
pub data Reached : MediaSessionManager → Type 0 where
  start : Reached new_manager
  step :
      (call_id : Text) (offer answer : Sdp) (m next : MediaSessionManager) (id : ℕ) (a : Sdp)
      → Reached m
      → allocate call_id offer answer m ≡ some (id, a, next)
      → Reached next

-- No call has a session, and the next id fits.
HasNone : MediaSessionManager → Type 0
HasNone m = (m.call_id_to_session_id_lookup ≡ []) × (m.ports.next_session_id < 2 ^ 32)

no_session : (call_id : Text) (m : MediaSessionManager) → HasNone m → get_session call_id m ≡ none
unfolding HasNone get_session id_of_call
no_session call_id m (e, small) = rw e refl

step-HasNone :
    (call_id : Text) (offer answer : Sdp) (m next : MediaSessionManager) (id : ℕ) (a : Sdp)
    → HasNone m
    → allocate call_id offer answer m ≡ some (id, a, next)
    → HasNone next
unfolding HasNone NewCall
step-HasNone call_id offer answer m next id a h e =
    elim (Option-cases (Description.to_string offer)) [
      | inl q ↦ absurd (some-ne-none _ (sym e ∙ allocate-unprinted call_id offer answer m q))
      | inr (text, q) ↦
          let same = allocate-new call_id offer answer m text q (no_session call_id m h) in
          elim (allocate_new-NewCall offer answer m) [
            | inl n ↦ absurd (some-ne-none _ (sym e ∙ same ∙ n))
            | inr (b, ports, r) ↦
                let both = some-injective _ _ (sym r ∙ sym same ∙ e) in
                let manager = ap (λ x. x.2) both in
                (
                  sym (ap (λ m. m.call_id_to_session_id_lookup) manager) ∙ h.0,
                  rw (sym (ap (λ m. m.ports.next_session_id) manager)) (omega arith),
                )
          ]
    ]

Reached-HasNone : (m : MediaSessionManager) → Reached m → HasNone m
unfolding HasNone create
Reached-HasNone _ start = (refl, omega arith)
Reached-HasNone _ (step call_id offer answer m next id a reached e) =
    step-HasNone call_id offer answer m next id a (Reached-HasNone m reached) e

-- `allocate` for the next call, with an answer of the default constructor, on a manager that any calls of
-- `allocate` have led to from the constructor. An offer that can not be printed makes it read what
-- is not there. An offer that can be printed and has a stream makes it use the null pointer to the log of the
-- new stream. An offer that can be printed and has no streams gets the next session id, which is also
-- that of the answer, and takes no port, also for a Call-ID that had one before.
pub allocate-Outcome :
    (call_id : Text) (offer : Sdp) (t : ℕ) (m : MediaSessionManager)
    → Reached m
    → ((Description.to_string offer ≡ none) × (allocate call_id offer (default_sdp t) m ≡ none))
      ⊎ ((0 < offer.stream_count) × (allocate call_id offer (default_sdp t) m ≡ none))
      ⊎ ((Description.to_string offer ≢ none)
          × (offer.stream_count ≡ 0)
          × ((a : Sdp) × (allocate call_id offer (default_sdp t) m
                ≡ some (
                  m.ports.next_session_id,
                  a,
                  record m { ports = (allocate_session_id m.ports).1 },
                ))
              × (get_session_id a ≡ m.ports.next_session_id)))
unfolding HasNone
allocate-Outcome call_id offer t m reached =
    let h = Reached-HasNone m reached in
    elim (Option-cases (Description.to_string offer)) [
      | inl q ↦ inl (q, allocate-unprinted call_id offer (default_sdp t) m q)
      | inr (text, q) ↦
          let same = allocate-new call_id offer (default_sdp t) m text q (no_session call_id m h) in
          elim (Bool-cases (ltb 0 offer.stream_count)) [
            | inl streams ↦ inr (
                inl (
                  ltb→lt _ _ streams,
                  same ∙ allocate_new-none offer (default_sdp t) m (ltb→lt _ _ streams),
                ))
            | inr nothing ↦
                let zero_streams : offer.stream_count ≡ 0 = ground arith in
                let (a, done, back) = allocate_new-empty offer t m h.1 zero_streams in
                inr (inr ((λ e. some-ne-none _ (sym q ∙ e)), zero_streams, (a, same ∙ done, back)))
          ]
    ]
