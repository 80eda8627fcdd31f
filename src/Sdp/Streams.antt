-- ===== src/Sdp/Streams.antt =====
-- src/components/sdp/Sdp.cpp: the operations that reach a stream by its id, which counts from 1.
use sip_processing.Prelude.{
  ℕ, ◌+◌, ◌-◌, ◌%◌, ◌^◌, ◌<◌, ◌≤◌, ◌≡◌, ◌⊎◌, inl, inr, Text, length, arith, some, true, none,
  Option, leb, get_elem?, set, get_elem?-some, Bool-cases, Option-cases, ◌>>=◌, [], ◌∷◌, ◌++◌,
}
use sip_processing.Sdp.Attribute.{of_strings}
use sip_processing.Sdp.Media.{SdpMedia, add_attribute}
use sip_processing.Sdp.Description.{Sdp, change_media, media_index, add_stream_strings}
use sip_processing.Sdp.Readable.{IsReady}

-- The description where the stream `id` is another one, and the same one if there is no such stream.
pub data ChangedStream (f : SdpMedia → Option SdpMedia) (id : ℕ) (sdp : Sdp)
    : Option Sdp → Type 0 where
  changed :
      (m n : SdpMedia)
      → 1 ≤ id
      → id ≤ sdp.stream_count
      → get_elem? sdp.media (id - 1) ≡ some m
      → f m ≡ some n
      → ChangedStream f id sdp (some (record sdp { media = set sdp.media (id - 1) n }))
  refused :
      (m : SdpMedia)
      → 1 ≤ id
      → id ≤ sdp.stream_count
      → get_elem? sdp.media (id - 1) ≡ some m
      → f m ≡ none
      → ChangedStream f id sdp none
  no_stream : (id ≡ 0) ⊎ (sdp.stream_count < id) → ChangedStream f id sdp (some sdp)

change_media-ChangedStream :
    (f : SdpMedia → Option SdpMedia) (id : ℕ) (sdp : Sdp)
    → id < 2 ^ 16
    → IsReady true sdp
    → ChangedStream f id sdp (change_media f (media_index id) sdp)
change_media-ChangedStream f id sdp small (log, count) =
    elim (Bool-cases (leb sdp.stream_count ((id + 2 ^ 16 - 1) % 2 ^ 16))) [
      | inl e ↦
          let absent : (id ≡ 0) ⊎ (sdp.stream_count < id) = ground arith in
          rw e (simp log (no_stream absent))
      | inr e ↦
          let below : sdp.stream_count ≤ length sdp.media = omega arith in
          let few : sdp.stream_count < 2 ^ 8 = omega arith in
          let positive : 1 ≤ id = ground arith in
          let index : (id + 2 ^ 16 - 1) % 2 ^ 16 ≡ id - 1 = omega arith in
          let counted : id ≤ sdp.stream_count = ground arith in
          let (m, found) = get_elem?-some sdp.media (id - 1) (omega arith) in
          rw (e, index, found) (at m positive counted found (Option-cases (f m)))
    ]
  where
    at :
        (m : SdpMedia)
        → 1 ≤ id
        → id ≤ sdp.stream_count
        → get_elem? sdp.media (id - 1) ≡ some m
        → (f m ≡ none) ⊎ ((n : SdpMedia) × (f m ≡ some n))
        → ChangedStream f id sdp
            (f m >>= λ n. some (record sdp { media = set sdp.media (id - 1) n }))
    at m p c found (inl e) = rw e (refused m p c found e)
    at m p c found (inr (n, e)) = rw e (changed m n p c found e)

-- From a description that has the log and counts its streams modulo 256, adding an attribute of three
-- texts for a 16-bit stream id changes that stream alone, by adding the attribute at its end, and
-- changes nothing when there is no stream of that id.
pub add_stream_strings-ChangedStream :
    (id : ℕ) (name value parameters : Text) (sdp : Sdp)
    → id < 2 ^ 16
    → IsReady true sdp
    → ChangedStream
        (λ m.
          some (record m { attributes = m.attributes ++ (of_strings name value parameters ∷ []) }))
        id
        sdp
        (add_stream_strings id name value parameters sdp)
unfolding add_stream_strings add_attribute
add_stream_strings-ChangedStream id name value parameters sdp small ready =
    change_media-ChangedStream
      (λ m.
        some (record m { attributes = m.attributes ++ (of_strings name value parameters ∷ []) }))
      id sdp small ready
