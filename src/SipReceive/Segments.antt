-- ===== src/SipReceive/Segments.antt =====
-- What the parser gets from the receive loops of src/components/sip/SipInterface.cpp.
use sip_processing.Prelude.{
  ℕ, ◌≡◌, ◌≤◌, ◌∙◌, sym, ap, List, [], ◌∷◌, ◌++◌, Option, some, none, Text, length, take, drop,
  stream, length-take, arith,
}
use mathlib.Core.List.{append_assoc, append-nil}
use sip_processing.Buffers.Trim.{take-append-drop}
use sip_processing.SipReceive.{Received, drained, faulted}

-- The parser has loaded these segments one after the other, from the state `s` to the state `t`.
pub data Fed {S : Type 0} (load : Text → ℕ → S → Option (ℕ × S)) (s : S)
    : List Text → S → Type 0 where
  none_yet : Fed load s [] s
  more :
      (segments : List Text) (segment out : Text) (t u : S) (pending : ℕ)
      → Fed load s segments t
      → take (length segment) out ≡ segment
      → load out (length segment) t ≡ some (pending, u)
      → Fed load s (segments ++ (segment ∷ [])) u

pub stream-snoc : (ss : List Text) (s : Text) → stream (ss ++ (s ∷ [])) ≡ stream ss ++ s
stream-snoc [] s = append-nil s
stream-snoc (t ∷ ss) s = ap (λ k. t ++ k) (stream-snoc ss s) ∙ sym (append_assoc t (stream ss) s)

-- The bytes pulled from `xs` move from what is stored to what is loaded.
pub stream-moved :
    (ss : List Text) (n : ℕ) (xs rest : Text)
    → rest ≡ drop n xs
    → stream (ss ++ (take n xs ∷ [])) ++ rest ≡ stream ss ++ xs
stream-moved ss n xs rest e =
    ap (λ k. stream (ss ++ (take n xs ∷ [])) ++ k) e
    ∙ ap (λ k. k ++ drop n xs) (stream-snoc ss (take n xs))
    ∙ append_assoc (stream ss) (take n xs) (drop n xs)
    ∙ ap (λ k. stream ss ++ k) (take-append-drop n xs)

pub more-taken :
    {S : Type 0} (load : Text → ℕ → S → Option (ℕ × S)) (s t u : S) (segments : List Text)
    (n pending : ℕ) (out xs : Text)
    → Fed load s segments t
    → n ≤ length xs
    → take n out ≡ take n xs
    → load out n t ≡ some (pending, u)
    → Fed load s (segments ++ (take n xs ∷ [])) u
more-taken load s t u segments n pending out xs fed few same e =
    let size : length (take n xs) ≡ n = ground (arith, length-take n xs) in
    more segments (take n xs) out t u pending fed (ap (λ k. take k out) size ∙ same)
      (ap (λ k. load out k t) size ∙ e)

-- What a receive loop comes to: the parser has loaded all of `bytes` but what is `left` stored, or
-- it has loaded a part of them and does not return from the next call.
pub data Outcome {S : Type 0} (load : Text → ℕ → S → Option (ℕ × S)) (s : S) (bytes : Text)
    {C : Type 0} (state : C → S) (left : C → Text) : Received C → Type 0 where
  loaded :
      (segments : List Text) (u : C)
      → Fed load s segments (state u)
      → stream segments ++ left u ≡ bytes
      → Outcome load s bytes state left (drained u)
  stuck :
      (segments : List Text) (t : S) (out rest : Text) (n : ℕ)
      → Fed load s segments t
      → load out n t ≡ none
      → stream segments ++ rest ≡ bytes
      → Outcome load s bytes state left faulted
