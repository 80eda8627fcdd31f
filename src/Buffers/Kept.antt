-- ===== src/Buffers/Kept.antt =====
-- Where `buffer_trim` and `buffer_split_on_first` meet a text of known parts, `t` behind it in memory.
use mathlib.Core.List.{append_assoc, reverse}
use sip_processing.Prelude.{
  ℕ, zero, suc, ◌+◌, ◌≡◌, refl, sym, ap, ◌∙◌, true, false, [], ◌∷◌, ◌++◌, Text, length, ◌==◌, arith,
  length-append, take-append,
}
use sip_processing.Buffers.{
  MappedBuffer, bytes, view, no_buffer, trim_front_from, trim_back_from, buffer_trim,
  buffer_trim_front, buffer_trim_back, split_first_from, buffer_split_on_first,
}
use sip_processing.Buffers.Trim.{StartsKept, length-reverse}
use sip_processing.Buffers.First.{Lacks}

-- The view of `w` with `t` behind it.
abbrev pub before : Text → Text → MappedBuffer
before w t = view (w ++ t) (length w)

pub bytes-before : (w t : Text) → bytes (before w t) ≡ w
bytes-before w t = take-append w t

suc_test : (n : ℕ) → (suc n == 0) ≡ false
suc_test n = ground arith

trim_front_kept : (w t : Text) → StartsKept 0 w → buffer_trim_front (before w t) 0 ≡ before w t
unfolding buffer_trim_front trim_front_from
trim_front_kept [] t h = refl
trim_front_kept (c ∷ w) t h = rw (suc_test (length w), h, trim_front_from) refl

trim_back_from-kept : (r : Text) → StartsKept 0 r → trim_back_from 0 r ≡ length r
unfolding trim_back_from
trim_back_from-kept [] h = refl
trim_back_from-kept (c ∷ r) h = rw (h, trim_back_from) refl

trim_back_kept :
    (w t : Text) → StartsKept 0 (reverse w) → buffer_trim_back (before w t) 0 ≡ before w t
unfolding buffer_trim_back
trim_back_kept [] t h = refl
trim_back_kept (c ∷ w) t h =
    rw (suc_test (length w), take-append w t)
      (ap (view ((c ∷ w) ++ t)) (trim_back_from-kept (reverse (c ∷ w)) h ∙ length-reverse (c ∷ w)))

-- A text without white space at both ends stays as it is.
pub buffer_trim-kept :
    (w t : Text)
    → StartsKept 0 w
    → StartsKept 0 (reverse w)
    → buffer_trim (before w t) 0 ≡ before w t
unfolding buffer_trim
buffer_trim-kept w t h k =
    ap (λ b. buffer_trim_back b 0) (trim_front_kept w t h) ∙ trim_back_kept w t k

split_first_lem :
    (b : MappedBuffer) (d : ℕ) (w s t : Text) (m count : ℕ)
    → Lacks d w
    → m ≡ length w + suc (length s)
    → split_first_from b d m (w ++ (d ∷ (s ++ t))) count
      ≡ view b.buf (count + length w) ∷ before s t ∷ []
unfolding split_first_from
split_first_lem b d [] s t zero count h e = absurd (omega arith)
split_first_lem b d [] s t (suc m) count h e =
    let found : (d == d) ≡ true = ground arith in
    let rest : m ≡ length s = omega arith in
    let here : count ≡ count + 0 = omega arith in
    rw (found, split_first_from, rest) (rw (sym here) refl)
split_first_lem b d (c ∷ w) s t zero count h e = absurd (omega arith)
split_first_lem b d (c ∷ w) s t (suc m) count h e =
    let other : (c == d) ≡ false = ground arith in
    rw (other, split_first_from)
      (split_first_lem b d w s t m (count + 1) h.1 (omega arith)
        ∙ ap (λ n. view b.buf n ∷ before s t ∷ []) (omega arith))

pub buffer_split_on_first-at :
    (d : ℕ) (w s t : Text)
    → Lacks d w
    → buffer_split_on_first (before (w ++ (d ∷ s)) t) d ≡ before w (d ∷ (s ++ t)) ∷ before s t ∷ []
unfolding buffer_split_on_first
buffer_split_on_first-at d w s t h =
    let start : 0 + length w ≡ length w = omega arith in
    rw (append_assoc w (d ∷ s) t, sym start)
      (split_first_lem (view (w ++ (d ∷ (s ++ t))) (length (w ++ (d ∷ s)))) d w s t
        (length (w ++ (d ∷ s))) 0 h (length-append w (d ∷ s)))

split_none_lem :
    (b : MappedBuffer) (d : ℕ) (w t : Text) (count : ℕ)
    → Lacks d w
    → split_first_from b d (length w) (w ++ t) count ≡ b ∷ no_buffer ∷ []
unfolding split_first_from
split_none_lem b d [] t count h = refl
split_none_lem b d (c ∷ w) t count h =
    let other : (c == d) ≡ false = ground arith in
    rw (other, split_first_from) (split_none_lem b d w t (count + 1) h.1)

pub buffer_split_on_first-absent :
    (d : ℕ) (w t : Text)
    → Lacks d w
    → buffer_split_on_first (before w t) d ≡ before w t ∷ no_buffer ∷ []
unfolding buffer_split_on_first
buffer_split_on_first-absent d w t h = split_none_lem (before w t) d w t 0 h
