-- ===== src/Buffers/Trim.antt =====
-- `buffer_trim`, front and back.
use mathlib.Core.List.{
  append_assoc, append-nil, reverse, reverse-append, reverse-reverse, reverse-cons,
}
use sip_processing.Prelude.{
  ℕ, zero, suc, ◌≡◌, inl, inr, refl, sym, ap, ◌∙◌, true, false, Bool-cases, [], ◌∷◌, ◌++◌, Text,
  ◌==◌, ==_iff, length, take, drop, arith, length-append, take-append_of,
}
use sip_processing.Buffers.{
  MappedBuffer, bytes, is_trimmed, trim_front_from, trim_back_from, buffer_trim_front,
  buffer_trim_back, buffer_trim,
}

abbrev pub AllTrimmed : ℕ → Text → Type 0
AllTrimmed v [] = Unit
AllTrimmed v (c ∷ cs) = (is_trimmed v c ≡ true) × AllTrimmed v cs

abbrev pub StartsKept : ℕ → Text → Type 0
StartsKept v [] = Unit
StartsKept v (c ∷ cs) = is_trimmed v c ≡ false

trim_front_from-lem :
    (v n : ℕ) (p : Text)
    → (front : Text) × (take n p ≡ front ++ bytes (trim_front_from v n p))
      × AllTrimmed v front
      × StartsKept v (bytes (trim_front_from v n p))
unfolding trim_front_from
trim_front_from-lem v zero p = ([], refl, tt, tt)
trim_front_from-lem v (suc n) [] = ([], refl, tt, tt)
trim_front_from-lem v (suc n) (c ∷ cs) = elim (Bool-cases (is_trimmed v c)) [
  | inl t ↦
      let (front, e, a, k) = trim_front_from-lem v n cs in
      (c ∷ front, rw (t, trim_front_from) (ap (◌∷◌ c) e), (t, a), rw (t, trim_front_from) k)
  | inr t ↦ ([], rw (t, trim_front_from) refl, tt, rw (t, trim_front_from) t)
]

front_lem :
    (b : MappedBuffer) (v : ℕ)
    → (front : Text) × (bytes b ≡ front ++ bytes (buffer_trim_front b v))
      × AllTrimmed v front
      × StartsKept v (bytes (buffer_trim_front b v))
unfolding buffer_trim_front
front_lem b v = elim (Bool-cases (b.len == 0)) [
  | inl e ↦ ([], rw (e, buffer_trim_front) refl, tt, rw (e, buffer_trim_front) (none_kept e))
  | inr e ↦ rw (e, buffer_trim_front) (trim_front_from-lem v b.len b.buf)
]
  where
    none_kept : (b.len == 0) ≡ true → StartsKept v (bytes b)
    none_kept e = rw ((==_iff _ _).0 e) tt

trim_back_from-lem :
    (v : ℕ) (r : Text)
    → (back kept : Text) × (r ≡ back ++ kept)
      × (trim_back_from v r ≡ length kept)
      × AllTrimmed v back
      × StartsKept v kept
unfolding trim_back_from
trim_back_from-lem v [] = ([], [], refl, refl, tt, tt)
trim_back_from-lem v (c ∷ cs) = elim (Bool-cases (is_trimmed v c)) [
  | inl t ↦
      let (back, kept, e, n, a, k) = trim_back_from-lem v cs in
      (c ∷ back, kept, ap (◌∷◌ c) e, rw (t, trim_back_from) n, (t, a), k)
  | inr t ↦ ([], c ∷ cs, refl, rw (t, trim_back_from) refl, tt, t)
]

AllTrimmed-append : (v : ℕ) (s t : Text) → AllTrimmed v s → AllTrimmed v t → AllTrimmed v (s ++ t)
AllTrimmed-append v [] t h k = k
AllTrimmed-append v (c ∷ s) t h k = (h.0, AllTrimmed-append v s t h.1 k)

AllTrimmed-reverse : (v : ℕ) (s : Text) → AllTrimmed v s → AllTrimmed v (reverse s)
AllTrimmed-reverse v [] h = tt
AllTrimmed-reverse v (c ∷ s) h =
    rw reverse-cons
      (AllTrimmed-append v (reverse s) (c ∷ []) (AllTrimmed-reverse v s h.1) (h.0, tt))

pub length-reverse : (s : Text) → length (reverse s) ≡ length s
length-reverse [] = refl
length-reverse (c ∷ s) =
    rw (reverse-cons c s, length-append (reverse s) (c ∷ [])) (omega (arith, length-reverse s))

pub take-append-drop : (n : ℕ) (xs : Text) → take n xs ++ drop n xs ≡ xs
take-append-drop zero xs = refl
take-append-drop (suc n) [] = refl
take-append-drop (suc n) (x ∷ xs) = ap (◌∷◌ x) (take-append-drop n xs)

back_lem :
    (b : MappedBuffer) (v : ℕ)
    → (back : Text) × (bytes b ≡ bytes (buffer_trim_back b v) ++ back)
      × AllTrimmed v back
      × StartsKept v (reverse (bytes (buffer_trim_back b v)))
unfolding buffer_trim_back
back_lem b v = elim (Bool-cases (b.len == 0)) [
  | inl e ↦ (
    [],
    rw (e, buffer_trim_back) (sym (append-nil _)),
    tt,
    rw (e, buffer_trim_back) (rw ((==_iff _ _).0 e) tt),
  )
  | inr e ↦
      let (back, kept, r, n, a, k) = trim_back_from-lem v (reverse (bytes b)) in
      let split : bytes b ≡ reverse kept ++ reverse back =
        sym (reverse-reverse (bytes b)) ∙ ap reverse r ∙ reverse-append back kept in
      let cut : take (trim_back_from v (reverse (bytes b))) b.buf ≡ reverse kept =
        ap (take (trim_back_from v (reverse (bytes b)))) (
          sym (take-append-drop b.len b.buf)
          ∙ ap (λ t. t ++ drop b.len b.buf) split
          ∙ append_assoc (reverse kept) (reverse back) (drop b.len b.buf))
        ∙ take-append_of _ (reverse kept) _ (n ∙ sym (length-reverse kept)) in
      (
        reverse back,
        rw (e, buffer_trim_back) (rw cut split),
        AllTrimmed-reverse v back a,
        rw (e, buffer_trim_back) (rw (cut, reverse-reverse kept) k),
      )
]

StartsKept-prefix : (v : ℕ) (s t : Text) → StartsKept v (s ++ t) → StartsKept v s
StartsKept-prefix v [] t h = tt
StartsKept-prefix v (c ∷ s) t h = h

-- `buffer_trim` takes characters that are to go from the front and the back, and what is left
-- neither begins nor ends with one.
pub buffer_trim-tight :
    (b : MappedBuffer) (value : ℕ)
    → (front back : Text) × (bytes b ≡ front ++ (bytes (buffer_trim b value) ++ back))
      × AllTrimmed value front
      × AllTrimmed value back
      × StartsKept value (bytes (buffer_trim b value))
      × StartsKept value (reverse (bytes (buffer_trim b value)))
unfolding buffer_trim
buffer_trim-tight b v =
    let (front, e, a, k) = front_lem b v in
    let (back, f, c, l) = back_lem (buffer_trim_front b v) v in
    (front, back, e ∙ ap (λ t. front ++ t) f, a, c, StartsKept-prefix v _ back (rw f at k), l)
