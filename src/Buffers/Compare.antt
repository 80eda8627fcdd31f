-- ===== src/Buffers/Compare.antt =====
-- What the comparisons of views decide.
use mathlib.Core.List.{reverse, reverse-append, reverse-reverse, reverse-cons, map-append}
use sip_processing.Prelude.{
  ℕ, zero, suc, ◌+◌, ◌≤◌, ◌<◌, ◌≡◌, ◌≢◌, ◌↔◌, inl, inr, refl, sym, ap, ◌∙◌, Bool, true, false,
  Bool-cases, ltb→lt, [], ◌∷◌, ◌++◌, map, Text, ltb, ==_iff, length, drop, arith, length-append,
  length-take,
}
use sip_processing.Buffers.{
  MappedBuffer, bytes, to_upper, same_char, equals_from, buffer_equals, starts_from,
  buffer_starts_with, buffer_ends_with, contains_from, buffer_contains,
}

-- The view lies inside its memory.
abbrev pub IsView : MappedBuffer → Type 0
IsView b = b.len ≤ length b.buf

pub length-bytes : (b : MappedBuffer) → IsView b → length (bytes b) ≡ b.len
length-bytes b h = length-take b.len b.buf ∙ omega arith

abbrev fold_char : Bool → ℕ → ℕ
fold_char true c = c
fold_char false c = to_upper c

-- The text as the comparisons see it: capitals only, unless they are sensitive to case.
unfoldable pub folded : Bool → Text → Text
folded case_sensitivity = map (fold_char case_sensitivity)

same_char_iff : (c : Bool) (p v : ℕ) → (same_char c p v ≡ true) ↔ (fold_char c p ≡ fold_char c v)
unfolding same_char
same_char_iff true p v = ==_iff p v
same_char_iff false p v = ==_iff (to_upper p) (to_upper v)

equals_from_iff :
    (c : Bool) (ps vs : Text) → (equals_from c ps vs ≡ true) ↔ (folded c ps ≡ folded c vs)
unfolding equals_from folded
equals_from_iff c [] [] = ground arith
equals_from_iff c [] (v ∷ vs) = ground arith
equals_from_iff c (p ∷ ps) [] = ground arith
equals_from_iff c (p ∷ ps) (v ∷ vs) = ground (arith, same_char_iff c p v, equals_from_iff c ps vs)

nil_of_length : (s : Text) → length s ≡ 0 → s ≡ []
nil_of_length [] h = refl
nil_of_length (x ∷ s) h = absurd (omega arith)

length-folded : (c : Bool) (s : Text) → length (folded c s) ≡ length s
unfolding folded
length-folded c [] = refl
length-folded c (x ∷ s) = ap suc (length-folded c s)

length_of_folded : (c : Bool) (s : Text) → folded c s ≡ folded c [] → length s ≡ 0
unfolding folded
length_of_folded c [] e = refl
length_of_folded c (x ∷ s) e = absurd (cc)

-- On a view, `buffer_equals` returns true exactly when its bytes are the text of the C string, both
-- in capitals where the case does not count.
pub buffer_equals_iff :
    (b : MappedBuffer) (value : Text) (c : Bool)
    → IsView b
    → (buffer_equals b value c ≡ true) ↔ (folded c (bytes b) ≡ folded c value)
unfolding buffer_equals
buffer_equals_iff b [] c h = (
  (λ e. ap (folded c) (nil_of_length (bytes b) (length-bytes b h ∙ (==_iff _ _).0 e))),
  λ e. (==_iff _ _).1 (sym (length-bytes b h) ∙ length_of_folded c (bytes b) e),
)
buffer_equals_iff b (v ∷ vs) c h = equals_from_iff c (bytes b) (v ∷ vs)

starts_from_iff :
    (c : Bool) (ps vs : Text)
    → (starts_from c ps vs ≡ true) ↔ ((rest : Text) × (folded c ps ≡ folded c vs ++ rest))
unfolding starts_from folded
starts_from_iff c ps [] = ((λ h. (folded c ps, refl)), λ h. refl)
starts_from_iff c [] (v ∷ vs) = ((λ h. cc), λ h. cc h.1)
starts_from_iff c (p ∷ ps) (v ∷ vs) =
    let (to, from) = starts_from_iff c ps vs in
    let (alike, likewise) = same_char_iff c p v in
    (
      (λ h. elim (Bool-cases (same_char c p v)) [
        | inl e ↦ let (rest, r) = to (rw e at h) in (rest, ground (arith, alike e))
        | inr e ↦ absurd (ground arith)
      ]),
      λ h. ground (arith, likewise (ground arith), from (h.0, ground arith)),
    )

-- `buffer_starts_with` returns true exactly when the view's bytes begin with the text of the C
-- string, which is not empty, both in capitals where the case does not count.
pub buffer_starts_with_iff :
    (b : MappedBuffer) (value : Text) (c : Bool)
    → value ≢ []
    → (buffer_starts_with b value c ≡ true)
      ↔ ((rest : Text) × (folded c (bytes b) ≡ folded c value ++ rest))
unfolding buffer_starts_with
buffer_starts_with_iff b [] c h = absurd (h refl)
buffer_starts_with_iff b (v ∷ vs) c h = starts_from_iff c (bytes b) (v ∷ vs)

folded-reverse : (c : Bool) (s : Text) → folded c (reverse s) ≡ reverse (folded c s)
unfolding folded
folded-reverse c [] = refl
folded-reverse c (x ∷ s) =
    ap (folded c) (reverse-cons x s)
    ∙ map-append (fold_char c) (reverse s) (x ∷ [])
    ∙ ap (λ t. t ++ (fold_char c x ∷ [])) (folded-reverse c s)
    ∙ sym (reverse-cons (fold_char c x) (folded c s))

ends_of_starts :
    (c : Bool) (s v : Text)
    → ((rest : Text) × (folded c (reverse s) ≡ folded c (reverse v) ++ rest))
    → (front : Text) × (folded c s ≡ front ++ folded c v)
ends_of_starts c s v (rest, e) = (
  reverse rest,
  sym (reverse-reverse (folded c s))
      ∙ ap reverse (sym (folded-reverse c s) ∙ e)
      ∙ reverse-append (folded c (reverse v)) rest
      ∙ ap (λ t. reverse rest ++ t)
          (ap reverse (folded-reverse c v) ∙ reverse-reverse (folded c v)),
)

starts_of_ends :
    (c : Bool) (s v : Text)
    → ((front : Text) × (folded c s ≡ front ++ folded c v))
    → (rest : Text) × (folded c (reverse s) ≡ folded c (reverse v) ++ rest)
starts_of_ends c s v (front, e) = (
  reverse front,
  folded-reverse c s
      ∙ ap reverse e
      ∙ reverse-append front (folded c v)
      ∙ ap (λ t. t ++ reverse front) (sym (folded-reverse c v)),
)

-- On a view, `buffer_ends_with` returns true exactly when its bytes end with the text of the C
-- string, which is not empty, both in capitals where the case does not count.
pub buffer_ends_with_iff :
    (b : MappedBuffer) (value : Text) (c : Bool)
    → IsView b
    → value ≢ []
    → (buffer_ends_with b value c ≡ true)
      ↔ ((front : Text) × (folded c (bytes b) ≡ front ++ folded c value))
unfolding buffer_ends_with
buffer_ends_with_iff b [] c h k = absurd (k refl)
buffer_ends_with_iff b (v ∷ vs) c h k = elim (Bool-cases (ltb b.len (length (v ∷ vs)))) [
  | inl short ↦ rw short (
    (λ e. absurd (cc)),
    λ r. absurd (
        omega (
          arith,
          ltb→lt _ _ short,
          length-bytes b h,
          length-folded c (bytes b),
          length-folded c (v ∷ vs),
          ap (length {A = ℕ}) r.1,
          length-append r.0 (folded c (v ∷ vs)),
        )),
  )
  | inr long ↦ rw long (
    (λ e. ends_of_starts c (bytes b) (v ∷ vs) ((starts_from_iff c _ _).0 e)),
    λ r. (starts_from_iff c _ _).1 (starts_of_ends c (bytes b) (v ∷ vs) r),
  )
]

contains_from_sound :
    (c : Bool) (rounds : ℕ) (ps value : Text)
    → contains_from c rounds ps value ≡ true
    → (front rest : Text) × (folded c ps ≡ front ++ (folded c value ++ rest))
unfolding contains_from
contains_from_sound c zero ps value e = cc
contains_from_sound c (suc rounds) ps value e = elim (Bool-cases (starts_from c ps value)) [
  | inl here ↦ let (rest, r) = (starts_from_iff c ps value).0 here in ([], rest, r)
  | inr not_here ↦ later ps (contains_from_sound c rounds (drop 1 ps) value (rw not_here at e))
]
  where
    later :
        (ps : Text)
        → ((front rest : Text) × (folded c (drop 1 ps) ≡ front ++ (folded c value ++ rest)))
        → (front rest : Text) × (folded c ps ≡ front ++ (folded c value ++ rest))
    later [] r = r
    later (p ∷ ps) (front, rest, r) =
        (fold_char c p ∷ front, rest, unfold folded in ap (◌∷◌ (fold_char c p)) r)

contains_from_complete :
    (c : Bool) (rounds : ℕ) (ps value front rest : Text)
    → length front < rounds
    → folded c ps ≡ front ++ (folded c value ++ rest)
    → contains_from c rounds ps value ≡ true
unfolding contains_from
contains_from_complete c zero ps value front rest h e = elim h [ ]
contains_from_complete c (suc rounds) ps value [] rest h e =
    rw ((starts_from_iff c ps value).1 (rest, e)) refl
contains_from_complete c (suc rounds) [] value (f ∷ front) rest h e = absurd (unfold folded in cc)
contains_from_complete c (suc rounds) (p ∷ ps) value (f ∷ front) rest h e =
    let later =
      contains_from_complete c rounds ps value front rest (omega arith) (unfold folded in cc) in
    ground (arith, later)

-- On a view, `buffer_contains` returns true exactly when the text of the C string stands somewhere
-- in its bytes, both in capitals where the case does not count.
pub buffer_contains_iff :
    (b : MappedBuffer) (value : Text) (c : Bool)
    → IsView b
    → (buffer_contains b value c ≡ true)
      ↔ ((front rest : Text) × (folded c (bytes b) ≡ front ++ (folded c value ++ rest)))
unfolding buffer_contains
buffer_contains_iff b value c h = elim (Bool-cases (ltb b.len (length value))) [
  | inl short ↦
      rw short ((λ e. absurd (cc)), λ r. absurd (omega (arith, ltb→lt _ _ short, count r)))
  | inr long ↦ rw long (
    (λ e. contains_from_sound c _ _ _ e),
    λ r. contains_from_complete c _ (bytes b) value r.0 r.1 (omega (arith, count r)) r.2,
  )
]
  where
    count :
        (r : (front rest : Text) × (folded c (bytes b) ≡ front ++ (folded c value ++ rest)))
        → length r.0 + length value ≤ b.len
    count (front, rest, e) = omega (
      arith,
      length-bytes b h,
      length-folded c (bytes b),
      length-folded c value,
      ap (length {A = ℕ}) e,
      length-append front (folded c value ++ rest),
      length-append (folded c value) rest,
    )
