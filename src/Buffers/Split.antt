-- ===== src/Buffers/Split.antt =====
-- `buffer_split` and `buffer_split_lines` against the components of a text.
use mathlib.Core.List.{append_assoc}
use sip_processing.Prelude.{
  ℕ, zero, suc, ◌+◌, ◌≡◌, ◌≢◌, inl, inr, refl, sym, ◌∙◌, Bool, true, false, Bool-cases, List, [],
  ◌∷◌, ◌++◌, map, Text, if◌then◌else◌, length, take, arith, length-append, take-append,
}
use sip_processing.Buffers.{
  MappedBuffer, bytes, view, fields_from, is_line_end, is_separator, buffer_split_lines,
  buffer_split,
}

-- The components of a text between the characters where `stop` holds, `cur` in front.
unfoldable pub components_from : (ℕ → Bool) → Text → Text → List Text
components_from stop cur [] = cur ∷ []
components_from stop cur (c ∷ cs) = elim (stop c) [
  | true ↦ cur ∷ components_from stop [] cs
  | false ↦ components_from stop (cur ++ (c ∷ [])) cs
]

unfoldable pub drop_empty : List Text → List Text
drop_empty [] = []
drop_empty ([] ∷ l) = drop_empty l
drop_empty ((c ∷ cs) ∷ l) = (c ∷ cs) ∷ drop_empty l

-- The components that are not empty.
unfoldable pub fields : (ℕ → Bool) → Text → List Text
unfolding components_from drop_empty
fields stop s = drop_empty (components_from stop [] s)

-- What the loop knows: the field read so far is `cur`.
abbrev At : Bool → Text → Text → ℕ → Text → Type 0
At true cur start count p = (start ≡ cur ++ p) × (count ≡ length cur) × (cur ≢ [])
At false cur start count p = cur ≡ []

drop_empty-cons :
    (cur : Text) (l : List Text) → cur ≢ [] → drop_empty (cur ∷ l) ≡ cur ∷ drop_empty l
unfolding drop_empty
drop_empty-cons [] l h = absurd (h refl)
drop_empty-cons (x ∷ cur) l h = refl

drop_empty-nil : (l : List Text) → drop_empty ([] ∷ l) ≡ drop_empty l
unfolding drop_empty
drop_empty-nil l = refl

bytes-view :
    (cur start p : Text) (count : ℕ)
    → start ≡ cur ++ p
    → count ≡ length cur
    → bytes (view start count) ≡ cur
bytes-view cur start p count e f = rw (e, f) (take-append cur p)

concat_ne : (cur : Text) (c : ℕ) → cur ++ (c ∷ []) ≢ []
concat_ne [] c e = cc
concat_ne (x ∷ cur) c e = cc

flush_lem :
    (reading : Bool) (cur start p : Text) (count : ℕ)
    → At reading cur start count p
    → map bytes (if reading then view start count ∷ [] else []) ≡ drop_empty (cur ∷ [])
unfolding drop_empty
flush_lem true cur start p count (e, f, h) =
    rw (bytes-view cur start p count e f) (sym (drop_empty-cons cur [] h))
flush_lem false cur start p count e = rw e refl

fields_from-components :
    (stop : ℕ → Bool) (n : ℕ) (p : Text) (reading : Bool) (start : Text) (count : ℕ) (cur : Text)
    → At reading cur start count p
    → map bytes (fields_from stop n p reading start count)
      ≡ drop_empty (components_from stop cur (take n p))
unfolding fields_from components_from
fields_from-components stop zero p reading start count cur a = flush_lem reading cur start p count a
fields_from-components stop (suc n) [] reading start count cur a =
    flush_lem reading cur start [] count a
fields_from-components stop (suc n) (c ∷ cs) true start count cur (e, f, h) =
    elim (Bool-cases (stop c)) [
      | inl s ↦
          rw (s, fields_from, components_from)
            (rw
              (
                drop_empty-cons cur _ h,
                bytes-view cur start (c ∷ cs) count e f,
                fields_from-components stop n cs false start 0 [] refl,
              )
              refl)
      | inr s ↦
          rw (s, fields_from, components_from)
            (fields_from-components stop n cs true start (count + 1) (cur ++ (c ∷ [])) (
              e ∙ sym (append_assoc cur (c ∷ []) cs),
              omega (arith, f, length-append cur (c ∷ [])),
              concat_ne cur c,
            ))
    ]
fields_from-components stop (suc n) (c ∷ cs) false start count cur e = elim (Bool-cases (stop c)) [
  | inl s ↦
      rw (s, e, fields_from, components_from)
        (fields_from-components stop n cs false start 0 [] refl ∙ sym (drop_empty-nil _))
  | inr s ↦
      rw (s, e, fields_from, components_from)
        (fields_from-components stop n cs true (c ∷ cs) 1 (c ∷ []) (refl, refl, λ d. cc))
]

-- The pieces of `buffer_split` are the non-empty components between delimiters and zero bytes.
pub buffer_split-fields :
    (b : MappedBuffer) (delimiter : ℕ)
    → map bytes (buffer_split b delimiter) ≡ fields (is_separator delimiter) (bytes b)
unfolding buffer_split fields
buffer_split-fields b delimiter =
    fields_from-components (is_separator delimiter) b.len b.buf false [] 0 [] refl

-- The pieces of `buffer_split_lines` are the non-empty lines.
pub buffer_split_lines-fields :
    (b : MappedBuffer) → map bytes (buffer_split_lines b) ≡ fields is_line_end (bytes b)
unfolding buffer_split_lines fields
buffer_split_lines-fields b = fields_from-components is_line_end b.len b.buf false [] 0 [] refl
