-- ===== src/Buffers/Join.antt =====
-- `buffers_join` and `buffer_split` undo one another.
use mathlib.Core.List.{append_assoc, append-nil}
use sip_processing.Prelude.{
  ℕ, ◌+◌, ◌<◌, ◌≡◌, ◌≢◌, refl, ap, ◌∙◌, true, false, List, [], ◌∷◌, ◌++◌, map, Text, ◌==◌, arith,
  take_all,
}
use sip_processing.Buffers.{
  bytes, mapped_buffer, buffer_split, buffers_join, join_from, is_separator,
}
use sip_processing.Buffers.Split.{components_from, drop_empty, fields, buffer_split-fields}

-- No character of the text is a delimiter or a zero byte.
abbrev pub IsPlain : ℕ → Text → Type 0
IsPlain delimiter [] = Unit
IsPlain delimiter (c ∷ cs) = (is_separator delimiter c ≡ false) × IsPlain delimiter cs

-- Texts that `buffer_split` can give: not empty, and plain.
abbrev pub AreFields : ℕ → List Text → Type 0
AreFields delimiter [] = Unit
AreFields delimiter (f ∷ fs) = (f ≢ []) × IsPlain delimiter f × AreFields delimiter fs

components_from-plain :
    (d : ℕ) (f cur t : Text)
    → IsPlain d f
    → components_from (is_separator d) cur (f ++ t) ≡ components_from (is_separator d) (cur ++ f) t
unfolding components_from
components_from-plain d [] cur t h = rw (append-nil cur) refl
components_from-plain d (c ∷ f) cur t h =
    rw (h.0, components_from)
      (components_from-plain d f (cur ++ (c ∷ [])) t h.1 ∙ rw (append_assoc cur (c ∷ []) f) refl)

separator_self : (d : ℕ) → is_separator d d ≡ true
separator_self d = ground arith

components_from-join :
    (d i : ℕ) (fs : List Text) (cur : Text)
    → 0 < i
    → AreFields d fs
    → components_from (is_separator d) cur (join_from i (map mapped_buffer fs) d) ≡ cur ∷ fs
unfolding join_from components_from
components_from-join d i [] cur p h = refl
components_from-join d i (f ∷ fs) cur p h =
    let tail = join_from (i + 1) (map mapped_buffer fs) d in
    let later = components_from-join d (i + 1) fs f (omega arith) h.2 in
    let zero_test : (i == 0) ≡ false = ground arith in
    rw (zero_test, take_all f)
      (rw (separator_self d, components_from)
        (ap (◌∷◌ cur) (components_from-plain d f [] tail h.1 ∙ later)))

drop_empty-fields : (d : ℕ) (fs : List Text) → AreFields d fs → drop_empty fs ≡ fs
unfolding drop_empty
drop_empty-fields d [] h = refl
drop_empty-fields d ([] ∷ fs) h = absurd (h.0 refl)
drop_empty-fields d ((c ∷ f) ∷ fs) h = ap (◌∷◌ (c ∷ f)) (drop_empty-fields d fs h.2)

fields-join :
    (d : ℕ) (fs : List Text)
    → AreFields d fs
    → fields (is_separator d) (buffers_join (map mapped_buffer fs) d 0) ≡ fs
unfolding fields buffers_join join_from components_from drop_empty
fields-join d [] h = refl
fields-join d (f ∷ fs) h =
    let tail = join_from 1 (map mapped_buffer fs) d in
    rw (take_all f) (
      ap drop_empty
        (components_from-plain d f [] tail h.1 ∙ components_from-join d 1 fs f (omega arith) h.2)
      ∙ drop_empty-fields d (f ∷ fs) h)

-- Splitting what was joined gives the texts back, if each is non-empty and free of the delimiter
-- and of zero bytes.
pub buffer_split-join :
    (delimiter : ℕ) (fs : List Text)
    → AreFields delimiter fs
    → map bytes
        (buffer_split (mapped_buffer (buffers_join (map mapped_buffer fs) delimiter 0)) delimiter)
      ≡ fs
buffer_split-join d fs h =
    buffer_split-fields (mapped_buffer (buffers_join (map mapped_buffer fs) d 0)) d
    ∙ ap (fields (is_separator d)) (take_all (buffers_join (map mapped_buffer fs) d 0))
    ∙ fields-join d fs h
