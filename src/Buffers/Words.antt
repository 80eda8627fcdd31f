-- ===== src/Buffers/Words.antt =====
-- The views that the splits of src/components/utilities/buffers.cpp give for a text put together from
-- words or from lines, with the memory behind each.
use mathlib.Core.List.{append_assoc}
use sip_processing.Prelude.{
  ℕ, zero, suc, ◌+◌, ◌≡◌, ◌≢◌, refl, ap, ◌∙◌, Bool, true, false, not, ◌&&◌, Bool-cases, inl, inr,
  List, [], ◌∷◌, ◌++◌, Text, length, arith, length-append,
}
use sip_processing.Buffers.{
  MappedBuffer, view, fields_from, is_line_end, is_separator, buffer_split, buffer_split_lines,
}

-- No character of the text ends a field.
abbrev pub Unstopped : (ℕ → Bool) → Text → Type 0
Unstopped stop [] = Unit
Unstopped stop (c ∷ cs) = (stop c ≡ false) × Unstopped stop cs

pub Unstopped-append :
    (f : ℕ → Bool) (s t : Text) → Unstopped f s → Unstopped f t → Unstopped f (s ++ t)
Unstopped-append f [] t h k = k
Unstopped-append f (c ∷ s) t h k = (h.0, Unstopped-append f s t h.1 k)

-- The same as a test.
abbrev pub passes : (ℕ → Bool) → Text → Bool
passes stop [] = true
passes stop (c ∷ cs) = not (stop c) && passes stop cs

pub passes-Unstopped : (stop : ℕ → Bool) (s : Text) → passes stop s ≡ true → Unstopped stop s
passes-Unstopped stop [] h = tt
passes-Unstopped stop (c ∷ s) h = (ground arith, passes-Unstopped stop s (ground arith))

abbrev pub AreWords : (ℕ → Bool) → List Text → Type 0
AreWords stop [] = Unit
AreWords stop (w ∷ ws) = (w ≢ []) × Unstopped stop w × AreWords stop ws

-- Where no field is read, what was read before does not count.
fresh_lem :
    (stop : ℕ → Bool) (n : ℕ) (p start : Text) (count : ℕ)
    → fields_from stop n p false start count ≡ fields_from stop n p false [] 0
unfolding fields_from
fresh_lem stop zero p start count = refl
fresh_lem stop (suc n) [] start count = refl
fresh_lem stop (suc n) (c ∷ cs) start count = elim (Bool-cases (stop c)) [
  | inl e ↦ rw (e, fields_from) (fresh_lem stop n cs start 0)
  | inr e ↦ rw (e, fields_from) refl
]

-- `m` bytes are left: those of the word and `n` more.
reading_lem :
    (stop : ℕ → Bool) (w : Text) (m n : ℕ) (t start : Text) (count : ℕ)
    → m ≡ length w + n
    → Unstopped stop w
    → fields_from stop m (w ++ t) true start count
      ≡ fields_from stop n t true start (count + length w)
unfolding fields_from
reading_lem stop [] m n t start count e h =
    let all : m ≡ n = omega arith in
    ap (λ k. fields_from stop k t true start count) all
    ∙ ap (fields_from stop n t true start) (omega arith)
reading_lem stop (c ∷ w) zero n t start count e h = absurd (omega arith)
reading_lem stop (c ∷ w) (suc m) n t start count e h =
    rw (h.0, fields_from)
      (reading_lem stop w m n t start (count + 1) (omega arith) h.1
        ∙ ap (fields_from stop n t true start) (omega arith))

-- A word is read from its first character on, up to its end or the end of the text.
word_lem :
    (stop : ℕ → Bool) (w : Text) (m n : ℕ) (t : Text)
    → m ≡ length w + n
    → w ≢ []
    → Unstopped stop w
    → fields_from stop m (w ++ t) false [] 0 ≡ fields_from stop n t true (w ++ t) (length w)
unfolding fields_from
word_lem stop [] m n t e h k = absurd (h refl)
word_lem stop (c ∷ w) zero n t e h k = absurd (omega arith)
word_lem stop (c ∷ w) (suc m) n t e h k =
    rw (k.0, fields_from)
      (reading_lem stop w m n t (c ∷ (w ++ t)) 1 (omega arith) k.1
        ∙ ap (fields_from stop n t true (c ∷ (w ++ t))) (omega arith))

stop_lem :
    (stop : ℕ → Bool) (d n : ℕ) (t start : Text) (count : ℕ)
    → stop d ≡ true
    → fields_from stop (suc n) (d ∷ t) true start count
      ≡ view start count ∷ fields_from stop n t false [] 0
unfolding fields_from
stop_lem stop d n t start count h =
    rw (h, fields_from) (ap (◌∷◌ (view start count)) (fresh_lem stop n t start 0))

end_lem :
    (stop : ℕ → Bool) (t start : Text) (count : ℕ)
    → fields_from stop 0 t true start count ≡ view start count ∷ []
unfolding fields_from
end_lem stop t start count = refl

-- The words with `d` between each two.
abbrev pub joined : ℕ → List Text → Text
joined d [] = []
joined d (w ∷ []) = w
joined d (w ∷ v ∷ ws) = w ++ (d ∷ joined d (v ∷ ws))

-- Each word as a view of the text, `t` behind all of them.
abbrev pub word_views : ℕ → List Text → Text → List MappedBuffer
word_views d [] t = []
word_views d (w ∷ []) t = view (w ++ t) (length w) ∷ []
word_views d (w ∷ v ∷ ws) t =
    view (w ++ (d ∷ (joined d (v ∷ ws) ++ t))) (length w) ∷ word_views d (v ∷ ws) t

fields_from-joined :
    (stop : ℕ → Bool) (d : ℕ) (ws : List Text) (t : Text)
    → stop d ≡ true
    → AreWords stop ws
    → fields_from stop (length (joined d ws)) (joined d ws ++ t) false [] 0 ≡ word_views d ws t
fields_from-joined stop d [] t h k = unfold fields_from in refl
fields_from-joined stop d (w ∷ []) t h (full, plain, k) =
    word_lem stop w (length w) 0 t (omega arith) full plain ∙ end_lem stop t (w ++ t) (length w)
fields_from-joined stop d (w ∷ v ∷ ws) t h (full, plain, k) =
    let rest = joined d (v ∷ ws) in
    ap (λ s. fields_from stop (length (w ++ (d ∷ rest))) s false [] 0) (append_assoc w (d ∷ rest) t)
    ∙ word_lem stop w (length (w ++ (d ∷ rest))) (suc (length rest)) (d ∷ (rest ++ t))
        (length-append w (d ∷ rest)) full plain
    ∙ stop_lem stop d (length rest) (rest ++ t) (w ++ (d ∷ (rest ++ t))) (length w) h
    ∙ ap (◌∷◌ (view (w ++ (d ∷ (rest ++ t))) (length w))) (fields_from-joined stop d (v ∷ ws) t h k)

pub buffer_split-joined :
    (d : ℕ) (ws : List Text) (t : Text)
    → AreWords (is_separator d) ws
    → buffer_split (view (joined d ws ++ t) (length (joined d ws))) d ≡ word_views d ws t
unfolding buffer_split
buffer_split-joined d ws t k = fields_from-joined (is_separator d) d ws t (ground arith) k

-- The lines with a carriage return and a line feed behind each.
abbrev pub unlines : List Text → Text
unlines [] = []
unlines (l ∷ ls) = l ++ (b'\r' ∷ b'\n' ∷ unlines ls)

abbrev pub line_views : List Text → List MappedBuffer
line_views [] = []
line_views (l ∷ ls) = view (l ++ (b'\r' ∷ b'\n' ∷ unlines ls)) (length l) ∷ line_views ls

skip_lem :
    (stop : ℕ → Bool) (d n : ℕ) (t : Text)
    → stop d ≡ true
    → fields_from stop (suc n) (d ∷ t) false [] 0 ≡ fields_from stop n t false [] 0
unfolding fields_from
skip_lem stop d n t h = rw (h, fields_from) refl

fields_from-unlines :
    (ls : List Text)
    → AreWords is_line_end ls
    → fields_from is_line_end (length (unlines ls)) (unlines ls) false [] 0 ≡ line_views ls
fields_from-unlines [] k = unfold fields_from in refl
fields_from-unlines (l ∷ ls) (full, plain, k) =
    let rest = b'\n' ∷ unlines ls in
    word_lem is_line_end l (length (l ++ (b'\r' ∷ rest))) (suc (length rest)) (b'\r' ∷ rest)
      (length-append l (b'\r' ∷ rest)) full plain
    ∙ stop_lem is_line_end b'\r' (length rest) rest (l ++ (b'\r' ∷ rest)) (length l) refl
    ∙ ap (◌∷◌ (view (l ++ (b'\r' ∷ rest)) (length l))) (
        skip_lem is_line_end b'\n' (length (unlines ls)) (unlines ls) refl
        ∙ fields_from-unlines ls k)

pub buffer_split_lines-unlines :
    (ls : List Text)
    → AreWords is_line_end ls
    → buffer_split_lines (view (unlines ls) (length (unlines ls))) ≡ line_views ls
unfolding buffer_split_lines
buffer_split_lines-unlines ls k = fields_from-unlines ls k
