-- ===== src/Buffers/First.antt =====
-- `buffer_split_on_first`.
use sip_processing.Prelude.{
  ℕ, zero, suc, ◌+◌, ◌≡◌, ◌≢◌, inl, inr, refl, sym, ◌∙◌, Bool-cases, List, [], ◌∷◌, ◌++◌, Text,
  ◌==◌, ==_iff, length, take, arith, length-append, take-append,
}
use mathlib.Core.List.{append_assoc, append-nil}
use sip_processing.Buffers.{
  MappedBuffer, bytes, view, no_buffer, split_first_from, buffer_split_on_first,
}

abbrev pub Lacks : ℕ → Text → Type 0
Lacks d [] = Unit
Lacks d (c ∷ cs) = (c ≢ d) × Lacks d cs

-- The two pieces: what stands before the first delimiter and what stands behind it, or the whole
-- text and nothing.
pub data SplitOnFirst (b : MappedBuffer) (d : ℕ) (r : List MappedBuffer) : Type 0 where
  at_first :
      (first second : MappedBuffer)
      → r ≡ first ∷ second ∷ []
      → bytes b ≡ bytes first ++ (d ∷ bytes second)
      → Lacks d (bytes first)
      → SplitOnFirst b d r
  absent : r ≡ b ∷ no_buffer ∷ [] → Lacks d (bytes b) → SplitOnFirst b d r

Lacks-concat : (d c : ℕ) (s : Text) → Lacks d s → c ≢ d → Lacks d (s ++ (c ∷ []))
Lacks-concat d c [] h k = (k, tt)
Lacks-concat d c (x ∷ s) h k = (h.0, Lacks-concat d c s h.1 k)

split_first_from-SplitOnFirst :
    (b : MappedBuffer) (d n : ℕ) (p done : Text) (count : ℕ)
    → b.buf ≡ done ++ p
    → count ≡ length done
    → Lacks d done
    → bytes b ≡ done ++ take n p
    → SplitOnFirst b d (split_first_from b d n p count)
unfolding split_first_from
split_first_from-SplitOnFirst b d zero p done count e f h k =
    absent refl (rw (k, append-nil done) h)
split_first_from-SplitOnFirst b d (suc n) [] done count e f h k =
    absent refl (rw (k, append-nil done) h)
split_first_from-SplitOnFirst b d (suc n) (c ∷ cs) done count e f h k = elim (Bool-cases (c == d)) [
  | inl s ↦
      rw (s, split_first_from)
        (at_first (view b.buf count) (view cs n) refl
          (k ∙ rw (f, e, take-append done (c ∷ cs), (==_iff c d).0 s) refl)
          (rw (f, e, take-append done (c ∷ cs)) h))
  | inr s ↦
      rw (s, split_first_from)
        (split_first_from-SplitOnFirst b d n cs (done ++ (c ∷ [])) (count + 1)
          (e ∙ sym (append_assoc done (c ∷ []) cs)) (omega (arith, f, length-append done (c ∷ [])))
          (Lacks-concat d c done h (ground arith))
          (k ∙ sym (append_assoc done (c ∷ []) (take n cs))))
]

-- `buffer_split_on_first` splits at the first delimiter, which it leaves out; with no delimiter it
-- gives the whole view and an empty one.
pub buffer_split_on_first-SplitOnFirst :
    (b : MappedBuffer) (delimiter : ℕ)
    → SplitOnFirst b delimiter (buffer_split_on_first b delimiter)
unfolding buffer_split_on_first
buffer_split_on_first-SplitOnFirst b d =
    split_first_from-SplitOnFirst b d b.len b.buf [] 0 refl refl tt refl
