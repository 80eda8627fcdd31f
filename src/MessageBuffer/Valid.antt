-- ===== src/MessageBuffer/Valid.antt =====
-- The representation invariant of the buffer and the bytes that it stores, oldest first.
use sip_processing.Prelude.{
  ℕ, ◌+◌, ◌-◌, ◌^◌, ◌≤◌, ◌<◌, ◌≡◌, refl, List, [], ◌∷◌, ◌++◌, none, ltb, leb, if◌then◌else◌, length,
  get_elem?, set, take, drop, arith, length-append, length-take, length-drop, length-set,
  get_elem?-set, get_elem?-take, get_elem?-drop, get_elem?-append,
}
use sip_processing.MessageBuffer.{MessageBuffer, write, get_stored_byte_count}

pub record IsValid (m : MessageBuffer) : Type 0 where
  pub size_is : m.size ≡ m.max_capacity + 1
  pub content_is : length m.content ≡ m.size
  pub small : m.size < 2 ^ 64
  pub start_in : m.data_start_pos ≤ m.size
  pub end_in : m.data_end_pos ≤ m.size
  pub fits : get_stored_byte_count m ≤ m.max_capacity

abbrev pub contents : MessageBuffer → List ℕ
contents m =
    if leb m.data_start_pos m.data_end_pos
    then take (m.data_end_pos - m.data_start_pos) (drop m.data_start_pos m.content)
    else drop m.data_start_pos m.content ++ take m.data_end_pos m.content

pub length-contents :
    (m : MessageBuffer) → IsValid m → length (contents m) ≡ get_stored_byte_count m
unfolding get_stored_byte_count
length-contents m v = ground (
  arith,
  length-take (m.data_end_pos - m.data_start_pos) (drop m.data_start_pos m.content),
  length-drop m.data_start_pos m.content,
  length-append (drop m.data_start_pos m.content) (take m.data_end_pos m.content),
  length-take m.data_end_pos m.content,
)

-- The index of the array where the `i`-th stored byte stands.
abbrev pub place : MessageBuffer → ℕ → ℕ
place m i =
    if ltb (m.data_start_pos + i) m.size
    then m.data_start_pos + i
    else m.data_start_pos + i - m.size

pub get_elem?-contents :
    (m : MessageBuffer) (i : ℕ)
    → IsValid m
    → get_elem? (contents m) i
      ≡ (if ltb i (get_stored_byte_count m) then get_elem? m.content (place m i) else none)
unfolding get_stored_byte_count
get_elem?-contents m i v = ground (
  arith,
  get_elem?-take (m.data_end_pos - m.data_start_pos) i (drop m.data_start_pos m.content),
  get_elem?-drop m.data_start_pos i m.content,
  get_elem?-append i (drop m.data_start_pos m.content) (take m.data_end_pos m.content),
  length-drop m.data_start_pos m.content,
  get_elem?-take m.data_end_pos (i - (m.size - m.data_start_pos)) m.content,
)

pub length-write : (array xs : List ℕ) (at : ℕ) → length (write array at xs) ≡ length array
unfolding write
length-write array [] at = refl
length-write array (x ∷ xs) at =
    omega (arith, length-write (set array at x) xs (at + 1), length-set array at x)

pub get_elem?-write :
    (array xs : List ℕ) (at i : ℕ)
    → at + length xs ≤ length array
    → get_elem? (write array at xs) i ≡ (
        if leb at i
        then (if ltb i (at + length xs) then get_elem? xs (i - at) else get_elem? array i)
        else get_elem? array i)
unfolding write
get_elem?-write array [] at i h = ground arith
get_elem?-write array (x ∷ xs) at i h = ground (
  arith,
  get_elem?-write (set array at x) xs (at + 1) i,
  get_elem?-set array at i x,
  length-set array at x,
)
