-- ===== src/Buffers.antt =====
-- src/components/utilities/buffers.h and buffers.cpp: views of a part of a text, and what the parsers
-- do with them. `buf` is the memory from the pointer on; a view's own bytes are its first `len`.
-- A C string is the list of its bytes without the closing zero.
pub mod Compare
pub mod Split
pub mod Join
pub mod First
pub mod Trim
pub mod Numbers
pub mod Words
pub mod Decimal
pub mod Kept
mod Tests
use sip_processing.Prelude.{
  ℕ, zero, suc, ◌+◌, ◌-◌, Bool, true, false, ◌&&◌, ◌||◌, List, [], ◌∷◌, ◌++◌, Text, ltb, leb, ◌==◌,
  if◌then◌else◌, length, take, drop,
}
use mathlib.Core.List.{reverse}

pub record MappedBuffer : Type 0 where
  pub buf : Text
  pub len : ℕ

-- The bytes of the view: `toString` and `bufferToString`.
abbrev pub bytes : MappedBuffer → Text
bytes b = take b.len b.buf

abbrev pub mapped_buffer : Text → MappedBuffer
mapped_buffer s = record { buf = s; len = length s }

abbrev pub no_buffer : MappedBuffer
no_buffer = record { buf = []; len = 0 }

-- `toupper` and `isspace` of the C locale.
unfoldable pub to_upper : ℕ → ℕ
to_upper c = if leb b'a' c && leb c b'z' then c - 32 else c

unfoldable pub is_space : ℕ → Bool
is_space c = c == b' ' || (leb 9 c && leb c 13)

-- One comparison of two characters.
unfoldable pub same_char : Bool → ℕ → ℕ → Bool
unfolding to_upper
same_char case_sensitivity p v = if case_sensitivity then p == v else to_upper p == to_upper v

-- The loop of `buffer_equals` over the view's bytes and the C string.
unfoldable pub equals_from : Bool → Text → Text → Bool
unfolding same_char
equals_from case_sensitivity [] [] = true
equals_from case_sensitivity [] (v ∷ vs) = false
equals_from case_sensitivity (p ∷ ps) [] = false
equals_from case_sensitivity (p ∷ ps) (v ∷ vs) =
    same_char case_sensitivity p v && equals_from case_sensitivity ps vs

unfoldable pub buffer_equals : MappedBuffer → Text → Bool → Bool
unfolding equals_from
buffer_equals buffer [] case_sensitivity = buffer.len == 0
buffer_equals buffer (v ∷ vs) case_sensitivity =
    equals_from case_sensitivity (bytes buffer) (v ∷ vs)

-- The overload that compares two views.
unfoldable pub buffer_equals_buffer : MappedBuffer → MappedBuffer → Bool → Bool
unfolding equals_from
buffer_equals_buffer buffer value case_sensitivity =
    if buffer.len == value.len
    then equals_from case_sensitivity (bytes buffer) (bytes value)
    else false

-- The loop of `buffer_starts_with`: the end of the C string is a match.
unfoldable pub starts_from : Bool → Text → Text → Bool
unfolding same_char
starts_from case_sensitivity ps [] = true
starts_from case_sensitivity [] (v ∷ vs) = false
starts_from case_sensitivity (p ∷ ps) (v ∷ vs) =
    same_char case_sensitivity p v && starts_from case_sensitivity ps vs

unfoldable pub buffer_starts_with : MappedBuffer → Text → Bool → Bool
unfolding starts_from
buffer_starts_with buffer [] case_sensitivity = false
buffer_starts_with buffer (v ∷ vs) case_sensitivity =
    starts_from case_sensitivity (bytes buffer) (v ∷ vs)

-- The loop runs from the ends to the front.
unfoldable pub buffer_ends_with : MappedBuffer → Text → Bool → Bool
unfolding starts_from
buffer_ends_with buffer [] case_sensitivity = false
buffer_ends_with buffer (v ∷ vs) case_sensitivity =
    if ltb buffer.len (length (v ∷ vs))
    then false
    else starts_from case_sensitivity (reverse (bytes buffer)) (reverse (v ∷ vs))

-- The outer loop of `buffer_contains`, with the rounds that are left; the inner loop is
-- `starts_from` at the place it has come to.
unfoldable pub contains_from : Bool → ℕ → Text → Text → Bool
unfolding starts_from
contains_from case_sensitivity zero ps value = false
contains_from case_sensitivity (suc rounds) ps value =
    starts_from case_sensitivity ps value || contains_from case_sensitivity rounds (drop 1 ps) value

unfoldable pub buffer_contains : MappedBuffer → Text → Bool → Bool
unfolding contains_from
buffer_contains buffer value case_sensitivity =
    if ltb buffer.len (length value)
    then false
    else contains_from case_sensitivity (buffer.len - length value + 1) (bytes buffer) value

-- `buffers_join` from `i` on; a delimiter stands before each but the first buffer of the vector.
unfoldable pub join_from : ℕ → List MappedBuffer → ℕ → Text
join_from i [] delimiter = []
join_from i (b ∷ bs) delimiter =
    (if i == 0 then [] else delimiter ∷ []) ++ (bytes b ++ join_from (i + 1) bs delimiter)

unfoldable pub buffers_join : List MappedBuffer → ℕ → ℕ → Text
unfolding join_from
buffers_join buffers delimiter offset = join_from offset (drop offset buffers) delimiter

-- The view from `start` to the place `count` bytes on.
abbrev pub view : Text → ℕ → MappedBuffer
view start count = record { buf = start; len = count }

-- A loop over the `n` bytes left at `p` that collects fields between stop bytes. `reading` tells
-- whether a field has begun, at `start`, `count` bytes back.
unfoldable pub fields_from : (ℕ → Bool) → ℕ → Text → Bool → Text → ℕ → List MappedBuffer
fields_from stop zero p reading start count = if reading then view start count ∷ [] else []
fields_from stop (suc n) [] reading start count = if reading then view start count ∷ [] else []
fields_from stop (suc n) (c ∷ cs) reading start count = elim reading [
  | true ↦ elim (stop c) [
    | true ↦ view start count ∷ fields_from stop n cs false start 0
    | false ↦ fields_from stop n cs true start (count + 1)
  ]
  | false ↦ elim (stop c) [
    | true ↦ fields_from stop n cs false start 0
    | false ↦ fields_from stop n cs true (c ∷ cs) 1
  ]
]

abbrev pub is_line_end : ℕ → Bool
is_line_end c = c == b'\r' || c == b'\n'

unfoldable pub buffer_split_lines : MappedBuffer → List MappedBuffer
unfolding fields_from
buffer_split_lines buffer = fields_from is_line_end buffer.len buffer.buf false [] 0

abbrev pub is_separator : ℕ → ℕ → Bool
is_separator delimiter c = c == delimiter || c == 0

unfoldable pub buffer_split : MappedBuffer → ℕ → List MappedBuffer
unfolding fields_from
buffer_split buffer delimiter =
    fields_from (is_separator delimiter) buffer.len buffer.buf false [] 0

-- The loop of `buffer_split_on_first` over the `n` bytes left at `p`, `count` bytes from the start.
unfoldable pub split_first_from : MappedBuffer → ℕ → ℕ → Text → ℕ → List MappedBuffer
split_first_from buffer delimiter zero p count = buffer ∷ no_buffer ∷ []
split_first_from buffer delimiter (suc n) [] count = buffer ∷ no_buffer ∷ []
split_first_from buffer delimiter (suc n) (c ∷ cs) count =
    if c == delimiter
    then view buffer.buf count ∷ view cs n ∷ []
    else split_first_from buffer delimiter n cs (count + 1)

unfoldable pub buffer_split_on_first : MappedBuffer → ℕ → List MappedBuffer
unfolding split_first_from
buffer_split_on_first buffer delimiter = split_first_from buffer delimiter buffer.len buffer.buf 0

-- The byte that the trims take away: `value`, or any white space for 0.
unfoldable pub is_trimmed : ℕ → ℕ → Bool
unfolding is_space
is_trimmed value c = if value == 0 then is_space c else c == value

unfoldable pub trim_front_from : ℕ → ℕ → Text → MappedBuffer
trim_front_from value zero p = no_buffer
trim_front_from value (suc n) [] = no_buffer
trim_front_from value (suc n) (c ∷ cs) =
    if is_trimmed value c then trim_front_from value n cs else view (c ∷ cs) (suc n)

unfoldable pub buffer_trim_front : MappedBuffer → ℕ → MappedBuffer
unfolding trim_front_from is_trimmed
buffer_trim_front buffer value =
    if buffer.len == 0 then buffer else trim_front_from value buffer.len buffer.buf

-- The bytes from the last one backwards, and how many are left.
unfoldable pub trim_back_from : ℕ → Text → ℕ
trim_back_from value [] = 0
trim_back_from value (c ∷ cs) =
    if is_trimmed value c then trim_back_from value cs else suc (length cs)

unfoldable pub buffer_trim_back : MappedBuffer → ℕ → MappedBuffer
unfolding trim_back_from is_trimmed
buffer_trim_back buffer value =
    if buffer.len == 0
    then buffer
    else record buffer { len = trim_back_from value (reverse (bytes buffer)) }

unfoldable pub buffer_trim : MappedBuffer → ℕ → MappedBuffer
unfolding buffer_trim_front buffer_trim_back
buffer_trim buffer value = buffer_trim_back (buffer_trim_front buffer value) value
