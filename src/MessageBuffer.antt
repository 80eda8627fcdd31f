-- ===== src/MessageBuffer.antt =====
-- src/components/utilities/MessageBuffer.h and MessageBuffer.cpp: the circular buffer that rebuilds
-- messages from socket data. `content` is the array `data` of `size` bytes. A `size_t` keeps its
-- wrap-around at 2 ^ 64. An access outside an array is undefined in C++: here it returns `none`.
pub mod Valid
pub mod Push
pub mod Pull
pub mod Getchar
pub mod Putchar
pub mod Reset
pub mod Search
pub mod Delimited
pub mod Length
mod Tests
use sip_processing.Prelude.{
  ◌>>=◌, ℕ, zero, suc, ◌+◌, ◌-◌, ◌%◌, ◌^◌, Bool, true, false, List, [], ◌∷◌, ◌++◌, Option, none,
  some, ltb, leb, ◌==◌, if◌then◌else◌, length, get_elem?, set, take, drop, replicate,
}

pub record MessageBuffer : Type 0 where
  pub size : ℕ
  pub max_capacity : ℕ
  pub data_start_pos : ℕ
  pub data_end_pos : ℕ
  pub content : List ℕ

abbrev pub add_size : ℕ → ℕ → ℕ
add_size a b = (a + b) % 2 ^ 64

abbrev pub sub_size : ℕ → ℕ → ℕ
sub_size a b = (a + 2 ^ 64 - b) % 2 ^ 64

-- The constructor; `fresh` is what `new char[size]` happens to hold.
pub create : ℕ → List ℕ → MessageBuffer
create capacity fresh = record {
  size = add_size capacity 1;
  max_capacity = capacity;
  data_start_pos = 0;
  data_end_pos = 0;
  content = if ltb 0 capacity then fresh else [];
}

-- Bytes written one after the other from index `at` on.
pub write : List ℕ → ℕ → List ℕ → List ℕ
write array at [] = array
write array at (x ∷ xs) = write (set array at x) (at + 1) xs

-- `memcpy` into the array, and out of it.
pub copy_in : List ℕ → ℕ → List ℕ → Option (List ℕ)
copy_in array at xs = if leb (at + length xs) (length array) then some (write array at xs) else none

pub copy_out : List ℕ → ℕ → ℕ → Option (List ℕ)
copy_out array at n = if leb (at + n) (length array) then some (take n (drop at array)) else none

-- `memset` of the caller's buffer to zero, and `memcpy` of `xs` to its front.
pub fill : List ℕ → List ℕ → Option (List ℕ)
fill buf xs =
    if leb (length xs) (length buf) then some (xs ++ replicate (length buf - length xs) 0) else none

unfoldable pub get_stored_byte_count : MessageBuffer → ℕ
get_stored_byte_count m =
    if leb m.data_start_pos m.data_end_pos
    then m.data_end_pos - m.data_start_pos
    else add_size (sub_size m.size m.data_start_pos) m.data_end_pos

pub get_space_available_byte_count : MessageBuffer → ℕ
get_space_available_byte_count m = sub_size m.max_capacity (get_stored_byte_count m)

-- The second `memcpy` of `push`, at the array's start, when `count` bytes did not take all.
push_rest : MessageBuffer → List ℕ → ℕ → Option (ℕ × MessageBuffer)
push_rest m buf count =
    if ltb count (length buf)
    then (do
      array ← copy_in m.content 0 (drop count buf)
      some (length buf, record m { content = array; data_end_pos = length buf - count }))
    else some (length buf, m)

pub push : MessageBuffer → List ℕ → Option (ℕ × MessageBuffer)
unfolding push_rest
push m buf =
    let room = sub_size m.size m.data_end_pos in
    let count = if ltb room (length buf) then room else length buf in
    if ltb (get_space_available_byte_count m) (length buf) then some (0, m) else (do
      array ← copy_in m.content m.data_end_pos (take count buf)
      push_rest (record m { content = array; data_end_pos = add_size m.data_end_pos count }) buf
          count)

pub getchar : MessageBuffer → Option (ℕ × MessageBuffer)
getchar m =
    let start = add_size m.data_start_pos 1 in
    if ltb 0 (get_stored_byte_count m)
    then (do
      c ← get_elem? m.content m.data_start_pos
      some (c, record m { data_start_pos = if leb m.size start then 0 else start }))
    else some (0, m)

pub putchar : MessageBuffer → ℕ → Option (Bool × MessageBuffer)
putchar m c =
    let before = sub_size m.data_start_pos 1 in
    let start = if leb m.size before then m.size else before in
    if ltb 0 (get_space_available_byte_count m)
    then (do
      array ← copy_in m.content start (c ∷ [])
      some (true, record m { data_start_pos = start; content = array }))
    else some (false, m)

-- `pull` of a number of bytes. `buf` is the caller's buffer, `bufSize` its length.
pub pull : MessageBuffer → List ℕ → ℕ → Option (ℕ × List ℕ × MessageBuffer)
pull m buf bytes =
    let stored = get_stored_byte_count m in
    let count = if ltb bytes stored then bytes else stored in
    let end_count = sub_size m.size m.data_start_pos in
    if ltb end_count count
    then (do
      tail ← copy_out m.content m.data_start_pos end_count
      front ← copy_out m.content 0 (count - end_count)
      out ← fill buf (tail ++ front)
      some (count, out, record m { data_start_pos = count - end_count }))
    else if ltb 0 count
    then (do
      bytes ← copy_out m.content m.data_start_pos count
      out ← fill buf bytes
      some (count, out, record m { data_start_pos = add_size m.data_start_pos count }))
    else (do out ← fill buf []; some (count, out, m))

pub data Scan : Type 0 where
  found : ℕ → Scan
  stopped : Scan
  outside : Scan
  out_of_fuel : Scan

unfoldable pub is_at : List ℕ → ℕ → ℕ → Bool
is_at delimiter i c = elim (get_elem? delimiter i) [ none ↦ false | some d ↦ c == d ]

-- The `do … while` of the delimiter search, one round for each unit of fuel.
pub scan : List ℕ → ℕ → ℕ → List ℕ → ℕ → ℕ → ℕ → ℕ → Scan
scan array size buf_size delimiter zero pos matched count = out_of_fuel
scan array size buf_size delimiter (suc fuel) pos matched count =
    let at = if pos == size then 0 else pos in
    elim (matched == length delimiter) [
      | true ↦ found count
      | false ↦ elim (get_elem? array at) [
        | none ↦ outside
        | some c ↦ elim (leb buf_size (count + 1)) [
          | true ↦ stopped
          | false ↦
              scan array size buf_size delimiter fuel (at + 1)
                (if is_at delimiter matched c then matched + 1 else 0) (count + 1)
        ]
      ]
    ]

-- The bytes that the search lets `pull` take; the outer `none` is an access outside the array.
pub search_delimiter : MessageBuffer → ℕ → List ℕ → Option ℕ
unfolding scan
search_delimiter m buf_size delimiter =
    elim (scan m.content m.size buf_size delimiter (buf_size + 1) m.data_start_pos 0 0) [
      | found n ↦ some n
      | stopped ↦ some 0
      | outside ↦ none
      | out_of_fuel ↦ none
    ]

-- `pull` up to a delimiter.
pub pull_delimited : MessageBuffer → List ℕ → List ℕ → Option (ℕ × List ℕ × MessageBuffer)
pull_delimited m buf delimiter =
    let stored = get_stored_byte_count m in
    if ltb 0 (length delimiter)
    then if ltb stored (length delimiter)
      then some (0, buf, m)
      else (do count ← search_delimiter m (length buf) delimiter; pull m buf count)
    else pull m buf (if ltb (length buf) stored then length buf else stored)

pub flush : MessageBuffer → ℕ × MessageBuffer
flush m = (m.max_capacity, record m { data_start_pos = 0; data_end_pos = 0 })
