-- ===== src/MessageBuffer/Pull.antt =====
-- `pull` of a number of bytes, `getchar`, `putchar` and `flush`.
use sip_processing.Prelude.{
  ℕ, ◌+◌, ◌-◌, ◌≤◌, ◌<◌, ◌≡◌, ◌∙◌, ◌⊎◌, refl, inl, inr, Bool-cases, leb→le, List, ◌++◌, Option,
  none, some, ltb, leb, if◌then◌else◌, length, get_elem?, take, drop, replicate, arith, length-take,
  length-drop, get_elem?-take, get_elem?-drop, get_elem?-append, list_ext,
}
use sip_processing.MessageBuffer.{MessageBuffer, copy_out, fill, pull, get_stored_byte_count}
use sip_processing.MessageBuffer.Valid.{
  IsValid, contents, length-contents, place, get_elem?-contents,
}

-- How many bytes a `pull` of `bytes` takes.
abbrev pub taken : MessageBuffer → ℕ → ℕ
taken m bytes = if ltb bytes (get_stored_byte_count m) then bytes else get_stored_byte_count m

-- The buffer after `count` bytes are gone.
abbrev advanced : MessageBuffer → ℕ → MessageBuffer
advanced m count = record m {
  data_start_pos =
      if ltb (m.size - m.data_start_pos) count
      then count - (m.size - m.data_start_pos)
      else m.data_start_pos + count;
}

stored-advanced :
    (m : MessageBuffer) (count : ℕ)
    → IsValid m
    → count ≤ get_stored_byte_count m
    → get_stored_byte_count (advanced m count) ≡ get_stored_byte_count m - count
unfolding get_stored_byte_count
stored-advanced m count v h = ground arith

advanced-IsValid :
    (m : MessageBuffer) (count : ℕ)
    → IsValid m
    → count ≤ get_stored_byte_count m
    → IsValid (advanced m count)
advanced-IsValid m count v h = record {
  size_is = v.size_is;
  content_is = v.content_is;
  small = v.small;
  start_in = start_lem m count v h;
  end_in = v.end_in;
  fits = omega (arith, stored-advanced m count v h, v.fits);
}
  where
    start_lem :
        (m : MessageBuffer) (count : ℕ)
        → IsValid m
        → count ≤ get_stored_byte_count m
        → (advanced m count).data_start_pos ≤ m.size
    start_lem m count v h = ground (arith, v.fits)

place-advanced :
    (m : MessageBuffer) (count i : ℕ)
    → IsValid m
    → i + count < get_stored_byte_count m
    → place (advanced m count) i ≡ place m (count + i)
unfolding get_stored_byte_count
place-advanced m count i v h = ground arith

contents-advanced :
    (m : MessageBuffer) (count : ℕ)
    → IsValid m
    → count ≤ get_stored_byte_count m
    → contents (advanced m count) ≡ drop count (contents m)
contents-advanced m count v h = list_ext _ _ λ i.
    rw
      (
        get_elem?-contents (advanced m count) i (advanced-IsValid m count v h),
        get_elem?-drop count i (contents m),
        get_elem?-contents m (count + i) v,
        stored-advanced m count v h,
      )
      (ground (arith, place-advanced m count i v))

copy_out-eq :
    (array : List ℕ) (at n : ℕ)
    → at + n ≤ length array
    → copy_out array at n ≡ some (take n (drop at array))
unfolding copy_out
copy_out-eq array at n h = ground arith

-- The bytes that the two `memcpy` calls read.
read : MessageBuffer → ℕ → List ℕ
read m count =
    if ltb (m.size - m.data_start_pos) count
    then take (m.size - m.data_start_pos) (drop m.data_start_pos m.content)
      ++ take (count - (m.size - m.data_start_pos)) (drop 0 m.content)
    else take count (drop m.data_start_pos m.content)

read_at :
    (m : MessageBuffer) (count i : ℕ)
    → IsValid m
    → count ≤ get_stored_byte_count m
    → get_elem? (read m count) i ≡ (if ltb i count then get_elem? m.content (place m i) else none)
unfolding read get_stored_byte_count
read_at m count i v h =
    let room = m.size - m.data_start_pos in
    ground (
      arith,
      get_elem?-append i (take room (drop m.data_start_pos m.content))
          (take (count - room) m.content),
      get_elem?-take room i (drop m.data_start_pos m.content),
      get_elem?-drop m.data_start_pos i m.content,
      get_elem?-take (count - room) (i - room) m.content,
      get_elem?-take count i (drop m.data_start_pos m.content),
      length-take room (drop m.data_start_pos m.content),
      length-drop m.data_start_pos m.content,
    )

read-eq :
    (m : MessageBuffer) (count : ℕ)
    → IsValid m
    → count ≤ get_stored_byte_count m
    → read m count ≡ take count (contents m)
read-eq m count v h = list_ext _ _ λ i.
    rw (read_at m count i v h, get_elem?-take count i (contents m), get_elem?-contents m i v)
      (ground arith)

-- `pull` in one step, from the bytes read.
abbrev pulled : MessageBuffer → List ℕ → ℕ → List ℕ → Option (ℕ × List ℕ × MessageBuffer)
pulled m buf count bytes =
    if leb count (length buf)
    then some (count, bytes ++ replicate (length buf - count) 0, advanced m count)
    else none

length-read :
    (m : MessageBuffer) (count : ℕ)
    → IsValid m
    → count ≤ get_stored_byte_count m
    → length (read m count) ≡ count
length-read m count v h = rw (read-eq m count v h, length-take, length-contents m v) (omega arith)

pull-read :
    (m : MessageBuffer) (buf : List ℕ) (bytes : ℕ)
    → IsValid m
    → pull m buf bytes ≡ pulled m buf (taken m bytes) (read m (taken m bytes))
unfolding pull fill read get_stored_byte_count copy_out
pull-read m buf bytes v = ground (arith, length-read m (taken m bytes) v)

pull-eq :
    (m : MessageBuffer) (buf : List ℕ) (bytes : ℕ)
    → IsValid m
    → pull m buf bytes ≡ pulled m buf (taken m bytes) (take (taken m bytes) (contents m))
pull-eq m buf bytes v =
    rw (pull-read m buf bytes v, read-eq m (taken m bytes) v (ground arith)) refl

-- A `pull` takes the oldest bytes, as many as are asked for and stored, pads the caller's buffer
-- with zeros, and keeps the invariant, if those bytes fit into the caller's buffer. If they do
-- not fit, it writes past the end of the caller's buffer: `bufSize` does not limit it.
pub pull-takes :
    (m : MessageBuffer) (buf : List ℕ) (bytes : ℕ)
    → IsValid m
    → ((taken m bytes ≤ length buf)
        × ((m' : MessageBuffer) × (pull m buf bytes
              ≡ some (
                taken m bytes,
                take (taken m bytes) (contents m) ++ replicate (length buf - taken m bytes) 0,
                m',
              ))
            × IsValid m'
            × (contents m' ≡ drop (taken m bytes) (contents m))))
      ⊎ ((length buf < taken m bytes) × (pull m buf bytes ≡ none))
pull-takes m buf bytes v =
    let n = taken m bytes in
    let h : n ≤ get_stored_byte_count m = ground arith in
    elim (Bool-cases (leb n (length buf))) [
      | inl fits ↦ inl (
        leb→le _ _ fits,
        (
          advanced m n,
          pull-eq m buf bytes v ∙ rw fits refl,
          advanced-IsValid m n v h,
          contents-advanced m n v h,
        ),
      )
      | inr over ↦ inr (ground arith, pull-eq m buf bytes v ∙ rw over refl)
    ]
