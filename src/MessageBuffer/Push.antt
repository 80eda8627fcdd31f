-- ===== src/MessageBuffer/Push.antt =====
-- `push` appends, or refuses and changes nothing.
use sip_processing.Prelude.{
  ℕ, ◌+◌, ◌-◌, ◌≤◌, ◌<◌, ◌≡◌, ◌⊎◌, refl, inl, inr, Bool-cases, ltb→lt, false, ◌&&◌, List, ◌++◌,
  some, ltb, leb, if◌then◌else◌, length, get_elem?, take, drop, arith, length-take, length-drop,
  get_elem?-none, get_elem?-take, get_elem?-drop, get_elem?-append, list_ext,
}
use sip_processing.MessageBuffer.{
  MessageBuffer, write, copy_in, push, get_stored_byte_count, get_space_available_byte_count,
}
use sip_processing.MessageBuffer.Valid.{
  IsValid, contents, length-contents, place, get_elem?-contents, length-write, get_elem?-write,
}

abbrev room : MessageBuffer → ℕ
room m = m.size - m.data_end_pos

-- The number of bytes that go before the end of the array.
abbrev before_end : MessageBuffer → List ℕ → ℕ
before_end m buf = if ltb (room m) (length buf) then room m else length buf

-- The buffer after a `push` that is accepted.
pushed : MessageBuffer → List ℕ → MessageBuffer
pushed m buf =
    let count = before_end m buf in
    let array = write m.content m.data_end_pos (take count buf) in
    if ltb count (length buf)
    then record m { content = write array 0 (drop count buf); data_end_pos = length buf - count }
    else record m { content = array; data_end_pos = m.data_end_pos + count }

pub space_lem :
    (m : MessageBuffer)
    → IsValid m
    → get_space_available_byte_count m ≡ m.max_capacity - get_stored_byte_count m
unfolding get_space_available_byte_count
space_lem m v = omega arith

copy_in-eq :
    (array xs : List ℕ) (at : ℕ)
    → at + length xs ≤ length array
    → copy_in array at xs ≡ some (write array at xs)
unfolding copy_in
copy_in-eq array xs at h = ground arith

push-eq :
    (m : MessageBuffer) (buf : List ℕ)
    → IsValid m
    → length buf ≤ get_space_available_byte_count m
    → push m buf ≡ some (length buf, pushed m buf)
unfolding push pushed
push-eq m buf v h = ground (
  arith,
  space_lem m v,
  length-take (before_end m buf) buf,
  length-drop (before_end m buf) buf,
  length-write m.content (take (before_end m buf) buf) m.data_end_pos,
  copy_in-eq m.content (take (before_end m buf) buf) m.data_end_pos,
  copy_in-eq (write m.content m.data_end_pos (take (before_end m buf) buf))
      (drop (before_end m buf) buf) 0,
)

stored-pushed :
    (m : MessageBuffer) (buf : List ℕ)
    → IsValid m
    → length buf ≤ get_space_available_byte_count m
    → get_stored_byte_count (pushed m buf) ≡ get_stored_byte_count m + length buf
unfolding pushed get_stored_byte_count
stored-pushed m buf v h = ground (arith, space_lem m v)

pushed-IsValid :
    (m : MessageBuffer) (buf : List ℕ)
    → IsValid m
    → length buf ≤ get_space_available_byte_count m
    → IsValid (pushed m buf)
unfolding pushed
pushed-IsValid m buf v h = record {
  size_is = ground arith;
  content_is = ground (
    arith,
    length-write m.content (take (before_end m buf) buf) m.data_end_pos,
    length-write (write m.content m.data_end_pos (take (before_end m buf) buf))
        (drop (before_end m buf) buf) 0,
  );
  small = ground arith;
  start_in = ground arith;
  end_in = ground (arith, space_lem m v);
  fits = ground (arith, space_lem m v, stored-pushed m buf v h);
}

-- What the array holds afterwards.
pushed_at :
    (m : MessageBuffer) (buf : List ℕ) (j : ℕ)
    → IsValid m
    → length buf ≤ get_space_available_byte_count m
    → get_elem? (pushed m buf).content j ≡ (
        if ltb j (length buf - before_end m buf)
        then get_elem? buf (before_end m buf + j)
        else if leb m.data_end_pos j && ltb j (m.data_end_pos + before_end m buf)
        then get_elem? buf (j - m.data_end_pos)
        else get_elem? m.content j)
unfolding pushed
pushed_at m buf j v h =
    let count = before_end m buf in
    let array = write m.content m.data_end_pos (take count buf) in
    ground (
      arith,
      space_lem m v,
      length-take count buf,
      length-drop count buf,
      length-write m.content (take count buf) m.data_end_pos,
      get_elem?-write m.content (take count buf) m.data_end_pos j,
      get_elem?-write array (drop count buf) 0 j,
      get_elem?-take count (j - m.data_end_pos) buf,
      get_elem?-drop count j buf,
    )

place-pushed : (m : MessageBuffer) (buf : List ℕ) (i : ℕ) → place (pushed m buf) i ≡ place m i
unfolding pushed
place-pushed m buf i = ground arith

-- The bytes stored before keep their places, which the new ones do not touch.
old_place :
    (m : MessageBuffer) (buf : List ℕ) (i : ℕ)
    → IsValid m
    → length buf ≤ get_space_available_byte_count m
    → i < get_stored_byte_count m
    → (ltb (place m i) (length buf - before_end m buf) ≡ false)
      × (leb m.data_end_pos (place m i) && ltb (place m i) (m.data_end_pos + before_end m buf)
          ≡ false)
unfolding get_stored_byte_count
old_place m buf i v h k = (ground (arith, space_lem m v), ground (arith, space_lem m v))

new_place :
    (m : MessageBuffer) (buf : List ℕ) (i : ℕ)
    → IsValid m
    → length buf ≤ get_space_available_byte_count m
    → get_stored_byte_count m ≤ i
    → i < get_stored_byte_count m + length buf
    → (if ltb (place m i) (length buf - before_end m buf)
        then get_elem? buf (before_end m buf + place m i)
        else if leb m.data_end_pos (place m i)
            && ltb (place m i) (m.data_end_pos + before_end m buf)
        then get_elem? buf (place m i - m.data_end_pos)
        else get_elem? m.content (place m i))
      ≡ get_elem? buf (i - get_stored_byte_count m)
unfolding get_stored_byte_count
new_place m buf i v h k l = ground (arith, space_lem m v)

contents-pushed_at :
    (m : MessageBuffer) (buf : List ℕ) (i : ℕ)
    → IsValid m
    → length buf ≤ get_space_available_byte_count m
    → get_elem? (contents (pushed m buf)) i ≡ get_elem? (contents m ++ buf) i
contents-pushed_at m buf i v h =
    rw
      (
        get_elem?-contents (pushed m buf) i (pushed-IsValid m buf v h),
        stored-pushed m buf v h,
        place-pushed m buf i,
        pushed_at m buf (place m i) v h,
        get_elem?-append i (contents m) buf,
        length-contents m v,
        get_elem?-contents m i v,
      )
      (elim (Bool-cases (ltb i (get_stored_byte_count m))) [
        | inl old ↦
            let (e, f) = old_place m buf i v h (ltb→lt _ _ old) in rw (old, e, f) (ground arith)
        | inr new ↦ elim (Bool-cases (ltb i (get_stored_byte_count m + length buf))) [
          | inl within ↦
              rw (within, new, new_place m buf i v h (ground arith) (ltb→lt _ _ within)) refl
          | inr past ↦
              rw (past, new, get_elem?-none buf (i - get_stored_byte_count m) (ground arith)) refl
        ]
      ])

contents-pushed :
    (m : MessageBuffer) (buf : List ℕ)
    → IsValid m
    → length buf ≤ get_space_available_byte_count m
    → contents (pushed m buf) ≡ contents m ++ buf
contents-pushed m buf v h = list_ext _ _ λ i. contents-pushed_at m buf i v h

-- A `push` never writes outside the array. It appends the bytes, in order, and keeps the
-- invariant if they fit in the space available; if not it returns 0 and changes nothing.
pub push-appends :
    (m : MessageBuffer) (buf : List ℕ)
    → IsValid m
    → ((length buf ≤ get_space_available_byte_count m)
        × ((m' : MessageBuffer) × (push m buf ≡ some (length buf, m'))
            × IsValid m'
            × (contents m' ≡ contents m ++ buf)))
      ⊎ ((get_space_available_byte_count m < length buf) × (push m buf ≡ some (0, m)))
push-appends m buf v = elim (Bool-cases (ltb (get_space_available_byte_count m) (length buf))) [
  | inl over ↦ inr (ltb→lt _ _ over, unfold push in rw over)
  | inr fits ↦
      let h : length buf ≤ get_space_available_byte_count m = ground arith in
      inl
        (h, (pushed m buf, push-eq m buf v h, pushed-IsValid m buf v h, contents-pushed m buf v h))
]
