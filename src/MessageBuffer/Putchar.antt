-- ===== src/MessageBuffer/Putchar.antt =====
-- `putchar`, on every branch.
use sip_processing.Prelude.{
  ℕ, zero, suc, ◌+◌, ◌-◌, ◌<◌, ◌≡◌, ◌∙◌, inl, inr, Bool-cases, ltb→lt, Bool, true, false, [], ◌∷◌,
  Option, none, some, ltb, get_elem?, arith, list_ext,
}
use sip_processing.MessageBuffer.{MessageBuffer, write, copy_in, putchar, get_stored_byte_count}
use sip_processing.MessageBuffer.Valid.{
  IsValid, contents, place, get_elem?-contents, length-write, get_elem?-write,
}
use sip_processing.MessageBuffer.Push.{space_lem}

put : MessageBuffer → ℕ → MessageBuffer
put m c = record m {
  data_start_pos = m.data_start_pos - 1;
  content = write m.content (m.data_start_pos - 1) (c ∷ []);
}

stored-put :
    (m : MessageBuffer) (c : ℕ)
    → IsValid m
    → 0 < m.data_start_pos
    → get_stored_byte_count m < m.max_capacity
    → get_stored_byte_count (put m c) ≡ get_stored_byte_count m + 1
unfolding put get_stored_byte_count
stored-put m c v p h = ground arith

put-IsValid :
    (m : MessageBuffer) (c : ℕ)
    → IsValid m
    → 0 < m.data_start_pos
    → get_stored_byte_count m < m.max_capacity
    → IsValid (put m c)
put-IsValid m c v p h = record {
  size_is = unfold put in v.size_is;
  content_is =
      unfold put in
      omega (arith, length-write m.content (c ∷ []) (m.data_start_pos - 1), v.content_is);
  small = unfold put in v.small;
  start_in = unfold put in omega (arith, v.start_in);
  end_in = unfold put in v.end_in;
  fits = unfold put in omega (arith, stored-put m c v p h, h);
}

put_at :
    (m : MessageBuffer) (c i : ℕ)
    → IsValid m
    → 0 < m.data_start_pos
    → get_stored_byte_count m < m.max_capacity
    → i < get_stored_byte_count m
    → get_elem? (put m c).content (place (put m c) (suc i)) ≡ get_elem? m.content (place m i)
unfolding put get_stored_byte_count
put_at m c i v p h l =
    ground
      (arith, get_elem?-write m.content (c ∷ []) (m.data_start_pos - 1) (place (put m c) (suc i)))

put_first :
    (m : MessageBuffer) (c : ℕ)
    → IsValid m
    → 0 < m.data_start_pos
    → get_elem? (put m c).content (place (put m c) 0) ≡ some c
unfolding put
put_first m c v p =
    ground (arith, get_elem?-write m.content (c ∷ []) (m.data_start_pos - 1) (place (put m c) 0))

contents-put :
    (m : MessageBuffer) (c : ℕ)
    → IsValid m
    → 0 < m.data_start_pos
    → get_stored_byte_count m < m.max_capacity
    → contents (put m c) ≡ c ∷ contents m
contents-put m c v p h = list_ext _ _ (contents-put_at)
  where
    w : IsValid (put m c)
    w = put-IsValid m c v p h

    contents-put_at : (i : ℕ) → get_elem? (contents (put m c)) i ≡ get_elem? (c ∷ contents m) i
    contents-put_at zero =
        get_elem?-contents (put m c) 0 w ∙ ground (arith, put_first m c v p, stored-put m c v p h)
    contents-put_at (suc i) =
        get_elem?-contents (put m c) (suc i) w
        ∙ rw (get_elem?-contents m i v) (ground (arith, put_at m c i v p h, stored-put m c v p h))

putchar-eq :
    (m : MessageBuffer) (c : ℕ)
    → IsValid m
    → 0 < m.data_start_pos
    → get_stored_byte_count m < m.max_capacity
    → putchar m c ≡ some (true, put m c)
unfolding putchar put copy_in
putchar-eq m c v p h = ground (arith, space_lem m v)

-- What `putchar` of `c` may come to on buffer `m`.
pub data Putchar (m : MessageBuffer) (c : ℕ) (r : Option (Bool × MessageBuffer)) : Type 0 where
  no_space : get_stored_byte_count m ≡ m.max_capacity → r ≡ some (false, m) → Putchar m c r
  in_front :
      (m' : MessageBuffer)
      → 0 < m.data_start_pos
      → r ≡ some (true, m')
      → IsValid m'
      → contents m' ≡ c ∷ contents m
      → Putchar m c r
  outside_array :
      m.data_start_pos ≡ 0 → get_stored_byte_count m < m.max_capacity → r ≡ none → Putchar m c r

putchar_full :
    (m : MessageBuffer) (c : ℕ)
    → IsValid m
    → get_stored_byte_count m ≡ m.max_capacity
    → putchar m c ≡ some (false, m)
unfolding putchar
putchar_full m c v e = ground (arith, space_lem m v)

putchar_outside :
    (m : MessageBuffer) (c : ℕ)
    → IsValid m
    → m.data_start_pos ≡ 0
    → get_stored_byte_count m < m.max_capacity
    → putchar m c ≡ none
unfolding putchar copy_in
putchar_outside m c v e h = ground (arith, space_lem m v)

-- `putchar` on a valid buffer with no space left returns false and changes nothing. With space
-- it puts the byte in front and keeps the invariant, unless the start is at 0, as in a new or a
-- flushed buffer: then it writes at index `size`, outside the array.
pub putchar-puts : (m : MessageBuffer) (c : ℕ) → IsValid m → Putchar m c (putchar m c)
putchar-puts m c v = elim (Bool-cases (ltb (get_stored_byte_count m) m.max_capacity)) [
  | inr e ↦ no_space (ground arith) (putchar_full m c v (ground arith))
  | inl h ↦ elim (Bool-cases (ltb 0 m.data_start_pos)) [
    | inl p ↦
        in_front (put m c) (ltb→lt _ _ p) (putchar-eq m c v (ltb→lt _ _ p) (ltb→lt _ _ h))
          (put-IsValid m c v (ltb→lt _ _ p) (ltb→lt _ _ h))
          (contents-put m c v (ltb→lt _ _ p) (ltb→lt _ _ h))
    | inr z ↦
        outside_array (ground arith) (ltb→lt _ _ h)
          (putchar_outside m c v (ground arith) (ltb→lt _ _ h))
  ]
]
