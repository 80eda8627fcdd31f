-- ===== src/MessageBuffer/Search.antt =====
-- The delimiter search over the circular array, against a matcher over the bytes in order.
use sip_processing.Prelude.{
  ℕ, zero, suc, ◌+◌, ◌-◌, ◌≤◌, ◌<◌, ◌≡◌, ◌≢◌, ◌∙◌, refl, inl, inr, Bool-cases, Option-cases, ltb→lt,
  ap, List, [], ◌∷◌, Option, none, some, ltb, ◌==◌, if◌then◌else◌, length, get_elem?, take, arith,
  get_elem?-none, get_elem?-some, get_elem?-take, list_ext, take_all,
}
use mathlib.Core.Option
use sip_processing.MessageBuffer.{
  MessageBuffer, found, outside, out_of_fuel, is_at, scan, search_delimiter, get_stored_byte_count,
}
use sip_processing.MessageBuffer.Valid.{
  IsValid, contents, length-contents, place, get_elem?-contents,
}

-- The loop makes at most `buf_size` rounds.
pub scan-ne-out_of_fuel :
    (array : List ℕ) (size buf_size : ℕ) (delimiter : List ℕ) (fuel pos matched count : ℕ)
    → buf_size < fuel + count
    → 0 < fuel
    → scan array size buf_size delimiter fuel pos matched count ≢ out_of_fuel
unfolding scan
scan-ne-out_of_fuel array size buf_size delimiter zero pos matched count h p = absurd (omega arith)
scan-ne-out_of_fuel array size buf_size delimiter (suc fuel) pos matched count h p =
    let at = if pos == size then 0 else pos in
    elim (Option-cases (get_elem? array at)) [
      | inl e ↦ ground arith
      | inr (c, e) ↦ ground (
        arith,
        scan-ne-out_of_fuel array size buf_size delimiter fuel (at + 1)
            (if is_at delimiter matched c then matched + 1 else 0) (count + 1),
      )
    ]

-- It reads inside the array.
pub scan-ne-outside :
    (array : List ℕ) (size buf_size : ℕ) (delimiter : List ℕ) (fuel pos matched count : ℕ)
    → length array ≡ size
    → 0 < size
    → pos ≤ size
    → scan array size buf_size delimiter fuel pos matched count ≢ outside
unfolding scan
scan-ne-outside array size buf_size delimiter zero pos matched count h p q = λ e. cc
scan-ne-outside array size buf_size delimiter (suc fuel) pos matched count h p q =
    let at = if pos == size then 0 else pos in
    let (c, e) = get_elem?-some array at (ground arith) in
    ground (
      arith,
      scan-ne-outside array size buf_size delimiter fuel (at + 1)
          (if is_at delimiter matched c then matched + 1 else 0) (count + 1),
    )

-- The `n` bytes that the loop reads from position `pos` on.
unfoldable pub ring : List ℕ → ℕ → ℕ → ℕ → List ℕ
ring array size pos zero = []
ring array size pos (suc n) =
    let at = if pos == size then 0 else pos in
    elim (get_elem? array at) [ none ↦ [] | some c ↦ c ∷ ring array size (at + 1) n ]

-- The same search over a list: how many bytes there are up to the end of the delimiter.
unfoldable pub match_from : List ℕ → ℕ → List ℕ → Option ℕ
unfolding is_at
match_from delimiter matched [] = if matched == length delimiter then some 0 else none
match_from delimiter matched (x ∷ xs) =
    if matched == length delimiter
    then some 0
    else Option.map suc
        (match_from delimiter (if is_at delimiter matched x then matched + 1 else 0) xs)

get_elem?-ring :
    (array : List ℕ) (size pos n i : ℕ)
    → length array ≡ size
    → 0 < size
    → pos ≤ size
    → n ≤ size
    → i < n
    → get_elem? (ring array size pos n) i
      ≡ get_elem? array (if ltb (pos + i) size then pos + i else pos + i - size)
unfolding ring
get_elem?-ring array size pos zero i h p q l k = absurd (omega arith)
get_elem?-ring array size pos (suc n) zero h p q l k =
    let at = if pos == size then 0 else pos in
    let (c, e) = get_elem?-some array at (ground arith) in ground arith
get_elem?-ring array size pos (suc n) (suc i) h p q l k =
    let at = if pos == size then 0 else pos in
    let (c, e) = get_elem?-some array at (ground arith) in
    rw (e, ring)
      (get_elem?-ring array size (at + 1) n i h p (ground arith) (omega arith) (omega arith)
        ∙ ground arith)

-- What the matcher finds the loop finds, if the caller's buffer is larger.
scan-found :
    (array : List ℕ) (size buf_size : ℕ) (delimiter : List ℕ) (k fuel pos matched count n : ℕ)
    → match_from delimiter matched (ring array size pos k) ≡ some n
    → count + n < buf_size
    → n < fuel
    → scan array size buf_size delimiter fuel pos matched count ≡ found (count + n)
unfolding scan match_from ring
scan-found array size buf_size delimiter k zero pos matched count n e l f = absurd (omega arith)
scan-found array size buf_size delimiter zero (suc fuel) pos matched count n e l f = ground arith
scan-found array size buf_size delimiter (suc k) (suc fuel) pos matched count n e l f =
    let at = if pos == size then 0 else pos in
    elim (Option-cases (get_elem? array at)) [
      | inl g ↦ ground arith
      | inr (c, g) ↦ ground (
        arith,
        scan-found array size buf_size delimiter k fuel (at + 1)
            (if is_at delimiter matched c then matched + 1 else 0) (count + 1) (n - 1),
      )
    ]

length-ring : (array : List ℕ) (size pos n : ℕ) → length (ring array size pos n) ≤ n
unfolding ring
length-ring array size pos zero = omega arith
length-ring array size pos (suc n) =
    let at = if pos == size then 0 else pos in ground (arith, length-ring array size (at + 1) n)

pub take-contents-ring :
    (m : MessageBuffer) (n : ℕ)
    → IsValid m
    → n ≤ get_stored_byte_count m
    → ring m.content m.size m.data_start_pos n ≡ take n (contents m)
take-contents-ring m n v h =
    list_ext _ _ λ i. rw (get_elem?-take n i (contents m), get_elem?-contents m i v) (at i)
  where
    at :
        (i : ℕ)
        → get_elem? (ring m.content m.size m.data_start_pos n) i ≡ (
            if ltb i n
            then (if ltb i (get_stored_byte_count m) then get_elem? m.content (place m i) else none)
            else none)
    at i = elim (Bool-cases (ltb i n)) [
      | inl l ↦
          rw
            (
              l,
              get_elem?-ring m.content m.size m.data_start_pos n i v.content_is
                  (omega (arith, v.size_is)) v.start_in (omega (arith, v.fits, v.size_is))
                  (ltb→lt _ _ l),
            )
            (ground arith)
      | inr g ↦
          rw g
            (get_elem?-none _ i (ground (arith, length-ring m.content m.size m.data_start_pos n)))
    ]

pub search_delimiter-ring :
    (m : MessageBuffer) (buf_size : ℕ) (delimiter : List ℕ) (k n : ℕ)
    → match_from delimiter 0 (ring m.content m.size m.data_start_pos k) ≡ some n
    → n < buf_size
    → search_delimiter m buf_size delimiter ≡ some n
unfolding search_delimiter
search_delimiter-ring m buf_size delimiter k n e h =
    rw
      (
        scan-found m.content m.size buf_size delimiter k (buf_size + 1) m.data_start_pos 0 0 n e
            (omega arith) (omega arith),
        search_delimiter,
      )
      (ap some (omega arith))

-- The search on a valid buffer finds the first delimiter among the stored bytes that the caller's
-- buffer has room for.
pub search_delimiter-found :
    (m : MessageBuffer) (buf_size : ℕ) (delimiter : List ℕ) (n : ℕ)
    → IsValid m
    → match_from delimiter 0 (contents m) ≡ some n
    → n < buf_size
    → search_delimiter m buf_size delimiter ≡ some n
search_delimiter-found m buf_size delimiter n v e h =
    search_delimiter-ring m buf_size delimiter (get_stored_byte_count m) n
      (rw (take-contents-ring m (get_stored_byte_count m) v (omega arith))
        (rw (← length-contents m v, take_all (contents m)) e))
      h

pub scan-match_from :
    (array : List ℕ) (size buf_size : ℕ) (delimiter : List ℕ) (fuel pos matched count r : ℕ)
    → scan array size buf_size delimiter fuel pos matched count ≡ found r
    → (n : ℕ) × (r ≡ count + n) × (match_from delimiter matched (ring array size pos n) ≡ some n)
unfolding scan match_from ring
scan-match_from array size buf_size delimiter zero pos matched count r e = cc
scan-match_from array size buf_size delimiter (suc fuel) pos matched count r e =
    let at = if pos == size then 0 else pos in
    elim (Bool-cases (matched == length delimiter)) [
      | inl d ↦ (0, ground arith, ground arith)
      | inr d ↦ elim (Option-cases (get_elem? array at)) [
        | inl g ↦ absurd (ground arith)
        | inr (c, g) ↦
            let next = if is_at delimiter matched c then matched + 1 else 0 in
            let (n, f, k) =
              scan-match_from array size buf_size delimiter fuel (at + 1) next (count + 1) r
                (ground arith) in
            (suc n, omega arith, rw (g, ring) (rw (d, match_from) (rw k refl)))
      ]
    ]

-- The search takes no more bytes than the caller's buffer has room for.
pub scan-le :
    (array : List ℕ) (size buf_size : ℕ) (delimiter : List ℕ) (fuel pos matched count r : ℕ)
    → scan array size buf_size delimiter fuel pos matched count ≡ found r
    → count ≤ buf_size
    → r ≤ buf_size
unfolding scan
scan-le array size buf_size delimiter zero pos matched count r e h = cc
scan-le array size buf_size delimiter (suc fuel) pos matched count r e h =
    let at = if pos == size then 0 else pos in
    elim (Option-cases (get_elem? array at)) [
      | inl g ↦ ground arith
      | inr (c, g) ↦ ground (
        arith,
        scan-le array size buf_size delimiter fuel (at + 1)
            (if is_at delimiter matched c then matched + 1 else 0) (count + 1) r,
      )
    ]
