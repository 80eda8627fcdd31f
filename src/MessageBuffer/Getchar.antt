-- ===== src/MessageBuffer/Getchar.antt =====
-- `getchar`, on every branch.
use sip_processing.Prelude.{
  ℕ, suc, ◌+◌, ◌<◌, ◌≡◌, ◌≢◌, ◌∙◌, ◌⊎◌, refl, inl, inr, Bool-cases, ltb→lt, ap, ◌&&◌, List, [], ◌∷◌,
  Option, none, some, ltb, leb, ◌==◌, if◌then◌else◌, length, get_elem?, drop, arith, length-drop,
  get_elem?-none, get_elem?-some, get_elem?-drop, list_ext,
}
use sip_processing.MessageBuffer.{MessageBuffer, getchar, get_stored_byte_count}
use sip_processing.MessageBuffer.Valid.{
  IsValid, contents, length-contents, place, get_elem?-contents,
}

-- The start is inside the array, and taking its byte does not leave an empty buffer with the end
-- at `size` and the start at 0.
abbrev pub CanGet : MessageBuffer → Type 0
CanGet m =
    (m.data_start_pos < m.size) × ((m.data_start_pos + 1 ≢ m.size) ⊎ (m.data_end_pos ≢ m.size))

got : MessageBuffer → MessageBuffer
got m = record m {
  data_start_pos = if leb m.size (m.data_start_pos + 1) then 0 else m.data_start_pos + 1;
}

stored-got :
    (m : MessageBuffer)
    → IsValid m
    → CanGet m
    → 0 < get_stored_byte_count m
    → get_stored_byte_count (got m) + 1 ≡ get_stored_byte_count m
unfolding got get_stored_byte_count
stored-got m v c h = ground arith

place-got :
    (m : MessageBuffer) (i : ℕ)
    → IsValid m
    → CanGet m
    → suc i < get_stored_byte_count m
    → place (got m) i ≡ place m (suc i)
unfolding got get_stored_byte_count
place-got m i v c h = ground arith

got-IsValid :
    (m : MessageBuffer) → IsValid m → CanGet m → 0 < get_stored_byte_count m → IsValid (got m)
got-IsValid m v c h = record {
  size_is = unfold got in v.size_is;
  content_is = unfold got in v.content_is;
  small = unfold got in v.small;
  start_in = unfold got in ground arith;
  end_in = unfold got in v.end_in;
  fits = unfold got in omega (arith, stored-got m v c h);
}

contents-got :
    (m : MessageBuffer)
    → IsValid m
    → CanGet m
    → 0 < get_stored_byte_count m
    → contents (got m) ≡ drop 1 (contents m)
contents-got m v c h = list_ext _ _ λ i.
    rw
      (
        get_elem?-contents (got m) i (got-IsValid m v c h),
        get_elem?-drop 1 i (contents m),
        get_elem?-contents m (1 + i) v,
      )
      (contents-got_at i)
  where
    contents-got_at :
        (i : ℕ)
        → (if ltb i (get_stored_byte_count (got m))
            then get_elem? (got m).content (place (got m) i)
            else none)
          ≡ (if ltb (1 + i) (get_stored_byte_count m)
              then get_elem? m.content (place m (1 + i))
              else none)
    contents-got_at i = unfold got in ground (arith, stored-got m v c h, place-got m i v c)

cons_of_get : (xs : List ℕ) (x : ℕ) → get_elem? xs 0 ≡ some x → xs ≡ x ∷ drop 1 xs
cons_of_get [] x e = cc
cons_of_get (y ∷ ys) x e = ground arith

first-contents :
    (m : MessageBuffer) (x : ℕ)
    → IsValid m
    → 0 < get_stored_byte_count m
    → m.data_start_pos < m.size
    → get_elem? m.content m.data_start_pos ≡ some x
    → contents m ≡ x ∷ drop 1 (contents m)
first-contents m x v h l e =
    cons_of_get (contents m) x (get_elem?-contents m 0 v ∙ ground (arith, start))
  where
    start : m.data_start_pos + 0 ≡ m.data_start_pos
    start = omega arith

nil_of_length : (xs : List ℕ) → length xs ≡ 0 → xs ≡ []
nil_of_length [] h = refl
nil_of_length (x ∷ xs) h = absurd (omega arith)

getchar-eq :
    (m : MessageBuffer) (c : ℕ)
    → IsValid m
    → 0 < get_stored_byte_count m
    → get_elem? m.content m.data_start_pos ≡ some c
    → getchar m ≡ some (c, got m)
unfolding getchar got
getchar-eq m c v h e = ground (arith, get_elem?-none m.content m.data_start_pos)

-- What `getchar` may come to on buffer `m`.
pub data Getchar (m : MessageBuffer) (r : Option (ℕ × MessageBuffer)) : Type 0 where
  nothing_stored : contents m ≡ [] → r ≡ some (0, m) → Getchar m r
  oldest :
      (c : ℕ) (m' : MessageBuffer)
      → CanGet m
      → r ≡ some (c, m')
      → IsValid m'
      → contents m ≡ c ∷ contents m'
      → Getchar m r
  outside_array : contents m ≢ [] → m.data_start_pos ≡ m.size → r ≡ none → Getchar m r
  wrong_count :
      (c : ℕ) (m' : MessageBuffer)
      → m.data_start_pos + 1 ≡ m.size
      → m.data_end_pos ≡ m.size
      → r ≡ some (c, m')
      → contents m ≡ c ∷ []
      → get_stored_byte_count m' ≡ m.size
      → Getchar m r

getchar_empty : (m : MessageBuffer) → get_stored_byte_count m ≡ 0 → getchar m ≡ some (0, m)
unfolding getchar
getchar_empty m e = ground arith

getchar_outside :
    (m : MessageBuffer)
    → IsValid m
    → 0 < get_stored_byte_count m
    → m.data_start_pos ≡ m.size
    → getchar m ≡ none
unfolding getchar
getchar_outside m v h e = ground (arith, get_elem?-none m.content m.data_start_pos)

ne-nil : (m : MessageBuffer) → IsValid m → 0 < get_stored_byte_count m → contents m ≢ []
ne-nil m v h e = omega (arith, length-contents m v, ap (length {A = ℕ}) e)

last_byte :
    (m : MessageBuffer) (c : ℕ)
    → IsValid m
    → m.data_start_pos + 1 ≡ m.size
    → m.data_end_pos ≡ m.size
    → contents m ≡ c ∷ drop 1 (contents m)
    → contents m ≡ c ∷ []
last_byte m c v e f first =
    first
    ∙ ap (◌∷◌ c) (
        nil_of_length (drop 1 (contents m)) (
          rw (length-drop 1 (contents m), length-contents m v)
            (unfold get_stored_byte_count in ground arith)))

stored-got_last :
    (m : MessageBuffer)
    → IsValid m
    → m.data_start_pos + 1 ≡ m.size
    → m.data_end_pos ≡ m.size
    → get_stored_byte_count (got m) ≡ m.size
unfolding got get_stored_byte_count
stored-got_last m v e f = ground arith

getchar_inside :
    (m : MessageBuffer)
    → IsValid m
    → 0 < get_stored_byte_count m
    → m.data_start_pos < m.size
    → Getchar m (getchar m)
getchar_inside m v h l =
    let (c, e) = get_elem?-some m.content m.data_start_pos (omega (arith, v.content_is)) in
    let first = first-contents m c v h l e in
    let r = getchar-eq m c v h e in
    elim (Bool-cases (m.data_start_pos + 1 == m.size && m.data_end_pos == m.size)) [
      | inl last ↦
          wrong_count c (got m) (ground arith) (ground arith) r
            (last_byte m c v (ground arith) (ground arith) first)
            (stored-got_last m v (ground arith) (ground arith))
      | inr other ↦
          oldest c (got m) (ground arith) r (got-IsValid m v (ground arith) h)
            (first ∙ rw (contents-got m v (ground arith) h) refl)
    ]

-- `getchar` on a valid buffer: an empty one gives 0 and stays as it was; otherwise it takes the
-- oldest byte and keeps the invariant, but for two positions. With the start at `size`, which
-- `pull` leaves behind, it reads outside the array; with the last byte of the array the only one
-- stored it moves the start to 0 and the end stays at `size`, so that the empty buffer counts as
-- `size` bytes.
pub getchar-takes : (m : MessageBuffer) → IsValid m → Getchar m (getchar m)
getchar-takes m v = elim (Bool-cases (ltb 0 (get_stored_byte_count m))) [
  | inr e ↦
      nothing_stored (nil_of_length (contents m) (ground (arith, length-contents m v)))
        (getchar_empty m (ground arith))
  | inl h ↦ elim (Bool-cases (ltb m.data_start_pos m.size)) [
    | inl l ↦ getchar_inside m v (ltb→lt _ _ h) (ltb→lt _ _ l)
    | inr e ↦
        outside_array (ne-nil m v (ltb→lt _ _ h)) (ground arith)
          (getchar_outside m v (ltb→lt _ _ h) (ground arith))
  ]
]
