-- ===== src/MessageBuffer/Delimited.antt =====
-- `pull` up to a delimiter.
use sip_processing.Prelude.{
  ℕ, zero, suc, ◌+◌, ◌-◌, ◌≤◌, ◌<◌, ◌≡◌, ◌≢◌, ◌∙◌, ◌⊎◌, refl, sym, inl, inr, Bool-cases,
  Option-cases, ltb→lt, ap, List, [], ◌∷◌, ◌++◌, some, ltb, ◌==◌, if◌then◌else◌, length, get_elem?,
  take, drop, replicate, arith, length-take, take_all, drop_all, take-append_of,
}
use mathlib.Core.List.{append-nil, append_assoc}
use sip_processing.MessageBuffer.{
  MessageBuffer, Scan, found, stopped, outside, out_of_fuel, is_at, scan, search_delimiter, pull,
  pull_delimited, get_stored_byte_count,
}
use sip_processing.MessageBuffer.Valid.{IsValid, contents, length-contents}
use sip_processing.MessageBuffer.Search.{
  ring, match_from, take-contents-ring, scan-match_from, scan-ne-outside, scan-ne-out_of_fuel,
  scan-le, search_delimiter-ring,
}
use sip_processing.MessageBuffer.Pull.{pull-takes, taken}

take-suc :
    (n : ℕ) (xs : List ℕ) (x : ℕ) → get_elem? xs n ≡ some x → take (n + 1) xs ≡ take n xs ++ x ∷ []
take-suc zero [] x e = cc
take-suc zero (y ∷ ys) x e = ground arith
take-suc (suc n) [] x e = cc
take-suc (suc n) (y ∷ ys) x e = ground (arith, take-suc n ys x e)

take-take : (n : ℕ) (xs : List ℕ) → take n (take n xs) ≡ take n xs
take-take zero xs = refl
take-take (suc n) [] = refl
take-take (suc n) (x ∷ xs) = ap (◌∷◌ x) (take-take n xs)

-- Where the matcher stops, the bytes read end with the delimiter.
match_from-ends :
    (delimiter : List ℕ) (matched : ℕ) (xs pre front : List ℕ) (n : ℕ)
    → pre ≡ front ++ take matched delimiter
    → match_from delimiter matched xs ≡ some n
    → (front' : List ℕ) × (pre ++ take n xs ≡ front' ++ delimiter)
unfolding match_from is_at
match_from-ends delimiter matched [] pre front n e h =
    elim (Bool-cases (matched == length delimiter)) [
      | inl d ↦ (front, ground (arith, take_all delimiter, append-nil pre))
      | inr d ↦ absurd (ground arith)
    ]
match_from-ends delimiter matched (x ∷ xs) pre front n e h =
    elim (Bool-cases (matched == length delimiter)) [
      | inl d ↦ (front, ground (arith, take_all delimiter, append-nil pre))
      | inr d ↦
          elim (Option-cases
            (match_from delimiter (if is_at delimiter matched x then matched + 1 else 0) xs)) [
              | inl g ↦ absurd (ground arith)
              | inr (k, g) ↦ elim (Bool-cases (is_at delimiter matched x)) [
                | inl t ↦
                    let (f, r) =
                      match_from-ends delimiter (matched + 1) xs (pre ++ x ∷ []) front k
                        (ground (
                          arith,
                          take-suc matched delimiter x,
                          append_assoc front (take matched delimiter) (x ∷ []),
                        ))
                        (ground arith) in
                    (f, ground (arith, append_assoc pre (x ∷ []) (take k xs)))
                | inr t ↦
                    let (f, r) =
                      match_from-ends delimiter 0 xs (pre ++ x ∷ []) (pre ++ x ∷ []) k
                        (sym (append-nil _)) (ground arith) in
                    (f, ground (arith, append_assoc pre (x ∷ []) (take k xs)))
              ]
            ]
    ]

Scan-cases : (s : Scan) → s ≢ outside → s ≢ out_of_fuel → (s ≡ stopped) ⊎ ((n : ℕ) × (s ≡ found n))
Scan-cases (found n) a b = inr (n, refl)
Scan-cases stopped a b = inl refl
Scan-cases outside a b = absurd (a refl)
Scan-cases out_of_fuel a b = absurd (b refl)

-- What the search on a valid buffer comes to: a number of bytes for which there is room, at the
-- end of a delimiter if they are stored.
pub search_delimiter_total :
    (m : MessageBuffer) (buf_size : ℕ) (delimiter : List ℕ)
    → IsValid m
    → (n : ℕ) × (search_delimiter m buf_size delimiter ≡ some n)
      × (n ≤ buf_size)
      × ((n ≡ 0) ⊎ (match_from delimiter 0 (ring m.content m.size m.data_start_pos n) ≡ some n))
unfolding search_delimiter
search_delimiter_total m buf_size delimiter v =
    let inside =
      scan-ne-outside m.content m.size buf_size delimiter (buf_size + 1) m.data_start_pos 0 0
        v.content_is (omega (arith, v.size_is)) v.start_in in
    let ends =
      scan-ne-out_of_fuel m.content m.size buf_size delimiter (buf_size + 1) m.data_start_pos 0 0
        (omega arith) (omega arith) in
    elim (Scan-cases (scan m.content m.size buf_size delimiter (buf_size + 1) m.data_start_pos 0 0)
      inside ends) [
        | inl e ↦ (0, rw (e, search_delimiter) refl, omega arith, inl refl)
        | inr (n, e) ↦
            let (k, f, g) =
              scan-match_from m.content m.size buf_size delimiter (buf_size + 1) m.data_start_pos 0
                0 n e in
            let f' : n ≡ k = omega arith in
            (
              n,
              rw (e, search_delimiter) refl,
              scan-le m.content m.size buf_size delimiter (buf_size + 1) m.data_start_pos 0 0 n e
                  (omega arith),
              inr (rw f' g),
            )
      ]

pub pull_delimited-search :
    (m : MessageBuffer) (buf delimiter : List ℕ) (n : ℕ)
    → 0 < length delimiter
    → length delimiter ≤ get_stored_byte_count m
    → search_delimiter m (length buf) delimiter ≡ some n
    → pull_delimited m buf delimiter ≡ pull m buf n
unfolding pull_delimited
pull_delimited-search m buf delimiter n p h e = ground arith

pub pull_delimited_short :
    (m : MessageBuffer) (buf delimiter : List ℕ)
    → 0 < length delimiter
    → get_stored_byte_count m < length delimiter
    → pull_delimited m buf delimiter ≡ some (0, buf, m)
unfolding pull_delimited
pull_delimited_short m buf delimiter p h = ground arith

pub length-taken :
    (m : MessageBuffer) (n : ℕ) → IsValid m → length (take (taken m n) (contents m)) ≡ taken m n
length-taken m n v = rw (length-take, length-contents m v) (ground arith)

-- Nothing, all that is stored, or bytes that end with the delimiter.
abbrev pub Ends : MessageBuffer → List ℕ → ℕ → Type 0
Ends m delimiter n =
    (n ≡ 0)
    ⊎ (n ≡ get_stored_byte_count m)
    ⊎ ((front : List ℕ) × (take n (contents m) ≡ front ++ delimiter))

taken-Ends :
    (m : MessageBuffer) (delimiter : List ℕ) (n : ℕ)
    → IsValid m
    → (n ≡ 0) ⊎ (match_from delimiter 0 (ring m.content m.size m.data_start_pos n) ≡ some n)
    → Ends m delimiter (taken m n)
taken-Ends m delimiter n v (inl e) = inl (ground arith)
taken-Ends m delimiter n v (inr g) = elim (Bool-cases (ltb n (get_stored_byte_count m))) [
  | inl l ↦ rw l (inr (inr (ends (ltb→lt _ _ l))))
  | inr l ↦ rw l (inr (inl refl))
]
  where
    ends :
        n < get_stored_byte_count m → (front : List ℕ) × (take n (contents m) ≡ front ++ delimiter)
    ends l =
        let h : n ≤ get_stored_byte_count m = omega arith in
        let (f, e) =
          match_from-ends delimiter 0 (take n (contents m)) [] [] n refl
            (rw (take-contents-ring m n v h) at g) in
        (f, sym (take-take n (contents m)) ∙ e)

-- A `pull` up to a delimiter on a valid buffer makes no access outside an array, takes the oldest
-- bytes, no more than the caller's buffer holds, and keeps the invariant. What it takes is nothing,
-- or all that is stored, or ends with the delimiter.
pub pull_delimited-Ends :
    (m : MessageBuffer) (buf delimiter : List ℕ)
    → IsValid m
    → 0 < length delimiter
    → (n : ℕ) × (out : List ℕ) × (m' : MessageBuffer) × (pull_delimited m buf delimiter
        ≡ some (n, out, m'))
      × (n ≤ length buf)
      × IsValid m'
      × (take n out ≡ take n (contents m))
      × (contents m' ≡ drop n (contents m))
      × Ends m delimiter n
pull_delimited-Ends m buf delimiter v p =
    elim (Bool-cases (ltb (get_stored_byte_count m) (length delimiter))) [
      | inl short ↦ (
        0,
        buf,
        m,
        pull_delimited_short m buf delimiter p (ltb→lt _ _ short),
        omega arith,
        v,
        refl,
        refl,
        inl refl,
      )
      | inr long ↦
          let (n, e, l, o) = search_delimiter_total m (length buf) delimiter v in
          let r = pull_delimited-search m buf delimiter n p (ground arith) e in
          elim (pull-takes m buf n v) [
            | inr (over, _) ↦ absurd (ground arith)
            | inl (fits, (m', q, w, c)) ↦ (
              taken m n,
              take (taken m n) (contents m) ++ replicate (length buf - taken m n) 0,
              m',
              r ∙ q,
              fits,
              w,
              take-append_of (taken m n) _ _ (sym (length-taken m n v)),
              c,
              taken-Ends m delimiter n v o,
            )
          ]
    ]

-- Where the search goes on past the stored bytes and finds a delimiter among the bytes that were
-- there before, a `pull` up to the delimiter takes all that is stored: an unfinished section is
-- taken for a finished one.
pub pull_delimited-stale :
    (m : MessageBuffer) (buf delimiter : List ℕ) (k n : ℕ)
    → IsValid m
    → 0 < length delimiter
    → length delimiter ≤ get_stored_byte_count m
    → match_from delimiter 0 (ring m.content m.size m.data_start_pos k) ≡ some n
    → get_stored_byte_count m < n
    → n < length buf
    → (out : List ℕ) × (m' : MessageBuffer) × (pull_delimited m buf delimiter
        ≡ some (get_stored_byte_count m, out, m'))
      × (take (get_stored_byte_count m) out ≡ contents m)
      × (contents m' ≡ [])
pull_delimited-stale m buf delimiter k n v p h e l r =
    let s = get_stored_byte_count m in
    let step =
      pull_delimited-search m buf delimiter n p h
        (search_delimiter-ring m (length buf) delimiter k n e r) in
    let all : taken m n ≡ s = ground arith in
    elim (pull-takes m buf n v) [
      | inr (over, _) ↦ absurd (omega (arith, all, over, r, l))
      | inl (fits, (m', q, w, c)) ↦ (
        contents m ++ replicate (length buf - s) 0,
        m',
        step ∙ q ∙ rw (all, ← length-contents m v, take_all (contents m)) refl,
        take-append_of s _ _ (sym (length-contents m v)),
        c ∙ rw (all, ← length-contents m v, drop_all (contents m)) refl,
      )
    ]
