-- ===== src/MessageBuffer/Length.antt =====
-- The caller's buffer keeps its length, and no more bytes are counted than are stored.
use sip_processing.Prelude.{
  zero, suc, ℕ, ◌-◌, ◌≤◌, ◌<◌, ◌≡◌, ◌∙◌, inl, inr, refl, sym, ap, Bool-cases, ltb→lt, List, ◌++◌,
  some, ltb, length, take, replicate, arith, length-append,
}
use sip_processing.MessageBuffer.{MessageBuffer, pull, pull_delimited, get_stored_byte_count}
use sip_processing.MessageBuffer.Valid.{IsValid, contents}
use sip_processing.MessageBuffer.Pull.{pull-takes, taken}
use sip_processing.MessageBuffer.Delimited.{
  length-taken, search_delimiter_total, pull_delimited-search, pull_delimited_short,
}

length-replicate : (n : ℕ) → length {A = ℕ} (replicate n 0) ≡ n
length-replicate zero = refl
length-replicate (suc n) = ap suc (length-replicate n)

pub pull-length :
    (m : MessageBuffer) (buf : List ℕ) (bytes n : ℕ) (out : List ℕ) (m' : MessageBuffer)
    → IsValid m
    → pull m buf bytes ≡ some (n, out, m')
    → (length out ≡ length buf) × (n ≤ get_stored_byte_count m)
pull-length m buf bytes n out m' v e = elim (pull-takes m buf bytes v) [
  | inr (over, q) ↦ absurd (cc)
  | inl (fits, (next, q, w, c)) ↦
      let same : out
          ≡ take (taken m bytes) (contents m) ++ replicate (length buf - taken m bytes) 0 =
        cc in
      let count : n ≡ taken m bytes = cc in
      (
        ap length same
            ∙ omega (
              arith,
              fits,
              length-append (take (taken m bytes) (contents m))
                  (replicate (length buf - taken m bytes) 0),
              length-taken m bytes v,
              length-replicate (length buf - taken m bytes),
            ),
        ground arith,
      )
]

pub pull_delimited-length :
    (m : MessageBuffer) (buf delimiter : List ℕ) (n : ℕ) (out : List ℕ) (m' : MessageBuffer)
    → IsValid m
    → 0 < length delimiter
    → pull_delimited m buf delimiter ≡ some (n, out, m')
    → (length out ≡ length buf) × (n ≤ get_stored_byte_count m)
pull_delimited-length m buf delimiter n out m' v p e =
    elim (Bool-cases (ltb (get_stored_byte_count m) (length delimiter))) [
      | inl short ↦
          let q = pull_delimited_short m buf delimiter p (ltb→lt _ _ short) in
          let same : out ≡ buf = cc in let count : n ≡ 0 = cc in (ap length same, omega arith)
      | inr long ↦
          let (count, found, l, o) = search_delimiter_total m (length buf) delimiter v in
          let r = pull_delimited-search m buf delimiter count p (ground arith) found in
          pull-length m buf count n out m' v (sym r ∙ e)
    ]
