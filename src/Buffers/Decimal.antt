-- ===== src/Buffers/Decimal.antt =====
-- The numbers that a stream prints are the numbers that strtol and strtoul read, whatever follows
-- behind the digits.
use mathlib.Core.List.{append-nil}
use sip_processing.Prelude.{
  ℕ, zero, suc, ◌+◌, ◌-◌, ◌*◌, ◌/◌, ◌%◌, ◌^◌, ◌<◌, ◌≤◌, ◌≡◌, ◌≢◌, refl, sym, ap, ◌∙◌, Bool, true,
  false, [], ◌∷◌, ◌++◌, Text, length, arith, decimal_from, decimal, ltb, Bool-cases, inl, inr,
  ltb→lt, if◌then◌else◌, ◌==◌,
}
use sip_processing.Buffers.{view, is_space}
use sip_processing.Buffers.Numbers.{
  is_digit, skip_space, digits_from, signed_digits, strtoul, strtol, to_unsigned_long_integer,
  to_long_integer, uint32,
}

-- No digit stands in front.
unfoldable pub ends_number : Text → Bool
unfolding is_digit
ends_number [] = true
ends_number (c ∷ cs) = if is_digit c then false else true

decimal_from-append :
    (fuel n : ℕ) (acc t : Text) → decimal_from fuel n acc ++ t ≡ decimal_from fuel n (acc ++ t)
unfolding decimal_from
decimal_from-append zero n acc t = refl
decimal_from-append (suc fuel) n acc t = elim (Bool-cases (ltb n 10)) [
  | inl e ↦ rw (e, decimal_from) refl
  | inr e ↦ rw (e, decimal_from) (decimal_from-append fuel (n / 10) (_ ∷ acc) t)
]

digit_lem : (n : ℕ) → is_digit (48 + n % 10) ≡ true
unfolding is_digit
digit_lem n = ground arith

pub data StartsDigit : Text → Type 0 where
  starts : {c : ℕ} {cs : Text} → is_digit c ≡ true → StartsDigit (c ∷ cs)

decimal_from-StartsDigit :
    (fuel n : ℕ) (acc : Text) → StartsDigit acc → StartsDigit (decimal_from fuel n acc)
unfolding decimal_from
decimal_from-StartsDigit zero n acc h = h
decimal_from-StartsDigit (suc fuel) n acc h = elim (Bool-cases (ltb n 10)) [
  | inl e ↦ rw (e, decimal_from) (starts (digit_lem n))
  | inr e ↦ rw (e, decimal_from) (decimal_from-StartsDigit fuel (n / 10) _ (starts (digit_lem n)))
]

decimal-StartsDigit : (n : ℕ) (t : Text) → StartsDigit (decimal n ++ t)
unfolding decimal
decimal-StartsDigit n t = rw (decimal_from-append (n + 1) n [] t) (first (n + 1) (omega arith))
  where
    first : (fuel : ℕ) → 0 < fuel → StartsDigit (decimal_from fuel n t)
    first zero h = absurd (omega arith)
    first (suc fuel) h = elim (Bool-cases (ltb n 10)) [
      | inl e ↦ unfold decimal_from in rw (e, decimal_from) (starts (digit_lem n))
      | inr e ↦
          unfold decimal_from in
          rw (e, decimal_from) (decimal_from-StartsDigit fuel (n / 10) _ (starts (digit_lem n)))
    ]

-- The texts that hold only digits.
abbrev pub AreDigits : Text → Type 0
AreDigits [] = Unit
AreDigits (c ∷ cs) = (is_digit c ≡ true) × AreDigits cs

decimal_from-AreDigits :
    (fuel n : ℕ) (acc : Text) → AreDigits acc → AreDigits (decimal_from fuel n acc)
unfolding decimal_from
decimal_from-AreDigits zero n acc h = h
decimal_from-AreDigits (suc fuel) n acc h = elim (Bool-cases (ltb n 10)) [
  | inl e ↦ rw (e, decimal_from) (digit_lem n, h)
  | inr e ↦ rw (e, decimal_from) (decimal_from-AreDigits fuel (n / 10) _ (digit_lem n, h))
]

pub decimal-AreDigits : (n : ℕ) → AreDigits (decimal n)
unfolding decimal
decimal-AreDigits n = decimal_from-AreDigits (n + 1) n [] tt

plain_number : (s : Text) → StartsDigit s → signed_digits (skip_space s) ≡ (false, digits_from s 0)
unfolding signed_digits skip_space is_space is_digit
plain_number _ (starts {c} {cs} d) =
    let bounds : (48 ≤ c) × (c ≤ 57) = ground arith in
    let not_space : is_space c ≡ false = ground arith in ground arith

digits_from-digit :
    (c : ℕ) (cs : Text) (acc : ℕ)
    → is_digit c ≡ true
    → digits_from (c ∷ cs) acc ≡ digits_from cs (acc * 10 + (c - 48))
unfolding digits_from
digits_from-digit c cs acc h = rw (h, digits_from) refl

digits_from-decimal_from :
    (fuel n : ℕ) (acc : Text)
    → n < fuel
    → digits_from (decimal_from fuel n acc) 0 ≡ digits_from acc n
unfolding decimal_from
digits_from-decimal_from zero n acc h = absurd (omega arith)
digits_from-decimal_from (suc fuel) n acc h = elim (Bool-cases (ltb n 10)) [
  | inl e ↦
      let small : n < 10 = ltb→lt n 10 e in
      rw (e, decimal_from)
        (digits_from-digit (48 + n % 10) acc 0 (digit_lem n) ∙ ap (digits_from acc) (omega arith))
  | inr e ↦
      let large : 10 ≤ n = ground arith in
      rw (e, decimal_from)
        (digits_from-decimal_from fuel (n / 10) ((48 + n % 10) ∷ acc) (omega arith)
          ∙ digits_from-digit (48 + n % 10) acc (n / 10) (digit_lem n)
          ∙ ap (digits_from acc) (omega arith))
]

digits_from-ends : (t : Text) (n : ℕ) → ends_number t ≡ true → digits_from t n ≡ n
unfolding digits_from ends_number
digits_from-ends [] n h = refl
digits_from-ends (c ∷ cs) n h = ground arith

-- What follows `decimal n` and is no digit ends the number.
signed_digits-decimal :
    (n : ℕ) (t : Text)
    → ends_number t ≡ true
    → signed_digits (skip_space (decimal n ++ t)) ≡ (false, n)
signed_digits-decimal n t h =
    plain_number (decimal n ++ t) (decimal-StartsDigit n t)
    ∙ ap (λ v. (false, v)) (value ∙ digits_from-ends t n h)
  where
    value : digits_from (decimal n ++ t) 0 ≡ digits_from t n
    value =
        unfold decimal in
        rw (decimal_from-append (n + 1) n [] t) (digits_from-decimal_from (n + 1) n t (omega arith))

length-decimal : (n : ℕ) → (length (decimal n) == 0) ≡ false
length-decimal n = from_start (decimal n ++ []) (append-nil (decimal n)) (decimal-StartsDigit n [])
  where
    from_start : (s : Text) → s ≡ decimal n → StartsDigit s → (length (decimal n) == 0) ≡ false
    from_start _ e (starts d) = rw (sym e) (ground arith)

pub decimal_ne : (n : ℕ) → decimal n ≢ []
decimal_ne n e = absurd (ground (arith, length-decimal n))

-- The view of a number that is printed is read as the number, if that fits.
pub to_long_integer-decimal :
    (n : ℕ) (t : Text)
    → ends_number t ≡ true
    → n < 2 ^ 32
    → uint32 (to_long_integer (view (decimal n ++ t) (length (decimal n)))) ≡ n
unfolding to_long_integer strtol
to_long_integer-decimal n t h k = rw (length-decimal n, signed_digits-decimal n t h) (omega arith)

pub to_unsigned_long_integer-decimal :
    (n : ℕ) (t : Text)
    → ends_number t ≡ true
    → n < 2 ^ 64
    → to_unsigned_long_integer (view (decimal n ++ t) (length (decimal n))) ≡ n
unfolding to_unsigned_long_integer strtoul
to_unsigned_long_integer-decimal n t h k =
    let fits : ltb n (2 ^ 64) ≡ true = ground arith in
    rw (length-decimal n, signed_digits-decimal n t h, fits) refl

-- The C string of a number.
pub strtoul-decimal : (n : ℕ) → n < 2 ^ 64 → strtoul (decimal n) ≡ n
unfolding strtoul ends_number
strtoul-decimal n k =
    let fits : ltb n (2 ^ 64) ≡ true = ground arith in
    rw (sym (append-nil (decimal n))) (rw (signed_digits-decimal n [] refl, fits) refl)
