-- ===== src/Buffers/Numbers.antt =====
-- src/components/utilities/buffers.cpp: the numbers in a view. `strtoul` and `strtol` of the C library
-- read the memory of the view, and not only its bytes, up to the first character that is no digit;
-- `unsigned long` and `long` have 64 bits.
use sip_processing.Prelude.{
  ℕ, ◌+◌, ◌-◌, ◌*◌, ◌%◌, ◌^◌, Bool, true, false, ◌&&◌, [], ◌∷◌, Text, ltb, leb, ◌==◌, if◌then◌else◌,
  ℤ, pos, negsuc, min,
}
use sip_processing.Buffers.{MappedBuffer, is_space}

unfoldable pub is_digit : ℕ → Bool
is_digit c = leb b'0' c && leb c b'9'

unfoldable pub skip_space : Text → Text
unfolding is_space
skip_space [] = []
skip_space (c ∷ cs) = if is_space c then skip_space cs else c ∷ cs

-- The number that the digits in front have, behind the digits of `acc`.
unfoldable pub digits_from : Text → ℕ → ℕ
unfolding is_digit
digits_from [] acc = acc
digits_from (c ∷ cs) acc = if is_digit c then digits_from cs (acc * 10 + (c - b'0')) else acc

-- Whether there is a minus, and what the digits say.
unfoldable pub signed_digits : Text → Bool × ℕ
unfolding digits_from
signed_digits [] = (false, 0)
signed_digits (c ∷ cs) =
    if c == b'-'
    then (true, digits_from cs 0)
    else if c == b'+'
    then (false, digits_from cs 0)
    else (false, digits_from (c ∷ cs) 0)

abbrev pub unsigned_long : Bool × ℕ → ℕ
unsigned_long (negative, n) =
    if ltb n (2 ^ 64) then if negative then (2 ^ 64 - n) % 2 ^ 64 else n else 2 ^ 64 - 1

unfoldable pub strtoul : Text → ℕ
unfolding signed_digits skip_space
strtoul p = unsigned_long (signed_digits (skip_space p))

abbrev pub signed_long : Bool × ℕ → ℤ
signed_long (false, n) = pos (min n (2 ^ 63 - 1))
signed_long (true, n) = if n == 0 then pos 0 else negsuc (min n (2 ^ 63) - 1)

unfoldable pub strtol : Text → ℤ
unfolding signed_digits skip_space
strtol p = signed_long (signed_digits (skip_space p))

unfoldable pub to_unsigned_long_integer : MappedBuffer → ℕ
unfolding strtoul
to_unsigned_long_integer buffer = if buffer.len == 0 then 0 else strtoul buffer.buf

unfoldable pub to_unsigned_short_integer : MappedBuffer → ℕ
unfolding to_unsigned_long_integer
to_unsigned_short_integer buffer = to_unsigned_long_integer buffer % 2 ^ 16

unfoldable pub to_long_integer : MappedBuffer → ℤ
unfolding strtol
to_long_integer buffer = if buffer.len == 0 then pos 0 else strtol buffer.buf

-- The conversion of a `long` to `uint32_t`.
abbrev pub uint32 : ℤ → ℕ
uint32 (pos n) = n % 2 ^ 32
uint32 (negsuc n) = 2 ^ 32 - 1 - n % 2 ^ 32
