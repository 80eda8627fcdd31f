-- ===== src/Base64/RoundTrip.antt =====
-- Decoding what was encoded.
use mathlib.Core.Path.{ap₂}
use sip_processing.Prelude.{
  ℕ, zero, suc, ◌+◌, ◌*◌, ◌/◌, ◌<◌, ◌≡◌, ◌∙◌, refl, ap, inl, inr, Bool, true, ◌&&◌, List, [], ◌∷◌,
  Text, ◌==◌, ==_iff, length, arith, Bool-cases,
}
use sip_processing.Base64.{
  char_at, find, is_digit, sextet_0, sextet_1, sextet_2, sextet_3, byte_0, byte_1, byte_2, empty,
  encode_rest, encode_loop, base64_encode, read_0, decode_rest, decode_loop, base64_decode,
}

-- The test holds for each number below `n`.
all_below : ℕ → (ℕ → Bool) → Bool
all_below zero p = true
all_below (suc n) p = p n && all_below n p

all_below-at : (n : ℕ) (p : ℕ → Bool) (v : ℕ) → all_below n p ≡ true → v < n → p v ≡ true
unfolding all_below
all_below-at zero p v h l = absurd (omega arith)
all_below-at (suc n) p v h l = elim (Bool-cases (v == n)) [
  | inl y ↦ ap p ((==_iff v n).0 y) ∙ ground (arith, h)
  | inr other ↦ all_below-at n p v (ground (arith, h)) (ground (arith, other, l))
]

-- A character of the alphabet is read, and its value is its place.
is_read_back : ℕ → Bool
unfolding is_digit char_at find
is_read_back v = is_digit (char_at v) && find (char_at v) == v

all_read_back : all_below 64 is_read_back ≡ true
unfolding all_below is_read_back
all_read_back = refl

read_back : (v : ℕ) → v < 64 → (is_digit (char_at v) ≡ true) × (find (char_at v) ≡ v)
unfolding is_read_back
read_back v l = ground (arith, all_below-at 64 is_read_back v all_read_back l)

-- The bytes of the four values are the three bytes again.
byte_0-sextets : (a b : ℕ) → a < 256 → b < 256 → byte_0 (sextet_0 a) (sextet_1 a b) ≡ a
byte_0-sextets a b h k = omega arith

byte_1-sextets :
    (a b c : ℕ) → a < 256 → b < 256 → c < 256 → byte_1 (sextet_1 a b) (sextet_2 b c) ≡ b
byte_1-sextets a b c h k l = omega arith

byte_2-sextets : (b c : ℕ) → b < 256 → c < 256 → byte_2 (sextet_2 b c) (sextet_3 c) ≡ c
byte_2-sextets b c k l = omega arith

sextet_0-lt : (a : ℕ) → sextet_0 a < 64
sextet_0-lt a = omega arith

sextet_1-lt : (a b : ℕ) → sextet_1 a b < 64
sextet_1-lt a b = omega arith

sextet_2-lt : (b c : ℕ) → sextet_2 b c < 64
sextet_2-lt b c = omega arith

sextet_3-lt : (c : ℕ) → sextet_3 c < 64
sextet_3-lt c = omega arith

-- What the decoder makes of four characters of the alphabet, and of two or three before the padding.
module _ (p q r s : ℕ) (hp : p < 64) (hq : q < 64) (hr : r < 64) where
  decode_loop-four :
      (cs : Text)
      → s < 64
      → decode_loop (char_at p ∷ char_at q ∷ char_at r ∷ char_at s ∷ cs) read_0
        ≡ byte_0 p q ∷ byte_1 q r ∷ byte_2 r s ∷ decode_loop cs read_0
  unfolding decode_loop
  decode_loop-four cs hs =
      ground (arith, read_back p hp, read_back q hq, read_back r hr, read_back s hs)

  decode_loop-three :
      decode_loop (char_at p ∷ char_at q ∷ char_at r ∷ b'=' ∷ []) read_0
      ≡ byte_0 p q ∷ byte_1 q r ∷ []
  unfolding decode_loop is_digit decode_rest
  decode_loop-three = ground (arith, read_back p hp, read_back q hq, read_back r hr)

  decode_loop-two : decode_loop (char_at p ∷ char_at q ∷ b'=' ∷ b'=' ∷ []) read_0 ≡ byte_0 p q ∷ []
  unfolding decode_loop is_digit decode_rest
  decode_loop-two = ground (arith, read_back p hp, read_back q hq)

abbrev pub AllBytes : List ℕ → Type 0
AllBytes [] = Unit
AllBytes (c ∷ cs) = (c < 256) × AllBytes cs

decode_loop-encode_loop :
    (xs : List ℕ) → AllBytes xs → decode_loop (encode_loop xs empty) read_0 ≡ xs
unfolding encode_loop encode_rest
decode_loop-encode_loop [] h = unfold decode_loop in refl
decode_loop-encode_loop (a ∷ []) (h, _) =
    decode_loop-two (sextet_0 a) (sextet_1 a 0) 0 0 (sextet_0-lt a) (sextet_1-lt a 0) (omega arith)
    ∙ ap (λ x. x ∷ []) (byte_0-sextets a 0 h (omega arith))
decode_loop-encode_loop (a ∷ b ∷ []) (h, (k, _)) =
    decode_loop-three (sextet_0 a) (sextet_1 a b) (sextet_2 b 0) 0 (sextet_0-lt a) (sextet_1-lt a b)
      (sextet_2-lt b 0)
    ∙ ap₂ (λ x y. x ∷ y ∷ []) (byte_0-sextets a b h k) (byte_1-sextets a b 0 h k (omega arith))
decode_loop-encode_loop (a ∷ b ∷ c ∷ cs) (h, (k, (l, rest))) =
    decode_loop-four (sextet_0 a) (sextet_1 a b) (sextet_2 b c) (sextet_3 c) (sextet_0-lt a)
      (sextet_1-lt a b) (sextet_2-lt b c) (encode_loop cs empty) (sextet_3-lt c)
    ∙ ground (
      arith,
      byte_0-sextets a b h k,
      byte_1-sextets a b c h k l,
      byte_2-sextets b c k l,
      decode_loop-encode_loop cs rest,
    )

-- Decoding what was encoded from a list of bytes gives the bytes back.
pub base64_decode-base64_encode :
    (xs : List ℕ) → AllBytes xs → base64_decode (base64_encode xs) ≡ xs
unfolding base64_decode base64_encode
base64_decode-base64_encode xs h = decode_loop-encode_loop xs h

length-encode_loop : (xs : List ℕ) → length (encode_loop xs empty) ≡ (length xs + 2) / 3 * 4
unfolding encode_loop encode_rest
length-encode_loop [] = refl
length-encode_loop (a ∷ []) = refl
length-encode_loop (a ∷ b ∷ []) = refl
length-encode_loop (a ∷ b ∷ c ∷ cs) = omega (arith, length-encode_loop cs)

-- The encoding has four characters for each group of three bytes that is begun.
pub length-base64_encode : (xs : List ℕ) → length (base64_encode xs) ≡ (length xs + 2) / 3 * 4
unfolding base64_encode
length-base64_encode xs = length-encode_loop xs
