-- ===== src/Base64.antt =====
-- src/components/utilities/base64.cpp. The arrays `char_array_3` and `char_array_4` with their index
-- `i` are the bytes that a loop has put aside; masks and shifts of a byte are remainders and
-- quotients by powers of 2, and the cast to `byte_t` is the remainder by 256.
pub mod RoundTrip
mod Tests
use sip_processing.Prelude.{
  ℕ, zero, suc, ◌+◌, ◌*◌, ◌/◌, ◌%◌, Bool, true, false, ◌&&◌, ◌||◌, not, List, [], ◌∷◌, ◌++◌, Option,
  none, some, Text, codes, leb, ◌==◌, if◌then◌else◌, get_elem?,
}

abbrev pub base64_chars : Text
base64_chars = codes "ABCDEFGHIJKLMNOPQRSTUVWXYZabcdefghijklmnopqrstuvwxyz0123456789+/"

-- `base64_chars[v]`; the code's indices are below 64.
unfoldable pub char_at : ℕ → ℕ
char_at v = elim (get_elem? base64_chars v) [ none ↦ 0 | some c ↦ c ]

-- The place of `c` in a text, counted from `i`; `npos` is 255 as a byte.
unfoldable pub find_from : Text → ℕ → ℕ → ℕ
find_from [] c i = 255
find_from (d ∷ ds) c i = let later = find_from ds c (i + 1) in if d == c then i else later

unfoldable pub find : ℕ → ℕ
unfolding find_from
find c = find_from base64_chars c 0

unfoldable pub is_base64 : ℕ → Bool
is_base64 c =
    (leb b'0' c && leb c b'9')
    || ((leb b'A' c && leb c b'Z') || ((leb b'a' c && leb c b'z') || (c == b'+' || c == b'/')))

-- The four values of three bytes, and the three bytes of four values.
abbrev pub sextet_0 : ℕ → ℕ
sextet_0 a = a / 4 % 64

abbrev pub sextet_1 : ℕ → ℕ → ℕ
sextet_1 a b = (a % 4 * 16 + b / 16 % 16) % 256

abbrev pub sextet_2 : ℕ → ℕ → ℕ
sextet_2 b c = (b % 16 * 4 + c / 64 % 4) % 256

abbrev pub sextet_3 : ℕ → ℕ
sextet_3 c = c % 64

abbrev pub byte_0 : ℕ → ℕ → ℕ
byte_0 p q = (p * 4 + q / 16 % 4) % 256

abbrev pub byte_1 : ℕ → ℕ → ℕ
byte_1 q r = (q % 16 * 16 + r / 4 % 16) % 256

abbrev pub byte_2 : ℕ → ℕ → ℕ
byte_2 r s = (r % 4 * 64 + s) % 256

-- The bytes of `char_array_3` that stand before index `i`.
pub data Aside : Type 0 where
  empty : Aside
  one : ℕ → Aside
  two : ℕ → ℕ → Aside

-- What the encoder does after its loop.
unfoldable pub encode_rest : Aside → Text
unfolding char_at
encode_rest empty = []
encode_rest (one a) = char_at (sextet_0 a) ∷ char_at (sextet_1 a 0) ∷ b'=' ∷ b'=' ∷ []
encode_rest (two a b) =
    char_at (sextet_0 a) ∷ char_at (sextet_1 a b) ∷ char_at (sextet_2 b 0) ∷ b'=' ∷ []

unfoldable pub encode_loop : List ℕ → Aside → Text
unfolding encode_rest char_at
encode_loop [] aside = encode_rest aside
encode_loop (c ∷ cs) empty = encode_loop cs (one c)
encode_loop (c ∷ cs) (one a) = encode_loop cs (two a c)
encode_loop (c ∷ cs) (two a b) =
    char_at (sextet_0 a)
    ∷ char_at (sextet_1 a b)
    ∷ char_at (sextet_2 b c)
    ∷ char_at (sextet_3 c)
    ∷ encode_loop cs empty

unfoldable pub base64_encode : List ℕ → Text
unfolding encode_loop
base64_encode buf = encode_loop buf empty

-- The characters of `char_array_4` that stand before index `i`.
pub data Read : Type 0 where
  read_0 : Read
  read_1 : ℕ → Read
  read_2 : ℕ → ℕ → Read
  read_3 : ℕ → ℕ → ℕ → Read

-- What the decoder does after its loop; a missing character is looked up as a zero.
unfoldable pub decode_rest : Read → List ℕ
unfolding find
decode_rest read_0 = []
decode_rest (read_1 p) = []
decode_rest (read_2 p q) = byte_0 (find p) (find q) ∷ []
decode_rest (read_3 p q r) = byte_0 (find p) (find q) ∷ byte_1 (find q) (find r) ∷ []

-- The character that the loop goes on with.
unfoldable pub is_digit : ℕ → Bool
unfolding is_base64
is_digit c = not (c == b'=') && is_base64 c

unfoldable pub decode_loop : Text → Read → List ℕ
unfolding decode_rest is_digit find
decode_loop [] read = decode_rest read
decode_loop (c ∷ cs) read_0 =
    let more = decode_loop cs (read_1 c) in if is_digit c then more else []
decode_loop (c ∷ cs) (read_1 p) =
    let more = decode_loop cs (read_2 p c) in if is_digit c then more else decode_rest (read_1 p)
decode_loop (c ∷ cs) (read_2 p q) =
    let more = decode_loop cs (read_3 p q c) in
    if is_digit c then more else decode_rest (read_2 p q)
decode_loop (c ∷ cs) (read_3 p q r) =
    let more = decode_loop cs read_0 in
    if is_digit c
    then byte_0 (find p) (find q) ∷ byte_1 (find q) (find r) ∷ byte_2 (find r) (find c) ∷ more
    else decode_rest (read_3 p q r)

unfoldable pub base64_decode : Text → List ℕ
unfolding decode_loop
base64_decode encoded_string = decode_loop encoded_string read_0
