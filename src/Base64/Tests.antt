-- ===== src/Base64/Tests.antt =====
-- The codes of small texts.
use sip_processing.Prelude.{◌≡◌, refl, ◌+◌, ◌*◌, ◌/◌, Text, codes, length, arith}
use sip_processing.Base64.{base64_encode, base64_decode}
use sip_processing.Base64.RoundTrip.{base64_decode-base64_encode, length-base64_encode}

abbrev hello : Text
hello = codes "hello"

encode_hello : base64_encode hello ≡ codes "aGVsbG8="
unfolding base64_encode
encode_hello = refl

-- A line end inside the text ends it.
decode_two_lines : base64_decode (codes "aGVs\nbG8=") ≡ codes "hel"
unfolding base64_decode
decode_two_lines = refl

base64_decode-base64_encode_example : base64_decode (base64_encode hello) ≡ hello
base64_decode-base64_encode_example =
    base64_decode-base64_encode hello
      (omega arith, (omega arith, (omega arith, (omega arith, (omega arith, tt)))))

length-base64_encode_example : length (base64_encode hello) ≡ (length hello + 2) / 3 * 4
length-base64_encode_example = length-base64_encode hello
