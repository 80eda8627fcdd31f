-- ===== src/Buffers/Tests.antt =====
-- Views at work, and the theorems at small inputs.
use mathlib.Core.List.{reverse}
use sip_processing.Prelude.{
  ◌≡◌, ◌↔◌, refl, true, false, List, [], ◌∷◌, ◌++◌, map, Text, codes, arith,
}
use sip_processing.Buffers.{
  MappedBuffer, bytes, mapped_buffer, is_line_end, is_separator, buffer_equals, buffer_starts_with,
  buffer_ends_with, buffer_contains, buffer_split, buffer_split_lines, buffer_split_on_first,
  buffers_join, buffer_trim,
}
use sip_processing.Buffers.Compare.{
  folded, buffer_equals_iff, buffer_starts_with_iff, buffer_ends_with_iff, buffer_contains_iff,
}
use sip_processing.Buffers.Split.{fields, buffer_split-fields, buffer_split_lines-fields}
use sip_processing.Buffers.Join.{AreFields, buffer_split-join}
use sip_processing.Buffers.First.{SplitOnFirst, buffer_split_on_first-SplitOnFirst}
use sip_processing.Buffers.Trim.{AllTrimmed, StartsKept, buffer_trim-tight}

abbrev header : MappedBuffer
header = mapped_buffer (codes "Content-Type: application/SDP")

abbrev sdp : Text
sdp = codes "sdp"

abbrev two_lines : MappedBuffer
two_lines = mapped_buffer (codes "v=0\r\n\r\ns=x y")

contains_sdp : buffer_contains header sdp false ≡ true
unfolding buffer_contains
contains_sdp = refl

split_two_lines : map bytes (buffer_split_lines two_lines) ≡ codes "v=0" ∷ codes "s=x y" ∷ []
unfolding buffer_split_lines
split_two_lines = refl

trim_spaces : bytes (buffer_trim (mapped_buffer (codes "  a b\t")) 0) ≡ codes "a b"
unfolding buffer_trim
trim_spaces = refl

buffer_equals_iff_example :
    (buffer_equals header sdp false ≡ true) ↔ (folded false (bytes header) ≡ folded false sdp)
buffer_equals_iff_example = buffer_equals_iff header sdp false (omega arith)

buffer_starts_with_iff_example :
    (buffer_starts_with header sdp false ≡ true)
    ↔ ((rest : Text) × (folded false (bytes header) ≡ folded false sdp ++ rest))
buffer_starts_with_iff_example = buffer_starts_with_iff header sdp false (λ e. cc)

buffer_ends_with_iff_example :
    (buffer_ends_with header sdp false ≡ true)
    ↔ ((front : Text) × (folded false (bytes header) ≡ front ++ folded false sdp))
buffer_ends_with_iff_example = buffer_ends_with_iff header sdp false (omega arith) (λ e. cc)

buffer_contains_iff_example :
    (buffer_contains header sdp false ≡ true)
    ↔ ((front rest : Text) × (folded false (bytes header) ≡ front ++ (folded false sdp ++ rest)))
buffer_contains_iff_example = buffer_contains_iff header sdp false (omega arith)

buffer_split-fields_example :
    map bytes (buffer_split two_lines b' ') ≡ fields (is_separator b' ') (bytes two_lines)
buffer_split-fields_example = buffer_split-fields two_lines b' '

buffer_split_lines-fields_example :
    map bytes (buffer_split_lines two_lines) ≡ fields is_line_end (bytes two_lines)
buffer_split_lines-fields_example = buffer_split_lines-fields two_lines

abbrev words : List Text
words = codes "IN" ∷ codes "IP4" ∷ []

words-AreFields : AreFields b' ' words
words-AreFields = ((λ e. cc), (refl, (refl, tt)), ((λ e. cc), (refl, (refl, (refl, tt))), tt))

buffer_split-join_example :
    map bytes (buffer_split (mapped_buffer (buffers_join (map mapped_buffer words) b' ' 0)) b' ')
    ≡ words
buffer_split-join_example = buffer_split-join b' ' words words-AreFields

buffer_split_on_first-SplitOnFirst_example :
    SplitOnFirst header b':' (buffer_split_on_first header b':')
buffer_split_on_first-SplitOnFirst_example = buffer_split_on_first-SplitOnFirst header b':'

buffer_trim-tight_example :
    (front back : Text) × (bytes header ≡ front ++ (bytes (buffer_trim header 0) ++ back))
    × AllTrimmed 0 front
    × AllTrimmed 0 back
    × StartsKept 0 (bytes (buffer_trim header 0))
    × StartsKept 0 (reverse (bytes (buffer_trim header 0)))
buffer_trim-tight_example = buffer_trim-tight header 0
