-- ===== src/SipParser/Tests.antt =====
-- The header section of a small message, split over the end of the array.
use sip_processing.SipParser.ReadLine.{
  is_valid_header_field_name_char, next_is_blank, read_header_line,
}
use sip_processing.SipParser.ReadLine.Field.{field, read_header_line-field}
use sip_processing.Prelude.{
  false, codes, leb, ℕ, ◌-◌, ◌≡◌, refl, List, [], ◌∷◌, ◌++◌, some, length, replicate, arith,
}
use sip_processing.MessageBuffer.{MessageBuffer, pull_delimited, get_stored_byte_count}
use sip_processing.MessageBuffer.Valid.{IsValid, contents}
use sip_processing.SipParser.{message_delimiter}
use sip_processing.SipParser.HeaderBlock.{header_block, pull-header_block}

-- "A B\r\n\r\nv", from index 6 on.
abbrev received : MessageBuffer
received = record {
  size = 10;
  max_capacity = 9;
  data_start_pos = 6;
  data_end_pos = 4;
  content = b'\n' ∷ b'\r' ∷ b'\n' ∷ b'v' ∷ 0 ∷ 0 ∷ b'A' ∷ b' ' ∷ b'B' ∷ b'\r' ∷ [];
}

received-IsValid : IsValid received
received-IsValid = record {
  size_is = refl;
  content_is = refl;
  small = omega arith;
  start_in = omega arith;
  end_in = omega arith;
  fits = unfold get_stored_byte_count in omega arith;
}

abbrev line : List ℕ
line = b'A' ∷ b' ' ∷ b'B' ∷ []

abbrev room : List ℕ
room = replicate 16 0

pull-header_block_example :
    (m' : MessageBuffer) × (pull_delimited received room message_delimiter
      ≡ some (
        length (header_block (line ∷ []) []),
        header_block (line ∷ []) []
            ++ replicate (length room - length (header_block (line ∷ []) [])) 0,
        m',
      ))
    × IsValid m'
    × (contents m' ≡ b'v' ∷ [])
pull-header_block_example =
    pull-header_block received room line [] (b'v' ∷ []) received-IsValid (omega arith, λ e. cc, tt)
      refl (omega arith)

-- A line that starts with a dash is skipped.
skipped_line : (read_header_line 0 13 512 64 (codes "--x\r\nTo: b\r\n")).line ≡ codes "b"
unfolding read_header_line
skipped_line = refl

read_header_line-field_example :
    read_header_line 0 20 512 64 (field (codes "To") (codes "bob") (codes "From: a\r\n")) ≡ record {
      pos = 9;
      line = codes "bob";
      method = codes "To";
      end_of_headers = false;
      end_of_message = leb 20 9;
    }
unfolding is_valid_header_field_name_char next_is_blank
read_header_line-field_example =
    read_header_line-field 0 20 512 64 b'T' b'b' (codes "o") (codes "ob") (codes "From: a\r\n")
      (omega arith) (ground arith) (refl, (refl, tt)) (omega arith) refl
      (
        ground arith,
        (ground arith, (ground arith, (ground arith, (ground arith, (ground arith, tt))))),
      )
      (omega arith) refl
