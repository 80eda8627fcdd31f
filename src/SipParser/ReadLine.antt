-- ===== src/SipParser/ReadLine.antt =====
-- `SipParser::readHeaderLine` of src/components/sip/SipParser.cpp. The text at `pMessage` is the list
-- that is left of the message; `line` and `method` are what stands in the two buffers. The byte
-- behind the message, which is read where a skipped line ends it, is the zero that
-- `MessageBuffer::pull` leaves there.
pub mod Field
use sip_processing.Prelude.{
  ℕ, zero, suc, ◌+◌, ◌-◌, Bool, true, false, ◌&&◌, ◌||◌, not, List, [], ◌∷◌, ◌++◌, Text, ltb, leb,
  ◌==◌, if◌then◌else◌, length,
}

-- `isValidHeaderFieldNameChar`, with `isalpha` of the C locale.
unfoldable pub is_valid_header_field_name_char : ℕ → Bool
is_valid_header_field_name_char c =
    (leb b'A' c && leb c b'Z') || ((leb b'a' c && leb c b'z') || c == b'-')

-- The variables of the loop; `skipping` is the inner loop over a line that starts with a dash, in
-- which `messageIndex` stands still.
pub record Reader : Type 0 where
  pub pos : ℕ
  pub message_index : ℕ
  pub line : Text
  pub method : Text
  pub have_name : Bool
  pub have_start_of_value : Bool
  pub skipping : Bool

-- A round's increments.
abbrev pub advance : Reader → Reader
advance r = record r { pos = r.pos + 1; message_index = r.message_index + 1 }

unfoldable pub next_is_blank : Text → Bool
next_is_blank [] = false
next_is_blank (c ∷ cs) = c == b' ' || c == b'\t'

unfoldable pub ends_name : ℕ → Reader → ℕ → Bool
unfolding is_valid_header_field_name_char
ends_name size_of_method r c =
    leb (size_of_method - 1) (length r.method) || not (is_valid_header_field_name_char c)

-- The `if` on `haveName`, for a character that does not start a line to skip.
unfoldable pub read_name : ℕ → Reader → ℕ → Reader
unfolding ends_name
read_name size_of_method r c =
    if r.have_name
    then r
    else (if ends_name size_of_method r c
        then record r { have_name = true }
        else record r { method = r.method ++ c ∷ [] })

-- The last branch: a character of the value.
unfoldable pub read_value : Reader → ℕ → Reader
read_value r c =
    let starts =
      r.have_start_of_value || (r.have_name && not (c == b' ' || (c == b':' || c == b'\t'))) in
    if starts then record r { have_start_of_value = true; line = r.line ++ c ∷ [] } else r

-- Whether the character starts a line to skip.
unfoldable pub skips : ℕ → Reader → ℕ → Bool
unfolding ends_name
skips size_of_method r c =
    not r.have_name && (not (ends_name size_of_method r c) && (length r.method == 0 && c == b'-'))

-- The loop; what it leaves is the reader as it stands after the loop.
unfoldable pub read_loop : ℕ → ℕ → ℕ → Text → Reader → Reader
unfolding skips read_name read_value next_is_blank
read_loop message_size size_of_line size_of_method [] r = if r.skipping then advance r else r
read_loop message_size size_of_line size_of_method (c ∷ cs) r = elim (r.skipping) [
  | true ↦ elim (c == b'\n') [
    | true ↦
        read_loop message_size size_of_line size_of_method cs
          (advance (record r { skipping = false }))
    | false ↦ read_loop message_size size_of_line size_of_method cs (record r { pos = r.pos + 1 })
  ]
  | false ↦ elim (ltb (length r.line) (size_of_line - 1)) [
    | false ↦ r
    | true ↦ elim (skips size_of_method r c) [
      | true ↦
          read_loop message_size size_of_line size_of_method cs
            (record r { pos = r.pos + 1; skipping = true })
      | false ↦
          let n = read_name size_of_method r c in
          elim (c == b'\r') [
            | true ↦ read_loop message_size size_of_line size_of_method cs (advance n)
            | false ↦ elim (c == b'\n') [
              | true ↦ elim (ltb r.message_index (message_size - 1) && next_is_blank cs) [
                | true ↦ read_loop message_size size_of_line size_of_method cs (advance n)
                | false ↦ n
              ]
              | false ↦
                  read_loop message_size size_of_line size_of_method cs (advance (read_value n c))
            ]
          ]
    ]
  ]
]

-- What the call sets; it returns the line's length.
pub record HeaderLine : Type 0 where
  pub pos : ℕ
  pub line : Text
  pub method : Text
  pub end_of_headers : Bool
  pub end_of_message : Bool

-- `left` is the message from `pos` on.
unfoldable pub read_header_line : ℕ → ℕ → ℕ → ℕ → Text → HeaderLine
unfolding read_loop
read_header_line pos message_size size_of_line size_of_method left =
    let r = read_loop message_size size_of_line size_of_method left (record {
      pos = pos;
      message_index = pos;
      line = [];
      method = [];
      have_name = false;
      have_start_of_value = false;
      skipping = false;
    }) in
    if leb message_size pos
    then record { pos = pos; line = []; method = []; end_of_headers = false; end_of_message = true }
    else record {
      pos = r.pos + 1;
      line = r.line;
      method = r.method;
      end_of_headers = length r.line == 0;
      end_of_message = leb message_size (r.pos + 1);
    }
