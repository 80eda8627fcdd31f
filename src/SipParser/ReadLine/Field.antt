-- ===== src/SipParser/ReadLine/Field.antt =====
-- A header field on one line, as it is read.
use mathlib.Core.List.{append_assoc, append-nil}
use sip_processing.Prelude.{
  ℕ, ◌+◌, ◌<◌, ◌≡◌, ◌≢◌, ◌∙◌, refl, sym, ap, Bool, true, false, ◌&&◌, ◌||◌, not, [], ◌∷◌, ◌++◌,
  Text, leb, ◌==◌, length, arith, length-append,
}
use sip_processing.SipParser.ReadLine.{
  Reader, is_valid_header_field_name_char, next_is_blank, ends_name, read_name, read_value, skips,
  read_loop, read_header_line,
}

abbrev reader : ℕ → ℕ → Text → Text → Bool → Bool → Reader
reader p i l m a b = record {
  pos = p;
  message_index = i;
  line = l;
  method = m;
  have_name = a;
  have_start_of_value = b;
  skipping = false;
}

same_reader :
    {p q i j : ℕ} {l k m n : Text} {a b : Bool}
    → p ≡ q
    → i ≡ j
    → l ≡ k
    → m ≡ n
    → reader p i l m a b ≡ reader q j k n a b
same_reader e f g h = cc

abbrev pub IsName : Text → Type 0
IsName [] = Unit
IsName (c ∷ cs) = (is_valid_header_field_name_char c ≡ true) × IsName cs

abbrev pub IsValue : Text → Type 0
IsValue [] = Unit
IsValue (c ∷ cs) = (c ≢ b'\r') × ((c ≢ b'\n') × IsValue cs)

valid-ends :
    (c : ℕ)
    → is_valid_header_field_name_char c ≡ true
    → ((c == b'\r') ≡ false) × ((c == b'\n') ≡ false)
unfolding is_valid_header_field_name_char
valid-ends c h = ground (arith, h)

module _ (size line_size method_size : ℕ) where
  -- One more character of the name.
  name_step :
      (c : ℕ) (t done : Text) (p i : ℕ)
      → is_valid_header_field_name_char c ≡ true
      → length done + 1 < method_size
      → 1 < line_size
      → (length done == 0 && c == b'-') ≡ false
      → read_loop size line_size method_size (c ∷ t) (reader p i [] done false false)
        ≡ read_loop size line_size method_size t
            (reader (p + 1) (i + 1) [] (done ++ c ∷ []) false false)
  unfolding read_loop skips read_name ends_name read_value
  name_step c t done p i h k l d = ground (arith, h, d, valid-ends c h)

  name_rest :
      (name t done : Text) (p i : ℕ)
      → IsName name
      → 0 < length done
      → length done + length name < method_size
      → 1 < line_size
      → read_loop size line_size method_size (name ++ t) (reader p i [] done false false)
        ≡ read_loop size line_size method_size t
            (reader (p + length name) (i + length name) [] (done ++ name) false false)
  name_rest [] t done p i h o k l =
      ap (read_loop size line_size method_size t)
        (same_reader (omega arith) (omega arith) refl (sym (append-nil done)))
  name_rest (c ∷ cs) t done p i (h, hs) o k l =
      name_step c (cs ++ t) done p i h (omega arith) l (ground arith)
      ∙ name_rest cs t (done ++ c ∷ []) (p + 1) (i + 1) hs
          (omega (arith, length-append done (c ∷ []))) (omega (arith, length-append done (c ∷ [])))
          l
      ∙ ap (read_loop size line_size method_size t)
          (same_reader (omega arith) (omega arith) refl (append_assoc done (c ∷ []) cs))

  value_step :
      (c : ℕ) (t line m : Text) (p i : ℕ)
      → c ≢ b'\r'
      → c ≢ b'\n'
      → length line + 1 < line_size
      → read_loop size line_size method_size (c ∷ t) (reader p i line m true true)
        ≡ read_loop size line_size method_size t
            (reader (p + 1) (i + 1) (line ++ c ∷ []) m true true)
  unfolding read_loop skips read_name read_value
  value_step c t line m p i h k l = ground (arith, h, k)

  value_rest :
      (value t line m : Text) (p i : ℕ)
      → IsValue value
      → length line + length value < line_size
      → read_loop size line_size method_size (value ++ t) (reader p i line m true true)
        ≡ read_loop size line_size method_size t
            (reader (p + length value) (i + length value) (line ++ value) m true true)
  value_rest [] t line m p i h k =
      ap (read_loop size line_size method_size t)
        (same_reader (omega arith) (omega arith) (sym (append-nil line)) refl)
  value_rest (c ∷ cs) t line m p i (h, (n, hs)) k =
      value_step c (cs ++ t) line m p i h n (omega arith)
      ∙ value_rest cs t (line ++ c ∷ []) m (p + 1) (i + 1) hs
          (omega (arith, length-append line (c ∷ [])))
      ∙ ap (read_loop size line_size method_size t)
          (same_reader (omega arith) (omega arith) (append_assoc line (c ∷ []) cs) refl)

  -- The colon, the blank behind it and the first character of the value.
  separator :
      (v : ℕ) (t m : Text) (p i : ℕ)
      → v ≢ b' '
      → v ≢ b':'
      → v ≢ b'\t'
      → v ≢ b'\r'
      → v ≢ b'\n'
      → 1 < line_size
      → 0 < length m
      → read_loop size line_size method_size (b':' ∷ b' ' ∷ v ∷ t) (reader p i [] m false false)
        ≡ read_loop size line_size method_size t (reader (p + 3) (i + 3) (v ∷ []) m true true)
  unfolding read_loop skips read_name read_value ends_name is_valid_header_field_name_char
  separator v t m p i h k l n o s u = ground (arith, h, k, l, n, o)

  -- The line's end.
  line_end :
      (t line m : Text) (p i : ℕ)
      → length line + 1 < line_size
      → next_is_blank t ≡ false
      → read_loop size line_size method_size (b'\r' ∷ b'\n' ∷ t) (reader p i line m true true)
        ≡ reader (p + 1) (i + 1) line m true true
  unfolding read_loop skips read_name read_value
  line_end t line m p i l h = ground (arith, h)

-- The characters that may stand between a field's name and its value.
abbrev pub starts_value : ℕ → Bool
starts_value v = not (v == b' ' || (v == b':' || v == b'\t'))

abbrev pub field : Text → Text → Text → Text
field name value rest = name ++ (b':' ∷ b' ' ∷ (value ++ (b'\r' ∷ b'\n' ∷ rest)))

-- A field, at a position inside the message, with a name and a value on one line is read as this name and this
-- value, and the position moves behind its line end. The name is not empty, has letters and
-- dashes alone, does not start with a dash, and is shorter than the buffer for it. The value is
-- not empty, does not start with a blank, a tab or a colon, has no line end characters, and is shorter by two or
-- more than the buffer for it. What follows the line end does not start with a blank or a tab, which would
-- continue the value.
pub read_header_line-field :
    (pos size line_size method_size n v : ℕ) (name value rest : Text)
    → pos < size
    → n ≢ b'-'
    → IsName (n ∷ name)
    → length (n ∷ name) < method_size
    → starts_value v ≡ true
    → IsValue (v ∷ value)
    → length (v ∷ value) + 1 < line_size
    → next_is_blank rest ≡ false
    → read_header_line pos size line_size method_size (field (n ∷ name) (v ∷ value) rest) ≡ record {
      pos = pos + length (n ∷ name) + length (v ∷ value) + 4;
      line = v ∷ value;
      method = n ∷ name;
      end_of_headers = false;
      end_of_message = leb size (pos + length (n ∷ name) + length (v ∷ value) + 4);
    }
unfolding read_header_line
read_header_line-field pos size ls ms n v name value rest inside dash (valid, names) short starts
      (cr, (lf, values)) fits last =
    let tail = b'\r' ∷ b'\n' ∷ rest in
    let run = read_loop size ls ms in
    let whole : run (field (n ∷ name) (v ∷ value) rest) (reader pos pos [] [] false false)
        ≡ reader (pos + length (n ∷ name) + length (v ∷ value) + 3)
            (pos + length (n ∷ name) + length (v ∷ value) + 3) (v ∷ value) (n ∷ name) true true =
      name_step size ls ms n _ [] pos pos valid (omega arith) (omega arith) (ground (arith, dash))
      ∙ name_rest size ls ms name _ (n ∷ []) (pos + 1) (pos + 1) names (omega arith) (omega arith)
          (omega arith)
      ∙ separator size ls ms v _ (n ∷ name) _ _ (ground (arith, starts)) (ground (arith, starts))
          (ground (arith, starts)) cr lf (omega arith) (omega arith)
      ∙ value_rest size ls ms value tail (v ∷ []) (n ∷ name) _ _ values (omega arith)
      ∙ line_end size ls ms rest (v ∷ value) (n ∷ name) _ _ fits last
      ∙ same_reader (omega arith) (omega arith) refl refl in
    ground (arith, whole)
