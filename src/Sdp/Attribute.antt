-- ===== src/Sdp/Attribute.antt =====
-- src/components/sdp/SdpAttributeLine.hpp and SdpAttribute.hpp: an attribute, as a line `a=key:value
-- parameters`.
use sip_processing.Prelude.{
  ◌==◌, Bool, true, false, List, ◌∷◌, [], Text, codes, stream, if◌then◌else◌,
}
use sip_processing.Buffers.{MappedBuffer, bytes, no_buffer, buffer_trim, buffer_split_on_first}

pub record SdpAttributeLine : Type 0 where
  pub is_property_attribute : Bool
  pub key : Text
  pub value : Text
  pub parameters : Text

abbrev pub is_empty : Text → Bool
is_empty [] = true
is_empty (c ∷ cs) = false

-- The constructor, once the line is split on its blank and the first part on its colon. A split has
-- two parts.
abbrev pub of_parts : List MappedBuffer → List MappedBuffer → SdpAttributeLine
of_parts (c ∷ parameters ∷ cs) (k ∷ v ∷ vs) = record {
  is_property_attribute = v.len == 0;
  key = bytes (buffer_trim k 0);
  value = if v.len == 0 then [] else bytes (buffer_trim v 0);
  parameters = bytes parameters;
}
of_parts cs ks = record { is_property_attribute = true; key = []; value = []; parameters = [] }

abbrev first_part : List MappedBuffer → MappedBuffer
first_part [] = no_buffer
first_part (b ∷ bs) = b

unfoldable pub attribute_line : MappedBuffer → SdpAttributeLine
unfolding buffer_split_on_first buffer_trim
attribute_line line =
    let components = buffer_split_on_first (buffer_trim line 0) b' ' in
    of_parts components (buffer_split_on_first (first_part components) b':')

unfoldable pub line_to_string : SdpAttributeLine → Text
line_to_string a = stream (
    a.key
    ∷ (if a.is_property_attribute then [] else b':' ∷ a.value)
    ∷ (if is_empty a.parameters then [] else b' ' ∷ a.parameters)
    ∷ [])

-- A null pointer for a C string is `none`.
pub record SdpAttribute : Type 0 where
  pub key : Text
  pub value : Text
  pub parameters : Text
  pub is_property_attribute : Bool

abbrev pub of_line : SdpAttributeLine → SdpAttribute
of_line line = record {
  key = line.key;
  value = line.value;
  parameters = line.parameters;
  is_property_attribute = line.is_property_attribute;
}

-- `SdpAttribute(const char *, const char *, const char *)` where only the parameters may be null.
abbrev pub of_key_value : Text → Text → Text → SdpAttribute
of_key_value key value parameters = record {
  key = key;
  value = value;
  parameters = parameters;
  is_property_attribute = false;
}

-- `SdpAttribute(std::string &, std::string &, std::string &)`.
abbrev pub of_strings : Text → Text → Text → SdpAttribute
of_strings key value parameters = record {
  key = key;
  value = value;
  parameters = parameters;
  is_property_attribute = is_empty value;
}

abbrev pub of_key : Text → SdpAttribute
of_key key = record { key = key; value = []; parameters = []; is_property_attribute = true }

unfoldable pub to_string : SdpAttribute → Text
to_string a = stream (
    codes "a="
    ∷ a.key
    ∷ (if a.is_property_attribute then [] else b':' ∷ a.value)
    ∷ (if is_empty a.parameters then [] else b' ' ∷ a.parameters)
    ∷ [])

unfoldable pub to_json : SdpAttribute → Text
to_json a = stream (
    codes "{"
    ∷ codes "\"name\":\""
    ∷ a.key
    ∷ codes "\","
    ∷ codes "\"value\":\""
    ∷ a.value
    ∷ codes "\","
    ∷ codes "\"parameters\":\""
    ∷ a.parameters
    ∷ codes "\""
    ∷ codes "}"
    ∷ [])
