-- ===== src/Sdp/Lines/AttributeText.antt =====
-- src/components/sdp/SdpAttribute.hpp and SdpAttributeLine.hpp: the `a=` line.
use mathlib.Core.List.{append_assoc, append-nil, reverse, reverse-append, reverse-cons}
use mathlib.Core.Path.{subst}
use sip_processing.Prelude.{
  ℕ, ◌≡◌, ◌≢◌, ◌⊎◌, inl, inr, refl, sym, ap, ◌∙◌, Bool, true, false, [], ◌∷◌, ◌++◌, Text, ◌==◌,
  length, if◌then◌else◌, arith,
}
use sip_processing.Buffers.{
  MappedBuffer, bytes, no_buffer, is_space, is_trimmed, is_line_end, buffer_trim,
  buffer_split_on_first,
}
use sip_processing.Buffers.Words.{Unstopped, Unstopped-append}
use sip_processing.Buffers.First.{Lacks}
use sip_processing.Buffers.Trim.{StartsKept}
use sip_processing.Buffers.Kept.{
  before, bytes-before, buffer_trim-kept, buffer_split_on_first-at, buffer_split_on_first-absent,
}
use sip_processing.Sdp.Attribute
use sip_processing.Sdp.Attribute.{
  SdpAttribute, SdpAttributeLine, attribute_line, of_parts, is_empty,
}
use sip_processing.Sdp.Description.{Sdp, to_lower, parse_entry, parse_line, add_attribute_line}
use sip_processing.Sdp.Lines.{IsWord, breaks, parse_line-letter, Unstopped-sub, line_end_lem}

-- A property has no value; any other attribute has one that can be a field.
abbrev pub IsValue : Bool → Text → Type 0
IsValue true value = value ≡ []
IsValue false value = IsWord value

-- No parameters, or some on one line that do not end with white space.
abbrev pub AreParameters : Text → Type 0
AreParameters p =
    (p ≡ [])
    ⊎ ((front : Text) × (c : ℕ) × (p ≡ front ++ (c ∷ []))
        × (is_trimmed 0 c ≡ false)
        × Unstopped is_line_end p)

abbrev pub IsPrintedAttribute : SdpAttribute → Type 0
IsPrintedAttribute a =
    IsWord a.key
    × Lacks b':' a.key
    × IsValue a.is_property_attribute a.value
    × AreParameters a.parameters

-- The line of an attribute.
abbrev pub as_line : SdpAttribute → SdpAttributeLine
as_line a = record {
  is_property_attribute = a.is_property_attribute;
  key = a.key;
  value = a.value;
  parameters = a.parameters;
}

unbroken_kept : (w : Text) → Unstopped breaks w → StartsKept 0 w
unfolding is_trimmed
unbroken_kept [] h = tt
unbroken_kept (c ∷ w) h = ground (arith, h.0)

Unstopped-reverse : (f : ℕ → Bool) (s : Text) → Unstopped f s → Unstopped f (reverse s)
Unstopped-reverse f [] h = tt
Unstopped-reverse f (c ∷ s) h =
    rw reverse-cons (Unstopped-append f (reverse s) (c ∷ []) (Unstopped-reverse f s h.1) (h.0, tt))

-- A text of unbroken characters is trimmed to itself.
pub trim_unbroken : (w t : Text) → Unstopped breaks w → buffer_trim (before w t) 0 ≡ before w t
trim_unbroken w t h =
    buffer_trim-kept w t (unbroken_kept w h)
      (unbroken_kept (reverse w) (Unstopped-reverse breaks w h))

Lacks-blank : (w : Text) → Unstopped breaks w → Lacks b' ' w
Lacks-blank [] h = tt
Lacks-blank (c ∷ w) h = ((λ e. unfold is_space in ground arith), Lacks-blank w h.1)

-- Key and value, as they stand before the parameters.
head_text : Bool → Text → Text → Text
head_text is_property key value = key ++ (if is_property then [] else b':' ∷ value)

head_unbroken :
    (b : Bool) (key value : Text)
    → IsWord key
    → IsValue b value
    → Unstopped breaks (head_text b key value)
unfolding head_text is_space
head_unbroken true key value k v = Unstopped-append breaks key [] k.1 tt
head_unbroken false key value k v = Unstopped-append breaks key (b':' ∷ value) k.1 (refl, v.1)

word_length : (w : Text) → w ≢ [] → (length w == 0) ≡ false
word_length [] h = absurd (h refl)
word_length (c ∷ w) h = ground arith

-- The split on the colon, and the parts that it gives.
head_parts :
    (b : Bool) (key value : Text) (parameters : MappedBuffer) (c r : Text)
    → IsWord key
    → Lacks b':' key
    → IsValue b value
    → of_parts
        (before (head_text b key value) c ∷ parameters ∷ [])
        (buffer_split_on_first (before (head_text b key value) r) b':')
      ≡ record {
        is_property_attribute = b;
        key = key;
        value = value;
        parameters = bytes parameters;
      }
unfolding head_text
head_parts true key value parameters c r k l v =
    rw
      (
        append-nil key,
        buffer_split_on_first-absent b':' key r l,
        trim_unbroken key r k.1,
        bytes-before key r,
        v,
      )
      refl
head_parts false key value parameters c r k l v =
    rw
      (
        buffer_split_on_first-at b':' key value r l,
        trim_unbroken key (b':' ∷ (value ++ r)) k.1,
        bytes-before key (b':' ∷ (value ++ r)),
        word_length value v.0,
        trim_unbroken value r v.1,
        bytes-before value r,
      )
      refl

StartsKept-append : (s t : Text) → s ≢ [] → StartsKept 0 s → StartsKept 0 (s ++ t)
StartsKept-append [] t h k = absurd (h refl)
StartsKept-append (c ∷ s) t h k = k

head_ne : (b : Bool) (key value : Text) → IsWord key → head_text b key value ≢ []
unfolding head_text
head_ne b [] value k = absurd (k.0 refl)
head_ne b (c ∷ key) value k = λ e. cc

last_kept : (s : Text) (c : ℕ) → is_trimmed 0 c ≡ false → StartsKept 0 (reverse (s ++ (c ∷ [])))
last_kept s c h = rw (reverse-append s (c ∷ [])) h

concat_full : (s : Text) (c : ℕ) → is_empty (s ++ (c ∷ [])) ≡ false
concat_full [] c = refl
concat_full (x ∷ s) c = refl

-- The text of an attribute behind its `a=`.
pub attribute_text : Bool → Text → Text → Text → Text
attribute_text b key value parameters =
    head_text b key value ++ (if is_empty parameters then [] else b' ' ∷ parameters)

attribute_line-text :
    (b : Bool) (key value parameters r : Text)
    → IsWord key
    → Lacks b':' key
    → IsValue b value
    → AreParameters parameters
    → attribute_line (before (attribute_text b key value parameters) r)
      ≡ record { is_property_attribute = b; key = key; value = value; parameters = parameters }
unfolding attribute_line attribute_text
attribute_line-text b key value parameters r k l v (inl e) =
    let head = head_text b key value in
    let unbroken = head_unbroken b key value k v in
    rw e (
      rw
        (
          append-nil head,
          trim_unbroken head r unbroken,
          buffer_split_on_first-absent b' ' head r (Lacks-blank head unbroken),
        )
        (head_parts b key value no_buffer r r k l v))
attribute_line-text b key value parameters r k l v (inr (front, c, e, kept, plain)) =
    let head = head_text b key value in
    let unbroken = head_unbroken b key value k v in
    let full : is_empty parameters ≡ false = rw e (concat_full front c) in
    let ends : StartsKept 0 (reverse (head ++ (b' ' ∷ parameters))) = rw e (
      subst (λ t. StartsKept 0 (reverse t)) (append_assoc head (b' ' ∷ front) (c ∷ []))
        (last_kept (head ++ (b' ' ∷ front)) c kept)) in
    let rest = b' ' ∷ (parameters ++ r) in
    rw
      (
        full,
        buffer_trim-kept (head ++ (b' ' ∷ parameters)) r
            (StartsKept-append head (b' ' ∷ parameters) (head_ne b key value k)
              (unbroken_kept head unbroken))
            ends,
        buffer_split_on_first-at b' ' head parameters r (Lacks-blank head unbroken),
      )
      (head_parts b key value (before parameters r) rest rest k l v
        ∙ ap (λ p. record { is_property_attribute = b; key = key; value = value; parameters = p })
            (bytes-before parameters r))

pub to_string-text :
    (a : SdpAttribute)
    → Attribute.to_string a
      ≡ b'a' ∷ b'=' ∷ attribute_text a.is_property_attribute a.key a.value a.parameters
unfolding Attribute.to_string attribute_text head_text
to_string-text a =
    let value = if a.is_property_attribute then [] else b':' ∷ a.value in
    let rest = if is_empty a.parameters then [] else b' ' ∷ a.parameters in
    ap (λ t. b'a' ∷ b'=' ∷ (a.key ++ (value ++ t))) (append-nil rest)
    ∙ ap (λ t. b'a' ∷ b'=' ∷ t) (sym (append_assoc a.key value rest))

-- The line of an attribute adds it to the stream that was read last.
pub parse_line-attribute :
    (a : SdpAttribute) (r : Text) (sdp : Sdp)
    → IsPrintedAttribute a
    → parse_line (before (Attribute.to_string a) r) sdp
      ≡ add_attribute_line sdp.stream_count (as_line a) sdp
unfolding to_lower parse_entry
parse_line-attribute a r sdp (k, l, v, p) =
    ap (λ t. parse_line (before t r) sdp) (to_string-text a)
    ∙ parse_line-letter b'a' _ r sdp refl
    ∙ ap (λ x. add_attribute_line sdp.stream_count x sdp)
        (attribute_line-text a.is_property_attribute a.key a.value a.parameters r k l v p)

unbroken_line : (w : Text) → Unstopped breaks w → Unstopped is_line_end w
unbroken_line w h = Unstopped-sub breaks is_line_end w line_end_lem h

parameters_unbroken :
    (p : Text) → AreParameters p → Unstopped is_line_end (if is_empty p then [] else b' ' ∷ p)
parameters_unbroken [] h = tt
parameters_unbroken (c ∷ p) (inl e) = absurd (cc)
parameters_unbroken (c ∷ p) (inr (front, d, e, kept, plain)) = (refl, plain)

-- The line of an attribute has no line end.
pub to_string-unbroken :
    (a : SdpAttribute) → IsPrintedAttribute a → Unstopped is_line_end (Attribute.to_string a)
unfolding attribute_text
to_string-unbroken a (k, l, v, p) = rw (to_string-text a) (
  refl,
  (
    refl,
    Unstopped-append is_line_end (head_text a.is_property_attribute a.key a.value) _
        (unbroken_line _ (head_unbroken a.is_property_attribute a.key a.value k v))
        (parameters_unbroken a.parameters p),
  ),
)
