-- ===== src/Printer/Ipp/Decode/Fields.antt =====
-- Integers, fields and values, written and read back.
use kiosk_project.Printer.Ipp.{
  other_number, TextCodec, IppValue, is_integer_tag, tag_boolean, IppDecodeLimits, truth, text,
  tag_range_of_integer, is_placeholder_tag, value_not_integer,
}
use kiosk_project.Printer.Ipp.Encode.{
  is_safe_integer, encode_boolean, encode_text_value, uint32_bytes, encode_value_bytes,
  encode_integer, to_uint32, uint16_bytes,
}
use kiosk_project.Printer.Ipp.Decode.{
  decode_boolean, number, decode_integer, decode_attribute_value, read_uint32, take_field,
  read_uint16, from_uint32,
}
use kiosk_project.Base.{
  take-append, drop-append, subst, ◌∙◌, sym, ok-injective, bind_cases, length-append, ap, ℕ, ◌/◌,
  ◌%◌, ◌<◌, ◌≤◌, ◌||◌, ltb, List, ◌++◌, Bool, true, false, ◌==◌, ok, require, length, ◌≡◌, refl,
  arith,
}
use kiosk_project.Base.Int.{ℤ, pos, negsuc, pos_part, neg_part}

pub uint16-read : (n : ℕ) → n ≤ 65535 → read_uint16 (n / 256 % 256) (n % 256) ≡ n
unfolding read_uint16
uint16-read n h = omega arith

pub uint32-read :
    (n : ℕ)
    → n ≤ 4294967295
    → read_uint32 (n / 16777216 % 256) (n / 65536 % 256) (n / 256 % 256) (n % 256) ≡ n
unfolding read_uint32
uint32-read n h = omega arith

pub take_field-append :
    (max_bytes : ℕ) (xs ys : List ℕ)
    → 65535 ≤ max_bytes
    → length xs ≤ 65535
    → take_field max_bytes (uint16_bytes (length xs) ++ xs ++ ys) ≡ ok (xs, ys)
unfolding take_field uint16_bytes
take_field-append max_bytes xs ys h k =
    let fits : (ltb max_bytes (length xs) || ltb (length (xs ++ ys)) (length xs)) ≡ false =
      ground (arith, length-append xs ys) in
    rw (uint16-read (length xs) k, take-append xs ys, drop-append xs ys, fits) refl

int32-read :
    (z : ℤ) → pos_part z < 2147483648 → neg_part z ≤ 2147483648 → from_uint32 (to_uint32 z) ≡ z
unfolding from_uint32 to_uint32
int32-read (pos n) h k = ground arith
int32-read (negsuc n) h k = ground arith

-- The values that a tag can carry there and back.
pub data Fits (codec : TextCodec) (tag : ℕ) : IppValue → Type 0 where
  an_integer :
      {z : ℤ}
      → is_integer_tag tag ≡ true
      → pos_part z < 2147483648
      → neg_part z ≤ 2147483648
      → Fits codec tag (number z)
  a_boolean : {b : Bool} → tag ≡ tag_boolean → Fits codec tag (truth b)
  a_text :
      {t : List ℕ}
      → is_integer_tag tag ≡ false
      → (tag == tag_boolean) ≡ false
      → (tag == tag_range_of_integer) ≡ false
      → is_placeholder_tag tag ≡ false
      → codec.decode_text (codec.encode_text t) ≡ t
      → Fits codec tag (text t)

to_uint32_bound : (z : ℤ) → to_uint32 z ≤ 4294967295
unfolding to_uint32
to_uint32_bound (pos n) = omega arith
to_uint32_bound (negsuc n) = omega arith

encode_integer-read :
    (z : ℤ) (raw : List ℕ)
    → pos_part z < 2147483648
    → neg_part z ≤ 2147483648
    → encode_integer (number z) ≡ ok raw
    → decode_integer raw ≡ ok (number z)
unfolding encode_integer uint32_bytes decode_integer
encode_integer-read z raw h k e =
    bind_cases (require (is_safe_integer z) value_not_integer) _ e λ u g j.
      let bytes : uint32_bytes (to_uint32 z) ≡ raw = ok-injective j in
      rw (sym bytes, uint32-read (to_uint32 z) (to_uint32_bound z), int32-read z h k) refl

integer_branch :
    (codec : TextCodec) (tag : ℕ) (v : IppValue)
    → is_integer_tag tag ≡ true
    → encode_value_bytes codec tag v ≡ encode_integer v
unfolding encode_value_bytes
integer_branch codec tag v h = rw h refl

text_branch :
    (codec : TextCodec) (tag : ℕ) (v : IppValue)
    → is_integer_tag tag ≡ false
    → (tag == tag_boolean) ≡ false
    → encode_value_bytes codec tag v ≡ encode_text_value codec v
unfolding encode_value_bytes
text_branch codec tag v h k = rw (h, k) refl

text-read :
    (codec : TextCodec) (limits : IppDecodeLimits) (tag : ℕ) (raw : List ℕ)
    → is_integer_tag tag ≡ false
    → (tag == tag_boolean) ≡ false
    → (tag == tag_range_of_integer) ≡ false
    → is_placeholder_tag tag ≡ false
    → decode_attribute_value codec limits tag raw ≡ ok (text (codec.decode_text raw))
unfolding decode_attribute_value
text-read codec limits tag raw h b r p = rw (h, b, r, p) refl

boolean_tag-read :
    (codec : TextCodec) (limits : IppDecodeLimits) (b : Bool) (raw : List ℕ)
    → encode_value_bytes codec tag_boolean (truth b) ≡ ok raw
    → decode_attribute_value codec limits tag_boolean raw ≡ ok (truth b)
unfolding encode_value_bytes encode_boolean is_integer_tag decode_attribute_value decode_boolean
boolean_tag-read codec limits true raw e = rw (sym (ok-injective e)) refl
boolean_tag-read codec limits false raw e = rw (sym (ok-injective e)) refl

boolean-read :
    (codec : TextCodec) (limits : IppDecodeLimits) (tag : ℕ) (b : Bool) (raw : List ℕ)
    → tag ≡ tag_boolean
    → encode_value_bytes codec tag (truth b) ≡ ok raw
    → decode_attribute_value codec limits tag raw ≡ ok (truth b)
boolean-read codec limits tag b raw h e =
    subst (λ t. decode_attribute_value codec limits t raw ≡ ok (truth b)) (sym h)
      (boolean_tag-read codec limits b raw
        (subst (λ t. encode_value_bytes codec t (truth b) ≡ ok raw) h e))

pub value-read :
    (codec : TextCodec) (limits : IppDecodeLimits) (tag : ℕ) (v : IppValue) (raw : List ℕ)
    → Fits codec tag v
    → encode_value_bytes codec tag v ≡ ok raw
    → decode_attribute_value codec limits tag raw ≡ ok v
unfolding decode_attribute_value encode_text_value
value-read codec limits tag other_number raw f e = elim f [ ]
value-read codec limits tag (number z) raw (an_integer h a b) e =
    rw h (encode_integer-read z raw a b (sym (integer_branch codec tag (number z) h) ∙ e))
value-read codec limits tag (truth b) raw (a_boolean h) e = boolean-read codec limits tag b raw h e
value-read codec limits tag (text t) raw (a_text h b r p d) e =
    let bytes : codec.encode_text t ≡ raw =
      ok-injective (sym (text_branch codec tag (text t) h b) ∙ e) in
    text-read codec limits tag raw h b r p
    ∙ ap (λ x. ok (text x)) (ap codec.decode_text (sym bytes) ∙ d)
