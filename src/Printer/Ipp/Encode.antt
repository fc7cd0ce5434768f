-- ===== src/Printer/Ipp/Encode.antt =====
-- `encodeIppRequest` and the integers of a `DataView`.
use kiosk_project.Printer.Ipp.{
  value_not_integer, value_not_text, value_not_boolean, end_of_attributes, attribute_too_large,
  attribute_without_value, text, number, truth, tag_boolean, is_integer_tag, IppProtocolError,
  IppRequest, IppAttribute, IppGroup, TextCodec, IppValue,
}
use kiosk_project.Base.{
  ℕ, suc, ◌-◌, ◌/◌, ◌%◌, ◌||◌, ltb, List, [], ◌∷◌, ◌++◌, Bool, if◌then◌else◌, ◌==◌, Result, ok, err,
  ◌>>=◌, ◌>>◌, refuse_if, require, length,
}
use kiosk_project.Base.Int.{ℤ, pos, negsuc}

-- `setUint16` and `setUint32`, big-endian; `Uint8Array` keeps a number modulo 256.
unfoldable pub uint16_bytes : ℕ → List ℕ
uint16_bytes n = n / 256 % 256 ∷ n % 256 ∷ []

unfoldable pub uint32_bytes : ℕ → List ℕ
uint32_bytes n = n / 16777216 % 256 ∷ n / 65536 % 256 ∷ n / 256 % 256 ∷ n % 256 ∷ []

-- `setInt32` keeps an integer modulo 2^32.
unfoldable pub to_uint32 : ℤ → ℕ
to_uint32 (pos n) = n % 4294967296
to_uint32 (negsuc n) = 4294967295 - n % 4294967296

-- `Number.isSafeInteger`.
unfoldable pub is_safe_integer : ℤ → Bool
is_safe_integer (pos n) = ltb n 9007199254740992
is_safe_integer (negsuc n) = ltb (suc n) 9007199254740992

unfoldable pub encode_integer : IppValue → Result IppProtocolError (List ℕ)
unfolding is_safe_integer uint32_bytes to_uint32
encode_integer (number z) = do
  require (is_safe_integer z) value_not_integer
  ok (uint32_bytes (to_uint32 z))
encode_integer _ = err value_not_integer

unfoldable pub encode_boolean : IppValue → Result IppProtocolError (List ℕ)
encode_boolean (truth b) = ok ((if b then 1 else 0) ∷ [])
encode_boolean _ = err value_not_boolean

module _ (codec : TextCodec) where
  unfoldable pub encode_text_value : IppValue → Result IppProtocolError (List ℕ)
  encode_text_value (text t) = ok (codec.encode_text t)
  encode_text_value _ = err value_not_text

  unfoldable pub encode_value_bytes : ℕ → IppValue → Result IppProtocolError (List ℕ)
  unfolding is_integer_tag encode_integer encode_boolean encode_text_value
  encode_value_bytes tag value =
      if is_integer_tag tag
      then encode_integer value
      else if tag == tag_boolean
      then encode_boolean value
      else encode_text_value value

  unfoldable pub encode_attribute_value : ℕ → List ℕ → IppValue → Result IppProtocolError (List ℕ)
  unfolding encode_value_bytes uint16_bytes
  encode_attribute_value tag name value = do
    let name_bytes = codec.encode_text name
    value_bytes ← encode_value_bytes tag value
    refuse_if (ltb 65535 (length name_bytes) || ltb 65535 (length value_bytes)) attribute_too_large
    ok (
        tag % 256 ∷ uint16_bytes (length name_bytes)
        ++ name_bytes
        ++ uint16_bytes (length value_bytes)
        ++ value_bytes)

  -- The first value carries the name, the others an empty one.
  unfoldable pub encode_values : ℕ → List ℕ → List IppValue → Result IppProtocolError (List ℕ)
  unfolding encode_attribute_value
  encode_values tag name [] = ok []
  encode_values tag name (value ∷ values) = do
    first ← encode_attribute_value tag name value
    rest ← encode_values tag [] values
    ok (first ++ rest)

  unfoldable pub encode_attribute : IppAttribute → Result IppProtocolError (List ℕ)
  unfolding encode_values
  encode_attribute a = do
    refuse_if (length a.values == 0) attribute_without_value
    encode_values a.tag a.name a.values

  unfoldable pub encode_attributes : List IppAttribute → Result IppProtocolError (List ℕ)
  unfolding encode_attribute
  encode_attributes [] = ok []
  encode_attributes (a ∷ rest) = do
    first ← encode_attribute a
    others ← encode_attributes rest
    ok (first ++ others)

  unfoldable pub encode_groups : List IppGroup → Result IppProtocolError (List ℕ)
  unfolding encode_attributes
  encode_groups [] = ok []
  encode_groups (group ∷ rest) = do
    first ← encode_attributes group.attributes
    others ← encode_groups rest
    ok (group.tag % 256 ∷ first ++ others)

  unfoldable pub encode_ipp_request : IppRequest → Result IppProtocolError (List ℕ)
  unfolding encode_groups uint16_bytes uint32_bytes
  encode_ipp_request request = do
    groups ← encode_groups request.groups
    ok (
        1 ∷ 1 ∷ uint16_bytes request.operation
        ++ uint32_bytes request.request_id
        ++ groups
        ++ end_of_attributes ∷ request.data_bytes)
