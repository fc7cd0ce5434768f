-- ===== src/Printer/Ipp/Decode.antt =====
-- `decodeIppResponse`. The attribute that additional values go to is the last one of the group that is
-- open, if it has one.
pub mod Fields
pub mod Values
pub mod RoundTrip
pub mod Ends
pub mod Limits
use kiosk_project.Printer.Ipp.{
  text, tag_range_of_integer, tag_boolean, range_length_invalid, integer_length_invalid,
  response_unterminated, boolean_length_invalid, response_too_large, is_placeholder_tag,
  is_integer_tag, IppResponse, end_of_attributes, additional_value_without_attribute, IppAttribute,
  response_truncated, number, truth, attribute_outside_group, TextCodec, IppGroup, IppProtocolError,
  IppDecodeLimits, is_delimiter_tag, IppValue,
}
use kiosk_project.Base.{
  ◌≡◌, ◌⊎◌, inl, inr, refl, ℕ, zero, suc, ◌+◌, ◌-◌, ◌*◌, ◌/◌, ◌%◌, ◌^◌, ◌||◌, ◌&&◌, ltb, leb, List,
  [], ◌∷◌, ◌++◌, Bool, true, false, if◌then◌else◌, ◌==◌, Result, ok, err, ◌>>=◌, ◌>>◌, refuse_if,
  require, or_throw, length, Option, none, some, take, drop,
}
use kiosk_project.Base.Int.{ℤ, pos, negsuc}

-- `getUint16` and `getInt32`, big-endian.
pub read_uint16 : ℕ → ℕ → ℕ
read_uint16 a b = a * 256 + b

pub read_uint32 : ℕ → ℕ → ℕ → ℕ → ℕ
read_uint32 a b c d = a * 16777216 + b * 65536 + c * 256 + d

pub from_uint32 : ℕ → ℤ
from_uint32 n = if ltb n 2147483648 then pos n else negsuc (4294967295 - n)

-- The loop's variables, less the offset.
pub record DecodeState : Type 0 where
  pub groups : List IppGroup
  pub group : Option IppGroup
  pub attribute_count : ℕ

pub decode_integer : List ℕ → Result IppProtocolError IppValue
unfolding read_uint32 from_uint32
decode_integer (a ∷ b ∷ c ∷ d ∷ []) = ok (number (from_uint32 (read_uint32 a b c d)))
decode_integer _ = err integer_length_invalid

pub decode_boolean : List ℕ → Result IppProtocolError IppValue
decode_boolean (a ∷ []) = ok (truth (a == 1))
decode_boolean _ = err boolean_length_invalid

-- The upper bound.
pub decode_range : List ℕ → Result IppProtocolError IppValue
unfolding read_uint32 from_uint32
decode_range (_ ∷ _ ∷ _ ∷ _ ∷ a ∷ b ∷ c ∷ d ∷ []) = ok (number (from_uint32 (read_uint32 a b c d)))
decode_range _ = err range_length_invalid

-- A length of two bytes, and as many bytes as it says, with what follows them.
pub take_field : ℕ → List ℕ → Result IppProtocolError (List ℕ × List ℕ)
unfolding read_uint16
take_field max_bytes (a ∷ b ∷ rest) = do
  let count = read_uint16 a b
  refuse_if (ltb max_bytes count || ltb (length rest) count) response_truncated
  ok (take count rest, drop count rest)
take_field max_bytes _ = err response_truncated

-- A value for the attribute that came before it.
pub add_value : IppValue → List IppAttribute → Option (List IppAttribute)
add_value value [] = none
add_value value (a ∷ []) = some (record a { values = a.values ++ value ∷ [] } ∷ [])
add_value value (a ∷ b ∷ rest) = elim (add_value value (b ∷ rest)) [
  | none ↦ none
  | some later ↦ some (a ∷ later)
]

-- What a tag's byte opens.
pub data TagKind : Type 0 where
  ends opens_group opens_attribute : TagKind

pub TagKind-cases :
    (kind : TagKind) → (kind ≡ ends) ⊎ (kind ≡ opens_group) ⊎ (kind ≡ opens_attribute)
TagKind-cases ends = inl refl
TagKind-cases opens_group = inr (inl refl)
TagKind-cases opens_attribute = inr (inr refl)

pub classify : ℕ → TagKind
unfolding is_delimiter_tag
classify tag =
    if tag == end_of_attributes
    then ends
    else if is_delimiter_tag tag
    then opens_group
    else opens_attribute

pub close_group : DecodeState → List IppGroup
close_group st = elim st.group [ none ↦ st.groups | some group ↦ st.groups ++ group ∷ [] ]

pub open_group : ℕ → DecodeState → DecodeState
unfolding close_group
open_group tag st = record st {
  groups = close_group st;
  group = some (record { tag = tag; attributes = [] });
}

pub extend_attribute : DecodeState → IppGroup → IppValue → Result IppProtocolError DecodeState
unfolding add_value
extend_attribute st group value = do
  attributes ← or_throw (add_value value group.attributes) additional_value_without_attribute
  ok (record st { group = some (record group { attributes = attributes }) })

pub new_attribute :
    IppDecodeLimits → DecodeState → IppGroup → IppAttribute → Result IppProtocolError DecodeState
new_attribute limits st group attribute = do
  refuse_if (ltb limits.max_attributes (st.attribute_count + 1)) response_too_large
  ok (record st {
    group = some (record group { attributes = group.attributes ++ attribute ∷ [] });
    attribute_count = st.attribute_count + 1;
  })

module _ (codec : TextCodec) (limits : IppDecodeLimits) where
  pub decode_attribute_value : ℕ → List ℕ → Result IppProtocolError IppValue
  unfolding is_integer_tag decode_integer decode_boolean decode_range is_placeholder_tag
  decode_attribute_value tag raw =
      if is_integer_tag tag
      then decode_integer raw
      else if tag == tag_boolean
      then decode_boolean raw
      else if tag == tag_range_of_integer
      then decode_range raw
      else if is_placeholder_tag tag
      then ok (text [])
      else ok (text (codec.decode_text raw))

  pub place_value :
      DecodeState → IppGroup → ℕ → List ℕ → IppValue → Result IppProtocolError DecodeState
  unfolding extend_attribute new_attribute
  place_value st group tag name_bytes value =
      if length name_bytes == 0
      then extend_attribute st group value
      else new_attribute limits st group
          (record { name = codec.decode_text name_bytes; tag = tag; values = value ∷ [] })

  -- One attribute's record after its tag, with the bytes that follow it.
  pub decode_attribute : DecodeState → ℕ → List ℕ → Result IppProtocolError (DecodeState × List ℕ)
  unfolding take_field decode_attribute_value place_value
  decode_attribute st tag bytes = do
    (name_bytes, after_name) ← take_field limits.max_value_bytes bytes
    (raw, rest) ← take_field limits.max_value_bytes after_name
    group ← or_throw st.group attribute_outside_group
    value ← decode_attribute_value tag raw
    next ← place_value st group tag name_bytes value
    ok (next, rest)

  -- The loop, from the bytes that are left; `none` when the fuel is used up.
  pub decode_groups : ℕ → DecodeState → List ℕ → Option (Result IppProtocolError (List IppGroup))
  unfolding classify close_group open_group decode_attribute
  decode_groups zero st bytes = none
  decode_groups (suc fuel) st [] = some (err response_unterminated)
  decode_groups (suc fuel) st (tag ∷ rest) = elim (classify tag) [
    | ends ↦ some (ok (close_group st))
    | opens_group ↦ decode_groups fuel (open_group tag st) rest
    | opens_attribute ↦ elim (decode_attribute st tag rest) [
      | err e ↦ some (err e)
      | ok (next, left) ↦ decode_groups fuel next left
    ]
  ]

  pub decode_after_header : ℕ → ℕ → List ℕ → Option (Result IppProtocolError IppResponse)
  unfolding decode_groups
  decode_after_header status_code request_id bytes =
      elim (decode_groups (length bytes + 1)
        (record { groups = []; group = none; attribute_count = 0 }) bytes) [
          | none ↦ none
          | some (err e) ↦ some (err e)
          | some (ok groups) ↦
              some (
                ok (record { status_code = status_code; request_id = request_id; groups = groups }))
        ]

  -- A header of eight bytes, and at least one more.
  unfoldable pub decode_ipp_response : List ℕ → Option (Result IppProtocolError IppResponse)
  unfolding read_uint16 read_uint32 decode_after_header
  decode_ipp_response (_ ∷ _ ∷ a ∷ b ∷ c ∷ d ∷ e ∷ f ∷ first ∷ rest) =
      decode_after_header (read_uint16 a b) (read_uint32 c d e f) (first ∷ rest)
  decode_ipp_response _ = some (err response_truncated)
