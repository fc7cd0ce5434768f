-- ===== src/Printer/Ipp.antt =====
-- packages/printer-adapters/src/ipp/encoding.ts: the IPP wire format. A byte is a number below 256, an
-- array of bytes a list, and a suffix of one stands for an offset into it. A text is a list of code
-- units; the platform's text encoder and decoder are parameters.
pub mod Encode
pub mod Decode
pub mod Attributes
pub mod Examples
use kiosk_project.Base.{[], ◌∷◌, ◌+◌, length, ℕ, Bool, List, Option, ◌==◌, leb, ◌||◌}
use kiosk_project.Base.Int.{ℤ}

-- IPP_TAG, the tags that the code reads.
abbrev pub tag_unsupported : ℕ
tag_unsupported = 16

abbrev pub tag_unknown : ℕ
tag_unknown = 18

abbrev pub tag_no_value : ℕ
tag_no_value = 19

abbrev pub tag_integer : ℕ
tag_integer = 33

abbrev pub tag_boolean : ℕ
tag_boolean = 34

abbrev pub tag_enum : ℕ
tag_enum = 35

abbrev pub tag_octet_string : ℕ
tag_octet_string = 48

abbrev pub tag_date_time : ℕ
tag_date_time = 49

abbrev pub tag_resolution : ℕ
tag_resolution = 50

abbrev pub tag_range_of_integer : ℕ
tag_range_of_integer = 51

abbrev pub tag_beg_collection : ℕ
tag_beg_collection = 52

abbrev pub tag_text_with_language : ℕ
tag_text_with_language = 53

abbrev pub tag_name_with_language : ℕ
tag_name_with_language = 54

abbrev pub tag_end_collection : ℕ
tag_end_collection = 55

abbrev pub tag_charset : ℕ
tag_charset = 71

abbrev pub tag_natural_language : ℕ
tag_natural_language = 72

abbrev pub end_of_attributes : ℕ
end_of_attributes = 3

-- A number that is no integer is told apart by nothing else.
pub data IppValue : Type 0 where
  text : List ℕ → IppValue
  number : ℤ → IppValue
  other_number : IppValue
  truth : Bool → IppValue

pub record IppAttribute : Type 0 where
  pub name : List ℕ
  pub tag : ℕ
  pub values : List IppValue

pub record IppGroup : Type 0 where
  pub tag : ℕ
  pub attributes : List IppAttribute

-- `data` is empty when there is none.
pub record IppRequest : Type 0 where
  pub operation : ℕ
  pub request_id : ℕ
  pub groups : List IppGroup
  pub data_bytes : List ℕ

pub record IppResponse : Type 0 where
  pub status_code : ℕ
  pub request_id : ℕ
  pub groups : List IppGroup

pub data IppProtocolError : Type 0 where
  attribute_without_value attribute_too_large value_not_integer value_not_boolean value_not_text
        response_truncated attribute_outside_group additional_value_without_attribute
        response_too_large response_unterminated integer_length_invalid boolean_length_invalid
        range_length_invalid :
      IppProtocolError

pub record IppDecodeLimits : Type 0 where
  pub max_attributes : ℕ
  pub max_value_bytes : ℕ

abbrev pub default_decode_limits : IppDecodeLimits
default_decode_limits = record { max_attributes = 4096; max_value_bytes = 65535 }

-- `TextEncoder` and `TextDecoder`.
pub record TextCodec : Type 0 where
  pub encode_text : List ℕ → List ℕ
  pub decode_text : List ℕ → List ℕ

unfoldable pub is_delimiter_tag : ℕ → Bool
is_delimiter_tag tag = leb tag 5

unfoldable pub is_integer_tag : ℕ → Bool
is_integer_tag tag = tag == tag_integer || tag == tag_enum

-- The tags whose values are kept as a placeholder.
unfoldable pub is_placeholder_tag : ℕ → Bool
is_placeholder_tag tag =
    tag == tag_text_with_language
    || tag == tag_name_with_language
    || tag == tag_date_time
    || tag == tag_resolution
    || tag == tag_octet_string
    || tag == tag_beg_collection
    || tag == tag_end_collection
    || tag == tag_unsupported
    || tag == tag_unknown
    || tag == tag_no_value

-- The attributes of all groups.
abbrev pub total_attributes : List IppGroup → ℕ
total_attributes [] = 0
total_attributes (g ∷ gs) = length g.attributes + total_attributes gs
