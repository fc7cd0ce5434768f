-- ===== src/Printer/Ipp/Attributes.antt =====
-- What callers read of a response, and the attributes that they build.
use kiosk_project.Printer.Ipp.Encode.{is_safe_integer}
use kiosk_project.Printer.Ipp.{
  tag_natural_language, truth, number, text, tag_charset, tag_boolean, tag_integer, tag_enum,
  IppGroup, IppAttribute, IppValue, IppResponse,
}
use kiosk_project.Base.{
  ℕ, Bool, ◌==◌, if◌then◌else◌, List, [], ◌∷◌, Option, none, some, find, map, codes, codes_eq,
}
use kiosk_project.Base.Int.{ℤ}

pub first_of : Option IppAttribute → Option IppAttribute → Option IppAttribute
first_of none later = later
first_of (some a) later = some a

pub find_in_groups : ℕ → List ℕ → List IppGroup → Option IppAttribute
unfolding first_of
find_in_groups group_tag name [] = none
find_in_groups group_tag name (group ∷ rest) =
    let later = find_in_groups group_tag name rest in
    let found = find (λ entry. codes_eq entry.name name) group.attributes in
    if group.tag == group_tag then first_of found later else later

pub find_attribute : IppResponse → ℕ → List ℕ → Option IppAttribute
unfolding find_in_groups
find_attribute response group_tag name = find_in_groups group_tag name response.groups

-- `?.values[0]`.
pub first_value : Option IppAttribute → Option IppValue
first_value none = none
first_value (some a) = elim a.values [ [] ↦ none | value ∷ values ↦ some value ]

pub as_integer : Option IppValue → Option ℤ
unfolding is_safe_integer
as_integer (some (number z)) = if is_safe_integer z then some z else none
as_integer _ = none

pub as_text : Option IppValue → Option (List ℕ)
as_text (some (text t)) = some t
as_text _ = none

pub read_integer_attribute : IppResponse → ℕ → List ℕ → Option ℤ
unfolding find_attribute first_value as_integer
read_integer_attribute response group_tag name =
    as_integer (first_value (find_attribute response group_tag name))

pub read_string_attribute : IppResponse → ℕ → List ℕ → Option (List ℕ)
unfolding find_attribute first_value as_text
read_string_attribute response group_tag name =
    as_text (first_value (find_attribute response group_tag name))

pub texts_of : List IppValue → List (List ℕ)
texts_of [] = []
texts_of (text t ∷ rest) = t ∷ texts_of rest
texts_of (_ ∷ rest) = texts_of rest

pub read_list_of : Option IppAttribute → List (List ℕ)
unfolding texts_of
read_list_of none = []
read_list_of (some a) = texts_of a.values

pub read_string_list_attribute : IppResponse → ℕ → List ℕ → List (List ℕ)
unfolding find_attribute read_list_of
read_string_list_attribute response group_tag name =
    read_list_of (find_attribute response group_tag name)

pub text_attribute : List ℕ → List ℕ → IppAttribute
text_attribute name value = record { name = name; tag = 65; values = text value ∷ [] }

pub name_attribute : List ℕ → List ℕ → IppAttribute
name_attribute name value = record { name = name; tag = 66; values = text value ∷ [] }

-- One keyword or an array of them.
pub keyword_attribute : List ℕ → List (List ℕ) → IppAttribute
keyword_attribute name values = record { name = name; tag = 68; values = map text values }

pub uri_attribute : List ℕ → List ℕ → IppAttribute
uri_attribute name value = record { name = name; tag = 69; values = text value ∷ [] }

pub integer_attribute : List ℕ → ℤ → IppAttribute
integer_attribute name value = record { name = name; tag = tag_integer; values = number value ∷ [] }

pub enum_attribute : List ℕ → ℤ → IppAttribute
enum_attribute name value = record { name = name; tag = tag_enum; values = number value ∷ [] }

pub boolean_attribute : List ℕ → Bool → IppAttribute
boolean_attribute name value = record { name = name; tag = tag_boolean; values = truth value ∷ [] }

pub mime_type_attribute : List ℕ → List ℕ → IppAttribute
mime_type_attribute name value = record { name = name; tag = 73; values = text value ∷ [] }

-- Every request opens with these.
pub operation_preamble : List IppAttribute
operation_preamble =
    record {
      name = codes "attributes-charset";
      tag = tag_charset;
      values = text (codes "utf-8") ∷ [];
    }
    ∷ record {
      name = codes "attributes-natural-language";
      tag = tag_natural_language;
      values = text (codes "en") ∷ [];
    }
    ∷ []
