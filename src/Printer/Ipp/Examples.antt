-- ===== src/Printer/Ipp/Examples.antt =====
-- A request of packages/printer-adapters/src/ipp/encoding.ts on the wire.
use kiosk_project.Printer.Ipp.Decode.Ends.{decode_ipp_response-ends}
use kiosk_project.Printer.Ipp.Decode.Fields.{an_integer}
use kiosk_project.Printer.Ipp.Decode.RoundTrip.{decode-encode}
use kiosk_project.Printer.Ipp.Decode.Limits.{decode_ipp_response-within}
use kiosk_project.Printer.Ipp.Decode.{decode_ipp_response}
use kiosk_project.Printer.Ipp.Encode.{encode_ipp_request}
use kiosk_project.Printer.Ipp.Decode.Values.{IsAttribute, IsGroup}
use kiosk_project.Printer.Ipp.{
  response_truncated, number, tag_integer, default_decode_limits, total_attributes, IppResponse,
  IppProtocolError, TextCodec, is_integer_tag, IppRequest, IppAttribute,
}
use kiosk_project.Base.{ℕ, ◌≤◌, ◌≡◌, refl, some, ok, err, Result, List, [], ◌∷◌, codes, arith, All}
use kiosk_project.Base.Int.{pos, negsuc}

-- On ASCII the encoder keeps the code units.
abbrev ascii : TextCodec
ascii = record { encode_text = λ t. t; decode_text = λ b. b }

abbrev copies : IppAttribute
copies = record {
  name = codes "copies";
  tag = tag_integer;
  values = number (pos 258) ∷ number (negsuc 1) ∷ [];
}

abbrev request : IppRequest
request = record {
  operation = 2;
  request_id = 70000;
  groups = record { tag = 1; attributes = copies ∷ [] } ∷ [];
  data_bytes = 37 ∷ 80 ∷ [];
}

abbrev wire : List ℕ
wire =
    1 ∷ 1 ∷ 0 ∷ 2 ∷ 0 ∷ 1 ∷ 17 ∷ 112 ∷ 1 ∷ 33 ∷ 0 ∷ 6 ∷ 99 ∷ 111 ∷ 112 ∷ 105 ∷ 101 ∷ 115 ∷ 0 ∷ 4 ∷ 0
    ∷ 0 ∷ 1 ∷ 2 ∷ 33 ∷ 0 ∷ 0 ∷ 0 ∷ 4 ∷ 255 ∷ 255 ∷ 255 ∷ 254 ∷ 3 ∷ 37 ∷ 80 ∷ []

on_the_wire : encode_ipp_request ascii request ≡ ok wire
unfolding encode_ipp_request
on_the_wire = refl

abbrev response : IppResponse
response = record { status_code = 2; request_id = 70000; groups = request.groups }

copies-IsAttribute : IsAttribute ascii copies
unfolding is_integer_tag
copies-IsAttribute = record {
  tag_above = omega arith;
  tag_below = omega arith;
  name_there = omega arith;
  name_back = refl;
  values_fit = (
    an_integer refl (omega arith) (omega arith),
    (an_integer refl (omega arith) (omega arith), tt),
  );
}

groups-IsGroup : All (IsGroup ascii) request.groups
groups-IsGroup = (
  record {
    tag_below = omega arith;
    tag_goes_on = λ e. absurd (omega (arith, e));
    attributes_fit = (copies-IsAttribute, tt);
  },
  tt,
)

decode-encode_example : decode_ipp_response ascii default_decode_limits wire ≡ some (ok response)
decode-encode_example =
    decode-encode ascii default_decode_limits request wire (omega arith) refl (omega arith)
      (omega arith) groups-IsGroup (omega arith) on_the_wire

-- Bytes of a device that stop in the middle of a value.
decode_ipp_response-ends_example :
    (r : Result IppProtocolError IppResponse) × (decode_ipp_response ascii default_decode_limits
        (1 ∷ 1 ∷ 0 ∷ 0 ∷ 0 ∷ 0 ∷ 0 ∷ 1 ∷ 1 ∷ 33 ∷ 0 ∷ 6 ∷ 99 ∷ [])
      ≡ some r)
decode_ipp_response-ends_example =
    decode_ipp_response-ends ascii default_decode_limits
      (1 ∷ 1 ∷ 0 ∷ 0 ∷ 0 ∷ 0 ∷ 0 ∷ 1 ∷ 1 ∷ 33 ∷ 0 ∷ 6 ∷ 99 ∷ [])

cut_short :
    decode_ipp_response ascii default_decode_limits
      (1 ∷ 1 ∷ 0 ∷ 0 ∷ 0 ∷ 0 ∷ 0 ∷ 1 ∷ 1 ∷ 33 ∷ 0 ∷ 6 ∷ 99 ∷ [])
    ≡ some (err response_truncated)
unfolding decode_ipp_response
cut_short = refl

one_attribute :
    decode_ipp_response ascii (record { max_attributes = 1; max_value_bytes = 65535 }) wire
    ≡ some (ok response)
unfolding decode_ipp_response
one_attribute = refl

decode_ipp_response-within_example : total_attributes response.groups ≤ 1
decode_ipp_response-within_example =
    decode_ipp_response-within ascii (record { max_attributes = 1; max_value_bytes = 65535 }) wire
      response one_attribute
