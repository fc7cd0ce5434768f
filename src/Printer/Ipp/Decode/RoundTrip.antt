-- ===== src/Printer/Ipp/Decode/RoundTrip.antt =====
-- A request, encoded and decoded again.
use kiosk_project.Printer.Ipp.Decode.Fields.{uint32-read, uint16-read}
use kiosk_project.Printer.Ipp.Decode.Values.{
  Decodes-group, Decodes-end, Decodes-values, place_first, IsGroup, Decodes-value, append_nil,
  with_group, Decodes, IsAttribute,
}
use kiosk_project.Printer.Ipp.Decode.{
  decode_after_header, decode_ipp_response, open_group, close_group, DecodeState,
}
use kiosk_project.Printer.Ipp.{
  total_attributes, end_of_attributes, IppRequest, IppValue, attribute_without_value, IppGroup,
  IppAttribute, IppDecodeLimits, TextCodec,
}
use kiosk_project.Printer.Ipp.Encode.{
  uint32_bytes, uint16_bytes, encode_ipp_request, encode_attribute_value, encode_groups,
  encode_attribute, encode_attributes, encode_values,
}
use mathlib.Core.List.{append_assoc}
use kiosk_project.Base.{
  refuse_if-eq-ok, ok-injective, bind_cases, All, ℕ, suc, ◌+◌, ◌%◌, ◌<◌, ◌≤◌, List, [], ◌∷◌, ◌++◌,
  false, ◌==◌, ok, refuse_if, length, none, some, ◌≡◌, refl, arith, sym, ◌∙◌, ap, subst,
}

-- The attribute's first value, and then the others.
Decodes-one :
    (codec : TextCodec) (limits : IppDecodeLimits) (st : DecodeState) (group_tag count : ℕ)
    (before : List IppAttribute) (name : List ℕ) (tag : ℕ) (values : List IppValue)
    (bytes rest : List ℕ) (gs : List IppGroup)
    → 65535 ≤ limits.max_value_bytes
    → codec.encode_text [] ≡ []
    → IsAttribute codec (record { name = name; tag = tag; values = values })
    → count < limits.max_attributes
    → (length values == 0) ≡ false
    → encode_values codec tag name values ≡ ok bytes
    → Decodes codec limits
        (with_group st group_tag
          (before ++ record { name = name; tag = tag; values = values } ∷ [])
          (count + 1))
        rest
        gs
    → Decodes codec limits (with_group st group_tag before count) (bytes ++ rest) gs
unfolding encode_values
Decodes-one codec limits st group_tag count before name tag [] bytes rest gs m z w l n e d =
    absurd (cc)
Decodes-one codec limits st group_tag count before name tag (v ∷ vs) bytes rest gs m z w l n e d =
    bind_cases (encode_attribute_value codec tag name v) _ e λ first i j.
      bind_cases (encode_values codec tag [] vs) _ j λ others o q.
        let start = with_group st group_tag before count in
        subst (λ x. Decodes codec limits start (x ++ rest) gs) (ok-injective q)
          (subst (λ x. Decodes codec limits start x gs) (sym (append_assoc first others rest))
            (Decodes-value codec limits start _ _ tag name v first (others ++ rest) gs m w.tag_above
              w.tag_below w.values_fit.0 refl i
              (place_first codec limits st group_tag count tag before name v w.name_there
                w.name_back l)
              (Decodes-values codec limits st group_tag (count + 1) before
                (record { name = name; tag = tag; values = v ∷ [] }) vs others rest gs m z
                w.tag_above w.tag_below w.values_fit.1 o d)))

Decodes-attributes :
    (codec : TextCodec) (limits : IppDecodeLimits) (st : DecodeState) (group_tag count : ℕ)
    (before attributes : List IppAttribute) (bytes rest : List ℕ) (gs : List IppGroup)
    → 65535 ≤ limits.max_value_bytes
    → codec.encode_text [] ≡ []
    → All (IsAttribute codec) attributes
    → count + length attributes ≤ limits.max_attributes
    → encode_attributes codec attributes ≡ ok bytes
    → Decodes codec limits
        (with_group st group_tag (before ++ attributes) (count + length attributes))
        rest
        gs
    → Decodes codec limits (with_group st group_tag before count) (bytes ++ rest) gs
unfolding encode_attributes encode_attribute
Decodes-attributes codec limits st group_tag count before [] bytes rest gs m z w l e d =
    let same_count : count + 0 ≡ count = omega arith in
    subst (λ x. Decodes codec limits (with_group st group_tag before count) (x ++ rest) gs)
      (ok-injective e)
      (subst (λ x. Decodes codec limits (with_group st group_tag before x) rest gs) same_count
        (subst (λ x. Decodes codec limits (with_group st group_tag x (count + 0)) rest gs)
          (append_nil before) d))
Decodes-attributes codec limits st group_tag count before (a ∷ attributes) bytes rest gs m z w l e
      d =
    bind_cases (encode_attribute codec a) _ e λ first i j.
      bind_cases (encode_attributes codec attributes) _ j λ others o q.
        bind_cases (refuse_if (length a.values == 0) attribute_without_value) _ i λ u g y.
          let start = with_group st group_tag before count in
          let next_count : count + suc (length attributes) ≡ count + 1 + length attributes =
            omega arith in
          subst (λ x. Decodes codec limits start (x ++ rest) gs) (ok-injective q)
            (subst (λ x. Decodes codec limits start x gs) (sym (append_assoc first others rest))
              (Decodes-one codec limits st group_tag count before a.name a.tag a.values first
                (others ++ rest) gs m z w.0 (omega arith) (refuse_if-eq-ok _ _ g) y
                (Decodes-attributes codec limits st group_tag (count + 1) (before ++ a ∷ [])
                  attributes others rest gs m z w.1 (omega arith) o
                  (subst
                    (λ x.
                      Decodes codec limits
                        (with_group st group_tag x (count + 1 + length attributes)) rest gs)
                    (sym (append_assoc before (a ∷ []) attributes))
                    (subst
                      (λ x.
                        Decodes codec limits (with_group st group_tag (before ++ a ∷ attributes) x)
                          rest gs)
                      next_count d)))))

Decodes-groups :
    (codec : TextCodec) (limits : IppDecodeLimits) (st : DecodeState) (groups : List IppGroup)
    (bytes rest : List ℕ)
    → 65535 ≤ limits.max_value_bytes
    → codec.encode_text [] ≡ []
    → All (IsGroup codec) groups
    → st.attribute_count + total_attributes groups ≤ limits.max_attributes
    → encode_groups codec groups ≡ ok bytes
    → Decodes codec limits st (bytes ++ 3 ∷ rest) (close_group st ++ groups)
unfolding encode_groups close_group open_group
Decodes-groups codec limits st [] bytes rest m z w l e =
    subst (λ x. Decodes codec limits st (x ++ 3 ∷ rest) (close_group st ++ [])) (ok-injective e)
      (subst (Decodes codec limits st (3 ∷ rest)) (sym (append_nil (close_group st)))
        (Decodes-end codec limits st rest))
Decodes-groups codec limits st (g ∷ groups) bytes rest m z w l e =
    bind_cases (encode_attributes codec g.attributes) _ e λ first i j.
      bind_cases (encode_groups codec groups) _ j λ others o q.
        let closed = record st { groups = close_group st } in
        let after =
          with_group closed g.tag g.attributes (st.attribute_count + length g.attributes) in
        let byte : g.tag % 256 ≡ g.tag = omega (arith, w.0.tag_below) in
        let same_bytes : g.tag ∷ (first ++ others) ≡ bytes =
          ap (λ t. t ∷ (first ++ others)) (sym byte) ∙ ok-injective q in
        let all_groups = close_group st ++ g ∷ groups in
        let tail_decodes : Decodes codec limits after (others ++ 3 ∷ rest) all_groups =
          subst (Decodes codec limits after (others ++ 3 ∷ rest))
            (append_assoc (close_group st) (g ∷ []) groups)
            (Decodes-groups codec limits after groups others rest m z w.1 (omega arith) o) in
        subst (λ x. Decodes codec limits st (x ++ 3 ∷ rest) all_groups) same_bytes
          (Decodes-group codec limits st g.tag ((first ++ others) ++ 3 ∷ rest) all_groups
            w.0.tag_below w.0.tag_goes_on
            (subst (λ x. Decodes codec limits (open_group g.tag st) x all_groups)
              (sym (append_assoc first others (3 ∷ rest)))
              (Decodes-attributes codec limits closed g.tag st.attribute_count [] g.attributes first
                (others ++ 3 ∷ rest) all_groups m z w.0.attributes_fit (omega arith) i
                tail_decodes)))

header-read :
    (codec : TextCodec) (limits : IppDecodeLimits) (operation request_id : ℕ) (bytes rest : List ℕ)
    → operation ≤ 65535
    → request_id ≤ 4294967295
    → decode_ipp_response codec limits (
        1 ∷ 1 ∷ uint16_bytes operation
        ++ uint32_bytes request_id
        ++ bytes
        ++ end_of_attributes ∷ rest)
      ≡ decode_after_header codec limits operation request_id (bytes ++ 3 ∷ rest)
unfolding decode_ipp_response uint16_bytes uint32_bytes
header-read codec limits operation request_id [] rest h k =
    rw (uint16-read operation h, uint32-read request_id k) refl
header-read codec limits operation request_id (b ∷ bytes) rest h k =
    rw (uint16-read operation h, uint32-read request_id k) refl

-- Decoding gives back what was encoded: for an operation of 16 bits and a request of 32, groups and
-- attributes whose tags are on their side of the delimiters, attributes whose names have at least a byte,
-- texts that the codec gives back, the empty one as no bytes, values that their tags carry, a limit
-- on values of at least 65,535 bytes, and no more attributes than their limit, the encoded bytes
-- decode, with whatever document is appended, to the operation, the request and the groups.
pub decode-encode :
    (codec : TextCodec) (limits : IppDecodeLimits) (request : IppRequest) (bytes : List ℕ)
    → 65535 ≤ limits.max_value_bytes
    → codec.encode_text [] ≡ []
    → request.operation ≤ 65535
    → request.request_id ≤ 4294967295
    → All (IsGroup codec) request.groups
    → total_attributes request.groups ≤ limits.max_attributes
    → encode_ipp_request codec request ≡ ok bytes
    → decode_ipp_response codec limits bytes
      ≡ some (
          ok (record {
            status_code = request.operation;
            request_id = request.request_id;
            groups = request.groups;
          }))
unfolding encode_ipp_request decode_after_header close_group
decode-encode codec limits request bytes m z h k w l e =
    bind_cases (encode_groups codec request.groups) _ e λ encoded i j.
      let start : DecodeState = record { groups = []; group = none; attribute_count = 0 } in
      let decoded =
        Decodes-groups codec limits start request.groups encoded request.data_bytes m z w
          (omega arith) i (length (encoded ++ 3 ∷ request.data_bytes) + 1) (omega arith) in
      subst
        (λ x.
          decode_ipp_response codec limits x
          ≡ some (
              ok (record {
                status_code = request.operation;
                request_id = request.request_id;
                groups = request.groups;
              })))
        (ok-injective j)
        (header-read codec limits request.operation request.request_id encoded request.data_bytes h
            k
          ∙ rw (decode_after_header, decoded) refl)
