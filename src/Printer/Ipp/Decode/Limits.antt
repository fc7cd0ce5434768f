-- ===== src/Printer/Ipp/Decode/Limits.antt =====
-- A device cannot talk the decoder past its limit.
use kiosk_project.Printer.Ipp.Decode.{
  read_uint32, read_uint16, classify, decode_after_header, TagKind-cases, decode_ipp_response,
  decode_attribute_value, take_field, decode_attribute, decode_groups, new_attribute, DecodeState,
  extend_attribute, close_group, add_value, place_value, open_group,
}
use kiosk_project.Printer.Ipp.{
  IppProtocolError, IppResponse, total_attributes, attribute_outside_group, response_too_large,
  additional_value_without_attribute, IppGroup, TextCodec, IppAttribute, IppValue, IppDecodeLimits,
}
use mathlib.Core.Option.{some-injective}
use kiosk_project.Base.{
  Result-cases, length-append, ok-injective, ap, refuse_if-eq-ok, or_throw-eq-ok, or_throw,
  refuse_if, bind_cases, subst, if-cases, ◌==◌, ltb, ℕ, zero, suc, ◌+◌, ◌≤◌, List, [], ◌∷◌, ◌++◌,
  ok, err, some, none, length, ◌≡◌, refl, arith, inl, inr, Option, Result,
}

total-append :
    (gs hs : List IppGroup)
    → total_attributes (gs ++ hs) ≡ total_attributes gs + total_attributes hs
total-append [] hs = omega arith
total-append (g ∷ gs) hs = omega (arith, total-append gs hs)

-- The count is that of the attributes that are held, and within the limit.
pub record IsCounted (limits : IppDecodeLimits) (st : DecodeState) : Type 0 where
  pub counted : total_attributes (close_group st) ≡ st.attribute_count
  pub within : st.attribute_count ≤ limits.max_attributes

prepended-length :
    (o : Option (List IppAttribute)) (a : IppAttribute) (n : ℕ) (longer : List IppAttribute)
    → ((later : List IppAttribute) → o ≡ some later → length later ≡ n)
    → elim o [ none ↦ none | some later ↦ some (a ∷ later) ] ≡ some longer
    → length longer ≡ suc n
prepended-length none a n longer h e = absurd (cc)
prepended-length (some later) a n longer h e =
    subst (λ x. length x ≡ suc n) (some-injective _ _ e) (ap (λ m. suc m) (h later refl))

add_value-length :
    (v : IppValue) (attributes longer : List IppAttribute)
    → add_value v attributes ≡ some longer
    → length longer ≡ length attributes
unfolding add_value
add_value-length v [] longer e = absurd (cc)
add_value-length v (a ∷ []) longer e = subst (λ x. length x ≡ 1) (some-injective _ _ e) refl
add_value-length v (a ∷ b ∷ rest) longer e =
    prepended-length (add_value v (b ∷ rest)) a (suc (length rest)) longer
      (λ later n. add_value-length v (b ∷ rest) later n) e

open_group-IsCounted :
    (limits : IppDecodeLimits) (tag : ℕ) (st : DecodeState)
    → IsCounted limits st
    → IsCounted limits (open_group tag st)
unfolding open_group close_group
open_group-IsCounted limits tag st c = record {
  counted = omega (
    arith,
    c.counted,
    total-append (close_group st) (record { tag = tag; attributes = [] } ∷ []),
  );
  within = c.within;
}

closed_group :
    (st : DecodeState) (g : IppGroup) → st.group ≡ some g → close_group st ≡ st.groups ++ g ∷ []
unfolding close_group
closed_group st g e = rw (close_group, e) refl

extend_attribute-IsCounted :
    (limits : IppDecodeLimits) (st next : DecodeState) (g : IppGroup) (v : IppValue)
    → IsCounted limits st
    → st.group ≡ some g
    → extend_attribute st g v ≡ ok next
    → IsCounted limits next
unfolding extend_attribute close_group
extend_attribute-IsCounted limits st next g v c e h =
    bind_cases (or_throw (add_value v g.attributes) additional_value_without_attribute) _ h
      λ longer i j.
        let same_length =
          add_value-length v g.attributes longer
            (or_throw-eq-ok (add_value v g.attributes) additional_value_without_attribute i) in
        let before =
          subst (λ x. total_attributes x ≡ st.attribute_count) (closed_group st g e) c.counted in
        subst (IsCounted limits) (ok-injective j) (record {
          counted = omega (
            arith,
            before,
            same_length,
            total-append st.groups (g ∷ []),
            total-append st.groups (record g { attributes = longer } ∷ []),
          );
          within = c.within;
        })

new_attribute-IsCounted :
    (limits : IppDecodeLimits) (st next : DecodeState) (g : IppGroup) (a : IppAttribute)
    → IsCounted limits st
    → st.group ≡ some g
    → new_attribute limits st g a ≡ ok next
    → IsCounted limits next
unfolding new_attribute close_group
new_attribute-IsCounted limits st next g a c e h =
    bind_cases (refuse_if (ltb limits.max_attributes (st.attribute_count + 1)) response_too_large) _
      h
      λ u i j.
        let room = refuse_if-eq-ok _ _ i in
        let before =
          subst (λ x. total_attributes x ≡ st.attribute_count) (closed_group st g e) c.counted in
        subst (IsCounted limits) (ok-injective j) (record {
          counted = omega (
            arith,
            before,
            length-append g.attributes (a ∷ []),
            total-append st.groups (g ∷ []),
            total-append st.groups (record g { attributes = g.attributes ++ a ∷ [] } ∷ []),
          );
          within = ground (arith, room);
        })

place_value-IsCounted :
    (codec : TextCodec) (limits : IppDecodeLimits) (st next : DecodeState) (g : IppGroup) (tag : ℕ)
    (name_bytes : List ℕ) (v : IppValue)
    → IsCounted limits st
    → st.group ≡ some g
    → place_value codec limits st g tag name_bytes v ≡ ok next
    → IsCounted limits next
unfolding place_value extend_attribute new_attribute
place_value-IsCounted codec limits st next g tag name_bytes v c e h =
    let fresh : IppAttribute = record {
      name = codec.decode_text name_bytes;
      tag = tag;
      values = v ∷ [];
    } in
    elim (if-cases (length name_bytes == 0) (extend_attribute st g v)
      (new_attribute limits st g fresh) (ok next) h) [
        | inl (k, i) ↦ extend_attribute-IsCounted limits st next g v c e i
        | inr (k, i) ↦ new_attribute-IsCounted limits st next g fresh c e i
      ]

decode_attribute-IsCounted :
    (codec : TextCodec) (limits : IppDecodeLimits) (st next : DecodeState) (tag : ℕ)
    (bytes rest : List ℕ)
    → IsCounted limits st
    → decode_attribute codec limits st tag bytes ≡ ok (next, rest)
    → IsCounted limits next
unfolding decode_attribute
decode_attribute-IsCounted codec limits st next tag bytes rest c h =
    bind_cases (take_field limits.max_value_bytes bytes) _ h λ name g j.
      bind_cases (take_field limits.max_value_bytes name.1) _ j λ raw k l.
        bind_cases (or_throw st.group attribute_outside_group) _ l λ group m n.
          bind_cases (decode_attribute_value codec limits tag raw.0) _ n λ value o p.
            bind_cases (place_value codec limits st group tag name.0 value) _ p λ placed q r.
              let same_state : placed ≡ next = ap (λ p. p.0) (ok-injective r) in
              subst (IsCounted limits) same_state (
                place_value-IsCounted codec limits st placed group tag name.0 value c
                  (or_throw-eq-ok st.group attribute_outside_group m) q)

decode_groups-within :
    (codec : TextCodec) (limits : IppDecodeLimits) (fuel : ℕ) (st : DecodeState) (bytes : List ℕ)
    (gs : List IppGroup)
    → IsCounted limits st
    → decode_groups codec limits fuel st bytes ≡ some (ok gs)
    → total_attributes gs ≤ limits.max_attributes
unfolding decode_groups
decode_groups-within codec limits zero st bytes gs c = λ h. absurd (cc)
decode_groups-within codec limits (suc fuel) st [] gs c = λ h. absurd (cc)
decode_groups-within codec limits (suc fuel) st (tag ∷ rest) gs c =
    elim (TagKind-cases (classify tag)) [
      | inl e ↦
          rw (decode_groups, e)
            (λ h.
              let held : close_group st ≡ gs = ok-injective (some-injective _ _ h) in
              let bound = c.within in
              subst (λ x. total_attributes x ≤ limits.max_attributes) held
                (omega (arith, c.counted, bound)))
      | inr (inl e) ↦
          rw (decode_groups, e)
            (λ h.
              decode_groups-within codec limits fuel (open_group tag st) rest gs
                (open_group-IsCounted limits tag st c) h)
      | inr (inr e) ↦ elim (Result-cases (decode_attribute codec limits st tag rest)) [
        | inr (error, f) ↦ rw (decode_groups, e, f) (λ h. absurd (cc))
        | inl ((next, left), f) ↦
            rw (decode_groups, e, f)
              (λ h.
                decode_groups-within codec limits fuel next left gs
                  (decode_attribute-IsCounted codec limits st next tag rest left c f) h)
      ]
    ]

after_header-within :
    (codec : TextCodec) (limits : IppDecodeLimits) (status_code request_id : ℕ) (bytes : List ℕ)
    (response : IppResponse) (decoded : Option (Result IppProtocolError (List IppGroup)))
    → decode_groups codec limits
        (length bytes + 1)
        (record { groups = []; group = none; attribute_count = 0 })
        bytes
      ≡ decoded
    → decode_after_header codec limits status_code request_id bytes ≡ some (ok response)
    → total_attributes response.groups ≤ limits.max_attributes
unfolding decode_after_header close_group
after_header-within codec limits status_code request_id bytes response none e =
    rw (decode_after_header, e) (λ h. absurd (cc))
after_header-within codec limits status_code request_id bytes response (some (err error)) e =
    rw (decode_after_header, e) (λ h. absurd (cc))
after_header-within codec limits status_code request_id bytes response (some (ok gs)) e =
    rw (decode_after_header, e)
      (λ h.
        let same_groups : gs ≡ response.groups =
          ap (λ r. r.groups) (ok-injective (some-injective _ _ h)) in
        let start : DecodeState = record { groups = []; group = none; attribute_count = 0 } in
        subst (λ x. total_attributes x ≤ limits.max_attributes) same_groups
          (decode_groups-within codec limits (length bytes + 1) start bytes gs
            (record { counted = refl; within = omega arith }) e))

-- A decoded response never holds more attributes than the limit, whatever the bytes are.
pub decode_ipp_response-within :
    (codec : TextCodec) (limits : IppDecodeLimits) (bytes : List ℕ) (response : IppResponse)
    → decode_ipp_response codec limits bytes ≡ some (ok response)
    → total_attributes response.groups ≤ limits.max_attributes
unfolding decode_ipp_response
decode_ipp_response-within codec limits [] response decoded = absurd (cc)
decode_ipp_response-within codec limits (a ∷ []) response decoded = absurd (cc)
decode_ipp_response-within codec limits (a ∷ b ∷ []) response decoded = absurd (cc)
decode_ipp_response-within codec limits (a ∷ b ∷ c ∷ []) response decoded = absurd (cc)
decode_ipp_response-within codec limits (a ∷ b ∷ c ∷ d ∷ []) response decoded = absurd (cc)
decode_ipp_response-within codec limits (a ∷ b ∷ c ∷ d ∷ e ∷ []) response decoded = absurd (cc)
decode_ipp_response-within codec limits (a ∷ b ∷ c ∷ d ∷ e ∷ f ∷ []) response decoded = absurd (cc)
decode_ipp_response-within codec limits (a ∷ b ∷ c ∷ d ∷ e ∷ f ∷ g ∷ []) response decoded =
    absurd (cc)
decode_ipp_response-within codec limits (a ∷ b ∷ c ∷ d ∷ e ∷ f ∷ g ∷ h ∷ []) response decoded =
    absurd (cc)
decode_ipp_response-within codec limits (_ ∷ _ ∷ a ∷ b ∷ c ∷ d ∷ e ∷ f ∷ first ∷ rest) response
      decoded =
    after_header-within codec limits (read_uint16 a b) (read_uint32 c d e f) (first ∷ rest) response
      _ refl decoded
