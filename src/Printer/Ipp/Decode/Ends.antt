-- ===== src/Printer/Ipp/Decode/Ends.antt =====
-- The decoder ends on every input.
use kiosk_project.Printer.Ipp.{
  TextCodec, IppDecodeLimits, IppProtocolError, response_truncated, IppResponse, IppGroup,
  attribute_outside_group,
}
use kiosk_project.Printer.Ipp.Decode.{
  decode_after_header, read_uint32, open_group, place_value, decode_attribute_value, classify,
  TagKind-cases, read_uint16, DecodeState, decode_attribute, decode_groups, take_field,
  decode_ipp_response,
}
use kiosk_project.Base.{
  ◌>>◌, Bool, true, false, refuse_if, ltb, ◌||◌, Result-cases, subst, ok-injective, ap, or_throw,
  refuse_if, bind_cases, ℕ, zero, suc, ◌+◌, ◌<◌, ◌≤◌, List, [], ◌∷◌, ok, some, none, length, ◌≡◌,
  refl, arith, drop, take, inl, inr, Result,
}

length-drop {ℓ} : {A : Type ℓ} (n : ℕ) (xs : List A) → length (drop n xs) ≤ length xs
length-drop zero xs = omega arith
length-drop (suc n) [] = omega arith
length-drop (suc n) (x ∷ xs) = omega (arith, length-drop n xs)

kept-shorter :
    (too_long : Bool) (count : ℕ) (bytes field rest : List ℕ)
    → ◌>>◌ {B = List ℕ × List ℕ}
        (refuse_if too_long response_truncated)
        (ok (take count bytes, drop count bytes))
      ≡ ok (field, rest)
    → length rest ≤ length bytes
kept-shorter true count bytes field rest h = absurd (cc)
kept-shorter false count bytes field rest h =
    let same_rest : drop count bytes ≡ rest = ap (λ p. p.1) (ok-injective h) in
    subst (λ x. length x ≤ length bytes) same_rest (length-drop count bytes)

take_field-shorter :
    (max_bytes : ℕ) (bytes field rest : List ℕ)
    → take_field max_bytes bytes ≡ ok (field, rest)
    → length rest ≤ length bytes
unfolding take_field
take_field-shorter max_bytes [] field rest h = absurd (cc)
take_field-shorter max_bytes (a ∷ []) field rest h = absurd (cc)
take_field-shorter max_bytes (a ∷ b ∷ bytes) field rest h =
    let shorter =
      kept-shorter (ltb max_bytes (read_uint16 a b) || ltb (length bytes) (read_uint16 a b))
        (read_uint16 a b) bytes field rest h in
    omega (arith, shorter)

pub decode_attribute-shorter :
    (codec : TextCodec) (limits : IppDecodeLimits) (st next : DecodeState) (tag : ℕ)
    (bytes rest : List ℕ)
    → decode_attribute codec limits st tag bytes ≡ ok (next, rest)
    → length rest ≤ length bytes
unfolding decode_attribute
decode_attribute-shorter codec limits st next tag bytes rest h =
    bind_cases (take_field limits.max_value_bytes bytes) _ h λ name g j.
      bind_cases (take_field limits.max_value_bytes name.1) _ j λ raw k l.
        bind_cases (or_throw st.group attribute_outside_group) _ l λ group m n.
          bind_cases (decode_attribute_value codec limits tag raw.0) _ n λ value o p.
            bind_cases (place_value codec limits st group tag name.0 value) _ p λ placed q r.
              let same_rest : raw.1 ≡ rest = ap (λ p. p.1) (ok-injective r) in
              let first = take_field-shorter limits.max_value_bytes bytes name.0 name.1 g in
              let second = take_field-shorter limits.max_value_bytes name.1 raw.0 raw.1 k in
              subst (λ x. length x ≤ length bytes) same_rest (omega (arith, first, second))

decode_groups-ends :
    (codec : TextCodec) (limits : IppDecodeLimits) (fuel : ℕ) (st : DecodeState) (bytes : List ℕ)
    → length bytes < fuel
    → (r : Result IppProtocolError (List IppGroup)) × (decode_groups codec limits fuel st bytes
        ≡ some r)
unfolding decode_groups
decode_groups-ends codec limits zero st bytes h = absurd (omega arith)
decode_groups-ends codec limits (suc fuel) st [] h = (_, refl)
decode_groups-ends codec limits (suc fuel) st (tag ∷ rest) h = elim (TagKind-cases (classify tag)) [
  | inl e ↦ rw (decode_groups, e) (_, refl)
  | inr (inl e) ↦
      rw (decode_groups, e)
        (decode_groups-ends codec limits fuel (open_group tag st) rest (omega arith))
  | inr (inr e) ↦ elim (Result-cases (decode_attribute codec limits st tag rest)) [
    | inr (error, f) ↦ rw (decode_groups, e, f) (_, refl)
    | inl ((next, left), f) ↦
        let shorter = decode_attribute-shorter codec limits st next tag rest left f in
        rw (decode_groups, e, f)
          (decode_groups-ends codec limits fuel next left (omega (arith, shorter)))
  ]
]

after_header-ends :
    (codec : TextCodec) (limits : IppDecodeLimits) (status_code request_id : ℕ) (bytes : List ℕ)
    → (r : Result IppProtocolError IppResponse) × (decode_after_header codec limits status_code
          request_id bytes
        ≡ some r)
unfolding decode_after_header
after_header-ends codec limits status_code request_id bytes =
    let start : DecodeState = record { groups = []; group = none; attribute_count = 0 } in
    let (r, e) = decode_groups-ends codec limits (length bytes + 1) start bytes (omega arith) in
    elim (Result-cases r) [
      | inl (groups, f) ↦ rw (decode_after_header, e, f) (_, refl)
      | inr (error, f) ↦ rw (decode_after_header, e, f) (_, refl)
    ]

-- Decoding ends on all bytes, under every limit: with one step of fuel more than there are bytes, the
-- loop never uses its fuel up.
pub decode_ipp_response-ends :
    (codec : TextCodec) (limits : IppDecodeLimits) (bytes : List ℕ)
    → (r : Result IppProtocolError IppResponse) × (decode_ipp_response codec limits bytes ≡ some r)
unfolding decode_ipp_response
decode_ipp_response-ends codec limits [] = (_, refl)
decode_ipp_response-ends codec limits (a ∷ []) = (_, refl)
decode_ipp_response-ends codec limits (a ∷ b ∷ []) = (_, refl)
decode_ipp_response-ends codec limits (a ∷ b ∷ c ∷ []) = (_, refl)
decode_ipp_response-ends codec limits (a ∷ b ∷ c ∷ d ∷ []) = (_, refl)
decode_ipp_response-ends codec limits (a ∷ b ∷ c ∷ d ∷ e ∷ []) = (_, refl)
decode_ipp_response-ends codec limits (a ∷ b ∷ c ∷ d ∷ e ∷ f ∷ []) = (_, refl)
decode_ipp_response-ends codec limits (a ∷ b ∷ c ∷ d ∷ e ∷ f ∷ g ∷ []) = (_, refl)
decode_ipp_response-ends codec limits (a ∷ b ∷ c ∷ d ∷ e ∷ f ∷ g ∷ h ∷ []) = (_, refl)
decode_ipp_response-ends codec limits (_ ∷ _ ∷ a ∷ b ∷ c ∷ d ∷ e ∷ f ∷ first ∷ rest) =
    after_header-ends codec limits (read_uint16 a b) (read_uint32 c d e f) (first ∷ rest)
