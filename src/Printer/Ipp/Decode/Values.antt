-- ===== src/Printer/Ipp/Decode/Values.antt =====
-- The values of an attribute, decoded.
use kiosk_project.Printer.Ipp.Decode.Fields.{value-read, take_field-append, Fits}
use kiosk_project.Printer.Ipp.{
  attribute_too_large, IppValue, IppGroup, is_delimiter_tag, IppDecodeLimits, IppAttribute,
  TextCodec,
}
use kiosk_project.Printer.Ipp.Decode.{
  extend_attribute, new_attribute, add_value, place_value, decode_attribute_value, opens_group,
  close_group, opens_attribute, open_group, DecodeState, classify, decode_groups, decode_attribute,
}
use kiosk_project.Printer.Ipp.Encode.{
  encode_value_bytes, encode_values, encode_attribute_value, uint16_bytes,
}
use mathlib.Core.List.{append_assoc}
use kiosk_project.Base.{
  length-append, ok-injective, refuse_if-eq-ok, bind_cases, All, ℕ, zero, suc, ◌+◌, ◌%◌, ◌<◌, ◌≤◌,
  ◌||◌, ltb, List, [], ◌∷◌, ◌++◌, false, ◌==◌, ok, refuse_if, length, some, ◌≡◌, refl, arith, ◌≢◌,
  sym, ◌∙◌, ap, subst,
}

-- What decodes with every fuel above the number of bytes.
abbrev pub Decodes : TextCodec → IppDecodeLimits → DecodeState → List ℕ → List IppGroup → Type 0
Decodes codec limits st bytes gs =
    (fuel : ℕ) → length bytes < fuel → decode_groups codec limits fuel st bytes ≡ some (ok gs)

-- A request that survives: tags of one byte on their side of the delimiters, texts that the codec
-- gives back, names that are not empty, and values that their tags carry.
pub record IsAttribute (codec : TextCodec) (a : IppAttribute) : Type 0 where
  pub tag_above : 5 < a.tag
  pub tag_below : a.tag < 256
  pub name_there : 0 < length (codec.encode_text a.name)
  pub name_back : codec.decode_text (codec.encode_text a.name) ≡ a.name
  pub values_fit : All (Fits codec a.tag) a.values

pub record IsGroup (codec : TextCodec) (g : IppGroup) : Type 0 where
  pub tag_below : g.tag ≤ 5
  pub tag_goes_on : g.tag ≢ 3
  pub attributes_fit : All (IsAttribute codec) g.attributes

abbrev pub with_group : DecodeState → ℕ → List IppAttribute → ℕ → DecodeState
with_group st tag attributes count = record st {
  group = some (record { tag = tag; attributes = attributes });
  attribute_count = count;
}

pub Decodes-end :
    (codec : TextCodec) (limits : IppDecodeLimits) (st : DecodeState) (rest : List ℕ)
    → Decodes codec limits st (3 ∷ rest) (close_group st)
unfolding decode_groups classify
Decodes-end codec limits st rest zero h = absurd (omega arith)
Decodes-end codec limits st rest (suc fuel) h = refl

classify-group : (tag : ℕ) → tag ≤ 5 → tag ≢ 3 → classify tag ≡ opens_group
unfolding classify is_delimiter_tag
classify-group tag h k = ground arith

classify-attribute : (tag : ℕ) → 5 < tag → classify tag ≡ opens_attribute
unfolding classify is_delimiter_tag
classify-attribute tag h = ground arith

pub Decodes-group :
    (codec : TextCodec) (limits : IppDecodeLimits) (st : DecodeState) (tag : ℕ) (rest : List ℕ)
    (gs : List IppGroup)
    → tag ≤ 5
    → tag ≢ 3
    → Decodes codec limits (open_group tag st) rest gs
    → Decodes codec limits st (tag ∷ rest) gs
unfolding decode_groups
Decodes-group codec limits st tag rest gs h k d zero l = absurd (omega arith)
Decodes-group codec limits st tag rest gs h k d (suc fuel) l =
    rw (decode_groups, classify-group tag h k) (d fuel (omega arith))

-- One record of the wire, and what it does.
pub Decodes-attribute :
    (codec : TextCodec) (limits : IppDecodeLimits) (st next : DecodeState) (tag : ℕ)
    (bytes rest : List ℕ) (gs : List IppGroup)
    → 5 < tag
    → length rest ≤ length bytes
    → decode_attribute codec limits st tag bytes ≡ ok (next, rest)
    → Decodes codec limits next rest gs
    → Decodes codec limits st (tag ∷ bytes) gs
unfolding decode_groups
Decodes-attribute codec limits st next tag bytes rest gs h l e d zero f = absurd (omega arith)
Decodes-attribute codec limits st next tag bytes rest gs h l e d (suc fuel) f =
    rw (decode_groups, classify-attribute tag h, e) (d fuel (omega arith))

-- The bytes of a record after its tag.
abbrev field : List ℕ → List ℕ
field bytes = uint16_bytes (length bytes) ++ bytes

abbrev fields : List ℕ → List ℕ → List ℕ
fields name_bytes raw =
    uint16_bytes (length name_bytes) ++ name_bytes ++ uint16_bytes (length raw) ++ raw

fields-append :
    (name_bytes raw rest : List ℕ)
    → fields name_bytes raw ++ rest ≡ field name_bytes ++ (field raw ++ rest)
unfolding uint16_bytes
fields-append name_bytes raw rest =
    append_assoc (field name_bytes ++ uint16_bytes (length raw)) raw rest
    ∙ append_assoc (field name_bytes) (uint16_bytes (length raw)) (raw ++ rest)

fields-read :
    (codec : TextCodec) (limits : IppDecodeLimits) (st next : DecodeState) (g : IppGroup) (tag : ℕ)
    (name_bytes raw rest : List ℕ) (v : IppValue)
    → 65535 ≤ limits.max_value_bytes
    → length name_bytes ≤ 65535
    → length raw ≤ 65535
    → st.group ≡ some g
    → decode_attribute_value codec limits tag raw ≡ ok v
    → place_value codec limits st g tag name_bytes v ≡ ok next
    → decode_attribute codec limits st tag (fields name_bytes raw ++ rest) ≡ ok (next, rest)
unfolding decode_attribute
fields-read codec limits st next g tag name_bytes raw rest v h a b e f p =
    subst (λ bytes. decode_attribute codec limits st tag bytes ≡ ok (next, rest))
      (sym (fields-append name_bytes raw rest))
      (rw
        (
          take_field-append limits.max_value_bytes name_bytes (field raw ++ rest) h a,
          take_field-append limits.max_value_bytes raw rest h b,
          e,
          f,
          p,
        )
        refl)

-- What an encoded value consists of.
encode_attribute_value-eq :
    (codec : TextCodec) (tag : ℕ) (name : List ℕ) (v : IppValue) (bytes : List ℕ)
    → tag < 256
    → encode_attribute_value codec tag name v ≡ ok bytes
    → (raw : List ℕ) × (encode_value_bytes codec tag v ≡ ok raw)
      × (length (codec.encode_text name) ≤ 65535)
      × (length raw ≤ 65535)
      × (bytes ≡ tag ∷ fields (codec.encode_text name) raw)
unfolding encode_attribute_value
encode_attribute_value-eq codec tag name v bytes l e =
    bind_cases (encode_value_bytes codec tag v) _ e λ raw h k.
      bind_cases
        (refuse_if (ltb 65535 (length (codec.encode_text name)) || ltb 65535 (length raw))
          attribute_too_large)
        _ k
        λ u g j.
          let byte : tag % 256 ≡ tag = omega arith in
          let small = refuse_if-eq-ok _ _ g in
          (
            raw,
            h,
            ground (arith, small),
            ground (arith, small),
            sym (ok-injective j) ∙ ap (λ t. t ∷ fields (codec.encode_text name) raw) byte,
          )

-- An additional value goes to the last attribute.
add_value-last :
    (before : List IppAttribute) (a : IppAttribute) (v : IppValue)
    → add_value v (before ++ a ∷ [])
      ≡ some (before ++ record a { values = a.values ++ v ∷ [] } ∷ [])
unfolding add_value
add_value-last [] a v = refl
add_value-last (b ∷ []) a v = refl
add_value-last (b ∷ c ∷ before) a v = rw (add_value-last (c ∷ before) a v) refl

pub Decodes-value :
    (codec : TextCodec) (limits : IppDecodeLimits) (st next : DecodeState) (g : IppGroup) (tag : ℕ)
    (name : List ℕ) (v : IppValue) (bytes rest : List ℕ) (gs : List IppGroup)
    → 65535 ≤ limits.max_value_bytes
    → 5 < tag
    → tag < 256
    → Fits codec tag v
    → st.group ≡ some g
    → encode_attribute_value codec tag name v ≡ ok bytes
    → place_value codec limits st g tag (codec.encode_text name) v ≡ ok next
    → Decodes codec limits next rest gs
    → Decodes codec limits st (bytes ++ rest) gs
Decodes-value codec limits st next g tag name v bytes rest gs m h k f s e p d =
    let (raw, a, b, c, same_bytes) = encode_attribute_value-eq codec tag name v bytes k e in
    let body = fields (codec.encode_text name) raw ++ rest in
    let shorter : length rest ≤ length body =
      omega (arith, length-append (fields (codec.encode_text name) raw) rest) in
    subst (λ x. Decodes codec limits st (x ++ rest) gs) (sym same_bytes)
      (Decodes-attribute codec limits st next tag body rest gs h shorter
        (fields-read codec limits st next g tag (codec.encode_text name) raw rest v m b c s
          (value-read codec limits tag v raw f a) p)
        d)

place_additional :
    (codec : TextCodec) (limits : IppDecodeLimits) (st : DecodeState) (group_tag count tag : ℕ)
    (before : List IppAttribute) (a : IppAttribute) (v : IppValue)
    → codec.encode_text [] ≡ []
    → place_value codec limits
        (with_group st group_tag (before ++ a ∷ []) count)
        (record { tag = group_tag; attributes = before ++ a ∷ [] })
        tag
        (codec.encode_text [])
        v
      ≡ ok (with_group st group_tag (before ++ record a { values = a.values ++ v ∷ [] } ∷ []) count)
unfolding place_value extend_attribute
place_additional codec limits st group_tag count tag before a v z =
    rw (z, add_value-last before a v) refl

pub place_first :
    (codec : TextCodec) (limits : IppDecodeLimits) (st : DecodeState) (group_tag count tag : ℕ)
    (before : List IppAttribute) (name : List ℕ) (v : IppValue)
    → 0 < length (codec.encode_text name)
    → codec.decode_text (codec.encode_text name) ≡ name
    → count < limits.max_attributes
    → place_value codec limits
        (with_group st group_tag before count)
        (record { tag = group_tag; attributes = before })
        tag
        (codec.encode_text name)
        v
      ≡ ok (
          with_group st group_tag
            (before ++ record { name = name; tag = tag; values = v ∷ [] } ∷ [])
            (count + 1))
unfolding place_value new_attribute
place_first codec limits st group_tag count tag before name v h k l =
    let named : (length (codec.encode_text name) == 0) ≡ false = ground arith in
    let room : ltb limits.max_attributes (count + 1) ≡ false = ground arith in
    rw (named, room, k) refl

pub append_nil {ℓ} : {A : Type ℓ} (xs : List A) → xs ++ [] ≡ xs
append_nil [] = refl
append_nil (x ∷ xs) = ap (◌∷◌ x) (append_nil xs)

-- The values after the first, for the attribute that is last.
pub Decodes-values :
    (codec : TextCodec) (limits : IppDecodeLimits) (st : DecodeState) (group_tag count : ℕ)
    (before : List IppAttribute) (a : IppAttribute) (vs : List IppValue) (bytes rest : List ℕ)
    (gs : List IppGroup)
    → 65535 ≤ limits.max_value_bytes
    → codec.encode_text [] ≡ []
    → 5 < a.tag
    → a.tag < 256
    → All (Fits codec a.tag) vs
    → encode_values codec a.tag [] vs ≡ ok bytes
    → Decodes codec limits
        (with_group st group_tag (before ++ record a { values = a.values ++ vs } ∷ []) count)
        rest
        gs
    → Decodes codec limits (with_group st group_tag (before ++ a ∷ []) count) (bytes ++ rest) gs
unfolding encode_values
Decodes-values codec limits st group_tag count before a [] bytes rest gs m z h k f e d =
    subst
      (λ x. Decodes codec limits (with_group st group_tag (before ++ a ∷ []) count) (x ++ rest) gs)
      (ok-injective e)
      (subst
        (λ vs.
          Decodes codec limits
            (with_group st group_tag (before ++ record a { values = vs } ∷ []) count) rest gs)
        (append_nil a.values) d)
Decodes-values codec limits st group_tag count before a (v ∷ vs) bytes rest gs m z h k f e d =
    bind_cases (encode_attribute_value codec a.tag [] v) _ e λ first i j.
      bind_cases (encode_values codec a.tag [] vs) _ j λ others o q.
        let start = with_group st group_tag (before ++ a ∷ []) count in
        let longer = record a { values = a.values ++ v ∷ [] } in
        subst (λ x. Decodes codec limits start (x ++ rest) gs) (ok-injective q)
          (subst (λ x. Decodes codec limits start x gs) (sym (append_assoc first others rest))
            (Decodes-value codec limits start _ _ a.tag [] v first (others ++ rest) gs m h k f.0
              refl i (place_additional codec limits st group_tag count a.tag before a v z)
              (Decodes-values codec limits st group_tag count before longer vs others rest gs m z h
                k f.1 o
                (subst
                  (λ xs.
                    Decodes codec limits
                      (with_group st group_tag (before ++ record a { values = xs } ∷ []) count) rest
                      gs)
                  (sym (append_assoc a.values (v ∷ []) vs)) d))))
