-- ===== src/Printer/Capabilities/Snapshot.antt =====
-- What a snapshot offers.
use mathlib.Core.List.{Permᴰ}
use mathlib.Core.List.Permᴰ.{nil, cons, swap, trans}
use kiosk_project.Base.{
  length, ℕ, ◌≤◌, ◌≡◌, refl, ◌∙◌, Bool, true, false, ◌||◌, Option, none, some, List, [], ◌∷◌,
  filter, includes, arith,
}
use kiosk_project.Base.Int.{ℤ}
use kiosk_project.Domain.Settings.{
  ColorMode-discrete, PaperSize-discrete, DuplexMode, DuplexMode-discrete,
}
use kiosk_project.Printer.Capabilities.{
  color_order, color_terms, duplex_order, duplex_terms, paper_size_order, paper_size_terms,
  DeviceCapabilityDeclaration, CapabilityMappingLimits, map_device_capabilities, map_terms,
  declares, duplex_modes_of, declared_copies, vocabulary_of, normalize_term, is_option,
}

or_swap : (a b c : Bool) → (a || (b || c)) ≡ (b || (a || c))
or_swap a b c = ground arith

copies_pos :
    (copies : Option ℤ) (limits : CapabilityMappingLimits)
    → 1 ≤ limits.max_copies
    → 1 ≤ declared_copies copies limits
unfolding declared_copies
copies_pos none limits h = h
copies_pos (some copies) limits h = ground arith

modes_ok :
    (declared : List DuplexMode) (flag : Bool)
    → includes DuplexMode-discrete declared DuplexMode.short_edge ≡ false
    → (1 ≤ length (duplex_modes_of declared flag))
      × (includes DuplexMode-discrete (duplex_modes_of declared flag) DuplexMode.short_edge ≡ false)
unfolding duplex_modes_of DuplexMode-discrete
modes_ok [] true h = (omega arith, refl)
modes_ok [] false h = (omega arith, refl)
modes_ok (m ∷ ms) flag h = (omega arith, h)

module _ (to_locale_lower_case : List ℕ → List ℕ) where
  declares-Permᴰ {ℓ} :
      {A : Type ℓ} (d : Discrete A) (vocabulary : List (List ℕ × A)) (option : A)
      {xs ys : List (List ℕ)}
      → Permᴰ xs ys
      → declares to_locale_lower_case d vocabulary xs option
        ≡ declares to_locale_lower_case d vocabulary ys option
  unfolding declares
  declares-Permᴰ d vocabulary option nil = refl
  declares-Permᴰ d vocabulary option (cons e p) = rw (e, declares-Permᴰ d vocabulary option p) refl
  declares-Permᴰ d vocabulary option (swap {a' = a'} {b' = b'} {l = l} e f) =
      let known : List ℕ → Bool = λ t.
        is_option d (vocabulary_of vocabulary (normalize_term to_locale_lower_case t)) option in
      rw (e, f)
        (or_swap (known b') (known a') (declares to_locale_lower_case d vocabulary l option))
  declares-Permᴰ d vocabulary option (trans p q) =
      declares-Permᴰ d vocabulary option p ∙ declares-Permᴰ d vocabulary option q

  filter-declares {ℓ} :
      {A : Type ℓ} (d : Discrete A) (vocabulary : List (List ℕ × A)) (order : List A)
      {xs ys : List (List ℕ)}
      → Permᴰ xs ys
      → filter (declares to_locale_lower_case d vocabulary xs) order
        ≡ filter (declares to_locale_lower_case d vocabulary ys) order
  filter-declares d vocabulary [] p = refl
  filter-declares d vocabulary (o ∷ order) p =
      rw (declares-Permᴰ d vocabulary o p, filter-declares d vocabulary order p) refl

  -- The same device, answering in the orders of the second declaration.
  abbrev Reordered : Option (List (List ℕ)) → Option (List (List ℕ)) → Type 0
  Reordered none none = Unit
  Reordered (some xs) (some ys) = Permᴰ xs ys
  Reordered _ _ = ⊥

  map_terms-Reordered {ℓ} :
      {A : Type ℓ} (d : Discrete A) (vocabulary : List (List ℕ × A)) (order : List A)
      (xs ys : Option (List (List ℕ)))
      → Reordered xs ys
      → map_terms to_locale_lower_case d xs vocabulary order
        ≡ map_terms to_locale_lower_case d ys vocabulary order
  unfolding map_terms
  map_terms-Reordered d vocabulary order none none p = refl
  map_terms-Reordered d vocabulary order (some xs) (some ys) p =
      filter-declares d vocabulary order p
  map_terms-Reordered d vocabulary order none (some ys) p = absurd p
  map_terms-Reordered d vocabulary order (some xs) none p = absurd p

  -- Two declarations that name the same media, sides and colour modes in different orders, and
  -- agree on the rest, map to the same snapshot.
  map_device_capabilities-Reordered :
      (x y : DeviceCapabilityDeclaration) (limits : CapabilityMappingLimits)
      → Reordered x.media_sizes y.media_sizes
      → Reordered x.sides y.sides
      → Reordered x.color_modes y.color_modes
      → x.max_copies ≡ y.max_copies
      → x.duplex_supported ≡ y.duplex_supported
      → map_device_capabilities to_locale_lower_case x limits
        ≡ map_device_capabilities to_locale_lower_case y limits
  unfolding map_device_capabilities
  map_device_capabilities-Reordered x y limits p q r e f =
      rw
        (
          map_terms-Reordered PaperSize-discrete paper_size_terms paper_size_order _ _ p,
          map_terms-Reordered DuplexMode-discrete duplex_terms duplex_order _ _ q,
          map_terms-Reordered ColorMode-discrete color_terms color_order _ _ r,
          e,
          f,
        )
        refl

  no_short :
      (sides : Option (List (List ℕ)))
      → includes DuplexMode-discrete
          (map_terms to_locale_lower_case DuplexMode-discrete sides duplex_terms duplex_order)
          DuplexMode.short_edge
        ≡ false
  unfolding map_terms DuplexMode-discrete
  no_short none = refl
  no_short (some declared) = ground arith

  -- A snapshot never raises the deployment's ceiling on copies, offers at least one copy when the
  -- ceiling does, always offers some way to print, and never binds on the short edge.
  pub map_device_capabilities-bounds :
      (x : DeviceCapabilityDeclaration) (limits : CapabilityMappingLimits)
      → let s = map_device_capabilities to_locale_lower_case x limits in
        (s.max_copies ≤ limits.max_copies)
        × (1 ≤ limits.max_copies → 1 ≤ s.max_copies)
        × (1 ≤ length s.duplex_modes)
        × (includes DuplexMode-discrete s.duplex_modes DuplexMode.short_edge ≡ false)
  unfolding map_device_capabilities
  map_device_capabilities-bounds x limits =
      let (some_mode, no_short_edge) = modes_ok _ x.duplex_supported (no_short x.sides) in
      (omega arith, λ h. omega (arith, copies_pos x.max_copies limits h), some_mode, no_short_edge)
