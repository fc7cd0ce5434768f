-- ===== src/Printer/Capabilities/Examples.antt =====
-- A concrete device, which names its sides in two orders.
use kiosk_project.Base.{ℕ, false, some, List, [], ◌∷◌, codes, ◌≡◌, refl}
use kiosk_project.Base.Int.{pos}
use kiosk_project.Printer.Capabilities.{
  DeviceCapabilityDeclaration, CapabilityMappingLimits, map_device_capabilities,
}
use kiosk_project.Domain.ObjectKeys.{to_lower_case}

abbrev declared : List (List ℕ) → DeviceCapabilityDeclaration
declared sides = record {
  media_sizes = some (codes "iso_a4_210x297mm" ∷ []);
  sides = some sides;
  color_modes = some (codes "Monochrome" ∷ []);
  max_copies = some (pos 99);
  duplex_supported = false;
}

abbrev one_way : List (List ℕ)
one_way = codes "one-sided" ∷ codes "two-sided-long-edge" ∷ []

abbrev other_way : List (List ℕ)
other_way = codes "two-sided-long-edge" ∷ codes "one-sided" ∷ []

abbrev ceiling : CapabilityMappingLimits
ceiling = record { max_copies = 20 }

same_snapshot :
    map_device_capabilities to_lower_case (declared one_way) ceiling
    ≡ map_device_capabilities to_lower_case (declared other_way) ceiling
unfolding map_device_capabilities to_lower_case
same_snapshot = refl
