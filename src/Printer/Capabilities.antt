-- ===== src/Printer/Capabilities.antt =====
-- packages/printer-adapters/src/capabilities.ts: the snapshot of what a device can do, from the
-- device's own vocabulary. A vocabulary is a list of terms as code units; the digest of a snapshot
-- is not modelled.
pub mod Examples
pub mod Snapshot
use kiosk_project.Base.{
  same, ℕ, ◌+◌, ◌-◌, min, String, Bool, true, false, not, ◌&&◌, ◌||◌, Option, none, some, List, [],
  ◌∷◌, map, if◌then◌else◌, ◌==◌, leb, filter, includes, codes, in_range,
}
use kiosk_project.Base.Int.{ℤ, pos, pos_part, ltb_ℤ}
use kiosk_project.Base.Numbers.{is_safe_integer}
use kiosk_project.Domain.PageRanges.{is_space}
use kiosk_project.Domain.Settings.{
  PaperSize, a4, PaperSize-discrete, DuplexMode, simplex, long_edge, DuplexMode-discrete, ColorMode,
  monochrome, ColorMode-discrete, ScalingMode, fit, Orientation, auto, PrinterCapabilities,
}

-- `maxCopies` is none when it is absent, null or not an integer.
pub record DeviceCapabilityDeclaration : Type 0 where
  pub media_sizes : Option (List (List ℕ))
  pub sides : Option (List (List ℕ))
  pub color_modes : Option (List (List ℕ))
  pub max_copies : Option ℤ
  pub duplex_supported : Bool

pub record CapabilityMappingLimits : Type 0 where
  pub max_copies : ℕ

abbrev pub paper_size_terms : List (List ℕ × PaperSize)
paper_size_terms =
    (codes "a4", a4)
    ∷ (codes "isoa4", a4)
    ∷ (codes "isoa4210x297mm", a4)
    ∷ (codes "a4210x297mm", a4)
    ∷ (codes "iso_a4", a4)
    ∷ []

abbrev pub duplex_terms : List (List ℕ × DuplexMode)
duplex_terms =
    (codes "onesided", simplex)
    ∷ (codes "simplex", simplex)
    ∷ (codes "twosidedlongedge", long_edge)
    ∷ (codes "duplextumblelong", long_edge)
    ∷ (codes "longedgebinding", long_edge)
    ∷ []

abbrev pub color_terms : List (List ℕ × ColorMode)
color_terms =
    (codes "monochrome", monochrome)
    ∷ (codes "automonochrome", monochrome)
    ∷ (codes "processmonochrome", monochrome)
    ∷ (codes "bilevel", monochrome)
    ∷ (codes "processbilevel", monochrome)
    ∷ (codes "grayscale", monochrome)
    ∷ (codes "greyscale", monochrome)
    ∷ []

abbrev pub host_orientations : List Orientation
host_orientations = auto ∷ []

abbrev pub host_scaling_modes : List ScalingMode
host_scaling_modes = fit ∷ []

abbrev pub paper_size_order : List PaperSize
paper_size_order = a4 ∷ []

abbrev pub duplex_order : List DuplexMode
duplex_order = simplex ∷ long_edge ∷ []

abbrev pub color_order : List ColorMode
color_order = monochrome ∷ []

abbrev pub print_capability_snapshot_version : ℕ
print_capability_snapshot_version = 3

abbrev pub same_codes : List ℕ → List ℕ → Bool
same_codes [] [] = true
same_codes [] (d ∷ ds) = false
same_codes (c ∷ cs) [] = false
same_codes (c ∷ cs) (d ∷ ds) = c == d && same_codes cs ds

-- `vocabulary[term]`; what an object inherits besides is in no order of options, and so is dropped.
abbrev pub vocabulary_of {ℓ} : {A : Type ℓ} → List (List ℕ × A) → List ℕ → Option A
vocabulary_of [] term = none
vocabulary_of ((known, option) ∷ vocabulary) term =
    if same_codes known term then some option else vocabulary_of vocabulary term

-- `value.replace(/[\s._-]/gu, "")`.
pub strip_separators : List ℕ → List ℕ
unfolding is_space
strip_separators = filter (λ c. not (is_space c || c == b'.' || c == b'_' || c == b'-'))

abbrev pub is_option {ℓ} : {A : Type ℓ} → Discrete A → Option A → A → Bool
is_option d none option = false
is_option d (some known) option = same d known option

-- A device that names no sides still prints one-sided; its duplex flag alone adds the long edge.
pub duplex_modes_of : List DuplexMode → Bool → List DuplexMode
duplex_modes_of [] true = simplex ∷ long_edge ∷ []
duplex_modes_of [] false = simplex ∷ []
duplex_modes_of declared _ = declared

pub declared_copies : Option ℤ → CapabilityMappingLimits → ℕ
declared_copies none limits = limits.max_copies
declared_copies (some copies) limits =
    if is_safe_integer copies && ltb_ℤ (pos 0) copies then pos_part copies else limits.max_copies

module _ (to_locale_lower_case : List ℕ → List ℕ) where
  pub normalize_term : List ℕ → List ℕ
  unfolding strip_separators
  normalize_term value = to_locale_lower_case (strip_separators value)

  -- `mapped.has(option)`, once every declared entry has been looked up.
  pub declares {ℓ} : {A : Type ℓ} → Discrete A → List (List ℕ × A) → List (List ℕ) → A → Bool
  unfolding normalize_term
  declares d vocabulary [] option = false
  declares d vocabulary (entry ∷ entries) option =
      is_option d (vocabulary_of vocabulary (normalize_term entry)) option
      || declares d vocabulary entries option

  pub map_terms {ℓ} :
      {A : Type ℓ} → Discrete A → Option (List (List ℕ)) → List (List ℕ × A) → List A → List A
  unfolding declares
  map_terms d none vocabulary order = []
  map_terms d (some declared) vocabulary order = filter (declares d vocabulary declared) order

  pub map_device_capabilities :
      DeviceCapabilityDeclaration → CapabilityMappingLimits → PrinterCapabilities
  unfolding map_terms duplex_modes_of declared_copies PaperSize-discrete DuplexMode-discrete
      ColorMode-discrete
  map_device_capabilities declaration limits = record {
    version = print_capability_snapshot_version;
    paper_sizes =
        map_terms PaperSize-discrete declaration.media_sizes paper_size_terms paper_size_order;
    color_modes = map_terms ColorMode-discrete declaration.color_modes color_terms color_order;
    duplex_modes =
        duplex_modes_of (map_terms DuplexMode-discrete declaration.sides duplex_terms duplex_order)
          declaration.duplex_supported;
    scaling_modes = host_scaling_modes;
    orientations = host_orientations;
    max_copies = min (declared_copies declaration.max_copies limits) limits.max_copies;
  }

-- The device vocabulary that a manifest's value is submitted as.
pub ipp_sides_by_duplex_mode : DuplexMode → List ℕ
ipp_sides_by_duplex_mode simplex = codes "one-sided"
ipp_sides_by_duplex_mode long_edge = codes "two-sided-long-edge"
ipp_sides_by_duplex_mode DuplexMode.short_edge = codes "two-sided-short-edge"

pub ipp_media_by_paper_size : PaperSize → List ℕ
ipp_media_by_paper_size a4 = codes "iso_a4_210x297mm"

pub ipp_color_mode_by_color_mode : ColorMode → List ℕ
ipp_color_mode_by_color_mode monochrome = codes "monochrome"
