-- ===== src/Domain/Settings.antt =====
-- packages/domain/src/print-settings.ts: the types, the sheets of a document, the normal form of a
-- customer's request, and its manifest. Counts are natural numbers; the source refuses a copy
-- count that is not one as it refuses 0.
pub mod Documents
pub mod Totals
pub mod Examples
use kiosk_project.Base.{
  ℕ, zero, suc, ◌+◌, ◌*◌, ◌/◌, min, String, Bool, true, false, not, ◌||◌, Option, none, some, List,
  [], ◌∷◌, map, if◌then◌else◌, ◌==◌, leb, ltb, includes, same, is_some, length, sum, Result, ok,
  err, ◌>>=◌, ◌>>◌, require, refuse_if, or_throw,
}
use kiosk_project.Base.Numbers.{max_safe_integer}
use kiosk_project.Base.Maps.{lookup, insert}
use kiosk_project.Domain.PageRanges.{
  PageRange, PrintSettingsErrorCode, file_order_invalid, file_selection_invalid, no_selected_pages,
  copies_out_of_range, selected_page_limit_exceeded, printed_side_limit_exceeded,
  unsupported_print_setting, parse_page_range_text, format_page_ranges, count_selected_pages,
}

pub data PaperSize : Type 0 where
  a4 : PaperSize

pub data DuplexMode : Type 0 where
  simplex long_edge short_edge : DuplexMode

pub data Orientation : Type 0 where
  auto portrait landscape : Orientation

pub data ScalingMode : Type 0 where
  fit actual_size : ScalingMode

pub data ColorMode : Type 0 where
  monochrome : ColorMode

unfoldable pub PaperSize-discrete : Discrete PaperSize
PaperSize-discrete = hlevel

unfoldable pub DuplexMode-discrete : Discrete DuplexMode
DuplexMode-discrete = hlevel

pub Orientation-discrete : Discrete Orientation
Orientation-discrete = hlevel

pub ScalingMode-discrete : Discrete ScalingMode
ScalingMode-discrete = hlevel

unfoldable pub ColorMode-discrete : Discrete ColorMode
ColorMode-discrete = hlevel

abbrev pub print_color_mode : ColorMode
print_color_mode = monochrome

abbrev pub settings_manifest_version : ℕ
settings_manifest_version = 3

pub record FileSelectionInput : Type 0 where
  pub file_id : String
  pub page_ranges : Option (List ℕ)
  pub copies : ℕ
  pub duplex : DuplexMode
  pub orientation : Orientation

pub record PrintSettingsInput : Type 0 where
  pub file_order : List String
  pub file_selections : List FileSelectionInput
  pub paper_size : PaperSize
  pub scaling : ScalingMode
  pub collate : Bool

pub record SelectableFile : Type 0 where
  pub id : String
  pub page_count : ℕ
  pub processing_revision : ℕ
  pub content_sha256 : String

pub record PrinterCapabilities : Type 0 where
  pub version : ℕ
  pub paper_sizes : List PaperSize
  pub color_modes : List ColorMode
  pub duplex_modes : List DuplexMode
  pub scaling_modes : List ScalingMode
  pub orientations : List Orientation
  pub max_copies : ℕ

pub record PrintSettingsLimits : Type 0 where
  pub max_copies : ℕ
  pub max_selected_pages : ℕ
  pub max_printed_sides : ℕ

pub record NormalizePrintSettingsContext : Type 0 where
  pub files : List SelectableFile
  pub capabilities : PrinterCapabilities
  pub limits : PrintSettingsLimits

pub record NormalizedFileSelection : Type 0 where
  pub file_id : String
  pub position : ℕ
  pub page_count : ℕ
  pub processing_revision : ℕ
  pub content_sha256 : String
  pub page_ranges : List PageRange
  pub page_range_text : List ℕ
  pub selected_pages : ℕ
  pub copies : ℕ
  pub duplex : DuplexMode
  pub orientation : Orientation
  pub printed_sides_per_copy : ℕ
  pub physical_sheets_per_copy : ℕ
  pub printed_sides : ℕ
  pub physical_sheets : ℕ

pub record NormalizedPrintSettings : Type 0 where
  pub paper_size : PaperSize
  pub scaling : ScalingMode
  pub collate : Bool
  pub color_mode : ColorMode
  pub capability_version : ℕ
  pub files : List NormalizedFileSelection
  pub selected_pages : ℕ
  pub printed_sides : ℕ
  pub physical_sheets : ℕ

pub record SheetUsage : Type 0 where
  pub printed_sides_per_copy : ℕ
  pub physical_sheets_per_copy : ℕ

-- `Math.ceil(n / 2)`.
abbrev pub half_up : ℕ → ℕ
half_up n = (n + 1) / 2

-- `physicalSheetsPerCopy`.
pub sheets_of : DuplexMode → ℕ → ℕ
sheets_of simplex printed_sides = printed_sides
sheets_of _ printed_sides = half_up printed_sides

pub calculate_sheet_usage : ℕ → DuplexMode → SheetUsage
unfolding sheets_of
calculate_sheet_usage selected_pages duplex = record {
  printed_sides_per_copy = selected_pages;
  physical_sheets_per_copy = sheets_of duplex selected_pages;
}

abbrev assert_supported : Bool → Result PrintSettingsErrorCode (Unit {0})
assert_supported supported = require supported unsupported_print_setting

-- The checks of one document against the device.
pub assert_printable :
    PrinterCapabilities → ℕ → FileSelectionInput → Result PrintSettingsErrorCode (Unit {0})
unfolding DuplexMode-discrete Orientation-discrete
assert_printable capabilities max_copies selection = do
  assert_supported (includes DuplexMode-discrete capabilities.duplex_modes selection.duplex)
  assert_supported (includes Orientation-discrete capabilities.orientations selection.orientation)
  refuse_if
      (not (leb selection.copies max_safe_integer)
        || ltb selection.copies 1
        || ltb max_copies selection.copies)
      copies_out_of_range

-- The object that the callback of `fileOrder.map` returns.
pub normalized_file :
    String → ℕ → SelectableFile → FileSelectionInput → List PageRange → NormalizedFileSelection
unfolding calculate_sheet_usage
normalized_file file_id index file selection page_ranges =
    let selected_pages = count_selected_pages page_ranges in
    let usage = calculate_sheet_usage selected_pages selection.duplex in
    record {
      file_id = file_id;
      position = index;
      page_count = file.page_count;
      processing_revision = file.processing_revision;
      content_sha256 = file.content_sha256;
      page_ranges = page_ranges;
      page_range_text = format_page_ranges page_ranges;
      selected_pages = selected_pages;
      copies = selection.copies;
      duplex = selection.duplex;
      orientation = selection.orientation;
      printed_sides_per_copy = usage.printed_sides_per_copy;
      physical_sheets_per_copy = usage.physical_sheets_per_copy;
      printed_sides = usage.printed_sides_per_copy * selection.copies;
      physical_sheets = usage.physical_sheets_per_copy * selection.copies;
    }

module _ (capabilities : PrinterCapabilities) (max_copies : ℕ)
    (available : List (String × SelectableFile))
    (selection_by_file : List (String × FileSelectionInput)) where
  pub normalize_file : ℕ → String → Result PrintSettingsErrorCode NormalizedFileSelection
  normalize_file index file_id = do
    file ← or_throw (lookup file_id available) file_order_invalid
    selection ← or_throw (lookup file_id selection_by_file) file_selection_invalid
    assert_printable capabilities max_copies selection
    page_ranges ← parse_page_range_text selection.page_ranges file.page_count
    ok (normalized_file file_id index file selection page_ranges)

  -- The `map` over the order, from the index on.
  pub normalize_files :
      ℕ → List String → Result PrintSettingsErrorCode (List NormalizedFileSelection)
  normalize_files index [] = ok []
  normalize_files index (file_id ∷ file_ids) = normalize_file index file_id >>= λ file.
      normalize_files (suc index) file_ids >>= λ files. ok (file ∷ files)

-- `new Map(files.map((file) => [file.id, file]))`: a later file replaces an earlier one.
pub available_files :
    List (String × SelectableFile) → List SelectableFile → List (String × SelectableFile)
available_files m [] = m
available_files m (file ∷ files) = available_files (insert file.id file m) files

-- `new Set(ids).size`.
pub distinct_ids : List (String × Unit {0}) → List String → List (String × Unit {0})
distinct_ids m [] = m
distinct_ids m (id ∷ ids) = distinct_ids (insert id tt m) ids

-- The loop that fills `selectionByFile`.
pub index_selections :
    List (String × FileSelectionInput)
    → List FileSelectionInput
    → Result PrintSettingsErrorCode (List (String × FileSelectionInput))
index_selections m [] = ok m
index_selections m (selection ∷ selections) =
    let rest = index_selections (insert selection.file_id selection m) selections in
    if is_some (lookup selection.file_id m) then err file_selection_invalid else rest

-- The totals and the limits.
pub total_settings :
    PrintSettingsInput
    → NormalizePrintSettingsContext
    → List NormalizedFileSelection
    → Result PrintSettingsErrorCode NormalizedPrintSettings
total_settings input context files = do
  let selected_pages = sum (map (λ f. f.selected_pages) files)
  refuse_if (ltb selected_pages 1) no_selected_pages
  refuse_if (ltb context.limits.max_selected_pages selected_pages) selected_page_limit_exceeded
  let printed_sides = sum (map (λ f. f.printed_sides) files)
  let physical_sheets = sum (map (λ f. f.physical_sheets) files)
  refuse_if (ltb context.limits.max_printed_sides printed_sides) printed_side_limit_exceeded
  ok (record {
    paper_size = input.paper_size;
    scaling = input.scaling;
    collate = input.collate;
    color_mode = print_color_mode;
    capability_version = context.capabilities.version;
    files = files;
    selected_pages = selected_pages;
    printed_sides = printed_sides;
    physical_sheets = physical_sheets;
  })

-- The checks of the job before any document is looked at.
pub assert_job :
    PrintSettingsInput → NormalizePrintSettingsContext → Result PrintSettingsErrorCode (Unit {0})
unfolding PaperSize-discrete ScalingMode-discrete ColorMode-discrete
assert_job input context = do
  assert_supported (includes PaperSize-discrete context.capabilities.paper_sizes input.paper_size)
  assert_supported (includes ScalingMode-discrete context.capabilities.scaling_modes input.scaling)
  assert_supported (includes ColorMode-discrete context.capabilities.color_modes print_color_mode)
  require (length input.file_order == length (available_files [] context.files)) file_order_invalid
  require (length (distinct_ids [] input.file_order) == length input.file_order) file_order_invalid
  require (length input.file_selections == length input.file_order) file_selection_invalid

pub normalize_print_settings :
    PrintSettingsInput
    → NormalizePrintSettingsContext
    → Result PrintSettingsErrorCode NormalizedPrintSettings
normalize_print_settings input context = do
  assert_job input context
  selection_by_file ← index_selections [] input.file_selections
  files ←
      normalize_files context.capabilities
        (min context.limits.max_copies context.capabilities.max_copies)
        (available_files [] context.files) selection_by_file 0 input.file_order
  total_settings input context files

pub record ManifestFile : Type 0 where
  pub file_id : String
  pub position : ℕ
  pub processing_revision : ℕ
  pub content_sha256 : String
  pub page_count : ℕ
  pub page_ranges : List PageRange
  pub selected_pages : ℕ
  pub copies : ℕ
  pub duplex : DuplexMode
  pub orientation : Orientation

pub record SettingsManifest : Type 0 where
  pub manifest_version : ℕ
  pub color_mode : ColorMode
  pub paper_size : PaperSize
  pub scaling : ScalingMode
  pub collate : Bool
  pub capability_version : ℕ
  pub files : List ManifestFile

pub manifest_file : NormalizedFileSelection → ManifestFile
manifest_file file = record {
  file_id = file.file_id;
  position = file.position;
  processing_revision = file.processing_revision;
  content_sha256 = file.content_sha256;
  page_count = file.page_count;
  page_ranges = file.page_ranges;
  selected_pages = file.selected_pages;
  copies = file.copies;
  duplex = file.duplex;
  orientation = file.orientation;
}

pub build_settings_manifest : NormalizedPrintSettings → SettingsManifest
unfolding manifest_file
build_settings_manifest settings = record {
  manifest_version = settings_manifest_version;
  color_mode = settings.color_mode;
  paper_size = settings.paper_size;
  scaling = settings.scaling;
  collate = settings.collate;
  capability_version = settings.capability_version;
  files = map manifest_file settings.files;
}
