-- ===== src/Domain/Settings/Examples.antt =====
-- One request for two documents, and the theorem on it.
use kiosk_project.Base.{◌≡◌, refl, true, none, some, ◌∷◌, [], codes, ok}
use kiosk_project.Domain.Settings.{
  sheets_of, calculate_sheet_usage, distinct_ids, available_files, total_settings, normalized_file,
  parse_page_range_text, assert_printable, normalize_file, normalize_files, index_selections,
  assert_job, a4, simplex, long_edge, auto, fit, monochrome, PrintSettingsInput,
  NormalizePrintSettingsContext, NormalizedPrintSettings, normalize_print_settings,
}
use kiosk_project.Domain.Settings.Totals.{IsNormal, normalize_print_settings-IsNormal}
use kiosk_project.Base.Sorting.{sort_by, insert_by}
use kiosk_project.Base.Maps.{lookup, insert}
use kiosk_project.Domain.PageRanges.{
  parse_page_range_text, parse_trimmed, trim, skip_spaces, split_commas, split_from, parse_segments,
  parse_segment, read_segment, read_number, read_end, take_digits, drop_digits, merge_page_ranges,
  merge_from, merge_range, starts_first, format_page_ranges, format_range, join_commas, decimal,
  decimal_fuel, count_selected_pages, is_space,
}

abbrev context : NormalizePrintSettingsContext
context = record {
  files =
      record { id = "a"; page_count = 9; processing_revision = 2; content_sha256 = "aa" }
      ∷ record { id = "b"; page_count = 1; processing_revision = 1; content_sha256 = "bb" }
      ∷ [];
  capabilities = record {
    version = 4;
    paper_sizes = a4 ∷ [];
    color_modes = monochrome ∷ [];
    duplex_modes = simplex ∷ long_edge ∷ [];
    scaling_modes = fit ∷ [];
    orientations = auto ∷ [];
    max_copies = 20;
  };
  limits = record { max_copies = 10; max_selected_pages = 100; max_printed_sides = 200 };
}

abbrev request : PrintSettingsInput
request = record {
  file_order = "b" ∷ "a" ∷ [];
  file_selections =
      record {
        file_id = "a";
        page_ranges = some (codes "4,2-3");
        copies = 2;
        duplex = long_edge;
        orientation = auto;
      }
      ∷ record {
        file_id = "b";
        page_ranges = none;
        copies = 1;
        duplex = simplex;
        orientation = auto;
      }
      ∷ [];
  paper_size = a4;
  scaling = fit;
  collate = true;
}

abbrev normal : NormalizedPrintSettings
normal = record {
  paper_size = a4;
  scaling = fit;
  collate = true;
  color_mode = monochrome;
  capability_version = 4;
  files =
      record {
        file_id = "b";
        position = 0;
        page_count = 1;
        processing_revision = 1;
        content_sha256 = "bb";
        page_ranges = (1, 1) ∷ [];
        page_range_text = codes "1";
        selected_pages = 1;
        copies = 1;
        duplex = simplex;
        orientation = auto;
        printed_sides_per_copy = 1;
        physical_sheets_per_copy = 1;
        printed_sides = 1;
        physical_sheets = 1;
      }
      ∷ record {
        file_id = "a";
        position = 1;
        page_count = 9;
        processing_revision = 2;
        content_sha256 = "aa";
        page_ranges = (2, 4) ∷ [];
        page_range_text = codes "2-4";
        selected_pages = 3;
        copies = 2;
        duplex = long_edge;
        orientation = auto;
        printed_sides_per_copy = 3;
        physical_sheets_per_copy = 2;
        printed_sides = 6;
        physical_sheets = 4;
      }
      ∷ [];
  selected_pages = 4;
  printed_sides = 7;
  physical_sheets = 5;
}

two_documents : normalize_print_settings request context ≡ ok normal
unfolding normalize_print_settings assert_job index_selections normalize_files normalize_file
    assert_printable normalized_file total_settings available_files distinct_ids
    calculate_sheet_usage sheets_of lookup insert parse_page_range_text parse_trimmed trim
    skip_spaces split_commas split_from parse_segments parse_segment read_segment read_number
    read_end take_digits drop_digits merge_page_ranges merge_from merge_range starts_first
    format_page_ranges format_range join_commas decimal decimal_fuel count_selected_pages sort_by
    insert_by is_space
two_documents = refl

normalize_print_settings-IsNormal_example : IsNormal request context normal
normalize_print_settings-IsNormal_example =
    normalize_print_settings-IsNormal request context normal two_documents
