-- ===== src/Domain/PageRanges/Examples.antt =====
-- Concrete texts for the page ranges of packages/domain/src/print-settings.ts.
use kiosk_project.Base.{◌≡◌, refl, some, List, ◌∷◌, [], codes, ok, err, arith}
use kiosk_project.Base.Sorting.{sort_by, insert_by}
use kiosk_project.Domain.PageRanges.{
  read_end, read_number, read_segment, split_commas, trim, decimal, sort_by, PageRange,
  parse_page_range_text, merge_page_ranges, format_page_ranges, count_selected_pages,
  parse_segments, page_range_invalid,
}
use kiosk_project.Domain.PageRanges.Pages.{count_covered, count-merge_page_ranges}
use kiosk_project.Domain.PageRanges.RoundTrip.{parse-format_page_ranges}
use kiosk_project.Domain.PageRanges.Sound.{IsSelection, parse_page_range_text-IsSelection}

abbrev overlapping : List PageRange
overlapping = (5, 7) ∷ (1, 2) ∷ (3, 3) ∷ (6, 9) ∷ []

abbrev canonical : List PageRange
canonical = (1, 3) ∷ (5, 9) ∷ []

merged : merge_page_ranges overlapping ≡ canonical
unfolding merge_page_ranges sort_by insert_by
merged = refl

typed : parse_page_range_text (some (codes " 5-7, 1-2,3 ,6 - 9")) 10 ≡ ok canonical
unfolding parse_page_range_text sort_by insert_by trim split_commas parse_segments read_segment
    read_number read_end merge_page_ranges
typed = refl

backwards : parse_page_range_text (some (codes "7-5")) 10 ≡ err page_range_invalid
unfolding parse_page_range_text trim split_commas parse_segments read_segment read_number read_end
backwards = refl

count-merge_page_ranges_example :
    count_selected_pages (merge_page_ranges overlapping) ≡ count_covered 10 overlapping
count-merge_page_ranges_example =
    count-merge_page_ranges 10 overlapping
      (omega arith, (omega arith, (omega arith, (omega arith, tt))))
      (omega arith, (omega arith, (omega arith, (omega arith, tt))))

parse-format_page_ranges_example :
    parse_page_range_text (some (format_page_ranges canonical)) 10 ≡ ok canonical
unfolding format_page_ranges decimal
parse-format_page_ranges_example =
    parse-format_page_ranges 10 (1, 3) ((5, 9) ∷ []) (omega arith)
      ((omega arith, omega arith, omega arith), ((omega arith, omega arith, omega arith), tt))
      (omega arith) (omega arith) (omega arith)

parse_page_range_text-IsSelection_example : IsSelection 10 canonical
parse_page_range_text-IsSelection_example =
    parse_page_range_text-IsSelection (some (codes " 5-7, 1-2,3 ,6 - 9")) 10 canonical typed
