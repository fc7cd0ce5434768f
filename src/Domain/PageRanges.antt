-- ===== src/Domain/PageRanges.antt =====
-- packages/domain/src/print-settings.ts, lines 29 to 35 and 171 to 235: page ranges. A page count
-- is a natural number (the source refuses other numbers as it refuses 0), and a text is a list of
-- UTF-16 code units.
pub mod Merge
pub mod Pages
pub mod Parse
pub mod RoundTrip
pub mod Sound
pub mod Examples
use kiosk_project.Base.{
  ℕ, zero, suc, ◌+◌, ◌-◌, ◌*◌, ◌/◌, ◌%◌, max, Bool, true, false, not, ◌&&◌, ◌||◌, Option, none,
  some, List, [], ◌∷◌, ◌++◌, map, if◌then◌else◌, ◌==◌, leb, ltb, in_range, is_digit, default_to,
  length, reverse, foldl, Result, ok, err, ◌>>=◌, ◌>>◌, refuse_if, require, or_throw, String, sum,
}
use kiosk_project.Base.Numbers.{max_safe_integer}
use kiosk_project.Base.Sorting.{sort_by}

abbrev pub max_page_range_text_length : ℕ
max_page_range_text_length = 200

abbrev pub max_page_range_segments : ℕ
max_page_range_segments = 50

abbrev pub PageRange : Type 0
PageRange = ℕ × ℕ

-- The codes of `PrintSettingsError`; its details are left out.
pub data PrintSettingsErrorCode : Type 0 where
  file_order_invalid file_selection_invalid page_range_invalid page_range_out_of_bounds
        no_selected_pages copies_out_of_range selected_page_limit_exceeded
        printed_side_limit_exceeded unsupported_print_setting :
      PrintSettingsErrorCode

-- White space of `trim` and of `\s`.
unfoldable pub is_space : ℕ → Bool
is_space c =
    in_range 9 13 c
    || c == 32
    || c == 160
    || c == 0x1680
    || in_range 0x2000 0x200a c
    || in_range 0x2028 0x2029 c
    || c == 0x202f
    || c == 0x205f
    || c == 0x3000
    || c == 0xfeff

unfoldable pub skip_spaces : List ℕ → List ℕ
unfolding is_space
skip_spaces [] = []
skip_spaces (c ∷ cs) = if is_space c then skip_spaces cs else c ∷ cs

unfoldable pub trim : List ℕ → List ℕ
unfolding skip_spaces
trim text = reverse (skip_spaces (reverse (skip_spaces text)))

-- `split(",")`: a text without a comma is one segment.
unfoldable pub split_from : List ℕ → List ℕ → List (List ℕ)
split_from segment [] = reverse segment ∷ []
split_from segment (c ∷ cs) =
    let next = reverse segment ∷ split_from [] cs in
    let longer = split_from (c ∷ segment) cs in if c == b',' then next else longer

unfoldable pub split_commas : List ℕ → List (List ℕ)
unfolding split_from
split_commas = split_from []

-- `Number` of a run of digits.
abbrev pub add_digit : ℕ → ℕ → ℕ
add_digit n c = n * 10 + (c - b'0')

abbrev pub number : List ℕ → ℕ
number = foldl add_digit 0

unfoldable pub take_digits : List ℕ → List ℕ
take_digits [] = []
take_digits (c ∷ cs) = if is_digit c then c ∷ take_digits cs else []

unfoldable pub drop_digits : List ℕ → List ℕ
drop_digits [] = []
drop_digits (c ∷ cs) = if is_digit c then drop_digits cs else c ∷ cs

-- `\s*(\d{1,6})\s*`: digits, spaces and the dash exclude one another, so the longest run is the
-- only one that can match.
unfoldable pub read_number : List ℕ → Option (ℕ × List ℕ)
unfolding skip_spaces take_digits drop_digits
read_number text =
    let rest = skip_spaces text in
    let digits = take_digits rest in
    if leb 1 (length digits) && leb (length digits) 6
    then some (number digits, skip_spaces (drop_digits rest))
    else none

abbrev at_end : Option (ℕ × List ℕ) → Option ℕ
at_end none = none
at_end (some (n, [])) = some n
at_end (some (n, c ∷ rest)) = none

-- `(?:-\s*(\d{1,6})\s*)?$`: the end of the range, which is the start where no dash follows.
unfoldable pub read_end : ℕ → List ℕ → Option ℕ
unfolding read_number
read_end start [] = some start
read_end start (c ∷ cs) = if c == b'-' then at_end (read_number cs) else none

abbrev with_end : Option (ℕ × List ℕ) → Option PageRange
with_end none = none
with_end (some (start, rest)) = elim (read_end start rest) [
  | none ↦ none
  | some end ↦ some (start, end)
]

unfoldable pub read_segment : List ℕ → Option PageRange
read_segment segment = with_end (read_number segment)

-- The body of the loop over the segments.
unfoldable pub parse_segment : ℕ → List ℕ → Result PrintSettingsErrorCode PageRange
parse_segment page_count segment = do
  (start, end) ← or_throw (read_segment segment) page_range_invalid
  refuse_if (not (leb start max_safe_integer) || not (leb end max_safe_integer)) page_range_invalid
  refuse_if (ltb start 1 || ltb end start) page_range_invalid
  refuse_if (ltb page_count end) page_range_out_of_bounds
  ok (start, end)

unfoldable pub parse_segments : ℕ → List (List ℕ) → Result PrintSettingsErrorCode (List PageRange)
unfolding parse_segment
parse_segments page_count [] = ok []
parse_segments page_count (segment ∷ segments) = parse_segment page_count segment >>= λ range.
    parse_segments page_count segments >>= λ ranges. ok (range ∷ ranges)

-- `left[0] - right[0] || left[1] - right[1]` is at most 0.
unfoldable pub starts_first : PageRange → PageRange → Bool
starts_first left right = ltb left.0 right.0 || (left.0 == right.0 && leb left.1 right.1)

-- The loop over the ordered ranges; `merged` is kept last first.
unfoldable pub merge_range : List PageRange → PageRange → List PageRange
merge_range [] range = range ∷ []
merge_range (last ∷ merged) range =
    if leb range.0 (last.1 + 1)
    then (last.0, max last.1 range.1) ∷ merged
    else range ∷ last ∷ merged

unfoldable pub merge_from : List PageRange → List PageRange → List PageRange
unfolding merge_range
merge_from merged [] = reverse merged
merge_from merged (range ∷ ranges) = merge_from (merge_range merged range) ranges

unfoldable pub merge_page_ranges : List PageRange → List PageRange
unfolding merge_from starts_first
merge_page_ranges ranges = merge_from [] (sort_by starts_first ranges)

-- The part of `parsePageRangeText` after the trim.
unfoldable pub parse_trimmed : ℕ → List ℕ → Result PrintSettingsErrorCode (List PageRange)
parse_trimmed page_count [] = ok ((1, page_count) ∷ [])
parse_trimmed page_count (c ∷ cs) = do
  refuse_if (ltb max_page_range_text_length (length (c ∷ cs))) page_range_invalid
  let segments = split_commas (c ∷ cs)
  refuse_if (ltb max_page_range_segments (length segments)) page_range_invalid
  parsed ← parse_segments page_count segments
  ok (merge_page_ranges parsed)

unfoldable pub parse_page_range_text :
    Option (List ℕ) → ℕ → Result PrintSettingsErrorCode (List PageRange)
unfolding parse_trimmed
parse_page_range_text text page_count = do
  refuse_if (not (leb page_count max_safe_integer) || ltb page_count 1) page_range_out_of_bounds
  parse_trimmed page_count (trim (default_to text []))

-- `${n}`, on fuel; `n + 1` is enough.
unfoldable pub decimal_fuel : ℕ → ℕ → List ℕ
decimal_fuel zero n = []
decimal_fuel (suc f) n =
    let more = decimal_fuel f (n / 10) ++ (b'0' + n % 10) ∷ [] in
    if ltb n 10 then (b'0' + n) ∷ [] else more

unfoldable pub decimal : ℕ → List ℕ
unfolding decimal_fuel
decimal n = decimal_fuel (suc n) n

unfoldable pub format_range : PageRange → List ℕ
format_range (start, end) =
    if start == end then decimal start else decimal start ++ b'-' ∷ decimal end

-- `join(",")`.
unfoldable pub join_commas : List (List ℕ) → List ℕ
join_commas [] = []
join_commas (x ∷ []) = x
join_commas (x ∷ y ∷ ys) = x ++ b',' ∷ join_commas (y ∷ ys)

unfoldable pub format_page_ranges : List PageRange → List ℕ
unfolding format_range join_commas
format_page_ranges ranges = join_commas (map format_range ranges)

-- `end - start + 1`, for ranges that do not end before they start.
unfoldable pub count_selected_pages : List PageRange → ℕ
count_selected_pages ranges = sum (map (λ r. r.1 + 1 - r.0) ranges)
