-- ===== src/Domain/PageRanges/RoundTrip.antt =====
-- The whole text: `parsePageRangeText` after `formatPageRanges`.
use mathlib.Core.List.{append_assoc, append-nil, reverse-cons, reverse-reverse}
use kiosk_project.Base.{
  ℕ, suc, ◌≤◌, ◌<◌, ◌≡◌, refl, ◌∙◌, ap, false, List, [], ◌∷◌, ◌++◌, reverse, map, All, arith, ◌==◌,
  length, length-append, some, ok, Bool-cases, inl, inr,
}
use kiosk_project.Domain.PageRanges.{
  PageRange, decimal, skip_spaces, is_space, trim, split_from, split_commas, join_commas,
  format_range, format_page_ranges, parse_segments, parse_trimmed, parse_page_range_text,
  max_page_range_text_length, max_page_range_segments, merge_page_ranges,
}
use kiosk_project.Domain.PageRanges.Merge.{IsApart}
use kiosk_project.Domain.PageRanges.Pages.{merge_page_ranges_apart}
use kiosk_project.Domain.PageRanges.Parse.{
  AllDigits, below_million, decimal-digits, parse_segment-format_range,
}

abbrev pub NoSpaces : List ℕ → Type 0
NoSpaces = All (λ c. is_space c ≡ false)

abbrev NoCommas : List ℕ → Type 0
NoCommas = All (λ c. (c == b',') ≡ false)

pub All-append : (P : ℕ → Type 0) (xs ys : List ℕ) → All P xs → All P ys → All P (xs ++ ys)
All-append P [] ys a b = b
All-append P (x ∷ xs) ys a b = (a.0, All-append P xs ys a.1 b)

All-reverse : (P : ℕ → Type 0) (xs : List ℕ) → All P xs → All P (reverse xs)
All-reverse P [] a = tt
All-reverse P (x ∷ xs) a =
    rw (reverse-cons x xs) (All-append P (reverse xs) (x ∷ []) (All-reverse P xs a.1) (a.0, tt))

skip_spaces-none : (xs : List ℕ) → NoSpaces xs → skip_spaces xs ≡ xs
unfolding skip_spaces
skip_spaces-none [] a = refl
skip_spaces-none (x ∷ xs) a = rw a.0

pub trim-none : (xs : List ℕ) → NoSpaces xs → trim xs ≡ xs
unfolding trim
trim-none xs a =
    rw (skip_spaces-none xs a, skip_spaces-none (reverse xs) (All-reverse _ xs a))
      (reverse-reverse xs)

split_from-last :
    (seg text : List ℕ) → NoCommas text → split_from seg text ≡ (reverse seg ++ text) ∷ []
unfolding split_from
split_from-last seg [] a = rw (append-nil (reverse seg))
split_from-last seg (c ∷ text) a = rw a.0 (
    split_from-last (c ∷ seg) text a.1
    ∙ rw (reverse-cons c seg, append_assoc (reverse seg) (c ∷ []) text))

split_from-comma :
    (seg text rest : List ℕ)
    → NoCommas text
    → split_from seg (text ++ b',' ∷ rest) ≡ (reverse seg ++ text) ∷ split_from [] rest
unfolding split_from
split_from-comma seg [] rest a = rw (append-nil (reverse seg))
split_from-comma seg (c ∷ text) rest a = rw a.0 (
    split_from-comma (c ∷ seg) text rest a.1
    ∙ rw (reverse-cons c seg, append_assoc (reverse seg) (c ∷ []) text))

-- Joining segments without commas and splitting again gives the segments.
split_commas-join :
    (x : List ℕ) (xs : List (List ℕ))
    → NoCommas x
    → All NoCommas xs
    → split_commas (join_commas (x ∷ xs)) ≡ x ∷ xs
unfolding split_commas join_commas
split_commas-join x [] a b = split_from-last [] x a
split_commas-join x (y ∷ ys) a b =
    split_from-comma [] x (join_commas (y ∷ ys)) a ∙ ap (◌∷◌ x) (split_commas-join y ys b.0 b.1)

digits_plain : (xs : List ℕ) → AllDigits xs → NoSpaces xs × NoCommas xs
unfolding is_space
digits_plain [] a = (tt, tt)
digits_plain (x ∷ xs) a = let (s, c) = digits_plain xs a.1 in ((ground arith, s), (ground arith, c))

decimal_plain : (n : ℕ) → NoSpaces (decimal n) × NoCommas (decimal n)
decimal_plain n = digits_plain (decimal n) (decimal-digits n)

format_range_plain : (r : PageRange) → NoSpaces (format_range r) × NoCommas (format_range r)
unfolding format_range is_space
format_range_plain (a, b) = elim (Bool-cases (a == b)) [
  | inl e ↦ rw e (decimal_plain a)
  | inr e ↦
      let (sa, ca) = decimal_plain a in
      let (sb, cb) = decimal_plain b in
      rw e (
        All-append _ (decimal a) (b'-' ∷ decimal b) sa (refl, sb),
        All-append _ (decimal a) (b'-' ∷ decimal b) ca (refl, cb),
      )
]

formats-NoCommas : (rs : List PageRange) → All NoCommas (map format_range rs)
formats-NoCommas [] = tt
formats-NoCommas (r ∷ rs) = ((format_range_plain r).1, formats-NoCommas rs)

join-NoSpaces :
    (r : PageRange) (rs : List PageRange) → NoSpaces (join_commas (map format_range (r ∷ rs)))
unfolding join_commas is_space
join-NoSpaces r [] = (format_range_plain r).0
join-NoSpaces r (s ∷ rs) =
    All-append _ (format_range r) _ (format_range_plain r).0 (refl, join-NoSpaces s rs)

-- Each range lies in the document.
abbrev pub InDocument : ℕ → List PageRange → Type 0
InDocument n = All (λ r. (1 ≤ r.0) × (r.0 ≤ r.1) × (r.1 ≤ n))

parse_segments-format :
    (n : ℕ) (rs : List PageRange)
    → n < 1000000
    → InDocument n rs
    → parse_segments n (map format_range rs) ≡ ok rs
unfolding parse_segments
parse_segments-format n [] h d = refl
parse_segments-format n (r ∷ rs) h d =
    rw (parse_segment-format_range n r h d.0.0 d.0.1 d.0.2, parse_segments-format n rs h d.1)

length-map-format : (rs : List PageRange) → length (map format_range rs) ≡ length rs
length-map-format [] = refl
length-map-format (r ∷ rs) = ap suc (length-map-format rs)

parse_trimmed-ne :
    (n : ℕ) (text : List ℕ) (rs : List PageRange)
    → 1 ≤ length text
    → length text ≤ max_page_range_text_length
    → length (split_commas text) ≤ max_page_range_segments
    → parse_segments n (split_commas text) ≡ ok rs
    → parse_trimmed n text ≡ ok (merge_page_ranges rs)
unfolding parse_trimmed
parse_trimmed-ne n [] rs h k s e = absurd (omega arith)
parse_trimmed-ne n (c ∷ cs) rs h k s e = rw e (ground arith)

format_range_some : (r : PageRange) → r.0 < 1000000 → 1 ≤ length (format_range r)
unfolding format_range
format_range_some (a, b) h = elim (Bool-cases (a == b)) [
  | inl e ↦ rw e ((below_million a h).0)
  | inr e ↦ rw (e, length-append (decimal a) (b'-' ∷ decimal b)) (omega (arith, below_million a h))
]

join_some :
    (r : PageRange) (rs : List PageRange)
    → r.0 < 1000000
    → 1 ≤ length (join_commas (map format_range (r ∷ rs)))
unfolding join_commas
join_some r [] h = format_range_some r h
join_some r (s ∷ rs) h =
    rw (length-append (format_range r) (b',' ∷ join_commas (map format_range (s ∷ rs))))
      (omega (arith, format_range_some r h))

-- Printing canonical ranges and parsing the text gives the same ranges: for a document of fewer
-- than a million pages, and ranges in it that are in order and apart, at least one and at most 50,
-- whose text has at most 200 characters.
pub parse-format_page_ranges :
    (n : ℕ) (r : PageRange) (rs : List PageRange)
    → n < 1000000
    → InDocument n (r ∷ rs)
    → IsApart (r ∷ rs)
    → length (r ∷ rs) ≤ max_page_range_segments
    → length (format_page_ranges (r ∷ rs)) ≤ max_page_range_text_length
    → parse_page_range_text (some (format_page_ranges (r ∷ rs))) n ≡ ok (r ∷ rs)
unfolding parse_page_range_text format_page_ranges
parse-format_page_ranges n r rs h d a few short =
    let text : List ℕ = join_commas (map format_range (r ∷ rs)) in
    let split : split_commas text ≡ map format_range (r ∷ rs) =
      split_commas-join (format_range r) (map format_range rs) (format_range_plain r).1
        (formats-NoCommas rs) in
    let parsed : parse_trimmed n text ≡ ok (r ∷ rs) =
      parse_trimmed-ne n text (r ∷ rs) (join_some r rs (omega arith)) short
        (rw (split, length-map-format rs) few) (rw split (parse_segments-format n (r ∷ rs) h d))
      ∙ ap ok (merge_page_ranges_apart (r ∷ rs) a) in
    rw (trim-none text (join-NoSpaces r rs)) (ground (arith, parsed))
