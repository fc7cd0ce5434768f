-- ===== src/Domain/PageRanges/Pages.antt =====
-- How many pages merged ranges select, and that merging twice changes nothing.
use kiosk_project.Base.{
  ℕ, zero, suc, ◌+◌, ◌-◌, ◌≤◌, ◌<◌, ◌≡◌, refl, ◌∙◌, sym, true, false, List, [], ◌∷◌, ◌++◌, reverse,
  All, leb, min, arith, if◌then◌else◌,
}
use mathlib.Core.List.{append-nil, reverse-cons, append_assoc}
use kiosk_project.Base.Sorting.{sort_by, All-sort_by, IsOrdered, sort_by-IsOrdered}
use kiosk_project.Domain.PageRanges.{
  PageRange, starts_first, merge_range, merge_from, merge_page_ranges, count_selected_pages,
}
use kiosk_project.Domain.PageRanges.Merge.{
  covers, AllValid, IsApart, covers-merge_page_ranges, merge_page_ranges-IsApart,
}

-- How many of the pages below `n` the ranges cover.
abbrev pub count_covered : ℕ → List PageRange → ℕ
count_covered zero ranges = 0
count_covered (suc n) ranges = (if covers n ranges then 1 else 0) + count_covered n ranges

-- No page from `n` on is in a range.
abbrev pub AllBelow : ℕ → List PageRange → Type 0
AllBelow n = All (λ r. r.1 < n)

IsApart-tail : (r : PageRange) (rs : List PageRange) → IsApart (r ∷ rs) → IsApart rs
IsApart-tail r [] a = tt
IsApart-tail r (s ∷ rs) a = a.2

IsApart-head : (r : PageRange) (rs : List PageRange) → IsApart (r ∷ rs) → r.0 ≤ r.1
IsApart-head r [] a = a
IsApart-head r (s ∷ rs) a = a.0

covers_after :
    (r : PageRange) (rs : List PageRange) (page : ℕ)
    → IsApart (r ∷ rs)
    → covers page rs ≡ true
    → r.1 < page
covers_after r [] page a h = cc
covers_after r (s ∷ rs) page a h = ground (arith, covers_after s rs page a.2, IsApart-head s rs a.2)

count_one : (n : ℕ) (r : PageRange) → r.0 ≤ r.1 → count_covered n (r ∷ []) ≡ min n (r.1 + 1) - r.0
count_one zero r h = omega arith
count_one (suc n) r h = ground (arith, count_one n r h)

count_cons :
    (n : ℕ) (r : PageRange) (rs : List PageRange)
    → IsApart (r ∷ rs)
    → count_covered n (r ∷ rs) ≡ count_covered n (r ∷ []) + count_covered n rs
count_cons zero r rs a = omega arith
count_cons (suc n) r rs a = ground (arith, covers_after r rs n a, count_cons n r rs a)

count_nil : (n : ℕ) → count_covered n [] ≡ 0
count_nil zero = refl
count_nil (suc n) = omega (arith, count_nil n)

pub count_apart :
    (n : ℕ) (rs : List PageRange)
    → IsApart rs
    → AllBelow n rs
    → count_selected_pages rs ≡ count_covered n rs
unfolding count_selected_pages
count_apart n [] a b = sym (count_nil n)
count_apart n (r ∷ rs) a b = omega (
  arith,
  count_cons n r rs a,
  count_one n r (IsApart-head r rs a),
  count_apart n rs (IsApart-tail r rs a) b.1,
)

AllBelow-reverse :
    (n : ℕ) (rs ys : List PageRange) → AllBelow n rs → AllBelow n ys → AllBelow n (reverse rs ++ ys)
AllBelow-reverse n [] ys a b = b
AllBelow-reverse n (r ∷ rs) ys a b =
    rw (reverse-cons r rs, append_assoc (reverse rs) (r ∷ []) ys)
      (AllBelow-reverse n rs (r ∷ ys) a.1 (a.0, b))

AllBelow-merge_range :
    (n : ℕ) (merged : List PageRange) (r : PageRange)
    → AllBelow n merged
    → r.1 < n
    → AllBelow n (merge_range merged r)
unfolding merge_range
AllBelow-merge_range n [] r a h = (h, tt)
AllBelow-merge_range n (m ∷ merged) r a h = ground arith

AllBelow-merge_from :
    (n : ℕ) (merged rs : List PageRange)
    → AllBelow n merged
    → AllBelow n rs
    → AllBelow n (merge_from merged rs)
unfolding merge_from
AllBelow-merge_from n merged [] a b =
    rw (← append-nil (reverse merged)) (AllBelow-reverse n merged [] a tt)
AllBelow-merge_from n merged (r ∷ rs) a b =
    AllBelow-merge_from n (merge_range merged r) rs (AllBelow-merge_range n merged r a b.0) b.1

-- Merging invents no page beyond the last one asked for.
pub AllBelow-merge_page_ranges :
    (n : ℕ) (ranges : List PageRange) → AllBelow n ranges → AllBelow n (merge_page_ranges ranges)
unfolding merge_page_ranges
AllBelow-merge_page_ranges n ranges b =
    AllBelow-merge_from n [] (sort_by starts_first ranges) tt (All-sort_by starts_first _ ranges b)

count_same :
    (n : ℕ) (rs ss : List PageRange)
    → ((page : ℕ) → covers page rs ≡ covers page ss)
    → count_covered n rs ≡ count_covered n ss
count_same zero rs ss h = refl
count_same (suc n) rs ss h = rw (h n, count_same n rs ss h)

-- A customer pays for every distinct page once: the selected pages of merged ranges are as many as
-- the pages below `n` that the given ranges cover, however these overlap or repeat, for valid
-- ranges that end below `n`.
pub count-merge_page_ranges :
    (n : ℕ) (ranges : List PageRange)
    → AllValid ranges
    → AllBelow n ranges
    → count_selected_pages (merge_page_ranges ranges) ≡ count_covered n ranges
count-merge_page_ranges n ranges v b =
    count_apart n (merge_page_ranges ranges) (merge_page_ranges-IsApart ranges v)
      (AllBelow-merge_page_ranges n ranges b)
    ∙ count_same n (merge_page_ranges ranges) ranges
        (λ page. covers-merge_page_ranges page ranges v)

IsApart-starts :
    (r : PageRange) (rs : List PageRange) → IsApart (r ∷ rs) → All (λ s. starts_first r s ≡ true) rs
unfolding starts_first
IsApart-starts r [] a = tt
IsApart-starts r (s ∷ rs) a = (ground arith, further rs (IsApart-starts s rs a.2))
  where
    further :
        (ts : List PageRange)
        → All (λ t. starts_first s t ≡ true) ts
        → All (λ t. starts_first r t ≡ true) ts
    further [] h = tt
    further (t ∷ ts) h = (ground (arith, h.0, a), further ts h.1)

IsApart-IsOrdered : (rs : List PageRange) → IsApart rs → IsOrdered starts_first rs
IsApart-IsOrdered [] a = tt
IsApart-IsOrdered (r ∷ rs) a = (IsApart-starts r rs a, IsApart-IsOrdered rs (IsApart-tail r rs a))

merge_from-apart :
    (s : PageRange) (back rs : List PageRange)
    → IsApart (s ∷ rs)
    → merge_from (s ∷ back) rs ≡ reverse back ++ s ∷ rs
unfolding merge_from
merge_from-apart s back [] a = reverse-cons s back
merge_from-apart s back (r ∷ rs) a =
    let late : leb r.0 (s.1 + 1) ≡ false = ground arith in
    rw (late, merge_range)
      (merge_from-apart r (s ∷ back) rs a.2
        ∙ rw (reverse-cons s back) (append_assoc (reverse back) (s ∷ []) (r ∷ rs)))

-- Ranges that are in order and apart are left as they are, so merging twice is merging once.
pub merge_page_ranges_apart :
    (ranges : List PageRange) → IsApart ranges → merge_page_ranges ranges ≡ ranges
unfolding merge_page_ranges
merge_page_ranges_apart [] a = rw (sort_by-IsOrdered starts_first [] tt)
merge_page_ranges_apart (r ∷ rs) a =
    rw (sort_by-IsOrdered starts_first (r ∷ rs) (IsApart-IsOrdered (r ∷ rs) a))
      (merge_from-apart r [] rs a)
