-- ===== src/Domain/PageRanges/Merge.antt =====
-- Merging keeps the pages, and leaves ranges that are in order and apart.
use kiosk_project.Base.{
  ℕ, ◌+◌, ◌≤◌, ◌<◌, ◌≡◌, refl, ◌∙◌, Bool, true, false, ◌||◌, ◌&&◌, List, [], ◌∷◌, ◌++◌, reverse,
  All, any, leb, arith,
}
use mathlib.Core.List.{reverse-cons, append_assoc}
use kiosk_project.Base.Sorting.{sort_by, any-sort_by, All-sort_by, IsOrdered, IsOrdered-sort_by}
use kiosk_project.Domain.PageRanges.{
  PageRange, starts_first, merge_range, merge_from, merge_page_ranges,
}

abbrev pub covers : ℕ → List PageRange → Bool
covers page = any (λ r. leb r.0 page && leb page r.1)

-- Ranges that do not end before they start.
abbrev pub AllValid : List PageRange → Type 0
AllValid = All (λ r. r.0 ≤ r.1)

-- Each range is valid, and ends at least one page before the next one starts.
abbrev pub IsApart : List PageRange → Type 0
IsApart [] = Unit
IsApart (r ∷ []) = r.0 ≤ r.1
IsApart (r ∷ s ∷ rs) = (r.0 ≤ r.1) × (r.1 + 1 < s.0) × IsApart (s ∷ rs)

-- The same, last range first.
abbrev IsApartBack : List PageRange → Type 0
IsApartBack [] = Unit
IsApartBack (s ∷ []) = s.0 ≤ s.1
IsApartBack (s ∷ r ∷ rs) = (s.0 ≤ s.1) × (r.1 + 1 < s.0) × IsApartBack (r ∷ rs)

starts_first-total : (r s : PageRange) → starts_first r s ≡ false → starts_first s r ≡ true
unfolding starts_first
starts_first-total r s h = ground arith

starts_first_trans :
    (r s t : PageRange)
    → starts_first r s ≡ true
    → starts_first s t ≡ true
    → starts_first r t ≡ true
unfolding starts_first
starts_first_trans r s t h k = ground arith

starts_first-le : (r s : PageRange) → starts_first r s ≡ true → r.0 ≤ s.0
unfolding starts_first
starts_first-le r s h = ground arith

merge_range-covers :
    (page : ℕ) (merged : List PageRange) (r : PageRange)
    → r.0 ≤ r.1
    → IsApartBack merged
    → All (λ m. m.0 ≤ r.0) merged
    → covers page (merge_range merged r) ≡ (covers page (r ∷ merged))
unfolding merge_range
merge_range-covers page [] r v a h = refl
merge_range-covers page (m ∷ []) r v a h = ground arith
merge_range-covers page (m ∷ n ∷ merged) r v a h = ground arith

merge_range-IsApartBack :
    (merged : List PageRange) (r : PageRange)
    → r.0 ≤ r.1
    → IsApartBack merged
    → All (λ m. m.0 ≤ r.0) merged
    → IsApartBack (merge_range merged r)
unfolding merge_range
merge_range-IsApartBack [] r v a h = v
merge_range-IsApartBack (m ∷ []) r v a h = ground arith
merge_range-IsApartBack (m ∷ n ∷ merged) r v a h = ground arith

merge_range-starts :
    (merged : List PageRange) (r : PageRange) (k : ℕ)
    → All (λ m. m.0 ≤ k) merged
    → r.0 ≤ k
    → All (λ m. m.0 ≤ k) (merge_range merged r)
unfolding merge_range
merge_range-starts [] r k a h = (h, tt)
merge_range-starts (m ∷ merged) r k a h = ground arith

-- The ranges still to come start no earlier than those already merged.
abbrev Follow : List PageRange → List PageRange → Type 0
Follow merged = All (λ r. All (λ m. m.0 ≤ r.0) merged)

Follow-merge_range :
    (merged rs : List PageRange) (r : PageRange)
    → All (λ s. starts_first r s ≡ true) rs
    → Follow merged rs
    → Follow (merge_range merged r) rs
Follow-merge_range merged [] r o f = tt
Follow-merge_range merged (s ∷ rs) r o f = (
  merge_range-starts merged r s.0 f.0 (starts_first-le r s o.0),
  Follow-merge_range merged rs r o.1 f.1,
)

any-append :
    {A : Type 0} (p : A → Bool) (xs ys : List A) → any p (xs ++ ys) ≡ (any p xs || any p ys)
any-append p [] ys = refl
any-append p (x ∷ xs) ys = ground (arith, any-append p xs ys)

any-reverse : {A : Type 0} (p : A → Bool) (xs : List A) → any p (reverse xs) ≡ any p xs
any-reverse p [] = refl
any-reverse p (x ∷ xs) =
    rw (reverse-cons x xs, any-append p (reverse xs) (x ∷ []), any-reverse p xs)
      (or_swap (any p xs) (p x))
  where
    or_swap : (a b : Bool) → (a || (b || false)) ≡ (b || a)
    or_swap a b = ground arith

merge_from-covers :
    (page : ℕ) (merged rs : List PageRange)
    → IsApartBack merged
    → AllValid rs
    → IsOrdered starts_first rs
    → Follow merged rs
    → covers page (merge_from merged rs) ≡ (covers page merged || covers page rs)
unfolding merge_from
merge_from-covers page merged [] a v o f = any-reverse _ merged ∙ or_false (covers page merged)
  where
    or_false : (b : Bool) → b ≡ (b || false)
    or_false b = ground arith
merge_from-covers page merged (r ∷ rs) a v o f =
    merge_from-covers page (merge_range merged r) rs (merge_range-IsApartBack merged r v.0 a f.0)
      v.1 o.1 (Follow-merge_range merged rs r o.0 f.1)
    ∙ rw (merge_range-covers page merged r v.0 a f.0)
        (regroup (leb r.0 page && leb page r.1) (covers page merged) (covers page rs))
  where
    regroup : (a b c : Bool) → (a || b || c) ≡ (b || (a || c))
    regroup a b c = ground arith

IsApart-onto :
    (s : PageRange) (back front : List PageRange)
    → IsApartBack (s ∷ back)
    → IsApart (s ∷ front)
    → IsApart (reverse back ++ s ∷ front)
IsApart-onto s [] front b a = a
IsApart-onto s (r ∷ back) front b a =
    rw (reverse-cons r back, append_assoc (reverse back) (r ∷ []) (s ∷ front))
      (IsApart-onto r back (s ∷ front) b.2 (first_valid r back b.2, b.1, a))
  where
    first_valid : (r : PageRange) (back : List PageRange) → IsApartBack (r ∷ back) → r.0 ≤ r.1
    first_valid r [] b = b
    first_valid r (q ∷ back) b = b.0

IsApart-reverse : (back : List PageRange) → IsApartBack back → IsApart (reverse back)
IsApart-reverse [] b = tt
IsApart-reverse (s ∷ back) b =
    rw (reverse-cons s back) (IsApart-onto s back [] b (first_valid s back b))
  where
    first_valid : (r : PageRange) (back : List PageRange) → IsApartBack (r ∷ back) → r.0 ≤ r.1
    first_valid r [] b = b
    first_valid r (q ∷ back) b = b.0

merge_from-IsApart :
    (merged rs : List PageRange)
    → IsApartBack merged
    → AllValid rs
    → IsOrdered starts_first rs
    → Follow merged rs
    → IsApart (merge_from merged rs)
unfolding merge_from
merge_from-IsApart merged [] a v o f = IsApart-reverse merged a
merge_from-IsApart merged (r ∷ rs) a v o f =
    merge_from-IsApart (merge_range merged r) rs (merge_range-IsApartBack merged r v.0 a f.0) v.1
      o.1 (Follow-merge_range merged rs r o.0 f.1)

Follow-nil : (rs : List PageRange) → Follow [] rs
Follow-nil [] = tt
Follow-nil (r ∷ rs) = (tt, Follow-nil rs)

-- Merging valid ranges, in any order and with any overlap, covers exactly the pages that the given
-- ranges cover.
pub covers-merge_page_ranges :
    (page : ℕ) (ranges : List PageRange)
    → AllValid ranges
    → covers page (merge_page_ranges ranges) ≡ covers page ranges
unfolding merge_page_ranges
covers-merge_page_ranges page ranges v =
    merge_from-covers page [] (sort_by starts_first ranges) tt (All-sort_by starts_first _ ranges v)
      (IsOrdered-sort_by starts_first starts_first-total starts_first_trans ranges) (Follow-nil _)
    ∙ any-sort_by starts_first _ ranges

-- Merging valid ranges leaves valid ranges in ascending order with at least one page between any
-- two neighbours, so nothing overlaps and nothing adjacent is left apart.
pub merge_page_ranges-IsApart :
    (ranges : List PageRange) → AllValid ranges → IsApart (merge_page_ranges ranges)
unfolding merge_page_ranges
merge_page_ranges-IsApart ranges v =
    merge_from-IsApart [] (sort_by starts_first ranges) tt (All-sort_by starts_first _ ranges v)
      (IsOrdered-sort_by starts_first starts_first-total starts_first_trans ranges) (Follow-nil _)
