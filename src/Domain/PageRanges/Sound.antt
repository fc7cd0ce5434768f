-- ===== src/Domain/PageRanges/Sound.antt =====
-- Whatever text a customer types: what `parsePageRangeText` accepts.
use native.Mathlib.Decide.{ℕ_discrete}
use mathlib.Core.List.{append_assoc, append-nil, reverse-cons}
use kiosk_project.Base.{
  refuse_if, ℕ, zero, suc, ◌≤◌, ◌<◌, ◌≡◌, refl, subst, List, [], ◌∷◌, ◌++◌, reverse, All, arith,
  Option, ok, >>=-eq-ok, true, false, length, ltb, default_to,
}
use kiosk_project.Base.Sorting.{sort_by, All-sort_by}
use kiosk_project.Domain.PageRanges.{
  max_page_range_segments, max_page_range_text_length, page_range_invalid, split_from, PageRange,
  starts_first, merge_range, merge_from, merge_page_ranges, parse_segment, parse_segments,
  parse_trimmed, parse_page_range_text, count_selected_pages, trim, split_commas,
}
use kiosk_project.Domain.PageRanges.Merge.{IsApart, AllValid, covers}
use kiosk_project.Domain.PageRanges.Merge
use kiosk_project.Domain.PageRanges.Pages.{
  AllBelow, AllBelow-merge_page_ranges, count_covered, count-merge_page_ranges,
}
use kiosk_project.Domain.PageRanges.RoundTrip.{InDocument}

-- A lower bound on the starts survives the merge.
AllFrom : ℕ → List PageRange → Type 0
AllFrom k = All (λ r. k ≤ r.0)

AllFrom-reverse :
    (k : ℕ) (rs ys : List PageRange) → AllFrom k rs → AllFrom k ys → AllFrom k (reverse rs ++ ys)
unfolding AllFrom
AllFrom-reverse k [] ys a b = b
AllFrom-reverse k (r ∷ rs) ys a b =
    rw (reverse-cons r rs, append_assoc (reverse rs) (r ∷ []) ys)
      (AllFrom-reverse k rs (r ∷ ys) a.1 (a.0, b))

AllFrom-merge_range :
    (k : ℕ) (merged : List PageRange) (r : PageRange)
    → AllFrom k merged
    → k ≤ r.0
    → AllFrom k (merge_range merged r)
unfolding AllFrom merge_range
AllFrom-merge_range k [] r a h = (h, tt)
AllFrom-merge_range k (m ∷ merged) r a h = ground arith

AllFrom-merge_from :
    (k : ℕ) (merged rs : List PageRange)
    → AllFrom k merged
    → AllFrom k rs
    → AllFrom k (merge_from merged rs)
unfolding merge_from AllFrom
AllFrom-merge_from k merged [] a b =
    rw (← append-nil (reverse merged)) (AllFrom-reverse k merged [] a tt)
AllFrom-merge_from k merged (r ∷ rs) a b =
    AllFrom-merge_from k (merge_range merged r) rs (AllFrom-merge_range k merged r a b.0) b.1

parse_segment_ok :
    (n : ℕ) (segment : List ℕ) (r : PageRange)
    → parse_segment n segment ≡ ok r
    → (1 ≤ r.0) × (r.0 ≤ r.1) × (r.1 ≤ n)
unfolding parse_segment
parse_segment_ok n segment r e = ground arith

parse_segments_ok :
    (n : ℕ) (segments : List (List ℕ)) (rs : List PageRange)
    → parse_segments n segments ≡ ok rs
    → InDocument n rs × (length rs ≡ length segments)
unfolding parse_segments
parse_segments_ok n [] rs e = ground arith
parse_segments_ok n (segment ∷ segments) rs e =
    let (r, er, e1) = >>=-eq-ok (parse_segment n segment) _ e in
    let (ss, es, e2) = >>=-eq-ok (parse_segments n segments) _ e1 in
    ground (arith, parse_segment_ok n segment r er, parse_segments_ok n segments ss es)

InDocument-parts :
    (n : ℕ) (rs : List PageRange)
    → InDocument n rs
    → AllValid rs × AllBelow (suc n) rs × All (λ r. 1 ≤ r.0) rs
InDocument-parts n [] d = (tt, tt, tt)
InDocument-parts n (r ∷ rs) d = ground (arith, InDocument-parts n rs d.1)

IsApart-valid : (rs : List PageRange) → IsApart rs → AllValid rs
IsApart-valid [] a = tt
IsApart-valid (r ∷ []) a = (a, tt)
IsApart-valid (r ∷ s ∷ rs) a = (a.0, IsApart-valid (s ∷ rs) a.2)

InDocument-from :
    (n : ℕ) (rs : List PageRange)
    → AllValid rs
    → AllBelow (suc n) rs
    → All (λ r. 1 ≤ r.0) rs
    → InDocument n rs
InDocument-from n [] v b f = tt
InDocument-from n (r ∷ rs) v b f = ((f.0, v.0, omega arith), InDocument-from n rs v.1 b.1 f.1)

covers_zero : (rs : List PageRange) → All (λ r. 1 ≤ r.0) rs → covers 0 rs ≡ false
covers_zero [] f = refl
covers_zero (r ∷ rs) f = ground (arith, covers_zero rs f.1)

count_covered_le :
    (n : ℕ) (rs : List PageRange) → All (λ r. 1 ≤ r.0) rs → count_covered (suc n) rs ≤ n
count_covered_le zero rs f = rw (covers_zero rs f) (omega arith)
count_covered_le (suc n) rs f = ground (arith, count_covered_le n rs f)

count_covered_pos :
    (n page : ℕ) (rs : List PageRange) → covers page rs ≡ true → page < n → 1 ≤ count_covered n rs
count_covered_pos zero page rs c h = absurd (omega arith)
count_covered_pos (suc n) page rs c h = elim (ℕ_discrete page n) [
  | yes e ↦ rw (← e, c) (omega arith)
  | no ne ↦ omega (arith, count_covered_pos n page rs c (omega arith))
]

-- What a selection of pages of a document of `n` pages is.
pub record IsSelection (n : ℕ) (rs : List PageRange) : Type 0 where
  pub in_document : InDocument n rs
  pub apart : IsApart rs
  pub some_page : 1 ≤ count_selected_pages rs
  pub no_extra_page : count_selected_pages rs ≤ n

merged-IsSelection :
    (n : ℕ) (r : PageRange) (rs : List PageRange)
    → InDocument n (r ∷ rs)
    → IsSelection n (merge_page_ranges (r ∷ rs))
unfolding merge_page_ranges AllFrom
merged-IsSelection n r rs d =
    let ranges : List PageRange = r ∷ rs in
    let (valid, below, from) = InDocument-parts n ranges d in
    let apart : IsApart (merge_page_ranges ranges) = Merge.merge_page_ranges-IsApart ranges valid in
    let starts : All (λ s. 1 ≤ s.0) (merge_page_ranges ranges) =
      AllFrom-merge_from 1 [] (sort_by starts_first ranges) tt
        (All-sort_by starts_first _ ranges from) in
    let count : count_selected_pages (merge_page_ranges ranges) ≡ count_covered (suc n) ranges =
      count-merge_page_ranges (suc n) ranges valid below in
    let first : covers r.0 ranges ≡ true = ground arith in
    record {
      in_document =
          InDocument-from n (merge_page_ranges ranges)
            (IsApart-valid (merge_page_ranges ranges) apart)
            (AllBelow-merge_page_ranges (suc n) ranges below) starts;
      apart = apart;
      some_page = omega (arith, count, count_covered_pos (suc n) r.0 ranges first (omega arith));
      no_extra_page = omega (arith, count, count_covered_le n ranges from);
    }

split_from_some : (seg text : List ℕ) → 1 ≤ length (split_from seg text)
unfolding split_from
split_from_some seg [] = omega arith
split_from_some seg (c ∷ text) = ground (arith, split_from_some (c ∷ seg) text)

parsed-IsSelection :
    (n : ℕ) (rs : List PageRange)
    → 1 ≤ length rs
    → InDocument n rs
    → IsSelection n (merge_page_ranges rs)
parsed-IsSelection n [] h d = absurd (omega arith)
parsed-IsSelection n (r ∷ rs) h d = merged-IsSelection n r rs d

parse_trimmed-IsSelection :
    (n : ℕ) (text : List ℕ) (rs : List PageRange)
    → 1 ≤ n
    → parse_trimmed n text ≡ ok rs
    → IsSelection n rs
unfolding parse_trimmed split_commas
parse_trimmed-IsSelection n [] rs h e =
    let same : (1, n) ∷ [] ≡ rs = cc e in
    subst (IsSelection n) same (record {
      in_document = omega arith;
      apart = h;
      some_page = unfold count_selected_pages in omega arith;
      no_extra_page = unfold count_selected_pages in omega arith;
    })
parse_trimmed-IsSelection n (c ∷ cs) rs h e =
    let (_, _, e1) =
      >>=-eq-ok (refuse_if (ltb max_page_range_text_length (length (c ∷ cs))) page_range_invalid) _
        e in
    let (_, _, e2) =
      >>=-eq-ok
        (refuse_if (ltb max_page_range_segments (length (split_from [] (c ∷ cs))))
          page_range_invalid)
        _ e1 in
    let (parsed, ep, e3) = >>=-eq-ok (parse_segments n (split_from [] (c ∷ cs))) _ e2 in
    let (inside, count) = parse_segments_ok n (split_from [] (c ∷ cs)) parsed ep in
    let same : merge_page_ranges parsed ≡ rs = cc e3 in
    subst (IsSelection n) same
      (parsed-IsSelection n parsed (omega (arith, count, split_from_some [] (c ∷ cs))) inside)

-- Whatever text a customer types, what the parser accepts is a selection of the document's pages:
-- valid ranges within pages 1 to `n`, in order and apart, of at least one page and at most `n`.
pub parse_page_range_text-IsSelection :
    (text : Option (List ℕ)) (n : ℕ) (rs : List PageRange)
    → parse_page_range_text text n ≡ ok rs
    → IsSelection n rs
unfolding parse_page_range_text
parse_page_range_text-IsSelection text n rs e =
    parse_trimmed-IsSelection n (trim (default_to text [])) rs (ground arith) (ground arith)
