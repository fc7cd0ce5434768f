-- ===== src/Domain/Settings/Documents.antt =====
-- What each document of a normal form is.
use kiosk_project.Base.{
  ℕ, zero, suc, ◌*◌, ◌≤◌, ◌≡◌, refl, String, List, [], ◌∷◌, arith, ok, some, bind_cases,
  or_throw-eq-ok, ok-injective, subst, or_throw,
}
use kiosk_project.Base.Maps.{lookup}
use kiosk_project.Domain.PageRanges.{
  PageRange, parse_page_range_text, count_selected_pages, format_page_ranges,
}
use kiosk_project.Domain.PageRanges.Sound.{IsSelection, parse_page_range_text-IsSelection}
use kiosk_project.Domain.Settings.{
  DuplexMode, PrinterCapabilities, FileSelectionInput, SelectableFile, NormalizedFileSelection,
  sheets_of, assert_printable, normalized_file, normalize_file, normalize_files, file_order_invalid,
  file_selection_invalid,
}

-- One document takes at least one sheet a copy, at most a side a sheet, and at least half.
pub sheets_of_bounds :
    (duplex : DuplexMode) (sides : ℕ)
    → (sheets_of duplex sides ≤ sides) × (sides ≤ 2 * sheets_of duplex sides)
unfolding sheets_of
sheets_of_bounds DuplexMode.simplex sides = omega arith
sheets_of_bounds _ sides = omega arith

-- What a document of a normal form satisfies, for a device and a ceiling on copies.
pub record IsPrintable (max_copies : ℕ) (f : NormalizedFileSelection) : Type 0 where
  pub selection : IsSelection f.page_count f.page_ranges
  pub pages_counted : f.selected_pages ≡ count_selected_pages f.page_ranges
  pub text_printed : f.page_range_text ≡ format_page_ranges f.page_ranges
  pub some_copy : 1 ≤ f.copies
  pub copies_capped : f.copies ≤ max_copies
  pub sides_counted : f.printed_sides ≡ f.selected_pages * f.copies
  pub some_side : 1 ≤ f.printed_sides
  pub sheets_fit : f.physical_sheets ≤ f.printed_sides
  pub sheets_needed : f.printed_sides ≤ 2 * f.physical_sheets

product_pos : (a b : ℕ) → 1 ≤ a → 1 ≤ b → 1 ≤ a * b
product_pos (suc a) (suc b) h k = grind arith
product_pos zero b h k = elim h [ ]
product_pos (suc a) zero h k = elim k [ ]

product_le : (a b c : ℕ) → a ≤ b → a * c ≤ b * c
product_le a b c h = grind arith

copies_ok :
    (capabilities : PrinterCapabilities) (max_copies : ℕ) (s : FileSelectionInput) (u : Unit {0})
    → assert_printable capabilities max_copies s ≡ ok u
    → (1 ≤ s.copies) × (s.copies ≤ max_copies)
unfolding assert_printable
copies_ok capabilities max_copies s u e = ground arith

normalized_file-IsPrintable :
    (max_copies : ℕ) (file_id : String) (index : ℕ) (file : SelectableFile) (s : FileSelectionInput)
    (rs : List PageRange)
    → (1 ≤ s.copies) × (s.copies ≤ max_copies)
    → IsSelection file.page_count rs
    → IsPrintable max_copies (normalized_file file_id index file s rs)
unfolding normalized_file
normalized_file-IsPrintable max_copies file_id index file s rs (low, high) sel =
    let pages : ℕ = count_selected_pages rs in
    let sheets : ℕ = sheets_of s.duplex pages in
    let (fit, needed) = sheets_of_bounds s.duplex pages in
    record {
      selection = sel;
      pages_counted = refl;
      text_printed = refl;
      some_copy = low;
      copies_capped = high;
      sides_counted = refl;
      some_side = product_pos pages s.copies sel.some_page low;
      sheets_fit = product_le sheets pages s.copies fit;
      sheets_needed = omega (arith, product_le pages (2 * sheets) s.copies needed);
    }

module _ (capabilities : PrinterCapabilities) (max_copies : ℕ)
    (available : List (String × SelectableFile))
    (selections : List (String × FileSelectionInput)) where
  -- Where a normalized document comes from: its file and its selection, under its own identifier.
  pub record ComesFrom (index : ℕ) (file_id : String) (f : NormalizedFileSelection) : Type 0 where
    pub file : SelectableFile
    pub selection : FileSelectionInput
    pub found : lookup file_id available ≡ some file
    pub chosen : lookup file_id selections ≡ some selection
    pub same_id : f.file_id ≡ file_id
    pub placed : f.position ≡ index
    pub same_bytes : f.content_sha256 ≡ file.content_sha256
    pub same_revision : f.processing_revision ≡ file.processing_revision
    pub same_copies : f.copies ≡ selection.copies
    pub same_duplex : f.duplex ≡ selection.duplex
    pub same_orientation : f.orientation ≡ selection.orientation
    pub parsed : parse_page_range_text selection.page_ranges file.page_count ≡ ok f.page_ranges

  built :
      (index : ℕ) (file_id : String) (file : SelectableFile) (s : FileSelectionInput)
      (rs : List PageRange) (u : Unit {0})
      → or_throw (lookup file_id available) file_order_invalid ≡ ok file
      → or_throw (lookup file_id selections) file_selection_invalid ≡ ok s
      → assert_printable capabilities max_copies s ≡ ok u
      → parse_page_range_text s.page_ranges file.page_count ≡ ok rs
      → IsPrintable max_copies (normalized_file file_id index file s rs)
        × ComesFrom index file_id (normalized_file file_id index file s rs)
  unfolding normalized_file
  built index file_id file s rs u ef es eu er = (
    normalized_file-IsPrintable max_copies file_id index file s rs
        (copies_ok capabilities max_copies s u eu)
        (parse_page_range_text-IsSelection s.page_ranges file.page_count rs er),
    record {
      file = file;
      selection = s;
      found = or_throw-eq-ok (lookup file_id available) file_order_invalid ef;
      chosen = or_throw-eq-ok (lookup file_id selections) file_selection_invalid es;
      same_id = refl;
      placed = refl;
      same_bytes = refl;
      same_revision = refl;
      same_copies = refl;
      same_duplex = refl;
      same_orientation = refl;
      parsed = er;
    },
  )

  normalize_file_ok :
      (index : ℕ) (file_id : String) (f : NormalizedFileSelection)
      → normalize_file capabilities max_copies available selections index file_id ≡ ok f
      → IsPrintable max_copies f × ComesFrom index file_id f
  unfolding normalize_file
  normalize_file_ok index file_id f e =
      bind_cases (or_throw (lookup file_id available) file_order_invalid) _ e λ file ef e1.
        bind_cases (or_throw (lookup file_id selections) file_selection_invalid) _ e1 λ s es e2.
          bind_cases (assert_printable capabilities max_copies s) _ e2 λ u eu e3.
            bind_cases (parse_page_range_text s.page_ranges file.page_count) _ e3 λ rs er e4.
              subst (λ g. IsPrintable max_copies g × ComesFrom index file_id g) (ok-injective e4)
                (built index file_id file s rs u ef es eu er)

  -- The documents of a normal form, one for each identifier of the order, in that order.
  abbrev pub Documents : ℕ → List String → List NormalizedFileSelection → Type 0
  Documents index [] [] = Unit
  Documents index [] (f ∷ fs) = ⊥
  Documents index (id ∷ ids) [] = ⊥
  Documents index (id ∷ ids) (f ∷ fs) =
      (IsPrintable max_copies f × ComesFrom index id f) × Documents (suc index) ids fs

  pub normalize_files-Documents :
      (index : ℕ) (ids : List String) (fs : List NormalizedFileSelection)
      → normalize_files capabilities max_copies available selections index ids ≡ ok fs
      → Documents index ids fs
  unfolding normalize_files
  normalize_files-Documents index [] fs e = subst (Documents index []) (ok-injective e) tt
  normalize_files-Documents index (id ∷ ids) fs e =
      bind_cases (normalize_file capabilities max_copies available selections index id) _ e
        λ f ef e1.
          bind_cases (normalize_files capabilities max_copies available selections (suc index) ids)
            _ e1
            λ gs eg e2.
              subst (Documents index (id ∷ ids)) (ok-injective e2)
                (normalize_file_ok index id f ef, normalize_files-Documents (suc index) ids gs eg)
