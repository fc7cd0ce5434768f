-- ===== src/Domain/Settings/Totals.antt =====
-- What the normal form of a job adds up to.
use kiosk_project.Base.{
  ltb, sym, refuse_if, ℕ, suc, ◌*◌, ◌≤◌, ◌≡◌, refl, String, List, [], ◌∷◌, map, All, arith, ok, sum,
  min, subst, bind_cases, ok-injective,
}
use kiosk_project.Domain.Settings.{
  printed_side_limit_exceeded, selected_page_limit_exceeded, no_selected_pages, PrintSettingsInput,
  NormalizePrintSettingsContext, NormalizedFileSelection, NormalizedPrintSettings,
  FileSelectionInput, available_files, index_selections, normalize_files, total_settings,
  assert_job, normalize_print_settings,
}
use kiosk_project.Domain.Settings.Documents.{IsPrintable, Documents, normalize_files-Documents}

abbrev AllPrintable : ℕ → List NormalizedFileSelection → Type 0
AllPrintable max_copies = All (IsPrintable max_copies)

abbrev pub pages_of : List NormalizedFileSelection → ℕ
pages_of fs = sum (map (λ f. f.selected_pages) fs)

abbrev pub sides_of : List NormalizedFileSelection → ℕ
sides_of fs = sum (map (λ f. f.printed_sides) fs)

abbrev pub sheets_in : List NormalizedFileSelection → ℕ
sheets_in fs = sum (map (λ f. f.physical_sheets) fs)

-- A job's totals and the deployment's limits.
pub record HasTotals (context : NormalizePrintSettingsContext) (s : NormalizedPrintSettings)
    : Type 0 where
  pub pages_total : s.selected_pages ≡ pages_of s.files
  pub sides_total : s.printed_sides ≡ sides_of s.files
  pub sheets_total : s.physical_sheets ≡ sheets_in s.files
  pub some_page : 1 ≤ s.selected_pages
  pub pages_capped : s.selected_pages ≤ context.limits.max_selected_pages
  pub sides_capped : s.printed_sides ≤ context.limits.max_printed_sides
  pub pages_printed : s.selected_pages ≤ s.printed_sides
  pub sheets_fit : s.physical_sheets ≤ s.printed_sides
  pub sheets_needed : s.printed_sides ≤ 2 * s.physical_sheets

mul_copies : (pages copies : ℕ) → 1 ≤ copies → pages ≤ pages * copies
mul_copies pages copies h = grind arith

files_bounds :
    (max_copies : ℕ) (fs : List NormalizedFileSelection)
    → AllPrintable max_copies fs
    → (pages_of fs ≤ sides_of fs) × (sheets_in fs ≤ sides_of fs) × (sides_of fs ≤ 2 * sheets_in fs)
files_bounds max_copies [] a = omega arith
files_bounds max_copies (f ∷ fs) a = omega (
  arith,
  a.0.sides_counted,
  a.0.sheets_fit,
  a.0.sheets_needed,
  mul_copies f.selected_pages f.copies a.0.some_copy,
  files_bounds max_copies fs a.1,
)

total_settings_ok :
    (input : PrintSettingsInput) (context : NormalizePrintSettingsContext)
    (fs : List NormalizedFileSelection) (s : NormalizedPrintSettings) (max_copies : ℕ)
    → AllPrintable max_copies fs
    → total_settings input context fs ≡ ok s
    → HasTotals context s × (s.files ≡ fs)
unfolding total_settings
total_settings_ok input context fs s max_copies a e =
    let (pages, fit, needed) = files_bounds max_copies fs a in
    bind_cases (refuse_if (ltb (pages_of fs) 1) no_selected_pages) _ e λ u eu e1.
      bind_cases
        (refuse_if (ltb context.limits.max_selected_pages (pages_of fs))
          selected_page_limit_exceeded)
        _ e1
        λ v ev e2.
          bind_cases
            (refuse_if (ltb context.limits.max_printed_sides (sides_of fs))
              printed_side_limit_exceeded)
            _ e2
            λ w ew e3.
              subst (λ t. HasTotals context t × (t.files ≡ fs)) (ok-injective e3)
                (
                  record {
                    pages_total = refl;
                    sides_total = refl;
                    sheets_total = refl;
                    some_page = ground arith;
                    pages_capped = ground arith;
                    sides_capped = ground arith;
                    pages_printed = pages;
                    sheets_fit = fit;
                    sheets_needed = needed;
                  },
                  refl,
                )

Documents-printable :
    (context : NormalizePrintSettingsContext) (max_copies : ℕ)
    (selections : List (String × FileSelectionInput)) (index : ℕ) (ids : List String)
    (fs : List NormalizedFileSelection)
    → Documents context.capabilities max_copies
        (available_files [] context.files)
        selections
        index
        ids
        fs
    → AllPrintable max_copies fs
Documents-printable context max_copies selections index [] [] d = tt
Documents-printable context max_copies selections index [] (f ∷ fs) d = absurd d
Documents-printable context max_copies selections index (id ∷ ids) [] d = absurd d
Documents-printable context max_copies selections index (id ∷ ids) (f ∷ fs) d =
    (d.0.0, Documents-printable context max_copies selections (suc index) ids fs d.1)

-- What a normal form is.
pub record IsNormal (input : PrintSettingsInput) (context : NormalizePrintSettingsContext)
    (s : NormalizedPrintSettings) : Type 0 where
  pub selections : List (String × FileSelectionInput)
  pub indexed : index_selections [] input.file_selections ≡ ok selections
  pub documents :
      Documents context.capabilities
        (min context.limits.max_copies context.capabilities.max_copies)
        (available_files [] context.files)
        selections
        0
        input.file_order
        s.files
  pub totals : HasTotals context s

-- A normal form that the code returns: its documents are those of the request's order, one each
-- and in that order, each taken from the file and the selection under its identifier, valid on its
-- own and within the copy ceiling; and the job's totals are the sums over the documents, within
-- the limits, with at least one page, no more sheets than sides and no fewer than half.
pub normalize_print_settings-IsNormal :
    (input : PrintSettingsInput) (context : NormalizePrintSettingsContext)
    (s : NormalizedPrintSettings)
    → normalize_print_settings input context ≡ ok s
    → IsNormal input context s
unfolding normalize_print_settings
normalize_print_settings-IsNormal input context s e =
    bind_cases (assert_job input context) _ e λ u eu e1.
      bind_cases (index_selections [] input.file_selections) _ e1 λ m em e2.
        bind_cases
          (normalize_files context.capabilities
            (min context.limits.max_copies context.capabilities.max_copies)
            (available_files [] context.files) m 0 input.file_order)
          _ e2
          λ fs ef e3.
            let max_copies : ℕ = min context.limits.max_copies context.capabilities.max_copies in
            let d =
              normalize_files-Documents context.capabilities max_copies
                (available_files [] context.files) m 0 input.file_order fs ef in
            let (totals, files_eq) =
              total_settings_ok input context fs s max_copies
                (Documents-printable context max_copies m 0 input.file_order fs d) e3 in
            record {
              selections = m;
              indexed = em;
              documents =
                  subst
                    (λ gs.
                      Documents context.capabilities max_copies (available_files [] context.files) m
                        0 input.file_order gs)
                    (sym files_eq) d;
              totals = totals;
            }
