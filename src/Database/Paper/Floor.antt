-- ===== src/Database/Paper/Floor.antt =====
-- What a run of deductions leaves in the trays.
use kiosk_project.Base.{
  default_to, is_some, str_eq, eq_iff, ◌∙◌, ap, ℕ, ◌+◌, ◌-◌, min, ◌≡◌, refl, String, Option, none,
  some, List, [], ◌∷◌, arith, if◌then◌else◌, Option-cases, inl, inr,
}
use kiosk_project.Base.Int.{ℤ, pos, pos_part, ◌+ℤ◌, ◌-ℤ◌}
use kiosk_project.Base.Maps.{lookup, lookup-insert}
use kiosk_project.Database.Paper.{
  PaperTable, apply_kiosk_paper_deduction, read_kiosk_paper_estimate,
}

-- One confirmed print: its kiosk, the sheets that the device reported, the time.
pub record Completion : Type 0 where
  pub kiosk_id : String
  pub sheets_produced : ℤ
  pub now : ℤ

-- The completions in the order in which their transactions commit.
abbrev pub deduct_all : PaperTable → List Completion → PaperTable
deduct_all table [] = table
deduct_all table (c ∷ cs) =
    deduct_all (apply_kiosk_paper_deduction table c.kiosk_id c.sheets_produced c.now).1 cs

-- The sheets that a kiosk's completions report, a negative report counting for none.
abbrev pub sheets_reported : String → List Completion → ℕ
sheets_reported kiosk_id [] = 0
sheets_reported kiosk_id (c ∷ cs) =
    (if str_eq c.kiosk_id kiosk_id then pos_part c.sheets_produced else 0)
    + sheets_reported kiosk_id cs

abbrev pub less : Option ℕ → ℕ → Option ℕ
less none n = none
less (some m) n = some (m - n)

less-zero : (o : Option ℕ) → o ≡ less o 0
less-zero none = refl
less-zero (some m) = ground arith

less-less : (o : Option ℕ) (a b : ℕ) → less (less o a) b ≡ less o (a + b)
less-less none a b = refl
less-less (some m) a b = ground arith

one_deduction :
    (table : PaperTable) (k j : String) (sheets now : ℤ)
    → read_kiosk_paper_estimate (apply_kiosk_paper_deduction table k sheets now).1 j
      ≡ less (read_kiosk_paper_estimate table j) (if str_eq k j then pos_part sheets else 0)
unfolding apply_kiosk_paper_deduction read_kiosk_paper_estimate
one_deduction table k j sheets now = elim (Option-cases (lookup k table)) [
  | inl none_there ↦ rw none_there (elim (Option-cases (lookup j table)) [
    | inl e ↦ rw e
    | inr (row, e) ↦ ground (arith, eq_iff k j, none_there, e)
  ])
  | inr (row, there) ↦
      let left : ℕ = row.estimated_sheets - min row.estimated_sheets (pos_part sheets) in
      rw there (
        rw (lookup-insert k j (record { estimated_sheets = left; updated_at = now }) table)
          (ground (arith, eq_iff k j, there)))
]

-- After any run of completions, at any kiosks and in any order, a kiosk's estimate is what it was
-- less the sheets that its own completions reported, stopping at 0; and a kiosk without a row
-- still has none.
pub deduct_all-floor :
    (table : PaperTable) (cs : List Completion) (kiosk_id : String)
    → read_kiosk_paper_estimate (deduct_all table cs) kiosk_id
      ≡ less (read_kiosk_paper_estimate table kiosk_id) (sheets_reported kiosk_id cs)
deduct_all-floor table [] k = less-zero (read_kiosk_paper_estimate table k)
deduct_all-floor table (c ∷ cs) k =
    deduct_all-floor (apply_kiosk_paper_deduction table c.kiosk_id c.sheets_produced c.now).1 cs k
    ∙ ap (λ o. less o (sheets_reported k cs))
        (one_deduction table c.kiosk_id k c.sheets_produced c.now)
    ∙ less-less (read_kiosk_paper_estimate table k) _ (sheets_reported k cs)

-- What a deduction answers: the estimate that a reader finds afterwards, that the estimate was
-- affected exactly when there was one, and the signed difference to the one before it.
deduction_reported :
    (table : PaperTable) (kiosk_id : String) (sheets now : ℤ)
    → let (d, after) = apply_kiosk_paper_deduction table kiosk_id sheets now in
      (read_kiosk_paper_estimate after kiosk_id ≡ d.estimated_sheets)
      × (d.estimate_affected ≡ is_some (read_kiosk_paper_estimate table kiosk_id))
      × (pos (default_to d.estimated_sheets 0)
          ≡ pos (default_to (read_kiosk_paper_estimate table kiosk_id) 0)
            +ℤ d.estimate_delta_sheets)
unfolding apply_kiosk_paper_deduction read_kiosk_paper_estimate ◌+ℤ◌ ◌-ℤ◌
deduction_reported table k sheets now = elim (Option-cases (lookup k table)) [
  | inl e ↦ rw e (rw e refl, refl, refl)
  | inr (row, e) ↦
      let applied : ℕ = min row.estimated_sheets (pos_part sheets) in
      rw e (
        rw
            (lookup-insert k k
              (record { estimated_sheets = row.estimated_sheets - applied; updated_at = now })
              table)
            (ground (arith, eq_iff k k)),
        refl,
        ground arith,
      )
]
