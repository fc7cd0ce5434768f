-- ===== src/Database/Paper.antt =====
-- packages/database/src/kiosk-paper.ts: the sheets that a kiosk is believed to hold. Counts are
-- natural numbers, as the check constraint of the table keeps them; the sheets that a device
-- reports are an integer.
pub mod Floor
use kiosk_project.Base.{ℕ, ◌-◌, min, String, Bool, true, false, Option, none, some, List, [], ◌∷◌}
use kiosk_project.Base.Int.{ℤ, pos, pos_part, ◌-ℤ◌}
use kiosk_project.Base.Maps.{lookup, insert}

abbrev pub paper_inventory_max_sheets : ℕ
paper_inventory_max_sheets = 100000

pub record KioskPaperInventory : Type 0 where
  pub estimated_sheets : ℕ
  pub updated_at : ℤ

abbrev pub PaperTable : Type 0
PaperTable = List (String × KioskPaperInventory)

pub sheets_of_row : Option KioskPaperInventory → Option ℕ
sheets_of_row none = none
sheets_of_row (some row) = some row.estimated_sheets

pub read_kiosk_paper_estimate : PaperTable → String → Option ℕ
unfolding sheets_of_row
read_kiosk_paper_estimate table kiosk_id = sheets_of_row (lookup kiosk_id table)

-- The row's lock orders the transactions; the value read is the row's.
pub lock_kiosk_paper_estimate : PaperTable → String → Option ℕ
unfolding sheets_of_row
lock_kiosk_paper_estimate table kiosk_id = sheets_of_row (lookup kiosk_id table)

pub record KioskPaperDeduction : Type 0 where
  pub consumed_sheets : ℤ
  pub estimate_delta_sheets : ℤ
  pub estimate_affected : Bool
  pub estimated_sheets : Option ℕ

-- The body after the lock, on the count that was read.
pub deduct : Option ℕ → PaperTable → String → ℤ → ℤ → KioskPaperDeduction × PaperTable
unfolding ◌-ℤ◌
deduct none table kiosk_id sheets_produced now = (
  record {
    consumed_sheets = sheets_produced;
    estimate_delta_sheets = pos 0;
    estimate_affected = false;
    estimated_sheets = none;
  },
  table,
)
deduct (some current) table kiosk_id sheets_produced now =
    let applied : ℕ = min current (pos_part sheets_produced) in
    let remaining : ℕ = current - applied in
    (
      record {
        consumed_sheets = sheets_produced;
        estimate_delta_sheets = pos 0 -ℤ pos applied;
        estimate_affected = true;
        estimated_sheets = some remaining;
      },
      insert kiosk_id (record { estimated_sheets = remaining; updated_at = now }) table,
    )

pub apply_kiosk_paper_deduction : PaperTable → String → ℤ → ℤ → KioskPaperDeduction × PaperTable
unfolding deduct lock_kiosk_paper_estimate
apply_kiosk_paper_deduction table kiosk_id sheets_produced now =
    deduct (lock_kiosk_paper_estimate table kiosk_id) table kiosk_id sheets_produced now
