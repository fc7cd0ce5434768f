-- ===== src/Domain/PrintJob/Settlement.antt =====
-- Who is owed money, and what may be called a success.
use kiosk_project.Base.{◌≡◌, ◌≢◌, ◌↔◌, ◌⊎◌, true, false, Option, none, some, arith}
use kiosk_project.Base.Int.{◌≤ℤ◌, ℤ, pos}
use kiosk_project.Domain.PrintJob.{
  PrintDeviceState, confirmed, unconfirmed, PrintJobSettledStatus, SettledSessionState,
  PrintDeviceResult, PrintJobSettlement, settle_print_device_result,
}

-- The device proved that nothing came out.
abbrev pub NothingPrinted : PrintDeviceResult → Type 0
NothingPrinted r =
    (r.confidence ≡ confirmed)
    × (r.sheets_produced ≡ some (pos 0))
    × ((r.state ≡ PrintDeviceState.not_submitted)
        ⊎ (r.state ≡ PrintDeviceState.failed)
        ⊎ (r.state ≡ PrintDeviceState.canceled))

abbrev pub AtLeastOneSheet : Option ℤ → Type 0
AtLeastOneSheet none = ⊥
AtLeastOneSheet (some n) = pos 1 ≤ℤ n

-- The device confirmed a completed print of at least one sheet.
abbrev pub Delivered : PrintDeviceResult → Type 0
Delivered r =
    (r.state ≡ PrintDeviceState.completed)
    × (r.confidence ≡ confirmed)
    × AtLeastOneSheet r.sheets_produced

-- Money is owed back exactly when the device proved that nothing came out: a confirmed result
-- that it never took the job, failed or was canceled, with a count of zero sheets.
pub refund_iff :
    (r : PrintDeviceResult)
    → ((settle_print_device_result r).refund_obligation ≡ true) ↔ NothingPrinted r
unfolding settle_print_device_result
refund_iff r = ground arith

-- A job is settled as completed exactly when the device confirmed a completed print of at least one
-- sheet.
pub success_iff :
    (r : PrintDeviceResult)
    → ((settle_print_device_result r).status ≡ PrintJobSettledStatus.completed) ↔ Delivered r
unfolding settle_print_device_result
success_iff r = ground arith

-- Whatever is neither goes to a person.
abbrev pub Ambiguous : PrintDeviceResult → Type 0
Ambiguous r = ¬ NothingPrinted r × ¬ Delivered r

-- A job goes to a person exactly when its result is ambiguous.
pub recovery_iff :
    (r : PrintDeviceResult)
    → ((settle_print_device_result r).status ≡ PrintJobSettledStatus.recovery_required)
      ↔ Ambiguous r
unfolding settle_print_device_result
recovery_iff r = ground arith

-- The three settlements whose parts agree.
pub data Consistent (s : PrintJobSettlement) : Type 0 where
  success :
      s.status ≡ PrintJobSettledStatus.completed
      → s.session_state ≡ SettledSessionState.completed
      → s.refund_obligation ≡ false
      → s.result_confidence ≡ confirmed
      → s.failure_code ≡ none
      → Consistent s
  failure :
      (s.status ≡ PrintJobSettledStatus.failed) ⊎ (s.status ≡ PrintJobSettledStatus.canceled)
      → s.session_state ≡ SettledSessionState.failed
      → s.refund_obligation ≡ true
      → s.result_confidence ≡ confirmed
      → s.sheets_produced ≡ some (pos 0)
      → s.failure_code ≢ none
      → Consistent s
  undecided :
      s.status ≡ PrintJobSettledStatus.recovery_required
      → s.session_state ≡ SettledSessionState.recovery_required
      → s.refund_obligation ≡ false
      → s.result_confidence ≡ unconfirmed
      → s.failure_code ≢ none
      → Consistent s

-- The parts of a settlement agree on every result: a success carries no failure code and no
-- refund, a definite failure owes the money, a recovery owes nothing and is unconfirmed.
settlement-Consistent : (r : PrintDeviceResult) → Consistent (settle_print_device_result r)
unfolding settle_print_device_result
settlement-Consistent r = grind (arith, success, failure, undecided)
