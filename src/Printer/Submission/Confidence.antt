-- ===== src/Printer/Submission/Confidence.antt =====
-- What the control plane makes of a status whose confidence was checked.
use kiosk_project.Base.{◌≡◌, arith}
use kiosk_project.Domain.PrintJob.{PrintDeviceResult, settle_print_device_result}
use kiosk_project.Printer.Submission.{PrintOperationStatus, with_honest_confidence, is_confirmable}

-- The part of a status that a report carries.
abbrev pub result_of : PrintOperationStatus → PrintDeviceResult
result_of status = record {
  state = status.state;
  confidence = status.confidence;
  failure_code = status.failure_code;
  warning_code = status.warning_code;
  sheets_produced = status.sheets_produced;
}

-- The adapter's downgrade takes nothing from the control plane's own decision: a status is settled
-- in the same way with it and without it, for the job, the session and the money.
pub settle-with_honest_confidence :
    (status : PrintOperationStatus)
    → settle_print_device_result (result_of (with_honest_confidence status))
      ≡ settle_print_device_result (result_of status)
unfolding with_honest_confidence is_confirmable settle_print_device_result
settle-with_honest_confidence status = ground arith

-- A downgrade is done once.
with_honest_confidence_idempotent :
    (status : PrintOperationStatus)
    → with_honest_confidence (with_honest_confidence status) ≡ with_honest_confidence status
unfolding with_honest_confidence is_confirmable
with_honest_confidence_idempotent status = ground arith
