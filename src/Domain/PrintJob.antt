-- ===== src/Domain/PrintJob.antt =====
-- packages/domain/src/print-job.ts: what a device result means for the job, the session and the
-- money. Failure and warning codes are only passed on, so they are native strings.
pub mod Settlement
pub mod Examples
use kiosk_project.Base.{
  String, Bool, true, false, ◌&&◌, Option, none, some, default_to, if◌then◌else◌,
}
use kiosk_project.Base.Int.{ℤ, pos, negsuc, ltb_ℤ, eqb_ℤ}

pub data PrintDeviceState : Type 0 where
  not_submitted submitted printing completed failed canceled unknown : PrintDeviceState

pub data PrintConfidence : Type 0 where
  confirmed unconfirmed : PrintConfidence

pub data PrintJobSettledStatus : Type 0 where
  completed failed canceled recovery_required : PrintJobSettledStatus

pub data SettledSessionState : Type 0 where
  completed failed recovery_required : SettledSessionState

pub record PrintDeviceResult : Type 0 where
  pub state : PrintDeviceState
  pub confidence : PrintConfidence
  pub failure_code : Option String
  pub warning_code : Option String
  pub sheets_produced : Option ℤ

pub record PrintJobSettlement : Type 0 where
  pub status : PrintJobSettledStatus
  pub result_confidence : PrintConfidence
  pub failure_code : Option String
  pub warning_code : Option String
  pub sheets_produced : Option ℤ
  pub session_state : SettledSessionState
  pub refund_obligation : Bool

abbrev pub default_failure_code : String
default_failure_code = "DEVICE_ERROR"

abbrev pub is_confirmed : PrintConfidence → Bool
is_confirmed confirmed = true
is_confirmed unconfirmed = false

-- `sheetsProduced !== null && sheetsProduced > 0`.
abbrev pub some_sheets : Option ℤ → Bool
some_sheets none = false
some_sheets (some n) = ltb_ℤ (pos 0) n

-- `sheetsProduced === 0`.
abbrev pub no_sheets : Option ℤ → Bool
no_sheets none = false
no_sheets (some n) = eqb_ℤ n (pos 0)

unfoldable pub definite_failure :
    PrintJobSettledStatus → PrintDeviceResult → String → Option String → ℤ → PrintJobSettlement
definite_failure status result fallback_code warning_code sheets_produced = record {
  status = status;
  result_confidence = confirmed;
  failure_code = some (default_to result.failure_code fallback_code);
  warning_code = warning_code;
  sheets_produced = some sheets_produced;
  session_state = SettledSessionState.failed;
  refund_obligation = true;
}

unfoldable pub recovery : PrintDeviceResult → String → Option String → PrintJobSettlement
recovery result fallback_code warning_code = record {
  status = PrintJobSettledStatus.recovery_required;
  result_confidence = unconfirmed;
  failure_code = some (default_to result.failure_code fallback_code);
  warning_code = warning_code;
  sheets_produced = result.sheets_produced;
  session_state = SettledSessionState.recovery_required;
  refund_obligation = false;
}

unfoldable pub delivered : PrintDeviceResult → PrintJobSettlement
delivered result = record {
  status = PrintJobSettledStatus.completed;
  result_confidence = confirmed;
  failure_code = none;
  warning_code = result.warning_code;
  sheets_produced = result.sheets_produced;
  session_state = SettledSessionState.completed;
  refund_obligation = false;
}

-- The early returns of `settlePrintDeviceResult`, by the state that each tests for.
unfoldable pub settle_in : PrintDeviceState → PrintDeviceResult → PrintJobSettlement
unfolding definite_failure recovery delivered
settle_in PrintDeviceState.completed result =
    if is_confirmed result.confidence && some_sheets result.sheets_produced
    then delivered result
    else recovery result "SUBMISSION_UNCONFIRMED" result.warning_code
settle_in PrintDeviceState.not_submitted result =
    if is_confirmed result.confidence && no_sheets result.sheets_produced
    then definite_failure PrintJobSettledStatus.failed result "PRINTER_UNAVAILABLE"
        result.warning_code (pos 0)
    else recovery result "SUBMISSION_UNCONFIRMED" result.warning_code
settle_in PrintDeviceState.failed result =
    if is_confirmed result.confidence && no_sheets result.sheets_produced
    then definite_failure PrintJobSettledStatus.failed result default_failure_code
        result.warning_code (pos 0)
    else recovery result default_failure_code result.warning_code
settle_in PrintDeviceState.canceled result =
    if is_confirmed result.confidence && no_sheets result.sheets_produced
    then definite_failure PrintJobSettledStatus.canceled result "CANCELED_BEFORE_SUBMIT"
        result.warning_code (pos 0)
    else recovery result "CANCELED_AT_DEVICE" result.warning_code
settle_in PrintDeviceState.unknown result = recovery result "DEVICE_TIMEOUT" result.warning_code
settle_in _ result = recovery result "SUBMISSION_UNCONFIRMED" result.warning_code

unfoldable pub settle_print_device_result : PrintDeviceResult → PrintJobSettlement
unfolding settle_in
settle_print_device_result result = settle_in result.state result
