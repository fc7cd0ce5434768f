-- ===== src/Database/PrintJobs/Outcome.antt =====
-- packages/database/src/print-jobs.ts: what a settlement is asked to write and what it answers, and the
-- texts and states that an outcome stands for.
use kiosk_project.Base.{
  slice, ℕ, String, Bool, true, false, Option, none, includes, default_to, Result,
}
use kiosk_project.Base.Int.{ℤ}
use kiosk_project.Domain.Retention.{RetentionPolicy, TerminalSessionState}
use kiosk_project.Domain.Session.{SessionState}
use kiosk_project.Domain.PrintJob.{
  PrintJobSettlement, PrintConfidence, PrintJobSettledStatus, SettledSessionState,
  default_failure_code,
}
use kiosk_project.Database.Cleanup.{CleanupError}
use kiosk_project.Database.PrintJobs.{
  PrintJobStatus, PrintJobStatus-discrete, open_print_job_statuses, PrintJobLedgerType, PrintStore,
}

pub record ApplyPrintJobSettlementInput : Type 0 where
  pub print_job_id : String
  pub status : PrintJobSettledStatus
  pub result_confidence : PrintConfidence
  pub failure_code : Option String
  pub warning_code : Option String
  pub sheets_produced : Option ℤ
  pub session_state : SettledSessionState
  pub refund_obligation : Bool
  pub operation_id : Option String
  pub ledger_type : PrintJobLedgerType
  pub actor_type : String
  pub actor_id : String
  pub request_id : Option String
  pub now : ℤ
  pub retention_policy : RetentionPolicy
  pub device_diagnostics : Option String
  pub refund_id : String
  pub event_id : String
  pub audit_id : String
  pub outbox_id : String

-- What a caller says of a settlement beside the outcome itself, which it spreads into the input.
pub record SettlementContext : Type 0 where
  pub operation_id : Option String
  pub ledger_type : PrintJobLedgerType
  pub actor_type : String
  pub actor_id : String
  pub request_id : Option String
  pub now : ℤ
  pub retention_policy : RetentionPolicy
  pub device_diagnostics : Option String
  pub refund_id : String
  pub event_id : String
  pub audit_id : String
  pub outbox_id : String

abbrev pub settlement_input :
    String → PrintJobSettlement → SettlementContext → ApplyPrintJobSettlementInput
settlement_input print_job_id settlement c = record {
  print_job_id = print_job_id;
  status = settlement.status;
  result_confidence = settlement.result_confidence;
  failure_code = settlement.failure_code;
  warning_code = settlement.warning_code;
  sheets_produced = settlement.sheets_produced;
  session_state = settlement.session_state;
  refund_obligation = settlement.refund_obligation;
  operation_id = c.operation_id;
  ledger_type = c.ledger_type;
  actor_type = c.actor_type;
  actor_id = c.actor_id;
  request_id = c.request_id;
  now = c.now;
  retention_policy = c.retention_policy;
  device_diagnostics = c.device_diagnostics;
  refund_id = c.refund_id;
  event_id = c.event_id;
  audit_id = c.audit_id;
  outbox_id = c.outbox_id;
}

pub record PrintJobSettlementOutcome : Type 0 where
  pub applied : Bool
  pub refund_id : Option String
  pub session_state : Option SessionState
  pub session_version : Option ℕ

abbrev pub Settling : Type 0
Settling = Result CleanupError (PrintJobSettlementOutcome × PrintStore)

abbrev pub not_applied : PrintJobSettlementOutcome
not_applied = record {
  applied = false;
  refund_id = none;
  session_state = none;
  session_version = none;
}

abbrev pub applied_with : Option String → Option SessionState → Option ℕ → PrintJobSettlementOutcome
applied_with refund_id session_state session_version = record {
  applied = true;
  refund_id = refund_id;
  session_state = session_state;
  session_version = session_version;
}

unfoldable pub is_open_print_job_status : PrintJobStatus → Bool
unfolding PrintJobStatus-discrete
is_open_print_job_status status = includes PrintJobStatus-discrete open_print_job_statuses status

-- One status in the two types that hold it.
abbrev pub job_status_of : PrintJobSettledStatus → PrintJobStatus
job_status_of PrintJobSettledStatus.completed = PrintJobStatus.completed
job_status_of PrintJobSettledStatus.failed = PrintJobStatus.failed
job_status_of PrintJobSettledStatus.canceled = PrintJobStatus.canceled
job_status_of PrintJobSettledStatus.recovery_required = PrintJobStatus.recovery_required

abbrev pub session_state_of : SettledSessionState → SessionState
session_state_of SettledSessionState.completed = SessionState.completed
session_state_of SettledSessionState.failed = SessionState.failed
session_state_of SettledSessionState.recovery_required = SessionState.recovery_required

abbrev pub terminal_state_of : SettledSessionState → TerminalSessionState
terminal_state_of SettledSessionState.completed = TerminalSessionState.completed
terminal_state_of SettledSessionState.failed = TerminalSessionState.failed
terminal_state_of SettledSessionState.recovery_required = TerminalSessionState.recovery_required

abbrev pub is_completed : PrintJobSettledStatus → Bool
is_completed PrintJobSettledStatus.completed = true
is_completed _ = false

-- The text of a status, which the result code of a command falls back to.
abbrev pub status_text : PrintJobSettledStatus → String
status_text PrintJobSettledStatus.completed = "COMPLETED"
status_text PrintJobSettledStatus.failed = "FAILED"
status_text PrintJobSettledStatus.canceled = "CANCELED"
status_text PrintJobSettledStatus.recovery_required = "RECOVERY_REQUIRED"

-- `print.${input.status.toLowerCase()}`.
abbrev pub print_action : PrintJobSettledStatus → String
print_action PrintJobSettledStatus.completed = "print.completed"
print_action PrintJobSettledStatus.failed = "print.failed"
print_action PrintJobSettledStatus.canceled = "print.canceled"
print_action PrintJobSettledStatus.recovery_required = "print.recovery_required"

unfoldable pub print_audit_outcome : PrintJobSettledStatus → String
print_audit_outcome PrintJobSettledStatus.completed = "SUCCESS"
print_audit_outcome PrintJobSettledStatus.recovery_required = "RECOVERY_REQUIRED"
print_audit_outcome _ = "FAILURE"

unfoldable pub session_event_type_for : SettledSessionState → String
session_event_type_for SettledSessionState.completed = "session.completed"
session_event_type_for SettledSessionState.failed = "print.failed"
session_event_type_for SettledSessionState.recovery_required = "print.recovery_required"

unfoldable pub terminal_reason_for : ApplyPrintJobSettlementInput → String
terminal_reason_for input = elim input.session_state [
  | SettledSessionState.completed ↦ "PRINT_COMPLETED"
  | _ ↦ slice 80 (default_to input.failure_code default_failure_code)
]
