-- ===== src/Database/PrintJobs/Settle/Examples.antt =====
-- Settlements of packages/database/src/print-jobs.ts on concrete tables.
use kiosk_project.Database.PrintJobs.Outcome.{
  ApplyPrintJobSettlementInput, SettlementContext, settlement_input, not_applied, applied_with,
}
use kiosk_project.Database.Tables.{matching}
use kiosk_project.Base.{◌≡◌, refl, true, some, none, codes, any, [], ◌∷◌, ok, Ensures}
use kiosk_project.Base.Int.{pos}
use kiosk_project.Domain.Session.{SessionState}
use kiosk_project.Domain.PrintJob.{
  PrintDeviceResult, PrintDeviceState, confirmed, settle_print_device_result,
}
use kiosk_project.Domain.PrintJob.Settlement.{NothingPrinted}
use kiosk_project.Domain.Retention.{default_retention_policy}
use kiosk_project.Database.Payments.{Payment, PaymentStatus}
use kiosk_project.Database.PrintJobs.{
  PrintJob, PrintJobStatus, PrintJobLedgerType, PrintSession, PrintStore, is_paid_by, is_refund_of,
}
use kiosk_project.Database.PrintJobs.Settle.{apply_print_job_settlement, find_print_job}
use kiosk_project.Database.PrintJobs.Settle.Once.{apply_print_job_settlement-once}
use kiosk_project.Database.PrintJobs.Settle.Money.{settled_result_refunds}
use kiosk_project.Database.PrintJobs.Settle.Sessions.{
  apply_print_job_settlement-SessionEnd, SessionEnd,
}

abbrev pub paid : Payment
paid = record {
  id = "p1";
  session_id = "s1";
  quote_id = "q1";
  provider = "MOCK";
  provider_intent_id = "intent";
  status = PaymentStatus.captured;
  applied_to_session = true;
  amount_minor = pos 414;
  currency = codes "AMD";
  currency_exponent = pos 2;
  failure_code = none;
  expires_at = pos 900;
  captured_at = some (pos 5);
  failed_at = none;
  updated_at = pos 5;
}

abbrev pub print_job : PrintJobStatus → PrintJob
print_job status = record {
  id = "j1";
  session_id = "s1";
  kiosk_id = "lobby";
  payment_id = "p1";
  status = status;
  result_confidence = none;
  failure_code = none;
  warning_code = none;
  sheets_produced = none;
  physical_sheets = pos 2;
  job_manifest = "{}";
  job_manifest_hash = "h";
  simulated_outcome = none;
  dispatch_attempts = 0;
  available_at = pos 10;
  deadline_at = pos 900;
  created_at = pos 9;
  dispatched_at = none;
  started_at = none;
  completed_at = none;
  failed_at = none;
  updated_at = pos 9;
}

abbrev pub session_in : SessionState → PrintSession
session_in state = record {
  id = "s1";
  state = state;
  state_version = 6;
  event_sequence = 11;
  terminal_reason = none;
  completed_at = none;
  updated_at = pos 9;
}

abbrev pub tables : PrintJobStatus → SessionState → PrintStore
tables status state = record {
  jobs = print_job status ∷ [];
  commands = [];
  events = [];
  payments = paid ∷ [];
  refunds = [];
  paper = [];
  sessions = session_in state ∷ [];
  access = record { grants = []; clients = [] };
  cleanup = record { files = []; sessions = [] };
  audit = [];
  outbox = [];
}

abbrev pub nothing_came_out : PrintDeviceResult
nothing_came_out = record {
  state = PrintDeviceState.failed;
  confidence = confirmed;
  failure_code = some "PAPER_JAM";
  warning_code = none;
  sheets_produced = some (pos 0);
}

abbrev context : SettlementContext
context = record {
  operation_id = some "o1";
  ledger_type = PrintJobLedgerType.failed;
  actor_type = "KIOSK_AGENT";
  actor_id = "agent";
  request_id = none;
  now = pos 50;
  retention_policy = default_retention_policy;
  device_diagnostics = none;
  refund_id = "r1";
  event_id = "e1";
  audit_id = "a1";
  outbox_id = "x1";
}

abbrev failure : ApplyPrintJobSettlementInput
failure = settlement_input "j1" (settle_print_device_result nothing_came_out) context

-- A session that something else has ended; the job's settlement stands.
abbrev before : PrintStore
before = tables PrintJobStatus.printing SessionState.canceled

abbrev after : PrintStore
after = elim (apply_print_job_settlement before failure) [ ok r ↦ r.1 | _ ↦ before ]

applies :
    apply_print_job_settlement before failure
    ≡ ok (applied_with (some "r1") (some SessionState.canceled) none, after)
unfolding apply_print_job_settlement matching settle_print_device_result
applies = refl

apply_print_job_settlement-once_example :
    apply_print_job_settlement after failure ≡ ok (not_applied, after)
apply_print_job_settlement-once_example =
    apply_print_job_settlement-once before after failure failure
      (applied_with (some "r1") (some SessionState.canceled) none) applies refl refl

settled_result_refunds_example :
    (NothingPrinted nothing_came_out → any (is_refund_of paid) after.refunds ≡ true)
    × (¬ NothingPrinted nothing_came_out → after.refunds ≡ before.refunds)
unfolding find_print_job is_paid_by
settled_result_refunds_example =
    settled_result_refunds before after nothing_came_out context "j1"
      (print_job PrintJobStatus.printing) paid
      (applied_with (some "r1") (some SessionState.canceled) none) refl refl refl applies refl

abbrev open_tables : PrintStore
open_tables = tables PrintJobStatus.printing SessionState.printing

apply_print_job_settlement-SessionEnd_example :
    Ensures (apply_print_job_settlement open_tables failure) (SessionEnd open_tables failure)
apply_print_job_settlement-SessionEnd_example =
    apply_print_job_settlement-SessionEnd open_tables failure
