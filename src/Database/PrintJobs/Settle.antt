-- ===== src/Database/PrintJobs/Settle.antt =====
-- packages/database/src/print-jobs.ts, lines 131 to 360: one settled print outcome, written in the
-- transaction of its caller. The identifiers that it draws at random come with the input, one for
-- each kind of row. A failure code is an ASCII text.
pub mod Writes
pub mod Once
pub mod Money
pub mod Sessions
pub mod Examples
use kiosk_project.Database.PrintJobs.Outcome.{
  ApplyPrintJobSettlementInput, PrintJobSettlementOutcome, SettlementContext, Settling,
  applied_with, is_completed, is_open_print_job_status, job_status_of, not_applied, print_action,
  print_audit_outcome, session_event_type_for, session_state_of, settlement_input, status_text,
  terminal_reason_for, terminal_state_of,
}
use kiosk_project.Base.{
  slice, ℕ, ◌+◌, String, str_eq, Bool, true, false, not, ◌&&◌, Option, none, some, List, [], ◌∷◌,
  find, includes, if◌then◌else◌, ◌==◌, same, is_some, default_to, Result, ok, err, ◌>>=◌,
}
use kiosk_project.Base.Int.{ℤ, pos}
use kiosk_project.Domain.Retention.{RetentionPolicy, TerminalSessionState}
use kiosk_project.Domain.Session.{SessionState, SessionState-discrete}
use kiosk_project.Domain.PrintJob.{
  PrintJobSettlement, PrintConfidence, PrintJobSettledStatus, SettledSessionState, is_confirmed,
  some_sheets, default_failure_code,
}
use kiosk_project.Database.Payments.{Payment}
use kiosk_project.Database.Tables.{update_many, matching}
use kiosk_project.Database.Paper.{KioskPaperDeduction, PaperTable, apply_kiosk_paper_deduction}
use kiosk_project.Database.Cleanup.{
  CleanupError, SessionCleanupSchedule, revoke_session_access, schedule_session_files_for_cleanup,
}
use kiosk_project.Database.PrintJobs.{
  PrintJobStatus, PrintJobStatus-discrete, open_print_job_statuses, PrintJobLedgerType, PrintJob,
  CommandStatus, CommandStatus-discrete, AgentCommand, PrintEventDetail, PrintJobEventInput,
  PrintRefund, PrintAuditEvent, PrintOutboxEvent, PrintSession, PrintStore, record_print_job_event,
  record_print_failure_compensation, result_detail,
}

-- The guarded update of the job.
unfoldable pub is_same_job : PrintJob → PrintJob → Bool
unfolding PrintJobStatus-discrete
is_same_job job j = str_eq j.id job.id && same PrintJobStatus-discrete j.status job.status

unfoldable pub settled_job : ApplyPrintJobSettlementInput → PrintJob → PrintJob
settled_job input j = record j {
  status = job_status_of input.status;
  result_confidence = some input.result_confidence;
  failure_code = input.failure_code;
  warning_code = input.warning_code;
  sheets_produced = input.sheets_produced;
  updated_at = input.now;
  completed_at = if is_completed input.status then some input.now else j.completed_at;
  failed_at = if is_completed input.status then j.failed_at else some input.now;
}

unfoldable pub settle_job : ApplyPrintJobSettlementInput → PrintJob → PrintStore → PrintStore
unfolding is_same_job settled_job
settle_job input job s = record s {
  jobs = update_many (is_same_job job) (settled_job input) s.jobs;
}

-- A command of the job that is still outstanding.
unfoldable pub is_outstanding : String → AgentCommand → Bool
unfolding CommandStatus-discrete
is_outstanding print_job_id c =
    str_eq c.print_job_id print_job_id
    && includes CommandStatus-discrete (CommandStatus.pending ∷ CommandStatus.claimed ∷ []) c.status

unfoldable pub closed_command : ApplyPrintJobSettlementInput → AgentCommand → AgentCommand
closed_command input c = record c {
  status = if is_completed input.status then CommandStatus.completed else CommandStatus.failed;
  claim_token = none;
  lease_expires_at = none;
  result_code = some (default_to input.failure_code (status_text input.status));
  completed_at = some input.now;
  updated_at = input.now;
}

unfoldable pub close_commands : ApplyPrintJobSettlementInput → PrintJob → PrintStore → PrintStore
unfolding is_outstanding closed_command
close_commands input job s = record s {
  commands = update_many (is_outstanding job.id) (closed_command input) s.commands;
}

-- The refund's identifier and the refunds.
unfoldable pub owed_for :
    ApplyPrintJobSettlementInput
    → PrintJob
    → List Payment
    → List PrintRefund
    → Option String × List PrintRefund
unfolding record_print_failure_compensation
owed_for input job payments refunds =
    if input.refund_obligation
    then record_print_failure_compensation input.refund_id input.now job.payment_id job.session_id
        payments refunds
    else (none, refunds)

unfoldable pub compensate :
    ApplyPrintJobSettlementInput → PrintJob → PrintStore → Option String × PrintStore
unfolding owed_for
compensate input job s =
    let owed = owed_for input job s.payments s.refunds in (owed.0, record s { refunds = owed.1 })

unfoldable pub settlement_event :
    ApplyPrintJobSettlementInput → PrintJob → Option String → PrintJobEventInput
settlement_event input job refund_id = record {
  id = input.event_id;
  print_job_id = job.id;
  type = input.ledger_type;
  status = job_status_of input.status;
  now = input.now;
  operation_id = input.operation_id;
  confidence = some input.result_confidence;
  failure_code = input.failure_code;
  warning_code = input.warning_code;
  detail = result_detail input.sheets_produced (is_some refund_id);
  device_detail = input.device_diagnostics;
}

unfoldable pub consumes_paper : ApplyPrintJobSettlementInput → Bool
consumes_paper input =
    is_completed input.status
    && is_confirmed input.result_confidence
    && some_sheets input.sheets_produced

unfoldable pub deduction_for :
    ApplyPrintJobSettlementInput → PrintJob → PaperTable → Option KioskPaperDeduction × PaperTable
unfolding consumes_paper
deduction_for input job paper =
    if consumes_paper input
    then (let deduction =
          apply_kiosk_paper_deduction paper job.kiosk_id (default_to input.sheets_produced (pos 0))
            input.now in
        (some deduction.0, deduction.1))
    else (none, paper)

unfoldable pub consume_paper :
    ApplyPrintJobSettlementInput → PrintJob → PrintStore → Option KioskPaperDeduction × PrintStore
unfolding deduction_for
consume_paper input job s =
    let printed = deduction_for input job s.paper in (printed.0, record s { paper = printed.1 })

-- An empty text is no code and no request.
abbrev pub truthy : Option String → Option String
truthy none = none
truthy (some text) = if str_eq text "" then none else some text

unfoldable pub record_print_audit :
    ApplyPrintJobSettlementInput
    → PrintJob
    → Option String
    → Option KioskPaperDeduction
    → PrintStore
    → PrintStore
unfolding print_audit_outcome
record_print_audit input job refund_id paper s = record s {
  audit =
      record {
        id = input.audit_id;
        occurred_at = input.now;
        actor_type = input.actor_type;
        actor_id = input.actor_id;
        kiosk_id = job.kiosk_id;
        session_id = job.session_id;
        action = print_action input.status;
        outcome = print_audit_outcome input.status;
        request_id = truthy input.request_id;
        print_job_id = job.id;
        result_confidence = input.result_confidence;
        paper = paper;
        failure_code = truthy input.failure_code;
        refund_id = truthy refund_id;
      }
      ∷ s.audit;
}

-- The session's update, under its version.
abbrev pub is_version_of_session : PrintSession → PrintSession → Bool
is_version_of_session session x = str_eq x.id session.id && x.state_version == session.state_version

unfoldable pub ended_session :
    ApplyPrintJobSettlementInput → PrintSession → PrintSession → PrintSession
unfolding terminal_reason_for
ended_session input session x = record x {
  state = session_state_of input.session_state;
  state_version = session.state_version + 1;
  event_sequence = session.event_sequence + 1;
  terminal_reason = some (terminal_reason_for input);
  completed_at = elim input.session_state [
    | SettledSessionState.completed ↦ some input.now
    | _ ↦ x.completed_at
  ];
  updated_at = input.now;
}

unfoldable pub move_session : ApplyPrintJobSettlementInput → PrintSession → PrintStore → PrintStore
unfolding ended_session
move_session input session s = record s {
  sessions = update_many (is_version_of_session session) (ended_session input session) s.sessions;
}

unfoldable pub session_event :
    ApplyPrintJobSettlementInput → PrintJob → PrintSession → PrintOutboxEvent
unfolding session_event_type_for
session_event input job session = record {
  id = input.outbox_id;
  aggregate_id = session.id;
  sequence = session.event_sequence + 1;
  type = session_event_type_for input.session_state;
  state = session_state_of input.session_state;
  version = session.state_version + 1;
  failure = elim input.session_state [
    | SettledSessionState.completed ↦ none
    | _ ↦ some (job.id, default_to input.failure_code default_failure_code, input.result_confidence)
  ];
}

unfoldable pub add_session_event :
    ApplyPrintJobSettlementInput → PrintJob → PrintSession → PrintStore → PrintStore
unfolding session_event
add_session_event input job session s = record s {
  outbox = session_event input job session ∷ s.outbox;
}

-- Credentials and documents, once the session has ended.
unfoldable pub close_session :
    ApplyPrintJobSettlementInput → Option String → PrintSession → PrintStore → Settling
close_session input refund_id session s = do
  cleanup ← schedule_session_files_for_cleanup s.cleanup session.id input.now (
      some (record {
        terminal_state = terminal_state_of input.session_state;
        policy = some input.retention_policy;
      }))
  ok (
    applied_with refund_id (some (session_state_of input.session_state))
        (some (session.state_version + 1)),
    record s { access = revoke_session_access s.access session.id input.now; cleanup = cleanup },
  )

unfoldable pub end_printing :
    ApplyPrintJobSettlementInput → PrintJob → Option String → PrintSession → PrintStore → Settling
unfolding move_session add_session_event close_session
end_printing input job refund_id session s =
    let moved = move_session input session s in
    if matching (is_version_of_session session) s.sessions == 1
    then close_session input refund_id session (add_session_event input job session moved)
    else ok (applied_with refund_id (some session.state) none, moved)

unfoldable pub end_session :
    ApplyPrintJobSettlementInput
    → PrintJob
    → Option String
    → Option PrintSession
    → PrintStore
    → Settling
unfolding end_printing SessionState-discrete
end_session input job refund_id none s = ok (applied_with refund_id none none, s)
end_session input job refund_id (some session) s =
    if same SessionState-discrete session.state SessionState.printing
    then end_printing input job refund_id session s
    else ok (applied_with refund_id (some session.state) none, s)

-- The writes that a settlement makes whatever the session's state is.
unfoldable pub record_settlement :
    ApplyPrintJobSettlementInput → PrintJob → PrintStore → Option String × PrintStore
unfolding close_commands compensate settlement_event record_print_job_event consume_paper
    record_print_audit
record_settlement input job s =
    let owed = compensate input job (close_commands input job s) in
    let logged = record_print_job_event (settlement_event input job owed.0) owed.1 in
    let printed = consume_paper input job logged in
    (owed.0, record_print_audit input job owed.0 printed.0 printed.1)

unfoldable pub find_print_session : String → PrintStore → Option PrintSession
find_print_session id s = find (λ x. str_eq x.id id) s.sessions

unfoldable pub finish_settlement : ApplyPrintJobSettlementInput → PrintJob → PrintStore → Settling
unfolding record_settlement end_session find_print_session
finish_settlement input job s =
    let recorded = record_settlement input job s in
    end_session input job recorded.0 (find_print_session job.session_id recorded.1) recorded.1

unfoldable pub settle_open : ApplyPrintJobSettlementInput → PrintJob → PrintStore → Settling
unfolding settle_job finish_settlement
settle_open input job s =
    let settled = settle_job input job s in
    if matching (is_same_job job) s.jobs == 1
    then finish_settlement input job settled
    else ok (not_applied, settled)

unfoldable pub settle_found : ApplyPrintJobSettlementInput → Option PrintJob → PrintStore → Settling
unfolding is_open_print_job_status settle_open
settle_found input none s = ok (not_applied, s)
settle_found input (some job) s =
    if is_open_print_job_status job.status then settle_open input job s else ok (not_applied, s)

unfoldable pub find_print_job : String → PrintStore → Option PrintJob
find_print_job id s = find (λ j. str_eq j.id id) s.jobs

unfoldable pub apply_print_job_settlement : PrintStore → ApplyPrintJobSettlementInput → Settling
unfolding settle_found find_print_job
apply_print_job_settlement s input = settle_found input (find_print_job input.print_job_id s) s
