-- ===== src/Api/PrintAgent/Reports.antt =====
-- services/api/src/modules/print-jobs/agent-service.ts, the reports of a kiosk: progress, which
-- keeps the lease alive, and the result.
use kiosk_project.Database.PrintJobs.Outcome.{SettlementContext, settlement_input}
use kiosk_project.Base.{
  String, str_eq, Bool, true, false, ◌&&◌, Option, none, some, [], ◌∷◌, find, if◌then◌else◌, ◌==◌,
  same, default_to, includes, Result, ok, err, ◌>>=◌, or_throw,
}
use kiosk_project.Base.Int.{ℤ, pos, ltb_ℤ, leb_ℤ}
use kiosk_project.Domain.PrintJob.{
  PrintDeviceResult, PrintJobSettledStatus, settle_print_device_result,
}
use kiosk_project.Database.Tables.{update_many, matching}
use kiosk_project.Database.Cleanup.{CleanupError}
use kiosk_project.Database.PrintJobs.{
  PrintJobStatus, PrintJobStatus-discrete, PrintJobLedgerType, PrintJob, CommandStatus,
  CommandStatus-discrete, AgentCommand, PrintStore, record_print_job_event,
}
use kiosk_project.Database.PrintJobs.Settle.{find_print_job, apply_print_job_settlement}
use kiosk_project.Api.PrintAgent.{
  AgentOptions, AgentError, agent_event, lease_until, operation_not_found, row_not_found,
  cleanup_refused,
}

-- The answer to a report.
pub record AgentCommandAck : Type 0 where
  pub accepted : Bool
  pub print_job_status : PrintJobStatus

abbrev pub Acknowledged : Type 0
Acknowledged = Result AgentError (AgentCommandAck × PrintStore)

unfoldable pub acknowledge : String → Bool → PrintStore → Acknowledged
acknowledge print_job_id accepted s = do
  job ← or_throw (find_print_job print_job_id s) row_not_found
  ok (record { accepted = accepted; print_job_status = job.status }, s)

unfoldable pub is_operation_of : String → String → AgentCommand → Bool
is_operation_of kiosk_id operation_id c =
    str_eq c.operation_id operation_id && str_eq c.kiosk_id kiosk_id

-- `withSessionTransaction`, up to what is run under the lock.
unfoldable pub with_session_transaction :
    String → String → (AgentCommand → PrintStore → Acknowledged) → PrintStore → Acknowledged
unfolding is_operation_of
with_session_transaction kiosk_id operation_id run s = do
  command ← or_throw (find (is_operation_of kiosk_id operation_id) s.commands) operation_not_found
  run command s

abbrev pub is_token : String → Option String → Bool
is_token claim_token none = false
is_token claim_token (some token) = str_eq token claim_token

-- The command is claimed under this token, and neither its lease nor its life is over.
unfoldable pub holds_lease : String → ℤ → AgentCommand → Bool
unfolding CommandStatus-discrete
holds_lease claim_token now c =
    same CommandStatus-discrete c.status CommandStatus.claimed
    && is_token claim_token c.claim_token
    && ltb_ℤ now (default_to c.lease_expires_at (pos 0))
    && ltb_ℤ now c.expires_at

unfoldable pub renewal_of : AgentOptions → String → ℤ → Option AgentCommand → Option ℤ
unfolding holds_lease lease_until
renewal_of o claim_token now none = none
renewal_of o claim_token now (some c) =
    if holds_lease claim_token now c then some (lease_until o now c.expires_at) else none

unfoldable pub renewed_lease_expiry : AgentOptions → String → String → ℤ → PrintStore → Option ℤ
unfolding renewal_of
renewed_lease_expiry o command_id claim_token now s =
    renewal_of o claim_token now (find (λ c. str_eq c.id command_id) s.commands)

pub data ProgressState : Type 0 where
  preparing submitted printing : ProgressState

abbrev pub crosses_submission_boundary : ProgressState → Bool
crosses_submission_boundary preparing = false
crosses_submission_boundary submitted = true
crosses_submission_boundary printing = true

abbrev pub progress_type : ProgressState → PrintJobLedgerType
progress_type submitted = PrintJobLedgerType.submitted
progress_type preparing = PrintJobLedgerType.progress
progress_type printing = PrintJobLedgerType.progress

pub record ProgressInput : Type 0 where
  pub kiosk_id : String
  pub operation_id : String
  pub claim_token : String
  pub state : ProgressState
  pub now : ℤ
  pub event_id : String

-- A lease that has no end is not after any time.
abbrev pub ends_after : ℤ → Option ℤ → Bool
ends_after now none = false
ends_after now (some lease) = ltb_ℤ now lease

unfoldable pub is_renewable : ProgressInput → AgentCommand → AgentCommand → Bool
unfolding CommandStatus-discrete
is_renewable i c x =
    str_eq x.id c.id
    && same CommandStatus-discrete x.status CommandStatus.claimed
    && is_token i.claim_token x.claim_token
    && ends_after i.now x.lease_expires_at
    && ltb_ℤ i.now x.expires_at

unfoldable pub renewed_command : ℤ → ℤ → AgentCommand → AgentCommand
renewed_command lease now x = record x { lease_expires_at = some lease; updated_at = now }

-- A job that the device has not been handed yet.
unfoldable pub is_startable : ProgressInput → AgentCommand → PrintJob → Bool
unfolding PrintJobStatus-discrete
is_startable i c j =
    crosses_submission_boundary i.state
    && str_eq j.id c.print_job_id
    && includes PrintJobStatus-discrete (PrintJobStatus.queued ∷ PrintJobStatus.dispatched ∷ [])
        j.status

unfoldable pub started_job : ℤ → PrintJob → PrintJob
started_job now j = record j {
  status = PrintJobStatus.printing;
  started_at = some now;
  updated_at = now;
}

-- The report of a lease that was renewed. Below the boundary the update names no row.
unfoldable pub progress_renewed : ProgressInput → AgentCommand → PrintStore → Acknowledged
unfolding is_startable started_job record_print_job_event acknowledge
progress_renewed i c s = do
  let started : PrintStore = record s {
    jobs = update_many (is_startable i c) (started_job i.now) s.jobs;
  }
  job ← or_throw (find_print_job c.print_job_id started) row_not_found
  let status =
      if matching (is_startable i c) s.jobs == 1 then PrintJobStatus.printing else job.status
  acknowledge c.print_job_id true (
      record_print_job_event (agent_event i.event_id i.now c (progress_type i.state) status)
        started)

unfoldable pub progress_held : ProgressInput → AgentCommand → ℤ → PrintStore → Acknowledged
unfolding is_renewable renewed_command progress_renewed acknowledge
progress_held i c lease s =
    let renewed : PrintStore = record s {
      commands = update_many (is_renewable i c) (renewed_command lease i.now) s.commands;
    } in
    if matching (is_renewable i c) s.commands == 1
    then progress_renewed i c renewed
    else acknowledge c.print_job_id false renewed

unfoldable pub progress_for : ProgressInput → AgentCommand → Option ℤ → PrintStore → Acknowledged
unfolding progress_held acknowledge
progress_for i c none s = acknowledge c.print_job_id false s
progress_for i c (some lease) s = progress_held i c lease s

unfoldable pub progress_locked :
    AgentOptions → ProgressInput → AgentCommand → PrintStore → Acknowledged
unfolding progress_for renewed_lease_expiry
progress_locked o i c s = progress_for i c (renewed_lease_expiry o c.id i.claim_token i.now s) s

unfoldable pub report_progress : AgentOptions → ProgressInput → PrintStore → Acknowledged
unfolding with_session_transaction progress_locked
report_progress o i = with_session_transaction i.kiosk_id i.operation_id (progress_locked o i)

-- A count above the job's is a device that the control plane cannot read.
unfoldable pub sheets_within_job : Option ℤ → ℤ → Option ℤ
sheets_within_job none physical_sheets = none
sheets_within_job (some reported) physical_sheets =
    if leb_ℤ reported physical_sheets then some reported else none

unfoldable pub ledger_type_for : PrintJobSettledStatus → PrintJobLedgerType
ledger_type_for PrintJobSettledStatus.completed = PrintJobLedgerType.completed
ledger_type_for PrintJobSettledStatus.canceled = PrintJobLedgerType.canceled
ledger_type_for PrintJobSettledStatus.recovery_required = PrintJobLedgerType.recovery_required
ledger_type_for PrintJobSettledStatus.failed = PrintJobLedgerType.failed

-- The report of a result, with the two readings of the clock.
pub record ResultInput : Type 0 where
  pub kiosk_id : String
  pub credential_id : String
  pub operation_id : String
  pub request_id : String
  pub claim_token : String
  pub body : PrintDeviceResult
  pub device_diagnostics : Option String
  pub held_at : ℤ
  pub now : ℤ
  pub refund_id : String
  pub event_id : String
  pub audit_id : String
  pub outbox_id : String

unfoldable pub readable_result : ResultInput → PrintJob → PrintDeviceResult
unfolding sheets_within_job
readable_result i job = record i.body {
  sheets_produced = sheets_within_job i.body.sheets_produced job.physical_sheets;
}

unfoldable pub result_context :
    AgentOptions → ResultInput → AgentCommand → PrintJobSettledStatus → SettlementContext
unfolding ledger_type_for
result_context o i c status = record {
  operation_id = some c.operation_id;
  ledger_type = ledger_type_for status;
  actor_type = "KIOSK_AGENT";
  actor_id = i.credential_id;
  request_id = some i.request_id;
  now = i.now;
  retention_policy = o.retention_policy;
  device_diagnostics = i.device_diagnostics;
  refund_id = i.refund_id;
  event_id = i.event_id;
  audit_id = i.audit_id;
  outbox_id = i.outbox_id;
}

abbrev pub or_refused {ℓ} : {A : Type ℓ} → Result CleanupError A → Result AgentError A
or_refused (ok a) = ok a
or_refused (err e) = err (cleanup_refused e)

unfoldable pub result_held : AgentOptions → ResultInput → AgentCommand → PrintStore → Acknowledged
unfolding readable_result result_context acknowledge
result_held o i c s = do
  job ← or_throw (find_print_job c.print_job_id s) row_not_found
  let settlement = settle_print_device_result (readable_result i job)
  settled ← or_refused (
      apply_print_job_settlement s
        (settlement_input c.print_job_id settlement (result_context o i c settlement.status)))
  acknowledge c.print_job_id settled.0.applied settled.1

unfoldable pub result_for :
    AgentOptions → ResultInput → AgentCommand → Option ℤ → PrintStore → Acknowledged
unfolding result_held acknowledge
result_for o i c none s = acknowledge c.print_job_id false s
result_for o i c (some lease) s = result_held o i c s

unfoldable pub result_locked : AgentOptions → ResultInput → AgentCommand → PrintStore → Acknowledged
unfolding result_for renewed_lease_expiry
result_locked o i c s = result_for o i c (renewed_lease_expiry o c.id i.claim_token i.held_at s) s

unfoldable pub report_result : AgentOptions → ResultInput → PrintStore → Acknowledged
unfolding with_session_transaction result_locked
report_result o i = with_session_transaction i.kiosk_id i.operation_id (result_locked o i)
