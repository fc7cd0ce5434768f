-- ===== src/Worker/DispatchPrint/Reconcile.antt =====
-- services/worker/src/jobs/dispatch-print.ts, from line 170: the jobs that the device did not
-- settle. Identifiers are drawn for a command or a job.
use kiosk_project.Database.PrintJobs.Outcome.{
  SettlementContext, settlement_input, is_open_print_job_status,
}
use kiosk_project.Base.{
  ℕ, suc, String, str_eq, Bool, true, false, not, ◌&&◌, ◌||◌, Option, none, some, List, [], ◌∷◌,
  find, filter, map, take, if◌then◌else◌, ◌==◌, leb, default_to, Result, ok, err, ◌>>=◌,
}
use kiosk_project.Base.Int.{ℤ, pos, ltb_ℤ, leb_ℤ}
use kiosk_project.Base.Sorting.{sort_by}
use kiosk_project.Domain.Retention.{RetentionPolicy}
use kiosk_project.Domain.PrintJob.{
  PrintDeviceResult, PrintDeviceState, PrintJobSettlement, confirmed, unconfirmed,
  settle_print_device_result,
}
use kiosk_project.Database.Tables.{update_many, matching}
use kiosk_project.Database.Cleanup.{CleanupError}
use kiosk_project.Database.PrintJobs.{
  PrintJobStatus, PrintJobStatus-discrete, PrintJobLedgerType, PrintJob, CommandStatus,
  CommandStatus-discrete, AgentCommand, PrintJobEventInput, PrintStore, record_print_job_event,
  lease_detail,
}
use kiosk_project.Database.PrintJobs.Settle.{find_print_job, apply_print_job_settlement}
use kiosk_project.Worker.DispatchPrint.{
  is_job_status, is_command_status, is_command_of, max_reconcile_batch,
}

pub record Reconciler : Type 0 where
  pub max_command_attempts : ℕ
  pub retention_policy : RetentionPolicy
  pub now : ℤ
  pub event_id : String → String
  pub refund_id : String → String
  pub audit_id : String → String
  pub outbox_id : String → String

-- Whether a transaction settled or released something, and the tables that it leaves.
abbrev pub Pass : Type 0
Pass = Result CleanupError (Bool × PrintStore)

unfoldable pub has_expired_lease : ℤ → AgentCommand → Bool
unfolding CommandStatus-discrete
has_expired_lease now c =
    is_command_status c.status CommandStatus.claimed
    && elim c.lease_expires_at [ none ↦ false | some lease ↦ leb_ℤ lease now ]

unfoldable pub is_overdue : ℤ → PrintJob → Bool
unfolding is_open_print_job_status
is_overdue now j = is_open_print_job_status j.status && leb_ℤ j.deadline_at now

unfoldable pub find_command : String → PrintStore → Option AgentCommand
find_command id s = find (λ c. str_eq c.id id) s.commands

-- The two results that the dispatcher settles by, with the failure code that each names.
unfoldable pub never_submitted : PrintDeviceResult
never_submitted = record {
  state = PrintDeviceState.not_submitted;
  confidence = confirmed;
  failure_code = some "PRINTER_UNAVAILABLE";
  warning_code = none;
  sheets_produced = some (pos 0);
}

unfoldable pub went_quiet : String → PrintDeviceResult
went_quiet failure_code = record {
  state = PrintDeviceState.unknown;
  confidence = unconfirmed;
  failure_code = some failure_code;
  warning_code = none;
  sheets_produced = none;
}

-- `submissionMayHaveStarted`, of a job that may be missing.
unfoldable pub may_have_started : Option PrintJob → Bool
unfolding PrintJobStatus-discrete
may_have_started none = false
may_have_started (some job) = is_job_status job.status PrintJobStatus.printing

unfoldable pub settlement_of_silence : Bool → String → PrintJobSettlement
unfolding never_submitted went_quiet
settlement_of_silence started failure_code =
    settle_print_device_result (if started then went_quiet failure_code else never_submitted)

unfoldable pub dispatcher_context :
    Reconciler → String → Option String → PrintJobLedgerType → SettlementContext
dispatcher_context o row operation_id ledger_type = record {
  operation_id = operation_id;
  ledger_type = ledger_type;
  actor_type = "SYSTEM";
  actor_id = "print-dispatcher";
  request_id = none;
  now = o.now;
  retention_policy = o.retention_policy;
  device_diagnostics = none;
  refund_id = o.refund_id row;
  event_id = o.event_id row;
  audit_id = o.audit_id row;
  outbox_id = o.outbox_id row;
}

-- The settlement of a job that nobody reported, and whether it applied.
unfoldable pub settle_silent :
    Reconciler
    → String
    → Option String
    → PrintJobLedgerType
    → Bool
    → String
    → String
    → PrintStore
    → Pass
unfolding settlement_of_silence dispatcher_context
settle_silent o row operation_id ledger_type started failure_code print_job_id s = do
  settled ← apply_print_job_settlement s (
      settlement_input print_job_id (settlement_of_silence started failure_code)
        (dispatcher_context o row operation_id ledger_type))
  ok (settled.0.applied, settled.1)

unfoldable pub settle_exhausted : Reconciler → AgentCommand → PrintStore → Pass
unfolding may_have_started settle_silent
settle_exhausted o c s =
    let started = may_have_started (find_print_job c.print_job_id s) in
    settle_silent o c.id (some c.operation_id)
      (if started then PrintJobLedgerType.recovery_required else PrintJobLedgerType.failed) started
      "SUBMISSION_UNCONFIRMED" c.print_job_id s

-- `null` is a token like any other.
abbrev pub same_token : Option String → Option String → Bool
same_token none none = true
same_token (some a) (some b) = str_eq a b
same_token none (some b) = false
same_token (some a) none = false

unfoldable pub is_same_claim : AgentCommand → AgentCommand → Bool
unfolding CommandStatus-discrete
is_same_claim c x =
    str_eq x.id c.id
    && is_command_status x.status CommandStatus.claimed
    && same_token x.claim_token c.claim_token

unfoldable pub released_command : ℤ → AgentCommand → AgentCommand
released_command now c = record c {
  status = CommandStatus.pending;
  claim_token = none;
  lease_expires_at = none;
  available_at = now;
  updated_at = now;
}

unfoldable pub lease_expired_event : Reconciler → AgentCommand → PrintJobEventInput
lease_expired_event o c = record {
  id = o.event_id c.id;
  print_job_id = c.print_job_id;
  type = PrintJobLedgerType.lease_expired;
  status = PrintJobStatus.dispatched;
  now = o.now;
  operation_id = some c.operation_id;
  confidence = none;
  failure_code = none;
  warning_code = none;
  detail = lease_detail c.attempts true;
  device_detail = none;
}

unfoldable pub release_command : Reconciler → AgentCommand → PrintStore → Pass
unfolding is_same_claim released_command lease_expired_event record_print_job_event
release_command o c s =
    let released : PrintStore = record s {
      commands = update_many (is_same_claim c) (released_command o.now) s.commands;
    } in
    if matching (is_same_claim c) s.commands == 1
    then ok (true, record_print_job_event (lease_expired_event o c) released)
    else ok (false, released)

unfoldable pub is_exhausted : Reconciler → AgentCommand → Bool
is_exhausted o c = leb o.max_command_attempts c.attempts || leb_ℤ c.expires_at o.now

unfoldable pub is_releasable : ℤ → AgentCommand → Bool
unfolding CommandStatus-discrete
is_releasable now c =
    is_command_status c.status CommandStatus.claimed
    && not (ltb_ℤ now (default_to c.lease_expires_at (pos 0)))

unfoldable pub release_found : Reconciler → Option AgentCommand → PrintStore → Pass
unfolding is_releasable is_exhausted settle_exhausted release_command
release_found o none s = ok (false, s)
release_found o (some c) s =
    if is_releasable o.now c
    then if is_exhausted o c then settle_exhausted o c s else release_command o c s
    else ok (false, s)

unfoldable pub release_lease : Reconciler → String → PrintStore → Pass
unfolding release_found find_command
release_lease o command_id s = release_found o (find_command command_id s) s

abbrev pub operation_of : Option AgentCommand → Option String
operation_of none = none
operation_of (some c) = some c.operation_id

unfoldable pub settle_found_overdue : Reconciler → Option PrintJob → PrintStore → Pass
unfolding settle_silent may_have_started
settle_found_overdue o none s = ok (false, s)
settle_found_overdue o (some job) s =
    if ltb_ℤ o.now job.deadline_at
    then ok (false, s)
    else settle_silent o job.id (operation_of (find (is_command_of job.id) s.commands))
        PrintJobLedgerType.deadline_exceeded (may_have_started (some job)) "JOB_DEADLINE_EXCEEDED"
        job.id s

unfoldable pub settle_overdue : Reconciler → String → PrintStore → Pass
unfolding settle_found_overdue
settle_overdue o print_job_id s = settle_found_overdue o (find_print_job print_job_id s) s

-- One transaction after another, counting those that settled; the first that throws ends the
-- pass, and what was committed stays.
unfoldable pub each_transaction :
    (String → PrintStore → Pass) → List String → ℕ → PrintStore → Result CleanupError ℕ × PrintStore
each_transaction run [] settled s = (ok settled, s)
each_transaction run (id ∷ ids) settled s = elim (run id s) [
  | err e ↦ (err e, s)
  | ok (counted, t) ↦ each_transaction run ids (if counted then suc settled else settled) t
]

abbrev pub lease_of : AgentCommand → ℤ
lease_of c = default_to c.lease_expires_at (pos 0)

unfoldable pub expired_commands : ℤ → PrintStore → List String
unfolding has_expired_lease
expired_commands now s =
    map (λ c. c.id)
      (take max_reconcile_batch (
        sort_by (λ a b. leb_ℤ (lease_of a) (lease_of b))
          (filter (has_expired_lease now) s.commands)))

unfoldable pub overdue_jobs : ℤ → PrintStore → List String
unfolding is_overdue
overdue_jobs now s =
    map (λ j. j.id)
      (take max_reconcile_batch
        (sort_by (λ a b. leb_ℤ a.deadline_at b.deadline_at) (filter (is_overdue now) s.jobs)))

unfoldable pub reconcile_jobs :
    Reconciler → Result CleanupError ℕ × PrintStore → Result CleanupError ℕ × PrintStore
unfolding settle_overdue each_transaction overdue_jobs
reconcile_jobs o (err e, s) = (err e, s)
reconcile_jobs o (ok settled, s) =
    each_transaction (settle_overdue o) (overdue_jobs o.now s) settled s

unfoldable pub reconcile_once : Reconciler → PrintStore → Result CleanupError ℕ × PrintStore
unfolding reconcile_jobs release_lease each_transaction expired_commands
reconcile_once o s =
    reconcile_jobs o (each_transaction (release_lease o) (expired_commands o.now s) 0 s)
