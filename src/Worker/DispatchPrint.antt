-- ===== src/Worker/DispatchPrint.antt =====
-- services/worker/src/jobs/dispatch-print.ts: paid print jobs become commands, and the commands
-- that never come back are settled. The queue is a parameter. A session's row lock is the serial
-- order of transactions; the identifiers that are drawn at random come with the input.
pub mod Reconcile
use kiosk_project.Database.PrintJobs.Outcome.{
  SettlementContext, settlement_input, is_open_print_job_status,
}
use kiosk_project.Base.{
  ℕ, suc, ◌+◌, ◌*◌, ◌^◌, min, String, str_eq, Bool, true, false, not, ◌&&◌, ◌||◌, Option, none,
  some, List, [], ◌∷◌, find, filter, map, take, if◌then◌else◌, ◌==◌, ltb, leb, same, is_some,
  default_to, includes, Result, ok, err, ◌>>=◌,
}
use kiosk_project.Base.Int.{ℤ, pos, ◌+ℤ◌, ltb_ℤ, leb_ℤ, eqb_ℤ}
use kiosk_project.Base.Sorting.{sort_by}
use kiosk_project.Domain.Retention.{RetentionPolicy}
use kiosk_project.Domain.PrintJob.{
  PrintDeviceResult, PrintDeviceState, PrintJobSettlement, confirmed, unconfirmed,
  settle_print_device_result,
}
use kiosk_project.Database.Tables.{update_many, matching}
use kiosk_project.Database.Cleanup.{CleanupError}
use kiosk_project.Database.PrintJobs.{
  PrintJobStatus, PrintJobStatus-discrete, PrintJobLedgerType, PrintJob, CommandStatus,
  CommandStatus-discrete, AgentCommand, PrintJobEventInput, PrintStore, record_print_job_event,
  attempt_detail, lease_detail,
}
use kiosk_project.Database.PrintJobs.Settle.{find_print_job, apply_print_job_settlement}

abbrev pub max_dispatch_batch : ℕ
max_dispatch_batch = 25

abbrev pub max_reconcile_batch : ℕ
max_reconcile_batch = 25

abbrev pub is_job_status : PrintJobStatus → PrintJobStatus → Bool
is_job_status = same PrintJobStatus-discrete

abbrev pub is_command_status : CommandStatus → CommandStatus → Bool
is_command_status = same CommandStatus-discrete

pub backoff_milliseconds : ℕ → ℕ
backoff_milliseconds attempt = min 30000 (500 * 2 ^ min attempt 6)

-- A job that `dispatchOnce` read.
pub record Candidate : Type 0 where
  pub id : String
  pub dispatch_attempts : ℕ

unfoldable pub is_dispatchable : ℕ → ℤ → PrintJob → Bool
unfolding PrintJobStatus-discrete
is_dispatchable max_dispatch_attempts now j =
    is_job_status j.status PrintJobStatus.queued
    && leb_ℤ j.available_at now
    && ltb j.dispatch_attempts max_dispatch_attempts

-- `orderBy: [{ availableAt: "asc" }, { createdAt: "asc" }]`.
unfoldable pub available_first : PrintJob → PrintJob → Bool
available_first a b =
    ltb_ℤ a.available_at b.available_at
    || eqb_ℤ a.available_at b.available_at && leb_ℤ a.created_at b.created_at

unfoldable pub candidates : ℕ → ℤ → PrintStore → List Candidate
unfolding is_dispatchable available_first
candidates max_dispatch_attempts now s =
    map (λ j. record { id = j.id; dispatch_attempts = j.dispatch_attempts })
      (take max_dispatch_batch
        (sort_by available_first (filter (is_dispatchable max_dispatch_attempts now) s.jobs)))

unfoldable pub is_reservable : Candidate → PrintJob → Bool
unfolding PrintJobStatus-discrete
is_reservable c j =
    str_eq j.id c.id
    && is_job_status j.status PrintJobStatus.queued
    && j.dispatch_attempts == c.dispatch_attempts

unfoldable pub reserved_job : Candidate → ℤ → PrintJob → PrintJob
unfolding backoff_milliseconds ◌+ℤ◌
reserved_job c now j = record j {
  dispatch_attempts = c.dispatch_attempts + 1;
  available_at = now +ℤ pos (backoff_milliseconds (c.dispatch_attempts + 1));
  updated_at = now;
}

-- The reservation of one candidate, and whether it was won.
unfoldable pub reserve_job : Candidate → ℤ → PrintStore → Bool × PrintStore
unfolding is_reservable reserved_job
reserve_job c now s = (
  matching (is_reservable c) s.jobs == 1,
  record s { jobs = update_many (is_reservable c) (reserved_job c now) s.jobs },
)

-- `queue.add` of a job and an attempt: whether the queue took it.
unfoldable pub dispatch_each :
    (String → ℕ → Bool) → ℤ → List Candidate → PrintStore → ℕ × PrintStore
unfolding reserve_job
dispatch_each enqueue now [] s = (0, s)
dispatch_each enqueue now (c ∷ cs) s =
    let reserved = reserve_job c now s in
    let rest = dispatch_each enqueue now cs reserved.1 in
    if reserved.0 && enqueue c.id (c.dispatch_attempts + 1) then (suc rest.0, rest.1) else rest

unfoldable pub dispatch_once : (String → ℕ → Bool) → ℕ → ℤ → PrintStore → ℕ × PrintStore
unfolding candidates dispatch_each
dispatch_once enqueue max_dispatch_attempts now s =
    dispatch_each enqueue now (candidates max_dispatch_attempts now s) s

-- A delivery of the queue.
pub record IssueInput : Type 0 where
  pub print_job_id : String
  pub attempt : ℕ
  pub now : ℤ
  pub command_id : String
  pub operation_id : String
  pub event_id : String

unfoldable pub command_for : IssueInput → PrintJob → AgentCommand
command_for i job = record {
  id = i.command_id;
  kiosk_id = job.kiosk_id;
  session_id = job.session_id;
  print_job_id = job.id;
  operation_id = i.operation_id;
  status = CommandStatus.pending;
  payload = record {
    manifest = job.job_manifest;
    manifest_hash = job.job_manifest_hash;
    simulated_outcome = job.simulated_outcome;
  };
  attempts = 0;
  available_at = i.now;
  claim_token = none;
  claimed_at = none;
  lease_expires_at = none;
  expires_at = job.deadline_at;
  result_code = none;
  completed_at = none;
  created_at = i.now;
  updated_at = i.now;
}

abbrev pub is_command_of : String → AgentCommand → Bool
is_command_of print_job_id c = str_eq c.print_job_id print_job_id

-- The command of a job is written once.
unfoldable pub commands_with : AgentCommand → List AgentCommand → List AgentCommand
commands_with c commands =
    if is_some (find (is_command_of c.print_job_id) commands) then commands else c ∷ commands

unfoldable pub is_queued_job : String → PrintJob → Bool
unfolding PrintJobStatus-discrete
is_queued_job id j = str_eq j.id id && is_job_status j.status PrintJobStatus.queued

unfoldable pub dispatched_job : ℤ → PrintJob → PrintJob
dispatched_job now j = record j {
  status = PrintJobStatus.dispatched;
  dispatched_at = some now;
  updated_at = now;
}

unfoldable pub dispatched_event : IssueInput → PrintJob → PrintJobEventInput
dispatched_event i job = record {
  id = i.event_id;
  print_job_id = job.id;
  type = PrintJobLedgerType.dispatched;
  status = PrintJobStatus.dispatched;
  now = i.now;
  operation_id = none;
  confidence = none;
  failure_code = none;
  warning_code = none;
  detail = attempt_detail i.attempt;
  device_detail = none;
}

unfoldable pub issue_for : IssueInput → PrintJob → PrintStore → PrintStore
unfolding command_for commands_with is_queued_job dispatched_job dispatched_event
    record_print_job_event
issue_for i job s =
    let moved : PrintStore = record s {
      jobs = update_many (is_queued_job job.id) (dispatched_job i.now) s.jobs;
      commands = commands_with (command_for i job) s.commands;
    } in
    if matching (is_queued_job job.id) s.jobs == 1
    then record_print_job_event (dispatched_event i job) moved
    else moved

unfoldable pub issue_found : IssueInput → Option PrintJob → PrintStore → PrintStore
unfolding issue_for PrintJobStatus-discrete
issue_found i none s = s
issue_found i (some job) s =
    if is_job_status job.status PrintJobStatus.queued then issue_for i job s else s

-- The handler of a delivery; the row is read again under the lock, where it is the same.
unfoldable pub issue_command : IssueInput → PrintStore → PrintStore
unfolding issue_found
issue_command i s = issue_found i (find_print_job i.print_job_id s) s
