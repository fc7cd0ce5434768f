-- ===== src/Api/PrintAgent.antt =====
-- services/api/src/modules/print-jobs/agent-service.ts: a kiosk leases the commands of its print
-- jobs, keeps a lease alive and reports what the device did. A session's row lock, and the attempts
-- that a conflict costs, are the serial order of transactions; what the schemas of the contract
-- refuse is left out.
pub mod Reports
use kiosk_project.Database.PrintJobs.Outcome.{
  SettlementContext, settlement_input, PrintJobSettlementOutcome, is_open_print_job_status,
}
use kiosk_project.Base.{
  ℕ, zero, suc, ◌+◌, ◌*◌, String, str_eq, Bool, true, false, ◌&&◌, ◌||◌, Option, none, some, List,
  [], ◌∷◌, find, any, if◌then◌else◌, ◌==◌, ltb, same, is_some, default_to, includes, Result, ok,
  err, ◌>>=◌, or_throw,
}
use kiosk_project.Base.Int.{ℤ, pos, ◌+ℤ◌, ltb_ℤ, leb_ℤ, eqb_ℤ}
use kiosk_project.Base.Sorting.{sort_by}
use kiosk_project.Domain.Retention.{RetentionPolicy}
use kiosk_project.Domain.PrintJob.{
  PrintDeviceResult, PrintDeviceState, PrintConfidence, PrintJobSettledStatus,
  settle_print_device_result,
}
use kiosk_project.Database.Tables.{update_many, matching}
use kiosk_project.Database.Cleanup.{CleanupError}
use kiosk_project.Database.PrintJobs.{
  PrintJobStatus, PrintJobStatus-discrete, PrintJobLedgerType, PrintJob, CommandStatus,
  CommandStatus-discrete, AgentCommand, CommandPayload, PrintJobEventInput, PrintStore,
  record_print_job_event, no_detail, attempt_detail,
}
use kiosk_project.Database.PrintJobs.Settle.{find_print_job, apply_print_job_settlement}

pub record AgentOptions : Type 0 where
  pub lease_seconds : ℕ
  pub retention_policy : RetentionPolicy

pub data AgentError : Type 0 where
  operation_not_found row_not_found : AgentError
  cleanup_refused : CleanupError → AgentError

-- The lease of a command, as long as the command lives.
unfoldable pub lease_until : AgentOptions → ℤ → ℤ → ℤ
unfolding ◌+ℤ◌
lease_until o now expires_at =
    let lease = now +ℤ pos (o.lease_seconds * 1000) in
    if leb_ℤ lease expires_at then lease else expires_at

unfoldable pub is_open_job : String → PrintJob → Bool
unfolding is_open_print_job_status
is_open_job id j = str_eq j.id id && is_open_print_job_status j.status

unfoldable pub is_claimable : String → ℤ → List PrintJob → AgentCommand → Bool
unfolding is_open_job CommandStatus-discrete
is_claimable kiosk_id now jobs c =
    str_eq c.kiosk_id kiosk_id
    && same CommandStatus-discrete c.status CommandStatus.pending
    && leb_ℤ c.available_at now
    && ltb_ℤ now c.expires_at
    && any (is_open_job c.print_job_id) jobs

unfoldable pub available_first : AgentCommand → AgentCommand → Bool
available_first a b =
    ltb_ℤ a.available_at b.available_at
    || eqb_ℤ a.available_at b.available_at && leb_ℤ a.created_at b.created_at

pub record ClaimInput : Type 0 where
  pub kiosk_id : String
  pub now : ℤ
  pub claim_token : String
  pub event_id : String

pub record AgentPrintCommand : Type 0 where
  pub operation_id : String
  pub print_job_id : String
  pub session_id : String
  pub claim_token : String
  pub payload : CommandPayload
  pub lease_expires_at : ℤ
  pub deadline_at : ℤ
  pub redelivered : Bool

unfoldable pub to_agent_command : AgentOptions → ClaimInput → AgentCommand → AgentPrintCommand
unfolding lease_until
to_agent_command o i c = record {
  operation_id = c.operation_id;
  print_job_id = c.print_job_id;
  session_id = c.session_id;
  claim_token = i.claim_token;
  payload = c.payload;
  lease_expires_at = lease_until o i.now c.expires_at;
  deadline_at = c.expires_at;
  redelivered = ltb 0 c.attempts;
}

-- The row that a claim leases.
unfoldable pub is_candidate : AgentCommand → AgentCommand → Bool
unfolding CommandStatus-discrete
is_candidate c x =
    str_eq x.id c.id
    && same CommandStatus-discrete x.status CommandStatus.pending
    && x.attempts == c.attempts

unfoldable pub leased_command :
    AgentOptions → ClaimInput → AgentCommand → AgentCommand → AgentCommand
unfolding lease_until
leased_command o i c x = record x {
  status = CommandStatus.claimed;
  claim_token = some i.claim_token;
  claimed_at = some i.now;
  lease_expires_at = some (lease_until o i.now c.expires_at);
  attempts = c.attempts + 1;
  updated_at = i.now;
}

-- An entry of the ledger without a result.
abbrev pub agent_event :
    String → ℤ → AgentCommand → PrintJobLedgerType → PrintJobStatus → PrintJobEventInput
agent_event id now c type status = record {
  id = id;
  print_job_id = c.print_job_id;
  type = type;
  status = status;
  now = now;
  operation_id = some c.operation_id;
  confidence = none;
  failure_code = none;
  warning_code = none;
  detail = no_detail;
  device_detail = none;
}

unfoldable pub claimed_event : ClaimInput → AgentCommand → PrintJobEventInput
claimed_event i c =
    record (agent_event i.event_id i.now c PrintJobLedgerType.claimed PrintJobStatus.dispatched) {
      detail = attempt_detail (c.attempts + 1);
    }

unfoldable pub claim_candidate :
    AgentOptions → ClaimInput → AgentCommand → PrintStore → Option AgentPrintCommand × PrintStore
unfolding is_candidate leased_command claimed_event record_print_job_event to_agent_command
claim_candidate o i c s =
    let leased : PrintStore = record s {
      commands = update_many (is_candidate c) (leased_command o i c) s.commands;
    } in
    if matching (is_candidate c) s.commands == 1
    then (some (to_agent_command o i c), record_print_job_event (claimed_event i c) leased)
    else (none, leased)

unfoldable pub claim_found :
    AgentOptions
    → ClaimInput
    → Option AgentCommand
    → PrintStore
    → Option AgentPrintCommand × PrintStore
unfolding claim_candidate
claim_found o i none s = (none, s)
claim_found o i (some c) s = claim_candidate o i c s

unfoldable pub claim_one :
    AgentOptions → ClaimInput → PrintStore → Option AgentPrintCommand × PrintStore
unfolding claim_found is_claimable available_first
claim_one o i s =
    claim_found o i
      (find (is_claimable i.kiosk_id i.now s.jobs) (sort_by available_first s.commands)) s

-- The claims of one request, each with the identifiers that it draws, up to the first that finds
-- nothing.
unfoldable pub claim :
    AgentOptions → (ℕ → ClaimInput) → ℕ → PrintStore → List AgentPrintCommand × PrintStore
unfolding claim_one
claim o draw zero s = ([], s)
claim o draw (suc left) s =
    let (claimed, t) = claim_one o (draw left) s in
    let rest = claim o draw left t in
    elim claimed [ none ↦ ([], t) | some command ↦ (command ∷ rest.0, rest.1) ]
