-- ===== src/Database/PrintJobs.antt =====
-- packages/database/src/print-jobs.ts: the tables of a print job, its ledger of events, and the
-- obligation that a failed print leaves. The columns of a session that its cleanup schedule writes
-- are rows of the cleanup store. JSON columns are texts.
pub mod Numbering
pub mod Outcome
pub mod Settle
use kiosk_project.Base.{
  ℕ, ◌+◌, max, String, str_eq, Bool, ◌&&◌, Option, none, some, List, [], ◌∷◌, find, if◌then◌else◌,
  same, default_to,
}
use kiosk_project.Base.Int.{ℤ, pos, eqb_ℤ}
use kiosk_project.Domain.PageRanges.{trim}
use kiosk_project.Domain.PrintJob.{PrintConfidence}
use kiosk_project.Domain.Session.{SessionState}
use kiosk_project.Database.Paper.{PaperTable, KioskPaperDeduction}
use kiosk_project.Database.Payments.{Payment, is_captured}
use kiosk_project.Database.Cleanup.{CleanupStore, CredentialStore}

pub data PrintJobStatus : Type 0 where
  queued dispatched printing completed failed canceled recovery_required : PrintJobStatus

unfoldable pub PrintJobStatus-discrete : Discrete PrintJobStatus
PrintJobStatus-discrete = hlevel

abbrev pub open_print_job_statuses : List PrintJobStatus
open_print_job_statuses =
    PrintJobStatus.queued ∷ PrintJobStatus.dispatched ∷ PrintJobStatus.printing ∷ []

pub data PrintJobLedgerType : Type 0 where
  created dispatched claimed submitted progress completed failed cancel_requested canceled
        recovery_required lease_expired deadline_exceeded :
      PrintJobLedgerType

-- A confidence of `none` is the column's `UNKNOWN`.
pub record PrintJob : Type 0 where
  pub id : String
  pub session_id : String
  pub kiosk_id : String
  pub payment_id : String
  pub status : PrintJobStatus
  pub result_confidence : Option PrintConfidence
  pub failure_code : Option String
  pub warning_code : Option String
  pub sheets_produced : Option ℤ
  pub physical_sheets : ℤ
  pub job_manifest : String
  pub job_manifest_hash : String
  pub simulated_outcome : Option String
  pub dispatch_attempts : ℕ
  pub available_at : ℤ
  pub deadline_at : ℤ
  pub created_at : ℤ
  pub dispatched_at : Option ℤ
  pub started_at : Option ℤ
  pub completed_at : Option ℤ
  pub failed_at : Option ℤ
  pub updated_at : ℤ

pub data CommandStatus : Type 0 where
  pending claimed completed failed : CommandStatus

unfoldable pub CommandStatus-discrete : Discrete CommandStatus
CommandStatus-discrete = hlevel

pub record CommandPayload : Type 0 where
  pub manifest : String
  pub manifest_hash : String
  pub simulated_outcome : Option String

-- A command that no print job has is left out, and so the two references are texts.
pub record AgentCommand : Type 0 where
  pub id : String
  pub kiosk_id : String
  pub session_id : String
  pub print_job_id : String
  pub operation_id : String
  pub status : CommandStatus
  pub payload : CommandPayload
  pub attempts : ℕ
  pub available_at : ℤ
  pub claim_token : Option String
  pub claimed_at : Option ℤ
  pub lease_expires_at : Option ℤ
  pub expires_at : ℤ
  pub result_code : Option String
  pub completed_at : Option ℤ
  pub created_at : ℤ
  pub updated_at : ℤ

pub data PrintEventDetail : Type 0 where
  no_detail : PrintEventDetail
  attempt_detail : ℕ → PrintEventDetail
  lease_detail : (attempts : ℕ) (redeliverable : Bool) → PrintEventDetail
  result_detail : (sheets_produced : Option ℤ) (refund_recorded : Bool) → PrintEventDetail

pub record PrintJobEventInput : Type 0 where
  pub id : String
  pub print_job_id : String
  pub type : PrintJobLedgerType
  pub status : PrintJobStatus
  pub now : ℤ
  pub operation_id : Option String
  pub confidence : Option PrintConfidence
  pub failure_code : Option String
  pub warning_code : Option String
  pub detail : PrintEventDetail
  pub device_detail : Option String

-- A row of `print_job_events`: its number beside what it was written from.
pub record PrintJobEvent : Type 0 where
  pub sequence : ℕ
  pub entry : PrintJobEventInput

-- A refund whose reason is `PRINT_FAILED`. Those of other reasons have other keys.
pub record PrintRefund : Type 0 where
  pub id : String
  pub payment_id : String
  pub session_id : String
  pub provider : String
  pub amount_minor : ℤ
  pub currency : List ℕ
  pub currency_exponent : ℤ
  pub status : String
  pub created_at : ℤ
  pub updated_at : ℤ

pub record PrintSession : Type 0 where
  pub id : String
  pub state : SessionState
  pub state_version : ℕ
  pub event_sequence : ℕ
  pub terminal_reason : Option String
  pub completed_at : Option ℤ
  pub updated_at : ℤ

pub record PrintAuditEvent : Type 0 where
  pub id : String
  pub occurred_at : ℤ
  pub actor_type : String
  pub actor_id : String
  pub kiosk_id : String
  pub session_id : String
  pub action : String
  pub outcome : String
  pub request_id : Option String
  pub print_job_id : String
  pub result_confidence : PrintConfidence
  pub paper : Option KioskPaperDeduction
  pub failure_code : Option String
  pub refund_id : Option String

-- An event on a session's stream; only a session that did not complete names what failed.
pub record PrintOutboxEvent : Type 0 where
  pub id : String
  pub aggregate_id : String
  pub sequence : ℕ
  pub type : String
  pub state : SessionState
  pub version : ℕ
  pub failure : Option (String × String × PrintConfidence)

pub record PrintStore : Type 0 where
  pub jobs : List PrintJob
  pub commands : List AgentCommand
  pub events : List PrintJobEvent
  pub payments : List Payment
  pub refunds : List PrintRefund
  pub paper : PaperTable
  pub sessions : List PrintSession
  pub access : CredentialStore
  pub cleanup : CleanupStore
  pub audit : List PrintAuditEvent
  pub outbox : List PrintOutboxEvent

-- The events of a job, newest number first: the number of the first.
unfoldable pub latest_sequence : List PrintJobEvent → String → Option ℕ
latest_sequence [] print_job_id = none
latest_sequence (e ∷ rest) print_job_id =
    let latest = latest_sequence rest print_job_id in
    if str_eq e.entry.print_job_id print_job_id
    then some (max e.sequence (default_to latest 0))
    else latest

unfoldable pub next_print_job_event_sequence : List PrintJobEvent → String → ℕ
unfolding latest_sequence
next_print_job_event_sequence events print_job_id =
    default_to (latest_sequence events print_job_id) 0 + 1

unfoldable pub record_print_job_event : PrintJobEventInput → PrintStore → PrintStore
unfolding next_print_job_event_sequence
record_print_job_event input s = record s {
  events =
      record { sequence = next_print_job_event_sequence s.events input.print_job_id; entry = input }
      ∷ s.events;
}

-- The `where` of the payment that a capture was applied to.
unfoldable pub is_paid_by : String → String → Payment → Bool
unfolding is_captured
is_paid_by payment_id session_id p =
    str_eq p.id payment_id
    && str_eq p.session_id session_id
    && is_captured p
    && p.applied_to_session

unfoldable pub is_refund_of : Payment → PrintRefund → Bool
is_refund_of payment r = str_eq r.payment_id payment.id

unfoldable pub print_refund : String → ℤ → String → Payment → PrintRefund
print_refund id now session_id payment = record {
  id = id;
  payment_id = payment.id;
  session_id = session_id;
  provider = payment.provider;
  amount_minor = payment.amount_minor;
  currency = trim payment.currency;
  currency_exponent = payment.currency_exponent;
  status = "PENDING";
  created_at = now;
  updated_at = now;
}

-- The upsert, on the refund that the payment has.
unfoldable pub upsert_refund :
    PrintRefund → Option PrintRefund → List PrintRefund → Option String × List PrintRefund
upsert_refund fresh none refunds = (some fresh.id, fresh ∷ refunds)
upsert_refund fresh (some there) refunds = (some there.id, refunds)

-- The obligation for the payment that was found.
unfoldable pub compensate_payment :
    String → ℤ → String → Option Payment → List PrintRefund → Option String × List PrintRefund
unfolding upsert_refund print_refund is_refund_of
compensate_payment id now session_id none refunds = (none, refunds)
compensate_payment id now session_id (some payment) refunds =
    if eqb_ℤ payment.amount_minor (pos 0)
    then (none, refunds)
    else upsert_refund (print_refund id now session_id payment)
        (find (is_refund_of payment) refunds) refunds

unfoldable pub record_print_failure_compensation :
    String
    → ℤ
    → String
    → String
    → List Payment
    → List PrintRefund
    → Option String × List PrintRefund
unfolding is_paid_by compensate_payment
record_print_failure_compensation id now payment_id session_id payments refunds =
    compensate_payment id now session_id (find (is_paid_by payment_id session_id) payments) refunds
