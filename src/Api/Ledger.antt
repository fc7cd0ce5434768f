-- ===== src/Api/Ledger.antt =====
-- The tables that services/api/src/modules/payments/service.ts reads and writes. Rows keep the
-- columns that the service uses; payments, attempts and quotes are those of the database package.
pub mod Updates
use kiosk_project.Base.{ℕ, String, Option, List}
use kiosk_project.Base.Int.{ℤ}
use kiosk_project.Domain.Session.{SessionState}
use kiosk_project.Database.Payments.{Payment, PaymentAttempt, PaymentStatus, PaymentFailureCode}
use kiosk_project.Database.Quotes.{PriceQuote}
use kiosk_project.Providers.{ProviderWebhookType}

pub record StoredSession : Type 0 where
  pub id : String
  pub state : SessionState
  pub state_version : ℕ
  pub event_sequence : ℕ
  pub updated_at : ℤ

pub data RefundReason : Type 0 where
  late_capture amount_mismatch : RefundReason

unfoldable pub RefundReason-discrete : Discrete RefundReason
RefundReason-discrete = hlevel

-- An obligation to give money back. Its `status` is `PENDING` when it is written.
pub record Refund : Type 0 where
  pub id : String
  pub payment_id : String
  pub session_id : String
  pub provider : String
  pub reason : RefundReason
  pub amount_minor : ℤ
  pub currency : List ℕ
  pub currency_exponent : ℤ
  pub status : String
  pub created_at : ℤ
  pub updated_at : ℤ

-- What became of a callback.
pub data WebhookResult : Type 0 where
  ignored_unknown_intent amount_mismatch duplicate_capture late_capture captured
        ignored_terminal_payment failed :
      WebhookResult

pub record InboxRow : Type 0 where
  pub id : String
  pub provider : String
  pub provider_event_id : String
  pub provider_intent_id : String
  pub payment_id : Option String
  pub event_type : ProviderWebhookType
  pub payload_digest : String
  pub result : WebhookResult
  pub received_at : ℤ
  pub processed_at : ℤ

pub record PaymentSucceeded : Type 0 where
  pub session_id : String
  pub payment_id : String
  pub quote_id : String
  pub state : SessionState
  pub version : ℕ
  pub currency : List ℕ
  pub currency_exponent : ℤ
  pub amount_minor : ℤ
  pub captured_at : ℤ

pub record PaymentFailed : Type 0 where
  pub session_id : String
  pub payment_id : String
  pub state : SessionState
  pub version : ℕ
  pub status : PaymentStatus
  pub failure_code : PaymentFailureCode

-- The event's type with its payload.
pub data OutboxPayload : Type 0 where
  payment_succeeded : PaymentSucceeded → OutboxPayload
  payment_failed : PaymentFailed → OutboxPayload

pub record OutboxEvent : Type 0 where
  pub id : String
  pub aggregate_id : String
  pub sequence : ℕ
  pub payload : OutboxPayload

-- The metadata of an audit event is left out, but for the payment that it names.
pub record AuditEvent : Type 0 where
  pub id : String
  pub occurred_at : ℤ
  pub actor_id : String
  pub session_id : String
  pub action : String
  pub outcome : String
  pub request_id : String
  pub payment_id : String

pub record LedgerStore : Type 0 where
  pub payments : List Payment
  pub attempts : List PaymentAttempt
  pub sessions : List StoredSession
  pub quotes : List PriceQuote
  pub refunds : List Refund
  pub inbox : List InboxRow
  pub outbox : List OutboxEvent
  pub audit : List AuditEvent
