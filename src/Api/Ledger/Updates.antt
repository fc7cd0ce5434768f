-- ===== src/Api/Ledger/Updates.antt =====
-- What services/api/src/modules/payments/service.ts writes for a callback: one function per write of
-- the transaction, on the tables of the parent.
use kiosk_project.Base.{
  ◌+◌, String, str_eq, Bool, ◌&&◌, ◌||◌, Option, none, some, ◌∷◌, any, find, if◌then◌else◌, ◌==◌,
  same, default_to, Result, ok, err, ◌>>◌, or_throw, require,
}
use kiosk_project.Base.Int.{ℤ, pos, eqb_ℤ}
use kiosk_project.Domain.Session.{
  SessionState, SessionState-discrete, VersionedSessionState, SessionDomainError,
  transition_session,
}
use kiosk_project.Database.Tables.{update_many, matching}
use kiosk_project.Database.Payments.{
  Payment, PaymentStatus, PaymentStatus-discrete, PaymentFailureCode, is_same_row,
  next_attempt_number,
}
use kiosk_project.Providers.{Money, ProviderWebhookType, ProviderWebhookEvent}
use kiosk_project.Api.Ledger.{
  StoredSession, RefundReason, RefundReason-discrete, Refund, WebhookResult, InboxRow,
  OutboxPayload, LedgerStore,
}

pub data WebhookError : Type 0 where
  payment_mismatch_capture_lost_race payment_late_capture_lost_race payment_capture_lost_race
        quote_consumption_lost_race session_paid_lost_race payment_failure_lost_race
        session_release_lost_race row_not_found :
      WebhookError
  domain_error : SessionDomainError → WebhookError

-- What the service brings to one run of the transaction.
pub record Delivery : Type 0 where
  pub provider : String
  pub now : ℤ
  pub request_id : String
  pub attempt_id : String
  pub refund_id : String
  pub outbox_id : String
  pub inbox_id : String
  pub audit_id : String

abbrev pub Transaction : Type 0
Transaction = LedgerStore → Result WebhookError LedgerStore

abbrev pub same_status : PaymentStatus → PaymentStatus → Bool
same_status = same PaymentStatus-discrete

abbrev pub same_state : SessionState → SessionState → Bool
same_state = same SessionState-discrete

-- `FAILURE_STATUSES[type] ?? "DECLINED"`.
unfoldable pub failure_status : ProviderWebhookType → PaymentStatus
failure_status ProviderWebhookType.payment_captured = PaymentStatus.declined
failure_status ProviderWebhookType.payment_declined = PaymentStatus.declined
failure_status ProviderWebhookType.payment_canceled = PaymentStatus.canceled
failure_status ProviderWebhookType.payment_timed_out = PaymentStatus.timed_out

unfoldable pub default_failure_code_of : ProviderWebhookType → PaymentFailureCode
default_failure_code_of ProviderWebhookType.payment_captured = PaymentFailureCode.card_declined
default_failure_code_of ProviderWebhookType.payment_declined = PaymentFailureCode.card_declined
default_failure_code_of ProviderWebhookType.payment_canceled = PaymentFailureCode.customer_canceled
default_failure_code_of ProviderWebhookType.payment_timed_out = PaymentFailureCode.provider_timeout

-- `paymentFailureCodeSchema.safeParse`.
unfoldable pub parse_failure_code : Option String → Option PaymentFailureCode
parse_failure_code none = none
parse_failure_code (some text) =
    if str_eq text "AMOUNT_MISMATCH"
    then some PaymentFailureCode.amount_mismatch
    else if str_eq text "CARD_DECLINED"
    then some PaymentFailureCode.card_declined
    else if str_eq text "CUSTOMER_CANCELED"
    then some PaymentFailureCode.customer_canceled
    else if str_eq text "PROVIDER_TIMEOUT"
    then some PaymentFailureCode.provider_timeout
    else if str_eq text "PROVIDER_UNAVAILABLE"
    then some PaymentFailureCode.provider_unavailable
    else if str_eq text "SESSION_TERMINAL"
    then some PaymentFailureCode.session_terminal
    else none

unfoldable pub read_failure_code : ProviderWebhookEvent → PaymentFailureCode
unfolding parse_failure_code default_failure_code_of
read_failure_code event =
    default_to (parse_failure_code event.failure_code) (default_failure_code_of event.type)

-- `findUniqueOrThrow`.
unfoldable pub find_session : String → LedgerStore → Result WebhookError StoredSession
find_session id s = or_throw (find (λ x. str_eq x.id id) s.sessions) row_not_found

unfoldable pub find_payment : String → LedgerStore → Result WebhookError Payment
find_payment id s = or_throw (find (λ x. str_eq x.id id) s.payments) row_not_found

unfoldable pub set_payments : Payment → (Payment → Payment) → LedgerStore → LedgerStore
unfolding is_same_row
set_payments payment change s = record s {
  payments = update_many (is_same_row payment) change s.payments;
}

-- `payment.updateMany` by the row's identifier and status, which must count one row.
unfoldable pub update_payment : Payment → (Payment → Payment) → WebhookError → Transaction
unfolding is_same_row set_payments
update_payment payment change error s = do
  require (matching (is_same_row payment) s.payments == 1) error
  ok (set_payments payment change s)

unfoldable pub mark_captured : Bool → ℤ → Payment → Payment
mark_captured applied now p = record p {
  status = PaymentStatus.captured;
  applied_to_session = applied;
  captured_at = some now;
  updated_at = now;
}

unfoldable pub mark_failed : PaymentStatus → PaymentFailureCode → ℤ → Payment → Payment
mark_failed status code now p = record p {
  status = status;
  failure_code = some code;
  failed_at = some now;
  updated_at = now;
}

unfoldable pub add_attempt :
    Delivery
    → Payment
    → ProviderWebhookEvent
    → PaymentStatus
    → Option PaymentFailureCode
    → LedgerStore
    → LedgerStore
unfolding next_attempt_number
add_attempt d payment event status code s = record s {
  attempts =
      record {
        id = d.attempt_id;
        payment_id = payment.id;
        attempt = next_attempt_number s.attempts payment.id;
        action = "CAPTURE";
        status = status;
        provider_reference = some event.provider_event_id;
        failure_code = code;
        created_at = d.now;
      }
      ∷ s.attempts;
}

abbrev pub inbox_row : Delivery → ProviderWebhookEvent → Option String → WebhookResult → InboxRow
inbox_row d event payment_id result = record {
  id = d.inbox_id;
  provider = d.provider;
  provider_event_id = event.provider_event_id;
  provider_intent_id = event.provider_intent_id;
  payment_id = payment_id;
  event_type = event.type;
  payload_digest = event.payload_digest;
  result = result;
  received_at = d.now;
  processed_at = d.now;
}

unfoldable pub record_webhook :
    Delivery → ProviderWebhookEvent → Option String → WebhookResult → LedgerStore → LedgerStore
record_webhook d event payment_id result s = record s {
  inbox = inbox_row d event payment_id result ∷ s.inbox;
}

-- The unique key of an obligation.
unfoldable pub is_owed_for : Payment → RefundReason → Refund → Bool
unfolding RefundReason-discrete
is_owed_for payment reason r =
    str_eq r.payment_id payment.id && same RefundReason-discrete r.reason reason

unfoldable pub record_compensation :
    Delivery → Payment → RefundReason → Money → LedgerStore → LedgerStore
unfolding is_owed_for
record_compensation d payment reason amount s =
    if eqb_ℤ amount.amount_minor (pos 0) || any (is_owed_for payment reason) s.refunds
    then s
    else record s {
      refunds =
          record {
            id = d.refund_id;
            payment_id = payment.id;
            session_id = payment.session_id;
            provider = payment.provider;
            reason = reason;
            amount_minor = amount.amount_minor;
            currency = amount.currency;
            currency_exponent = amount.currency_exponent;
            status = "PENDING";
            created_at = d.now;
            updated_at = d.now;
          }
          ∷ s.refunds;
    }

unfoldable pub record_payment_audit :
    Delivery → Payment → String → String → LedgerStore → LedgerStore
record_payment_audit d payment action outcome s = record s {
  audit =
      record {
        id = d.audit_id;
        occurred_at = d.now;
        actor_id = payment.provider;
        session_id = payment.session_id;
        action = action;
        outcome = outcome;
        request_id = d.request_id;
        payment_id = payment.id;
      }
      ∷ s.audit;
}

-- `transitionSession` from the row that was read.
unfoldable pub next_state : StoredSession → SessionState → Result WebhookError VersionedSessionState
next_state session target =
    elim (transition_session (record { state = session.state; version = session.state_version })
      target session.state_version) [ ok next ↦ ok next | err e ↦ err (domain_error e) ]

abbrev pub is_version_of : StoredSession → StoredSession → Bool
is_version_of session x = str_eq x.id session.id && x.state_version == session.state_version

unfoldable pub moved :
    Delivery → StoredSession → VersionedSessionState → StoredSession → StoredSession
moved d session next x = record x {
  state = next.state;
  state_version = next.version;
  event_sequence = session.event_sequence + 1;
  updated_at = d.now;
}

unfoldable pub set_session :
    Delivery → StoredSession → VersionedSessionState → LedgerStore → LedgerStore
unfolding moved
set_session d session next s = record s {
  sessions = update_many (is_version_of session) (moved d session next) s.sessions;
}

-- The session's own update, under its version.
unfoldable pub advance_session :
    Delivery → StoredSession → VersionedSessionState → WebhookError → Transaction
unfolding set_session
advance_session d session next error s = do
  require (matching (is_version_of session) s.sessions == 1) error
  ok (set_session d session next s)

unfoldable pub add_outbox : Delivery → StoredSession → OutboxPayload → LedgerStore → LedgerStore
add_outbox d session payload s = record s {
  outbox =
      record {
        id = d.outbox_id;
        aggregate_id = session.id;
        sequence = session.event_sequence + 1;
        payload = payload;
      }
      ∷ s.outbox;
}
