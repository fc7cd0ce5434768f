-- ===== src/Api/Webhook.antt =====
-- services/api/src/modules/payments/service.ts, lines 495 to 998: a provider's callback, reduced in
-- one transaction. An error rolls the transaction back; the identifiers that it draws at random
-- come with the delivery, one for each kind of row. The row lock is the serial order of
-- transactions, and so has no step of its own.
pub mod Steps
pub mod Redelivery
pub mod Captured
pub mod Obligations
pub mod Paid
pub mod Apart
pub mod Moved
pub mod Confined
pub mod History
pub mod Handler
pub mod Examples
use kiosk_project.Api.Ledger.Updates.{
  Delivery, Transaction, WebhookError, add_attempt, add_outbox, advance_session,
  default_failure_code_of, domain_error, failure_status, find_payment, find_session, inbox_row,
  is_owed_for, is_version_of, mark_captured, mark_failed, moved, next_state, parse_failure_code,
  payment_capture_lost_race, payment_failure_lost_race, payment_late_capture_lost_race,
  payment_mismatch_capture_lost_race, quote_consumption_lost_race, read_failure_code,
  record_compensation, record_payment_audit, record_webhook, row_not_found, same_state, same_status,
  session_paid_lost_race, session_release_lost_race, set_payments, set_session, update_payment,
}
use kiosk_project.Base.{
  codes_eq, ℕ, ◌+◌, String, str_eq, Bool, true, false, not, ◌&&◌, ◌||◌, Option, none, some, List,
  [], ◌∷◌, any, find, if◌then◌else◌, ◌==◌, same, is_some, default_to, Result, ok, err, ◌>>=◌, ◌>>◌,
  or_throw, refuse_if, require,
}
use kiosk_project.Base.Int.{ℤ, pos, ltb_ℤ, eqb_ℤ}
use kiosk_project.Domain.Session.{
  SessionState, SessionState-discrete, VersionedSessionState, SessionDomainError,
  transition_session, awaiting_payment, configuring,
}
use kiosk_project.Domain.PageRanges.{trim}
use kiosk_project.Database.Tables.{update_many, matching}
use kiosk_project.Database.Payments.{
  Payment, PaymentAttempt, PaymentStatus, PaymentStatus-discrete, PaymentFailureCode, is_same_row,
  is_open_status, next_attempt_number,
}
use kiosk_project.Database.Quotes.{PriceQuote, QuoteStatus, is_active_status}
use kiosk_project.Providers.{Money, ProviderWebhookType, ProviderWebhookEvent, payment_captured}
use kiosk_project.Api.Ledger.{
  StoredSession, RefundReason, RefundReason-discrete, Refund, WebhookResult, InboxRow,
  PaymentSucceeded, PaymentFailed, OutboxPayload, OutboxEvent, AuditEvent, LedgerStore,
  payment_succeeded, payment_failed,
}

-- The session goes back to configuring, with the event that says why.
pub release_session :
    Delivery → Payment → StoredSession → PaymentStatus → PaymentFailureCode → Transaction
unfolding next_state advance_session add_outbox
release_session d payment session status code s = do
  next ← next_state session configuring
  s_1 ← advance_session d session next session_release_lost_race s
  ok (
      add_outbox d session
        (payment_failed (record {
          session_id = session.id;
          payment_id = payment.id;
          state = next.state;
          version = next.version;
          status = status;
          failure_code = code;
        }))
        s_1)

pub release_when_awaiting :
    Delivery → Payment → StoredSession → PaymentStatus → PaymentFailureCode → Transaction
unfolding release_session SessionState-discrete
release_when_awaiting d payment session status code s =
    if same_state session.state awaiting_payment
    then release_session d payment session status code s
    else ok s

pub release_after_compensated_capture :
    Delivery → Payment → StoredSession → PaymentFailureCode → Transaction
unfolding release_when_awaiting
release_after_compensated_capture d payment session code s =
    release_when_awaiting d payment session PaymentStatus.captured code s

-- A capture that cannot be applied still closes its payment, unless that is one of these.
pub record_unapplied : (PaymentStatus → Bool) → Delivery → Payment → WebhookError → Transaction
unfolding update_payment mark_captured
record_unapplied is_final d payment error s =
    if is_final payment.status
    then ok s
    else update_payment payment (mark_captured false d.now) error s

pub is_captured_or_declined : PaymentStatus → Bool
unfolding PaymentStatus-discrete
is_captured_or_declined status =
    same_status status PaymentStatus.captured || same_status status PaymentStatus.declined

pub is_declined : PaymentStatus → Bool
unfolding PaymentStatus-discrete
is_declined status = same_status status PaymentStatus.declined

-- A capture of another amount.
pub mismatch_capture : Delivery → Payment → ProviderWebhookEvent → Transaction
unfolding record_unapplied add_attempt record_compensation release_after_compensated_capture
    is_captured_or_declined find_session
mismatch_capture d payment event s = do
  s_1 ← record_unapplied is_captured_or_declined d payment payment_mismatch_capture_lost_race s
  let s_2 = add_attempt d payment event PaymentStatus.captured none s_1
  let s_3 = record_compensation d payment RefundReason.amount_mismatch event.amount s_2
  session ← find_session payment.session_id s_3
  release_after_compensated_capture d payment session PaymentFailureCode.amount_mismatch s_3

pub is_capture : ProviderWebhookType → Bool
is_capture ProviderWebhookType.payment_captured = true
is_capture _ = false

pub mismatch : Delivery → Payment → ProviderWebhookEvent → Transaction
unfolding mismatch_capture is_capture record_webhook record_payment_audit
mismatch d payment event s = do
  s_1 ← if is_capture event.type then mismatch_capture d payment event s else ok s
  ok (
      record_payment_audit d payment "payment.amount_mismatch" "REFUSED"
        (record_webhook d event (some payment.id) WebhookResult.amount_mismatch s_1))

pub unapplied_capture : Delivery → Payment → StoredSession → ProviderWebhookEvent → Transaction
unfolding record_unapplied add_attempt record_compensation release_after_compensated_capture
    record_webhook record_payment_audit is_declined
unapplied_capture d payment session event s = do
  s_1 ← record_unapplied is_declined d payment payment_late_capture_lost_race s
  let s_2 = add_attempt d payment event PaymentStatus.captured none s_1
  let s_3 = record_compensation d payment RefundReason.late_capture event.amount s_2
  let s_4 = record_webhook d event (some payment.id) WebhookResult.late_capture s_3
  s_5 ← release_after_compensated_capture d payment session PaymentFailureCode.provider_timeout s_4
  ok (record_payment_audit d payment "payment.late_capture" "RECOVERY_REQUIRED" s_5)

pub is_quote_of : Payment → PriceQuote → Bool
is_quote_of payment q = str_eq q.id payment.quote_id && str_eq q.session_id payment.session_id

pub is_payable_quote : ℤ → Option PriceQuote → Bool
unfolding is_active_status
is_payable_quote now none = false
is_payable_quote now (some q) = is_active_status q.status && ltb_ℤ now q.expires_at

-- `effective`.
pub is_effective : ℤ → Payment → StoredSession → Option PriceQuote → Bool
unfolding is_open_status is_payable_quote SessionState-discrete
is_effective now payment session quote =
    is_open_status payment.status
    && same_state session.state awaiting_payment
    && ltb_ℤ now payment.expires_at
    && is_payable_quote now quote

pub is_consumed_by : Payment → PriceQuote → Bool
unfolding is_quote_of is_active_status
is_consumed_by payment q = is_quote_of payment q && is_active_status q.status

pub set_quotes : Payment → LedgerStore → LedgerStore
unfolding is_consumed_by
set_quotes payment s = record s {
  quotes =
      update_many (is_consumed_by payment) (λ q. record q { status = QuoteStatus.consumed })
        s.quotes;
}

pub consume_quote : Payment → Transaction
unfolding is_consumed_by set_quotes
consume_quote payment s = do
  require (matching (is_consumed_by payment) s.quotes == 1) quote_consumption_lost_race
  ok (set_quotes payment s)

pub succeeded : Delivery → Payment → StoredSession → VersionedSessionState → OutboxPayload
succeeded d payment session next = payment_succeeded (record {
  session_id = session.id;
  payment_id = payment.id;
  quote_id = payment.quote_id;
  state = next.state;
  version = next.version;
  currency = trim payment.currency;
  currency_exponent = payment.currency_exponent;
  amount_minor = payment.amount_minor;
  captured_at = d.now;
})

pub effective_capture : Delivery → Payment → StoredSession → ProviderWebhookEvent → Transaction
unfolding update_payment mark_captured consume_quote next_state advance_session add_attempt
    add_outbox succeeded record_webhook record_payment_audit
effective_capture d payment session event s = do
  s_1 ← update_payment payment (mark_captured true d.now) payment_capture_lost_race s
  s_2 ← consume_quote payment s_1
  next ← next_state session SessionState.paid
  s_3 ← advance_session d session next session_paid_lost_race s_2
  let s_4 = add_attempt d payment event PaymentStatus.captured none s_3
  let s_5 = add_outbox d session (succeeded d payment session next) s_4
  let s_6 = record_webhook d event (some payment.id) WebhookResult.captured s_5
  ok (record_payment_audit d payment "payment.captured" "SUCCESS" s_6)

pub is_captured_status : PaymentStatus → Bool
unfolding PaymentStatus-discrete
is_captured_status status = same_status status PaymentStatus.captured

pub capture_for :
    Delivery → Payment → StoredSession → Option PriceQuote → ProviderWebhookEvent → Transaction
unfolding is_effective effective_capture unapplied_capture
capture_for d payment session quote event s =
    if is_effective d.now payment session quote
    then effective_capture d payment session event s
    else unapplied_capture d payment session event s

pub apply_new_capture : Delivery → Payment → ProviderWebhookEvent → Transaction
unfolding find_session capture_for is_quote_of
apply_new_capture d payment event s = do
  session ← find_session payment.session_id s
  capture_for d payment session (find (is_quote_of payment) s.quotes) event s

pub apply_capture : Delivery → Payment → ProviderWebhookEvent → Transaction
unfolding apply_new_capture is_captured_status record_webhook
apply_capture d payment event s =
    if is_captured_status payment.status
    then ok (record_webhook d event (some payment.id) WebhookResult.duplicate_capture s)
    else apply_new_capture d payment event s

pub apply_new_failure : Delivery → Payment → ProviderWebhookEvent → Transaction
unfolding failure_status read_failure_code update_payment mark_failed add_attempt find_session
    release_when_awaiting record_webhook record_payment_audit
apply_new_failure d payment event s = do
  let status = failure_status event.type
  let code = read_failure_code event
  s_1 ← update_payment payment (mark_failed status code d.now) payment_failure_lost_race s
  let s_2 = add_attempt d payment event status (some code) s_1
  session ← find_session payment.session_id s_2
  s_3 ← release_when_awaiting d payment session status code s_2
  ok (
      record_payment_audit d payment "payment.failed" "FAILURE"
        (record_webhook d event (some payment.id) WebhookResult.failed s_3))

pub apply_failure : Delivery → Payment → ProviderWebhookEvent → Transaction
unfolding apply_new_failure is_open_status record_webhook
apply_failure d payment event s =
    if is_open_status payment.status
    then apply_new_failure d payment event s
    else ok (record_webhook d event (some payment.id) WebhookResult.ignored_terminal_payment s)

-- The amounts agree; the column pads a currency with spaces.
pub is_amount_of : Payment → Money → Bool
is_amount_of payment amount =
    eqb_ℤ amount.amount_minor payment.amount_minor
    && codes_eq amount.currency (trim payment.currency)
    && eqb_ℤ amount.currency_exponent payment.currency_exponent

pub settle_event : Delivery → Payment → ProviderWebhookEvent → Transaction
unfolding is_amount_of mismatch is_capture apply_capture apply_failure
settle_event d payment event s =
    if not (is_amount_of payment event.amount)
    then mismatch d payment event s
    else if is_capture event.type
    then apply_capture d payment event s
    else apply_failure d payment event s

pub is_recorded : Delivery → ProviderWebhookEvent → InboxRow → Bool
is_recorded d event row =
    str_eq row.provider d.provider && str_eq row.provider_event_id event.provider_event_id

pub is_intent_of : Delivery → ProviderWebhookEvent → Payment → Bool
is_intent_of d event p =
    str_eq p.provider d.provider && str_eq p.provider_intent_id event.provider_intent_id

pub settle_known : Delivery → ProviderWebhookEvent → Option Payment → Transaction
unfolding find_payment settle_event record_webhook
settle_known d event none s =
    ok (record_webhook d event none WebhookResult.ignored_unknown_intent s)
settle_known d event (some known) s = do
  payment ← find_payment known.id s
  settle_event d payment event s

pub reduce_webhook_event : Delivery → ProviderWebhookEvent → Transaction
unfolding is_recorded is_intent_of settle_known
reduce_webhook_event d event s =
    if any (is_recorded d event) s.inbox
    then ok s
    else settle_known d event (find (is_intent_of d event) s.payments) s
