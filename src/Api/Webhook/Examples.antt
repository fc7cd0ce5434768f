-- ===== src/Api/Webhook/Examples.antt =====
-- Callbacks of services/api/src/modules/payments/service.ts on concrete tables.
use kiosk_project.Api.Ledger.Updates.{Delivery, WebhookError}
use kiosk_project.Domain.PageRanges.{trim}
use kiosk_project.Api.Webhook.Paid.{reduce_webhook_event-paid, PaidBy}
use kiosk_project.Api.Webhook.Handler.Responses.{
  handle_webhook-contended, handle_webhook-Recorded, handle_webhook-retries,
}
use kiosk_project.Api.Transactions.{
  is_retryable_transaction_error, is_unique_constraint_error, ThrownError,
}
use kiosk_project.Api.Webhook.History.{
  redelivered_without_effect, captured_forever, start, callback, session_end, History-Accounted,
  released, History,
}
use kiosk_project.Api.Webhook.Obligations.{is_accounted, Accounted}
use kiosk_project.Api.Webhook.Handler.{
  acknowledged, payment_callback_contended, after_attempt, again, commit, run_attempts, Attempt,
  attempt_once, handle_webhook,
}
use kiosk_project.Api.Webhook.Redelivery.{Recorded}
use kiosk_project.Api.Webhook.Confined.{reduce_webhook_event-Confined, Confined}
use kiosk_project.Database.Tables.{matching, update_many}
use kiosk_project.Database.Quotes.{QuoteStatus}
use kiosk_project.Domain.Session.{
  configuring, SessionState, transition_session, can_transition_session, awaiting_payment,
}
use kiosk_project.Api.Ledger.{StoredSession, LedgerStore}
use kiosk_project.Api.Webhook.{reduce_webhook_event}
use kiosk_project.Providers.{payment_captured, ProviderWebhookEvent}
use kiosk_project.Database.Payments.{
  PaymentStatus-discrete, ReleaseInput, is_captured, PaymentStatus, Payment,
}
use kiosk_project.Base.{
  map, ◌⊎◌, ℕ, zero, suc, ◌<◌, ◌≤◌, ◌≡◌, refl, true, false, some, none, ok, err, Result, List, [],
  ◌∷◌, codes, Option, arith, String,
}
use kiosk_project.Base.Int.{pos}
use mathlib.Core.List.Memᴰ.{head, tail}
use mathlib.Core.List.{Memᴰ}

abbrev payment : String → PaymentStatus → Payment
payment id status = record {
  id = id;
  session_id = "s1";
  quote_id = "q1";
  provider = "MOCK";
  provider_intent_id = id;
  status = status;
  applied_to_session = false;
  amount_minor = pos 414;
  currency = codes "AMD";
  currency_exponent = pos 2;
  failure_code = none;
  expires_at = pos 900;
  captured_at = none;
  failed_at = none;
  updated_at = pos 0;
}

abbrev waiting : StoredSession
waiting = record {
  id = "s1";
  state = awaiting_payment;
  state_version = 3;
  event_sequence = 7;
  updated_at = pos 0;
}

abbrev ledger : List Payment → LedgerStore
ledger payments = record {
  payments = payments;
  attempts = [];
  sessions = waiting ∷ [];
  quotes =
      record {
        id = "q1";
        session_id = "s1";
        status = QuoteStatus.active;
        expires_at = pos 950;
        invalidated_at = none;
        invalidation_reason = none;
      }
      ∷ [];
  refunds = [];
  inbox = [];
  outbox = [];
  audit = [];
}

abbrev delivery : Delivery
delivery = record {
  provider = "MOCK";
  now = pos 100;
  request_id = "r";
  attempt_id = "x";
  refund_id = "f";
  outbox_id = "o";
  inbox_id = "i";
  audit_id = "a";
}

abbrev capture_of : String → String → ProviderWebhookEvent
capture_of event_id intent_id = record {
  provider_event_id = event_id;
  provider_intent_id = intent_id;
  type = payment_captured;
  amount = record { amount_minor = pos 414; currency = codes "AMD"; currency_exponent = pos 2 };
  occurred_at = pos 90;
  failure_code = none;
  payload_digest = "d";
}

abbrev committed : Result WebhookError LedgerStore → LedgerStore
committed (ok t) = t
committed (err e) = ledger []

abbrev before : LedgerStore
before = ledger (payment "p1" PaymentStatus.pending ∷ [])

abbrev after : LedgerStore
after = committed (reduce_webhook_event delivery (capture_of "e1" "p1") before)

pays : reduce_webhook_event delivery (capture_of "e1" "p1") before ≡ ok after
unfolding reduce_webhook_event transition_session can_transition_session matching update_many trim
pays = refl

abbrev paid_row : StoredSession
paid_row = record {
  id = "s1";
  state = SessionState.paid;
  state_version = 4;
  event_sequence = 8;
  updated_at = pos 100;
}

paid_row-member : Memᴰ paid_row after.sessions
unfolding reduce_webhook_event transition_session can_transition_session matching update_many trim
paid_row-member = head refl

reduce_webhook_event-Confined_example : Confined delivery (capture_of "e1" "p1") before after
reduce_webhook_event-Confined_example =
    reduce_webhook_event-Confined delivery (capture_of "e1" "p1") before after pays

reduce_webhook_event-paid_example :
    Memᴰ paid_row before.sessions ⊎ PaidBy delivery (capture_of "e1" "p1") before "s1"
reduce_webhook_event-paid_example =
    reduce_webhook_event-paid delivery (capture_of "e1" "p1") before after paid_row pays
      paid_row-member refl

-- A payment that was closed is captured after all, while the session awaits another.
abbrev two_payments : LedgerStore
two_payments =
    ledger (payment "p1" PaymentStatus.pending ∷ payment "p2" PaymentStatus.canceled ∷ [])

abbrev after_late : LedgerStore
after_late = committed (reduce_webhook_event delivery (capture_of "e2" "p2") two_payments)

captured_late : reduce_webhook_event delivery (capture_of "e2" "p2") two_payments ≡ ok after_late
unfolding reduce_webhook_event transition_session can_transition_session matching update_many trim
captured_late = refl

-- The money is owed back, and the session no longer awaits the payment that is still open.
late_frees_session :
    (map (λ x. x.state) after_late.sessions ≡ configuring ∷ [])
    × (map (λ p. p.status) after_late.payments
        ≡ PaymentStatus.pending ∷ PaymentStatus.captured ∷ [])
    × (map (λ r. r.payment_id) after_late.refunds ≡ "p2" ∷ [])
unfolding reduce_webhook_event transition_session can_transition_session matching update_many trim
late_frees_session = (refl, refl, refl)

abbrev ending : ReleaseInput
ending = record {
  session_id = "s1";
  now = pos 200;
  starting_sequence = 8;
  new_id = λ n. "new";
  next_state = "CANCELED";
  next_version = 5;
}

abbrev captured_row : Payment
captured_row = record (payment "p2" PaymentStatus.captured) {
  captured_at = some (pos 100);
  updated_at = pos 100;
}

captured_row-member : Memᴰ captured_row after_late.payments
unfolding reduce_webhook_event transition_session can_transition_session matching update_many trim
captured_row-member = tail (head refl)

-- The late capture, and then the end of the session.
abbrev late_and_ended : History two_payments (released ending after_late)
late_and_ended = session_end ending (callback delivery (capture_of "e2" "p2") start captured_late)

ended : History after_late (released ending after_late)
ended = session_end ending start

captured_forever_example : Memᴰ captured_row (released ending after_late).payments
unfolding is_captured PaymentStatus-discrete
captured_forever_example =
    captured_forever after_late (released ending after_late) captured_row ended captured_row-member
      refl

two_payments-Accounted : Accounted two_payments
unfolding is_accounted is_captured
two_payments-Accounted = (refl, (refl, tt))

History-Accounted_example : Accounted (released ending after_late)
History-Accounted_example =
    History-Accounted two_payments (released ending after_late) late_and_ended (refl, tt)
      two_payments-Accounted

redelivered_without_effect_example :
    reduce_webhook_event delivery (capture_of "e2" "p1") (released ending after_late)
    ≡ ok (released ending after_late)
redelivered_without_effect_example =
    redelivered_without_effect delivery delivery (capture_of "e2" "p2") (capture_of "e2" "p1")
      two_payments after_late (released ending after_late) captured_late ended refl refl

abbrev conflict : ThrownError
conflict = record {
  is_error = true;
  is_known_request_error = true;
  name = "PrismaClientKnownRequestError";
  message = "conflict";
  code = some "P2034";
  meta = none;
}

abbrev attempt_with : Option ThrownError → Attempt
attempt_with failure = record {
  delivery = delivery;
  store = before;
  failure = failure;
  after = before;
}

-- The first attempt meets a conflict, the others commit.
abbrev attempts : ℕ → Attempt
attempts zero = attempt_with (some conflict)
attempts (suc n) = attempt_with none

conflicting : attempt_once (capture_of "e1" "p1") (attempt_with (some conflict)) ≡ again
unfolding reduce_webhook_event transition_session can_transition_session matching update_many trim
    attempt_once commit is_unique_constraint_error is_retryable_transaction_error
conflicting = refl

committing : attempt_once (capture_of "e1" "p1") (attempt_with none) ≡ acknowledged after
unfolding reduce_webhook_event transition_session can_transition_session matching update_many trim
    attempt_once commit
committing = refl

conflicting_first :
    (i : ℕ) → 0 ≤ i → i < 1 → attempt_once (capture_of "e1" "p1") (attempts i) ≡ again
conflicting_first zero a b = conflicting
conflicting_first (suc i) a b = absurd (omega (arith, b))

second_commits : handle_webhook (ok (capture_of "e1" "p1")) attempts ≡ ok after
unfolding handle_webhook run_attempts after_attempt
second_commits = rw (conflicting, committing) refl

handle_webhook-retries_example : handle_webhook (ok (capture_of "e1" "p1")) attempts ≡ ok after
handle_webhook-retries_example =
    handle_webhook-retries (capture_of "e1" "p1") attempts 1 after (omega arith) conflicting_first
      committing

handle_webhook-Recorded_example :
    (m : ℕ) × (m < 5) × Recorded (attempts m).delivery (capture_of "e1" "p1") after
handle_webhook-Recorded_example =
    handle_webhook-Recorded (capture_of "e1" "p1") attempts after second_commits

gives_up :
    handle_webhook (ok (capture_of "e1" "p1")) (λ n. attempt_with (some conflict))
    ≡ err payment_callback_contended
unfolding handle_webhook run_attempts after_attempt
gives_up = rw conflicting refl

handle_webhook-contended_example :
    attempt_once (capture_of "e1" "p1") (attempt_with (some conflict)) ≡ again
handle_webhook-contended_example =
    handle_webhook-contended (capture_of "e1" "p1") (λ n. attempt_with (some conflict)) gives_up 3
      (omega arith)
