-- ===== src/Api/Webhook/Handler.antt =====
-- services/api/src/modules/payments/service.ts, lines 495 to 534: a callback, verified and then reduced
-- in at most five transactions. What other transactions do between them, and whether the database
-- lets one commit, is given with each attempt.
pub mod Responses
use kiosk_project.Api.Ledger.Updates.{Delivery, WebhookError}
use kiosk_project.Providers.{ProviderWebhookEvent}
use kiosk_project.Api.Ledger.{LedgerStore}
use kiosk_project.Api.Webhook.{is_recorded, reduce_webhook_event}
use kiosk_project.Base.{
  zero, String, str_eq, Bool, true, false, ◌&&◌, Option, none, some, if◌then◌else◌, Result, ok, err,
  ℕ, suc, ◌+◌, any,
}
use kiosk_project.Api.Transactions.{
  is_retryable_transaction_error, is_unique_constraint_error, ThrownError,
}

-- One run of the transaction: the rows that it reads, the error of the database that rolls it back
-- when there is one, and the rows that are read after that.
pub record Attempt : Type 0 where
  pub delivery : Delivery
  pub store : LedgerStore
  pub failure : Option ThrownError
  pub after : LedgerStore

pub data HandlerError : Type 0 where
  invalid_webhook_signature payment_callback_contended : HandlerError
  thrown : ThrownError → HandlerError
  rolled_back : WebhookError → HandlerError

pub data Tried : Type 0 where
  acknowledged : LedgerStore → Tried
  again : Tried
  refused_with : HandlerError → Tried

-- The class of the adapters' errors sets this name.
pub is_provider_error : ThrownError → Bool
is_provider_error error = error.is_error && str_eq error.name "PaymentProviderError"

unfoldable pub commit : ProviderWebhookEvent → Attempt → Option ThrownError → LedgerStore → Tried
unfolding is_unique_constraint_error is_recorded is_retryable_transaction_error
commit event a none committed = acknowledged committed
commit event a (some error) committed =
    if is_unique_constraint_error error && any (is_recorded a.delivery event) a.after.inbox
    then acknowledged a.after
    else if is_retryable_transaction_error error
    then again
    else refused_with (thrown error)

unfoldable pub attempt_once : ProviderWebhookEvent → Attempt → Tried
unfolding reduce_webhook_event commit
attempt_once event a = elim (reduce_webhook_event a.delivery event a.store) [
  | err e ↦ refused_with (rolled_back e)
  | ok committed ↦ commit event a a.failure committed
]

unfoldable pub after_attempt :
    Tried → Result HandlerError LedgerStore → Result HandlerError LedgerStore
after_attempt (acknowledged s) rest = ok s
after_attempt again rest = rest
after_attempt (refused_with e) rest = err e

-- The loop, with the attempts that are left.
unfoldable pub run_attempts :
    ProviderWebhookEvent → (ℕ → Attempt) → ℕ → ℕ → Result HandlerError LedgerStore
unfolding after_attempt attempt_once
run_attempts event attempts zero n = err payment_callback_contended
run_attempts event attempts (suc left) n =
    after_attempt (attempt_once event (attempts n)) (run_attempts event attempts left (n + 1))

abbrev pub max_transaction_attempts : ℕ
max_transaction_attempts = 5

-- `verified` is what the provider's adapter answers for the body and the headers.
unfoldable pub handle_webhook :
    Result ThrownError ProviderWebhookEvent → (ℕ → Attempt) → Result HandlerError LedgerStore
unfolding is_provider_error run_attempts
handle_webhook (err error) attempts =
    if is_provider_error error then err invalid_webhook_signature else err (thrown error)
handle_webhook (ok event) attempts = run_attempts event attempts max_transaction_attempts 0
