-- ===== src/Api/Webhook/Handler/Responses.antt =====
-- What the provider is answered.
use kiosk_project.Api.Ledger.Updates.{WebhookError}
use kiosk_project.Api.Transactions.{
  is_unique_constraint_error, is_retryable_transaction_error, ThrownError,
}
use kiosk_project.Api.Webhook.{is_recorded, reduce_webhook_event}
use kiosk_project.Api.Webhook.Steps.{reduce_webhook_event-Reduced}
use kiosk_project.Api.Webhook.Redelivery.{Reduced-Recorded, Recorded}
use kiosk_project.Api.Ledger.{LedgerStore}
use kiosk_project.Api.Webhook.Handler.{
  thrown, payment_callback_contended, rolled_back, refused_with, again, HandlerError, acknowledged,
  Tried, Attempt, handle_webhook, attempt_once, commit, run_attempts, after_attempt,
}
use kiosk_project.Providers.{ProviderWebhookEvent}
use kiosk_project.Base.{
  sym, if◌then◌else◌, ◌==◌, ==_iff, Bool-cases, ◌≤◌, ◌≢◌, ok-injective, inr, ap, and_true, inl,
  subst, ◌⊎◌, ◌&&◌, Option, none, some, Result, ok, err, ℕ, zero, suc, ◌+◌, ◌<◌, any, ◌≡◌, refl,
  arith, if-cases,
}

acknowledged-injective : {s t : LedgerStore} → acknowledged s ≡ acknowledged t → s ≡ t
acknowledged-injective h = cc

commit-Recorded :
    (event : ProviderWebhookEvent) (a : Attempt) (failure : Option ThrownError) (u t : LedgerStore)
    → Recorded a.delivery event u
    → commit event a failure u ≡ acknowledged t
    → Recorded a.delivery event t
unfolding commit
commit-Recorded event a none u t r h =
    subst (Recorded a.delivery event) (acknowledged-injective h) r
commit-Recorded event a (some error) u t r h =
    let retried =
      if is_retryable_transaction_error error then again else refused_with (thrown error) in
    elim (if-cases
      (is_unique_constraint_error error && any (is_recorded a.delivery event) a.after.inbox)
      (acknowledged a.after) retried (acknowledged t) h) [
        | inl (e, k) ↦
            subst (Recorded a.delivery event) (acknowledged-injective k) (and_true _ _ e).1
        | inr (e, k) ↦
            elim (if-cases (is_retryable_transaction_error error) again _ (acknowledged t) k) [
              | inl (f, j) ↦ absurd (cc)
              | inr (f, j) ↦ absurd (cc)
            ]
      ]

reduced-Recorded :
    (event : ProviderWebhookEvent) (a : Attempt) (r : Result WebhookError LedgerStore)
    (t : LedgerStore)
    → reduce_webhook_event a.delivery event a.store ≡ r
    → elim r [
      | err e ↦ refused_with (rolled_back e)
      | ok committed ↦ commit event a a.failure committed
    ]
      ≡ acknowledged t
    → Recorded a.delivery event t
reduced-Recorded event a (err e) t k h = absurd (cc)
reduced-Recorded event a (ok u) t k h =
    commit-Recorded event a a.failure u t
      (Reduced-Recorded (reduce_webhook_event-Reduced a.delivery event a.store u k)) h

attempt_once-Recorded :
    (event : ProviderWebhookEvent) (a : Attempt) (t : LedgerStore)
    → attempt_once event a ≡ acknowledged t
    → Recorded a.delivery event t
unfolding attempt_once
attempt_once-Recorded event a t h =
    reduced-Recorded event a (reduce_webhook_event a.delivery event a.store) t refl h

-- An attempt that ends the loop, or one after which it goes on.
after_attempt-cases :
    (tried : Tried) (rest : Result HandlerError LedgerStore) (t : LedgerStore)
    → after_attempt tried rest ≡ ok t
    → (tried ≡ acknowledged t) ⊎ (rest ≡ ok t)
unfolding after_attempt
after_attempt-cases (acknowledged s) rest t h = inl (ap acknowledged (ok-injective h))
after_attempt-cases again rest t h = inr h
after_attempt-cases (refused_with e) rest t h = absurd (cc)

run_attempts-Recorded :
    (event : ProviderWebhookEvent) (attempts : ℕ → Attempt) (left n : ℕ) (t : LedgerStore)
    → run_attempts event attempts left n ≡ ok t
    → (m : ℕ) × (m < n + left) × Recorded (attempts m).delivery event t
unfolding run_attempts
run_attempts-Recorded event attempts zero n t h = absurd (cc)
run_attempts-Recorded event attempts (suc left) n t h =
    elim (after_attempt-cases (attempt_once event (attempts n)) _ t h) [
      | inl e ↦ (n, omega arith, attempt_once-Recorded event (attempts n) t e)
      | inr e ↦
          let (m, k, r) = run_attempts-Recorded event attempts left (n + 1) t e in
          (m, omega arith, r)
    ]

-- A callback is acknowledged only when it is recorded: after the answer, the inbox holds a row of
-- the event under the provider of one of the five attempts.
pub handle_webhook-Recorded :
    (event : ProviderWebhookEvent) (attempts : ℕ → Attempt) (t : LedgerStore)
    → handle_webhook (ok event) attempts ≡ ok t
    → (m : ℕ) × (m < 5) × Recorded (attempts m).delivery event t
unfolding handle_webhook
handle_webhook-Recorded event attempts t h = run_attempts-Recorded event attempts 5 0 t h

run_attempts-retries :
    (event : ProviderWebhookEvent) (attempts : ℕ → Attempt) (left n stop : ℕ) (t : LedgerStore)
    → n ≤ stop
    → stop < n + left
    → ((i : ℕ) → n ≤ i → i < stop → attempt_once event (attempts i) ≡ again)
    → attempt_once event (attempts stop) ≡ acknowledged t
    → run_attempts event attempts left n ≡ ok t
unfolding run_attempts after_attempt
run_attempts-retries event attempts zero n stop t a b h e = absurd (omega arith)
run_attempts-retries event attempts (suc left) n stop t a b h e = elim (Bool-cases (n == stop)) [
  | inl k ↦
      let here : attempt_once event (attempts n) ≡ acknowledged t =
        subst (λ m. attempt_once event (attempts m) ≡ acknowledged t) (sym ((==_iff n stop).0 k))
          e in
      rw here refl
  | inr k ↦
      let below : n < stop = ground arith in
      rw (h n (omega arith) below) (
        run_attempts-retries event attempts left (n + 1) stop t (omega arith) (omega arith)
          (λ i c d. h i (omega arith) d) e)
]

-- After up to four conflicts in a row, the attempt that commits is the answer: the callback is
-- acknowledged with the rows of that attempt.
pub handle_webhook-retries :
    (event : ProviderWebhookEvent) (attempts : ℕ → Attempt) (n : ℕ) (t : LedgerStore)
    → n < 5
    → ((i : ℕ) → 0 ≤ i → i < n → attempt_once event (attempts i) ≡ again)
    → attempt_once event (attempts n) ≡ acknowledged t
    → handle_webhook (ok event) attempts ≡ ok t
unfolding handle_webhook
handle_webhook-retries event attempts n t k h e =
    run_attempts-retries event attempts 5 0 n t (omega arith) k h e

after_attempt-contended :
    (tried : Tried) (rest : Result HandlerError LedgerStore)
    → tried ≢ refused_with payment_callback_contended
    → after_attempt tried rest ≡ err payment_callback_contended
    → (tried ≡ again) × (rest ≡ err payment_callback_contended)
unfolding after_attempt
after_attempt-contended (acknowledged s) rest n h = absurd (cc)
after_attempt-contended again rest n h = (refl, h)
after_attempt-contended (refused_with e) rest n h = absurd (n (cc))

commit-uncontended :
    (event : ProviderWebhookEvent) (a : Attempt) (failure : Option ThrownError) (u : LedgerStore)
    → commit event a failure u ≢ refused_with payment_callback_contended
unfolding commit
commit-uncontended event a none u h = cc
commit-uncontended event a (some error) u h =
    let retried =
      if is_retryable_transaction_error error then again else refused_with (thrown error) in
    elim (if-cases
      (is_unique_constraint_error error && any (is_recorded a.delivery event) a.after.inbox)
      (acknowledged a.after) retried _ h) [
        | inl (e, k) ↦ cc
        | inr (e, k) ↦ elim (if-cases (is_retryable_transaction_error error) again _ _ k) [
          | inl (f, j) ↦ cc
          | inr (f, j) ↦ cc
        ]
      ]

reduced-uncontended :
    (event : ProviderWebhookEvent) (a : Attempt) (r : Result WebhookError LedgerStore)
    → elim r [
      | err e ↦ refused_with (rolled_back e)
      | ok committed ↦ commit event a a.failure committed
    ]
      ≢ refused_with payment_callback_contended
reduced-uncontended event a (err e) h = cc
reduced-uncontended event a (ok u) h = commit-uncontended event a a.failure u h

attempt_once-uncontended :
    (event : ProviderWebhookEvent) (a : Attempt)
    → attempt_once event a ≢ refused_with payment_callback_contended
unfolding attempt_once
attempt_once-uncontended event a h =
    reduced-uncontended event a (reduce_webhook_event a.delivery event a.store) h

run_attempts-contended :
    (event : ProviderWebhookEvent) (attempts : ℕ → Attempt) (left n : ℕ)
    → run_attempts event attempts left n ≡ err payment_callback_contended
    → (i : ℕ) → n ≤ i
    → i < n + left
    → attempt_once event (attempts i) ≡ again
unfolding run_attempts
run_attempts-contended event attempts zero n h i a b = absurd (omega arith)
run_attempts-contended event attempts (suc left) n h i a b =
    let (first, rest) =
      after_attempt-contended (attempt_once event (attempts n)) _
        (attempt_once-uncontended event (attempts n)) h in
    elim (Bool-cases (n == i)) [
      | inl k ↦ subst (λ m. attempt_once event (attempts m) ≡ again) ((==_iff n i).0 k) first
      | inr k ↦
          run_attempts-contended event attempts left (n + 1) rest i (ground arith) (omega arith)
    ]

-- The service gives up, with the answer that the callback is contended, only when each of the five
-- attempts ended in a conflict.
pub handle_webhook-contended :
    (event : ProviderWebhookEvent) (attempts : ℕ → Attempt)
    → handle_webhook (ok event) attempts ≡ err payment_callback_contended
    → (i : ℕ) → i < 5
    → attempt_once event (attempts i) ≡ again
unfolding handle_webhook
handle_webhook-contended event attempts h i k =
    run_attempts-contended event attempts 5 0 h i (omega arith) k
