-- ===== src/Api/Webhook/History.antt =====
-- Callbacks and ends of sessions, one transaction after another on the same tables.
use kiosk_project.Api.Ledger.Updates.{Delivery}
use kiosk_project.Api.Webhook.Steps.{reduce_webhook_event-Reduced}
use kiosk_project.Api.Webhook.Redelivery.{
  Reduced-Recorded, Reduced-keeps, Recorded, reduced_without_effect,
}
use kiosk_project.Providers.{ProviderWebhookEvent}
use kiosk_project.Base.Int.{eqb_ℤ, pos}
use kiosk_project.Database.Payments.Release.{release_session_payments-captured}
use kiosk_project.Api.Webhook.Captured.{reduce_webhook_event-captured}
use kiosk_project.Database.Tables.{member-filter, filter-member, filter-All, All-filter}
use kiosk_project.Api.Webhook.{reduce_webhook_event}
use kiosk_project.Api.Webhook.Obligations.{
  not_captured, is_accounted, reduce_webhook_event-Accounted, Accounted,
}
use kiosk_project.Database.Payments.{is_captured, release_session_payments, Payment, ReleaseInput}
use kiosk_project.Api.Ledger.{LedgerStore}
use kiosk_project.Base.{sym, All, subst, ◌≡◌, true, false, ok, []}
use mathlib.Core.List.{Memᴰ}

-- The release of a session's payment by packages/database/src/session-payments.ts.
abbrev pub released : ReleaseInput → LedgerStore → LedgerStore
released input s =
    let after =
      (release_session_payments
        (record { payments = s.payments; attempts = s.attempts; events = [] }) input).1 in
    record s { payments = after.payments; attempts = after.attempts }

pub data History (s : LedgerStore) : LedgerStore → Type 0 where
  start : History s s
  callback :
      {t u : LedgerStore} (d : Delivery) (e : ProviderWebhookEvent)
      → History s t
      → reduce_webhook_event d e t ≡ ok u
      → History s u
  session_end :
      {t : LedgerStore} (input : ReleaseInput) → History s t → History s (released input t)

-- No callback of the history was for an amount of zero.
abbrev pub NonZero : {s t : LedgerStore} → History s t → Type 0
NonZero start = Unit
NonZero (callback d e h j) = (eqb_ℤ e.amount.amount_minor (pos 0) ≡ false) × NonZero h
NonZero (session_end input h) = NonZero h

-- A payment that is captured keeps its row through every later callback and every end of a session.
pub captured_forever :
    (s t : LedgerStore) (x : Payment)
    → History s t
    → Memᴰ x s.payments
    → is_captured x ≡ true
    → Memᴰ x t.payments
captured_forever s t x start m k = m
captured_forever s t x (callback {t = r} d e h j) m k =
    reduce_webhook_event-captured d e r t x j (captured_forever s r x h m k) k
captured_forever s t x (session_end {t = r} input h) m k =
    let before = filter-member is_captured r.payments (captured_forever s r x h m k) k in
    member-filter is_captured _
      (subst (Memᴰ x) (sym (release_session_payments-captured _ input)) before)

-- When every captured payment has paid for its session or is owed back, that is so after every
-- sequence of callbacks of amounts other than zero and of ends of sessions.
pub History-Accounted :
    (s t : LedgerStore) (h : History s t) → NonZero h → Accounted s → Accounted t
History-Accounted s t start z u = u
History-Accounted s t (callback {t = r} d e h j) (n, z) u =
    reduce_webhook_event-Accounted d e r t j n (History-Accounted s r h z u)
History-Accounted s t (session_end {t = r} input h) z u =
    let before = All-filter _ is_captured r.payments (History-Accounted s r h z u) in
    filter-All _ is_captured _ (not_captured r.refunds) (
      subst (All (λ p. is_accounted r.refunds p ≡ true))
        (sym (release_session_payments-captured _ input)) before)

History-Recorded :
    (d : Delivery) (e : ProviderWebhookEvent) (s t : LedgerStore)
    → History s t
    → Recorded d e s
    → Recorded d e t
History-Recorded d e s t start k = k
History-Recorded d e s t (callback {t = r} d' e' h j) k =
    Reduced-keeps d e (reduce_webhook_event-Reduced d' e' r t j) (History-Recorded d e s r h k)
History-Recorded d e s t (session_end {t = r} input h) k = History-Recorded d e s r h k

-- A callback acts once. After it was reduced, and after every sequence of other callbacks and ends
-- of sessions, a delivery by the same provider under the same event identifier, whatever else it
-- says, leaves the rows as they are.
pub redelivered_without_effect :
    (d d' : Delivery) (e e' : ProviderWebhookEvent) (s t u : LedgerStore)
    → reduce_webhook_event d e s ≡ ok t
    → History t u
    → d'.provider ≡ d.provider
    → e'.provider_event_id ≡ e.provider_event_id
    → reduce_webhook_event d' e' u ≡ ok u
redelivered_without_effect d d' e e' s t u h k i j =
    reduced_without_effect d d' e e' u i j
      (History-Recorded d e t u k (Reduced-Recorded (reduce_webhook_event-Reduced d e s t h)))
