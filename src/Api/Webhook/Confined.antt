-- ===== src/Api/Webhook/Confined.antt =====
-- How far a callback reaches into the tables of services/api/src/modules/payments/service.ts.
use kiosk_project.Base.{str_eq_refl, ◌∷◌, ◌≡◌, refl, str_eq, true, none, some, any, find, ok}
use kiosk_project.Providers.{ProviderWebhookEvent}
use kiosk_project.Database.Payments.{Payment}
use kiosk_project.Api.Ledger.{InboxRow, LedgerStore, WebhookResult}
use kiosk_project.Api.Ledger.Updates.{Delivery, inbox_row, record_webhook}
use kiosk_project.Api.Webhook.{is_intent_of, is_recorded, reduce_webhook_event}
use kiosk_project.Api.Webhook.Steps.{
  Reduced, recorded, reduce_webhook_event-Reduced, settled, unknown_intent,
}
use kiosk_project.Api.Webhook.Apart.{Apart, Settled-Apart}
use kiosk_project.Api.Webhook.Moved.{Moved, Settled-Moved}

pub data Confined (d : Delivery) (e : ProviderWebhookEvent) (s t : LedgerStore) : Type 0 where
  known_event : any (is_recorded d e) s.inbox ≡ true → t ≡ s → Confined d e s t
  no_payment :
      (row : InboxRow)
      → find (is_intent_of d e) s.payments ≡ none
      → is_recorded d e row ≡ true
      → t ≡ record s { inbox = row ∷ s.inbox }
      → Confined d e s t
  one_payment :
      (known p : Payment)
      → find (is_intent_of d e) s.payments ≡ some known
      → find (λ x. str_eq x.id known.id) s.payments ≡ some p
      → Apart p s t
      → Moved p s t
      → Confined d e s t

Reduced-Confined :
    {d : Delivery} {e : ProviderWebhookEvent} {s t : LedgerStore}
    → Reduced d e s t
    → Confined d e s t
unfolding record_webhook is_recorded
Reduced-Confined (recorded h) = known_event h refl
Reduced-Confined {d = d} {e = e} (unknown_intent h) =
    no_payment (inbox_row d e none WebhookResult.ignored_unknown_intent) h
      (rw (str_eq_refl d.provider, str_eq_refl e.provider_event_id) refl) refl
Reduced-Confined (settled known p h k r) =
    one_payment known p h k (Settled-Apart r) (Settled-Moved r)

-- A callback that is reduced reaches no further than its own payment. Either its event was recorded
-- before and nothing changes; or no payment has its intent, and only a row of the event is added to
-- the inbox; or the rows of all other payments, with their attempts and refunds, and of all sessions and quotes but the
-- payment's own are as they were, and the payment's session either stays as it is, with no event,
-- or leaves `awaiting_payment` for `configuring` or `paid`, with one event, that session's next.
pub reduce_webhook_event-Confined :
    (d : Delivery) (e : ProviderWebhookEvent) (s t : LedgerStore)
    → reduce_webhook_event d e s ≡ ok t
    → Confined d e s t
reduce_webhook_event-Confined d e s t h = Reduced-Confined (reduce_webhook_event-Reduced d e s t h)
