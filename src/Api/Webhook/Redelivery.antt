-- ===== src/Api/Webhook/Redelivery.antt =====
-- Deliveries of one event, more than once.
use kiosk_project.Api.Ledger.Updates.{
  is_owed_for, record_compensation, add_attempt, set_session, set_payments, add_outbox,
  record_payment_audit, record_webhook, Delivery,
}
use kiosk_project.Base.Int.{eqb_ℤ, pos}
use kiosk_project.Api.Webhook.Steps.{
  unknown_intent, closed_unpaid, ignored, paid_for, settled, late, duplicate, reopened, mismatched,
  closed, stays, refused, recorded, kept, Unapplied, Reduced, Settled, Released,
}
use kiosk_project.Providers.{Money, ProviderWebhookEvent}
use kiosk_project.Database.Payments.{PaymentStatus, Payment}
use kiosk_project.Api.Ledger.{RefundReason, LedgerStore, StoredSession, WebhookResult}
use kiosk_project.Api.Webhook.{set_quotes, String, Option, Bool, is_recorded, reduce_webhook_event}
use kiosk_project.Base.{
  inr, inl, ◌||◌, some, Bool-cases, sym, ◌∙◌, subst, arith, true, none, true, any, ok, str_eq_refl,
  ◌≡◌, refl,
}

pub Released-inbox :
    {d : Delivery} {session : StoredSession} {s t : LedgerStore}
    → Released d session s t
    → t.inbox ≡ s.inbox
unfolding add_outbox set_session
Released-inbox (stays h) = refl
Released-inbox (reopened next payload h k) = refl

Unapplied-inbox :
    {f : PaymentStatus → Bool} {d : Delivery} {p : Payment} {s t : LedgerStore}
    → Unapplied f d p s t
    → t.inbox ≡ s.inbox
unfolding set_payments
Unapplied-inbox (kept h) = refl
Unapplied-inbox (closed h) = refl

-- Some row of the inbox is the event's.
abbrev pub Recorded : Delivery → ProviderWebhookEvent → LedgerStore → Type 0
Recorded d e t = any (is_recorded d e) t.inbox ≡ true

record_webhook-Recorded :
    (d : Delivery) (e : ProviderWebhookEvent) (id : Option String) (r : WebhookResult)
    (s : LedgerStore)
    → Recorded d e (record_webhook d e id r s)
unfolding record_webhook is_recorded
record_webhook-Recorded d e id r s =
    rw (str_eq_refl d.provider, str_eq_refl e.provider_event_id) refl

Settled-Recorded :
    {d : Delivery} {e : ProviderWebhookEvent} {p : Payment} {s t : LedgerStore}
    → Settled d e p s t
    → Recorded d e t
unfolding record_payment_audit
Settled-Recorded {d = d} {e = e} (refused h c) = record_webhook-Recorded d e _ _ _
Settled-Recorded {d = d} {e = e} (mismatched session s_1 s_2 own h c u r) =
    record_webhook-Recorded d e _ _ _
Settled-Recorded {d = d} {e = e} (duplicate h c k) = record_webhook-Recorded d e _ _ _
Settled-Recorded {d = d} {e = e} (late session s_1 s_2 own h c n u r) =
    rw (Released-inbox r) (record_webhook-Recorded d e _ _ _)
Settled-Recorded {d = d} {e = e} (paid_for session next h c f g k) =
    record_webhook-Recorded d e _ _ _
Settled-Recorded {d = d} {e = e} (closed_unpaid session s_1 own h c o r) =
    record_webhook-Recorded d e _ _ _
Settled-Recorded {d = d} {e = e} (ignored h c o) = record_webhook-Recorded d e _ _ _

pub Reduced-Recorded :
    {d : Delivery} {e : ProviderWebhookEvent} {s t : LedgerStore} → Reduced d e s t → Recorded d e t
Reduced-Recorded (recorded h) = h
Reduced-Recorded {d = d} {e = e} {s = s} (unknown_intent h) = record_webhook-Recorded d e none _ s
Reduced-Recorded (settled known p h k r) = Settled-Recorded r

pub reduced_without_effect :
    (d d' : Delivery) (e e' : ProviderWebhookEvent) (t : LedgerStore)
    → d'.provider ≡ d.provider
    → e'.provider_event_id ≡ e.provider_event_id
    → Recorded d e t
    → reduce_webhook_event d' e' t ≡ ok t
unfolding reduce_webhook_event is_recorded
reduced_without_effect d d' e e' t j k found = rw (j, k, found) refl

compensated_inbox :
    (d : Delivery) (p : Payment) (reason : RefundReason) (amount : Money) (s : LedgerStore)
    → (record_compensation d p reason amount s).inbox ≡ s.inbox
unfolding record_compensation
compensated_inbox d p reason amount s =
    elim (Bool-cases (eqb_ℤ amount.amount_minor (pos 0) || any (is_owed_for p reason) s.refunds)) [
      | inl e ↦ rw e refl
      | inr e ↦ rw e refl
    ]

compensation_inbox :
    {is_final : PaymentStatus → Bool} {d : Delivery} {p : Payment} {s s_1 : LedgerStore}
    (e : ProviderWebhookEvent) (reason : RefundReason)
    → Unapplied is_final d p s s_1
    → (record_compensation d p reason e.amount
        (add_attempt d p e PaymentStatus.captured none s_1)).inbox
      ≡ s.inbox
unfolding add_attempt
compensation_inbox {d = d} {p = p} {s_1 = s_1} e reason u =
    compensated_inbox d p reason e.amount (add_attempt d p e PaymentStatus.captured none s_1)
    ∙ Unapplied-inbox u

-- One more row hides none.
one_more_row :
    (d' d : Delivery) (e' e : ProviderWebhookEvent) (id : Option String) (r : WebhookResult)
    (s : LedgerStore)
    → Recorded d' e' s
    → Recorded d' e' (record_webhook d e id r s)
unfolding record_webhook
one_more_row d' d e' e id r s h = ground (arith, h)

Settled-keeps :
    {d : Delivery} {e : ProviderWebhookEvent} {p : Payment} {s t : LedgerStore} (d' : Delivery)
    (e' : ProviderWebhookEvent)
    → Settled d e p s t
    → Recorded d' e' s
    → Recorded d' e' t
unfolding record_payment_audit add_outbox add_attempt set_session set_quotes set_payments
Settled-keeps {d = d} {e = e} d' e' (refused h c) k = one_more_row d' d e' e _ _ _ k
Settled-keeps {d = d} {e = e} d' e' (mismatched session s_1 s_2 own h c u r) k =
    one_more_row d' d e' e _ _ s_2 (
      subst (λ xs. any (is_recorded d' e') xs ≡ true)
        (sym (Released-inbox r ∙ compensation_inbox e RefundReason.amount_mismatch u)) k)
Settled-keeps {d = d} {e = e} d' e' (duplicate h c j) k = one_more_row d' d e' e _ _ _ k
Settled-keeps {d = d} {e = e} {p = p} d' e' (late session s_1 s_2 own h c n u r) k =
    subst (λ xs. any (is_recorded d' e') xs ≡ true) (sym (Released-inbox r))
      (one_more_row d' d e' e (some p.id) WebhookResult.late_capture
        (record_compensation d p RefundReason.late_capture e.amount
          (add_attempt d p e PaymentStatus.captured none s_1))
        (subst (λ xs. any (is_recorded d' e') xs ≡ true)
          (sym (compensation_inbox e RefundReason.late_capture u)) k))
Settled-keeps {d = d} {e = e} d' e' (paid_for session next h c f g j) k =
    one_more_row d' d e' e _ _ _ k
Settled-keeps {d = d} {e = e} d' e' (closed_unpaid session s_1 own h c o r) k =
    one_more_row d' d e' e _ _ s_1
      (subst (λ xs. any (is_recorded d' e') xs ≡ true) (sym (Released-inbox r)) k)
Settled-keeps {d = d} {e = e} d' e' (ignored h c o) k = one_more_row d' d e' e _ _ _ k

pub Reduced-keeps :
    {d : Delivery} {e : ProviderWebhookEvent} {s t : LedgerStore} (d' : Delivery)
    (e' : ProviderWebhookEvent)
    → Reduced d e s t
    → Recorded d' e' s
    → Recorded d' e' t
Reduced-keeps d' e' (recorded h) k = k
Reduced-keeps {d = d} {e = e} {s = s} d' e' (unknown_intent h) k = one_more_row d' d e' e none _ s k
Reduced-keeps d' e' (settled known p h j r) k = Settled-keeps d' e' r k
