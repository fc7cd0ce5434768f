-- ===== src/Api/Webhook/Captured.antt =====
-- Payments that are captured, across the callbacks that follow.
use kiosk_project.Api.Ledger.Updates.{
  same_state, mark_captured, is_owed_for, set_session, add_attempt, Delivery, add_outbox,
  record_compensation, record_webhook, set_payments, record_payment_audit,
}
use kiosk_project.Database.Quotes.{PriceQuote}
use kiosk_project.Domain.Session.{awaiting_payment}
use kiosk_project.Database.Payments.Release.{open_status}
use kiosk_project.Api.Webhook.Steps.{
  closed_unpaid, Reduced, paid_for, late, mismatched, settled, ignored, unknown_intent, reopened,
  duplicate, closed, stays, refused, recorded, kept, Released, Unapplied,
  reduce_webhook_event-Reduced, Settled,
}
use kiosk_project.Database.Tables.{update_many-member}
use kiosk_project.Api.Ledger.{LedgerStore, RefundReason, StoredSession}
use kiosk_project.Providers.{ProviderWebhookEvent, Money}
use kiosk_project.Base.Int.{ℤ, pos, eqb_ℤ}
use kiosk_project.Api.Webhook.{
  is_payable_quote, ltb_ℤ, Option, str_eq, is_effective, reduce_webhook_event,
  is_captured_or_declined, set_quotes, Bool, is_captured_status,
}
use kiosk_project.Database.Payments.{
  is_open_status, PaymentStatus-discrete, Payment, is_same_row, is_captured, PaymentStatus,
}
use kiosk_project.Base.{
  any, arith, ◌||◌, and_true, same-true, inl, inr, ok, Bool-cases, ◌≡◌, refl, true, false,
}
use mathlib.Core.List.{Memᴰ}

pub Released-payments :
    {d : Delivery} {session : StoredSession} {s t : LedgerStore}
    → Released d session s t
    → t.payments ≡ s.payments
unfolding add_outbox set_session
Released-payments (stays h) = refl
Released-payments (reopened next payload h k) = refl

pub compensated_payments :
    (d : Delivery) (p : Payment) (reason : RefundReason) (amount : Money) (s : LedgerStore)
    → (record_compensation d p reason amount s).payments ≡ s.payments
unfolding record_compensation
compensated_payments d p reason amount s =
    elim (Bool-cases (eqb_ℤ amount.amount_minor (pos 0) || any (is_owed_for p reason) s.refunds)) [
      | inl e ↦ rw e refl
      | inr e ↦ rw e refl
    ]

same_row_captured :
    (p x : Payment)
    → is_captured_status p.status ≡ false
    → is_captured x ≡ true
    → is_same_row p x ≡ false
unfolding is_captured_status is_captured is_same_row
same_row_captured p x h k = elim (Bool-cases (is_same_row p x)) [
  | inr e ↦ e
  | inl e ↦
      let j : x.status ≡ p.status =
        same-true PaymentStatus-discrete x.status p.status (and_true (str_eq x.id p.id) _ e).1 in
      absurd (cc)
]

set_payments-kept :
    (p x : Payment) (f : Payment → Payment) (s : LedgerStore)
    → is_captured_status p.status ≡ false
    → Memᴰ x s.payments
    → is_captured x ≡ true
    → Memᴰ x (set_payments p f s).payments
unfolding set_payments
set_payments-kept p x f s h m k =
    update_many-member (is_same_row p) f s.payments m (same_row_captured p x h k)

Unapplied-kept :
    {is_final : PaymentStatus → Bool} {d : Delivery} {p : Payment} {s t : LedgerStore} (x : Payment)
    → Unapplied is_final d p s t
    → (is_final p.status ≡ false → is_captured_status p.status ≡ false)
    → Memᴰ x s.payments
    → is_captured x ≡ true
    → Memᴰ x t.payments
Unapplied-kept x (kept h) j m k = m
Unapplied-kept {p = p} {s = s} x (closed h) j m k = set_payments-kept p x _ s (j h) m k

pub is_effective-parts :
    (now : ℤ) (p : Payment) (session : StoredSession) (quote : Option PriceQuote)
    → is_effective now p session quote ≡ true
    → (is_open_status p.status ≡ true)
      × (same_state session.state awaiting_payment ≡ true)
      × (ltb_ℤ now p.expires_at ≡ true)
      × (is_payable_quote now quote ≡ true)
unfolding is_effective
is_effective-parts now p session quote h = (ground arith, ground arith, ground arith, ground arith)

Settled-kept :
    {d : Delivery} {e : ProviderWebhookEvent} {p : Payment} {s t : LedgerStore} (x : Payment)
    → Settled d e p s t
    → Memᴰ x s.payments
    → is_captured x ≡ true
    → Memᴰ x t.payments
unfolding record_payment_audit record_webhook add_attempt add_outbox set_session set_quotes
    is_captured_or_declined is_captured_status
Settled-kept x (refused h c) m k = m
Settled-kept x (duplicate h c j) m k = m
Settled-kept x (ignored h c o) m k = m
Settled-kept {d = d} {e = e} {p = p} x (mismatched session s_1 s_2 own h c u r) m k =
    rw (Released-payments r, compensated_payments d p RefundReason.amount_mismatch e.amount _)
      (Unapplied-kept x u (λ g. ground arith) m k)
Settled-kept {d = d} {e = e} {p = p} x (late session s_1 s_2 own h c n u r) m k =
    rw (Released-payments r, compensated_payments d p RefundReason.late_capture e.amount _)
      (Unapplied-kept x u (λ g. n) m k)
Settled-kept {d = d} {p = p} {s = s} x (paid_for session next h c f g j) m k =
    set_payments-kept p x (mark_captured true d.now) s
      (open_status p.status (is_effective-parts d.now p session _ g).0) m k
Settled-kept {d = d} {e = e} {p = p} {s = s} x (closed_unpaid session s_1 own h c o r) m k =
    rw (Released-payments r) (set_payments-kept p x _ s (open_status p.status o) m k)

Reduced-kept :
    {d : Delivery} {e : ProviderWebhookEvent} {s t : LedgerStore} (x : Payment)
    → Reduced d e s t
    → Memᴰ x s.payments
    → is_captured x ≡ true
    → Memᴰ x t.payments
unfolding record_webhook
Reduced-kept x (recorded j) m k = m
Reduced-kept x (unknown_intent j) m k = m
Reduced-kept x (settled known p j l r) m k = Settled-kept x r m k

-- A captured payment's row is the same row after every reduced callback.
pub reduce_webhook_event-captured :
    (d : Delivery) (e : ProviderWebhookEvent) (s t : LedgerStore) (x : Payment)
    → reduce_webhook_event d e s ≡ ok t
    → Memᴰ x s.payments
    → is_captured x ≡ true
    → Memᴰ x t.payments
reduce_webhook_event-captured d e s t x h m k =
    Reduced-kept x (reduce_webhook_event-Reduced d e s t h) m k
