-- ===== src/Api/Webhook/Obligations.antt =====
-- The money that is owed back, across callbacks and the ends of sessions.
use kiosk_project.Api.Ledger.Updates.{
  read_failure_code, failure_status, set_session, record_webhook, record_payment_audit, add_outbox,
  mark_failed, mark_captured, add_attempt, set_payments, Delivery, is_owed_for, record_compensation,
}
use kiosk_project.Database.Tables.{All-update_many-from, All-map}
use kiosk_project.Api.Webhook.Captured.{compensated_payments}
use kiosk_project.Api.Webhook.Steps.{
  settled, unknown_intent, recorded, reduce_webhook_event-Reduced, Reduced, closed_unpaid, paid_for,
  late, mismatched, ignored, duplicate, reopened, refused, stays, Released, Settled, closed, kept,
  Unapplied,
}
use kiosk_project.Providers.{ProviderWebhookType, ProviderWebhookEvent, Money}
use kiosk_project.Base.Int.{ℤ, eqb_ℤ, pos}
use kiosk_project.Database.Payments.{
  PaymentStatus-discrete, PaymentFailureCode, is_same_row, PaymentStatus, Payment, is_captured,
}
use kiosk_project.Api.Ledger.{
  StoredSession, RefundReason-discrete, RefundReason, LedgerStore, Refund,
}
use kiosk_project.Api.Webhook.{reduce_webhook_event, is_capture, set_quotes, ◌∷◌, not, Bool, List}
use kiosk_project.Base.{
  and_true, eq_iff, none, subst, same_refl, str_eq_refl, inr, inl, any, arith, Bool-cases, All, ◌≡◌,
  refl, true, false, ◌||◌, ok, [],
}

-- A refund of the payment, for either reason.
pub is_owed : Payment → Refund → Bool
unfolding is_owed_for
is_owed p r =
    is_owed_for p RefundReason.late_capture r || is_owed_for p RefundReason.amount_mismatch r

-- A captured payment has paid for its session or is owed back.
unfoldable pub is_accounted : List Refund → Payment → Bool
unfolding is_captured is_owed
is_accounted refunds p = not (is_captured p) || p.applied_to_session || any (is_owed p) refunds

abbrev pub Accounted : LedgerStore → Type 0
Accounted s = All (λ p. is_accounted s.refunds p ≡ true) s.payments

pub not_captured :
    (rs : List Refund) (x : Payment) → is_captured x ≡ false → is_accounted rs x ≡ true
unfolding is_accounted
not_captured rs x h = rw h refl

is_accounted-cons :
    (r : Refund) (rs : List Refund) (p : Payment)
    → is_accounted rs p ≡ true
    → is_accounted (r ∷ rs) p ≡ true
unfolding is_accounted
is_accounted-cons r rs p h = ground arith

compensated :
    (d : Delivery) (p : Payment) (reason : RefundReason) (amount : Money) (s : LedgerStore)
    (x : Payment)
    → is_accounted s.refunds x ≡ true
    → is_accounted (record_compensation d p reason amount s).refunds x ≡ true
unfolding record_compensation
compensated d p reason amount s x h =
    elim (Bool-cases (eqb_ℤ amount.amount_minor (pos 0) || any (is_owed_for p reason) s.refunds)) [
      | inl e ↦ rw e h
      | inr e ↦ rw e (is_accounted-cons _ s.refunds x h)
    ]

compensation_owed :
    (d : Delivery) (p : Payment) (reason : RefundReason) (amount : Money) (s : LedgerStore)
    → eqb_ℤ amount.amount_minor (pos 0) ≡ false
    → any (is_owed_for p reason) (record_compensation d p reason amount s).refunds ≡ true
unfolding record_compensation is_owed_for
compensation_owed d p reason amount s h = elim (Bool-cases (any (is_owed_for p reason) s.refunds)) [
  | inl e ↦ rw (h, e) e
  | inr e ↦ rw (h, e, str_eq_refl p.id, same_refl RefundReason-discrete reason) refl
]

-- A refund of the row that a capture closed.
owed_refund :
    (p x : Payment) (reason : RefundReason) (r : Refund)
    → x.id ≡ p.id
    → is_owed_for p reason r ≡ true
    → is_owed x r ≡ true
unfolding is_owed is_owed_for
owed_refund p x RefundReason.late_capture r h k = rw (h, k) refl
owed_refund p x RefundReason.amount_mismatch r h k = rw h (ground (arith, k))

owed_row :
    (p x : Payment) (reason : RefundReason) (rs : List Refund)
    → x.id ≡ p.id
    → any (is_owed_for p reason) rs ≡ true
    → any (is_owed x) rs ≡ true
owed_row p x reason [] h k = absurd (cc)
owed_row p x reason (r ∷ rs) h k = elim (Bool-cases (is_owed_for p reason r)) [
  | inl e ↦ rw (owed_refund p x reason r h e) refl
  | inr e ↦ ground (
    arith,
    owed_row p x reason rs h (subst (λ b. (b || any (is_owed_for p reason) rs) ≡ true) e k),
  )
]

closed_row :
    (d : Delivery) (p x : Payment) (reason : RefundReason) (amount : Money) (s : LedgerStore)
    → is_same_row p x ≡ true
    → eqb_ℤ amount.amount_minor (pos 0) ≡ false
    → is_accounted (record_compensation d p reason amount s).refunds (mark_captured false d.now x)
      ≡ true
unfolding is_accounted is_same_row mark_captured
closed_row d p x reason amount s k n =
    let same_id : x.id ≡ p.id = (eq_iff x.id p.id).0 (and_true _ _ k).0 in
    let owed =
      owed_row p (mark_captured false d.now x) reason _ same_id
        (compensation_owed d p reason amount s n) in
    ground (arith, owed)

-- Every row is accounted for once a capture has closed a payment and its refund is owed.
Unapplied-Accounted :
    (is_final : PaymentStatus → Bool) (d : Delivery) (p : Payment) (reason : RefundReason)
    (e : ProviderWebhookEvent) (s s_1 : LedgerStore)
    → Unapplied is_final d p s s_1
    → eqb_ℤ e.amount.amount_minor (pos 0) ≡ false
    → Accounted s
    → Accounted (
        record_compensation d p reason e.amount (add_attempt d p e PaymentStatus.captured none s_1))
unfolding set_payments add_attempt
Unapplied-Accounted is_final d p reason e s s_1 (kept h) n u =
    rw (compensated_payments d p reason e.amount (add_attempt d p e PaymentStatus.captured none s))
      (All-map _ _ s.payments (compensated d p reason e.amount _) u)
Unapplied-Accounted is_final d p reason e s s_1 (closed h) n u =
    rw
      (compensated_payments d p reason e.amount (add_attempt d p e PaymentStatus.captured none s_1))
      (All-update_many-from _ _ (is_same_row p) _ s.payments
        (λ x k. closed_row d p x reason e.amount _ k n) (compensated d p reason e.amount _) u)

Released-Accounted :
    {d : Delivery} {session : StoredSession} {s t : LedgerStore}
    → Released d session s t
    → Accounted s
    → Accounted t
unfolding add_outbox set_session
Released-Accounted (stays h) u = u
Released-Accounted (reopened next payload h k) u = u

paid_row :
    (now : ℤ) (rs : List Refund) (x : Payment) → is_accounted rs (mark_captured true now x) ≡ true
unfolding is_accounted mark_captured is_captured PaymentStatus-discrete
paid_row now rs x = refl

failed_row :
    (type : ProviderWebhookType) (code : PaymentFailureCode) (now : ℤ) (rs : List Refund)
    (x : Payment)
    → is_capture type ≡ false
    → is_accounted rs (mark_failed (failure_status type) code now x) ≡ true
unfolding is_accounted mark_failed is_captured is_capture failure_status PaymentStatus-discrete
failed_row ProviderWebhookType.payment_captured code now rs x h = absurd (cc)
failed_row ProviderWebhookType.payment_declined code now rs x h = refl
failed_row ProviderWebhookType.payment_canceled code now rs x h = refl
failed_row ProviderWebhookType.payment_timed_out code now rs x h = refl

Settled-Accounted :
    {d : Delivery} {e : ProviderWebhookEvent} {p : Payment} {s t : LedgerStore}
    → Settled d e p s t
    → eqb_ℤ e.amount.amount_minor (pos 0) ≡ false
    → Accounted s
    → Accounted t
unfolding record_payment_audit record_webhook add_attempt add_outbox set_session set_quotes
    set_payments
Settled-Accounted (refused h c) n u = u
Settled-Accounted (duplicate h c j) n u = u
Settled-Accounted (ignored h c o) n u = u
Settled-Accounted {d = d} {e = e} {p = p} {s = s} (mismatched session s_1 s_2 own h c v r) n u =
    Released-Accounted r (Unapplied-Accounted _ d p RefundReason.amount_mismatch e s s_1 v n u)
Settled-Accounted {d = d} {e = e} {p = p} {s = s} (late session s_1 s_2 own h c m v r) n u =
    Released-Accounted r (Unapplied-Accounted _ d p RefundReason.late_capture e s s_1 v n u)
Settled-Accounted {d = d} {p = p} {s = s} (paid_for session next h c f g j) n u =
    All-update_many-from _ _ (is_same_row p) _ s.payments (λ x k. paid_row d.now s.refunds x)
      (λ x k. k) u
Settled-Accounted {d = d} {e = e} {p = p} {s = s} (closed_unpaid session s_1 own h c o r) n u =
    Released-Accounted r (
      All-update_many-from _ _ (is_same_row p) _ s.payments
        (λ x k. failed_row e.type (read_failure_code e) d.now s.refunds x c) (λ x k. k) u)

pub Reduced-Accounted :
    {d : Delivery} {e : ProviderWebhookEvent} {s t : LedgerStore}
    → Reduced d e s t
    → eqb_ℤ e.amount.amount_minor (pos 0) ≡ false
    → Accounted s
    → Accounted t
unfolding record_webhook
Reduced-Accounted (recorded j) n u = u
Reduced-Accounted (unknown_intent j) n u = u
Reduced-Accounted (settled known p j l r) n u = Settled-Accounted r n u

-- When every captured payment has paid for its session or is owed back, that is so again after a
-- reduced callback of an amount other than zero.
pub reduce_webhook_event-Accounted :
    (d : Delivery) (e : ProviderWebhookEvent) (s t : LedgerStore)
    → reduce_webhook_event d e s ≡ ok t
    → eqb_ℤ e.amount.amount_minor (pos 0) ≡ false
    → Accounted s
    → Accounted t
reduce_webhook_event-Accounted d e s t h n u =
    Reduced-Accounted (reduce_webhook_event-Reduced d e s t h) n u
