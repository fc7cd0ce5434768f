-- ===== src/Api/Webhook/Paid.antt =====
-- How a session is paid.
use kiosk_project.Api.Ledger.Updates.{
  is_owed_for, record_webhook, record_payment_audit, is_version_of, moved, set_payments,
  add_attempt, set_session, record_compensation, add_outbox, Delivery,
}
use kiosk_project.Api.Webhook.Captured.{is_effective-parts}
use kiosk_project.Providers.{Money, ProviderWebhookEvent, ProviderWebhookType, payment_captured}
use kiosk_project.Api.Ledger.{LedgerStore, StoredSession, RefundReason}
use kiosk_project.Database.Quotes.{PriceQuote, is_active_status}
use kiosk_project.Domain.Session.{SessionState-discrete, SessionState, awaiting_payment}
use kiosk_project.Base.Int.{ℤ, ltb_ℤ, eqb_ℤ, pos}
use kiosk_project.Database.Payments.{PaymentStatus, Payment, is_open_status}
use kiosk_project.Database.Tables.{member-update_many}
use kiosk_project.Api.Webhook.Steps.{
  paid_for, closed_unpaid, late, mismatched, ignored, duplicate, settled, unknown_intent, refused,
  recorded, Settled, reduce_webhook_event-Reduced, Reduced, closed, kept, reopened, stays,
  Unapplied, Released,
}
use kiosk_project.Api.Webhook.{
  set_quotes, reduce_webhook_event, is_amount_of, is_quote_of, str_eq, is_intent_of, Bool, String,
  Option, is_payable_quote, is_capture,
}
use kiosk_project.Base.{
  any, same-true, sym, eq_iff, subst, ◌||◌, ◌∙◌, some, find, none, ap, Bool-cases, and_true, ◌≡◌,
  refl, true, ok, ◌⊎◌, inl, inr,
}
use mathlib.Core.List.{Memᴰ}

-- A callback that pays for a session: the provider captured the exact amount of the payment of the
-- event's intent, which was open and not expired, as its quote was, while the session awaited it.
pub data PaidBy (d : Delivery) (e : ProviderWebhookEvent) (s : LedgerStore) (session_id : String)
    : Type 0 where
  exact_capture :
      (p known : Payment) (session : StoredSession) (quote : PriceQuote)
      → find (is_intent_of d e) s.payments ≡ some known
      → find (λ x. str_eq x.id known.id) s.payments ≡ some p
      → find (λ x. str_eq x.id p.session_id) s.sessions ≡ some session
      → find (is_quote_of p) s.quotes ≡ some quote
      → session.id ≡ session_id
      → session.state ≡ awaiting_payment
      → e.type ≡ payment_captured
      → is_amount_of p e.amount ≡ true
      → is_open_status p.status ≡ true
      → ltb_ℤ d.now p.expires_at ≡ true
      → is_active_status quote.status ≡ true
      → ltb_ℤ d.now quote.expires_at ≡ true
      → PaidBy d e s session_id

-- Where the row of a paid session comes from.
abbrev Explained : Delivery → ProviderWebhookEvent → LedgerStore → StoredSession → Type 0
Explained d e s x = Memᴰ x s.sessions ⊎ PaidBy d e s x.id

Released-paid :
    {d : Delivery} {session : StoredSession} {s t : LedgerStore} (x : StoredSession)
    → Released d session s t
    → Memᴰ x t.sessions
    → x.state ≡ SessionState.paid
    → Memᴰ x s.sessions
unfolding add_outbox set_session moved
Released-paid x (stays h) m k = m
Released-paid {d = d} {session = session} {s = s} x (reopened next payload h j) m k =
    elim (member-update_many (is_version_of session) (moved d session next) s.sessions m) [
      | inl n ↦ n
      | inr (y, n, g, e) ↦ let a : x.state ≡ next.state = ap (λ z. z.state) e in absurd (cc)
    ]

payable :
    (now : ℤ) (quote : Option PriceQuote)
    → is_payable_quote now quote ≡ true
    → (q : PriceQuote) × (quote ≡ some q)
      × (is_active_status q.status ≡ true)
      × (ltb_ℤ now q.expires_at ≡ true)
unfolding is_payable_quote
payable now none h = absurd (cc)
payable now (some q) h = (q, refl, (and_true _ _ h).0, (and_true _ _ h).1)

captured_type : (type : ProviderWebhookType) → is_capture type ≡ true → type ≡ payment_captured
unfolding is_capture
captured_type ProviderWebhookType.payment_captured h = refl
captured_type ProviderWebhookType.payment_declined h = absurd (cc)
captured_type ProviderWebhookType.payment_canceled h = absurd (cc)
captured_type ProviderWebhookType.payment_timed_out h = absurd (cc)

compensated_sessions :
    (d : Delivery) (p : Payment) (reason : RefundReason) (amount : Money) (s : LedgerStore)
    → (record_compensation d p reason amount s).sessions ≡ s.sessions
unfolding record_compensation
compensated_sessions d p reason amount s =
    elim (Bool-cases (eqb_ℤ amount.amount_minor (pos 0) || any (is_owed_for p reason) s.refunds)) [
      | inl e ↦ rw e refl
      | inr e ↦ rw e refl
    ]

Unapplied-sessions :
    {is_final : PaymentStatus → Bool} {d : Delivery} {p : Payment} {s t : LedgerStore}
    → Unapplied is_final d p s t
    → t.sessions ≡ s.sessions
unfolding set_payments
Unapplied-sessions (kept h) = refl
Unapplied-sessions (closed h) = refl

Settled-paid :
    {d : Delivery} {e : ProviderWebhookEvent} {p known : Payment} {s t : LedgerStore}
    (x : StoredSession)
    → find (is_intent_of d e) s.payments ≡ some known
    → find (λ y. str_eq y.id known.id) s.payments ≡ some p
    → Settled d e p s t
    → Memᴰ x t.sessions
    → x.state ≡ SessionState.paid
    → Explained d e s x
unfolding record_payment_audit record_webhook add_attempt add_outbox set_session set_quotes
    set_payments moved
Settled-paid x i j (refused h c) m k = inl m
Settled-paid x i j (duplicate h c g) m k = inl m
Settled-paid x i j (ignored h c o) m k = inl m
Settled-paid {d = d} {e = e} {p = p} x i j (mismatched session s_1 s_2 own h c u r) m k = inl (
    subst (Memᴰ x)
      (compensated_sessions d p RefundReason.amount_mismatch e.amount
          (add_attempt d p e PaymentStatus.captured none s_1)
        ∙ Unapplied-sessions u)
      (Released-paid x r m k))
Settled-paid {d = d} {e = e} {p = p} x i j (late session s_1 s_2 own h c n u r) m k = inl (
    subst (Memᴰ x)
      (compensated_sessions d p RefundReason.late_capture e.amount
          (add_attempt d p e PaymentStatus.captured none s_1)
        ∙ Unapplied-sessions u)
      (Released-paid x r m k))
Settled-paid x i j (closed_unpaid session s_1 own h c o r) m k = inl (Released-paid x r m k)
Settled-paid {d = d} {e = e} {p = p} {known = known} {s = s} x i j (paid_for session next h c f g l)
      m k =
    elim (member-update_many (is_version_of session) (moved d session next) s.sessions m) [
      | inl n ↦ inl n
      | inr (y, n, v, w) ↦
          let same_id : x.id ≡ session.id =
            ap (λ z. z.id) w ∙ (eq_iff y.id session.id).0 (and_true _ _ v).0 in
          let (unsettled, waiting, live, quoted) = is_effective-parts d.now p session _ g in
          let (q, a, b, z) = payable d.now _ quoted in
          inr (
            exact_capture p known session q i j f a (sym same_id)
              (same-true SessionState-discrete _ _ waiting) (captured_type e.type c) h unsettled
              live b z)
    ]

Reduced-paid :
    {d : Delivery} {e : ProviderWebhookEvent} {s t : LedgerStore} (x : StoredSession)
    → Reduced d e s t
    → Memᴰ x t.sessions
    → x.state ≡ SessionState.paid
    → Explained d e s x
unfolding record_webhook
Reduced-paid x (recorded j) m k = inl m
Reduced-paid x (unknown_intent j) m k = inl m
Reduced-paid x (settled known p j l r) m k = Settled-paid x j l r m k

-- A session that is paid after a reduced callback was the same row before, or the callback paid for
-- it: a capture of the exact amount of the intent's payment, which was open and not expired, for an
-- active quote that was not expired, while the session awaited payment.
pub reduce_webhook_event-paid :
    (d : Delivery) (e : ProviderWebhookEvent) (s t : LedgerStore) (x : StoredSession)
    → reduce_webhook_event d e s ≡ ok t
    → Memᴰ x t.sessions
    → x.state ≡ SessionState.paid
    → Memᴰ x s.sessions ⊎ PaidBy d e s x.id
reduce_webhook_event-paid d e s t x h m k =
    Reduced-paid x (reduce_webhook_event-Reduced d e s t h) m k
