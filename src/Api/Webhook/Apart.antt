-- ===== src/Api/Webhook/Apart.antt =====
-- The rows that a callback leaves alone in the tables of services/api/src/modules/payments/service.ts.
use kiosk_project.Base.Int.{pos, eqb_ℤ}
use kiosk_project.Base.{
  ◌≡◌, refl, ◌∙◌, String, str_eq, str_eq_refl, eq_iff, Bool, true, false, not, ◌||◌, Option, none,
  some, any, filter, find, Bool-cases, inl, inr, and_true,
}
use kiosk_project.Providers.{Money, ProviderWebhookEvent}
use kiosk_project.Domain.Session.{VersionedSessionState}
use kiosk_project.Database.Tables.{filter-update_many, find-holds}
use kiosk_project.Database.Payments.{Payment, PaymentFailureCode, PaymentStatus, is_same_row}
use kiosk_project.Database.Quotes.{PriceQuote}
use kiosk_project.Api.Ledger.{
  LedgerStore, OutboxPayload, RefundReason, StoredSession, WebhookResult,
}
use kiosk_project.Api.Ledger.Updates.{
  Delivery, add_attempt, add_outbox, is_owed_for, is_version_of, mark_captured, mark_failed,
  failure_status, read_failure_code, moved, record_compensation, record_payment_audit,
  record_webhook, set_payments, set_session,
}
use kiosk_project.Api.Webhook.{is_consumed_by, is_quote_of, set_quotes}
use kiosk_project.Api.Webhook.Steps.{
  Released, Settled, Unapplied, closed, closed_unpaid, duplicate, ignored, kept, late, mismatched,
  paid_for, refused, reopened, stays,
}

-- The rows of the other payments, with their attempts and refunds, and of the other sessions and
-- quotes are as they were.
pub record Apart (p : Payment) (s t : LedgerStore) : Type 0 where
  pub other_payments :
      filter (λ x. not (str_eq x.id p.id)) t.payments
      ≡ filter (λ x. not (str_eq x.id p.id)) s.payments
  pub other_attempts :
      filter (λ x. not (str_eq x.payment_id p.id)) t.attempts
      ≡ filter (λ x. not (str_eq x.payment_id p.id)) s.attempts
  pub other_refunds :
      filter (λ x. not (str_eq x.payment_id p.id)) t.refunds
      ≡ filter (λ x. not (str_eq x.payment_id p.id)) s.refunds
  pub other_sessions :
      filter (λ x. not (str_eq x.id p.session_id)) t.sessions
      ≡ filter (λ x. not (str_eq x.id p.session_id)) s.sessions
  pub other_quotes :
      filter (λ x. not (str_eq x.id p.quote_id)) t.quotes
      ≡ filter (λ x. not (str_eq x.id p.quote_id)) s.quotes

unchanged : (p : Payment) (s : LedgerStore) → Apart p s s
unchanged p s = record {
  other_payments = refl;
  other_attempts = refl;
  other_refunds = refl;
  other_sessions = refl;
  other_quotes = refl;
}

Apart-trans : {p : Payment} {s t u : LedgerStore} → Apart p s t → Apart p t u → Apart p s u
Apart-trans a b = record {
  other_payments = b.other_payments ∙ a.other_payments;
  other_attempts = b.other_attempts ∙ a.other_attempts;
  other_refunds = b.other_refunds ∙ a.other_refunds;
  other_sessions = b.other_sessions ∙ a.other_sessions;
  other_quotes = b.other_quotes ∙ a.other_quotes;
}

set_payments-Apart :
    (p : Payment) (f : Payment → Payment) (s : LedgerStore)
    → ((x : Payment) → (f x).id ≡ x.id)
    → Apart p s (set_payments p f s)
unfolding set_payments is_same_row
set_payments-Apart p f s k = record {
  other_payments =
      filter-update_many (λ x. not (str_eq x.id p.id)) (is_same_row p) f s.payments
        (λ x h. rw (and_true (str_eq x.id p.id) _ h).0 refl)
        (λ x h. rw (k x, (and_true (str_eq x.id p.id) _ h).0) refl);
  other_attempts = refl;
  other_refunds = refl;
  other_sessions = refl;
  other_quotes = refl;
}

set_quotes-Apart : (p : Payment) (s : LedgerStore) → Apart p s (set_quotes p s)
unfolding set_quotes is_consumed_by is_quote_of
set_quotes-Apart p s = record {
  other_payments = refl;
  other_attempts = refl;
  other_refunds = refl;
  other_sessions = refl;
  other_quotes =
      filter-update_many (λ x. not (str_eq x.id p.quote_id)) (is_consumed_by p) _ s.quotes
        (λ x h. rw (named x h) refl) (λ x h. rw (named x h) refl);
}
  where
    named : (x : PriceQuote) → is_consumed_by p x ≡ true → str_eq x.id p.quote_id ≡ true
    named x h = (and_true _ _ (and_true (is_quote_of p x) _ h).0).0

set_session-Apart :
    (d : Delivery) (p : Payment) (session : StoredSession) (next : VersionedSessionState)
    (s : LedgerStore)
    → str_eq session.id p.session_id ≡ true
    → Apart p s (set_session d session next s)
unfolding set_session moved
set_session-Apart d p session next s own = record {
  other_payments = refl;
  other_attempts = refl;
  other_refunds = refl;
  other_sessions =
      filter-update_many (λ x. not (str_eq x.id p.session_id)) (is_version_of session) _ s.sessions
        (λ x h. rw (named x h) refl) (λ x h. rw (named x h) refl);
  other_quotes = refl;
}
  where
    named : (x : StoredSession) → is_version_of session x ≡ true → str_eq x.id p.session_id ≡ true
    named x h =
        let e = (eq_iff x.id session.id).0 (and_true (str_eq x.id session.id) _ h).0 in rw e own

add_attempt-Apart :
    (d : Delivery) (p : Payment) (e : ProviderWebhookEvent) (status : PaymentStatus)
    (code : Option PaymentFailureCode) (s : LedgerStore)
    → Apart p s (add_attempt d p e status code s)
unfolding add_attempt
add_attempt-Apart d p e status code s = record {
  other_payments = refl;
  other_attempts = rw (str_eq_refl p.id) refl;
  other_refunds = refl;
  other_sessions = refl;
  other_quotes = refl;
}

record_compensation-Apart :
    (d : Delivery) (p : Payment) (reason : RefundReason) (amount : Money) (s : LedgerStore)
    → Apart p s (record_compensation d p reason amount s)
unfolding record_compensation
record_compensation-Apart d p reason amount s =
    elim (Bool-cases (eqb_ℤ amount.amount_minor (pos 0) || any (is_owed_for p reason) s.refunds)) [
      | inl e ↦ rw e (unchanged p s)
      | inr e ↦ rw e (record {
        other_payments = refl;
        other_attempts = refl;
        other_refunds = rw (str_eq_refl p.id) refl;
        other_sessions = refl;
        other_quotes = refl;
      })
    ]

add_outbox-Apart :
    (d : Delivery) (p : Payment) (session : StoredSession) (payload : OutboxPayload)
    (s : LedgerStore)
    → Apart p s (add_outbox d session payload s)
unfolding add_outbox
add_outbox-Apart d p session payload s = record {
  other_payments = refl;
  other_attempts = refl;
  other_refunds = refl;
  other_sessions = refl;
  other_quotes = refl;
}

recorded-Apart :
    (d : Delivery) (p : Payment) (e : ProviderWebhookEvent) (id : Option String)
    (result : WebhookResult) (s : LedgerStore)
    → Apart p s (record_webhook d e id result s)
unfolding record_webhook
recorded-Apart d p e id result s = record {
  other_payments = refl;
  other_attempts = refl;
  other_refunds = refl;
  other_sessions = refl;
  other_quotes = refl;
}

audited-Apart :
    (d : Delivery) (p : Payment) (action outcome : String) (s : LedgerStore)
    → Apart p s (record_payment_audit d p action outcome s)
unfolding record_payment_audit
audited-Apart d p action outcome s = record {
  other_payments = refl;
  other_attempts = refl;
  other_refunds = refl;
  other_sessions = refl;
  other_quotes = refl;
}

Unapplied-Apart :
    {is_final : PaymentStatus → Bool} {d : Delivery} {p : Payment} {s t : LedgerStore}
    → Unapplied is_final d p s t
    → Apart p s t
unfolding mark_captured
Unapplied-Apart {p = p} {s = s} (kept h) = unchanged p s
Unapplied-Apart {d = d} {p = p} {s = s} (closed h) =
    set_payments-Apart p (mark_captured false d.now) s (λ x. refl)

Released-Apart :
    {d : Delivery} {session : StoredSession} {s t : LedgerStore} (p : Payment)
    → str_eq session.id p.session_id ≡ true
    → Released d session s t
    → Apart p s t
Released-Apart {s = s} p own (stays h) = unchanged p s
Released-Apart {d = d} {session = session} {s = s} p own (reopened next payload h k) =
    Apart-trans (set_session-Apart d p session next s own) (add_outbox-Apart d p session payload _)

pub own_session :
    (p : Payment) (s : LedgerStore) (session : StoredSession)
    → find (λ x. str_eq x.id p.session_id) s.sessions ≡ some session
    → str_eq session.id p.session_id ≡ true
own_session p s session e = find-holds (λ x. str_eq x.id p.session_id) s.sessions session e

pub Settled-Apart :
    {d : Delivery} {e : ProviderWebhookEvent} {p : Payment} {s t : LedgerStore}
    → Settled d e p s t
    → Apart p s t
unfolding mark_captured mark_failed
Settled-Apart {d = d} {e = e} {p = p} {s = s} (refused h c) =
    Apart-trans (recorded-Apart d p e (some p.id) WebhookResult.amount_mismatch s)
      (audited-Apart d p "payment.amount_mismatch" "REFUSED" _)
Settled-Apart {d = d} {e = e} {p = p} {s = s} (duplicate h c j) = recorded-Apart d p e _ _ s
Settled-Apart {d = d} {e = e} {p = p} {s = s} (ignored h c o) = recorded-Apart d p e _ _ s
Settled-Apart {d = d} {e = e} {p = p} {s = s} (mismatched session s_1 s_2 own h c u r) =
    Apart-trans (Unapplied-Apart u) (
      Apart-trans (add_attempt-Apart d p e PaymentStatus.captured none s_1) (
        Apart-trans (record_compensation-Apart d p RefundReason.amount_mismatch e.amount _) (
          Apart-trans (Released-Apart p (own_session p s session own) r) (
            Apart-trans (recorded-Apart d p e (some p.id) WebhookResult.amount_mismatch s_2)
              (audited-Apart d p "payment.amount_mismatch" "REFUSED" _)))))
Settled-Apart {d = d} {e = e} {p = p} {s = s} (late session s_1 s_2 own h c n u r) =
    Apart-trans (Unapplied-Apart u) (
      Apart-trans (add_attempt-Apart d p e PaymentStatus.captured none s_1) (
        Apart-trans (record_compensation-Apart d p RefundReason.late_capture e.amount _) (
          Apart-trans (recorded-Apart d p e (some p.id) WebhookResult.late_capture _) (
            Apart-trans (Released-Apart p (own_session p s session own) r)
              (audited-Apart d p "payment.late_capture" "RECOVERY_REQUIRED" s_2)))))
Settled-Apart {d = d} {e = e} {p = p} {s = s} (paid_for session next h c own g k) =
    Apart-trans (set_payments-Apart p (mark_captured true d.now) s (λ x. refl)) (
      Apart-trans (set_quotes-Apart p _) (
        Apart-trans (set_session-Apart d p session next _ (own_session p s session own)) (
          Apart-trans (add_attempt-Apart d p e PaymentStatus.captured none _) (
            Apart-trans (add_outbox-Apart d p session _ _) (
              Apart-trans (recorded-Apart d p e (some p.id) WebhookResult.captured _)
                (audited-Apart d p "payment.captured" "SUCCESS" _))))))
Settled-Apart {d = d} {e = e} {p = p} {s = s} (closed_unpaid session s_1 own h c o r) =
    Apart-trans
      (set_payments-Apart p (mark_failed (failure_status e.type) (read_failure_code e) d.now) s
        (λ x. refl))
      (Apart-trans (add_attempt-Apart d p e _ _ _) (
        Apart-trans (Released-Apart p (own_session p s session own) r) (
          Apart-trans (recorded-Apart d p e (some p.id) WebhookResult.failed s_1)
            (audited-Apart d p "payment.failed" "FAILURE" _))))
