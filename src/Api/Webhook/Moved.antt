-- ===== src/Api/Webhook/Moved.antt =====
-- What a callback does to the session of its payment in services/api/src/modules/payments/service.ts.
use kiosk_project.Base.Int.{pos, eqb_ℤ}
use kiosk_project.Base.{
  ◌+◌, ==_iff, ◌≡◌, ◌⊎◌, refl, ap, ◌∙◌, str_eq, str_eq_refl, eq_iff, Bool, true, ◌||◌, none, some,
  ◌∷◌, any, find, if◌then◌else◌, Bool-cases, inl, inr, same-true,
}
use kiosk_project.Providers.{Money, ProviderWebhookEvent}
use kiosk_project.Domain.Session.{
  SessionState, SessionState-discrete, VersionedSessionState, awaiting_payment, configuring,
}
use kiosk_project.Database.Tables.{find-update_many, updated_row}
use kiosk_project.Database.Payments.{Payment, PaymentStatus}
use kiosk_project.Api.Ledger.{LedgerStore, OutboxEvent, OutboxPayload, RefundReason, StoredSession}
use kiosk_project.Api.Ledger.Updates.{
  Delivery, add_attempt, add_outbox, is_owed_for, is_version_of, moved, record_compensation,
  record_payment_audit, record_webhook, set_payments, set_session,
}
use kiosk_project.Api.Webhook.{succeeded, set_quotes}
use kiosk_project.Api.Webhook.Captured.{is_effective-parts}
use kiosk_project.Api.Webhook.Steps.{
  Released, Settled, Unapplied, closed, closed_unpaid, duplicate, ignored, kept, late, mismatched,
  paid_for, refused, reopened, stays,
}
use kiosk_project.Api.Webhook.Apart.{own_session}

-- The payment's session stays as it is, without an event; or it leaves `awaiting_payment`, and the
-- next event of its stream says so.
pub data Moved (p : Payment) (s t : LedgerStore) : Type 0 where
  stayed : t.sessions ≡ s.sessions → t.outbox ≡ s.outbox → Moved p s t
  went :
      (before after : StoredSession) (event : OutboxEvent)
      → find (λ x. str_eq x.id p.session_id) s.sessions ≡ some before
      → find (λ x. str_eq x.id p.session_id) t.sessions ≡ some after
      → before.state ≡ awaiting_payment
      → (after.state ≡ configuring) ⊎ (after.state ≡ SessionState.paid)
      → after.event_sequence ≡ before.event_sequence + 1
      → t.outbox ≡ event ∷ s.outbox
      → event.aggregate_id ≡ p.session_id
      → event.sequence ≡ after.event_sequence
      → Moved p s t

version_of_its_own : (session : StoredSession) → is_version_of session session ≡ true
version_of_its_own session =
    rw (str_eq_refl session.id, (==_iff session.state_version session.state_version).1 refl) refl

moved_session :
    (d : Delivery) (p : Payment) (session : StoredSession) (next : VersionedSessionState)
    (s : LedgerStore)
    → find (λ x. str_eq x.id p.session_id) s.sessions ≡ some session
    → find (λ x. str_eq x.id p.session_id) (set_session d session next s).sessions
      ≡ some (moved d session next session)
unfolding set_session moved
moved_session d p session next s own =
    find-update_many (λ x. str_eq x.id p.session_id) (is_version_of session) (moved d session next)
      s.sessions (λ x. refl)
    ∙ ap (updated_row (is_version_of session) (moved d session next)) own
    ∙ ap (λ v. some (if v then moved d session next session else session))
        (version_of_its_own session)

moves :
    (d : Delivery) (p : Payment) (session : StoredSession) (next : VersionedSessionState)
    (payload : OutboxPayload) (s : LedgerStore)
    → find (λ x. str_eq x.id p.session_id) s.sessions ≡ some session
    → session.state ≡ awaiting_payment
    → (next.state ≡ configuring) ⊎ (next.state ≡ SessionState.paid)
    → Moved p s (add_outbox d session payload (set_session d session next s))
unfolding add_outbox moved set_session
moves d p session next payload s own h k =
    went session (moved d session next session)
      (record {
        id = d.outbox_id;
        aggregate_id = session.id;
        sequence = session.event_sequence + 1;
        payload = payload;
      })
      own (moved_session d p session next s own) h k refl refl
      ((eq_iff session.id p.session_id).0 (own_session p s session own)) refl

-- Which session a callback moves, and the event that it writes of it.
Released-Moved :
    (d : Delivery) (p : Payment) (session : StoredSession) (s t : LedgerStore)
    → find (λ x. str_eq x.id p.session_id) s.sessions ≡ some session
    → Released d session s t
    → Moved p s t
Released-Moved d p session s t own (stays h) = stayed refl refl
Released-Moved d p session s t own (reopened next payload h k) =
    moves d p session next payload s own h (inl k)

-- Steps before and after the move, which touch neither the sessions nor the events.
Moved-between :
    (p : Payment) {s t u v : LedgerStore}
    → (t.sessions ≡ s.sessions) × (t.outbox ≡ s.outbox)
    → (v.sessions ≡ u.sessions) × (v.outbox ≡ u.outbox)
    → Moved p t u
    → Moved p s v
Moved-between p (a, b) (c, e) (stayed h k) = stayed (c ∙ h ∙ a) (e ∙ k ∙ b)
Moved-between p (a, b) (c, e) (went before after event f g h k i j l m) =
    went before after event (rw⁻¹ a f) (rw c g) h k i (e ∙ j ∙ ap (◌∷◌ event) b) l m

compensated_quietly :
    (d : Delivery) (p : Payment) (reason : RefundReason) (amount : Money) (s : LedgerStore)
    → ((record_compensation d p reason amount s).sessions ≡ s.sessions)
      × ((record_compensation d p reason amount s).outbox ≡ s.outbox)
unfolding record_compensation
compensated_quietly d p reason amount s =
    elim (Bool-cases (eqb_ℤ amount.amount_minor (pos 0) || any (is_owed_for p reason) s.refunds)) [
      | inl e ↦ rw e (refl, refl)
      | inr e ↦ rw e (refl, refl)
    ]

Unapplied-quietly :
    {is_final : PaymentStatus → Bool} {d : Delivery} {p : Payment} {s t : LedgerStore}
    → Unapplied is_final d p s t
    → (t.sessions ≡ s.sessions) × (t.outbox ≡ s.outbox)
unfolding set_payments
Unapplied-quietly (kept h) = (refl, refl)
Unapplied-quietly (closed h) = (refl, refl)

-- The stores before a compensated capture moves its session.
compensated_stores :
    {is_final : PaymentStatus → Bool} (d : Delivery) (e : ProviderWebhookEvent) (p : Payment)
    (reason : RefundReason) {s t : LedgerStore}
    → Unapplied is_final d p s t
    → let owed =
        record_compensation d p reason e.amount (add_attempt d p e PaymentStatus.captured none t) in
      (owed.sessions ≡ s.sessions) × (owed.outbox ≡ s.outbox)
unfolding add_attempt
compensated_stores d e p reason {t = t} u =
    let (a, b) =
      compensated_quietly d p reason e.amount (add_attempt d p e PaymentStatus.captured none t) in
    let (f, g) = Unapplied-quietly u in (a ∙ f, b ∙ g)

pub Settled-Moved :
    {d : Delivery} {e : ProviderWebhookEvent} {p : Payment} {s t : LedgerStore}
    → Settled d e p s t
    → Moved p s t
unfolding record_payment_audit record_webhook add_attempt add_outbox set_session set_payments
    set_quotes moved
Settled-Moved (refused h c) = stayed refl refl
Settled-Moved (duplicate h c j) = stayed refl refl
Settled-Moved (ignored h c o) = stayed refl refl
Settled-Moved {d = d} {e = e} {p = p} {s = s} (mismatched session s_1 s_2 own h c u r) =
    let quiet = compensated_stores d e p RefundReason.amount_mismatch u in
    Moved-between p quiet (refl, refl) (Released-Moved d p session _ s_2 (rw quiet.0 own) r)
Settled-Moved {d = d} {e = e} {p = p} {s = s} (late session s_1 s_2 own h c n u r) =
    let quiet = compensated_stores d e p RefundReason.late_capture u in
    Moved-between p quiet (refl, refl) (Released-Moved d p session _ s_2 (rw quiet.0 own) r)
Settled-Moved {d = d} {e = e} {p = p} {s = s} (paid_for session next h c own g k) =
    let awaiting = (is_effective-parts d.now p session _ g).1 in
    let state = same-true SessionState-discrete session.state awaiting_payment awaiting in
    Moved-between p {s = s} {t = s} (refl, refl) (refl, refl)
      (moves d p session next (succeeded d p session next) s own state (inr k))
Settled-Moved {d = d} {e = e} {p = p} {s = s} (closed_unpaid session s_1 own h c o r) =
    Moved-between p (refl, refl) (refl, refl) (Released-Moved d p session _ s_1 own r)
