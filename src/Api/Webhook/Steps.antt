-- ===== src/Api/Webhook/Steps.antt =====
-- The ways in which services/api/src/modules/payments/service.ts reduces a callback, as a relation on
-- the stored rows.
use kiosk_project.Api.Ledger.Updates.{
  is_owed_for, payment_failure_lost_race, find_payment, payment_late_capture_lost_race, mark_failed,
  read_failure_code, failure_status, session_paid_lost_race, quote_consumption_lost_race,
  payment_capture_lost_race, find_session, session_release_lost_race, add_attempt, is_version_of,
  record_compensation, set_session, record_webhook, add_outbox, record_payment_audit, mark_captured,
  set_payments, same_state, WebhookError, advance_session, update_payment, next_state, Delivery,
}
use kiosk_project.Domain.Session.Target.{transition_session-target}
use kiosk_project.Database.Tables.{matching}
use kiosk_project.Base.Int.{eqb_ℤ, pos}
use kiosk_project.Providers.{Money, ProviderWebhookEvent}
use kiosk_project.Api.Ledger.{
  RefundReason, WebhookResult, OutboxPayload, StoredSession, LedgerStore,
}
use kiosk_project.Domain.Session.{
  transition_session, configuring, SessionState-discrete, SessionState, awaiting_payment,
  VersionedSessionState,
}
use kiosk_project.Database.Payments.{
  is_open_status, is_same_row, Payment, PaymentFailureCode, PaymentStatus,
}
use kiosk_project.Api.Webhook.{
  settle_known, capture_for, apply_new_failure, apply_capture, settle_event, reduce_webhook_event,
  apply_new_capture, apply_failure, String, unapplied_capture, succeeded,
  release_after_compensated_capture, is_declined, is_quote_of, is_consumed_by, is_captured_status,
  set_quotes, mismatch_capture, is_effective, mismatch, effective_capture, consume_quote, str_eq,
  is_captured_or_declined, is_intent_of, is_capture, is_recorded, is_amount_of, release_session,
  Bool, record_unapplied, release_when_awaiting,
}
use kiosk_project.Base.{
  ◌∙◌, ◌||◌, true, false, some, none, some, true, false, Ensures-map, ensured, ok, Option-cases,
  Result-cases, ensures, Ensures-or_throw, inr, inl, Bool-cases, same-true, Ensures-require, any,
  find, Ensures-ok, Ensures-bind, Ensures-if, Ensures, ◌==◌, ◌≡◌, refl,
}

-- A payment that a capture closes without paying for the session.
pub data Unapplied (is_final : PaymentStatus → Bool) (d : Delivery) (p : Payment) (s : LedgerStore)
    : LedgerStore → Type 0 where
  kept : is_final p.status ≡ true → Unapplied is_final d p s s
  closed :
      is_final p.status ≡ false
      → Unapplied is_final d p s (set_payments p (mark_captured false d.now) s)

-- A session that goes back to configuring when it awaited a payment.
pub data Released (d : Delivery) (session : StoredSession) (s : LedgerStore)
    : LedgerStore → Type 0 where
  stays : same_state session.state awaiting_payment ≡ false → Released d session s s
  reopened :
      (next : VersionedSessionState) (payload : OutboxPayload)
      → session.state ≡ awaiting_payment
      → next.state ≡ configuring
      → Released d session s (add_outbox d session payload (set_session d session next s))

-- One settled callback for a stored payment.
pub data Settled (d : Delivery) (e : ProviderWebhookEvent) (p : Payment) (s : LedgerStore)
    : LedgerStore → Type 0 where
  refused :
      is_amount_of p e.amount ≡ false
      → is_capture e.type ≡ false
      → Settled d e p s (
          record_payment_audit d p "payment.amount_mismatch" "REFUSED"
            (record_webhook d e (some p.id) WebhookResult.amount_mismatch s))
  mismatched :
      (session : StoredSession) (s_1 s_2 : LedgerStore)
      → find (λ x. str_eq x.id p.session_id) s.sessions ≡ some session
      → is_amount_of p e.amount ≡ false
      → is_capture e.type ≡ true
      → Unapplied is_captured_or_declined d p s s_1
      → Released d session
          (record_compensation d p RefundReason.amount_mismatch e.amount
            (add_attempt d p e PaymentStatus.captured none s_1))
          s_2
      → Settled d e p s (
          record_payment_audit d p "payment.amount_mismatch" "REFUSED"
            (record_webhook d e (some p.id) WebhookResult.amount_mismatch s_2))
  duplicate :
      is_amount_of p e.amount ≡ true
      → is_capture e.type ≡ true
      → is_captured_status p.status ≡ true
      → Settled d e p s (record_webhook d e (some p.id) WebhookResult.duplicate_capture s)
  late :
      (session : StoredSession) (s_1 s_2 : LedgerStore)
      → find (λ x. str_eq x.id p.session_id) s.sessions ≡ some session
      → is_amount_of p e.amount ≡ true
      → is_capture e.type ≡ true
      → is_captured_status p.status ≡ false
      → Unapplied is_declined d p s s_1
      → Released d session
          (record_webhook d e (some p.id) WebhookResult.late_capture (
            record_compensation d p RefundReason.late_capture e.amount
              (add_attempt d p e PaymentStatus.captured none s_1)))
          s_2
      → Settled d e p s (record_payment_audit d p "payment.late_capture" "RECOVERY_REQUIRED" s_2)
  paid_for :
      (session : StoredSession) (next : VersionedSessionState)
      → is_amount_of p e.amount ≡ true
      → is_capture e.type ≡ true
      → find (λ x. str_eq x.id p.session_id) s.sessions ≡ some session
      → is_effective d.now p session (find (is_quote_of p) s.quotes) ≡ true
      → next.state ≡ SessionState.paid
      → Settled d e p s (
          record_payment_audit d p "payment.captured" "SUCCESS" (
            record_webhook d e (some p.id) WebhookResult.captured (
              add_outbox d session (succeeded d p session next) (
                add_attempt d p e PaymentStatus.captured none (
                  set_session d session next
                    (set_quotes p (set_payments p (mark_captured true d.now) s)))))))
  closed_unpaid :
      (session : StoredSession) (s_1 : LedgerStore)
      → find (λ x. str_eq x.id p.session_id) s.sessions ≡ some session
      → is_amount_of p e.amount ≡ true
      → is_capture e.type ≡ false
      → is_open_status p.status ≡ true
      → Released d session
          (add_attempt d p e
            (failure_status e.type)
            (some (read_failure_code e))
            (set_payments p (mark_failed (failure_status e.type) (read_failure_code e) d.now) s))
          s_1
      → Settled d e p s (
          record_payment_audit d p "payment.failed" "FAILURE"
            (record_webhook d e (some p.id) WebhookResult.failed s_1))
  ignored :
      is_amount_of p e.amount ≡ true
      → is_capture e.type ≡ false
      → is_open_status p.status ≡ false
      → Settled d e p s (record_webhook d e (some p.id) WebhookResult.ignored_terminal_payment s)

-- One reduced callback.
pub data Reduced (d : Delivery) (e : ProviderWebhookEvent) (s : LedgerStore)
    : LedgerStore → Type 0 where
  recorded : any (is_recorded d e) s.inbox ≡ true → Reduced d e s s
  unknown_intent :
      find (is_intent_of d e) s.payments ≡ none
      → Reduced d e s (record_webhook d e none WebhookResult.ignored_unknown_intent s)
  settled :
      {t : LedgerStore} (known p : Payment)
      → find (is_intent_of d e) s.payments ≡ some known
      → find (λ x. str_eq x.id known.id) s.payments ≡ some p
      → Settled d e p s t
      → Reduced d e s t

update_payment-eq :
    (p : Payment) (f : Payment → Payment) (e : WebhookError) (s : LedgerStore)
    → Ensures (update_payment p f e s) (λ t. t ≡ set_payments p f s)
unfolding update_payment
update_payment-eq p f e s =
    Ensures-require (matching (is_same_row p) s.payments == 1) e λ k. Ensures-ok refl

advance_session-eq :
    (d : Delivery) (session : StoredSession) (next : VersionedSessionState) (e : WebhookError)
    (s : LedgerStore)
    → Ensures (advance_session d session next e s) (λ t. t ≡ set_session d session next s)
unfolding advance_session
advance_session-eq d session next e s =
    Ensures-require (matching (is_version_of session) s.sessions == 1) e λ k. Ensures-ok refl

consume_quote-eq :
    (p : Payment) (s : LedgerStore) → Ensures (consume_quote p s) (λ t. t ≡ set_quotes p s)
unfolding consume_quote
consume_quote-eq p s =
    Ensures-require (matching (is_consumed_by p) s.quotes == 1) quote_consumption_lost_race
      λ k. Ensures-ok refl

next_state-target :
    (session : StoredSession) (target : SessionState)
    → Ensures (next_state session target) (λ next. next.state ≡ target)
unfolding next_state
next_state-target session target =
    elim (Result-cases (
      transition_session (record { state = session.state; version = session.state_version }) target
        session.state_version)) [
          | inl (next, e) ↦
              rw (next_state, e)
                (Ensures-ok (transition_session-target _ target session.state_version e))
          | inr (error, e) ↦ rw (next_state, e) (ensures λ a k. absurd (cc))
        ]

find_session-eq :
    (id : String) (s : LedgerStore)
    → Ensures (find_session id s) (λ x. find (λ y. str_eq y.id id) s.sessions ≡ some x)
unfolding find_session
find_session-eq id s = Ensures-or_throw (find (λ y. str_eq y.id id) s.sessions) _ λ x e. e

record_unapplied-Unapplied :
    (is_final : PaymentStatus → Bool) (d : Delivery) (p : Payment) (e : WebhookError)
    (s : LedgerStore)
    → Ensures (record_unapplied is_final d p e s) (Unapplied is_final d p s)
unfolding record_unapplied update_payment
record_unapplied-Unapplied is_final d p e s =
    Ensures-if _ (λ h. Ensures-ok (kept h))
      λ h. Ensures-require (matching (is_same_row p) s.payments == 1) e λ k. Ensures-ok (closed h)

release_when_awaiting-Released :
    (d : Delivery) (p : Payment) (session : StoredSession) (status : PaymentStatus)
    (code : PaymentFailureCode) (s : LedgerStore)
    → Ensures (release_when_awaiting d p session status code s) (Released d session s)
unfolding release_when_awaiting release_session
release_when_awaiting-Released d p session status code s =
    Ensures-if _
      (λ h.
        Ensures-bind (λ next. next.state ≡ configuring) (next_state-target session configuring)
          λ next k.
            Ensures-bind _ (advance_session-eq d session next session_release_lost_race s)
              λ t e. rw e (Ensures-ok (reopened next _ (same-true SessionState-discrete _ _ h) k)))
      λ h. Ensures-ok (stays h)

Unapplied-sessions :
    {is_final : PaymentStatus → Bool} {d : Delivery} {p : Payment} {s t : LedgerStore}
    → Unapplied is_final d p s t
    → t.sessions ≡ s.sessions
unfolding set_payments
Unapplied-sessions (kept h) = refl
Unapplied-sessions (closed h) = refl

compensated_sessions :
    (d : Delivery) (p : Payment) (reason : RefundReason) (amount : Money) (s : LedgerStore)
    → (record_compensation d p reason amount s).sessions ≡ s.sessions
unfolding record_compensation
compensated_sessions d p reason amount s =
    elim (Bool-cases (eqb_ℤ amount.amount_minor (pos 0) || any (is_owed_for p reason) s.refunds)) [
      | inl e ↦ rw e refl
      | inr e ↦ rw e refl
    ]

-- What a capture of another amount does before the callback is recorded.
data Mismatched (d : Delivery) (e : ProviderWebhookEvent) (p : Payment) (s t : LedgerStore)
    : Type 0 where
  mismatched_by :
      (session : StoredSession) (s_1 : LedgerStore)
      → find (λ x. str_eq x.id p.session_id) s.sessions ≡ some session
      → Unapplied is_captured_or_declined d p s s_1
      → Released d session
          (record_compensation d p RefundReason.amount_mismatch e.amount
            (add_attempt d p e PaymentStatus.captured none s_1))
          t
      → Mismatched d e p s t

mismatch_capture-Mismatched :
    (d : Delivery) (e : ProviderWebhookEvent) (p : Payment) (s : LedgerStore)
    → Ensures (mismatch_capture d p e s) (Mismatched d e p s)
unfolding mismatch_capture release_after_compensated_capture add_attempt
mismatch_capture-Mismatched d e p s =
    Ensures-bind _ (record_unapplied-Unapplied is_captured_or_declined d p _ s) λ s_1 u.
      let attempted = add_attempt d p e PaymentStatus.captured none s_1 in
      let owed = record_compensation d p RefundReason.amount_mismatch e.amount attempted in
      Ensures-bind _ (find_session-eq p.session_id owed) λ session k.
        let same_sessions : owed.sessions ≡ s.sessions =
          compensated_sessions d p RefundReason.amount_mismatch e.amount attempted
          ∙ Unapplied-sessions u in
        Ensures-map (release_when_awaiting-Released d p session _ _ _)
          λ s_2 r. mismatched_by session s_1 (rw same_sessions at k) u r

mismatch-Settled :
    (d : Delivery) (e : ProviderWebhookEvent) (p : Payment) (s : LedgerStore)
    → is_amount_of p e.amount ≡ false
    → Ensures (mismatch d p e s) (Settled d e p s)
unfolding mismatch
mismatch-Settled d e p s h = elim (Bool-cases (is_capture e.type)) [
  | inl c ↦ rw c (
      Ensures-bind _ (mismatch_capture-Mismatched d e p s) λ s_2 m. elim m [
        | mismatched_by session s_1 own u r ↦ Ensures-ok (mismatched session s_1 s_2 own h c u r)
      ])
  | inr c ↦ rw c (Ensures-ok (refused h c))
]

unapplied_capture-Settled :
    (d : Delivery) (e : ProviderWebhookEvent) (p : Payment) (session : StoredSession)
    (s : LedgerStore)
    → is_amount_of p e.amount ≡ true
    → is_capture e.type ≡ true
    → is_captured_status p.status ≡ false
    → find (λ x. str_eq x.id p.session_id) s.sessions ≡ some session
    → Ensures (unapplied_capture d p session e s) (Settled d e p s)
unfolding unapplied_capture release_after_compensated_capture
unapplied_capture-Settled d e p session s h c n own =
    Ensures-bind (Unapplied is_declined d p s)
      (record_unapplied-Unapplied is_declined d p payment_late_capture_lost_race s)
      λ s_1 u.
        Ensures-bind _
          (release_when_awaiting-Released d p session PaymentStatus.captured
            PaymentFailureCode.provider_timeout _)
          λ s_2 r. Ensures-ok (late session s_1 s_2 own h c n u r)

effective_capture-Settled :
    (d : Delivery) (e : ProviderWebhookEvent) (p : Payment) (session : StoredSession)
    (s : LedgerStore)
    → is_amount_of p e.amount ≡ true
    → is_capture e.type ≡ true
    → find (λ x. str_eq x.id p.session_id) s.sessions ≡ some session
    → is_effective d.now p session (find (is_quote_of p) s.quotes) ≡ true
    → Ensures (effective_capture d p session e s) (Settled d e p s)
unfolding effective_capture
effective_capture-Settled d e p session s h c f g =
    Ensures-bind _ (update_payment-eq p (mark_captured true d.now) payment_capture_lost_race s)
      λ s_1 e_1. Ensures-bind _ (consume_quote-eq p s_1) λ s_2 e_2.
        Ensures-bind _ (next_state-target session SessionState.paid) λ next k.
          Ensures-bind _ (advance_session-eq d session next session_paid_lost_race s_2)
            λ s_3 e_3. rw (e_3, e_2, e_1) (Ensures-ok (paid_for session next h c f g k))

apply_new_capture-Settled :
    (d : Delivery) (e : ProviderWebhookEvent) (p : Payment) (s : LedgerStore)
    → is_amount_of p e.amount ≡ true
    → is_capture e.type ≡ true
    → is_captured_status p.status ≡ false
    → Ensures (apply_new_capture d p e s) (Settled d e p s)
unfolding apply_new_capture capture_for
apply_new_capture-Settled d e p s h c n =
    Ensures-bind _ (find_session-eq p.session_id s) λ session k.
      Ensures-if _ (λ g. effective_capture-Settled d e p session s h c k g)
        λ g. unapplied_capture-Settled d e p session s h c n k

apply_failure-Settled :
    (d : Delivery) (e : ProviderWebhookEvent) (p : Payment) (s : LedgerStore)
    → is_amount_of p e.amount ≡ true
    → is_capture e.type ≡ false
    → Ensures (apply_failure d p e s) (Settled d e p s)
unfolding apply_failure apply_new_failure add_attempt set_payments
apply_failure-Settled d e p s h c =
    Ensures-if _
      (λ o. Ensures-bind _ (update_payment-eq p _ payment_failure_lost_race s) λ s_1 e_1. rw e_1 (
        Ensures-bind _
          (find_session-eq p.session_id (
            add_attempt d p e (failure_status e.type) (some (read_failure_code e))
              (set_payments p (mark_failed (failure_status e.type) (read_failure_code e) d.now) s)))
          λ session own.
            Ensures-bind _ (release_when_awaiting-Released d p session _ _ _)
              λ s_2 r. Ensures-ok (closed_unpaid session s_2 own h c o r)))
      λ o. Ensures-ok (ignored h c o)

settle_event-Settled :
    (d : Delivery) (e : ProviderWebhookEvent) (p : Payment) (s : LedgerStore)
    → Ensures (settle_event d p e s) (Settled d e p s)
unfolding settle_event apply_capture
settle_event-Settled d e p s = elim (Bool-cases (is_amount_of p e.amount)) [
  | inr h ↦ rw h (mismatch-Settled d e p s h)
  | inl h ↦ rw h (
      Ensures-if _
        (λ c.
          Ensures-if _ (λ k. Ensures-ok (duplicate h c k))
            λ n. apply_new_capture-Settled d e p s h c n)
        λ c. apply_failure-Settled d e p s h c)
]

-- A reduced callback is one of the steps.
pub reduce_webhook_event-Reduced :
    (d : Delivery) (e : ProviderWebhookEvent) (s t : LedgerStore)
    → reduce_webhook_event d e s ≡ ok t
    → Reduced d e s t
unfolding reduce_webhook_event settle_known find_payment
reduce_webhook_event-Reduced d e s t =
    let total : Ensures (reduce_webhook_event d e s) (Reduced d e s) =
      Ensures-if _ (λ h. Ensures-ok (recorded h))
        λ h. elim (Option-cases (find (is_intent_of d e) s.payments)) [
          | inl n ↦ rw n (Ensures-ok (unknown_intent n))
          | inr (known, k) ↦ rw k (
              Ensures-bind _
                (Ensures-or_throw (find (λ x. str_eq x.id known.id) s.payments) _ λ x j. j)
                λ p j. Ensures-map (settle_event-Settled d e p s) λ u r. settled known p k j r)
        ] in
    ensured total
