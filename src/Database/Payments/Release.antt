-- ===== src/Database/Payments/Release.antt =====
-- What a release does to the ledger.
use kiosk_project.Base.{
  same, and_true, Bool-cases, ◌+◌, ◌≡◌, refl, String, str_eq, ◌==◌, Bool-cases, same, same-true,
  and_true, true, false, ◌∷◌, none, some, filter, find, Option-cases, inl, inr,
}
use kiosk_project.Database.Tables.{filter-update_many, matching, find-holds}
use kiosk_project.Database.Payments.{
  captured, ℤ, is_open_status, PaymentStatus-discrete, PaymentStatus, Payment, PaymentStore,
  ReleaseInput, release_session_payments, SessionPaymentRelease, is_captured, is_open, is_open_of,
  is_captured_of, is_same_row, close_payment, PaymentFailedEvent, PaymentAttempt, release_open,
  release_found, cancel_attempt, payment_failed_event,
}

-- The outcomes of a release.
pub data Outcome (input : ReleaseInput) (s t : PaymentStore) (r : SessionPaymentRelease)
    : Type 0 where
  already_captured :
      (p : Payment)
      → find (is_captured_of input.session_id) s.payments ≡ some p
      → r.captured_payment_id ≡ some p.id
      → r.released_payment_id ≡ none
      → t ≡ s
      → r.next_sequence ≡ input.starting_sequence
      → Outcome input s t r
  nothing_closed :
      r.captured_payment_id ≡ none
      → r.released_payment_id ≡ none
      → t.attempts ≡ s.attempts
      → t.events ≡ s.events
      → r.next_sequence ≡ input.starting_sequence
      → Outcome input s t r
  closed :
      (a : PaymentAttempt) (e : PaymentFailedEvent)
      → r.captured_payment_id ≡ none
      → r.released_payment_id ≡ some e.payment_id
      → a.payment_id ≡ e.payment_id
      → e.aggregate_id ≡ input.session_id
      → t.attempts ≡ a ∷ s.attempts
      → t.events ≡ e ∷ s.events
      → e.sequence ≡ r.next_sequence
      → r.next_sequence ≡ input.starting_sequence + 1
      → Outcome input s t r

pub open_status :
    (a : PaymentStatus) → is_open_status a ≡ true → same PaymentStatus-discrete a captured ≡ false
unfolding is_open_status PaymentStatus-discrete
open_status PaymentStatus.pending h = refl
open_status PaymentStatus.authorized h = refl
open_status PaymentStatus.captured h = cc
open_status PaymentStatus.declined h = refl
open_status PaymentStatus.canceled h = refl
open_status PaymentStatus.timed_out h = refl

open_not_captured :
    (p q : Payment) (session_id : String)
    → is_open_of session_id p ≡ true
    → is_same_row p q ≡ true
    → is_captured q ≡ false
unfolding is_open_of is_same_row is_captured is_open
open_not_captured p q session_id h k =
    let e : q.status ≡ p.status =
      same-true PaymentStatus-discrete q.status p.status (and_true (str_eq q.id p.id) _ k).1 in
    rw e (open_status p.status (and_true (str_eq p.session_id session_id) _ h).1)

closed_not_captured : (now : ℤ) (q : Payment) → is_captured (close_payment now q) ≡ false
unfolding is_captured close_payment PaymentStatus-discrete
closed_not_captured now q = refl

release_open-captured :
    (s : PaymentStore) (input : ReleaseInput) (p : Payment)
    → is_open_of input.session_id p ≡ true
    → filter is_captured (release_open s input p).1.payments ≡ filter is_captured s.payments
unfolding release_open
release_open-captured s input p h =
    let e =
      filter-update_many is_captured (is_same_row p) (close_payment input.now) s.payments
        (λ q. open_not_captured p q input.session_id h) (λ q k. closed_not_captured input.now q) in
    elim (Bool-cases (matching (is_same_row p) s.payments == 1)) [ inl t ↦ rw t e | inr t ↦ rw t e ]

-- A release changes no captured payment and makes none: the captured rows are the same rows, in
-- the same order, afterwards.
pub release_session_payments-captured :
    (s : PaymentStore) (input : ReleaseInput)
    → filter is_captured (release_session_payments s input).1.payments
      ≡ filter is_captured s.payments
unfolding release_session_payments release_found
release_session_payments-captured s input =
    elim (Option-cases (find (is_captured_of input.session_id) s.payments)) [
      | inr (p, e) ↦ rw e refl
      | inl e ↦ elim (Option-cases (find (is_open_of input.session_id) s.payments)) [
        | inl f ↦ rw (e, f) refl
        | inr (p, f) ↦
            rw (e, f)
              (release_open-captured s input p
                (find-holds (is_open_of input.session_id) s.payments p f))
      ]
    ]

release_open-Outcome :
    (s : PaymentStore) (input : ReleaseInput) (p : Payment)
    → Outcome input s (release_open s input p).1 (release_open s input p).0
unfolding release_open cancel_attempt payment_failed_event
release_open-Outcome s input p = elim (Bool-cases (matching (is_same_row p) s.payments == 1)) [
  | inl e ↦ rw e (
      closed (cancel_attempt input p s.attempts) (payment_failed_event input p) refl refl refl refl
        refl refl refl refl)
  | inr e ↦ rw e (nothing_closed refl refl refl refl refl)
]

-- Every release has one of three outcomes: a capture that was already applied leaves the store as
-- it is; nothing closed writes neither attempt nor event and keeps the sequence; and a closed
-- payment has one new attempt and one new event of the session, whose sequence, one above the
-- starting one, is the one to persist.
release_session_payments-Outcome :
    (s : PaymentStore) (input : ReleaseInput)
    → Outcome input s (release_session_payments s input).1 (release_session_payments s input).0
unfolding release_session_payments release_found
release_session_payments-Outcome s input =
    elim (Option-cases (find (is_captured_of input.session_id) s.payments)) [
      | inr (p, e) ↦ rw e (already_captured p e refl refl refl refl)
      | inl e ↦ elim (Option-cases (find (is_open_of input.session_id) s.payments)) [
        | inl f ↦ rw (e, f) (nothing_closed refl refl refl refl refl)
        | inr (p, f) ↦ rw (e, f) (release_open-Outcome s input p)
      ]
    ]
