-- ===== src/Database/Payments.antt =====
-- packages/database/src/session-payments.ts: a session's payment in flight, closed in the
-- transaction that ends the session. `findFirst` without an order answers the first row of the
-- table; the n-th call of `newId` answers `new_id n`.
pub mod Release
pub mod Attempts
use kiosk_project.Base.{
  ℕ, zero, suc, ◌+◌, max, String, str_eq, Bool, true, false, ◌&&◌, ◌||◌, Option, none, some, List,
  [], ◌∷◌, find, if◌then◌else◌, ◌==◌, same, default_to, includes,
}
use kiosk_project.Base.Int.{ℤ}
use kiosk_project.Database.Tables.{update_many, matching}

pub data PaymentStatus : Type 0 where
  pending authorized captured declined canceled timed_out : PaymentStatus

unfoldable pub PaymentStatus-discrete : Discrete PaymentStatus
PaymentStatus-discrete = hlevel

abbrev pub open_payment_statuses : List PaymentStatus
open_payment_statuses = pending ∷ authorized ∷ []

-- The codes of the contract; a text that the column holds besides reads as none of them.
pub data PaymentFailureCode : Type 0 where
  amount_mismatch card_declined customer_canceled provider_timeout provider_unavailable
        session_terminal :
      PaymentFailureCode

pub record Payment : Type 0 where
  pub id : String
  pub session_id : String
  pub quote_id : String
  pub provider : String
  pub provider_intent_id : String
  pub status : PaymentStatus
  pub applied_to_session : Bool
  pub amount_minor : ℤ
  pub currency : List ℕ
  pub currency_exponent : ℤ
  pub failure_code : Option PaymentFailureCode
  pub expires_at : ℤ
  pub captured_at : Option ℤ
  pub failed_at : Option ℤ
  pub updated_at : ℤ

pub record PaymentAttempt : Type 0 where
  pub id : String
  pub payment_id : String
  pub attempt : ℕ
  pub action : String
  pub status : PaymentStatus
  pub provider_reference : Option String
  pub failure_code : Option PaymentFailureCode
  pub created_at : ℤ

-- A `payment.failed` event on the session's stream, with its payload's fields.
pub record PaymentFailedEvent : Type 0 where
  pub id : String
  pub aggregate_id : String
  pub sequence : ℕ
  pub payment_id : String
  pub state : String
  pub version : ℕ
  pub status : PaymentStatus
  pub failure_code : PaymentFailureCode

pub record PaymentStore : Type 0 where
  pub payments : List Payment
  pub attempts : List PaymentAttempt
  pub events : List PaymentFailedEvent

pub record ReleaseInput : Type 0 where
  pub session_id : String
  pub now : ℤ
  pub starting_sequence : ℕ
  pub new_id : ℕ → String
  pub next_state : String
  pub next_version : ℕ

pub record SessionPaymentRelease : Type 0 where
  pub next_sequence : ℕ
  pub captured_payment_id : Option String
  pub released_payment_id : Option String

-- The attempts of a payment, newest number first: the number of the first.
unfoldable pub latest_attempt : List PaymentAttempt → String → Option ℕ
latest_attempt [] payment_id = none
latest_attempt (a ∷ rest) payment_id =
    let latest = latest_attempt rest payment_id in
    if str_eq a.payment_id payment_id then some (max a.attempt (default_to latest 0)) else latest

unfoldable pub next_attempt_number : List PaymentAttempt → String → ℕ
unfolding latest_attempt
next_attempt_number attempts payment_id = default_to (latest_attempt attempts payment_id) 0 + 1

unfoldable pub is_captured : Payment → Bool
unfolding PaymentStatus-discrete
is_captured p = same PaymentStatus-discrete p.status captured

-- `includes` of the open statuses.
unfoldable pub is_open_status : PaymentStatus → Bool
unfolding PaymentStatus-discrete
is_open_status status = includes PaymentStatus-discrete open_payment_statuses status

unfoldable pub is_open : Payment → Bool
unfolding is_open_status
is_open p = is_open_status p.status

-- The `where` of the two reads and of the update.
unfoldable pub is_captured_of : String → Payment → Bool
unfolding is_captured
is_captured_of session_id p =
    str_eq p.session_id session_id && is_captured p && p.applied_to_session

unfoldable pub is_open_of : String → Payment → Bool
unfolding is_open
is_open_of session_id p = str_eq p.session_id session_id && is_open p

unfoldable pub is_same_row : Payment → Payment → Bool
unfolding PaymentStatus-discrete
is_same_row opened p = str_eq p.id opened.id && same PaymentStatus-discrete p.status opened.status

unfoldable pub close_payment : ℤ → Payment → Payment
close_payment now p = record p {
  status = canceled;
  failure_code = some session_terminal;
  failed_at = some now;
  updated_at = now;
}

-- The attempt and the event of a release.
unfoldable pub cancel_attempt : ReleaseInput → Payment → List PaymentAttempt → PaymentAttempt
unfolding next_attempt_number
cancel_attempt input opened attempts = record {
  id = input.new_id 0;
  payment_id = opened.id;
  attempt = next_attempt_number attempts opened.id;
  action = "CANCEL";
  status = canceled;
  provider_reference = none;
  failure_code = some session_terminal;
  created_at = input.now;
}

unfoldable pub payment_failed_event : ReleaseInput → Payment → PaymentFailedEvent
payment_failed_event input opened = record {
  id = input.new_id 1;
  aggregate_id = input.session_id;
  sequence = input.starting_sequence + 1;
  payment_id = opened.id;
  state = input.next_state;
  version = input.next_version;
  status = canceled;
  failure_code = session_terminal;
}

abbrev pub nothing_released : ReleaseInput → Option String → SessionPaymentRelease
nothing_released input captured_payment_id = record {
  next_sequence = input.starting_sequence;
  captured_payment_id = captured_payment_id;
  released_payment_id = none;
}

-- The update of the open payment and what follows it.
unfoldable pub release_open :
    PaymentStore → ReleaseInput → Payment → SessionPaymentRelease × PaymentStore
unfolding close_payment is_same_row cancel_attempt payment_failed_event update_many matching
release_open s input opened =
    let payments = update_many (is_same_row opened) (close_payment input.now) s.payments in
    if matching (is_same_row opened) s.payments == 1
    then (
      record {
        next_sequence = input.starting_sequence + 1;
        captured_payment_id = none;
        released_payment_id = some opened.id;
      },
      record {
        payments = payments;
        attempts = cancel_attempt input opened s.attempts ∷ s.attempts;
        events = payment_failed_event input opened ∷ s.events;
      },
    )
    else (
      nothing_released input none,
      record { payments = payments; attempts = s.attempts; events = s.events },
    )

unfoldable pub release_found :
    PaymentStore
    → ReleaseInput
    → Option Payment
    → Option Payment
    → SessionPaymentRelease × PaymentStore
unfolding release_open
release_found s input (some p) opened = (nothing_released input (some p.id), s)
release_found s input none none = (nothing_released input none, s)
release_found s input none (some opened) = release_open s input opened

unfoldable pub release_session_payments :
    PaymentStore → ReleaseInput → SessionPaymentRelease × PaymentStore
unfolding release_found is_captured_of is_open_of
release_session_payments s input =
    release_found s input (find (is_captured_of input.session_id) s.payments)
      (find (is_open_of input.session_id) s.payments)
