-- ===== src/Database/Payments/Attempts.antt =====
-- The numbers of a payment's attempts.
use kiosk_project.Base.{
  ℕ, ◌+◌, ◌<◌, ◌≤◌, ◌≡◌, String, eq_iff, List, [], ◌∷◌, All, arith, default_to,
}
use kiosk_project.Database.Payments.{PaymentAttempt, next_attempt_number, latest_attempt}

below :
    (attempts : List PaymentAttempt) (payment_id : String) (bound : ℕ)
    → default_to (latest_attempt attempts payment_id) 0 ≤ bound
    → All (λ a. a.payment_id ≡ payment_id → a.attempt < bound + 1) attempts
unfolding latest_attempt
below [] payment_id bound h = tt
below (a ∷ rest) payment_id bound h = (
  λ e. ground (arith, eq_iff a.payment_id payment_id),
  below rest payment_id bound (ground arith),
)

-- The next attempt's number is above the number of every attempt of the same payment.
next_attempt_number_fresh :
    (attempts : List PaymentAttempt) (payment_id : String)
    → All
        (λ a. a.payment_id ≡ payment_id → a.attempt < next_attempt_number attempts payment_id)
        attempts
unfolding next_attempt_number
next_attempt_number_fresh attempts payment_id =
    below attempts payment_id (default_to (latest_attempt attempts payment_id) 0) (omega arith)
