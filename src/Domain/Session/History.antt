-- ===== src/Domain/Session/History.antt =====
-- What every sequence of accepted transitions of packages/domain/src/session.ts keeps.
use kiosk_project.Base.{ℕ, suc, ◌+◌, ◌≡◌, ◌⊎◌, Bool, true, false, ok, err, arith}
use kiosk_project.Domain.Session.{
  SessionState, awaiting_payment, paid, printing, completed, failed, recovery_required,
  VersionedSessionState, stale_session_version, can_transition_session, transition_session,
  is_uploadable_session_state,
}

-- The rows that one session row takes, one accepted request at a time.
pub data History (s : VersionedSessionState) : VersionedSessionState → Type 0 where
  here : History s s
  next :
      {t u : VersionedSessionState} (target : SessionState) (expected : ℕ)
      → History s t
      → transition_session t target expected ≡ ok u
      → History s u

abbrev pub steps : {s t : VersionedSessionState} → History s t → ℕ
steps here = 0
steps (next target expected h e) = suc (steps h)

-- Some accepted request of the history moved the session to `x`.
abbrev pub Visits : (x : SessionState) {s t : VersionedSessionState} → History s t → Type 0
Visits x here = ⊥
Visits x (next target expected h e) = (target ≡ x) ⊎ Visits x h

-- The money has been captured.
abbrev pub is_past_payment : SessionState → Bool
is_past_payment paid = true
is_past_payment printing = true
is_past_payment completed = true
is_past_payment failed = true
is_past_payment recovery_required = true
is_past_payment _ = false

can_transition_past_payment :
    (a b : SessionState)
    → can_transition_session a b ≡ true
    → is_past_payment a ≡ true
    → is_past_payment b ≡ true
unfolding can_transition_session
can_transition_past_payment paid b h p = ground arith
can_transition_past_payment _ b h p = ground arith

-- The only way into the paid side is the transition to `paid`.
can_transition_into_paid :
    (a b : SessionState)
    → can_transition_session a b ≡ true
    → is_past_payment b ≡ true
    → (b ≡ paid) ⊎ (is_past_payment a ≡ true)
unfolding can_transition_session
can_transition_into_paid awaiting_payment b h p = ground arith
can_transition_into_paid _ b h p = ground arith

-- What an accepted request did.
pub transition_session_ok :
    (s : VersionedSessionState) (target : SessionState) (expected : ℕ) (t : VersionedSessionState)
    → transition_session s target expected ≡ ok t
    → (expected ≡ s.version)
      × (can_transition_session s.state target ≡ true)
      × (t.state ≡ target)
      × (t.version ≡ s.version + 1)
unfolding transition_session
transition_session_ok s target expected t e = ground arith

past_payment_not_uploadable :
    (x : SessionState) → is_past_payment x ≡ true → is_uploadable_session_state x ≡ false
unfolding is_uploadable_session_state
past_payment_not_uploadable x p = ground arith

past_payment_kept :
    {s t : VersionedSessionState}
    → History s t
    → is_past_payment s.state ≡ true
    → is_past_payment t.state ≡ true
past_payment_kept here p = p
past_payment_kept (next {t} {u} target expected h e) p = ground (
  arith,
  transition_session_ok t target expected u e,
  can_transition_past_payment t.state target,
  past_payment_kept h p,
)

-- Once a session is paid, no sequence of accepted transitions cancels it, expires it, or takes it
-- back to a state before payment: every later state is on the paid side (paid, printing,
-- completed, failed or recovery) and takes no uploads.
pub paid_stays_paid :
    {s t : VersionedSessionState}
    → History s t
    → is_past_payment s.state ≡ true
    → (is_past_payment t.state ≡ true) × (is_uploadable_session_state t.state ≡ false)
paid_stays_paid {t} h p =
    (past_payment_kept h p, past_payment_not_uploadable t.state (past_payment_kept h p))

-- A session that was not paid and whose later state is on the paid side (so also one that prints
-- or has completed) was moved to `paid` by an accepted request in between.
pub no_print_unpaid :
    {s t : VersionedSessionState} (h : History s t)
    → is_past_payment s.state ≡ false
    → is_past_payment t.state ≡ true
    → Visits paid h
no_print_unpaid here n p = cc
no_print_unpaid (next {t} {u} target expected h e) n p = ground (
  arith,
  transition_session_ok t target expected u e,
  can_transition_into_paid t.state target,
  no_print_unpaid h n,
)

-- The version of a row counts the accepted transitions.
pub version_counts :
    {s t : VersionedSessionState} (h : History s t) → t.version ≡ s.version + steps h
version_counts here = omega arith
version_counts (next {t} {u} target expected h e) =
    omega (arith, transition_session_ok t target expected u e, version_counts h)

-- Optimistic concurrency: of two requests that read the same row, the second one to arrive is
-- refused as stale, whatever it asks for, and also after any further accepted transitions.
second_writer_is_stale :
    (s : VersionedSessionState) {t u : VersionedSessionState} (target other : SessionState)
    (expected : ℕ)
    → transition_session s target expected ≡ ok t
    → History t u
    → transition_session u other expected ≡ err (stale_session_version expected u.version)
unfolding transition_session
second_writer_is_stale s {t} {u} target other expected e h =
    ground (arith, transition_session_ok s target expected t e, version_counts h)
