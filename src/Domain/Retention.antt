-- ===== src/Domain/Retention.antt =====
-- packages/domain/src/retention.ts, lines 19 to 190: cleanup checkpoints, grace periods and retry
-- delays. Numbers are integers; an instant is its milliseconds, `none` for an invalid Date. A
-- jitter is a fraction over a power of two, where the source's products are exact.
pub mod Checkpoints
pub mod Backoff
pub mod Examples
use kiosk_project.Base.{
  get_elem?, ℕ, ◌+◌, ◌-◌, ◌*◌, ◌/◌, ◌^◌, min, Bool, true, false, ◌&&◌, ◌||◌, not, Option, none,
  some, List, [], ◌∷◌, if◌then◌else◌, includes, ltb, leb, Result, ok, err, ◌>>=◌, ◌>>◌, refuse_if,
  or_throw,
}
use kiosk_project.Base.Int.{ℤ, pos, negsuc, ◌+ℤ◌, leb_ℤ, ltb_ℤ, pos_part}
use kiosk_project.Base.Numbers.{is_safe_integer}
use kiosk_project.Domain.Session.{SessionState, SessionState-discrete}

-- The source's type of terminal states is a subset of the session's states.
pub data TerminalSessionState : Type 0 where
  completed canceled expired failed recovery_required : TerminalSessionState

abbrev pub terminal_session_states : List SessionState
terminal_session_states =
    SessionState.completed ∷ SessionState.canceled ∷ SessionState.expired ∷ SessionState.failed
    ∷ SessionState.recovery_required ∷ []

unfoldable pub is_terminal_session_state : SessionState → Bool
unfolding SessionState-discrete
is_terminal_session_state = includes SessionState-discrete terminal_session_states

pub data CleanupCheckpoint : Type 0 where
  scheduled access_revoked artifacts_deleted storage_reconciled metadata_scrubbed completed :
      CleanupCheckpoint

pub checkpoint_rank : CleanupCheckpoint → ℕ
checkpoint_rank scheduled = 0
checkpoint_rank access_revoked = 1
checkpoint_rank artifacts_deleted = 2
checkpoint_rank storage_reconciled = 3
checkpoint_rank metadata_scrubbed = 4
checkpoint_rank CleanupCheckpoint.completed = 5

pub is_checkpoint_at_least : CleanupCheckpoint → CleanupCheckpoint → Bool
unfolding checkpoint_rank
is_checkpoint_at_least checkpoint required =
    leb (checkpoint_rank required) (checkpoint_rank checkpoint)

abbrev pub cleanup_checkpoints : List CleanupCheckpoint
cleanup_checkpoints =
    scheduled ∷ access_revoked ∷ artifacts_deleted ∷ storage_reconciled ∷ metadata_scrubbed
    ∷ CleanupCheckpoint.completed ∷ []

pub next_checkpoint : CleanupCheckpoint → Option CleanupCheckpoint
unfolding checkpoint_rank
next_checkpoint checkpoint = get_elem? cleanup_checkpoints (checkpoint_rank checkpoint + 1)

pub advance_checkpoint : CleanupCheckpoint → CleanupCheckpoint → CleanupCheckpoint
unfolding checkpoint_rank
advance_checkpoint current candidate =
    if ltb (checkpoint_rank current) (checkpoint_rank candidate) then candidate else current

pub record RetentionPolicy : Type 0 where
  pub settled_grace_milliseconds : ℤ
  pub recovery_grace_milliseconds : ℤ

abbrev pub default_retention_policy : RetentionPolicy
default_retention_policy = record {
  settled_grace_milliseconds = pos 300000;
  recovery_grace_milliseconds = pos 900000;
}

pub data RetentionError : Type 0 where
  policy_invalid clock_invalid attempts_invalid jitter_invalid max_attempts_invalid : RetentionError

pub assert_policy : RetentionPolicy → Result RetentionError (Unit {0})
assert_policy p =
    refuse_if
      (not (is_safe_integer p.settled_grace_milliseconds)
        || ltb_ℤ p.settled_grace_milliseconds (pos 0)
        || not (is_safe_integer p.recovery_grace_milliseconds)
        || ltb_ℤ p.recovery_grace_milliseconds (pos 0))
      policy_invalid

-- The `switch` of `retentionGraceMilliseconds`.
pub grace_of : TerminalSessionState → RetentionPolicy → ℤ
grace_of canceled policy = pos 0
grace_of expired policy = pos 0
grace_of TerminalSessionState.completed policy = policy.settled_grace_milliseconds
grace_of failed policy = policy.settled_grace_milliseconds
grace_of recovery_required policy = policy.recovery_grace_milliseconds

pub retention_grace_milliseconds : TerminalSessionState → RetentionPolicy → Result RetentionError ℤ
unfolding assert_policy grace_of
retention_grace_milliseconds state policy = do assert_policy policy; ok (grace_of state policy)

-- `new Date(milliseconds)`: the valid range is 100,000,000 days on either side of the epoch.
abbrev pub date_of : ℤ → Option ℤ
date_of n =
    if leb_ℤ (negsuc 8639999999999999) n && leb_ℤ n (pos 8640000000000000) then some n else none

pub cleanup_due_at :
    TerminalSessionState → Option ℤ → RetentionPolicy → Result RetentionError (Option ℤ)
unfolding retention_grace_milliseconds ◌+ℤ◌
cleanup_due_at state now policy = do
  milliseconds ← or_throw now clock_invalid
  grace ← retention_grace_milliseconds state policy
  ok (date_of (milliseconds +ℤ grace))

abbrev pub cleanup_retry_base_milliseconds : ℕ
cleanup_retry_base_milliseconds = 5000

abbrev pub cleanup_retry_max_milliseconds : ℕ
cleanup_retry_max_milliseconds = 900000

-- The number `numerator / 2 ^ scale`.
pub record Jitter : Type 0 where
  pub numerator : ℤ
  pub scale : ℕ

-- `Math.min(base * 2 ** Math.min(attempts - 1, 30), maximum)`.
pub capped_backoff : ℕ → ℕ
capped_backoff attempts =
    min (cleanup_retry_base_milliseconds * 2 ^ min (attempts - 1) 30) cleanup_retry_max_milliseconds

-- `Math.round(capped * (0.5 + jitter * 0.5))` at the jitter `n / d`.
pub spread : ℕ → ℕ → ℕ → ℕ
spread capped n d = (capped * (d + n) + d) / (2 * d)

pub cleanup_retry_delay_milliseconds : ℤ → Jitter → Result RetentionError ℕ
unfolding capped_backoff spread
cleanup_retry_delay_milliseconds attempts jitter = do
  refuse_if (not (is_safe_integer attempts) || ltb_ℤ attempts (pos 1)) attempts_invalid
  refuse_if (ltb_ℤ jitter.numerator (pos 0) || ltb_ℤ (pos (2 ^ jitter.scale)) jitter.numerator)
      jitter_invalid
  ok (spread (capped_backoff (pos_part attempts)) (pos_part jitter.numerator) (2 ^ jitter.scale))

pub next_cleanup_attempt_at : Option ℤ → ℤ → Jitter → Result RetentionError (Option ℤ)
unfolding cleanup_retry_delay_milliseconds ◌+ℤ◌
next_cleanup_attempt_at now attempts jitter = do
  milliseconds ← or_throw now clock_invalid
  delay ← cleanup_retry_delay_milliseconds attempts jitter
  ok (date_of (milliseconds +ℤ pos delay))

pub is_cleanup_dead_lettered : ℤ → ℤ → Result RetentionError Bool
is_cleanup_dead_lettered attempts maximum_attempts = do
  refuse_if (not (is_safe_integer maximum_attempts) || ltb_ℤ maximum_attempts (pos 1))
      max_attempts_invalid
  ok (leb_ℤ maximum_attempts attempts)
