-- ===== src/Domain/Retention/Examples.antt =====
-- Concrete runs of packages/domain/src/retention.ts, and the theorems at concrete inputs.
use kiosk_project.Base.{◌≡◌, refl, List, [], ◌∷◌, ok, some}
use kiosk_project.Base.Int.{pos}
use kiosk_project.Domain.Retention.{
  CleanupCheckpoint, artifacts_deleted, access_revoked, TerminalSessionState,
  default_retention_policy, cleanup_retry_delay_milliseconds, Jitter, cleanup_due_at,
}

abbrev half : Jitter
half = record { numerator = pos 1; scale = 1 }

third_attempt : cleanup_retry_delay_milliseconds (pos 3) half ≡ ok 15000
unfolding cleanup_retry_delay_milliseconds
third_attempt = refl

tenth_attempt : cleanup_retry_delay_milliseconds (pos 10) half ≡ ok 675000
unfolding cleanup_retry_delay_milliseconds
tenth_attempt = refl

completed_due :
    cleanup_due_at TerminalSessionState.completed (some (pos 1000)) default_retention_policy
    ≡ ok (some (pos 301000))
unfolding cleanup_due_at
completed_due = refl

abbrev stale_writes : List CleanupCheckpoint
stale_writes = artifacts_deleted ∷ access_revoked ∷ []
