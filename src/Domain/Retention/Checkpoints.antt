-- ===== src/Domain/Retention/Checkpoints.antt =====
-- Checkpoints move forwards only, in whatever order workers write them; which sessions are
-- cleaned up, and after what grace.
use kiosk_project.Base.{ℕ, ◌+◌, ◌≡◌, ◌⊎◌, ◌↔◌, List, [], ◌∷◌, true, arith, some, none, ok, max}
use kiosk_project.Base.Int.{ℤ, pos, ◌≤ℤ◌}
use kiosk_project.Domain.Session.{SessionState, allowed_transitions}
use kiosk_project.Domain.Retention.{
  is_terminal_session_state, CleanupCheckpoint, checkpoint_rank, next_checkpoint,
  advance_checkpoint, scheduled, TerminalSessionState, RetentionPolicy,
  retention_grace_milliseconds,
}

-- Retention treats exactly those session states as terminal that the session's own transition
-- table lets nothing leave.
terminal_iff_no_transition :
    (s : SessionState) → (is_terminal_session_state s ≡ true) ↔ (allowed_transitions s ≡ [])
unfolding is_terminal_session_state allowed_transitions
terminal_iff_no_transition SessionState.created = ground arith
terminal_iff_no_transition _ = ground arith

-- What a run's checkpoint is after a sequence of writes, each by `advanceCheckpoint`.
abbrev pub written : CleanupCheckpoint → List CleanupCheckpoint → CleanupCheckpoint
written current [] = current
written current (c ∷ cs) = written (advance_checkpoint current c) cs

rank-injective : (a b : CleanupCheckpoint) → checkpoint_rank a ≡ checkpoint_rank b → a ≡ b
unfolding checkpoint_rank
rank-injective a b e = ground arith

advance-rank :
    (a b : CleanupCheckpoint)
    → checkpoint_rank (advance_checkpoint a b) ≡ max (checkpoint_rank a) (checkpoint_rank b)
unfolding advance_checkpoint
advance-rank a b = ground arith

abbrev pub furthest : List CleanupCheckpoint → ℕ
furthest [] = 0
furthest (c ∷ cs) = max (checkpoint_rank c) (furthest cs)

-- After any sequence of writes, stale ones included, the run's checkpoint is the furthest one
-- that anybody wrote: its rank is the greatest of the ranks of the start and of the writes.
written-rank :
    (c : CleanupCheckpoint) (cs : List CleanupCheckpoint)
    → checkpoint_rank (written c cs) ≡ max (checkpoint_rank c) (furthest cs)
written-rank c [] = omega arith
written-rank c (d ∷ cs) = omega (arith, written-rank (advance_checkpoint c d) cs, advance-rank c d)

-- Advancing by `nextCheckpoint` climbs the ranks one at a time, and stops at the last: from any
-- checkpoint the next one has the next rank, and there is none exactly at rank 5.
next_checkpoint_climbs :
    (c : CleanupCheckpoint)
    → ((next_checkpoint c ≡ none) × (checkpoint_rank c ≡ 5))
      ⊎ ((d : CleanupCheckpoint) × (next_checkpoint c ≡ some d)
          × (checkpoint_rank d ≡ checkpoint_rank c + 1)
          × (advance_checkpoint c d ≡ d)
          × (advance_checkpoint d c ≡ d))
unfolding next_checkpoint advance_checkpoint
next_checkpoint_climbs scheduled = grind arith
next_checkpoint_climbs _ = grind arith

-- A grace that the code returns is never negative, so no cleanup is due before its session ended;
-- and it is zero for a session that was canceled or expired.
grace_bounds :
    (s : TerminalSessionState) (p : RetentionPolicy) (g : ℤ)
    → retention_grace_milliseconds s p ≡ ok g
    → (pos 0 ≤ℤ g)
      × ((s ≡ TerminalSessionState.canceled) ⊎ (s ≡ TerminalSessionState.expired) → g ≡ pos 0)
unfolding retention_grace_milliseconds
grace_bounds s p g e = ground arith
