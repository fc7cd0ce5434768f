-- ===== src/Domain/Session/Target.antt =====
-- What an accepted transition of packages/domain/src/session.ts answers.
use kiosk_project.Domain.Session.{
  can_transition_session, SessionState, VersionedSessionState, transition_session,
}
use kiosk_project.Base.{◌==◌, require, bind_cases, ◌≡◌, ℕ, ok}

pub transition_session-target :
    (current : VersionedSessionState) (target : SessionState) (version : ℕ)
    {next : VersionedSessionState}
    → transition_session current target version ≡ ok next
    → next.state ≡ target
unfolding transition_session
transition_session-target current target version h =
    bind_cases (require (current.version == version) _) _ h
      λ u e k. bind_cases (require (can_transition_session current.state target) _) _ k λ v f j. cc
