-- ===== src/Domain/Session.antt =====
-- packages/domain/src/session.ts: the states of a session and its versioned transitions.
pub mod History
pub mod Examples
pub mod Target
use kiosk_project.Base.{
  ℕ, ◌+◌, Bool, List, [], ◌∷◌, min, includes, leb, ◌==◌, Result, ok, ◌>>◌, require,
}

pub data SessionState : Type 0 where
  created waiting_for_upload files_uploaded configuring awaiting_payment paid printing completed
        failed recovery_required expired canceled :
      SessionState

unfoldable pub SessionState-discrete : Discrete SessionState
SessionState-discrete = hlevel

abbrev pub uploadable_session_states : List SessionState
uploadable_session_states = waiting_for_upload ∷ files_uploaded ∷ configuring ∷ []

pub is_uploadable_session_state : SessionState → Bool
unfolding SessionState-discrete
is_uploadable_session_state = includes SessionState-discrete uploadable_session_states

pub record VersionedSessionState : Type 0 where
  pub state : SessionState
  pub version : ℕ

-- The error codes with the details that they carry.
pub data SessionDomainError : Type 0 where
  stale_session_version : ℕ → ℕ → SessionDomainError
  invalid_session_transition : SessionState → SessionState → SessionDomainError

unfoldable pub allowed_transitions : SessionState → List SessionState
allowed_transitions created = waiting_for_upload ∷ canceled ∷ expired ∷ []
allowed_transitions waiting_for_upload = files_uploaded ∷ canceled ∷ expired ∷ []
allowed_transitions files_uploaded =
    waiting_for_upload ∷ configuring ∷ awaiting_payment ∷ canceled ∷ expired ∷ []
allowed_transitions configuring =
    files_uploaded ∷ waiting_for_upload ∷ awaiting_payment ∷ canceled ∷ expired ∷ []
allowed_transitions awaiting_payment = configuring ∷ paid ∷ canceled ∷ expired ∷ []
allowed_transitions paid = printing ∷ []
allowed_transitions printing = completed ∷ failed ∷ recovery_required ∷ []
allowed_transitions completed = []
allowed_transitions failed = []
allowed_transitions recovery_required = []
allowed_transitions expired = []
allowed_transitions canceled = []

unfoldable pub can_transition_session : SessionState → SessionState → Bool
unfolding allowed_transitions SessionState-discrete
can_transition_session from to = includes SessionState-discrete (allowed_transitions from) to

unfoldable pub transition_session :
    VersionedSessionState → SessionState → ℕ → Result SessionDomainError VersionedSessionState
transition_session current target expected_version = do
  require (current.version == expected_version)
      (stale_session_version expected_version current.version)
  require (can_transition_session current.state target)
      (invalid_session_transition current.state target)
  ok (record { state = target; version = current.version + 1 })

-- Instants are milliseconds since the epoch.
pub is_session_expired : ℕ → ℕ → ℕ → Bool
is_session_expired now idle_expires_at hard_expires_at =
    let expiration = min idle_expires_at hard_expires_at in leb expiration now
