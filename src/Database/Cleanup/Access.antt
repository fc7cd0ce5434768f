-- ===== src/Database/Cleanup/Access.antt =====
-- A session's own cleanup schedule, and its credentials.
use kiosk_project.Base.{
  ◌≡◌, refl, String, str_eq, eq_iff, false, ◌&&◌, List, [], ◌∷◌, arith, All, includes,
}
use kiosk_project.Base.Int.{ℤ}
use kiosk_project.Database.Tables.{update_many, All-update_many}
use kiosk_project.Database.Cleanup.{
  CleanupSession, mark_session, SessionCleanupStatus-discrete, Credential, CredentialStatus,
  CredentialStatus-discrete, CredentialStore, revoke_those, revoke_session_access, active, claimed,
  revoked,
}

-- A session whose cleanup is scheduled twice keeps the first schedule.
mark_session-twice :
    (session_id : String) (now due later further : ℤ) (sessions : List CleanupSession)
    → mark_session session_id later further (mark_session session_id now due sessions)
      ≡ mark_session session_id now due sessions
unfolding mark_session update_many SessionCleanupStatus-discrete
mark_session-twice session_id now due later further [] = refl
mark_session-twice session_id now due later further (s ∷ sessions) =
    ground (arith, mark_session-twice session_id now due later further sessions)

module _ (session_id : String) (now : ℤ) where
  revoke_those-All :
      (l : List CredentialStatus) (cs : List Credential)
      → includes CredentialStatus-discrete l revoked ≡ false
      → All
          (λ c. c.session_id ≡ session_id → includes CredentialStatus-discrete l c.status ≡ false)
          (revoke_those l session_id now cs)
  unfolding revoke_those
  revoke_those-All l cs h =
      All-update_many
        (λ c. c.session_id ≡ session_id → includes CredentialStatus-discrete l c.status ≡ false)
        (λ c. str_eq c.session_id session_id && includes CredentialStatus-discrete l c.status) _ cs
        (λ c e k. h) (λ c e k. ground (arith, eq_iff c.session_id session_id, e))

-- After a revocation no grant of the session is active or claimed, and no mobile client of it is
-- active.
pub revoke_session_access-All :
    (store : CredentialStore) (session_id : String) (now : ℤ)
    → let after = revoke_session_access store session_id now in
      All
        (λ c.
          c.session_id ≡ session_id
          → includes CredentialStatus-discrete (active ∷ claimed ∷ []) c.status ≡ false)
        after.grants
      × All
          (λ c.
            c.session_id ≡ session_id
            → includes CredentialStatus-discrete (active ∷ []) c.status ≡ false)
          after.clients
unfolding revoke_session_access CredentialStatus-discrete
revoke_session_access-All store session_id now = (
  revoke_those-All session_id now (active ∷ claimed ∷ []) store.grants refl,
  revoke_those-All session_id now (active ∷ []) store.clients refl,
)
