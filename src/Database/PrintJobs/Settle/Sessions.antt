-- ===== src/Database/PrintJobs/Settle/Sessions.antt =====
-- What a settlement does to the session, its credentials and its stream of events.
use kiosk_project.Database.PrintJobs.Outcome.{
  ApplyPrintJobSettlementInput, PrintJobSettlementOutcome, is_open_print_job_status,
  session_state_of,
}
use kiosk_project.Base.{
  ℕ, ◌+◌, ◌==◌, ==_iff, ◌≡◌, refl, ap, ◌∙◌, String, str_eq, str_eq_refl, Option, none, some, ◌∷◌,
  Option-cases, inl, inr, ok, Ensures, Ensures-ok, Ensures-if, Ensures-then, same, same-true,
}
use kiosk_project.Domain.Session.{
  SessionState, SessionState-discrete, VersionedSessionState, transition_session,
  can_transition_session,
}
use kiosk_project.Domain.PrintJob.{SettledSessionState}
use kiosk_project.Database.Tables.{matching, find-update_many, updated_row}
use kiosk_project.Database.Cleanup.{revoke_session_access}
use kiosk_project.Database.PrintJobs.{PrintJob, PrintOutboxEvent, PrintStore, PrintSession}
use kiosk_project.Database.PrintJobs.Settle.{
  settle_job, end_session, end_printing, close_session, record_settlement, finish_settlement,
  settle_open, settle_found, find_print_job, find_print_session, apply_print_job_settlement,
  is_same_job, is_version_of_session, move_session, add_session_event, session_event, ended_session,
}

-- The session in the words of the state machine.
abbrev pub versioned : PrintSession → VersionedSessionState
versioned session = record { state = session.state; version = session.state_version }

pub data SessionEnd (s : PrintStore) (input : ApplyPrintJobSettlementInput)
    (r : PrintJobSettlementOutcome × PrintStore) : Type 0 where
  session_stays :
      r.0.session_version ≡ none
      → r.1.access ≡ s.access
      → r.1.cleanup ≡ s.cleanup
      → r.1.outbox ≡ s.outbox
      → SessionEnd s input r
  session_ends :
      (job : PrintJob) (before after : PrintSession) (event : PrintOutboxEvent)
      → find_print_job input.print_job_id s ≡ some job
      → find_print_session job.session_id s ≡ some before
      → find_print_session job.session_id r.1 ≡ some after
      → transition_session
          (versioned before)
          (session_state_of input.session_state)
          before.state_version
        ≡ ok (versioned after)
      → r.0.session_version ≡ some after.state_version
      → r.1.access ≡ revoke_session_access s.access before.id input.now
      → r.1.outbox ≡ event ∷ s.outbox
      → (event.aggregate_id ≡ before.id)
        × (event.sequence ≡ before.event_sequence + 1)
        × (after.event_sequence ≡ event.sequence)
        × (event.state ≡ after.state)
        × (event.version ≡ after.state_version)
      → SessionEnd s input r

printing_ends :
    (v : ℕ) (state : SettledSessionState)
    → transition_session
        (record { state = SessionState.printing; version = v })
        (session_state_of state)
        v
      ≡ ok (record { state = session_state_of state; version = v + 1 })
unfolding transition_session can_transition_session
printing_ends v SettledSessionState.completed = rw ((==_iff v v).1 refl) refl
printing_ends v SettledSessionState.failed = rw ((==_iff v v).1 refl) refl
printing_ends v SettledSessionState.recovery_required = rw ((==_iff v v).1 refl) refl

session_moves :
    (input : ApplyPrintJobSettlementInput) (before : PrintSession)
    → before.state ≡ SessionState.printing
    → transition_session
        (versioned before)
        (session_state_of input.session_state)
        before.state_version
      ≡ ok (versioned (ended_session input before before))
unfolding ended_session
session_moves input before h = rw h (printing_ends before.state_version input.session_state)

same_session :
    (id : String) (s u : PrintStore) (before : PrintSession)
    → u.sessions ≡ s.sessions
    → find_print_session id u ≡ some before
    → find_print_session id s ≡ some before
unfolding find_print_session
same_session id s u before i e = rw⁻¹ i e

find_moved :
    (input : ApplyPrintJobSettlementInput) (before : PrintSession) (id : String) (s t : PrintStore)
    → t.sessions ≡ (move_session input before s).sessions
    → find_print_session id s ≡ some before
    → find_print_session id t ≡ some (ended_session input before before)
unfolding find_print_session move_session ended_session
find_moved input before id s t e f =
    rw e (find-update_many (λ x. str_eq x.id id) _ _ s.sessions (λ x. refl))
    ∙ ap (updated_row (is_version_of_session before) (ended_session input before)) f
    ∙ rw (str_eq_refl before.id, (==_iff before.state_version before.state_version).1 refl) refl

end_session-SessionEnd :
    (s : PrintStore) (input : ApplyPrintJobSettlementInput) (job : PrintJob)
    (refund_id : Option String) (u : PrintStore)
    → find_print_job input.print_job_id s ≡ some job
    → u.sessions ≡ s.sessions
    → u.access ≡ s.access
    → u.cleanup ≡ s.cleanup
    → u.outbox ≡ s.outbox
    → Ensures
        (end_session input job refund_id (find_print_session job.session_id u) u)
        (SessionEnd s input)
unfolding end_session end_printing close_session add_session_event session_event ended_session
    move_session
end_session-SessionEnd s input job refund_id u f i a c o =
    elim (Option-cases (find_print_session job.session_id u)) [
      | inl e ↦ rw e (Ensures-ok (session_stays refl a c o))
      | inr (before, e) ↦ rw e (
          Ensures-if (same SessionState-discrete before.state SessionState.printing)
            (λ h.
              Ensures-if (matching (is_version_of_session before) u.sessions == 1)
                (λ k. Ensures-then _ λ cleanup. Ensures-ok (
                  session_ends job before (ended_session input before before)
                    (session_event input job before) f (same_session job.session_id s u before i e)
                    (find_moved input before job.session_id u _ refl e)
                    (session_moves input before
                      (same-true SessionState-discrete before.state SessionState.printing h))
                    refl (ap (λ l. revoke_session_access l before.id input.now) a)
                    (ap (λ l. session_event input job before ∷ l) o)
                    (refl, refl, refl, refl, refl)))
                (λ k. Ensures-ok (session_stays refl a c o)))
            (λ h. Ensures-ok (session_stays refl a c o)))
    ]

settled_SessionEnd :
    (s : PrintStore) (input : ApplyPrintJobSettlementInput) (job : PrintJob)
    → find_print_job input.print_job_id s ≡ some job
    → Ensures (settle_open input job s) (SessionEnd s input)
unfolding settle_open finish_settlement record_settlement settle_job
settled_SessionEnd s input job e =
    Ensures-if (matching (is_same_job job) s.jobs == 1)
      (λ k. end_session-SessionEnd s input job _ _ e refl refl refl refl)
      (λ k. Ensures-ok (session_stays refl refl refl refl))

-- A settlement either leaves sessions' credentials, cleanup and streams as they are and reports no
-- new version; or the job's session makes the transition that the state machine allows from its
-- state and version to the settled state, its credentials are revoked, and its stream has one new
-- event, numbered one above the session's last, that carries the new state and version.
pub apply_print_job_settlement-SessionEnd :
    (s : PrintStore) (input : ApplyPrintJobSettlementInput)
    → Ensures (apply_print_job_settlement s input) (SessionEnd s input)
unfolding apply_print_job_settlement settle_found
apply_print_job_settlement-SessionEnd s input =
    elim (Option-cases (find_print_job input.print_job_id s)) [
      | inl e ↦ rw e (Ensures-ok (session_stays refl refl refl refl))
      | inr (job, e) ↦ rw e (
          Ensures-if (is_open_print_job_status job.status) (λ h. settled_SessionEnd s input job e)
            (λ h. Ensures-ok (session_stays refl refl refl refl)))
    ]
