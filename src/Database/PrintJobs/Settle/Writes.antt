-- ===== src/Database/PrintJobs/Settle/Writes.antt =====
-- What one settlement writes.
use kiosk_project.Database.PrintJobs.Outcome.{
  ApplyPrintJobSettlementInput, PrintJobSettlementOutcome, not_applied, is_open_print_job_status,
}
use kiosk_project.Base.{
  ◌≡◌, refl, ◌==◌, String, true, Option, none, some, Option-cases, inl, inr, Ensures, Ensures-ok,
  Ensures-if, Ensures-map, Ensures-then, same,
}
use kiosk_project.Domain.Session.{SessionState, SessionState-discrete}
use kiosk_project.Database.Tables.{matching}
use kiosk_project.Database.PrintJobs.{PrintJob, PrintStore, PrintSession}
use kiosk_project.Database.PrintJobs.Settle.{
  is_same_job, settle_job, end_session, end_printing, close_session, record_settlement,
  finish_settlement, settle_open, settle_found, find_print_job, apply_print_job_settlement,
  is_version_of_session, move_session, add_session_event,
}

-- The tables that the end of a session does not touch.
pub data SameJobs (s t : PrintStore) : Type 0 where
  same_jobs :
      t.jobs ≡ s.jobs
      → t.commands ≡ s.commands
      → t.events ≡ s.events
      → t.payments ≡ s.payments
      → t.refunds ≡ s.refunds
      → t.paper ≡ s.paper
      → t.audit ≡ s.audit
      → SameJobs s t

-- A settlement's outcome names the refund that was recorded.
abbrev pub Names : Option String → PrintStore → PrintJobSettlementOutcome × PrintStore → Type 0
Names refund_id s r = (r.0.applied ≡ true) × (r.0.refund_id ≡ refund_id) × SameJobs s r.1

untouched : (s : PrintStore) → SameJobs s s
untouched s = same_jobs refl refl refl refl refl refl refl

end_session-Names :
    (input : ApplyPrintJobSettlementInput) (job : PrintJob) (refund_id : Option String)
    (session : Option PrintSession) (s : PrintStore)
    → Ensures (end_session input job refund_id session s) (Names refund_id s)
unfolding end_session end_printing close_session move_session add_session_event
end_session-Names input job refund_id none s = Ensures-ok (refl, refl, untouched s)
end_session-Names input job refund_id (some session) s =
    Ensures-if (same SessionState-discrete session.state SessionState.printing)
      (λ e.
        Ensures-if (matching (is_version_of_session session) s.sessions == 1)
          (λ f.
            Ensures-then _
              (λ cleanup. Ensures-ok (refl, refl, same_jobs refl refl refl refl refl refl refl)))
          (λ f. Ensures-ok (refl, refl, same_jobs refl refl refl refl refl refl refl)))
      (λ e. Ensures-ok (refl, refl, untouched s))

-- The job after its own update, with what is recorded of it.
abbrev pub recorded_for :
    PrintStore → ApplyPrintJobSettlementInput → PrintJob → Option String × PrintStore
unfolding record_settlement settle_job
recorded_for s input job = record_settlement input job (settle_job input job s)

pub data Settlement (s : PrintStore) (input : ApplyPrintJobSettlementInput)
    (r : PrintJobSettlementOutcome × PrintStore) : Type 0 where
  left_alone : r.0 ≡ not_applied → r.1 ≡ s → Settlement s input r
  lost :
      (job : PrintJob)
      → find_print_job input.print_job_id s ≡ some job
      → is_open_print_job_status job.status ≡ true
      → r.0 ≡ not_applied
      → r.1 ≡ settle_job input job s
      → Settlement s input r
  settled :
      (job : PrintJob)
      → find_print_job input.print_job_id s ≡ some job
      → is_open_print_job_status job.status ≡ true
      → Names (recorded_for s input job).0 (recorded_for s input job).1 r
      → Settlement s input r

settle_open-Settlement :
    (s : PrintStore) (input : ApplyPrintJobSettlementInput) (job : PrintJob)
    → find_print_job input.print_job_id s ≡ some job
    → is_open_print_job_status job.status ≡ true
    → Ensures (settle_open input job s) (Settlement s input)
unfolding settle_open finish_settlement
settle_open-Settlement s input job e h =
    Ensures-if (matching (is_same_job job) s.jobs == 1)
      (λ k. Ensures-map (end_session-Names input job _ _ _) (λ r names. settled job e h names))
      (λ k. Ensures-ok (lost job e h refl refl))

pub apply_print_job_settlement-Settlement :
    (s : PrintStore) (input : ApplyPrintJobSettlementInput)
    → Ensures (apply_print_job_settlement s input) (Settlement s input)
unfolding apply_print_job_settlement settle_found
apply_print_job_settlement-Settlement s input =
    elim (Option-cases (find_print_job input.print_job_id s)) [
      | inl e ↦ rw e (Ensures-ok (left_alone refl refl))
      | inr (job, e) ↦ rw e (
          Ensures-if (is_open_print_job_status job.status) (settle_open-Settlement s input job e)
            (λ h. Ensures-ok (left_alone refl refl)))
    ]
