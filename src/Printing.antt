-- ===== src/Printing.antt =====
-- The life of a print job: the transactions of services/worker/src/jobs/dispatch-print.ts and of
-- services/api/src/modules/print-jobs/agent-service.ts, in any order in which they commit. A
-- transaction that throws is rolled back.
pub mod Changes
pub mod Life
pub mod Unleasing
pub mod Lease
pub mod Accepted
pub mod Examples
use kiosk_project.Base.{String, Bool, true, false, List, [], ◌∷◌, Result, ok, err}
use kiosk_project.Base.Int.{ℤ}
use kiosk_project.Database.PrintJobs.{PrintStore}
use kiosk_project.Worker.DispatchPrint.{Candidate, IssueInput, reserve_job, issue_command}
use kiosk_project.Worker.DispatchPrint.Reconcile.{Reconciler, release_lease, settle_overdue}
use kiosk_project.Api.PrintAgent.{AgentOptions, ClaimInput, claim_one}
use kiosk_project.Api.PrintAgent.Reports.{
  ProgressInput, ResultInput, report_progress, report_result,
}

-- One transaction, with what it brings. A candidate is what an earlier read saw of its job.
pub data Operation : Type 0 where
  reserve : Candidate → ℤ → Operation
  issue : IssueInput → Operation
  claim : AgentOptions → ClaimInput → Operation
  progress : AgentOptions → ProgressInput → Operation
  result : AgentOptions → ResultInput → Operation
  release : Reconciler → String → Operation
  overdue : Reconciler → String → Operation

-- The tables after a transaction.
abbrev pub committed {ℓ κ} :
    {E : Type ℓ} {A : Type κ} → Result E (A × PrintStore) → PrintStore → PrintStore
committed (ok r) s = r.1
committed (err e) s = s

pub apply_operation : Operation → PrintStore → PrintStore
unfolding reserve_job issue_command claim_one report_progress report_result release_lease
    settle_overdue
apply_operation (reserve c now) s = (reserve_job c now s).1
apply_operation (issue i) s = issue_command i s
apply_operation (claim o i) s = (claim_one o i s).1
apply_operation (progress o i) s = committed (report_progress o i s) s
apply_operation (result o i) s = committed (report_result o i s) s
apply_operation (release o id) s = committed (release_lease o id s) s
apply_operation (overdue o id) s = committed (settle_overdue o id s) s

abbrev pub run : List Operation → PrintStore → PrintStore
run [] s = s
run (o ∷ os) s = run os (apply_operation o s)

abbrev pub is_result : Operation → Bool
is_result (result o i) = true
is_result _ = false
