-- ===== src/Printing/Accepted.antt =====
-- What it takes for a device's result to count.
use kiosk_project.Database.PrintJobs.Outcome.{
  settlement_input, job_status_of, is_open_print_job_status, ApplyPrintJobSettlementInput,
  PrintJobSettlementOutcome,
}
use kiosk_project.Printing.Changes.{unrefused}
use kiosk_project.Domain.PrintJob.{settle_print_device_result}
use kiosk_project.Database.PrintJobs.Settle.Once.{
  one_job, no_jobs, apply_print_job_settlement-Closed, apply_print_job_settlement-Jobs,
}
use kiosk_project.Base.{
  or_throw-eq-ok, bind_cases, or_throw, Ensures-or_throw, Ensures-then, Ensures-bind, ◌≡◌, refl, ap,
  String, Bool, true, false, Option, none, some, find, Bool-cases, Option-cases, inl, inr, ok,
  Ensures, Ensures-ok, ensured, ensures,
}
use kiosk_project.Base.Int.{ℤ}
use kiosk_project.Database.PrintJobs.{PrintJob, AgentCommand, PrintStore}
use kiosk_project.Database.PrintJobs.Settle.{find_print_job, apply_print_job_settlement}
use kiosk_project.Worker.DispatchPrint.Reconcile.{find_command}
use kiosk_project.Api.PrintAgent.{operation_not_found, row_not_found, AgentOptions}
use kiosk_project.Api.PrintAgent.Reports.{
  result_context, readable_result, or_refused, result_held, ResultInput, AgentCommandAck,
  report_result, renewed_lease_expiry, renewal_of, holds_lease, is_operation_of, result_locked,
  result_for, acknowledge, with_session_transaction,
}

-- What an accepted result has shown and done: the reporter's command is claimed under its token
-- and its lease has not run out, the job was open, and now has the outcome that the device's result
-- stands for.
pub data Accepted (i : ResultInput) (c : AgentCommand) (s t : PrintStore) : Type 0 where
  accepted_under :
      (row : AgentCommand) (job after : PrintJob)
      → find_command c.id s ≡ some row
      → holds_lease i.claim_token i.held_at row ≡ true
      → find_print_job c.print_job_id s ≡ some job
      → is_open_print_job_status job.status ≡ true
      → find_print_job c.print_job_id t ≡ some after
      → after.status ≡ job_status_of (settle_print_device_result (readable_result i job)).status
      → Accepted i c s t

renewal_row :
    (o : AgentOptions) (token : String) (now lease : ℤ) (row : Option AgentCommand)
    → renewal_of o token now row ≡ some lease
    → (c : AgentCommand) × (row ≡ some c) × (holds_lease token now c ≡ true)
unfolding renewal_of
renewal_row o token now lease none e = absurd (cc)
renewal_row o token now lease (some c) e = elim (Bool-cases (holds_lease token now c)) [
  | inl h ↦ (c, refl, h)
  | inr h ↦ let no : none ≡ some lease = rw h at e in absurd (cc)
]

was_open :
    (s t : PrintStore) (input : ApplyPrintJobSettlementInput) (outcome : PrintJobSettlementOutcome)
    (job : PrintJob)
    → apply_print_job_settlement s input ≡ ok (outcome, t)
    → outcome.applied ≡ true
    → find_print_job input.print_job_id s ≡ some job
    → is_open_print_job_status job.status ≡ true
was_open s t input outcome job e a f = elim (ensured (apply_print_job_settlement-Jobs s input) e) [
  | no_jobs n _ ↦ let no = ap (λ o. o.applied) n in absurd (cc)
  | one_job other g o _ ↦ let same_row : other ≡ job = cc in rw⁻¹ same_row o
]

acknowledge-accepted {κ} :
    (P : PrintStore → Type κ) (id : String) (b : Bool) (t : PrintStore)
    → (b ≡ true → P t)
    → Ensures (acknowledge id b t) (λ r. r.0.accepted ≡ true → P r.1)
unfolding acknowledge
acknowledge-accepted P id b t h =
    Ensures-then (or_throw (find_print_job id t) row_not_found) (λ job. Ensures-ok h)

abbrev result_settlement :
    AgentOptions → ResultInput → AgentCommand → PrintJob → ApplyPrintJobSettlementInput
result_settlement o i c job =
    let settlement = settle_print_device_result (readable_result i job) in
    settlement_input c.print_job_id settlement (result_context o i c settlement.status)

result_settlement-Accepted :
    (o : AgentOptions) (i : ResultInput) (c row : AgentCommand) (job : PrintJob) (s : PrintStore)
    → find_command c.id s ≡ some row
    → holds_lease i.claim_token i.held_at row ≡ true
    → find_print_job c.print_job_id s ≡ some job
    → Ensures
        (or_refused (apply_print_job_settlement s (result_settlement o i c job)))
        (λ x. x.0.applied ≡ true → Accepted i c s x.1)
result_settlement-Accepted o i c row job s f h g = ensures λ x e a.
    let input = result_settlement o i c job in
    let e' = unrefused (apply_print_job_settlement s input) e in
    let (after, closed, status) = ensured (apply_print_job_settlement-Closed s input) e' a in
    accepted_under row job after f h g (was_open s x.1 input x.0 job e' a g) closed.0 status

result_held-Accepted :
    (o : AgentOptions) (i : ResultInput) (c row : AgentCommand) (s : PrintStore)
    → find_command c.id s ≡ some row
    → holds_lease i.claim_token i.held_at row ≡ true
    → Ensures (result_held o i c s) (λ r. r.0.accepted ≡ true → Accepted i c s r.1)
unfolding result_held
result_held-Accepted o i c row s f h =
    Ensures-bind (λ job. find_print_job c.print_job_id s ≡ some job)
      (Ensures-or_throw (find_print_job c.print_job_id s) row_not_found (λ job g. g))
      λ job g.
        Ensures-bind
          {called = or_refused (apply_print_job_settlement s (result_settlement o i c job))}
          (λ x. x.0.applied ≡ true → Accepted i c s x.1)
          (result_settlement-Accepted o i c row job s f h g)
          (λ x k. acknowledge-accepted (Accepted i c s) c.print_job_id x.0.applied x.1 k)

result_locked-Accepted :
    (o : AgentOptions) (i : ResultInput) (c : AgentCommand) (s : PrintStore)
    → Ensures (result_locked o i c s) (λ r. r.0.accepted ≡ true → Accepted i c s r.1)
unfolding result_locked result_for renewed_lease_expiry find_command
result_locked-Accepted o i c s =
    elim (Option-cases (renewed_lease_expiry o c.id i.claim_token i.held_at s)) [
      | inl g ↦
          rw g (acknowledge-accepted (Accepted i c s) c.print_job_id false s (λ no. absurd (cc)))
      | inr (lease, g) ↦
          let (row, r, h) = renewal_row o i.claim_token i.held_at lease (find_command c.id s) g in
          rw g (result_held-Accepted o i c row s r h)
    ]

-- A result that is accepted was reported under a live lease on the command that it names, settled
-- a job that was open until then, and left it with the outcome that the device's result, its count
-- of sheets read within the job, stands for.
pub report_result-Accepted :
    (o : AgentOptions) (i : ResultInput) (s t : PrintStore) (ack : AgentCommandAck)
    → report_result o i s ≡ ok (ack, t)
    → ack.accepted ≡ true
    → (c : AgentCommand) × (find (is_operation_of i.kiosk_id i.operation_id) s.commands ≡ some c)
      × Accepted i c s t
unfolding report_result with_session_transaction
report_result-Accepted o i s t ack e a =
    bind_cases
      (or_throw (find (is_operation_of i.kiosk_id i.operation_id) s.commands) operation_not_found)
      (λ c. result_locked o i c s) e
      λ c f k.
        (c, or_throw-eq-ok _ operation_not_found f, ensured (result_locked-Accepted o i c s) k a)
