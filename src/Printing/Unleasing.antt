-- ===== src/Printing/Unleasing.antt =====
-- Transactions that give no command to the kiosk.
use kiosk_project.Database.PrintJobs.Outcome.{is_completed, ApplyPrintJobSettlementInput}
use kiosk_project.Domain.PrintJob.{PrintJobSettledStatus}
use kiosk_project.Base.{
  is_some, ensures, All, List, [], ◌∷◌, Bool-cases, Result, err, or_throw, Ensures-then,
  Ensures-bind, ◌==◌, ◌≡◌, refl, ap, ◌∙◌, String, str_eq, Bool, true, false, Option, none, some,
  find, if◌then◌else◌, Option-cases, inl, inr, ok, Ensures, Ensures-ok, Ensures-if, Ensures-map,
  ensured, same,
}
use kiosk_project.Base.Int.{ℤ, ltb_ℤ}
use kiosk_project.Database.Tables.{update_many, matching, find-update_many, updated_row}
use kiosk_project.Database.PrintJobs.{
  PrintJob, PrintJobStatus, PrintJobLedgerType, CommandStatus, CommandStatus-discrete, AgentCommand,
  PrintStore, record_print_job_event,
}
use kiosk_project.Database.PrintJobs.Settle.{
  find_print_job, apply_print_job_settlement, is_outstanding, closed_command, record_settlement,
  settle_job, close_commands,
}
use kiosk_project.Database.PrintJobs.Settle.Writes.{
  left_alone, lost, settled, same_jobs, apply_print_job_settlement-Settlement,
}
use kiosk_project.Worker.DispatchPrint.Reconcile.{
  Reconciler, release_lease, release_found, release_command, settle_exhausted, settle_silent,
  settle_overdue, settle_found_overdue, find_command, is_releasable, is_exhausted, is_same_claim,
  released_command,
}
use kiosk_project.Api.PrintAgent.{AgentOptions, row_not_found}
use kiosk_project.Api.PrintAgent.Reports.{
  ProgressInput, report_progress, progress_for, progress_held, progress_renewed, progress_locked,
  is_renewable, renewed_command, is_startable, started_job, result_held, ResultInput, report_result,
  renewed_lease_expiry, result_locked, result_for, acknowledge, with_session_transaction,
}
use kiosk_project.Worker.DispatchPrint.{
  IssueInput, issue_command, issue_found, issue_for, reserve_job, commands_with, command_for,
  is_command_of, is_job_status, is_queued_job,
}
use kiosk_project.Printing.Changes.{unrefused}
use kiosk_project.Printing.{
  Operation, reserve, issue, claim, progress, result, release, overdue, committed, apply_operation,
  run,
}

-- The command has a row, and that row is not claimed.
abbrev pub Unclaimed : String → PrintStore → Type 0
Unclaimed id s =
    (c : AgentCommand) × (find_command id s ≡ some c)
    × (same CommandStatus-discrete c.status CommandStatus.claimed ≡ false)

pub closed_unclaimed :
    (status : PrintJobSettledStatus)
    → same CommandStatus-discrete
        (if is_completed status then CommandStatus.completed else CommandStatus.failed)
        CommandStatus.claimed
      ≡ false
unfolding CommandStatus-discrete
closed_unclaimed PrintJobSettledStatus.completed = refl
closed_unclaimed PrintJobSettledStatus.failed = refl
closed_unclaimed PrintJobSettledStatus.canceled = refl
closed_unclaimed PrintJobSettledStatus.recovery_required = refl

-- What a transaction that is no claim does to the commands: it makes none claimed.
data Unleasing (s t : PrintStore) : Type 0 where
  same_commands : t.commands ≡ s.commands → Unleasing s t
  added :
      (c : AgentCommand)
      → same CommandStatus-discrete c.status CommandStatus.claimed ≡ false
      → t.commands ≡ c ∷ s.commands
      → Unleasing s t
  updated :
      (p : AgentCommand → Bool) (f : AgentCommand → AgentCommand)
      → t.commands ≡ update_many p f s.commands
      → ((x : AgentCommand) → (f x).id ≡ x.id)
      → ((x : AgentCommand)
          → same CommandStatus-discrete x.status CommandStatus.claimed ≡ false
          → same CommandStatus-discrete (f x).status CommandStatus.claimed ≡ false)
      → Unleasing s t

Unleasing-Unclaimed :
    (id : String) (s t : PrintStore) → Unleasing s t → Unclaimed id s → Unclaimed id t
unfolding find_command
Unleasing-Unclaimed id s t (same_commands e) (c, f, h) = (c, rw e f, h)
Unleasing-Unclaimed id s t (added d k e) (c, f, h) = elim (Bool-cases (str_eq d.id id)) [
  | inl v ↦ (d, rw (e, v) refl, k)
  | inr v ↦ (c, rw (e, v) f, h)
]
Unleasing-Unclaimed id s t (updated p g e k m) (c, f, h) =
    let row =
      rw e
        (find-update_many (λ x. str_eq x.id id) p g s.commands (λ x. ap (λ i. str_eq i id) (k x)))
      ∙ ap (updated_row p g) f in
    elim (Bool-cases (p c)) [
      | inl v ↦ (g c, row ∙ ap (λ w. some (if w then g c else c)) v, m c h)
      | inr v ↦ (c, row ∙ ap (λ w. some (if w then g c else c)) v, h)
    ]

settlement-Unleasing :
    (s : PrintStore) (input : ApplyPrintJobSettlementInput)
    → Ensures (apply_print_job_settlement s input) (λ r. Unleasing s r.1)
unfolding record_settlement settle_job close_commands closed_command
settlement-Unleasing s input = Ensures-map (apply_print_job_settlement-Settlement s input) λ r w.
    elim w [
      | left_alone _ l ↦ same_commands (ap (λ t. t.commands) l)
      | lost _ _ _ _ l ↦ same_commands (ap (λ t. t.commands) l)
      | settled job _ _ (_, _, same_jobs _ v _ _ _ _ _) ↦
          updated (is_outstanding job.id) (closed_command input) v (λ x. refl)
            (λ x h. closed_unclaimed input.status)
    ]

settle_silent-Unleasing :
    (o : Reconciler) (row : String) (operation_id : Option String) (type : PrintJobLedgerType)
    (started : Bool) (code id : String) (s : PrintStore)
    → Ensures (settle_silent o row operation_id type started code id s) (λ r. Unleasing s r.1)
unfolding settle_silent
settle_silent-Unleasing o row operation_id type started code id s =
    Ensures-bind (λ r. Unleasing s r.1) (settlement-Unleasing s _) (λ r k. Ensures-ok k)

release_lease-Unleasing :
    (o : Reconciler) (id : String) (s : PrintStore)
    → Ensures (release_lease o id s) (λ r. Unleasing s r.1)
unfolding release_lease release_found settle_exhausted release_command record_print_job_event
    released_command CommandStatus-discrete
release_lease-Unleasing o id s = elim (Option-cases (find_command id s)) [
  | inl e ↦ rw e (Ensures-ok (same_commands refl))
  | inr (c, e) ↦ rw e (
      Ensures-if (is_releasable o.now c)
        (λ h.
          Ensures-if (is_exhausted o c)
            (λ k. settle_silent-Unleasing o c.id _ _ _ _ c.print_job_id s)
            (λ k.
              Ensures-if (matching (is_same_claim c) s.commands == 1)
                (λ m. Ensures-ok (
                  updated (is_same_claim c) (released_command o.now) refl (λ x. refl)
                    (λ x n. refl)))
                (λ m. Ensures-ok (
                  updated (is_same_claim c) (released_command o.now) refl (λ x. refl)
                    (λ x n. refl)))))
        (λ h. Ensures-ok (same_commands refl)))
]

settle_overdue-Unleasing :
    (o : Reconciler) (id : String) (s : PrintStore)
    → Ensures (settle_overdue o id s) (λ r. Unleasing s r.1)
unfolding settle_overdue settle_found_overdue
settle_overdue-Unleasing o id s = elim (Option-cases (find_print_job id s)) [
  | inl e ↦ rw e (Ensures-ok (same_commands refl))
  | inr (job, e) ↦ rw e (
      Ensures-if (ltb_ℤ o.now job.deadline_at) (λ h. Ensures-ok (same_commands refl))
        (λ h. settle_silent-Unleasing o job.id _ _ _ _ job.id s))
]

commands_with-Unleasing :
    (i : IssueInput) (job : PrintJob) (s t : PrintStore)
    → t.commands ≡ commands_with (command_for i job) s.commands
    → Unleasing s t
unfolding commands_with command_for CommandStatus-discrete
commands_with-Unleasing i job s t e =
    elim (Bool-cases (is_some (find (is_command_of job.id) s.commands))) [
      | inl v ↦ same_commands (rw v at e)
      | inr v ↦ added (command_for i job) refl (rw v at e)
    ]

issue_command-Unleasing : (i : IssueInput) (s : PrintStore) → Unleasing s (issue_command i s)
unfolding issue_command issue_found issue_for record_print_job_event
issue_command-Unleasing i s = elim (Option-cases (find_print_job i.print_job_id s)) [
  | inl e ↦ rw e (same_commands refl)
  | inr (job, e) ↦ rw e (elim (Bool-cases (is_job_status job.status PrintJobStatus.queued)) [
    | inr h ↦ rw h (same_commands refl)
    | inl h ↦ rw h (elim (Bool-cases (matching (is_queued_job job.id) s.jobs == 1)) [
      | inl k ↦ rw k (commands_with-Unleasing i job s _ refl)
      | inr k ↦ rw k (commands_with-Unleasing i job s _ refl)
    ])
  ])
]

acknowledge-Unleasing :
    (s t : PrintStore) (id : String) (accepted : Bool)
    → Unleasing s t
    → Ensures (acknowledge id accepted t) (λ x. Unleasing s x.1)
unfolding acknowledge
acknowledge-Unleasing s t id accepted k =
    Ensures-then (or_throw (find_print_job id t) row_not_found) (λ job. Ensures-ok k)

-- A renewal keeps the status of a command.
renewed-Unleasing :
    (i : ProgressInput) (c : AgentCommand) (lease : ℤ) (s t : PrintStore)
    → t.commands ≡ update_many (is_renewable i c) (renewed_command lease i.now) s.commands
    → Unleasing s t
unfolding renewed_command
renewed-Unleasing i c lease s t e =
    updated (is_renewable i c) (renewed_command lease i.now) e (λ x. refl) (λ x h. h)

progress_renewed-Unleasing :
    (i : ProgressInput) (c : AgentCommand) (lease : ℤ) (s : PrintStore)
    → Ensures
        (progress_renewed i c (record s {
          commands = update_many (is_renewable i c) (renewed_command lease i.now) s.commands;
        }))
        (λ r. Unleasing s r.1)
unfolding progress_renewed record_print_job_event
progress_renewed-Unleasing i c lease s =
    let started : PrintStore = record s {
      jobs = update_many (is_startable i c) (started_job i.now) s.jobs;
      commands = update_many (is_renewable i c) (renewed_command lease i.now) s.commands;
    } in
    Ensures-then (or_throw (find_print_job c.print_job_id started) row_not_found)
      λ job. acknowledge-Unleasing s _ c.print_job_id true (renewed-Unleasing i c lease s _ refl)

progress_for-Unleasing :
    (i : ProgressInput) (c : AgentCommand) (lease : Option ℤ) (s : PrintStore)
    → Ensures (progress_for i c lease s) (λ r. Unleasing s r.1)
unfolding progress_for progress_held
progress_for-Unleasing i c none s =
    acknowledge-Unleasing s s c.print_job_id false (same_commands refl)
progress_for-Unleasing i c (some lease) s =
    Ensures-if (matching (is_renewable i c) s.commands == 1)
      (λ h. progress_renewed-Unleasing i c lease s)
      (λ h. acknowledge-Unleasing s _ c.print_job_id false (renewed-Unleasing i c lease s _ refl))

progress-Unleasing :
    (o : AgentOptions) (i : ProgressInput) (s : PrintStore)
    → Ensures (report_progress o i s) (λ r. Unleasing s r.1)
unfolding report_progress progress_locked with_session_transaction
progress-Unleasing o i s =
    Ensures-then _
      λ c. progress_for-Unleasing i c (renewed_lease_expiry o c.id i.claim_token i.now s) s

result_for-Unleasing :
    (o : AgentOptions) (i : ResultInput) (c : AgentCommand) (lease : Option ℤ) (s : PrintStore)
    → Ensures (result_for o i c lease s) (λ r. Unleasing s r.1)
unfolding result_for result_held
result_for-Unleasing o i c none s =
    acknowledge-Unleasing s s c.print_job_id false (same_commands refl)
result_for-Unleasing o i c (some lease) s =
    Ensures-then (or_throw (find_print_job c.print_job_id s) row_not_found) λ job.
      Ensures-bind (λ r. Unleasing s r.1)
        (ensures λ x h. ensured (settlement-Unleasing s _) (unrefused _ h))
        (λ x k. acknowledge-Unleasing s x.1 c.print_job_id x.0.applied k)

result-Unleasing :
    (o : AgentOptions) (i : ResultInput) (s : PrintStore)
    → Ensures (report_result o i s) (λ r. Unleasing s r.1)
unfolding report_result result_locked with_session_transaction
result-Unleasing o i s =
    Ensures-then _
      λ c. result_for-Unleasing o i c (renewed_lease_expiry o c.id i.claim_token i.held_at s) s

committed-Unleasing {ℓ κ} :
    {E : Type ℓ} {A : Type κ} (r : Result E (A × PrintStore)) (s : PrintStore)
    → Ensures r (λ x. Unleasing s x.1)
    → Unleasing s (committed r s)
committed-Unleasing (ok r) s h = ensured h refl
committed-Unleasing (err e) s h = same_commands refl

abbrev pub is_claim : Operation → Bool
is_claim (claim o i) = true
is_claim _ = false

apply_operation-Unleasing :
    (o : Operation) (s : PrintStore) → is_claim o ≡ false → Unleasing s (apply_operation o s)
unfolding apply_operation reserve_job
apply_operation-Unleasing (reserve c now) s h = same_commands refl
apply_operation-Unleasing (issue i) s h = issue_command-Unleasing i s
apply_operation-Unleasing (claim o i) s h = absurd (cc)
apply_operation-Unleasing (progress o i) s h = committed-Unleasing _ s (progress-Unleasing o i s)
apply_operation-Unleasing (result o i) s h = committed-Unleasing _ s (result-Unleasing o i s)
apply_operation-Unleasing (release o id) s h =
    committed-Unleasing _ s (release_lease-Unleasing o id s)
apply_operation-Unleasing (overdue o id) s h =
    committed-Unleasing _ s (settle_overdue-Unleasing o id s)

pub run-Unclaimed :
    (os : List Operation) (id : String) (s : PrintStore)
    → All (λ o. is_claim o ≡ false) os
    → Unclaimed id s
    → Unclaimed id (run os s)
run-Unclaimed [] id s h u = u
run-Unclaimed (o ∷ os) id s (h, hs) u =
    run-Unclaimed os id (apply_operation o s) hs
      (Unleasing-Unclaimed id s _ (apply_operation-Unleasing o s h) u)
