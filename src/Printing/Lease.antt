-- ===== src/Printing/Lease.antt =====
-- A lease that was taken back is worth nothing to the one who held it.
use kiosk_project.Database.PrintJobs.Outcome.{ApplyPrintJobSettlementInput}
use kiosk_project.Database.PrintJobs.Settle.Once.{find_print_job-id}
use kiosk_project.Base.{
  All, List, Ensures-then, Ensures-bind, ◌==◌, ◌≡◌, refl, sym, ap, ◌∙◌, String, str_eq, str_eq_refl,
  Bool, true, false, Option, none, some, find, if◌then◌else◌, Option-cases, inl, inr, ok, Ensures,
  Ensures-ok, Ensures-if, Ensures-map, ensured, same, same-true, and_true,
}
use kiosk_project.Base.Int.{ℤ}
use kiosk_project.Database.Tables.{update_many, matching, find-update_many, updated_row}
use kiosk_project.Database.PrintJobs.{
  CommandStatus, CommandStatus-discrete, AgentCommand, PrintStore, record_print_job_event,
}
use kiosk_project.Database.PrintJobs.Settle.{
  apply_print_job_settlement, is_outstanding, closed_command, record_settlement, settle_job,
  close_commands,
}
use kiosk_project.Database.PrintJobs.Settle.Writes.{
  left_alone, lost, settled, same_jobs, apply_print_job_settlement-Settlement,
}
use kiosk_project.Worker.DispatchPrint.Reconcile.{
  same_token, Reconciler, release_lease, release_found, release_command, settle_exhausted,
  settle_silent, find_command, is_releasable, is_exhausted, is_same_claim, released_command,
}
use kiosk_project.Api.PrintAgent.{AgentOptions}
use kiosk_project.Api.PrintAgent.Reports.{
  ResultInput, AgentCommandAck, report_result, renewed_lease_expiry, renewal_of, holds_lease,
  is_operation_of, result_locked, result_for, acknowledge, with_session_transaction,
}
use kiosk_project.Printing.{Operation, run}
use kiosk_project.Printing.Unleasing.{Unclaimed, closed_unclaimed, run-Unclaimed, is_claim}

find_command_updated :
    (p : AgentCommand → Bool) (f : AgentCommand → AgentCommand) (id : String) (s t : PrintStore)
    (c : AgentCommand)
    → t.commands ≡ update_many p f s.commands
    → ((x : AgentCommand) → (f x).id ≡ x.id)
    → find_command id s ≡ some c
    → p c ≡ true
    → find_command id t ≡ some (f c)
unfolding find_command
find_command_updated p f id s t c e k h u =
    rw e (find-update_many (λ x. str_eq x.id id) p f s.commands (λ x. ap (λ i. str_eq i id) (k x)))
    ∙ ap (updated_row p f) h
    ∙ ap (λ v. some (if v then f c else c)) u

outstanding :
    (c : AgentCommand) (id : String)
    → c.print_job_id ≡ id
    → c.status ≡ CommandStatus.claimed
    → is_outstanding id c ≡ true
unfolding is_outstanding CommandStatus-discrete
outstanding c id k h = rw (k, h, str_eq_refl id) refl

-- A settlement that applies closes the claimed command of its job.
applied-Unclaimed :
    (s : PrintStore) (input : ApplyPrintJobSettlementInput) (id : String) (c : AgentCommand)
    → find_command id s ≡ some c
    → same CommandStatus-discrete c.status CommandStatus.claimed ≡ true
    → c.print_job_id ≡ input.print_job_id
    → Ensures (apply_print_job_settlement s input) (λ r. r.0.applied ≡ true → Unclaimed id r.1)
unfolding record_settlement settle_job close_commands closed_command
applied-Unclaimed s input id c f h k =
    Ensures-map (apply_print_job_settlement-Settlement s input) λ r w a. elim w [
      | left_alone n _ ↦ let no = ap (λ o. o.applied) n in absurd (cc)
      | lost _ _ _ n _ ↦ let no = ap (λ o. o.applied) n in absurd (cc)
      | settled job g o (_, _, same_jobs _ v _ _ _ _ _) ↦ (
        closed_command input c,
        find_command_updated (is_outstanding job.id) (closed_command input) id s r.1 c v (λ x. refl)
            f
            (outstanding c job.id (k ∙ sym (find_print_job-id input.print_job_id s job g))
              (same-true CommandStatus-discrete c.status CommandStatus.claimed h)),
        closed_unclaimed input.status,
      )
    ]

same_token_refl : (token : Option String) → same_token token token ≡ true
same_token_refl none = refl
same_token_refl (some a) = str_eq_refl a

claim_of_its_own :
    (c : AgentCommand)
    → same CommandStatus-discrete c.status CommandStatus.claimed ≡ true
    → is_same_claim c c ≡ true
unfolding is_same_claim
claim_of_its_own c h = rw (str_eq_refl c.id, h, same_token_refl c.claim_token) refl

release_command-Unclaimed :
    (o : Reconciler) (c : AgentCommand) (id : String) (s : PrintStore)
    → find_command id s ≡ some c
    → same CommandStatus-discrete c.status CommandStatus.claimed ≡ true
    → Ensures (release_command o c s) (λ r. r.0 ≡ true → Unclaimed id r.1)
unfolding release_command record_print_job_event released_command CommandStatus-discrete
release_command-Unclaimed o c id s e h =
    Ensures-if (matching (is_same_claim c) s.commands == 1)
      (λ k. Ensures-ok (λ u. (
        released_command o.now c,
        find_command_updated (is_same_claim c) (released_command o.now) id s _ c refl (λ x. refl) e
            (claim_of_its_own c h),
        refl,
      )))
      (λ k. Ensures-ok (λ u. absurd (cc)))

settle_exhausted-Unclaimed :
    (o : Reconciler) (c : AgentCommand) (id : String) (s : PrintStore)
    → find_command id s ≡ some c
    → same CommandStatus-discrete c.status CommandStatus.claimed ≡ true
    → Ensures (settle_exhausted o c s) (λ r. r.0 ≡ true → Unclaimed id r.1)
unfolding settle_exhausted settle_silent
settle_exhausted-Unclaimed o c id s e h =
    Ensures-bind (λ r. r.0.applied ≡ true → Unclaimed id r.1) (applied-Unclaimed s _ id c e h refl)
      (λ r k. Ensures-ok k)

release_lease-Unclaimed :
    (o : Reconciler) (id : String) (s : PrintStore)
    → Ensures (release_lease o id s) (λ r. r.0 ≡ true → Unclaimed id r.1)
unfolding release_lease release_found is_releasable
release_lease-Unclaimed o id s = elim (Option-cases (find_command id s)) [
  | inl e ↦ rw e (Ensures-ok (λ h. absurd (cc)))
  | inr (c, e) ↦ rw e (
      Ensures-if (is_releasable o.now c)
        (λ h.
          let claimed =
            (and_true (same CommandStatus-discrete c.status CommandStatus.claimed) _ h).0 in
          Ensures-if (is_exhausted o c) (λ k. settle_exhausted-Unclaimed o c id s e claimed)
            (λ k. release_command-Unclaimed o c id s e claimed))
        (λ h. Ensures-ok (λ k. absurd (cc))))
]

no_renewal :
    (o : AgentOptions) (id token : String) (now : ℤ) (s : PrintStore)
    → Unclaimed id s
    → renewed_lease_expiry o id token now s ≡ none
unfolding renewed_lease_expiry renewal_of holds_lease find_command
no_renewal o id token now s (c, e, h) = rw (e, h) refl

-- Without a lease a report changes nothing, and is not accepted.
without_lease :
    (o : AgentOptions) (i : ResultInput) (c : AgentCommand) (s : PrintStore)
    → renewed_lease_expiry o c.id i.claim_token i.held_at s ≡ none
    → Ensures (result_locked o i c s) (λ r. (r.0.accepted ≡ false) × (r.1 ≡ s))
unfolding result_locked result_for acknowledge
without_lease o i c s e = rw e (Ensures-then _ λ job. Ensures-ok (refl, refl))

-- When the dispatcher has taken a command's lease back, by offering the command again or by
-- settling its job, then a result that is reported for that command under whatever token, after
-- whatever transactions of the dispatcher and of the kiosk's command channel but claims, in whatever
-- order, is answered as not accepted and changes no table.
pub release_lease-fences :
    (o : Reconciler) (id : String) (os : List Operation) (s t u : PrintStore) (a : AgentOptions)
    (i : ResultInput) (ack : AgentCommandAck) (c : AgentCommand)
    → release_lease o id s ≡ ok (true, t)
    → All (λ x. is_claim x ≡ false) os
    → find (is_operation_of i.kiosk_id i.operation_id) (run os t).commands ≡ some c
    → c.id ≡ id
    → report_result a i (run os t) ≡ ok (ack, u)
    → (ack.accepted ≡ false) × (u ≡ run os t)
unfolding report_result with_session_transaction
release_lease-fences o id os s t u a i ack c r n f k e =
    let free = run-Unclaimed os id t n (ensured (release_lease-Unclaimed o id s) r refl) in
    let lost =
      without_lease a i c (run os t)
        (rw k (no_renewal a id i.claim_token i.held_at (run os t) free)) in
    ensured {a = (ack, u)} lost (rw f at e)
