-- ===== src/Printing/Changes.antt =====
-- What one transaction does to the jobs, the refunds and the ledger of events.
use kiosk_project.Database.PrintJobs.Outcome.{
  ApplyPrintJobSettlementInput, PrintJobSettlementOutcome, SettlementContext, settlement_input,
  is_open_print_job_status,
}
use kiosk_project.Database.Cleanup.{CleanupError}
use kiosk_project.Base.{
  arith, ◌==◌, ◌≡◌, refl, sym, ap, String, str_eq, Bool, true, false, ◌&&◌, Option, none, some,
  List, [], ◌∷◌, find, Bool-cases, Option-cases, inl, inr, Result, ok, err, ensures, Ensures,
  Ensures-ok, Ensures-if, Ensures-then, Ensures-bind, ensured, same, same-true, and_true, or_throw,
  includes,
}
use kiosk_project.Base.Int.{ℤ, ltb_ℤ}
use kiosk_project.Base.Sorting.{sort_by}
use kiosk_project.Domain.PrintJob.{PrintDeviceResult, settle_print_device_result}
use kiosk_project.Database.Tables.{update_many, matching}
use kiosk_project.Database.PrintJobs.{
  PrintJobLedgerType, PrintJob, PrintJobStatus, PrintJobStatus-discrete, AgentCommand,
  PrintJobEventInput, PrintStore, record_print_job_event,
}
use kiosk_project.Database.PrintJobs.Settle.Once.{find_print_job-id}
use kiosk_project.Database.PrintJobs.Settle.{find_print_job, apply_print_job_settlement}
use kiosk_project.Worker.DispatchPrint.{
  is_job_status, Candidate, IssueInput, reserve_job, is_reservable, reserved_job, issue_command,
  issue_found, issue_for, is_queued_job, dispatched_job,
}
use kiosk_project.Worker.DispatchPrint.Reconcile.{
  dispatcher_context, Reconciler, release_lease, release_found, release_command, settle_exhausted,
  settle_silent, settle_overdue, settle_found_overdue, may_have_started, settlement_of_silence,
  find_command, is_releasable, is_exhausted, is_same_claim,
}
use kiosk_project.Api.PrintAgent.{
  available_first, is_claimable, AgentOptions, AgentError, ClaimInput, claim_one, claim_found,
  claim_candidate, is_candidate, row_not_found,
}
use kiosk_project.Api.PrintAgent.Reports.{
  progress_locked, result_locked, or_refused, crosses_submission_boundary, ProgressInput,
  ResultInput, AgentCommandAck, report_progress, report_result, with_session_transaction,
  acknowledge, progress_for, progress_held, progress_renewed, renewed_lease_expiry, is_startable,
  started_job, is_renewable, result_for, result_held, readable_result,
}
use kiosk_project.Printing.{
  Operation, reserve, issue, claim, progress, result, release, overdue, committed, apply_operation,
  is_result,
}

-- The events are those before, or have one entry more.
pub data Logged (s t : PrintStore) : Type 0 where
  no_entry : t.events ≡ s.events → Logged s t
  entry :
      (input : PrintJobEventInput) → t.events ≡ (record_print_job_event input s).events → Logged s t

-- The money is as it was.
pub data Unpaid (s t : PrintStore) : Type 0 where
  same_money : t.refunds ≡ s.refunds → t.payments ≡ s.payments → Unpaid s t

-- An open job stays open, and one that the device may have started stays so.
abbrev pub Advances : PrintJob → PrintJob → Type 0
Advances j k =
    (is_open_print_job_status j.status ≡ true)
    × (is_open_print_job_status k.status ≡ true)
    × (j.status ≡ PrintJobStatus.printing → k.status ≡ PrintJobStatus.printing)

-- Where a settlement comes from: a device's result, or silence about a job as it was found.
pub data Origin (s : PrintStore) (input : ApplyPrintJobSettlementInput) : Bool → Type 0 where
  by_device :
      (id : String) (r : PrintDeviceResult) (c : SettlementContext)
      → input ≡ settlement_input id (settle_print_device_result r) c
      → Origin s input true
  by_silence :
      (id code : String) (c : SettlementContext)
      → input
        ≡ settlement_input id
            (settlement_of_silence (may_have_started (find_print_job id s)) code)
            c
      → Origin s input false

pub data Change (from_device : Bool) (s t : PrintStore) : Type 0 where
  still : t.jobs ≡ s.jobs → Unpaid s t → Logged s t → Change from_device s t
  advancing :
      (p : PrintJob → Bool) (f : PrintJob → PrintJob)
      → t.jobs ≡ update_many p f s.jobs
      → ((j : PrintJob) → (f j).id ≡ j.id)
      → ((j : PrintJob) → p j ≡ true → Advances j (f j))
      → Unpaid s t
      → Logged s t
      → Change from_device s t
  settling :
      (input : ApplyPrintJobSettlementInput) (outcome : PrintJobSettlementOutcome)
      → Origin s input from_device
      → apply_print_job_settlement s input ≡ ok (outcome, t)
      → Change from_device s t

pub unchanged : (b : Bool) (s : PrintStore) → Change b s s
unchanged b s = still refl (same_money refl refl) (no_entry refl)

committed-Change {ℓ κ} :
    {E : Type ℓ} {A : Type κ} (b : Bool) (r : Result E (A × PrintStore)) (s : PrintStore)
    → Ensures r (λ x. Change b s x.1)
    → Change b s (committed r s)
committed-Change b (ok r) s h = ensured h refl
committed-Change b (err e) s h = unchanged b s

queued_open :
    (j : PrintJob)
    → same PrintJobStatus-discrete j.status PrintJobStatus.queued ≡ true
    → (is_open_print_job_status j.status ≡ true) × (j.status ≡ PrintJobStatus.queued)
unfolding is_open_print_job_status PrintJobStatus-discrete
queued_open j h =
    let e : j.status ≡ PrintJobStatus.queued =
      same-true PrintJobStatus-discrete j.status PrintJobStatus.queued h in
    (rw e refl, e)

reserve_job-Change :
    (c : Candidate) (now : ℤ) (s : PrintStore) → Change false s (reserve_job c now s).1
unfolding reserve_job is_reservable reserved_job
reserve_job-Change c now s =
    advancing (is_reservable c) (reserved_job c now) refl (λ j. refl)
      (λ j h.
        let (o, e) =
          queued_open j
            (and_true (str_eq j.id c.id) _
              (and_true (str_eq j.id c.id && is_job_status j.status PrintJobStatus.queued) _
                h).0).1 in
        (o, o, λ k. k))
      (same_money refl refl) (no_entry refl)

dispatched_open : is_open_print_job_status PrintJobStatus.dispatched ≡ true
unfolding is_open_print_job_status PrintJobStatus-discrete
dispatched_open = refl

printing_open : is_open_print_job_status PrintJobStatus.printing ≡ true
unfolding is_open_print_job_status PrintJobStatus-discrete
printing_open = refl

dispatching :
    (id : String) (now : ℤ) (j : PrintJob)
    → is_queued_job id j ≡ true
    → Advances j (dispatched_job now j)
unfolding is_queued_job dispatched_job
dispatching id now j h =
    let (o, e) = queued_open j (and_true (str_eq j.id id) _ h).1 in
    (o, dispatched_open, λ k. absurd (cc))

issue_for-Change :
    (i : IssueInput) (job : PrintJob) (s : PrintStore) → Change false s (issue_for i job s)
unfolding issue_for dispatched_job record_print_job_event
issue_for-Change i job s = elim (Bool-cases (matching (is_queued_job job.id) s.jobs == 1)) [
  | inl e ↦ rw e (
      advancing (is_queued_job job.id) (dispatched_job i.now) refl (λ j. refl)
        (dispatching job.id i.now) (same_money refl refl) (entry _ refl))
  | inr e ↦ rw e (
      advancing (is_queued_job job.id) (dispatched_job i.now) refl (λ j. refl)
        (dispatching job.id i.now) (same_money refl refl) (no_entry refl))
]

issue_command-Change : (i : IssueInput) (s : PrintStore) → Change false s (issue_command i s)
unfolding issue_command issue_found
issue_command-Change i s = elim (Option-cases (find_print_job i.print_job_id s)) [
  | inl e ↦ rw e (unchanged false s)
  | inr (job, e) ↦
      rw e (elim (Bool-cases (same PrintJobStatus-discrete job.status PrintJobStatus.queued)) [
        | inl h ↦ rw h (issue_for-Change i job s)
        | inr h ↦ rw h (unchanged false s)
      ])
]

claim_one-Change :
    (o : AgentOptions) (i : ClaimInput) (s : PrintStore) → Change false s (claim_one o i s).1
unfolding claim_one claim_found claim_candidate record_print_job_event
claim_one-Change o i s =
    elim (Option-cases
      (find (is_claimable i.kiosk_id i.now s.jobs) (sort_by available_first s.commands))) [
        | inl e ↦ rw e (unchanged false s)
        | inr (c, e) ↦ rw e (elim (Bool-cases (matching (is_candidate c) s.commands == 1)) [
          | inl h ↦ rw h (still refl (same_money refl refl) (entry _ refl))
          | inr h ↦ rw h (still refl (same_money refl refl) (no_entry refl))
        ])
      ]

release_command-Change :
    (o : Reconciler) (c : AgentCommand) (s : PrintStore)
    → Ensures (release_command o c s) (λ x. Change false s x.1)
unfolding release_command record_print_job_event
release_command-Change o c s =
    Ensures-if (matching (is_same_claim c) s.commands == 1)
      (λ h. Ensures-ok (still refl (same_money refl refl) (entry _ refl)))
      (λ h. Ensures-ok (still refl (same_money refl refl) (no_entry refl)))

settle_silent-Change :
    (o : Reconciler) (row : String) (operation_id : Option String) (type : PrintJobLedgerType)
    (started : Bool) (code id : String) (s : PrintStore)
    → may_have_started (find_print_job id s) ≡ started
    → Ensures (settle_silent o row operation_id type started code id s) (λ x. Change false s x.1)
unfolding settle_silent dispatcher_context
settle_silent-Change o row operation_id type started code id s h =
    Ensures-bind (λ x. Change false s x.1)
      (ensures λ x e.
        settling _ x.0
          (by_silence id code (dispatcher_context o row operation_id type) (
            ap
              (λ b.
                settlement_input id (settlement_of_silence b code)
                  (dispatcher_context o row operation_id type))
              (sym h)))
          e)
      (λ x k. Ensures-ok k)

release_lease-Change :
    (o : Reconciler) (id : String) (s : PrintStore)
    → Ensures (release_lease o id s) (λ x. Change false s x.1)
unfolding release_lease release_found settle_exhausted
release_lease-Change o id s = elim (Option-cases (find_command id s)) [
  | inl e ↦ rw e (Ensures-ok (unchanged false s))
  | inr (c, e) ↦ rw e (
      Ensures-if (is_releasable o.now c)
        (λ h.
          Ensures-if (is_exhausted o c)
            (λ k. settle_silent-Change o c.id _ _ _ _ c.print_job_id s refl)
            (λ k. release_command-Change o c s))
        (λ h. Ensures-ok (unchanged false s)))
]

settle_overdue-Change :
    (o : Reconciler) (id : String) (s : PrintStore)
    → Ensures (settle_overdue o id s) (λ x. Change false s x.1)
unfolding settle_overdue settle_found_overdue
settle_overdue-Change o id s = elim (Option-cases (find_print_job id s)) [
  | inl e ↦ rw e (Ensures-ok (unchanged false s))
  | inr (job, e) ↦ rw e (
      Ensures-if (ltb_ℤ o.now job.deadline_at) (λ h. Ensures-ok (unchanged false s))
        (λ h.
          settle_silent-Change o job.id _ _ _ _ job.id s
            (rw (find_print_job-id id s job e, e) refl)))
]

before_boundary :
    (status : PrintJobStatus)
    → includes PrintJobStatus-discrete
        (PrintJobStatus.queued ∷ PrintJobStatus.dispatched ∷ [])
        status
      ≡ true
    → is_open_print_job_status status ≡ true
unfolding is_open_print_job_status
before_boundary status h = ground arith

starting :
    (i : ProgressInput) (c : AgentCommand) (j : PrintJob)
    → is_startable i c j ≡ true
    → Advances j (started_job i.now j)
unfolding is_startable started_job
starting i c j h = (
  before_boundary j.status
      (and_true (crosses_submission_boundary i.state && str_eq j.id c.print_job_id) _ h).1,
  printing_open,
  λ k. refl,
)

acknowledge-Change :
    (b : Bool) (s t : PrintStore) (id : String) (accepted : Bool)
    → Change b s t
    → Ensures (acknowledge id accepted t) (λ x. Change b s x.1)
unfolding acknowledge
acknowledge-Change b s t id accepted k =
    Ensures-then (or_throw (find_print_job id t) row_not_found) (λ job. Ensures-ok k)

progress_renewed-Change :
    (i : ProgressInput) (c : AgentCommand) (s : PrintStore) (commands : List AgentCommand)
    → Ensures (progress_renewed i c (record s { commands = commands })) (λ x. Change false s x.1)
unfolding progress_renewed record_print_job_event started_job
progress_renewed-Change i c s commands =
    let started : PrintStore = record s {
      jobs = update_many (is_startable i c) (started_job i.now) s.jobs;
      commands = commands;
    } in
    Ensures-then (or_throw (find_print_job c.print_job_id started) row_not_found) λ job.
      acknowledge-Change false s _ c.print_job_id true (
        advancing (is_startable i c) (started_job i.now) refl (λ x. refl) (starting i c)
          (same_money refl refl) (entry _ refl))

in_session {κ} :
    (P : AgentCommandAck × PrintStore → Type κ) (kiosk_id operation_id : String)
    (run : AgentCommand → PrintStore → Result AgentError (AgentCommandAck × PrintStore))
    (s : PrintStore)
    → ((c : AgentCommand) → Ensures (run c s) P)
    → Ensures (with_session_transaction kiosk_id operation_id run s) P
unfolding with_session_transaction
in_session P kiosk_id operation_id run s h = Ensures-then _ h

progress_for-Change :
    (i : ProgressInput) (c : AgentCommand) (lease : Option ℤ) (s : PrintStore)
    → Ensures (progress_for i c lease s) (λ x. Change false s x.1)
unfolding progress_for progress_held
progress_for-Change i c none s =
    acknowledge-Change false s s c.print_job_id false (unchanged false s)
progress_for-Change i c (some lease) s =
    Ensures-if (matching (is_renewable i c) s.commands == 1) (λ h. progress_renewed-Change i c s _)
      (λ h.
        acknowledge-Change false s _ c.print_job_id false
          (still refl (same_money refl refl) (no_entry refl)))

report_progress-Change :
    (o : AgentOptions) (i : ProgressInput) (s : PrintStore)
    → Ensures (report_progress o i s) (λ x. Change false s x.1)
unfolding report_progress progress_locked
report_progress-Change o i s =
    in_session (λ x. Change false s x.1) i.kiosk_id i.operation_id (progress_locked o i) s
      (λ c. progress_for-Change i c (renewed_lease_expiry o c.id i.claim_token i.now s) s)

pub unrefused {ℓ} :
    {A : Type ℓ} (r : Result CleanupError A) {a : A}
    → ◌≡◌ {A = Result AgentError A} (or_refused r) (ok a)
    → r ≡ ok a
unrefused (ok a) h = cc
unrefused (err e) h = absurd (cc)

result_for-Change :
    (o : AgentOptions) (i : ResultInput) (c : AgentCommand) (lease : Option ℤ) (s : PrintStore)
    → Ensures (result_for o i c lease s) (λ x. Change true s x.1)
unfolding result_for result_held
result_for-Change o i c none s = acknowledge-Change true s s c.print_job_id false (unchanged true s)
result_for-Change o i c (some lease) s =
    Ensures-then (or_throw (find_print_job c.print_job_id s) row_not_found) λ job.
      Ensures-bind (λ x. Change true s x.1)
        (ensures λ x h.
          settling _ x.0 (by_device c.print_job_id (readable_result i job) _ refl) (unrefused _ h))
        (λ x k. acknowledge-Change true s x.1 c.print_job_id x.0.applied k)

report_result-Change :
    (o : AgentOptions) (i : ResultInput) (s : PrintStore)
    → Ensures (report_result o i s) (λ x. Change true s x.1)
unfolding report_result result_locked
report_result-Change o i s =
    in_session (λ x. Change true s x.1) i.kiosk_id i.operation_id (result_locked o i) s
      (λ c. result_for-Change o i c (renewed_lease_expiry o c.id i.claim_token i.held_at s) s)

-- What each transaction does.
pub apply_operation-Change :
    (o : Operation) (s : PrintStore) → Change (is_result o) s (apply_operation o s)
unfolding apply_operation
apply_operation-Change (reserve c now) s = reserve_job-Change c now s
apply_operation-Change (issue i) s = issue_command-Change i s
apply_operation-Change (claim o i) s = claim_one-Change o i s
apply_operation-Change (progress o i) s = committed-Change false _ s (report_progress-Change o i s)
apply_operation-Change (result o i) s = committed-Change true _ s (report_result-Change o i s)
apply_operation-Change (release o id) s = committed-Change false _ s (release_lease-Change o id s)
apply_operation-Change (overdue o id) s = committed-Change false _ s (settle_overdue-Change o id s)
