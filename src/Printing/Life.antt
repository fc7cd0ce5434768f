-- ===== src/Printing/Life.antt =====
-- What holds of a print job whatever transactions of services/worker/src/jobs/dispatch-print.ts and
-- services/api/src/modules/print-jobs/agent-service.ts run, in whatever order.
use kiosk_project.Database.PrintJobs.Outcome.{
  ApplyPrintJobSettlementInput, PrintJobSettlementOutcome, is_open_print_job_status,
}
use kiosk_project.Base.{
  ◌≡◌, ◌⊎◌, refl, ap, ◌∙◌, String, str_eq, Bool, true, false, some, List, [], ◌∷◌, All,
  if◌then◌else◌, Bool-cases, inl, inr, ok, ensured, same-true, and_true, subst,
}
use kiosk_project.Domain.PrintJob.{PrintJobSettledStatus}
use kiosk_project.Domain.PrintJob.Settlement.{recovery_iff}
use kiosk_project.Database.Tables.{update_many, find-update_many, updated_row}
use kiosk_project.Database.PrintJobs.{
  PrintJob, PrintJobStatus, PrintJobStatus-discrete, PrintStore, record_print_job_event,
}
use kiosk_project.Database.PrintJobs.Numbering.{Numbered, record_print_job_event-Numbered}
use kiosk_project.Database.PrintJobs.Settle.{
  apply_print_job_settlement, find_print_job, is_same_job, settled_job, settlement_event,
  record_settlement, settle_job,
}
use kiosk_project.Database.PrintJobs.Settle.Writes.{
  left_alone, lost, settled, same_jobs, apply_print_job_settlement-Settlement,
}
use kiosk_project.Database.PrintJobs.Settle.Once.{
  Closed, Closed-kept, no_jobs, one_job, apply_print_job_settlement-Jobs,
}
use kiosk_project.Database.PrintJobs.Settle.Money.{OwedOnce, apply_print_job_settlement-OwedOnce}
use kiosk_project.Worker.DispatchPrint.Reconcile.{
  settlement_of_silence, went_quiet, may_have_started,
}
use kiosk_project.Printing.{Operation, apply_operation, run, is_result}
use kiosk_project.Printing.Changes.{
  Change, still, advancing, settling, Logged, no_entry, entry, same_money, Origin, by_silence,
  apply_operation-Change,
}

-- The row of a job after an update that keeps every identifier.
find_updated :
    (p : PrintJob → Bool) (f : PrintJob → PrintJob) (id : String) (s t : PrintStore)
    (job : PrintJob)
    → t.jobs ≡ update_many p f s.jobs
    → ((j : PrintJob) → (f j).id ≡ j.id)
    → find_print_job id s ≡ some job
    → find_print_job id t ≡ some (if p job then f job else job)
unfolding find_print_job
find_updated p f id s t job e k h =
    rw e (find-update_many (λ j. str_eq j.id id) p f s.jobs (λ j. ap (λ i. str_eq i id) (k j)))
    ∙ ap (updated_row p f) h

same_row :
    (id : String) (s t : PrintStore) → t.jobs ≡ s.jobs → find_print_job id t ≡ find_print_job id s
unfolding find_print_job
same_row id s t e = rw e refl

Change-Closed :
    (b : Bool) (s t : PrintStore) (id : String) (job : PrintJob)
    → Change b s t
    → Closed id job s
    → Closed id job t
Change-Closed b s t id job (still j _ _) (e, h) = (same_row id s t j ∙ e, h)
Change-Closed b s t id job (advancing p f j k a _ _) (e, h) = elim (Bool-cases (p job)) [
  | inl u ↦ let opened = (a job u).0 in absurd (cc)
  | inr u ↦ (find_updated p f id s t job j k e ∙ ap (λ v. some (if v then f job else job)) u, h)
]
Change-Closed b s t id job (settling input outcome o e) c = ensured (Closed-kept id job s input c) e

-- A job that has an outcome keeps its row as it is, through every further dispatch, delivery,
-- claim, report, expiry and deadline, in any order.
pub run-Closed :
    (os : List Operation) (s : PrintStore) (id : String) (job : PrintJob)
    → Closed id job s
    → Closed id job (run os s)
run-Closed [] s id job c = c
run-Closed (o ∷ os) s id job c =
    run-Closed os (apply_operation o s) id job
      (Change-Closed _ s _ id job (apply_operation-Change o s) c)

Logged-Numbered : (s t : PrintStore) → Logged s t → Numbered s.events → Numbered t.events
Logged-Numbered s t (no_entry e) h = rw e h
Logged-Numbered s t (entry input e) h = rw e (record_print_job_event-Numbered input s h)

settlement-Numbered :
    (s : PrintStore) (input : ApplyPrintJobSettlementInput)
    (r : PrintJobSettlementOutcome × PrintStore)
    → apply_print_job_settlement s input ≡ ok r
    → Logged s r.1
unfolding record_settlement settle_job record_print_job_event
settlement-Numbered s input r e = elim (ensured (apply_print_job_settlement-Settlement s input) e) [
  | left_alone _ l ↦ no_entry (ap (λ t. t.events) l)
  | lost job _ _ _ l ↦ no_entry (ap (λ t. t.events) l)
  | settled job _ _ (_, _, same_jobs _ _ v _ _ _ _) ↦ entry (settlement_event input job _) v
]

Change-Numbered :
    (b : Bool) (s t : PrintStore) → Change b s t → Numbered s.events → Numbered t.events
Change-Numbered b s t (still _ _ l) = Logged-Numbered s t l
Change-Numbered b s t (advancing _ _ _ _ _ _ l) = Logged-Numbered s t l
Change-Numbered b s t (settling input outcome o e) =
    Logged-Numbered s t (settlement-Numbered s input (outcome, t) e)

-- Where every job's ledger is numbered 1, 2, 3, … in the order of its writes, without a gap and
-- without a number given twice, that is so after whatever transactions of the dispatcher and of the
-- kiosk's command channel run, in whatever order.
pub run-Numbered :
    (os : List Operation) (s : PrintStore) → Numbered s.events → Numbered (run os s).events
run-Numbered [] s h = h
run-Numbered (o ∷ os) s h =
    run-Numbered os (apply_operation o s) (Change-Numbered _ s _ (apply_operation-Change o s) h)

Change-OwedOnce :
    (b : Bool) (s t : PrintStore) → Change b s t → OwedOnce s.refunds → OwedOnce t.refunds
Change-OwedOnce b s t (still _ (same_money r _) _) h = rw r h
Change-OwedOnce b s t (advancing _ _ _ _ _ (same_money r _) _) h = rw r h
Change-OwedOnce b s t (settling input outcome o e) h =
    ensured (apply_print_job_settlement-OwedOnce s input h) e

-- Where no payment is owed back twice for a print that failed, that is so after whatever
-- transactions of the dispatcher and of the kiosk's command channel run, in whatever order.
pub run-OwedOnce :
    (os : List Operation) (s : PrintStore) → OwedOnce s.refunds → OwedOnce (run os s).refunds
run-OwedOnce [] s h = h
run-OwedOnce (o ∷ os) s h =
    run-OwedOnce os (apply_operation o s) (Change-OwedOnce _ s _ (apply_operation-Change o s) h)

-- The job may have reached the device, and nothing has been said of it that is not known.
abbrev pub Undecided : String → PrintStore → Type 0
Undecided id s =
    (job : PrintJob) × (find_print_job id s ≡ some job)
    × ((job.status ≡ PrintJobStatus.printing) ⊎ (job.status ≡ PrintJobStatus.recovery_required))

silence_settles :
    (code : String)
    → (settlement_of_silence true code).status ≡ PrintJobSettledStatus.recovery_required
unfolding settlement_of_silence went_quiet
silence_settles code =
    (recovery_iff (went_quiet code)).1
      (λ h. let unproved = h.0 in absurd (cc), λ h. let unproved = h.1 in absurd (cc))

recovery_closed : is_open_print_job_status PrintJobStatus.recovery_required ≡ false
unfolding is_open_print_job_status PrintJobStatus-discrete
recovery_closed = refl

-- An open job that is undecided is at the device.
at_device :
    (job : PrintJob)
    → is_open_print_job_status job.status ≡ true
    → (job.status ≡ PrintJobStatus.printing) ⊎ (job.status ≡ PrintJobStatus.recovery_required)
    → job.status ≡ PrintJobStatus.printing
at_device job o (inl e) = e
at_device job o (inr e) = let closed = recovery_closed in absurd (cc)

silent_status :
    (s : PrintStore) (input : ApplyPrintJobSettlementInput) (job : PrintJob)
    → Origin s input false
    → find_print_job input.print_job_id s ≡ some job
    → job.status ≡ PrintJobStatus.printing
    → input.status ≡ PrintJobSettledStatus.recovery_required
unfolding may_have_started PrintJobStatus-discrete
silent_status s input job (by_silence id code c e) f p =
    let same_id : input.print_job_id ≡ id = rw e refl in
    let found : find_print_job id s ≡ some job = rw⁻¹ same_id f in
    rw (e, found, p) (silence_settles code)

same_job_status : (job other : PrintJob) → is_same_job job other ≡ true → other.status ≡ job.status
unfolding is_same_job
same_job_status job other h =
    same-true PrintJobStatus-discrete other.status job.status
      (and_true (str_eq other.id job.id) _ h).1

Change-Undecided :
    (id : String) (s t : PrintStore) → Change false s t → Undecided id s → Undecided id t
unfolding settled_job
Change-Undecided id s t (still j _ _) (job, e, u) = (job, same_row id s t j ∙ e, u)
Change-Undecided id s t (advancing p f j k a _ _) (job, e, u) = elim (Bool-cases (p job)) [
  | inl v ↦ (
    f job,
    find_updated p f id s t job j k e ∙ ap (λ w. some (if w then f job else job)) v,
    inl ((a job v).2 (at_device job (a job v).0 u)),
  )
  | inr v ↦
      (job, find_updated p f id s t job j k e ∙ ap (λ w. some (if w then f job else job)) v, u)
]
Change-Undecided id s t (settling input outcome origin e) (job, f, u) =
    elim (ensured (apply_print_job_settlement-Jobs s input) e) [
      | no_jobs _ l ↦ rw l (job, f, u)
      | one_job other g o j ↦
          let row =
            find_updated (is_same_job other) (settled_job input) id s t job j (λ x. refl) f in
          elim (Bool-cases (is_same_job other job)) [
            | inr v ↦ (job, row ∙ ap (λ w. some (if w then settled_job input job else job)) v, u)
            | inl v ↦
                let same_status = same_job_status other job v in
                let opened : is_open_print_job_status job.status ≡ true = rw same_status o in
                let at : other.status ≡ PrintJobStatus.printing =
                  rw⁻¹ same_status (at_device job opened u) in
                (
                  settled_job input job,
                  row ∙ ap (λ w. some (if w then settled_job input job else job)) v,
                  inr (rw (silent_status s input other origin g at) refl),
                )
          ]
    ]

-- Once a job may have reached the device, nothing but a device's own result can call it a failure,
-- a cancellation or a success: as long as no device reports a result, whatever is dispatched,
-- claimed, reported as progress, released or past its deadline, in any order, the job stays at the
-- device or goes to recovery.
pub run-Undecided :
    (os : List Operation) (s : PrintStore) (id : String)
    → Undecided id s
    → All (λ o. is_result o ≡ false) os
    → Undecided id (run os s)
run-Undecided [] s id u h = u
run-Undecided (o ∷ os) s id u (h, hs) =
    run-Undecided os (apply_operation o s) id
      (Change-Undecided id s _
        (subst (λ b. Change b s (apply_operation o s)) h (apply_operation-Change o s)) u)
      hs
