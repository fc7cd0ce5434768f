-- ===== src/Database/PrintJobs/Settle/Once.antt =====
-- A print job is settled once.
use kiosk_project.Database.PrintJobs.Outcome.{
  ApplyPrintJobSettlementInput, PrintJobSettlementOutcome, not_applied, is_open_print_job_status,
  job_status_of,
}
use kiosk_project.Base.{
  eq_iff, ◌≡◌, refl, ◌∙◌, ap, String, str_eq, if◌then◌else◌, str_eq_refl, same_refl, true, false,
  some, Bool-cases, inl, inr, ok, Ensures, Ensures-map, ensured, same-true, and_true,
}
use kiosk_project.Domain.PrintJob.{PrintJobSettledStatus}
use kiosk_project.Database.Tables.{update_many, find-holds, find-update_many, updated_row}
use kiosk_project.Database.PrintJobs.{PrintJob, PrintJobStatus-discrete, PrintStore}
use kiosk_project.Database.PrintJobs.Settle.Writes.{
  left_alone, lost, settled, same_jobs, apply_print_job_settlement-Settlement,
}
use kiosk_project.Database.PrintJobs.Settle.{
  is_same_job, settled_job, settle_job, record_settlement, settle_found, find_print_job,
  apply_print_job_settlement,
}

-- What a settlement does to the jobs.
pub data Jobs (s : PrintStore) (input : ApplyPrintJobSettlementInput)
    (r : PrintJobSettlementOutcome × PrintStore) : Type 0 where
  no_jobs : r.0 ≡ not_applied → r.1 ≡ s → Jobs s input r
  one_job :
      (job : PrintJob)
      → find_print_job input.print_job_id s ≡ some job
      → is_open_print_job_status job.status ≡ true
      → r.1.jobs ≡ update_many (is_same_job job) (settled_job input) s.jobs
      → Jobs s input r

pub apply_print_job_settlement-Jobs :
    (s : PrintStore) (input : ApplyPrintJobSettlementInput)
    → Ensures (apply_print_job_settlement s input) (Jobs s input)
unfolding settle_job record_settlement
apply_print_job_settlement-Jobs s input =
    Ensures-map (apply_print_job_settlement-Settlement s input) λ r w. elim w [
      | left_alone n l ↦ no_jobs n l
      | lost job f o n l ↦ one_job job f o (ap (λ t. t.jobs) l)
      | settled job f o (_, _, same_jobs j _ _ _ _ _ _) ↦ one_job job f o j
    ]

-- The job has an outcome.
abbrev pub Closed : String → PrintJob → PrintStore → Type 0
Closed id job s = (find_print_job id s ≡ some job) × (is_open_print_job_status job.status ≡ false)

settled_closed :
    (status : PrintJobSettledStatus) → is_open_print_job_status (job_status_of status) ≡ false
unfolding is_open_print_job_status PrintJobStatus-discrete
settled_closed PrintJobSettledStatus.completed = refl
settled_closed PrintJobSettledStatus.failed = refl
settled_closed PrintJobSettledStatus.canceled = refl
settled_closed PrintJobSettledStatus.recovery_required = refl

pub find_print_job-id :
    (id : String) (s : PrintStore) (job : PrintJob) → find_print_job id s ≡ some job → job.id ≡ id
unfolding find_print_job
find_print_job-id id s job e = (eq_iff job.id id).0 (find-holds (λ j. str_eq j.id id) s.jobs job e)

find_settled :
    (input : ApplyPrintJobSettlementInput) (job : PrintJob) (id : String) (s t : PrintStore)
    → t.jobs ≡ update_many (is_same_job job) (settled_job input) s.jobs
    → find_print_job id t ≡ updated_row (is_same_job job) (settled_job input) (find_print_job id s)
unfolding find_print_job settled_job
find_settled input job id s t e =
    rw e (find-update_many (λ j. str_eq j.id id) _ _ s.jobs (λ j. refl))

not_same :
    (job other : PrintJob)
    → is_open_print_job_status job.status ≡ true
    → is_open_print_job_status other.status ≡ false
    → is_same_job job other ≡ false
unfolding is_same_job
not_same job other h k = elim (Bool-cases (is_same_job job other)) [
  | inl e ↦
      let same_status =
        same-true PrintJobStatus-discrete other.status job.status
          (and_true (str_eq other.id job.id) _ e).1 in
      absurd (cc)
  | inr e ↦ e
]

same_self : (job : PrintJob) → is_same_job job job ≡ true
unfolding is_same_job
same_self job = rw (str_eq_refl job.id, same_refl PrintJobStatus-discrete job.status) refl

-- An outcome is kept, whatever is settled afterwards.
pub Closed-kept :
    (id : String) (job : PrintJob) (s : PrintStore) (input : ApplyPrintJobSettlementInput)
    → Closed id job s
    → Ensures (apply_print_job_settlement s input) (λ r. Closed id job r.1)
Closed-kept id job s input (e, h) = Ensures-map (apply_print_job_settlement-Jobs s input) λ r k.
    elim k [
      | no_jobs n l ↦ rw l (e, h)
      | one_job other f o j ↦ (
        find_settled input other id s r.1 j
            ∙ ap (updated_row (is_same_job other) (settled_job input)) e
            ∙ ap (λ b. some (if b then settled_job input job else job)) (not_same other job o h),
        h,
      )
    ]

-- A settlement that applies leaves its job with the outcome that it was given.
pub apply_print_job_settlement-Closed :
    (s : PrintStore) (input : ApplyPrintJobSettlementInput)
    → Ensures (apply_print_job_settlement s input) (λ r.
      r.0.applied ≡ true
      → (job : PrintJob) × Closed input.print_job_id job r.1
        × (job.status ≡ job_status_of input.status))
unfolding settled_job is_same_job
apply_print_job_settlement-Closed s input =
    Ensures-map (apply_print_job_settlement-Jobs s input) λ r k a. elim k [
      | no_jobs n l ↦ let refused : r.0.applied ≡ false = rw n refl in absurd (cc)
      | one_job job f o j ↦ (
        settled_job input job,
        (
          find_settled input job input.print_job_id s r.1 j
              ∙ ap (updated_row (is_same_job job) (settled_job input)) f
              ∙ ap (λ b. some (if b then settled_job input job else job)) (same_self job),
          settled_closed input.status,
        ),
        refl,
      )
    ]

settled_no_op :
    (s : PrintStore) (input : ApplyPrintJobSettlementInput) (job : PrintJob)
    → Closed input.print_job_id job s
    → apply_print_job_settlement s input ≡ ok (not_applied, s)
unfolding apply_print_job_settlement settle_found
settled_no_op s input job (e, h) = rw (e, h) refl

-- Once a settlement of a job has applied, another settlement of the job, whoever brings it, is
-- answered as not applied and changes no table.
pub apply_print_job_settlement-once :
    (s t : PrintStore) (first second : ApplyPrintJobSettlementInput)
    (outcome : PrintJobSettlementOutcome)
    → apply_print_job_settlement s first ≡ ok (outcome, t)
    → outcome.applied ≡ true
    → second.print_job_id ≡ first.print_job_id
    → apply_print_job_settlement t second ≡ ok (not_applied, t)
apply_print_job_settlement-once s t first second outcome e a same_job =
    let (job, closed, _) = ensured (apply_print_job_settlement-Closed s first) e a in
    settled_no_op t second job (rw same_job closed)
