-- ===== src/Database/PrintJobs/Settle/Money.antt =====
-- What a print that failed owes.
use kiosk_project.Database.PrintJobs.Outcome.{
  SettlementContext, settlement_input, ApplyPrintJobSettlementInput, PrintJobSettlementOutcome,
}
use kiosk_project.Base.{
  str_eq_refl, ◌≤◌, ◌≡◌, refl, ap, ◌∙◌, String, str_eq, eq_iff, Bool, true, false, Option, none,
  some, List, [], ◌∷◌, find, any, arith, Bool-cases, Option-cases, inl, inr, ok, ensured, Ensures,
  Ensures-map,
}
use kiosk_project.Base.Int.{ℤ, pos, eqb_ℤ}
use kiosk_project.Domain.PrintJob.{PrintDeviceResult, settle_print_device_result}
use kiosk_project.Domain.PrintJob.Settlement.{NothingPrinted, refund_iff}
use kiosk_project.Database.Tables.{matching, find-none}
use kiosk_project.Database.Payments.{Payment}
use kiosk_project.Database.PrintJobs.{
  PrintJob, PrintRefund, PrintStore, is_paid_by, is_refund_of, print_refund, upsert_refund,
  compensate_payment, record_print_failure_compensation,
}
use kiosk_project.Database.PrintJobs.Settle.{
  owed_for, record_settlement, settle_job, apply_print_job_settlement, find_print_job,
}
use kiosk_project.Database.PrintJobs.Settle.Writes.{
  left_alone, lost, settled, same_jobs, apply_print_job_settlement-Settlement,
}

-- What the obligation of a settlement does to the refunds: the identifier that it answers, and
-- the refunds afterwards.
pub data Compensated (payments : List Payment) (refunds : List PrintRefund) (job : PrintJob)
    (input : ApplyPrintJobSettlementInput) (r : Option String × List PrintRefund) : Type 0 where
  not_obliged :
      input.refund_obligation ≡ false
      → r ≡ (none, refunds)
      → Compensated payments refunds job input r
  nothing_paid :
      find (is_paid_by job.payment_id job.session_id) payments ≡ none
      → r ≡ (none, refunds)
      → Compensated payments refunds job input r
  paid_nothing :
      (p : Payment)
      → find (is_paid_by job.payment_id job.session_id) payments ≡ some p
      → eqb_ℤ p.amount_minor (pos 0) ≡ true
      → r ≡ (none, refunds)
      → Compensated payments refunds job input r
  owed_already :
      (p : Payment) (there : PrintRefund)
      → find (is_paid_by job.payment_id job.session_id) payments ≡ some p
      → find (is_refund_of p) refunds ≡ some there
      → r ≡ (some there.id, refunds)
      → Compensated payments refunds job input r
  newly_owed :
      (p : Payment)
      → find (is_paid_by job.payment_id job.session_id) payments ≡ some p
      → find (is_refund_of p) refunds ≡ none
      → r
        ≡ (some input.refund_id, print_refund input.refund_id input.now job.session_id p ∷ refunds)
      → Compensated payments refunds job input r

pub owed_for-Compensated :
    (input : ApplyPrintJobSettlementInput) (job : PrintJob) (payments : List Payment)
    (refunds : List PrintRefund)
    → Compensated payments refunds job input (owed_for input job payments refunds)
unfolding owed_for record_print_failure_compensation compensate_payment upsert_refund print_refund
owed_for-Compensated input job payments refunds = elim (Bool-cases input.refund_obligation) [
  | inr e ↦ not_obliged e (rw e refl)
  | inl e ↦ elim (Option-cases (find (is_paid_by job.payment_id job.session_id) payments)) [
    | inl f ↦ nothing_paid f (rw (e, f) refl)
    | inr (p, f) ↦ elim (Bool-cases (eqb_ℤ p.amount_minor (pos 0))) [
      | inl z ↦ paid_nothing p f z (rw (e, f, z) refl)
      | inr z ↦ elim (Option-cases (find (is_refund_of p) refunds)) [
        | inl g ↦ newly_owed p f g (rw (e, f, z, g) refl)
        | inr (there, g) ↦ owed_already p there f g (rw (e, f, z, g) refl)
      ]
    ]
  ]
]

-- No payment is owed back twice for a print that failed.
abbrev pub OwedOnce : List PrintRefund → Type 0
OwedOnce refunds = (p : Payment) → matching (is_refund_of p) refunds ≤ 1

abbrev refunds_after :
    PrintStore → ApplyPrintJobSettlementInput → PrintJob → Option String × List PrintRefund
refunds_after s input job = owed_for input job s.payments s.refunds

data Refunds (s : PrintStore) (input : ApplyPrintJobSettlementInput)
    (r : PrintJobSettlementOutcome × PrintStore) : Type 0 where
  no_refunds : r.0.applied ≡ false → r.1.refunds ≡ s.refunds → Refunds s input r
  refunds_for :
      (job : PrintJob)
      → find_print_job input.print_job_id s ≡ some job
      → r.1.refunds ≡ (refunds_after s input job).1
      → Refunds s input r

apply_print_job_settlement-Refunds :
    (s : PrintStore) (input : ApplyPrintJobSettlementInput)
    → Ensures (apply_print_job_settlement s input) (Refunds s input)
unfolding settle_job record_settlement
apply_print_job_settlement-Refunds s input =
    Ensures-map (apply_print_job_settlement-Settlement s input) λ r w. elim w [
      | left_alone n l ↦ no_refunds (ap (λ o. o.applied) n) (ap (λ t. t.refunds) l)
      | lost job f o n l ↦ no_refunds (ap (λ o. o.applied) n) (ap (λ t. t.refunds) l)
      | settled job f o (_, _, same_jobs _ _ _ _ refunds _ _) ↦ refunds_for job f refunds
    ]

another_refund :
    (x p : Payment) (id session_id : String) (now : ℤ) (refunds : List PrintRefund)
    → find (is_refund_of p) refunds ≡ none
    → matching (is_refund_of x) refunds ≤ 1
    → matching (is_refund_of x) (print_refund id now session_id p ∷ refunds) ≤ 1
unfolding is_refund_of print_refund matching
another_refund x p id session_id now refunds h k = elim (Bool-cases (str_eq p.id x.id)) [
  | inr e ↦ rw e k
  | inl e ↦
      let same_id : p.id ≡ x.id = (eq_iff p.id x.id).0 e in
      let none_yet : matching (is_refund_of x) refunds ≡ 0 =
        rw⁻¹ same_id (find-none (is_refund_of p) refunds h) in
      rw (e, none_yet) (omega arith)
]

-- A settlement of any kind leaves no payment owed back twice for a print that failed.
pub apply_print_job_settlement-OwedOnce :
    (s : PrintStore) (input : ApplyPrintJobSettlementInput)
    → OwedOnce s.refunds
    → Ensures (apply_print_job_settlement s input) (λ r. OwedOnce r.1.refunds)
apply_print_job_settlement-OwedOnce s input h =
    Ensures-map (apply_print_job_settlement-Refunds s input) λ r w. elim w [
      | no_refunds n e ↦ rw e h
      | refunds_for job f e ↦ rw e λ x. elim (owed_for-Compensated input job s.payments s.refunds) [
        | not_obliged _ c ↦ rw c (h x)
        | nothing_paid _ c ↦ rw c (h x)
        | paid_nothing _ _ _ c ↦ rw c (h x)
        | owed_already _ _ _ _ c ↦ rw c (h x)
        | newly_owed p _ g c ↦
            rw c (another_refund x p input.refund_id job.session_id input.now s.refunds g (h x))
      ]
    ]

any-find :
    (q : PrintRefund → Bool) (rs : List PrintRefund) (r : PrintRefund)
    → find q rs ≡ some r
    → any q rs ≡ true
any-find q [] r e = absurd (cc)
any-find q (x ∷ rs) r e = ground (arith, any-find q rs r)

-- An obligation to give money back leaves a refund of the payment, if it has been paid.
owed_for-refund :
    (input : ApplyPrintJobSettlementInput) (job : PrintJob) (p : Payment) (payments : List Payment)
    (refunds : List PrintRefund)
    → find (is_paid_by job.payment_id job.session_id) payments ≡ some p
    → eqb_ℤ p.amount_minor (pos 0) ≡ false
    → input.refund_obligation ≡ true
    → any (is_refund_of p) (owed_for input job payments refunds).1 ≡ true
unfolding owed_for record_print_failure_compensation compensate_payment upsert_refund print_refund
    is_refund_of
owed_for-refund input job p payments refunds f z e =
    elim (Option-cases (find (is_refund_of p) refunds)) [
      | inl g ↦ rw (e, f, z, g, str_eq_refl p.id) refl
      | inr (there, g) ↦ rw (e, f, z, g) (any-find (is_refund_of p) refunds there g)
    ]

owed_for-none :
    (input : ApplyPrintJobSettlementInput) (job : PrintJob) (payments : List Payment)
    (refunds : List PrintRefund)
    → input.refund_obligation ≡ false
    → (owed_for input job payments refunds).1 ≡ refunds
unfolding owed_for
owed_for-none input job payments refunds h = rw h refl

-- When a device's result settles a job whose payment was captured, applied and is not zero: if
-- the device proved that nothing was printed, the payment is owed back; and otherwise no refund is
-- recorded.
pub settled_result_refunds :
    (s t : PrintStore) (result : PrintDeviceResult) (c : SettlementContext) (print_job_id : String)
    (job : PrintJob) (p : Payment) (outcome : PrintJobSettlementOutcome)
    → find_print_job print_job_id s ≡ some job
    → find (is_paid_by job.payment_id job.session_id) s.payments ≡ some p
    → eqb_ℤ p.amount_minor (pos 0) ≡ false
    → apply_print_job_settlement s
        (settlement_input print_job_id (settle_print_device_result result) c)
      ≡ ok (outcome, t)
    → outcome.applied ≡ true
    → (NothingPrinted result → any (is_refund_of p) t.refunds ≡ true)
      × (¬ NothingPrinted result → t.refunds ≡ s.refunds)
settled_result_refunds s t result c id job p outcome f g z e a =
    let input = settlement_input id (settle_print_device_result result) c in
    elim (ensured (apply_print_job_settlement-Refunds s input) e) [
      | no_refunds n _ ↦ absurd (cc)
      | refunds_for other h k ↦
          let same_row : other ≡ job = cc in
          (
            λ n.
                rw (k, same_row)
                  (owed_for-refund input job p s.payments s.refunds g z ((refund_iff result).1 n)),
            λ n. elim (Bool-cases input.refund_obligation) [
              | inl o ↦ absurd (n ((refund_iff result).0 o))
              | inr o ↦ k ∙ owed_for-none input other s.payments s.refunds o
            ],
          )
    ]
