-- ===== src/Database/PrintJobs/Numbering.antt =====
-- The numbers of a job's ledger.
use kiosk_project.Base.{
  ℕ, zero, suc, ◌+◌, max, ◌≡◌, refl, ap, String, str_eq, eq_iff, List, [], ◌∷◌, if◌then◌else◌,
  default_to, arith, Bool-cases, inl, inr,
}
use kiosk_project.Database.PrintJobs.{
  PrintJobEvent, PrintJobEventInput, PrintStore, latest_sequence, next_print_job_event_sequence,
  record_print_job_event,
}

-- The numbers of a job's events, latest write first.
abbrev pub numbers : String → List PrintJobEvent → List ℕ
numbers id [] = []
numbers id (e ∷ es) =
    let rest = numbers id es in if str_eq e.entry.print_job_id id then e.sequence ∷ rest else rest

abbrev pub countdown : ℕ → List ℕ
countdown zero = []
countdown (suc n) = suc n ∷ countdown n

-- Every job's events are numbered from 1 without a gap, in the order in which they were written.
abbrev pub Numbered : List PrintJobEvent → Type 0
Numbered events = (id : String) → (n : ℕ) × (numbers id events ≡ countdown n)

abbrev largest : List ℕ → ℕ
largest [] = 0
largest (n ∷ ns) = max n (largest ns)

latest-largest :
    (id : String) (es : List PrintJobEvent)
    → default_to (latest_sequence es id) 0 ≡ largest (numbers id es)
unfolding latest_sequence
latest-largest id [] = refl
latest-largest id (e ∷ es) = ground (arith, latest-largest id es)

largest-countdown : (n : ℕ) → largest (countdown n) ≡ n
largest-countdown zero = refl
largest-countdown (suc n) = omega (arith, largest-countdown n)

next_largest :
    (id : String) (es : List PrintJobEvent)
    → next_print_job_event_sequence es id ≡ largest (numbers id es) + 1
unfolding next_print_job_event_sequence
next_largest id es = ap (λ n. n + 1) (latest-largest id es)

-- An entry keeps every job's ledger numbered from 1 without a gap.
pub record_print_job_event-Numbered :
    (input : PrintJobEventInput) (s : PrintStore)
    → Numbered s.events
    → Numbered (record_print_job_event input s).events
unfolding record_print_job_event
record_print_job_event-Numbered input s h id =
    let (n, e) = h id in
    elim (Bool-cases (str_eq input.print_job_id id)) [
      | inl k ↦
          let same_id : input.print_job_id ≡ id = (eq_iff input.print_job_id id).0 k in
          (
            suc n,
            rw (k, same_id, e, next_largest id s.events, e, largest-countdown n)
                (ap (λ m. m ∷ countdown n) (omega arith)),
          )
      | inr k ↦ (n, rw k e)
    ]
