-- ===== src/Printer/Journal/Evidence.antt =====
-- What was handed to a device is never read as if it had not been.
use kiosk_project.Base.{
  codes_eq-true, codes_eq_refl, is_some, Ensures-if, ℕ, ◌≡◌, refl, Bool, true, false, not, ◌&&◌,
  Option, none, some, List, [], ◌∷◌, ◌++◌, codes_eq, find, filter, Bool-cases, inl, inr, Result, ok,
  err, ensured, Ensures, Ensures-ok, Ensures-require, Ensures-then, Ensures-bind,
}
use kiosk_project.Base.Int.{eqb_ℤ, ℤ, ltb_ℤ}
use kiosk_project.Database.Tables.{find-filter, find-holds}
use kiosk_project.Domain.Canonical.{Json}
use kiosk_project.Printer.Submission.{PrinterAdapterError, is_operation_id, operation_id_invalid}
use kiosk_project.Printer.Journal.{
  is_record_name, DeviceOperationRecord, JournalFile, Journal, record_suffix, record_path, is_named,
  write_file, write, record_json, open_record, read, read_file, read_contents, record_job_id,
  record_in, discard, discard_before, is_stale,
}

-- What happens to the directory, with the clock of a write. A write can be cut short.
pub data Step : Type 0 where
  opened : DeviceOperationRecord → ℤ → Step
  attached : (operation_id : List ℕ) (position : ℤ) (job_id : List ℕ) (now : ℤ) → Step
  cut_short : (operation_id : List ℕ) (now : ℤ) → Step
  discarded : (operation_id : List ℕ) → Step
  aged : (cutoff : ℤ) → Step

-- A call that throws leaves the directory as it was.
abbrev pub left : Result PrinterAdapterError Journal → Journal → Journal
left (ok after) before = after
left (err e) before = before

unfoldable pub apply_step : Step → Journal → Journal
unfolding open_record record_job_id write_file discard discard_before
apply_step (opened r now) j = left (open_record r now j) j
apply_step (attached id position job_id now) j = left (record_job_id id position job_id now j) j
apply_step (cut_short id now) j = write_file (id ++ record_suffix) none now j
apply_step (discarded id) j = left (discard id j) j
apply_step (aged cutoff) j = (discard_before cutoff j).1

abbrev pub apply_steps : List Step → Journal → Journal
apply_steps [] j = j
apply_steps (step ∷ steps) j = apply_steps steps (apply_step step j)

-- The step does not discard the operation, and sweeps with no cutoff that is later than the time
-- that its file has when the sweep runs.
abbrev pub Spares : List ℕ → Step → Journal → Type 0
Spares id (discarded i) j = codes_eq (id ++ record_suffix) (i ++ record_suffix) ≡ false
Spares id (aged cutoff) j =
    (f : JournalFile)
    → find (is_named (id ++ record_suffix)) j ≡ some f
    → ltb_ℤ f.modified_at cutoff ≡ false
Spares id _ j = Unit

-- Every step does so, in the directory that it finds.
abbrev pub Spared : List ℕ → List Step → Journal → Type 0
Spared id [] j = Unit
Spared id (step ∷ steps) j = Spares id step j × Spared id steps (apply_step step j)

-- A file of that name.
abbrev Kept : List ℕ → Journal → Type 0
Kept name j = (f : JournalFile) × (find (is_named name) j ≡ some f)

write_file-Kept :
    (name k : List ℕ) (contents : Option Json) (now : ℤ) (j : Journal)
    → Kept name j
    → Kept name (write_file k contents now j)
unfolding write_file
write_file-Kept name k contents now [] (f, e) = absurd (cc)
write_file-Kept name k contents now (g ∷ rest) (f, e) = elim (Bool-cases (is_named k g)) [
  | inl v ↦ rw v (elim (Bool-cases (is_named name g)) [
    | inl w ↦ (record g { contents = contents; modified_at = now }, rw w refl)
    | inr w ↦ (f, rw w (rw w at e))
  ])
  | inr v ↦ rw v (elim (Bool-cases (is_named name g)) [
    | inl w ↦ (g, rw w refl)
    | inr w ↦
        let (x, found) = write_file-Kept name k contents now rest (f, rw w at e) in (x, rw w found)
  ])
]

write_file-written :
    (name : List ℕ) (contents : Option Json) (now : ℤ) (j : Journal)
    → Kept name (write_file name contents now j)
unfolding write_file
write_file-written name contents now [] = (
  record { name = name; is_file = true; contents = contents; modified_at = now },
  rw (codes_eq_refl name) refl,
)
write_file-written name contents now (g ∷ rest) = elim (Bool-cases (is_named name g)) [
  | inl v ↦ (record g { contents = contents; modified_at = now }, rw (v, v) refl)
  | inr v ↦ let (x, found) = write_file-written name contents now rest in (x, rw (v, v) found)
]

write-Kept :
    (name : List ℕ) (r : DeviceOperationRecord) (now : ℤ) (j : Journal)
    → Kept name j
    → Ensures (write r now j) (Kept name)
unfolding write
write-Kept name r now j k =
    Ensures-then (record_path r.operation_id)
      (λ path. Ensures-ok (write_file-Kept name path (some (record_json r)) now j k))

record_in-Kept :
    (name : List ℕ) (position : ℤ) (job_id : List ℕ) (now : ℤ) (r : Option DeviceOperationRecord)
    (j : Journal)
    → Kept name j
    → Ensures (record_in position job_id now r j) (Kept name)
unfolding record_in
record_in-Kept name position job_id now none j k = Ensures-ok k
record_in-Kept name position job_id now (some r) j k =
    Ensures-if (is_some (find (λ d. eqb_ℤ d.position position) r.documents))
      (λ _. write-Kept name _ now j k) (λ _. Ensures-ok k)

record_job_id-Kept :
    (name id : List ℕ) (position : ℤ) (job_id : List ℕ) (now : ℤ) (j : Journal)
    → Kept name j
    → Ensures (record_job_id id position job_id now j) (Kept name)
unfolding record_job_id
record_job_id-Kept name id position job_id now j k =
    Ensures-then (read id j) (λ r. record_in-Kept name position job_id now r j k)

filter-Kept :
    (name : List ℕ) (q : JournalFile → Bool) (j : Journal)
    → Kept name j
    → ((f : JournalFile) → find (is_named name) j ≡ some f → q f ≡ true)
    → Kept name (filter q j)
filter-Kept name q j (f, e) h = (f, find-filter (is_named name) q j f e (h f e))

record_path-named :
    (id : List ℕ)
    → Ensures (record_path id) (λ path. (is_operation_id id ≡ true) × (path ≡ id ++ record_suffix))
unfolding record_path
record_path-named id =
    Ensures-require (is_operation_id id) operation_id_invalid (λ h. Ensures-ok (h, refl))

discard-Kept :
    (name id : List ℕ) (j : Journal)
    → codes_eq name (id ++ record_suffix) ≡ false
    → Kept name j
    → Ensures (discard id j) (Kept name)
unfolding discard
discard-Kept name id j h k = Ensures-bind _ (record_path-named id) λ path named. Ensures-ok (
    filter-Kept name _ j k
      (λ f e. rw (codes_eq-true f.name name (find-holds (is_named name) j f e), named.1, h) refl))

fresh_stays :
    (cutoff : ℤ) (f : JournalFile)
    → ltb_ℤ f.modified_at cutoff ≡ false
    → not (is_stale cutoff f) ≡ true
unfolding is_stale
fresh_stays cutoff f h = elim (Bool-cases (f.is_file && is_record_name f.name)) [
  | inl e ↦ rw (e, h) refl
  | inr e ↦ rw e refl
]

left-Kept :
    (name : List ℕ) (r : Result PrinterAdapterError Journal) (j : Journal)
    → Kept name j
    → Ensures r (Kept name)
    → Kept name (left r j)
left-Kept name (ok after) j k h = ensured h refl
left-Kept name (err e) j k h = k

apply_step-Kept :
    (id : List ℕ) (step : Step) (j : Journal)
    → Spares id step j
    → Kept (id ++ record_suffix) j
    → Kept (id ++ record_suffix) (apply_step step j)
unfolding open_record apply_step discard_before
apply_step-Kept id (opened r now) j h k =
    left-Kept _ _ j k (write-Kept (id ++ record_suffix) r now j k)
apply_step-Kept id (attached i position job_id now) j h k =
    left-Kept _ _ j k (record_job_id-Kept (id ++ record_suffix) i position job_id now j k)
apply_step-Kept id (cut_short i now) j h k =
    write_file-Kept (id ++ record_suffix) (i ++ record_suffix) none now j k
apply_step-Kept id (discarded i) j h k =
    left-Kept _ _ j k (discard-Kept (id ++ record_suffix) i j h k)
apply_step-Kept id (aged cutoff) j h k =
    filter-Kept (id ++ record_suffix) _ j k (λ f e. fresh_stays cutoff f (h f e))

apply_steps-Kept :
    (id : List ℕ) (steps : List Step) (j : Journal)
    → Spared id steps j
    → Kept (id ++ record_suffix) j
    → Kept (id ++ record_suffix) (apply_steps steps j)
apply_steps-Kept id [] j h k = k
apply_steps-Kept id (step ∷ steps) j (h, hs) k =
    apply_steps-Kept id steps (apply_step step j) hs (apply_step-Kept id step j h k)

open_record-Kept :
    (r : DeviceOperationRecord) (now : ℤ) (j : Journal)
    → Ensures
        (open_record r now j)
        (λ t. (is_operation_id r.operation_id ≡ true) × Kept (r.operation_id ++ record_suffix) t)
unfolding open_record write
open_record-Kept r now j = Ensures-bind _ (record_path-named r.operation_id) λ path named.
    Ensures-ok (named.0, rw named.1 (write_file-written _ (some (record_json r)) now j))

-- Once an operation was written down, as is done before it is handed to a device, it reads as one
-- that may have been handed over, never as absent, whatever is opened, attached, cut short in the
-- middle of a write, discarded or swept afterwards, at whatever times and in any order; unless the
-- operation itself is discarded, or a sweep has a cutoff that is later than the time that the
-- operation's file has when the sweep runs.
pub submitted_is_never_absent :
    (r : DeviceOperationRecord) (now : ℤ) (steps : List Step) (j t : Journal)
    → open_record r now j ≡ ok t
    → Spared r.operation_id steps t
    → (found : DeviceOperationRecord) × (read r.operation_id (apply_steps steps t)
        ≡ ok (some found))
unfolding read record_path read_file
submitted_is_never_absent r now steps j t e h =
    let (valid, k) = ensured (open_record-Kept r now j) e in
    let (f, found) = apply_steps-Kept r.operation_id steps t h k in
    (read_contents r.operation_id f.contents, rw (valid, found) refl)
