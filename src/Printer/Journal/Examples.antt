-- ===== src/Printer/Journal/Examples.antt =====
-- The journal on concrete data.
use kiosk_project.Domain.ObjectKeys.{is_session_id, session_id_classes, to_lower_case}
use kiosk_project.Printer.Submission.{is_operation_id}
use kiosk_project.Base.{
  sym, ap, Bool, true, Option, ◌≡◌, refl, codes, List, [], ◌∷◌, ◌++◌, ok, some, none, true, ℕ,
}
use kiosk_project.Base.Int.{ltb_ℤ, pos}
use kiosk_project.Printer.Journal.{
  open_record, record_job_id, write_file, is_operation_id, JournalFile, Journal,
  DeviceOperationRecord, record_suffix, read, record_json, as_record,
}
use kiosk_project.Printer.Journal.Evidence.{
  submitted_is_never_absent, Step, Spared, apply_step, apply_steps, attached, cut_short, aged,
  discarded,
}

abbrev id : List ℕ
id = codes "0a1b2c3d-0000-4000-8000-00000000000a"

abbrev other_id : List ℕ
other_id = codes "0a1b2c3d-0000-4000-8000-00000000000b"

abbrev written : DeviceOperationRecord
written = record {
  operation_id = id;
  queue_name = codes "Q";
  submitted_at = codes "T";
  document_count = pos 1;
  documents = record { position = pos 0; job_id = none; job_name = codes "N" } ∷ [];
}

abbrev file : JournalFile
unfolding record_json
file = record {
  name = id ++ record_suffix;
  is_file = true;
  contents = some (record_json written);
  modified_at = pos 10;
}

abbrev journal : Journal
journal = file ∷ []

read-written : as_record id (record_json written) ≡ written
unfolding as_record record_json
read-written = refl

abbrev later : List Step
later =
    attached id (pos 0) (codes "7") (pos 20)
    ∷ cut_short id (pos 30)
    ∷ aged (pos 20)
    ∷ discarded other_id
    ∷ []

abbrev is_early : Option JournalFile → Bool
is_early none = true
is_early (some f) = ltb_ℤ f.modified_at (pos 20)

later-Spared : Spared id later journal
unfolding apply_step record_job_id write_file is_operation_id is_session_id session_id_classes
    to_lower_case
later-Spared = (tt, (tt, ((λ f e. sym (ap is_early e)), (refl, tt))))

submitted_is_never_absent_example :
    (r : DeviceOperationRecord) × (read id (apply_steps later journal) ≡ ok (some r))
unfolding open_record is_operation_id is_session_id session_id_classes to_lower_case
submitted_is_never_absent_example =
    submitted_is_never_absent written (pos 10) later [] journal refl later-Spared
