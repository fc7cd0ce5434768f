-- ===== src/Printer/Submission/Examples.antt =====
-- Submissions and statuses on concrete data.
use kiosk_project.Domain.ObjectKeys.{
  is_session_id, to_lower_case, to_lower_case, session_id_classes,
}
use kiosk_project.Base.{◌≡◌, refl, String, Bool, true, codes, replicate, [], ◌∷◌, some, none}
use kiosk_project.Base.Int.{pos}
use kiosk_project.Domain.PrintJob.{PrintDeviceState, confirmed, settle_print_device_result}
use kiosk_project.Printer.Submission.{
  PrintSubmission, ManifestDocument, Artifact, PrintOperationStatus, assert_submittable,
  with_honest_confidence,
}
use kiosk_project.Printer.Submission.Distinct.{Paired, assert_submittable-Paired}
use kiosk_project.Printer.Submission.Confidence.{settle-with_honest_confidence, result_of}

abbrev any_path : String → Bool
any_path path = true

abbrev document : ManifestDocument
document = record {
  document_id = "d1";
  position = pos 0;
  sha256 = replicate 64 b'a';
  size_bytes = pos 9;
  copies = pos 1;
}

abbrev artifact : Artifact
artifact = record {
  document_id = "d1";
  position = pos 0;
  sha256 = replicate 64 b'a';
  size_bytes = pos 9;
  path = "/tmp/d1";
}

abbrev submission : PrintSubmission
submission = record {
  operation_id = codes "0a1b2c3d-0000-4000-8000-00000000000A";
  physical_sheets = pos 1;
  documents = document ∷ [];
  artifacts = artifact ∷ [];
}

assert_submittable-Paired_example : Paired any_path submission
unfolding assert_submittable is_session_id session_id_classes to_lower_case
assert_submittable-Paired_example = assert_submittable-Paired any_path submission refl

-- A device that says that it finished, and counted no sheet.
abbrev boast : PrintOperationStatus
boast = record {
  operation_id = codes "0a1b2c3d-0000-4000-8000-00000000000a";
  state = PrintDeviceState.completed;
  confidence = confirmed;
  failure_code = none;
  warning_code = none;
  sheets_produced = some (pos 0);
  device_diagnostics = none;
}

settle-with_honest_confidence_example :
    settle_print_device_result (result_of (with_honest_confidence boast))
    ≡ settle_print_device_result (result_of boast)
settle-with_honest_confidence_example = settle-with_honest_confidence boast
