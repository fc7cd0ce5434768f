-- ===== src/Printer/Submission.antt =====
-- packages/printer-adapters/src/submission.ts: what every adapter checks before a device is touched,
-- and how far it believes what a device says. Diagnostics are a text.
pub mod Confidence
pub mod Distinct
pub mod Examples
pub mod Repeats
use kiosk_project.Base.{
  ℕ, String, str_eq, Bool, true, false, not, ◌&&◌, ◌||◌, Option, none, some, List, [], ◌∷◌, any,
  if◌then◌else◌, ◌==◌, is_digit, in_range, length, replicate, foldl, matches_classes, codes_eq,
  Result, ok, err, ◌>>=◌, ◌>>◌, require, refuse_if,
}
use kiosk_project.Base.Int.{ℤ, pos, ltb_ℤ, eqb_ℤ}
use kiosk_project.Base.Numbers.{is_safe_integer}
use kiosk_project.Base.Maps.{lookup, insert}
use kiosk_project.Domain.PrintJob.{
  PrintDeviceState, PrintConfidence, confirmed, unconfirmed, is_confirmed, some_sheets, no_sheets,
}
use kiosk_project.Domain.ObjectKeys.{is_session_id, to_lower_case}

pub data PrinterAdapterError : Type 0 where
  operation_id_invalid manifest_invalid artifact_unavailable : PrinterAdapterError

-- The pattern is that of a session's identifier; its flag ignores the case of letters.
unfoldable pub is_operation_id : List ℕ → Bool
is_operation_id operation_id = is_session_id (to_lower_case operation_id)

pub record ManifestDocument : Type 0 where
  pub document_id : String
  pub position : ℤ
  pub sha256 : List ℕ
  pub size_bytes : ℤ
  pub copies : ℤ

pub record Artifact : Type 0 where
  pub document_id : String
  pub position : ℤ
  pub sha256 : List ℕ
  pub size_bytes : ℤ
  pub path : String

pub record PrintSubmission : Type 0 where
  pub operation_id : List ℕ
  pub physical_sheets : ℤ
  pub documents : List ManifestDocument
  pub artifacts : List Artifact

-- `new Map(documents.map(...))`.
unfoldable pub expected_by_document : List ManifestDocument → List (String × ManifestDocument)
unfolding insert
expected_by_document documents = foldl (λ m d. insert d.document_id d m) [] documents

abbrev pub is_lower_hex : ℕ → Bool
is_lower_hex c = is_digit c || in_range b'a' b'f' c

unfoldable pub is_sha256 : List ℕ → Bool
is_sha256 = matches_classes (replicate 64 is_lower_hex)

-- An artifact that agrees with what the manifest says of its document, and is well formed.
unfoldable pub agrees : (String → Bool) → ManifestDocument → Artifact → Bool
unfolding is_sha256
agrees is_absolute expected artifact =
    eqb_ℤ expected.position artifact.position
    && codes_eq expected.sha256 artifact.sha256
    && eqb_ℤ expected.size_bytes artifact.size_bytes
    && is_absolute artifact.path
    && not (ltb_ℤ artifact.size_bytes (pos 1))
    && is_sha256 artifact.sha256
    && is_safe_integer artifact.position
    && not (ltb_ℤ artifact.position (pos 0))
    && not (ltb_ℤ (pos 999) artifact.position)

unfoldable pub is_expected : (String → Bool) → Option ManifestDocument → Artifact → Bool
unfolding agrees
is_expected is_absolute none artifact = false
is_expected is_absolute (some expected) artifact = agrees is_absolute expected artifact

-- The loop, with the documents and the positions that it has seen.
unfoldable pub assert_artifacts :
    (String → Bool)
    → List (String × ManifestDocument)
    → List String
    → List ℤ
    → List Artifact
    → Result PrinterAdapterError (Unit {0})
unfolding is_expected lookup
assert_artifacts is_absolute expected seen_documents seen_positions [] = ok tt
assert_artifacts is_absolute expected seen_documents seen_positions (a ∷ rest) = do
  require
      (is_expected is_absolute (lookup a.document_id expected) a
        && not (any (str_eq a.document_id) seen_documents)
        && not (any (eqb_ℤ a.position) seen_positions))
      artifact_unavailable
  assert_artifacts is_absolute expected (a.document_id ∷ seen_documents)
      (a.position ∷ seen_positions) rest

unfoldable pub is_malformed : PrintSubmission → Bool
is_malformed submission =
    not (length submission.documents == length submission.artifacts)
    || length submission.artifacts == 0
    || ltb_ℤ submission.physical_sheets (pos 1)
    || any (λ d. ltb_ℤ d.copies (pos 1)) submission.documents

unfoldable pub assert_submittable :
    (String → Bool) → PrintSubmission → Result PrinterAdapterError (Unit {0})
unfolding is_operation_id is_malformed expected_by_document assert_artifacts
assert_submittable is_absolute submission = do
  require (is_operation_id submission.operation_id) operation_id_invalid
  refuse_if (is_malformed submission) manifest_invalid
  let expected = expected_by_document submission.documents
  require (length expected == length submission.documents) manifest_invalid
  assert_artifacts is_absolute expected [] [] submission.artifacts

pub record PrintOperationStatus : Type 0 where
  pub operation_id : List ℕ
  pub state : PrintDeviceState
  pub confidence : PrintConfidence
  pub failure_code : Option String
  pub warning_code : Option String
  pub sheets_produced : Option ℤ
  pub device_diagnostics : Option String

-- What a confirmed status must show to stay confirmed.
unfoldable pub is_confirmable : PrintDeviceState → Option ℤ → Bool
is_confirmable PrintDeviceState.completed sheets_produced = some_sheets sheets_produced
is_confirmable PrintDeviceState.failed sheets_produced = no_sheets sheets_produced
is_confirmable PrintDeviceState.canceled sheets_produced = no_sheets sheets_produced
is_confirmable PrintDeviceState.not_submitted sheets_produced = no_sheets sheets_produced
is_confirmable _ sheets_produced = false

unfoldable pub with_honest_confidence : PrintOperationStatus → PrintOperationStatus
unfolding is_confirmable
with_honest_confidence status =
    if is_confirmed status.confidence && not (is_confirmable status.state status.sheets_produced)
    then record status { confidence = unconfirmed }
    else status

unfoldable pub unknown_status : List ℕ → PrintOperationStatus
unknown_status operation_id = record {
  operation_id = operation_id;
  state = PrintDeviceState.unknown;
  confidence = unconfirmed;
  failure_code = some "SUBMISSION_UNCONFIRMED";
  warning_code = none;
  sheets_produced = none;
  device_diagnostics = none;
}
