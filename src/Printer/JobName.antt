-- ===== src/Printer/JobName.antt =====
-- packages/printer-adapters/src/operation-journal.ts: the name that a document is submitted under.
-- A position and a count are natural numbers, and a name is a list of UTF-16 code units.
pub mod Padding
pub mod Places
pub mod RoundTrip
pub mod Examples
use kiosk_project.Base.{
  ℕ, ◌+◌, ◌-◌, Bool, ◌||◌, ◌&&◌, Option, none, some, List, [], ◌∷◌, ◌++◌, codes, if◌then◌else◌,
  ◌==◌, ltb, leb, is_digit, length, take, drop, replicate, matches_classes,
}
use kiosk_project.Domain.PageRanges.{decimal, number, trim}
use kiosk_project.Domain.ObjectKeys.{to_lower_case, is_hex, is_dash}
use kiosk_project.Printer.Submission.{is_operation_id}

unfoldable pub pad : ℕ → List ℕ
unfolding decimal
pad value = replicate (3 - length (decimal value)) b'0' ++ decimal value

unfoldable pub device_job_name : List ℕ → ℕ → ℕ → List ℕ
unfolding pad
device_job_name operation_id position document_count =
    operation_id ++ b'#' ∷ (pad position ++ (codes "of" ++ pad document_count))

pub record ParsedJobName : Type 0 where
  pub operation_id : List ℕ
  pub position : ℕ
  pub document_count : ℕ

-- `[0-9a-f-]`.
abbrev pub is_place : ℕ → Bool
is_place c = is_hex c || is_dash c

-- The character classes of `JOB_NAME_PATTERN`, one for each place.
unfoldable pub job_name_classes : List (ℕ → Bool)
job_name_classes =
    replicate 36 is_place
    ++ ((◌==◌ b'#') ∷ (replicate 3 is_digit ++ ((◌==◌ b'o') ∷ (◌==◌ b'f') ∷ replicate 3 is_digit)))

-- What stands at the places of the pattern's groups.
unfoldable pub read_job_name : List ℕ → ParsedJobName
unfolding to_lower_case
read_job_name name =
    let rest = drop 36 name in
    record {
      operation_id = to_lower_case (take 36 name);
      position = number (take 3 (drop 1 rest));
      document_count = number (take 3 (drop 6 rest));
    }

unfoldable pub is_counted : ParsedJobName → Bool
is_counted p = ltb p.position p.document_count && leb 1 p.document_count

unfoldable pub parse_matching : List ℕ → Option ParsedJobName
unfolding job_name_classes is_operation_id read_job_name is_counted to_lower_case
parse_matching name =
    if matches_classes job_name_classes (to_lower_case name)
      && is_operation_id (take 36 name)
      && is_counted (read_job_name name)
    then some (read_job_name name)
    else none

unfoldable pub parse_device_job_name : List ℕ → Option ParsedJobName
unfolding parse_matching trim
parse_device_job_name value = parse_matching (trim value)
