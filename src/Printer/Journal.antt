-- ===== src/Printer/Journal.antt =====
-- packages/printer-adapters/src/operation-journal.ts: what this machine already told a device. The
-- directory is a list of files by name. A file's contents are the value that `JSON.parse` makes of
-- them, or `none` where it throws; numbers that are no integers are left out. The containment of
-- paths, which the pattern of a name already gives, belongs to the platform's path library.
pub mod Evidence
pub mod Examples
use kiosk_project.Base.{
  ℕ, suc, ◌+◌, Bool, true, false, not, ◌&&◌, ◌||◌, Option, none, some, List, [], ◌∷◌, ◌++◌, codes,
  codes_eq, if◌then◌else◌, find, filter, length, ◌-◌, drop, take, default_to, reverse, starts_with,
  is_some, Result, ok, err, ◌>>=◌, ◌>>◌, require,
}
use kiosk_project.Base.Int.{ℤ, pos, ltb_ℤ, eqb_ℤ}
use kiosk_project.Base.Numbers.{is_safe_integer}
use kiosk_project.Domain.Canonical.{
  Json, null, number, text, array, object, Items, no_items, item, Entries, no_entries, entry,
  undefined_entry,
}
use kiosk_project.Printer.Submission.{PrinterAdapterError, is_operation_id, operation_id_invalid}

pub record DeviceOperationDocument : Type 0 where
  pub position : ℤ
  pub job_id : Option (List ℕ)
  pub job_name : List ℕ

pub record DeviceOperationRecord : Type 0 where
  pub operation_id : List ℕ
  pub queue_name : List ℕ
  pub submitted_at : List ℕ
  pub document_count : ℤ
  pub documents : List DeviceOperationDocument

abbrev pub record_suffix : List ℕ
record_suffix = codes ".json"

-- An entry of the directory.
pub record JournalFile : Type 0 where
  pub name : List ℕ
  pub is_file : Bool
  pub contents : Option Json
  pub modified_at : ℤ

abbrev pub Journal : Type 0
Journal = List JournalFile

-- `source.key` of an object, and of a value that is none.
unfoldable pub field : List ℕ → Entries → Option Json
field key no_entries = none
field key (entry k value rest) = if codes_eq k key then some value else field key rest
field key (undefined_entry k rest) = if codes_eq k key then none else field key rest

unfoldable pub entries_of : Json → Entries
entries_of (object entries) = entries
entries_of _ = no_entries

unfoldable pub items_of : Option Json → Items
items_of (some (array items)) = items
items_of _ = no_items

unfoldable pub count_items : Items → ℕ
count_items no_items = 0
count_items (item value rest) = suc (count_items rest)

unfoldable pub text_of : Option Json → List ℕ
text_of (some (text t)) = t
text_of _ = []

unfoldable pub optional_text : Option Json → Option (List ℕ)
optional_text (some (text t)) = some t
optional_text _ = none

unfoldable pub safe_integer_of : Option Json → Option ℤ
safe_integer_of (some (number n)) = if is_safe_integer n then some n else none
safe_integer_of _ = none

-- One entry of the documents, without those that have no position.
unfoldable pub with_document :
    Option ℤ → Entries → List DeviceOperationDocument → List DeviceOperationDocument
unfolding field optional_text text_of
with_document none document rest = rest
with_document (some position) document rest =
    record {
      position = position;
      job_id = optional_text (field (codes "jobId") document);
      job_name = text_of (field (codes "jobName") document);
    }
    ∷ rest

unfoldable pub documents_of : Items → List DeviceOperationDocument
unfolding with_document safe_integer_of field entries_of
documents_of no_items = []
documents_of (item value rest) =
    with_document (safe_integer_of (field (codes "position") (entries_of value))) (entries_of value)
      (documents_of rest)

unfoldable pub as_record : List ℕ → Json → DeviceOperationRecord
unfolding entries_of items_of field text_of safe_integer_of count_items documents_of
as_record operation_id value =
    let source = entries_of value in
    let documents = items_of (field (codes "documents") source) in
    record {
      operation_id = operation_id;
      queue_name = text_of (field (codes "queueName") source);
      submitted_at = text_of (field (codes "submittedAt") source);
      document_count =
          default_to (safe_integer_of (field (codes "documentCount") source))
            (pos (count_items documents));
      documents = documents_of documents;
    }

-- `JSON.stringify` of a record, as the value that it is read back as.
unfoldable pub job_id_json : Option (List ℕ) → Json
job_id_json none = null
job_id_json (some job_id) = text job_id

unfoldable pub documents_json : List DeviceOperationDocument → Items
unfolding job_id_json
documents_json [] = no_items
documents_json (d ∷ rest) =
    item
      (object (
        entry (codes "position") (number d.position) (
          entry (codes "jobId") (job_id_json d.job_id)
            (entry (codes "jobName") (text d.job_name) no_entries))))
      (documents_json rest)

unfoldable pub record_json : DeviceOperationRecord → Json
unfolding documents_json
record_json r = object (
    entry (codes "operationId") (text r.operation_id) (
      entry (codes "queueName") (text r.queue_name) (
        entry (codes "submittedAt") (text r.submitted_at) (
          entry (codes "documentCount") (number r.document_count)
            (entry (codes "documents") (array (documents_json r.documents)) no_entries)))))

unfoldable pub record_path : List ℕ → Result PrinterAdapterError (List ℕ)
unfolding is_operation_id
record_path operation_id = do
  require (is_operation_id operation_id) operation_id_invalid
  ok (operation_id ++ record_suffix)

abbrev pub is_named : List ℕ → JournalFile → Bool
is_named name f = codes_eq f.name name

-- `writeFile`: the file of that name is replaced.
unfoldable pub write_file : List ℕ → Option Json → ℤ → Journal → Journal
write_file name contents now [] =
    record { name = name; is_file = true; contents = contents; modified_at = now } ∷ []
write_file name contents now (f ∷ rest) =
    let later = write_file name contents now rest in
    if is_named name f
    then record f { contents = contents; modified_at = now } ∷ rest
    else f ∷ later

unfoldable pub write : DeviceOperationRecord → ℤ → Journal → Result PrinterAdapterError Journal
unfolding record_path write_file record_json
write r now journal = do
  name ← record_path r.operation_id
  ok (write_file name (some (record_json r)) now journal)

-- `open`; the directory is there once it was made.
unfoldable pub open_record :
    DeviceOperationRecord → ℤ → Journal → Result PrinterAdapterError Journal
unfolding write
open_record = write

-- A record that was cut short is still evidence.
unfoldable pub read_contents : List ℕ → Option Json → DeviceOperationRecord
unfolding as_record
read_contents operation_id none = record {
  operation_id = operation_id;
  queue_name = [];
  submitted_at = [];
  document_count = pos 0;
  documents = [];
}
read_contents operation_id (some value) = as_record operation_id value

unfoldable pub read_file : List ℕ → Option JournalFile → Option DeviceOperationRecord
unfolding read_contents
read_file operation_id none = none
read_file operation_id (some f) = some (read_contents operation_id f.contents)

unfoldable pub read : List ℕ → Journal → Result PrinterAdapterError (Option DeviceOperationRecord)
unfolding record_path read_file
read operation_id journal = do
  name ← record_path operation_id
  ok (read_file operation_id (find (is_named name) journal))

-- The first document at a position gets the identifier.
unfoldable pub attach : ℤ → List ℕ → List DeviceOperationDocument → List DeviceOperationDocument
attach position job_id [] = []
attach position job_id (d ∷ rest) =
    let later = attach position job_id rest in
    if eqb_ℤ d.position position then record d { job_id = some job_id } ∷ rest else d ∷ later

unfoldable pub record_in :
    ℤ → List ℕ → ℤ → Option DeviceOperationRecord → Journal → Result PrinterAdapterError Journal
unfolding write attach
record_in position job_id now none journal = ok journal
record_in position job_id now (some r) journal =
    if is_some (find (λ d. eqb_ℤ d.position position) r.documents)
    then write (record r { documents = attach position job_id r.documents }) now journal
    else ok journal

unfoldable pub record_job_id :
    List ℕ → ℤ → List ℕ → ℤ → Journal → Result PrinterAdapterError Journal
unfolding read record_in
record_job_id operation_id position job_id now journal = do
  r ← read operation_id journal
  record_in position job_id now r journal

unfoldable pub discard : List ℕ → Journal → Result PrinterAdapterError Journal
unfolding record_path
discard operation_id journal = do
  name ← record_path operation_id
  ok (filter (λ f. not (is_named name f)) journal)

-- `endsWith` and the name without its suffix.
unfoldable pub is_record_name : List ℕ → Bool
unfolding is_operation_id
is_record_name name =
    starts_with (reverse name) (reverse record_suffix)
    && is_operation_id (take (length name - 5) name)

unfoldable pub is_stale : ℤ → JournalFile → Bool
unfolding is_record_name
is_stale cutoff f = f.is_file && is_record_name f.name && ltb_ℤ f.modified_at cutoff

-- The files that went, counted, and those that stay.
unfoldable pub discard_before : ℤ → Journal → ℕ × Journal
unfolding is_stale
discard_before cutoff journal =
    (length (filter (is_stale cutoff) journal), filter (λ f. not (is_stale cutoff f)) journal)
