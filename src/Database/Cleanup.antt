-- ===== src/Database/Cleanup.antt =====
-- packages/database/src/session-cleanup.ts: what the end of a session does to its documents, its
-- own cleanup schedule and its credentials. Dates are milliseconds; a sum that leaves the range of
-- a `Date` is not modelled.
pub mod Files
pub mod Access
use kiosk_project.Base.{
  ℕ, suc, ◌+◌, String, str_eq, Bool, true, false, not, ◌&&◌, ◌||◌, Option, none, some, List, [],
  ◌∷◌, if◌then◌else◌, same, includes, is_some, default_to, Result, ok, err, ◌>>=◌, ◌>>◌, or_throw,
  refuse_if,
}
use kiosk_project.Base.Int.{ℤ, pos, ◌+ℤ◌, ltb_ℤ}
use kiosk_project.Base.Numbers.{max_ℤ, is_safe_integer}
use kiosk_project.Database.Tables.{update_many}
use kiosk_project.Domain.Retention.{
  TerminalSessionState, RetentionPolicy, RetentionError, default_retention_policy, cleanup_due_at,
}

abbrev pub processing_artifact_settle_milliseconds : ℕ
processing_artifact_settle_milliseconds = 35000

abbrev pub max_upload_artifact_settle_milliseconds : ℕ
max_upload_artifact_settle_milliseconds = 330000

abbrev pub upload_artifact_settle_padding_milliseconds : ℕ
upload_artifact_settle_padding_milliseconds = 30000

pub processing_artifact_cleanup_due_at : ℤ → ℤ
unfolding ◌+ℤ◌
processing_artifact_cleanup_due_at now = now +ℤ pos processing_artifact_settle_milliseconds

pub data CleanupError : Type 0 where
  upload_cleanup_barrier_invalid invalid_date : CleanupError
  retention_refused : RetentionError → CleanupError

-- An invalid `now` is `none`, as is an invalid date.
pub upload_artifact_cleanup_due_at : Option ℤ → ℤ → Result CleanupError ℤ
unfolding ◌+ℤ◌
upload_artifact_cleanup_due_at now upload_timeout_milliseconds = do
  milliseconds ← or_throw now upload_cleanup_barrier_invalid
  refuse_if
      (not (is_safe_integer upload_timeout_milliseconds)
        || ltb_ℤ upload_timeout_milliseconds (pos 1))
      upload_cleanup_barrier_invalid
  ok (
      milliseconds
      +ℤ upload_timeout_milliseconds
      +ℤ pos upload_artifact_settle_padding_milliseconds)

pub data FileStatus : Type 0 where
  uploading quarantined validating ready rejected deleting delete_pending deleted : FileStatus

FileStatus-discrete : Discrete FileStatus
FileStatus-discrete = hlevel

-- The columns of `uploaded_files` that a schedule reads or writes.
pub record UploadedFile : Type 0 where
  pub id : String
  pub session_id : String
  pub status : FileStatus
  pub processing_generation : ℕ
  pub processing_claim_token : Option String
  pub processing_lease_expires_at : Option ℤ
  pub processing_enqueued_at : Option ℤ
  pub delete_requested_at : Option ℤ
  pub cleanup_due_at : Option ℤ
  pub cleanup_error_code : Option String
  pub updated_at : ℤ

pub data SessionCleanupStatus : Type 0 where
  not_due cleanup_pending in_progress done dead_letter : SessionCleanupStatus

SessionCleanupStatus-discrete : Discrete SessionCleanupStatus
SessionCleanupStatus-discrete = hlevel

pub record CleanupSession : Type 0 where
  pub id : String
  pub cleanup_status : SessionCleanupStatus
  pub cleanup_due_at : Option ℤ
  pub updated_at : ℤ

pub record SessionCleanupSchedule : Type 0 where
  pub terminal_state : TerminalSessionState
  pub policy : Option RetentionPolicy

pub record CleanupStore : Type 0 where
  pub files : List UploadedFile
  pub sessions : List CleanupSession

-- `where: { sessionId, status: { in: [...] } }`.
pub has_status : String → List FileStatus → UploadedFile → Bool
unfolding FileStatus-discrete
has_status session_id statuses f =
    str_eq f.session_id session_id && includes FileStatus-discrete statuses f.status

-- The barrier of an upload that has none of its own.
pub set_barrier : ℤ → UploadedFile → UploadedFile
unfolding ◌+ℤ◌
set_barrier now f = record {
  id = f.id;
  session_id = f.session_id;
  status = f.status;
  processing_generation = f.processing_generation;
  processing_claim_token = f.processing_claim_token;
  processing_lease_expires_at = f.processing_lease_expires_at;
  processing_enqueued_at = f.processing_enqueued_at;
  delete_requested_at = f.delete_requested_at;
  cleanup_due_at = some (now +ℤ pos max_upload_artifact_settle_milliseconds);
  cleanup_error_code = none;
  updated_at = now;
}

-- The data `common`, with the due time that each update gives beside it.
pub request_delete : ℤ → Option ℤ → UploadedFile → UploadedFile
request_delete now due f = record {
  id = f.id;
  session_id = f.session_id;
  status = delete_pending;
  processing_generation = f.processing_generation + 1;
  processing_claim_token = none;
  processing_lease_expires_at = none;
  processing_enqueued_at = none;
  delete_requested_at = some now;
  cleanup_due_at = due;
  cleanup_error_code = none;
  updated_at = now;
}

-- The four updates of `uploadedFile`, in their order.
pub mark_uploads : String → ℤ → List UploadedFile → List UploadedFile
unfolding has_status set_barrier
mark_uploads session_id now =
    update_many (λ f. has_status session_id (uploading ∷ []) f && not (is_some f.cleanup_due_at))
      (set_barrier now)

pub mark_deletions : String → ℤ → List UploadedFile → List UploadedFile
unfolding has_status request_delete
mark_deletions session_id now =
    update_many (has_status session_id (delete_pending ∷ deleting ∷ []))
      (λ f. request_delete now f.cleanup_due_at f)

pub mark_settled : String → ℤ → ℤ → List UploadedFile → List UploadedFile
unfolding has_status request_delete
mark_settled session_id now scheduled_due_at =
    update_many (has_status session_id (quarantined ∷ ready ∷ []))
      (request_delete now (some scheduled_due_at))

pub mark_validating : String → ℤ → ℤ → List UploadedFile → List UploadedFile
unfolding has_status request_delete processing_artifact_cleanup_due_at
mark_validating session_id now scheduled_due_at =
    update_many (has_status session_id (validating ∷ []))
      (request_delete now (some (max_ℤ scheduled_due_at (processing_artifact_cleanup_due_at now))))

pub mark_files : String → ℤ → ℤ → List UploadedFile → List UploadedFile
unfolding mark_uploads mark_deletions mark_settled mark_validating
mark_files session_id now scheduled_due_at files = mark_validating session_id now scheduled_due_at (
    mark_settled session_id now scheduled_due_at
      (mark_deletions session_id now (mark_uploads session_id now files)))

-- The update of `printSession`.
pub mark_session : String → ℤ → ℤ → List CleanupSession → List CleanupSession
unfolding SessionCleanupStatus-discrete
mark_session session_id now scheduled_due_at =
    update_many
      (λ s. str_eq s.id session_id && same SessionCleanupStatus-discrete s.cleanup_status not_due)
      (λ s. record {
        id = s.id;
        cleanup_status = cleanup_pending;
        cleanup_due_at = some scheduled_due_at;
        updated_at = now;
      })

-- The schedule's due time. The retention policy may refuse it, and the database client refuses a
-- date that is not valid.
pub scheduled_due : ℤ → SessionCleanupSchedule → Result CleanupError ℤ
scheduled_due now schedule =
    elim (cleanup_due_at schedule.terminal_state (some now)
      (default_to schedule.policy default_retention_policy)) [
        | ok (some due) ↦ ok due
        | ok none ↦ err invalid_date
        | err e ↦ err (retention_refused e)
      ]

pub schedule_session_files_for_cleanup :
    CleanupStore → String → ℤ → Option SessionCleanupSchedule → Result CleanupError CleanupStore
unfolding mark_files mark_session scheduled_due
schedule_session_files_for_cleanup store session_id now none =
    ok (record { files = mark_files session_id now now store.files; sessions = store.sessions })
schedule_session_files_for_cleanup store session_id now (some schedule) = do
  scheduled_due_at ← scheduled_due now schedule
  ok (record {
    files = mark_files session_id now scheduled_due_at store.files;
    sessions = mark_session session_id now scheduled_due_at store.sessions;
  })

pub data CredentialStatus : Type 0 where
  active claimed revoked expired : CredentialStatus

pub CredentialStatus-discrete : Discrete CredentialStatus
CredentialStatus-discrete = hlevel

-- A row of `session_upload_grants` or of `mobile_clients`.
pub record Credential : Type 0 where
  pub id : String
  pub session_id : String
  pub status : CredentialStatus
  pub revoked_at : Option ℤ

pub record CredentialStore : Type 0 where
  pub grants : List Credential
  pub clients : List Credential

pub revoke_those : List CredentialStatus → String → ℤ → List Credential → List Credential
unfolding CredentialStatus-discrete
revoke_those statuses session_id now =
    update_many
      (λ c. str_eq c.session_id session_id && includes CredentialStatus-discrete statuses c.status)
      (λ c. record {
        id = c.id;
        session_id = c.session_id;
        status = revoked;
        revoked_at = some now;
      })

pub revoke_session_access : CredentialStore → String → ℤ → CredentialStore
unfolding revoke_those
revoke_session_access store session_id now = record {
  grants = revoke_those (active ∷ claimed ∷ []) session_id now store.grants;
  clients = revoke_those (active ∷ []) session_id now store.clients;
}
