-- ===== src/Database/Cleanup/Files.antt =====
-- The documents of a session once its cleanup has been scheduled.
use kiosk_project.Base.{
  if◌then◌else◌, ◌&&◌, not, includes, ap, ◌∙◌, includes, ◌≡◌, refl, String, str_eq, true, false,
  List, [], ◌∷◌, some, is_some, arith, map, Bool-cases, inl, inr,
}
use kiosk_project.Base.Int.{ℤ}
use kiosk_project.Base.Numbers.{max_ℤ}
use kiosk_project.Database.Tables.{update_many}
use kiosk_project.Database.Cleanup.{
  FileStatus-discrete, UploadedFile, FileStatus, mark_files, has_status, set_barrier,
  request_delete, processing_artifact_cleanup_due_at,
}

-- What a document becomes, by the status that it had, with no order of updates in it.
abbrev pub marked : String → ℤ → ℤ → UploadedFile → UploadedFile
marked session_id now due f =
    if str_eq f.session_id session_id
    then elim f.status [
      | FileStatus.uploading ↦ if is_some f.cleanup_due_at then f else set_barrier now f
      | FileStatus.deleting ↦ request_delete now f.cleanup_due_at f
      | FileStatus.delete_pending ↦ request_delete now f.cleanup_due_at f
      | FileStatus.quarantined ↦ request_delete now (some due) f
      | FileStatus.ready ↦ request_delete now (some due) f
      | FileStatus.validating ↦
          request_delete now (some (max_ℤ due (processing_artifact_cleanup_due_at now))) f
      | _ ↦ f
    ]
    else f

abbrev with_status : FileStatus → UploadedFile → UploadedFile
with_status s f = record {
  id = f.id;
  session_id = f.session_id;
  status = s;
  processing_generation = f.processing_generation;
  processing_claim_token = f.processing_claim_token;
  processing_lease_expires_at = f.processing_lease_expires_at;
  processing_enqueued_at = f.processing_enqueued_at;
  delete_requested_at = f.delete_requested_at;
  cleanup_due_at = f.cleanup_due_at;
  cleanup_error_code = f.cleanup_error_code;
  updated_at = f.updated_at;
}

module _ (session_id : String) (now due : ℤ) where
  -- One update, on one document.
  step : List FileStatus → (UploadedFile → UploadedFile) → UploadedFile → UploadedFile
  step statuses g f = if has_status session_id statuses f then g f else f

  step_uploads : UploadedFile → UploadedFile
  step_uploads f =
      if has_status session_id (FileStatus.uploading ∷ []) f && not (is_some f.cleanup_due_at)
      then set_barrier now f
      else f

  abbrev deletions : UploadedFile → UploadedFile
  deletions =
      step (FileStatus.delete_pending ∷ FileStatus.deleting ∷ [])
        (λ g. request_delete now g.cleanup_due_at g)

  abbrev settled : UploadedFile → UploadedFile
  settled = step (FileStatus.quarantined ∷ FileStatus.ready ∷ []) (request_delete now (some due))

  abbrev validated : UploadedFile → UploadedFile
  validated =
      step (FileStatus.validating ∷ [])
        (request_delete now (some (max_ℤ due (processing_artifact_cleanup_due_at now))))

  abbrev step_all : UploadedFile → UploadedFile
  step_all f = validated (settled (deletions (step_uploads f)))

  has_status_at :
      (statuses : List FileStatus) (f : UploadedFile)
      → str_eq f.session_id session_id ≡ true
      → has_status session_id statuses f ≡ includes FileStatus-discrete statuses f.status
  unfolding has_status
  has_status_at statuses f t = rw t refl

  elsewhere :
      (statuses : List FileStatus) (f : UploadedFile)
      → str_eq f.session_id session_id ≡ false
      → has_status session_id statuses f ≡ false
  unfolding has_status
  elsewhere statuses f t = rw t refl

  hit :
      (l : List FileStatus) (g : UploadedFile → UploadedFile) (f : UploadedFile)
      → str_eq f.session_id session_id ≡ true
      → includes FileStatus-discrete l f.status ≡ true
      → step l g f ≡ g f
  unfolding step
  hit l g f t e = rw (has_status_at l f t, e) refl

  miss :
      (l : List FileStatus) (g : UploadedFile → UploadedFile) (f : UploadedFile)
      → str_eq f.session_id session_id ≡ true
      → includes FileStatus-discrete l f.status ≡ false
      → step l g f ≡ f
  unfolding step
  miss l g f t e = rw (has_status_at l f t, e) refl

  pass_uploads :
      (f : UploadedFile)
      → str_eq f.session_id session_id ≡ true
      → includes FileStatus-discrete (FileStatus.uploading ∷ []) f.status ≡ false
      → step_uploads f ≡ f
  unfolding step_uploads
  pass_uploads f t e = rw (has_status_at (FileStatus.uploading ∷ []) f t, e) refl

  -- The four updates, once each is known on the document that the one before it leaves.
  chain :
      (f z a b c : UploadedFile)
      → step_uploads f ≡ z
      → deletions z ≡ a
      → settled a ≡ b
      → validated b ≡ c
      → step_all f ≡ c
  chain f z a b c o p q r =
      ap (λ x. validated (settled (deletions x))) o
      ∙ ap (λ x. validated (settled x)) p
      ∙ ap validated q
      ∙ r

  has_barrier :
      (f : UploadedFile)
      → str_eq f.session_id session_id ≡ true
      → is_some f.cleanup_due_at ≡ true
      → step_uploads f ≡ f
  unfolding step_uploads
  has_barrier f t e = ground arith

  no_barrier :
      (f : UploadedFile)
      → str_eq f.session_id session_id ≡ true
      → includes FileStatus-discrete (FileStatus.uploading ∷ []) f.status ≡ true
      → is_some f.cleanup_due_at ≡ false
      → step_uploads f ≡ set_barrier now f
  unfolding step_uploads
  no_barrier f t i e = rw (has_status_at (FileStatus.uploading ∷ []) f t, i, e) refl

  step_all-marked :
      (s : FileStatus) (f : UploadedFile)
      → str_eq f.session_id session_id ≡ true
      → step_all (with_status s f) ≡ marked session_id now due (with_status s f)
  unfolding FileStatus-discrete request_delete set_barrier
  step_all-marked FileStatus.uploading f t = elim (Bool-cases (is_some f.cleanup_due_at)) [
    | inl e ↦
        rw (t, e)
          (chain _ _ _ _ _ (has_barrier _ t e) (miss _ _ _ t refl) (miss _ _ _ t refl)
            (miss _ _ _ t refl))
    | inr e ↦
        rw (t, e)
          (chain _ _ _ _ _ (no_barrier _ t refl e) (miss _ _ _ t refl) (miss _ _ _ t refl)
            (miss _ _ _ t refl))
  ]
  step_all-marked FileStatus.quarantined f t = rw t (
      chain _ _ _ _ _ (pass_uploads _ t refl) (miss _ _ _ t refl) (hit _ _ _ t refl)
        (miss _ _ _ t refl))
  step_all-marked FileStatus.ready f t = rw t (
      chain _ _ _ _ _ (pass_uploads _ t refl) (miss _ _ _ t refl) (hit _ _ _ t refl)
        (miss _ _ _ t refl))
  step_all-marked FileStatus.validating f t = rw t (
      chain _ _ _ _ _ (pass_uploads _ t refl) (miss _ _ _ t refl) (miss _ _ _ t refl)
        (hit _ _ _ t refl))
  step_all-marked FileStatus.deleting f t = rw t (
      chain _ _ _ _ _ (pass_uploads _ t refl) (hit _ _ _ t refl) (miss _ _ _ t refl)
        (miss _ _ _ t refl))
  step_all-marked FileStatus.delete_pending f t = rw t (
      chain _ _ _ _ _ (pass_uploads _ t refl) (hit _ _ _ t refl) (miss _ _ _ t refl)
        (miss _ _ _ t refl))
  step_all-marked FileStatus.rejected f t = rw t (
      chain _ _ _ _ _ (pass_uploads _ t refl) (miss _ _ _ t refl) (miss _ _ _ t refl)
        (miss _ _ _ t refl))
  step_all-marked FileStatus.deleted f t = rw t (
      chain _ _ _ _ _ (pass_uploads _ t refl) (miss _ _ _ t refl) (miss _ _ _ t refl)
        (miss _ _ _ t refl))

  step_all-elsewhere : (f : UploadedFile) → str_eq f.session_id session_id ≡ false → step_all f ≡ f
  unfolding step step_uploads
  step_all-elsewhere f t =
      rw
        (
          elsewhere (FileStatus.uploading ∷ []) f t,
          elsewhere (FileStatus.delete_pending ∷ FileStatus.deleting ∷ []) f t,
          elsewhere (FileStatus.quarantined ∷ FileStatus.ready ∷ []) f t,
          elsewhere (FileStatus.validating ∷ []) f t,
        )
        refl

  one_file : (f : UploadedFile) → step_all f ≡ marked session_id now due f
  one_file f = elim (Bool-cases (str_eq f.session_id session_id)) [
    | inl t ↦ step_all-marked f.status f t
    | inr t ↦ rw t (step_all-elsewhere f t)
  ]

  mark_files-cons :
      (f : UploadedFile) (files : List UploadedFile)
      → mark_files session_id now due (f ∷ files) ≡ step_all f ∷ mark_files session_id now due files
  unfolding mark_files update_many step step_uploads
  mark_files-cons f files = refl

-- The four updates in their order do to each document what its status alone says: each document
-- is changed at most once, and so its generation grows by at most one; an upload, or a deletion
-- already asked for, keeps the barrier that it has; and a document of another session is kept.
pub mark_files-marked :
    (session_id : String) (now due : ℤ) (files : List UploadedFile)
    → mark_files session_id now due files ≡ map (marked session_id now due) files
unfolding mark_files update_many
mark_files-marked session_id now due [] = refl
mark_files-marked session_id now due (f ∷ files) =
    mark_files-cons session_id now due f files
    ∙ ap (λ g. g ∷ mark_files session_id now due files) (one_file session_id now due f)
    ∙ ap (λ fs. marked session_id now due f ∷ fs) (mark_files-marked session_id now due files)
