-- ===== src/Upload/Session.antt =====
-- uploadAttachments.ts: the sessions, the progress reports and the errors.
use django_channels_chat_rea.Common.{
  ℕ, ◌+◌, min, ltb, leb, nat_beq, Text, Option, none, some, List, [], ◌∷◌, Bool, true, false, ◌||◌,
  if◌then◌else◌,
}

-- `ATTACHMENT_UPLOAD_MAX_RECOVERY_ATTEMPTS`
abbrev pub max_recovery_attempts : ℕ
max_recovery_attempts = 2

pub record File : Type 0 where
  pub name : Text
  pub content_type : Text
  pub size : ℕ

pub data UploadStatus : Type 0 where
  pending : UploadStatus
  uploading : UploadStatus
  complete : UploadStatus

-- An `UploadSessionDto`, as `parseUploadSession` lets it through.
pub record UploadSession : Type 0 where
  pub upload_id : Text
  pub original_filename : Text
  pub content_type : Text
  pub file_size : ℕ
  pub received_bytes : ℕ
  pub chunk_size : ℕ
  pub status : UploadStatus
  pub expires_at : Text

pub record UploadSessionState : Type 0 where
  pub file : File
  pub dto : UploadSession

pub data Error : Type 0 where
  upload_idle_timeout : Error
  upload_processing_timeout : Error
  invalid_payload : Error
  -- An Axios error, with the status of the response that it has, if it has one.
  request_failed : (status : Option ℕ) → Error

pub data Phase : Type 0 where
  uploading_files : Phase
  processing : Phase

-- A fraction; `percent` is a hundred times it.
pub record Ratio : Type 0 where
  pub part : ℕ
  pub whole : ℕ

pub record UploadProgress : Type 0 where
  pub phase : Phase
  pub uploaded_bytes : ℕ
  pub total_bytes : ℕ
  pub percent : Ratio

abbrev pub total_by : {A : Type 0} → (A → ℕ) → List A → ℕ
total_by size [] = 0
total_by size (x ∷ xs) = size x + total_by size xs

unfoldable pub get_total_file_bytes : List File → ℕ
get_total_file_bytes files = total_by (λ file. file.size) files

-- `clampRatio(uploadedBytes / totalBytes)`; a number of bytes is `none` where it is NaN.
unfoldable pub clamp_ratio : Option ℕ → ℕ → Ratio
clamp_ratio none total = record { part = 0; whole = 1 }
clamp_ratio (some uploaded) total =
    if nat_beq uploaded 0
    then record { part = 0; whole = 1 }
    else if leb total uploaded
    then record { part = 1; whole = 1 }
    else record { part = uploaded; whole = total }

unfoldable pub clamp_uploaded_bytes : Option ℕ → ℕ → ℕ
clamp_uploaded_bytes none total = 0
clamp_uploaded_bytes (some value) total = if leb total value then total else value

abbrev pub percent_of_nothing : Phase → Ratio
percent_of_nothing processing = record { part = 1; whole = 1 }
percent_of_nothing uploading_files = record { part = 0; whole = 1 }

unfoldable pub build_upload_progress : Phase → Option ℕ → ℕ → UploadProgress
unfolding clamp_uploaded_bytes clamp_ratio
build_upload_progress phase uploaded total = record {
  phase = phase;
  uploaded_bytes = clamp_uploaded_bytes uploaded total;
  total_bytes = total;
  percent = if ltb 0 total then clamp_ratio uploaded total else percent_of_nothing phase;
}

unfoldable pub get_acknowledged_uploaded_bytes : List UploadSessionState → ℕ
get_acknowledged_uploaded_bytes sessions =
    total_by (λ session. min session.file.size session.dto.received_bytes) sessions

-- Every field but the id.
unfoldable pub update_session_state : UploadSessionState → UploadSession → UploadSessionState
update_session_state session payload = record session {
  dto = record payload { upload_id = session.dto.upload_id };
}

unfoldable pub is_retryable_chunk_error : Error → Bool
is_retryable_chunk_error upload_idle_timeout = false
is_retryable_chunk_error upload_processing_timeout = false
is_retryable_chunk_error invalid_payload = false
is_retryable_chunk_error (request_failed none) = true
is_retryable_chunk_error (request_failed (some status)) =
    nat_beq status 0 || nat_beq status 409 || leb 500 status
