-- ===== src/Upload/Attempt.antt =====
-- uploadAttachments.ts: one attempt at a chunk.
use django_channels_chat_rea.Common.{
  ℕ, zero, suc, ◌+◌, ◌-◌, ◌*◌, ◌/◌, min, max, ltb, leb, Option, none, some, List, [], ◌∷◌, ◌++◌,
  Bool, not, ◌||◌, if◌then◌else◌,
}
use django_channels_chat_rea.Upload.Session.{
  max_recovery_attempts, UploadSession, UploadSessionState, Error, UploadProgress,
  build_upload_progress, get_acknowledged_uploaded_bytes, update_session_state,
  is_retryable_chunk_error, invalid_payload, request_failed, uploading_files,
}

-- An `AxiosProgressEvent`.
pub record ProgressEvent : Type 0 where
  pub loaded : ℕ
  pub total : Option ℕ

-- What becomes of one PUT of a chunk.
pub data Put : Type 0 where
  answered : UploadSession → Put
  unreadable : Put
  failed : (status : Option ℕ) → Put

-- One turn of the loop over `attempt`: the events on the way, the PUT, whether the signal is aborted
-- when it has failed, and what `syncUploadSession` then fetches.
pub record Try : Type 0 where
  pub events : List ProgressEvent
  pub put : Put
  pub is_aborted : Bool
  pub synced : Option UploadSession

-- Where the loops stand: the sessions done, the one at work and those to come; and of the chunk its
-- offset and size, the attempts so far and `uploadedThisChunk`.
pub record Chunk : Type 0 where
  pub before : List UploadSessionState
  pub session : UploadSessionState
  pub after : List UploadSessionState
  pub chunk_start_offset : ℕ
  pub size : ℕ
  pub attempt : ℕ
  pub uploaded_this_chunk : Option ℕ

abbrev pub all_sessions : Chunk → List UploadSessionState
all_sessions c = c.before ++ c.session ∷ c.after

-- `file.slice(start, start + chunkSize).size`, for a start inside of the file.
abbrev pub slice_size : UploadSessionState → ℕ
slice_size s = min s.dto.chunk_size (s.file.size - s.dto.received_bytes)

-- The next turn of the `while` loops: the first session that has not received its whole file.
unfoldable pub next_chunk : List UploadSessionState → List UploadSessionState → Option Chunk
next_chunk before [] = none
next_chunk before (session ∷ sessions) =
    let rest = next_chunk (before ++ session ∷ []) sessions in
    if ltb session.dto.received_bytes session.file.size
    then some (record {
      before = before;
      session = session;
      after = sessions;
      chunk_start_offset = session.dto.received_bytes;
      size = slice_size session;
      attempt = 0;
      uploaded_this_chunk = some 0;
    })
    else rest

abbrev positive_or : Option ℕ → ℕ → ℕ
positive_or none size = size
positive_or (some total) size = if ltb 0 total then total else size

-- `Math.round((event.loaded / total) * chunk.size)`, which is NaN for an empty chunk.
abbrev rounded_share : ℕ → ℕ → ℕ → Option ℕ
rounded_share loaded zero size = none
rounded_share loaded (suc total) size = some ((2 * loaded * size + suc total) / (2 * suc total))

-- `Math.max(uploadedThisChunk, Math.min(chunk.size, share))`
abbrev raised : Option ℕ → Option ℕ → ℕ → Option ℕ
raised none share size = none
raised (some uploaded) none size = none
raised (some uploaded) (some share) size = some (max uploaded (min size share))

abbrev plus : ℕ → Option ℕ → Option ℕ
plus base none = none
plus base (some n) = some (base + n)

-- The chunk and the reports so far.
pub record Run : Type 0 where
  pub chunk : Chunk
  pub reports : List UploadProgress

module _ (total_file_bytes : ℕ) where
  -- `emitUploadProgress(options, "uploading", getAcknowledgedUploadedBytes(sessions), totalFileBytes)`
  unfoldable pub report_acknowledged : Run → Run
  unfolding get_acknowledged_uploaded_bytes build_upload_progress
  report_acknowledged r = record r {
    reports =
        r.reports
        ++ build_upload_progress uploading_files
            (some (get_acknowledged_uploaded_bytes (all_sessions r.chunk))) total_file_bytes
          ∷ [];
  }

  unfoldable pub on_upload_progress : (progress_base_bytes : ℕ) → ProgressEvent → Run → Run
  unfolding build_upload_progress
  on_upload_progress base event r =
      let size = r.chunk.size in
      let share = rounded_share event.loaded (positive_or event.total size) size in
      let uploaded = raised r.chunk.uploaded_this_chunk share size in
      record {
        chunk = record (r.chunk) { uploaded_this_chunk = uploaded };
        reports =
            r.reports
            ++ build_upload_progress uploading_files (plus base uploaded) total_file_bytes ∷ [];
      }

  unfoldable pub on_events : (progress_base_bytes : ℕ) → List ProgressEvent → Run → Run
  unfolding on_upload_progress
  on_events base [] r = r
  on_events base (event ∷ events) r = on_events base events (on_upload_progress base event r)

  unfoldable pub take_session : UploadSession → Run → Run
  unfolding report_acknowledged update_session_state
  take_session payload r = report_acknowledged (record r {
    chunk = record (r.chunk) { session = update_session_state r.chunk.session payload };
  })

-- What follows an attempt: the chunk is through, there is another attempt, or the upload throws.
pub data Verdict : Type 0 where
  completed : Run → Verdict
  again : Run → Verdict
  threw : Error → Run → Verdict

-- The end of the `catch`.
unfoldable pub give_up_or_retry : Error → Run → Verdict
unfolding is_retryable_chunk_error
give_up_or_retry error r =
    if leb max_recovery_attempts r.chunk.attempt || not (is_retryable_chunk_error error)
    then threw error r
    else again (record r { chunk = record (r.chunk) { attempt = r.chunk.attempt + 1 } })

module _ (total_file_bytes : ℕ) where
  unfoldable pub recover_by : Option UploadSession → Error → Run → Verdict
  unfolding take_session give_up_or_retry
  recover_by none error r = give_up_or_retry error r
  recover_by (some session) error r =
      let updated = take_session total_file_bytes session r in
      if ltb updated.chunk.chunk_start_offset updated.chunk.session.dto.received_bytes
      then completed updated
      else give_up_or_retry error updated

  -- The `catch` of an attempt.
  unfoldable pub recover : Try → Error → Run → Verdict
  unfolding recover_by
  recover t error r = if t.is_aborted then threw error r else recover_by t.synced error r

  unfoldable pub settle_put : Put → Try → Run → Verdict
  unfolding recover take_session
  settle_put (answered payload) t r = completed (take_session total_file_bytes payload r)
  settle_put unreadable t r = recover t invalid_payload r
  settle_put (failed status) t r = recover t (request_failed status) r

  unfoldable pub attempt_chunk : Try → Run → Verdict
  unfolding settle_put on_events get_acknowledged_uploaded_bytes
  attempt_chunk t r = settle_put t.put t (
      on_events total_file_bytes (get_acknowledged_uploaded_bytes (all_sessions r.chunk)) t.events
        r)
