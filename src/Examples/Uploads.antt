-- ===== src/Examples/Uploads.antt =====
-- uploadAttachments.ts at work: a file of five bytes in chunks of three, whose second chunk is lost once.
use django_channels_chat_rea.Common.{ℕ, none, some, List, [], ◌∷◌, All, false, ◌≡◌, refl, arith}
use django_channels_chat_rea.Upload.Session.{
  File, UploadSession, uploading, request_failed, is_retryable_chunk_error, get_total_file_bytes,
}
use django_channels_chat_rea.Upload.Attempt.{Run, Try, next_chunk, answered, failed}
use django_channels_chat_rea.Upload.Call.{
  Created, created, finished, not_finished, Stalls, sent, upload_attachments, send_chunks, at_work,
  thrown,
}
use django_channels_chat_rea.Upload.Received.{IsReceived, upload_attachments-resolved}
use django_channels_chat_rea.Upload.Retries.{failing, send_chunks-failing}
use django_channels_chat_rea.Upload.Cleanup.{given_ids, upload_attachments-deletes}
use django_channels_chat_rea.Upload.Reports.{IsWithin, upload_attachments-AreWithin}

abbrev stalls : Stalls
stalls = record { by_inactivity = false; while_processing = false }

abbrev files : List File
files = record { name = 102 ∷ []; content_type = []; size = 5 } ∷ []

abbrev session : ℕ → UploadSession
session received = record {
  upload_id = 117 ∷ [];
  original_filename = 102 ∷ [];
  content_type = [];
  file_size = 5;
  received_bytes = received;
  chunk_size = 3;
  status = uploading;
  expires_at = [];
}

abbrev answers : List Created
answers = created (session 0) ∷ []

abbrev tries : List Try
tries =
    record {
      events = record { loaded = 2; total = some 3 } ∷ [];
      put = answered (session 3);
      is_aborted = false;
      synced = none;
    }
    ∷ record { events = []; put = failed none; is_aborted = false; synced = none }
    ∷ record { events = []; put = answered (session 5); is_aborted = false; synced = none }
    ∷ []

upload_attachments-resolved_example :
    ((upload_attachments stalls files answers tries (finished tt)).finalized_ids
      ≡ some (given_ids files answers))
    × ((upload_attachments stalls files answers tries (finished tt)).deleted_ids ≡ [])
    × All IsReceived (sent files answers tries).sessions
unfolding upload_attachments next_chunk
upload_attachments-resolved_example =
    upload_attachments-resolved stalls files answers tries (finished tt) tt refl

upload_attachments-deletes_example :
    (upload_attachments {R = Unit} stalls files answers tries
      (not_finished (request_failed none))).deleted_ids
    ≡ given_ids files answers
unfolding sent next_chunk
upload_attachments-deletes_example =
    upload_attachments-deletes Unit stalls files answers tries (not_finished (request_failed none))
      (request_failed none) (λ e. ground arith) (λ e. refl)

upload_attachments-AreWithin_example :
    All
      (IsWithin (get_total_file_bytes files))
      (upload_attachments stalls files answers tries (finished tt)).reports
upload_attachments-AreWithin_example =
    upload_attachments-AreWithin stalls files answers tries (finished tt)

-- Before the first byte.
abbrev at_start : Run
at_start = record {
  chunk = record {
    before = [];
    session = record {
      file = record { name = 102 ∷ []; content_type = []; size = 5 };
      dto = session 0;
    };
    after = [];
    chunk_start_offset = 0;
    size = 3;
    attempt = 0;
    uploaded_this_chunk = some 0;
  };
  reports = [];
}

send_chunks-failing_example :
    (send_chunks 5
      (failing [] none none
        ∷ failing [] (some 503) (some (session 0))
        ∷ failing [] (some 404) none
        ∷ [])
      (at_work at_start)).reached
    ≡ thrown (request_failed (some 404))
unfolding is_retryable_chunk_error
send_chunks-failing_example =
    send_chunks-failing 5 at_start [] [] [] none (some (session 0)) none none (some 503) (some 404)
      [] refl refl refl refl refl refl
