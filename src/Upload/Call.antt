-- ===== src/Upload/Call.antt =====
-- uploadAttachments.ts, lines 209 to 425: the loops over files and chunks, the final request and the
-- clean-up.
use django_channels_chat_rea.Common.{
  ℕ, Text, Option, none, some, List, [], ◌∷◌, ◌++◌, map, Bool, if◌then◌else◌,
}
use django_channels_chat_rea.Upload.Session.{
  File, UploadSession, UploadSessionState, Error, UploadProgress, get_total_file_bytes,
  build_upload_progress, upload_idle_timeout, upload_processing_timeout, uploading_files,
  processing,
}
use django_channels_chat_rea.Upload.Attempt.{
  Try, Chunk, all_sessions, next_chunk, Run, Verdict, attempt_chunk, completed, again, threw,
}

-- How far the upload gets before the final request: it has sent every chunk, it waits for an answer,
-- or it has thrown.
pub data Reached : Type 0 where
  all_sent : Reached
  waiting : Reached
  thrown : Error → Reached

pub record Progressed : Type 0 where
  pub sessions : List UploadSessionState
  pub reports : List UploadProgress
  pub reached : Reached

pub data Stage : Type 0 where
  at_work : Run → Stage
  over : Progressed → Stage

abbrev pub stage_by : List UploadSessionState → List UploadProgress → Option Chunk → Stage
stage_by sessions reports none =
    over (record { sessions = sessions; reports = reports; reached = all_sent })
stage_by sessions reports (some chunk) = at_work (record { chunk = chunk; reports = reports })

-- The test of the `while` loop, and of those after it.
unfoldable pub stage_of :
    List UploadSessionState → List UploadSessionState → List UploadProgress → Stage
stage_of before sessions reports =
    stage_by (before ++ sessions) reports (next_chunk before sessions)

abbrev pub stopped : Reached → Run → Progressed
stopped reached r = record {
  sessions = all_sessions r.chunk;
  reports = r.reports;
  reached = reached;
}

unfoldable pub after_attempt : Verdict → Stage
unfolding stage_of
after_attempt (completed r) = stage_of r.chunk.before (r.chunk.session ∷ r.chunk.after) r.reports
after_attempt (again r) = at_work r
after_attempt (threw error r) = over (stopped (thrown error) r)

-- The loops over the sessions, the chunks and the attempts.
unfoldable pub send_chunks : ℕ → List Try → Stage → Progressed
unfolding after_attempt attempt_chunk
send_chunks total tries (over p) = p
send_chunks total [] (at_work r) = stopped waiting r
send_chunks total (t ∷ tries) (at_work r) =
    send_chunks total tries (after_attempt (attempt_chunk total t r))

-- What becomes of one POST that creates an upload session, `invalid_payload` included.
pub data Created : Type 0 where
  created : UploadSession → Created
  not_created : Error → Created

-- The loop that creates the sessions, after `sessions`.
unfoldable pub create_sessions :
    List UploadProgress → List File → List Created → List UploadSessionState → Progressed
create_sessions reports [] answers sessions = record {
  sessions = sessions;
  reports = reports;
  reached = all_sent;
}
create_sessions reports (file ∷ files) [] sessions = record {
  sessions = sessions;
  reports = reports;
  reached = waiting;
}
create_sessions reports (file ∷ files) (created dto ∷ answers) sessions =
    create_sessions reports files answers (sessions ++ record { file = file; dto = dto } ∷ [])
create_sessions reports (file ∷ files) (not_created error ∷ answers) sessions = record {
  sessions = sessions;
  reports = reports;
  reached = thrown error;
}

-- What becomes of the final POST: `decodeUploadResponse` may throw once the server has answered.
pub data Final (R : Type 0) : Type 0 where
  no_answer : Final R
  finished : R → Final R
  undecodable : Error → Final R
  not_finished : Error → Final R

pub data Outcome (R : Type 0) : Type 0 where
  unsettled : Outcome R
  resolved : R → Outcome R
  rejected : Error → Outcome R

-- What the call has done: its reports, the upload ids of the final POST if that was sent, the upload
-- ids whose sessions it has deleted, and how its promise has settled.
pub record Upload (R : Type 0) : Type 0 where
  pub reports : List UploadProgress
  pub finalized_ids : Option (List Text)
  pub deleted_ids : List Text
  pub outcome : Outcome R

abbrev pub upload_ids : List UploadSessionState → List Text
upload_ids sessions = map (λ session. session.dto.upload_id) sessions

-- Whether `stalledByInactivity` and `stalledWhileProcessing` are set when the call throws.
pub record Stalls : Type 0 where
  pub by_inactivity : Bool
  pub while_processing : Bool

-- The outer `catch`.
unfoldable pub stall_error : Stalls → Error → Error
stall_error stalls error =
    if stalls.by_inactivity
    then upload_idle_timeout
    else if stalls.while_processing
    then upload_processing_timeout
    else error

abbrev pub send_all : Reached → ℕ → List Try → Progressed → Progressed
send_all all_sent total tries p = send_chunks total tries (stage_of [] p.sessions p.reports)
send_all waiting total tries p = p
send_all (thrown error) total tries p = p

-- The sessions are created and their chunks sent.
unfoldable pub sent : List File → List Created → List Try → Progressed
unfolding create_sessions send_chunks get_total_file_bytes build_upload_progress
sent files answers tries =
    let total = get_total_file_bytes files in
    let p =
      create_sessions (build_upload_progress uploading_files (some 0) total ∷ []) files answers
        [] in
    send_all p.reached total tries p

module _ {R : Type 0} (stalls : Stalls) where
  -- The outer `catch`, and `finally` where `finalized` is not set.
  fail : Option (List Text) → Error → Progressed → Upload R
  unfolding stall_error
  fail finalized_ids error p = record {
    reports = p.reports;
    finalized_ids = finalized_ids;
    deleted_ids = upload_ids p.sessions;
    outcome = rejected (stall_error stalls error);
  }

  -- With the final POST sent.
  unfoldable pub finish : Final R → Progressed → Upload R
  unfolding fail
  finish no_answer p = record {
    reports = p.reports;
    finalized_ids = some (upload_ids p.sessions);
    deleted_ids = [];
    outcome = unsettled;
  }
  finish (finished result) p = record {
    reports = p.reports;
    finalized_ids = some (upload_ids p.sessions);
    deleted_ids = [];
    outcome = resolved result;
  }
  finish (undecodable error) p = record {
    reports = p.reports;
    finalized_ids = some (upload_ids p.sessions);
    deleted_ids = [];
    outcome = rejected (stall_error stalls error);
  }
  finish (not_finished error) p = fail (some (upload_ids p.sessions)) error p

  unfoldable pub process_by : Reached → ℕ → Final R → Progressed → Upload R
  unfolding finish build_upload_progress
  process_by waiting total final p = record {
    reports = p.reports;
    finalized_ids = none;
    deleted_ids = [];
    outcome = unsettled;
  }
  process_by (thrown error) total final p = fail none error p
  process_by all_sent total final p =
      finish final (record p {
        reports = p.reports ++ build_upload_progress processing (some total) total ∷ [];
      })

  unfoldable pub upload_attachments : List File → List Created → List Try → Final R → Upload R
  unfolding process_by sent
  upload_attachments files answers tries final =
      let p = sent files answers tries in process_by p.reached (get_total_file_bytes files) final p
