-- ===== src/Upload/Reports.antt =====
-- uploadAttachments.ts: the progress that is reported.
use django_channels_chat_rea.Common.{
  ℕ, ◌≤◌, Option, none, some, List, [], ◌∷◌, ◌++◌, ◌≡◌, refl, arith, All, All-append,
}
use django_channels_chat_rea.Upload.Keeping.{send_chunks-keeps, stage_of-InStage}
use django_channels_chat_rea.Upload.Session.{
  File, Phase, uploading_files, processing, UploadProgress, UploadSession, UploadSessionState,
  build_upload_progress, get_total_file_bytes, get_acknowledged_uploaded_bytes,
  update_session_state,
}
use django_channels_chat_rea.Upload.Attempt.{
  Try, Run, on_upload_progress, report_acknowledged, take_session,
}
use django_channels_chat_rea.Upload.Call.{
  Reached, all_sent, waiting, thrown, Progressed, stage_of, Created, created, not_created,
  create_sessions, Final, no_answer, finished, undecodable, not_finished, Stalls, process_by,
  finish, send_all, sent, upload_attachments,
}

-- A report does not go over its total, nor its percentage over a hundred.
abbrev pub IsWithin : ℕ → UploadProgress → Type 0
IsWithin total r =
    (r.uploaded_bytes ≤ r.total_bytes)
    × (r.total_bytes ≡ total)
    × (r.percent.part ≤ r.percent.whole)

build_upload_progress-IsWithin :
    (phase : Phase) (uploaded : Option ℕ) (total : ℕ)
    → IsWithin total (build_upload_progress phase uploaded total)
unfolding build_upload_progress
build_upload_progress-IsWithin processing none total = ground arith
build_upload_progress-IsWithin uploading_files none total = ground arith
build_upload_progress-IsWithin processing (some uploaded) total = ground arith
build_upload_progress-IsWithin uploading_files (some uploaded) total = ground arith

abbrev AreWithin : ℕ → List UploadProgress → Type 0
AreWithin total = All (IsWithin total)

another-AreWithin :
    (phase : Phase) (uploaded : Option ℕ) (total : ℕ) (rs : List UploadProgress)
    → AreWithin total rs
    → AreWithin total (rs ++ build_upload_progress phase uploaded total ∷ [])
another-AreWithin phase uploaded total rs h =
    All-append (IsWithin total) rs (build_upload_progress phase uploaded total ∷ []) h
      (build_upload_progress-IsWithin phase uploaded total, tt)

create_sessions-reports :
    (rs : List UploadProgress) (files : List File) (answers : List Created)
    (ss : List UploadSessionState)
    → (create_sessions rs files answers ss).reports ≡ rs
unfolding create_sessions
create_sessions-reports rs [] answers ss = refl
create_sessions-reports rs (f ∷ files) [] ss = refl
create_sessions-reports rs (f ∷ files) (created dto ∷ answers) ss =
    create_sessions-reports rs files answers (ss ++ record { file = f; dto = dto } ∷ [])
create_sessions-reports rs (f ∷ files) (not_created error ∷ answers) ss = refl

take_session-AreWithin :
    (total : ℕ) (payload : UploadSession) (r : Run)
    → AreWithin total r.reports
    → AreWithin total (take_session total payload r).reports
unfolding take_session report_acknowledged
take_session-AreWithin total payload r h =
    another-AreWithin uploading_files
      (some (
        get_acknowledged_uploaded_bytes
          (r.chunk.before ++ update_session_state r.chunk.session payload ∷ r.chunk.after)))
      total r.reports h

send_all-AreWithin :
    (reached : Reached) (total : ℕ) (tries : List Try) (p : Progressed)
    → AreWithin total p.reports
    → AreWithin total (send_all reached total tries p).reports
unfolding on_upload_progress take_session report_acknowledged
send_all-AreWithin waiting total tries p h = h
send_all-AreWithin (thrown error) total tries p h = h
send_all-AreWithin all_sent total tries p h =
    send_chunks-keeps (λ sessions reports. AreWithin total reports) total
      (λ base e r k. another-AreWithin uploading_files _ total r.reports k)
      (take_session-AreWithin total) tries (stage_of [] p.sessions p.reports)
      (stage_of-InStage (λ sessions reports. AreWithin total reports) [] p.sessions p.reports h)

sent-AreWithin :
    (files : List File) (answers : List Created) (tries : List Try)
    → AreWithin (get_total_file_bytes files) (sent files answers tries).reports
unfolding sent
sent-AreWithin files answers tries =
    let total = get_total_file_bytes files in
    let first = build_upload_progress uploading_files (some 0) total ∷ [] in
    let p = create_sessions first files answers [] in
    send_all-AreWithin p.reached total tries p (
      simp (create_sessions-reports first files answers [])
        (build_upload_progress-IsWithin uploading_files (some 0) total, tt))

process_by-AreWithin :
    {R : Type 0} (stalls : Stalls) (reached : Reached) (total : ℕ) (final : Final R)
    (p : Progressed)
    → AreWithin total p.reports
    → AreWithin total (process_by stalls reached total final p).reports
unfolding process_by finish
process_by-AreWithin stalls waiting total final p h = h
process_by-AreWithin stalls (thrown error) total final p h = h
process_by-AreWithin stalls all_sent total no_answer p h =
    another-AreWithin processing (some total) total p.reports h
process_by-AreWithin stalls all_sent total (finished result) p h =
    another-AreWithin processing (some total) total p.reports h
process_by-AreWithin stalls all_sent total (undecodable error) p h =
    another-AreWithin processing (some total) total p.reports h
process_by-AreWithin stalls all_sent total (not_finished error) p h =
    another-AreWithin processing (some total) total p.reports h

-- Whatever the server answers and however often the browser reports, every progress report is about
-- the bytes of all the files together, claims no more bytes than that, and no more than 100 percent.
pub upload_attachments-AreWithin :
    {R : Type 0} (stalls : Stalls) (files : List File) (answers : List Created) (tries : List Try)
    (final : Final R)
    → AreWithin
        (get_total_file_bytes files)
        (upload_attachments stalls files answers tries final).reports
unfolding upload_attachments
upload_attachments-AreWithin stalls files answers tries final =
    let p = sent files answers tries in
    process_by-AreWithin stalls p.reached (get_total_file_bytes files) final p
      (sent-AreWithin files answers tries)
