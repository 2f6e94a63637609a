-- ===== src/Upload/Cleanup.antt =====
-- uploadAttachments.ts: which upload sessions the final request names, and which ones are deleted.
use mathlib.Core.List.{append_assoc, append-nil}
use django_channels_chat_rea.Common.{
  ℕ, Text, some, List, [], ◌∷◌, ◌++◌, ◌≡◌, ◌≢◌, refl, sym, ◌∙◌, arith,
}
use django_channels_chat_rea.Upload.Keeping.{send_chunks-keeps, stage_of-InStage}
use django_channels_chat_rea.Upload.Session.{
  File, Error, uploading_files, UploadProgress, UploadSession, UploadSessionState,
  build_upload_progress, get_total_file_bytes, update_session_state,
}
use django_channels_chat_rea.Upload.Attempt.{
  Try, Run, all_sessions, on_upload_progress, report_acknowledged, take_session,
}
use django_channels_chat_rea.Upload.Call.{
  Reached, all_sent, waiting, thrown, Progressed, stage_of, Created, created, not_created,
  create_sessions, Final, no_answer, finished, undecodable, not_finished, Stalls, process_by,
  finish, resolved, send_all, sent, upload_attachments, upload_ids,
}

-- The upload ids that the server gives in the answers, up to the first that is none, for so many files.
abbrev pub given_ids : List File → List Created → List Text
given_ids [] answers = []
given_ids (f ∷ files) [] = []
given_ids (f ∷ files) (created dto ∷ answers) = dto.upload_id ∷ given_ids files answers
given_ids (f ∷ files) (not_created error ∷ answers) = []

upload_ids-append :
    (xs ys : List UploadSessionState) → upload_ids (xs ++ ys) ≡ upload_ids xs ++ upload_ids ys
upload_ids-append [] ys = ground arith
upload_ids-append (x ∷ xs) ys = ground (arith, upload_ids-append xs ys)

create_sessions-ids :
    (rs : List UploadProgress) (files : List File) (answers : List Created)
    (ss : List UploadSessionState)
    → upload_ids (create_sessions rs files answers ss).sessions
      ≡ upload_ids ss ++ given_ids files answers
unfolding create_sessions
create_sessions-ids rs [] answers ss = sym (append-nil (upload_ids ss))
create_sessions-ids rs (f ∷ files) [] ss = sym (append-nil (upload_ids ss))
create_sessions-ids rs (f ∷ files) (not_created error ∷ answers) ss =
    sym (append-nil (upload_ids ss))
create_sessions-ids rs (f ∷ files) (created dto ∷ answers) ss =
    let new = record { file = f; dto = dto } ∷ [] in
    create_sessions-ids rs files answers (ss ++ new)
    ∙ rw (
      upload_ids-append ss new,
      append_assoc (upload_ids ss) (dto.upload_id ∷ []) (given_ids files answers),
    )

take_session-HaveIds :
    (ids : List Text) (total : ℕ) (payload : UploadSession) (r : Run)
    → upload_ids (all_sessions r.chunk) ≡ ids
    → upload_ids (all_sessions (take_session total payload r).chunk) ≡ ids
unfolding take_session report_acknowledged update_session_state
take_session-HaveIds ids total payload r h =
    let session = update_session_state r.chunk.session payload in
    upload_ids-append r.chunk.before (session ∷ r.chunk.after)
    ∙ sym (upload_ids-append r.chunk.before (r.chunk.session ∷ r.chunk.after))
    ∙ h

send_all-HaveIds :
    (reached : Reached) (total : ℕ) (tries : List Try) (p : Progressed)
    → upload_ids (send_all reached total tries p).sessions ≡ upload_ids p.sessions
unfolding on_upload_progress
send_all-HaveIds waiting total tries p = refl
send_all-HaveIds (thrown error) total tries p = refl
send_all-HaveIds all_sent total tries p =
    let ids = upload_ids p.sessions in
    send_chunks-keeps (λ sessions reports. upload_ids sessions ≡ ids) total (λ base e r k. k)
      (take_session-HaveIds ids total) tries (stage_of [] p.sessions p.reports)
      (stage_of-InStage (λ sessions reports. upload_ids sessions ≡ ids) [] p.sessions p.reports
        refl)

pub sent-ids :
    (files : List File) (answers : List Created) (tries : List Try)
    → upload_ids (sent files answers tries).sessions ≡ given_ids files answers
unfolding sent
sent-ids files answers tries =
    let total = get_total_file_bytes files in
    let first = build_upload_progress uploading_files (some 0) total ∷ [] in
    let p = create_sessions first files answers [] in
    send_all-HaveIds p.reached total tries p ∙ create_sessions-ids first files answers []

pub process_by-resolved :
    {R : Type 0} (stalls : Stalls) (reached : Reached) (total : ℕ) (final : Final R)
    (p : Progressed) (result : R)
    → (process_by stalls reached total final p).outcome ≡ resolved result
    → (reached ≡ all_sent)
      × ((process_by stalls reached total final p).finalized_ids ≡ some (upload_ids p.sessions))
      × ((process_by stalls reached total final p).deleted_ids ≡ [])
unfolding process_by finish
process_by-resolved stalls waiting total final p result o = ground arith
process_by-resolved stalls (thrown error) total final p result o = ground arith
process_by-resolved stalls all_sent total no_answer p result o = ground arith
process_by-resolved stalls all_sent total (finished r) p result o = (refl, refl, refl)
process_by-resolved stalls all_sent total (undecodable error) p result o = ground arith
process_by-resolved stalls all_sent total (not_finished error) p result o = ground arith

process_by-rejected :
    (R : Type 0) (stalls : Stalls) (reached : Reached) (total : ℕ) (final : Final R) (error : Error)
    (p : Progressed)
    → reached ≢ waiting
    → (reached ≡ all_sent → final ≡ not_finished error)
    → (process_by stalls reached total final p).deleted_ids ≡ upload_ids p.sessions
unfolding process_by finish
process_by-rejected R stalls waiting total final error p w f = absurd (w refl)
process_by-rejected R stalls (thrown e) total final error p w f = refl
process_by-rejected R stalls all_sent total final error p w f = rw (f refl) refl

-- A call that throws before its final request, which then is not sent, or that has this request fail,
-- deletes each session whose creation had a readable answer, in their order, and no other.
pub upload_attachments-deletes :
    (R : Type 0) (stalls : Stalls) (files : List File) (answers : List Created) (tries : List Try)
    (final : Final R) (error : Error)
    → (sent files answers tries).reached ≢ waiting
    → ((sent files answers tries).reached ≡ all_sent → final ≡ not_finished error)
    → (upload_attachments stalls files answers tries final).deleted_ids ≡ given_ids files answers
unfolding upload_attachments
upload_attachments-deletes R stalls files answers tries final error w f =
    process_by-rejected R stalls (sent files answers tries).reached (get_total_file_bytes files)
      final error (sent files answers tries) w f
    ∙ sent-ids files answers tries
