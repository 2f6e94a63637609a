-- ===== src/Upload/Received.antt =====
-- uploadAttachments.ts: what the server has acknowledged when the final request goes out.
use django_channels_chat_rea.Common.{
  ℕ, ◌≤◌, ltb, Option, none, some, List, [], ◌∷◌, ◌++◌, ◌≡◌, refl, Bool-cases, inl, inr, ap, ◌∙◌,
  arith, All, All-append,
}
use django_channels_chat_rea.Upload.Session.{
  File, uploading_files, UploadProgress, UploadSessionState, build_upload_progress,
  get_total_file_bytes,
}
use django_channels_chat_rea.Upload.Attempt.{
  Try, Chunk, Run, Verdict, completed, again, threw, next_chunk, on_upload_progress,
  report_acknowledged, take_session, attempt_chunk,
}
use django_channels_chat_rea.Upload.Call.{
  Reached, all_sent, waiting, thrown, Progressed, Stage, at_work, over, stage_by, stage_of,
  after_attempt, send_chunks, Created, create_sessions, Final, Stalls, resolved, send_all, sent,
  upload_attachments,
}
use django_channels_chat_rea.Upload.Cleanup.{given_ids, sent-ids, process_by-resolved}
use django_channels_chat_rea.Upload.Keeping.{attempt_chunk-P, run_of}

-- The server has acknowledged the whole file.
abbrev pub IsReceived : UploadSessionState → Type 0
IsReceived s = s.file.size ≤ s.dto.received_bytes

abbrev BeforeReceived : Run → Type 0
BeforeReceived r = All IsReceived r.chunk.before

next_chunk-none :
    (before sessions : List UploadSessionState)
    → next_chunk before sessions ≡ none
    → All IsReceived sessions
unfolding next_chunk
next_chunk-none before [] e = tt
next_chunk-none before (s ∷ sessions) e =
    let ih = next_chunk-none (before ++ s ∷ []) sessions in ground (arith, ih)

next_chunk-before :
    (before sessions : List UploadSessionState) (c : Chunk)
    → All IsReceived before
    → next_chunk before sessions ≡ some c
    → All IsReceived c.before
unfolding next_chunk
next_chunk-before before [] c h e = ground arith
next_chunk-before before (s ∷ sessions) c h e =
    let ih = next_chunk-before (before ++ s ∷ []) sessions c in
    let got = λ (k : IsReceived s). All-append IsReceived before (s ∷ []) h (k, tt) in
    elim (Bool-cases (ltb s.dto.received_bytes s.file.size)) [
      | inl l ↦ ground (arith)
      | inr l ↦ ih (got (ground arith)) (ground arith)
    ]

-- Where the loops are over and all is sent, every file is received; where they are not, those before.
abbrev IsSafe : Stage → Type 0
IsSafe (at_work r) = BeforeReceived r
IsSafe (over p) = p.reached ≡ all_sent → All IsReceived p.sessions

stage_by-IsSafe :
    (before sessions : List UploadSessionState) (reports : List UploadProgress)
    (next : Option Chunk)
    → next_chunk before sessions ≡ next
    → All IsReceived before
    → IsSafe (stage_by (before ++ sessions) reports next)
stage_by-IsSafe before sessions reports none e h =
    λ k. All-append IsReceived before sessions h (next_chunk-none before sessions e)
stage_by-IsSafe before sessions reports (some c) e h = next_chunk-before before sessions c h e

after_attempt-IsSafe : (v : Verdict) → BeforeReceived (run_of v) → IsSafe (after_attempt v)
unfolding after_attempt
after_attempt-IsSafe (completed r) h =
    let sessions = r.chunk.session ∷ r.chunk.after in
    stage_by-IsSafe r.chunk.before sessions r.reports (next_chunk r.chunk.before sessions) refl h
after_attempt-IsSafe (again r) h = h
after_attempt-IsSafe (threw error r) h = λ k. ground arith

send_chunks-IsReceived :
    (total : ℕ) (tries : List Try) (s : Stage)
    → IsSafe s
    → (send_chunks total tries s).reached ≡ all_sent
    → All IsReceived (send_chunks total tries s).sessions
unfolding send_chunks on_upload_progress take_session report_acknowledged
send_chunks-IsReceived total tries (over p) h e = h e
send_chunks-IsReceived total [] (at_work r) h e = ground arith
send_chunks-IsReceived total (t ∷ tries) (at_work r) h e =
    let v = attempt_chunk total t r in
    let kept =
      attempt_chunk-P total BeforeReceived (λ base e' r' k. k) (λ payload r' k. k) (λ r' k. k) t r
        h in
    send_chunks-IsReceived total tries (after_attempt v) (after_attempt-IsSafe v kept) e

send_all-IsReceived :
    (reached : Reached) (total : ℕ) (tries : List Try) (p : Progressed)
    → p.reached ≡ reached
    → (send_all reached total tries p).reached ≡ all_sent
    → All IsReceived (send_all reached total tries p).sessions
unfolding stage_of
send_all-IsReceived waiting total tries p q e = ground arith
send_all-IsReceived (thrown error) total tries p q e = ground arith
send_all-IsReceived all_sent total tries p q e =
    send_chunks-IsReceived total tries (stage_of [] p.sessions p.reports)
      (stage_by-IsSafe [] p.sessions p.reports (next_chunk [] p.sessions) refl tt) e

sent-IsReceived :
    (files : List File) (answers : List Created) (tries : List Try)
    → (sent files answers tries).reached ≡ all_sent
    → All IsReceived (sent files answers tries).sessions
unfolding sent
sent-IsReceived files answers tries e =
    let total = get_total_file_bytes files in
    let first = build_upload_progress uploading_files (some 0) total ∷ [] in
    let p = create_sessions first files answers [] in
    send_all-IsReceived p.reached total tries p refl e

-- A call that resolves has had the file of each of its sessions acknowledged to the last byte; its
-- final request names the upload ids that the server gave, in the order of the files, and it
-- deletes no session.
pub upload_attachments-resolved :
    {R : Type 0} (stalls : Stalls) (files : List File) (answers : List Created) (tries : List Try)
    (final : Final R) (result : R)
    → (upload_attachments stalls files answers tries final).outcome ≡ resolved result
    → ((upload_attachments stalls files answers tries final).finalized_ids
        ≡ some (given_ids files answers))
      × ((upload_attachments stalls files answers tries final).deleted_ids ≡ [])
      × All IsReceived (sent files answers tries).sessions
unfolding upload_attachments
upload_attachments-resolved stalls files answers tries final result o =
    let p = sent files answers tries in
    let total = get_total_file_bytes files in
    let (s, f, d) = process_by-resolved stalls p.reached total final p result o in
    (f ∙ ap some (sent-ids files answers tries), d, sent-IsReceived files answers tries s)
