-- ===== src/Upload/Keeping.antt =====
-- uploadAttachments.ts: what each step of an attempt keeps, the whole attempt keeps, and the loops too.
use mathlib.Core.List.{append_assoc}
use django_channels_chat_rea.Common.{
  ℕ, ◌+◌, ltb, leb, Option, none, some, List, [], ◌∷◌, ◌++◌, Bool, true, false, ◌≡◌, refl, arith,
  if◌then◌else◌, Bool-cases, inl, inr, not, ◌||◌,
}
use django_channels_chat_rea.Upload.Session.{
  Error, max_recovery_attempts, invalid_payload, request_failed, UploadProgress, UploadSession,
  UploadSessionState, is_retryable_chunk_error, get_acknowledged_uploaded_bytes,
}
use django_channels_chat_rea.Upload.Attempt.{
  ProgressEvent, Put, answered, unreadable, failed, Try, Chunk, Run, Verdict, completed, again,
  threw, next_chunk, all_sessions, on_upload_progress, on_events, take_session, give_up_or_retry,
  recover_by, recover, settle_put, attempt_chunk,
}
use django_channels_chat_rea.Upload.Call.{
  Stage, at_work, over, stage_by, stage_of, after_attempt, send_chunks,
}

-- The run that an attempt leaves.
abbrev pub run_of : Verdict → Run
run_of (completed r) = r
run_of (again r) = r
run_of (threw error r) = r

module _ {ℓ} (total : ℕ) (P : Run → Type ℓ)
    (event-P : (base : ℕ) (e : ProgressEvent) (r : Run)
      → P r
      → P (on_upload_progress total base e r))
    (session-P : (payload : UploadSession) (r : Run) → P r → P (take_session total payload r))
    (retry-P : (r : Run)
      → P r
      → P (record r { chunk = record (r.chunk) { attempt = r.chunk.attempt + 1 } })) where
  if-P : (b : Bool) (v w : Verdict) → P (run_of v) → P (run_of w) → P (run_of (if b then v else w))
  if-P true v w h k = h
  if-P false v w h k = k

  events-P :
      (base : ℕ) (events : List ProgressEvent) (r : Run) → P r → P (on_events total base events r)
  unfolding on_events
  events-P base [] r h = h
  events-P base (e ∷ events) r h =
      events-P base events (on_upload_progress total base e r) (event-P base e r h)

  give_up-P : (error : Error) (r : Run) → P r → P (run_of (give_up_or_retry error r))
  unfolding give_up_or_retry
  give_up-P error r h =
      elim (Bool-cases
        (leb max_recovery_attempts r.chunk.attempt || not (is_retryable_chunk_error error))) [
          | inl e ↦ simp e h
          | inr e ↦ simp e (retry-P r h)
        ]

  recover_by-P :
      (synced : Option UploadSession) (error : Error) (r : Run)
      → P r
      → P (run_of (recover_by total synced error r))
  unfolding recover_by
  recover_by-P none error r h = give_up-P error r h
  recover_by-P (some payload) error r h =
      let updated = take_session total payload r in
      let kept = session-P payload r h in
      if-P (ltb updated.chunk.chunk_start_offset updated.chunk.session.dto.received_bytes)
        (completed updated) (give_up_or_retry error updated) kept (give_up-P error updated kept)

  recover-P : (t : Try) (error : Error) (r : Run) → P r → P (run_of (recover total t error r))
  unfolding recover
  recover-P t error r h = elim (Bool-cases t.is_aborted) [
    | inl e ↦ simp e h
    | inr e ↦ simp e (recover_by-P t.synced error r h)
  ]

  settle_put-P : (put : Put) (t : Try) (r : Run) → P r → P (run_of (settle_put total put t r))
  unfolding settle_put
  settle_put-P (answered payload) t r h = session-P payload r h
  settle_put-P unreadable t r h = recover-P t invalid_payload r h
  settle_put-P (failed status) t r h = recover-P t (request_failed status) r h

  pub attempt_chunk-P : (t : Try) (r : Run) → P r → P (run_of (attempt_chunk total t r))
  unfolding attempt_chunk
  attempt_chunk-P t r h =
      let base = get_acknowledged_uploaded_bytes (all_sessions r.chunk) in
      settle_put-P t.put t (on_events total base t.events r) (events-P base t.events r h)

next_chunk-sessions :
    (before sessions : List UploadSessionState) (c : Chunk)
    → next_chunk before sessions ≡ some c
    → all_sessions c ≡ before ++ sessions
unfolding next_chunk
next_chunk-sessions before [] c e = ground arith
next_chunk-sessions before (s ∷ sessions) c e =
    let ih = next_chunk-sessions (before ++ s ∷ []) sessions c in
    ground (arith, ih, append_assoc before (s ∷ []) sessions)

module _ {ℓ} (Q : List UploadSessionState → List UploadProgress → Type ℓ) where
  abbrev pub InRun : Run → Type ℓ
  InRun r = Q (all_sessions r.chunk) r.reports

  abbrev pub InStage : Stage → Type ℓ
  InStage (at_work r) = InRun r
  InStage (over p) = Q p.sessions p.reports

  stage_by-InStage :
      (sessions : List UploadSessionState) (reports : List UploadProgress) (next : Option Chunk)
      → ((c : Chunk) → next ≡ some c → all_sessions c ≡ sessions)
      → Q sessions reports
      → InStage (stage_by sessions reports next)
  stage_by-InStage sessions reports none a h = h
  stage_by-InStage sessions reports (some c) a h = simp (a c refl) h

  pub stage_of-InStage :
      (before sessions : List UploadSessionState) (reports : List UploadProgress)
      → Q (before ++ sessions) reports
      → InStage (stage_of before sessions reports)
  unfolding stage_of
  stage_of-InStage before sessions reports h =
      stage_by-InStage (before ++ sessions) reports (next_chunk before sessions)
        (next_chunk-sessions before sessions) h

  after_attempt-InStage : (v : Verdict) → InRun (run_of v) → InStage (after_attempt v)
  unfolding after_attempt
  after_attempt-InStage (completed r) h =
      stage_of-InStage r.chunk.before (r.chunk.session ∷ r.chunk.after) r.reports h
  after_attempt-InStage (again r) h = h
  after_attempt-InStage (threw error r) h = h

  pub send_chunks-keeps :
      (total : ℕ)
      (event-Q : (base : ℕ) (e : ProgressEvent) (r : Run)
        → InRun r
        → InRun (on_upload_progress total base e r))
      (session-Q : (payload : UploadSession) (r : Run)
        → InRun r
        → InRun (take_session total payload r))
      (tries : List Try) (s : Stage)
      → InStage s
      → let p = send_chunks total tries s in Q p.sessions p.reports
  unfolding send_chunks
  send_chunks-keeps total ev se tries (over p) h = h
  send_chunks-keeps total ev se [] (at_work r) h = h
  send_chunks-keeps total ev se (t ∷ tries) (at_work r) h =
      send_chunks-keeps total ev se tries (after_attempt (attempt_chunk total t r)) (
        after_attempt-InStage (attempt_chunk total t r)
          (attempt_chunk-P total InRun ev se (λ r k. k) t r h))
