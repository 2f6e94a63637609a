-- ===== src/Upload/Retries.antt =====
-- uploadAttachments.ts: how often a chunk is tried.
use django_channels_chat_rea.Common.{
  ℕ, ◌+◌, ◌<◌, ◌≤◌, Option, none, some, leb, Bool, subst, sym, List, [], ◌∷◌, true, false, ◌≡◌,
  refl, ap, ◌∙◌, arith,
}
use django_channels_chat_rea.Upload.Session.{
  UploadSession, Error, update_session_state, request_failed, max_recovery_attempts,
  is_retryable_chunk_error, get_acknowledged_uploaded_bytes,
}
use django_channels_chat_rea.Upload.Attempt.{
  recover_by, recover, settle_put, attempt_chunk, take_session, report_acknowledged, ProgressEvent,
  Try, failed, Run, again, threw, all_sessions, on_upload_progress, on_events, give_up_or_retry,
}
use django_channels_chat_rea.Upload.Call.{at_work, thrown, after_attempt, send_chunks}

-- A PUT that fails, and what fetching the session after it gives.
abbrev pub failing : List ProgressEvent → Option ℕ → Option UploadSession → Try
failing events status synced = record {
  events = events;
  put = failed status;
  is_aborted = false;
  synced = synced;
}

-- The fetched session does not show that bytes of a chunk from this offset on have arrived.
abbrev pub shows_nothing : ℕ → Option UploadSession → Bool
shows_nothing offset none = true
shows_nothing offset (some session) = leb session.received_bytes offset

-- The run is at the same chunk, after so many attempts.
pub record IsAt (offset attempt : ℕ) (r : Run) : Type 0 where
  pub offset_is : r.chunk.chunk_start_offset ≡ offset
  pub attempt_is : r.chunk.attempt ≡ attempt

on_events-IsAt :
    (offset attempt total base : ℕ) (events : List ProgressEvent) (r : Run)
    → IsAt offset attempt r
    → IsAt offset attempt (on_events total base events r)
unfolding on_events on_upload_progress
on_events-IsAt offset attempt total base [] r h = h
on_events-IsAt offset attempt total base (e ∷ events) r h =
    on_events-IsAt offset attempt total base events (on_upload_progress total base e r)
      (record { offset_is = h.offset_is; attempt_is = h.attempt_is })

-- The run after the events of an attempt.
abbrev heard : ℕ → List ProgressEvent → Run → Run
heard total events r =
    on_events total (get_acknowledged_uploaded_bytes (all_sessions r.chunk)) events r

-- The run after the session has been fetched.
abbrev fetched : ℕ → Option UploadSession → Run → Run
fetched total none r = r
fetched total (some session) r = take_session total session r

fetched-IsAt :
    (offset attempt total : ℕ) (synced : Option UploadSession) (r : Run)
    → IsAt offset attempt r
    → IsAt offset attempt (fetched total synced r)
unfolding take_session report_acknowledged
fetched-IsAt offset attempt total none r h = h
fetched-IsAt offset attempt total (some session) r h = record {
  offset_is = h.offset_is;
  attempt_is = h.attempt_is;
}

-- The same run with one attempt more.
abbrev counted : Run → Run
counted r = record r { chunk = record (r.chunk) { attempt = r.chunk.attempt + 1 } }

-- Where the fetched session shows nothing of the chunk, the end of the `catch` decides.
recover_by-shows_nothing :
    (total : ℕ) (synced : Option UploadSession) (error : Error) (r : Run)
    → shows_nothing r.chunk.chunk_start_offset synced ≡ true
    → recover_by total synced error r ≡ give_up_or_retry error (fetched total synced r)
unfolding recover_by take_session report_acknowledged update_session_state
recover_by-shows_nothing total none error r h = refl
recover_by-shows_nothing total (some session) error r h = ground (arith, h)

give_up_or_retry_again :
    (status : Option ℕ) (r : Run)
    → r.chunk.attempt < max_recovery_attempts
    → is_retryable_chunk_error (request_failed status) ≡ true
    → give_up_or_retry (request_failed status) r ≡ again (counted r)
unfolding give_up_or_retry
give_up_or_retry_again status r l e = ground arith

give_up_or_retry_last :
    (status : Option ℕ) (r : Run)
    → max_recovery_attempts ≤ r.chunk.attempt
    → give_up_or_retry (request_failed status) r ≡ threw (request_failed status) r
unfolding give_up_or_retry
give_up_or_retry_last status r l = ground arith

module _ (total offset : ℕ) (events : List ProgressEvent) (synced : Option UploadSession)
    (status : Option ℕ) (later : List Try) (r : Run)
    (unseen : shows_nothing offset synced ≡ true) where
  abbrev after_failure : Run
  after_failure = fetched total synced (heard total events r)

  after_failure-IsAt : (attempt : ℕ) → IsAt offset attempt r → IsAt offset attempt after_failure
  after_failure-IsAt attempt h = fetched-IsAt offset attempt total synced (heard total events r) (
      on_events-IsAt offset attempt total (get_acknowledged_uploaded_bytes (all_sessions r.chunk))
        events r h)

  send_chunks-failed :
      (attempt : ℕ)
      → IsAt offset attempt r
      → send_chunks total (failing events status synced ∷ later) (at_work r)
        ≡ send_chunks total later
            (after_attempt (give_up_or_retry (request_failed status) after_failure))
  unfolding send_chunks attempt_chunk settle_put recover
  send_chunks-failed attempt h =
      ap (λ v. send_chunks total later (after_attempt v))
        (recover_by-shows_nothing total synced (request_failed status) (heard total events r) (
          subst (λ n. shows_nothing n synced ≡ true)
            (sym
              (on_events-IsAt offset attempt total
                (get_acknowledged_uploaded_bytes (all_sessions r.chunk)) events r h).offset_is)
            unseen))

  send_chunks_again :
      (attempt : ℕ)
      → IsAt offset attempt r
      → attempt < max_recovery_attempts
      → is_retryable_chunk_error (request_failed status) ≡ true
      → (next : Run) × IsAt offset (attempt + 1) next
        × (send_chunks total (failing events status synced ∷ later) (at_work r)
            ≡ send_chunks total later (at_work next))
  unfolding after_attempt
  send_chunks_again attempt h l e =
      let at = after_failure-IsAt attempt h in
      (
        counted after_failure,
        record { offset_is = at.offset_is; attempt_is = ap (λ n. n + 1) at.attempt_is },
        send_chunks-failed attempt h
            ∙ ap (λ v. send_chunks total later (after_attempt v))
                (give_up_or_retry_again status after_failure
                  (let same = at.attempt_is in omega (arith, same, l)) e),
      )

  send_chunks_last :
      (attempt : ℕ)
      → IsAt offset attempt r
      → max_recovery_attempts ≤ attempt
      → (send_chunks total (failing events status synced ∷ later) (at_work r)).reached
        ≡ thrown (request_failed status)
  unfolding after_attempt send_chunks
  send_chunks_last attempt h l =
      let at = after_failure-IsAt attempt h in
      ap (λ p. p.reached) (send_chunks-failed attempt h)
      ∙ ap (λ v. (send_chunks total later (after_attempt v)).reached)
          (give_up_or_retry_last status after_failure
            (let same = at.attempt_is in omega (arith, same, l)))

-- A chunk, not tried before, whose PUT fails three times, with errors that may be retried the first two
-- times, and of which the session, where it can be fetched after a failure, never shows a byte: the
-- upload ends with the third error, and there is no fourth attempt.
pub send_chunks-failing :
    (total : ℕ) (r : Run) (events events' events'' : List ProgressEvent)
    (synced synced' synced'' : Option UploadSession) (status status' status'' : Option ℕ)
    (later : List Try)
    → let offset = r.chunk.chunk_start_offset in
      r.chunk.attempt ≡ 0
      → shows_nothing offset synced ≡ true
      → shows_nothing offset synced' ≡ true
      → shows_nothing offset synced'' ≡ true
      → is_retryable_chunk_error (request_failed status) ≡ true
      → is_retryable_chunk_error (request_failed status') ≡ true
      → (send_chunks total
          (failing events status synced
            ∷ failing events' status' synced'
            ∷ failing events'' status'' synced''
            ∷ later)
          (at_work r)).reached
        ≡ thrown (request_failed status'')
send_chunks-failing total r events events' events'' synced synced' synced'' status status' status''
      later z u u' u'' e e' =
    let offset = r.chunk.chunk_start_offset in
    let last = failing events'' status'' synced'' in
    let first =
      send_chunks_again total offset events synced status
        (failing events' status' synced' ∷ last ∷ later) r u 0
        (record { offset_is = refl; attempt_is = z }) (omega arith) e in
    let second =
      send_chunks_again total offset events' synced' status' (last ∷ later) first.0 u' 1 first.1
        (omega arith) e' in
    ap (λ p. p.reached) first.2
    ∙ ap (λ p. p.reached) second.2
    ∙ send_chunks_last total offset events'' synced'' status'' later second.0 u'' 2 second.1
        (omega arith)
