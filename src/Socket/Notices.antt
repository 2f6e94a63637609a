-- ===== src/Socket/Notices.antt =====
-- useReconnectingWebSocket.ts: what the user is told, and which events count.
use django_channels_chat_rea.Common.{
  ℕ, ◌+◌, Option, none, some, List, [], ◌∷◌, ◌&&◌, leb, Bool, true, false, ◌≡◌, arith, nat_eq,
  if◌then◌else◌,
}
use django_channels_chat_rea.Socket.{
  Hook, Options, Notice, online, connecting, handle_message, notice_expired, start, stop,
  startup_fired, handle_online, clear_connection_notice_timer, lost, restored, connect, cleanup,
  mark_lost, publish_connection_notice, handle_open, handle_error, handle_close, handle_offline,
}
use django_channels_chat_rea.Socket.Events.{
  Event, opens, messages, errors, closes, retry_fires, startup_fires, goes_online, reconnects,
  goes_offline, notice_fires, starts, stops, run, step, is_socket,
}

-- The loss has been told under the number `id`, in `notice`, and it is still to be said that the
-- connection is restored; no timer takes the notice down.
pub record IsAnnounced (id : ℕ) (notice : Option Notice) (h : Hook) : Type 0 where
  pub told : h.notice_type ≡ some lost
  pub pending : h.reconnecting_after_open ≡ true
  pub opened : h.has_opened ≡ true
  pub untimed : h.notice_timer ≡ none
  pub same_id : h.notice_id ≡ id
  pub same_notice : h.connection_notice ≡ notice

-- No socket opens, and none closes, while the browser is online, with the retries used up.
abbrev pub IsFailure : Options → Event → Hook → Type 0
IsFailure o (opens number) h = ⊥
IsFailure o (closes number is_online jitter) h = (is_online && leb o.max_retries h.attempt) ≡ false
IsFailure o _ h = Unit

-- Such events, and a URL all the time.
abbrev pub AreFailures : Options → List (Bool × Event) → Hook → Type 0
AreFailures o [] h = Unit
AreFailures o ((has_url, e) ∷ es) h =
    (has_url ≡ true)
    × IsFailure o e h
    × AreFailures o es (step (record o { has_url = has_url }) e h)

module _ (o : Options) (id : ℕ) (notice : Option Notice) where
  connect-IsAnnounced :
      (is_online : Bool) (h : Hook)
      → o.has_url ≡ true
      → IsAnnounced id notice h
      → IsAnnounced id notice (connect o is_online h)
  unfolding connect mark_lost cleanup publish_connection_notice
  connect-IsAnnounced is_online h u t = ground arith

  close-IsAnnounced :
      (is_online : Bool) (jitter : ℕ) (h : Hook)
      → (is_online && leb o.max_retries h.attempt) ≡ false
      → IsAnnounced id notice h
      → IsAnnounced id notice (handle_close o is_online jitter h)
  unfolding handle_close mark_lost publish_connection_notice
  close-IsAnnounced is_online jitter h u t = ground arith

  -- Each event but an opening, and a closing without retries left, leaves the notice as it is.
  step-IsAnnounced :
      (e : Event) (h : Hook)
      → o.has_url ≡ true
      → IsFailure o e h
      → IsAnnounced id notice h
      → IsAnnounced id notice (step o e h)
  unfolding step handle_message handle_error handle_offline mark_lost cleanup
      publish_connection_notice notice_expired start stop startup_fired handle_online
      clear_connection_notice_timer
  step-IsAnnounced (opens number) h u f t = absurd f
  step-IsAnnounced (messages number) h u f t = ground arith
  step-IsAnnounced (errors number) h u f t = ground arith
  step-IsAnnounced (closes number is_online jitter) h u f t =
      ground (arith, close-IsAnnounced is_online jitter h f t)
  step-IsAnnounced (retry_fires is_online) h u f t =
      ground (arith, connect-IsAnnounced is_online h u t)
  step-IsAnnounced (startup_fires is_online) h u f t =
      ground (arith, connect-IsAnnounced is_online (record h { startup_timer = false }) u)
  step-IsAnnounced (goes_online is_online) h u f t =
      ground (arith, connect-IsAnnounced is_online (record h { status = connecting }) u)
  step-IsAnnounced (reconnects is_online) h u f t = connect-IsAnnounced is_online h u t
  step-IsAnnounced goes_offline h u f t = ground arith
  step-IsAnnounced notice_fires h u f t = ground arith
  step-IsAnnounced starts h u f t = ground arith
  step-IsAnnounced stops h u f t = ground arith

-- Once a loss has been told, it is not told again, and that the connection is restored is still to be
-- said, through any events with a URL, a connecting while offline included, in which no socket opens and
-- none closes, with the browser online, when the retries are used up: the notice and its number stay.
pub loss_told_once :
    (o : Options) (id : ℕ) (notice : Option Notice) (es : List (Bool × Event)) (h : Hook)
    → AreFailures o es h
    → IsAnnounced id notice h
    → IsAnnounced id notice (run o es h)
unfolding run
loss_told_once o id notice [] h f t = t
loss_told_once o id notice ((has_url, e) ∷ es) h f t =
    let p = record o { has_url = has_url } in
    loss_told_once o id notice es (step p e h) f.2 (step-IsAnnounced p id notice e h f.0 f.1 t)

-- A connection that opens resets the retries. After a loss it says that it is restored, with a
-- timer that takes this notice down; without one it leaves no type of notice, no timer and the
-- number of notices.
pub handle_open-notice :
    (h : Hook)
    → let after = handle_open h in
      (after.status ≡ online)
      × (after.attempt ≡ 0)
      × (after.last_error ≡ none)
      × (after.has_opened ≡ true)
      × (after.reconnecting_after_open ≡ false)
      × (after.notice_type ≡ (if h.reconnecting_after_open then some restored else none))
      × (after.notice_timer ≡ (if h.reconnecting_after_open then some (h.notice_id + 1) else none))
      × (after.notice_id ≡ (if h.reconnecting_after_open then h.notice_id + 1 else h.notice_id))
unfolding handle_open
handle_open-notice h = (
  ground arith,
  ground arith,
  ground arith,
  ground arith,
  ground arith,
  ground arith,
  ground arith,
  ground arith,
)

-- An event of a socket that has been replaced or closed by the hook changes nothing.
pub step-stale :
    (o : Options) (number : ℕ) (is_online : Bool) (jitter : ℕ) (h : Hook)
    → is_socket number h.socket ≡ false
    → (step o (opens number) h ≡ h)
      × (step o (messages number) h ≡ h)
      × (step o (errors number) h ≡ h)
      × (step o (closes number is_online jitter) h ≡ h)
unfolding step
step-stale o number is_online jitter h s = (rw s, rw s, rw s, rw s)
