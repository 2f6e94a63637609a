-- ===== src/Socket/Events.antt =====
-- useReconnectingWebSocket.ts: the events that reach the hook, one after the other.
use django_channels_chat_rea.Common.{
  ℕ, Option, none, some, List, [], ◌∷◌, Bool, true, false, ◌==◌, nat_eq, if◌then◌else◌,
}
use django_channels_chat_rea.Socket.{
  Hook, Live, Options, connect, handle_open, handle_message, handle_error, handle_close,
  handle_online, handle_offline, notice_expired, start, startup_fired, stop,
}

-- A socket's events carry its number; `is_online` is what `navigator.onLine` says then.
pub data Event : Type 0 where
  opens messages errors : (number : ℕ) → Event
  closes : (number : ℕ) (is_online : Bool) (jitter : ℕ) → Event
  retry_fires startup_fires goes_online reconnects : (is_online : Bool) → Event
  goes_offline notice_fires starts stops : Event

abbrev pub is_socket : ℕ → Option Live → Bool
is_socket number none = false
is_socket number (some live) = live.number == number

abbrev pub is_set : Option ℕ → Bool
is_set none = false
is_set (some delay) = true

-- Handlers stay on the socket in hand only, a timer fires only if it is set, and the window's events
-- are heard while the hook is mounted.
unfoldable pub step : Options → Event → Hook → Hook
step o (opens number) h = if is_socket number h.socket then handle_open h else h
step o (messages number) h = if is_socket number h.socket then handle_message h else h
step o (errors number) h = if is_socket number h.socket then handle_error h else h
step o (closes number is_online jitter) h =
    if is_socket number h.socket then handle_close o is_online jitter h else h
step o (retry_fires is_online) h = if is_set h.retry_timer then connect o is_online h else h
step o (startup_fires is_online) h = if h.startup_timer then startup_fired o is_online h else h
step o (goes_online is_online) h = if h.active then handle_online o is_online h else h
step o (reconnects is_online) h = connect o is_online h
step o goes_offline h = if h.active then handle_offline h else h
step o notice_fires h = notice_expired h
step o starts h = start h
step o stops h = stop h

-- Each event with whether the hook has a URL when it comes.
unfoldable pub run : Options → List (Bool × Event) → Hook → Hook
run o [] h = h
run o ((has_url, e) ∷ es) h = run o es (step (record o { has_url = has_url }) e h)
