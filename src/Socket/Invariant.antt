-- ===== src/Socket/Invariant.antt =====
-- useReconnectingWebSocket.ts: what holds of the hook between any two events.
use django_channels_chat_rea.Common.{
  ℕ, ◌+◌, ◌≤◌, ◌<◌, Option, none, some, List, [], ◌∷◌, Bool, true, false, ◌≡◌, arith, All,
}
use django_channels_chat_rea.Socket.{
  Hook, Options, online, NoticeType, Notice, lost, initial, is_open_now, without, connect,
  handle_open, handle_message, handle_error, handle_close, handle_online, handle_offline,
  notice_expired, start, startup_fired, stop,
}
use django_channels_chat_rea.Socket.Events.{
  Event, opens, messages, errors, closes, retry_fires, startup_fires, goes_online, reconnects,
  goes_offline, notice_fires, starts, stops, step, run,
}

-- The notice shown has the type that is remembered.
abbrev pub Agrees : Option NoticeType → Option Notice → Type 0
Agrees none none = Unit
Agrees (some t) (some notice) = notice.type ≡ t
Agrees _ _ = ⊥

-- A notice's timer takes down the notice that is shown.
abbrev pub Timed : Option ℕ → Option Notice → Type 0
Timed none notice = Unit
Timed (some id) notice = without id notice ≡ none

-- A retry is scheduled in less than `bound` milliseconds.
abbrev pub Within : ℕ → Option ℕ → Type 0
Within bound none = Unit
Within bound (some delay) = delay < bound

pub record IsSteady (o : Options) (h : Hook) : Type 0 where
  pub capped : h.attempt ≤ o.max_retries
  pub open_if_online :
      h.status ≡ online → h.active ≡ true → h.startup_timer ≡ false → is_open_now h.socket ≡ true
  pub agrees : Agrees h.notice_type h.connection_notice
  pub timed : Timed h.notice_timer h.connection_notice
  pub lost_after_open : h.notice_type ≡ some lost → h.has_opened ≡ true
  pub reconnecting_after_open : h.reconnecting_after_open ≡ true → h.has_opened ≡ true
  pub delayed : Within (o.max_delay_ms + 200) h.retry_timer

connect-IsSteady :
    (o : Options) (is_online : Bool) (h : Hook) → IsSteady o h → IsSteady o (connect o is_online h)
unfolding connect
connect-IsSteady o is_online h s = ground arith

handle_open-IsSteady :
    (o : Options) (h : Hook) (number : ℕ) → IsSteady o h → IsSteady o (step o (opens number) h)
unfolding step handle_open
handle_open-IsSteady o h number s = ground arith

handle_error-IsSteady : (o : Options) (h : Hook) → IsSteady o h → IsSteady o (handle_error h)
unfolding handle_error
handle_error-IsSteady o h s = ground arith

handle_close-IsSteady :
    (o : Options) (is_online : Bool) (jitter : ℕ) (h : Hook)
    → jitter < 200
    → IsSteady o h
    → IsSteady o (handle_close o is_online jitter h)
unfolding handle_close
handle_close-IsSteady o is_online jitter h j s = ground arith

handle_message-IsSteady : (o : Options) (h : Hook) → IsSteady o h → IsSteady o (handle_message h)
unfolding handle_message
handle_message-IsSteady o h s = ground arith

startup_fired-IsSteady :
    (o : Options) (is_online : Bool) (h : Hook)
    → IsSteady o h
    → IsSteady o (startup_fired o is_online h)
unfolding startup_fired
startup_fired-IsSteady o is_online h s = ground arith

handle_online-IsSteady :
    (o : Options) (is_online : Bool) (h : Hook)
    → IsSteady o h
    → IsSteady o (handle_online o is_online h)
unfolding handle_online
handle_online-IsSteady o is_online h s = ground arith

handle_offline-IsSteady : (o : Options) (h : Hook) → IsSteady o h → IsSteady o (handle_offline h)
unfolding handle_offline
handle_offline-IsSteady o h s = ground arith

notice_expired-IsSteady : (o : Options) (h : Hook) → IsSteady o h → IsSteady o (notice_expired h)
unfolding notice_expired
notice_expired-IsSteady o h s = ground arith

start-IsSteady : (o : Options) (h : Hook) → IsSteady o h → IsSteady o (start h)
unfolding start
start-IsSteady o h s = ground arith

stop-IsSteady : (o : Options) (h : Hook) → IsSteady o h → IsSteady o (stop h)
unfolding stop
stop-IsSteady o h s = ground arith

-- `Math.floor(Math.random() * 200)` is below 200.
abbrev pub IsTimely : Event → Type 0
IsTimely (closes number is_online jitter) = jitter < 200
IsTimely _ = Unit

step-IsSteady :
    (o : Options) (e : Event) (h : Hook) → IsTimely e → IsSteady o h → IsSteady o (step o e h)
unfolding step
step-IsSteady o (opens number) h j s = handle_open-IsSteady o h number s
step-IsSteady o (messages number) h j s = ground (arith, handle_message-IsSteady o h s)
step-IsSteady o (errors number) h j s = ground (arith, handle_error-IsSteady o h s)
step-IsSteady o (closes number is_online jitter) h j s =
    ground (arith, handle_close-IsSteady o is_online jitter h j s)
step-IsSteady o (retry_fires is_online) h j s = ground (arith, connect-IsSteady o is_online h s)
step-IsSteady o (startup_fires is_online) h j s =
    ground (arith, startup_fired-IsSteady o is_online h s)
step-IsSteady o (goes_online is_online) h j s =
    ground (arith, handle_online-IsSteady o is_online h s)
step-IsSteady o (reconnects is_online) h j s = connect-IsSteady o is_online h s
step-IsSteady o goes_offline h j s = ground (arith, handle_offline-IsSteady o h s)
step-IsSteady o notice_fires h j s = notice_expired-IsSteady o h s
step-IsSteady o starts h j s = start-IsSteady o h s
step-IsSteady o stops h j s = stop-IsSteady o h s

-- Whether there is a URL has no part in the invariant.
IsSteady-url :
    (o : Options) (b : Bool) (h : Hook) → IsSteady o h → IsSteady (record o { has_url = b }) h
IsSteady-url o b h s = ground arith

IsSteady-any_url :
    (o : Options) (b : Bool) (h : Hook) → IsSteady (record o { has_url = b }) h → IsSteady o h
IsSteady-any_url o b h s = ground arith

run_sound :
    (o : Options) (es : List (Bool × Event)) (h : Hook)
    → All (λ (e : Bool × Event). IsTimely e.1) es
    → IsSteady o h
    → IsSteady o (run o es h)
unfolding run
run_sound o [] h j s = s
run_sound o ((b, e) ∷ es) h j s =
    let p = record o { has_url = b } in
    run_sound o es (step p e h) j.1
      (IsSteady-any_url o b (step p e h) (step-IsSteady p e h j.0 (IsSteady-url o b h s)))

-- Through any events with a jitter below 200, also while the URL comes and goes: the attempts
-- stay within the limit, and a retry waits less than the greatest delay and 200 milliseconds; where the
-- hook is active and its startup timer is not set, the status is "online" only with an open socket
-- (after a new start it may be a stale "online" until that timer fires); the notice shown has the
-- remembered type and is the one that its timer takes down, and "lost" is said only of a connection
-- that had been open.
pub run-IsSteady :
    (o : Options) (es : List (Bool × Event))
    → All (λ (e : Bool × Event). IsTimely e.1) es
    → IsSteady o (run o es initial)
run-IsSteady o es j = run_sound o es initial j (ground arith)
