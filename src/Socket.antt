-- ===== src/Socket.antt =====
-- frontend/src/hooks/useReconnectingWebSocket.ts: one connection that is made again when it is lost.
-- The hook's state and refs are one record. A timer is the field that it was stored in, a browser
-- event or a timer that fires is an operation, and a WebSocket is a number with its `readyState`
-- being OPEN or not; handlers that `cleanup` has taken off a socket hear of it no more.
pub mod Events
pub mod Invariant
pub mod Retries
pub mod Notices
use django_channels_chat_rea.Common.{
  ℕ, suc, ◌+◌, ◌*◌, ◌^◌, min, Option, none, some, List, [], ◌∷◌, ◌++◌, String, Bool, true, false,
  not, ◌&&◌, leb, ltb, nat_eq, ◌==◌, if◌then◌else◌,
}

pub data Status : Type 0 where
  idle connecting online offline error closed : Status

pub data NoticeType : Type 0 where
  lost restored failed : NoticeType

pub data Failure : Type 0 where
  connection_error reconnect_limit : Failure

pub record Notice : Type 0 where
  pub id : ℕ
  pub type : NoticeType
  pub message : String

pub record Live : Type 0 where
  pub number : ℕ
  pub is_open : Bool

-- Calls of the handlers that the hook was given.
pub data Called : Type 0 where
  on_open on_message on_error on_close : Called

-- The options: whether there is a URL, and the limits of reconnecting.
pub record Options : Type 0 where
  pub has_url : Bool
  pub max_retries : ℕ
  pub base_delay_ms : ℕ
  pub max_delay_ms : ℕ

pub record Hook : Type 0 where
  pub status : Status
  pub last_error : Option Failure
  pub connection_notice : Option Notice
  pub socket : Option Live
  pub created : ℕ  -- how many sockets were made
  pub attempt : ℕ
  pub retry_timer : Option ℕ  -- its delay
  pub startup_timer : Bool
  pub active : Bool
  pub has_opened : Bool
  pub reconnecting_after_open : Bool
  pub notice_type : Option NoticeType
  pub notice_id : ℕ
  pub notice_timer : Option ℕ  -- the notice that it takes down
  pub calls : List Called

abbrev pub initial : Hook
initial = record {
  status = idle;
  last_error = none;
  connection_notice = none;
  socket = none;
  created = 0;
  attempt = 0;
  retry_timer = none;
  startup_timer = false;
  active = true;
  has_opened = false;
  reconnecting_after_open = false;
  notice_type = none;
  notice_id = 0;
  notice_timer = none;
  calls = [];
}

abbrev call : Called → Hook → Hook
call c h = record h { calls = h.calls ++ c ∷ [] }

clear_retry : Hook → Hook
clear_retry h = record h { retry_timer = none }

clear_connection_notice_timer : Hook → Hook
clear_connection_notice_timer h = record h { notice_timer = none }

-- `connectionNoticeTypeRef.current === type && type === "lost"`.
abbrev pub is_lost_again : Option NoticeType → NoticeType → Bool
is_lost_again (some lost) lost = true
is_lost_again _ _ = false

-- `window.setTimeout` where `autoClearMs` is given and positive.
abbrev auto_clear_timer : ℕ → Bool → Option ℕ
auto_clear_timer id true = some id
auto_clear_timer id false = none

unfoldable pub publish_connection_notice : NoticeType → String → ℕ → Hook → Hook
unfolding clear_connection_notice_timer
publish_connection_notice type message auto_clear_ms h =
    if is_lost_again h.notice_type type then h else record (clear_connection_notice_timer h) {
      notice_type = some type;
      notice_id = h.notice_id + 1;
      connection_notice = some (record { id = h.notice_id + 1; type = type; message = message });
      notice_timer = auto_clear_timer (h.notice_id + 1) (ltb 0 auto_clear_ms);
    }

abbrev without : ℕ → Option Notice → Option Notice
without id none = none
without id (some notice) = if notice.id == id then none else some notice

notice_expired_by : Option ℕ → Hook → Hook
notice_expired_by none h = h
notice_expired_by (some id) h = record h {
  notice_timer = none;
  notice_type = none;
  connection_notice = without id h.connection_notice;
}

-- The timer of a notice fires, if one is set.
unfoldable pub notice_expired : Hook → Hook
unfolding notice_expired_by
notice_expired h = notice_expired_by h.notice_timer h

unfoldable pub cleanup : Hook → Hook
unfolding clear_retry
cleanup h = record (clear_retry h) { socket = none }

-- What every handler does on a loss: `if (hasOpenedRef.current) { … }`.
unfoldable pub mark_lost : Hook → Hook
unfolding publish_connection_notice
mark_lost h =
    if h.has_opened
    then publish_connection_notice lost "Соединение потеряно. Пытаемся восстановить..." 0
        (record h { reconnecting_after_open = true })
    else h

-- `connect`; `is_online` is `navigator.onLine`.
unfoldable pub connect : Options → Bool → Hook → Hook
unfolding cleanup mark_lost
connect o is_online h =
    if not o.has_url
    then record (cleanup h) {
      status = idle;
      last_error = none;
      connection_notice = none;
      notice_type = none;
      has_opened = false;
      reconnecting_after_open = false;
    }
    else if not is_online
    then record (mark_lost (cleanup h)) { status = offline }
    else record (cleanup h) {
      status = connecting;
      created = h.created + 1;
      socket = some (record { number = h.created; is_open = false });
    }

abbrev restore : Bool → Hook → Hook
restore true h = publish_connection_notice restored "Соединение восстановлено" 2500 h
restore false h = record (clear_connection_notice_timer h) {
  notice_type = none;
  connection_notice = none;
}

abbrev opened : Option Live → Option Live
opened none = none
opened (some live) = some (record live { is_open = true })

abbrev shut : Option Live → Option Live
shut none = none
shut (some live) = some (record live { is_open = false })

-- `socket.onopen`.
unfoldable pub handle_open : Hook → Hook
unfolding publish_connection_notice clear_connection_notice_timer
handle_open h = call on_open (
    restore h.reconnecting_after_open (record h {
      socket = opened h.socket;
      attempt = 0;
      has_opened = true;
      reconnecting_after_open = false;
      status = online;
      last_error = none;
    }))

unfoldable pub handle_message : Hook → Hook
handle_message h = call on_message h

-- `socket.onerror`.
unfoldable pub handle_error : Hook → Hook
unfolding mark_lost
handle_error h =
    call on_error
      (record (mark_lost (record h { status = error })) { last_error = some connection_error })

unfoldable pub retry_delay : Options → ℕ → ℕ → ℕ
retry_delay o attempt jitter = min o.max_delay_ms (o.base_delay_ms * 2 ^ attempt) + jitter

schedule_retry : Options → ℕ → Hook → Hook
unfolding retry_delay publish_connection_notice
schedule_retry o jitter h =
    if leb o.max_retries h.attempt
    then publish_connection_notice failed "Не удалось восстановить соединение." 0
        (record h { status = error; last_error = some reconnect_limit })
    else record h { attempt = h.attempt + 1; retry_timer = some (retry_delay o h.attempt jitter) }

-- `socket.onclose`; `jitter` is `Math.floor(Math.random() * 200)`.
unfoldable pub handle_close : Options → Bool → ℕ → Hook → Hook
unfolding mark_lost schedule_retry
handle_close o is_online jitter h =
    let heard = call on_close (record h { socket = shut h.socket }) in
    if not heard.active
    then heard
    else if not is_online
    then mark_lost (record heard { status = offline })
    else schedule_retry o jitter (mark_lost (record heard { status = closed }))

-- The window's `online` and `offline` events.
unfoldable pub handle_online : Options → Bool → Hook → Hook
unfolding connect
handle_online o is_online h = connect o is_online (record h { status = connecting })

unfoldable pub handle_offline : Hook → Hook
unfolding mark_lost cleanup
handle_offline h = cleanup (mark_lost (record h { status = offline }))

-- The effect that starts the connection, its timer, and what it returns.
unfoldable pub start : Hook → Hook
start h = record h { active = true; startup_timer = true }

unfoldable pub startup_fired : Options → Bool → Hook → Hook
unfolding connect
startup_fired o is_online h =
    let idle_timer = record h { startup_timer = false } in
    if not h.active then idle_timer else connect o is_online idle_timer

unfoldable pub stop : Hook → Hook
unfolding cleanup clear_connection_notice_timer
stop h =
    clear_connection_notice_timer (cleanup (record h { startup_timer = false; active = false }))

-- `send`: the data goes out, and the result is true, only through an open socket.
abbrev is_open_now : Option Live → Bool
is_open_now none = false
is_open_now (some live) = live.is_open

unfoldable pub send : String → Hook → Option String × Bool
send text h = if is_open_now h.socket then (some text, true) else (none, false)
