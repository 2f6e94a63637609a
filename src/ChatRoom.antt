-- ===== src/ChatRoom.antt =====
-- frontend/src/hooks/useChatRoom.ts: the history of the open room. `D` is the room's details, which
-- the hook only hands on; the refs of the hook are fields beside its state, a state update takes
-- effect at once, and an answer to a request is an operation of its own, with the request it answers.
pub mod Dedupe
pub mod System
pub mod Invariant
pub mod Stale
use django_channels_chat_rea.Common.{
  ℕ, suc, ◌+◌, ℤ, pos, negsuc, Text, text_eq, nat_eq, Option, none, some, List, [], ◌∷◌, ◌++◌, map,
  Bool, true, false, not, ◌||◌, ◌==◌, leb, any, length, if◌then◌else◌, show_ℤ,
}
use django_channels_chat_rea.Message.{Message}
use django_channels_chat_rea.Sanitize.{sanitize_text}

abbrev pub page_size : ℕ
page_size = 50

pub record ChatRoomState (D : Type 0) : Type 0 where
  pub room_id : Text
  pub details : Option D
  pub messages : List Message
  pub loading : Bool
  pub loading_more : Bool
  pub has_more : Bool
  pub next_before : Option ℤ
  pub error : Option Text

unfoldable pub sanitize_message : ℕ → Message → Message
sanitize_message max_message_length message = record message {
  content = sanitize_text message.content max_message_length;
}

unfoldable pub message_key : Message → Text
message_key message = show_ℤ message.id ++ b'-' ∷ message.created_at

-- `seen.has(key)`.
abbrev pub is_seen : Text → List Text → Bool
is_seen key = any (λ other. other == key)

unfoldable pub dedupe_from : List Text → List Message → List Message
dedupe_from seen [] = []
dedupe_from seen (message ∷ messages) =
    let key = message_key message in
    let rest = dedupe_from (if is_seen key seen then seen else key ∷ seen) messages in
    if is_seen key seen then rest else message ∷ rest

unfoldable pub dedupe_messages : List Message → List Message
unfolding dedupe_from
dedupe_messages messages = dedupe_from [] messages

-- The page's `nextBefore`: a number, `null`, or not there.
pub data NextBefore : Type 0 where
  before : ℤ → NextBefore
  is_null : NextBefore
  is_missing : NextBefore

pub record RoomMessages : Type 0 where
  pub messages : List Message
  pub has_more : Option Bool
  pub next_before : NextBefore

resolve_has_more_by : Option Bool → List Message → Bool
resolve_has_more_by none fetched = leb page_size (length fetched)
resolve_has_more_by (some has_more) fetched = has_more

unfoldable pub resolve_has_more : RoomMessages → List Message → Bool
unfolding resolve_has_more_by
resolve_has_more payload fetched = resolve_has_more_by payload.has_more fetched

first_id : List Message → Option ℤ
first_id [] = none
first_id (message ∷ messages) = some message.id

resolve_next_before_by : NextBefore → List Message → Option ℤ
resolve_next_before_by (before id) fetched = some id
resolve_next_before_by is_null fetched = none
resolve_next_before_by is_missing fetched = first_id fetched

unfoldable pub resolve_next_before : RoomMessages → List Message → Option ℤ
unfolding resolve_next_before_by first_id
resolve_next_before payload fetched = resolve_next_before_by payload.next_before fetched

module _ {D : Type 0} where
  unfoldable pub create_initial_room_state : Text → ChatRoomState D
  create_initial_room_state room_id = record {
    room_id = room_id;
    details = none;
    messages = [];
    loading = true;
    loading_more = false;
    has_more = true;
    next_before = none;
    error = none;
  }

-- The hook's state and its refs.
pub record Hook (D : Type 0) : Type 0 where
  pub state : ChatRoomState D
  pub request_id : ℕ
  pub load_more_in_flight : Bool
  pub load_more_token : ℕ

-- A request that has been sent, with what its closure holds.
pub data Request : Type 0 where
  initial : (room_id : Text) (id : ℕ) → Request
  more : (room_id : Text) (id token : ℕ) (cursor : ℤ) → Request

-- A cursor in a condition: `null` and 0 are false.
abbrev pub is_cursor : ℤ → Bool
is_cursor (pos n) = leb 1 n
is_cursor (negsuc n) = true

module _ {D : Type 0} where
  -- `loadInitial`: the hook, and the request that is sent, if any.
  unfoldable pub load_initial : Bool → Text → Hook D → Hook D × Option Request
  unfolding create_initial_room_state
  load_initial can_view room_id h = if not can_view then (h, none) else (
    record {
      state = create_initial_room_state room_id;
      request_id = h.request_id + 1;
      load_more_in_flight = false;
      load_more_token = h.load_more_token + 1;
    },
    some (initial room_id (h.request_id + 1)),
  )

  unfoldable pub initial_loaded : ℕ → Text → ℕ → D → RoomMessages → Hook D → Hook D
  initial_loaded max_length room_id id info payload h =
      if not (id == h.request_id) then h else record h {
        state = record {
          room_id = room_id;
          details = some info;
          messages = unique;
          loading = false;
          loading_more = false;
          has_more = resolve_has_more payload unique;
          next_before = resolve_next_before payload unique;
          error = none;
        };
      }
    where
      unique : List Message
      unique = dedupe_messages (map (sanitize_message max_length) payload.messages)

  unfoldable pub initial_failed : Text → ℕ → Text → Hook D → Hook D
  initial_failed room_id id load_failed h = if not (id == h.request_id) then h else record h {
    state = record (h.state) { room_id = room_id; loading = false; error = some load_failed };
  }

  no_more : Hook D → Hook D
  no_more h = record h { state = record (h.state) { has_more = false; next_before = none } }

  send_more : Text → ℤ → Hook D → Hook D × Option Request
  send_more room_id cursor h = (
    record {
      state = record (h.state) { loading_more = true };
      request_id = h.request_id + 1;
      load_more_in_flight = true;
      load_more_token = h.load_more_token + 1;
    },
    some (more room_id (h.request_id + 1) (h.load_more_token + 1) cursor),
  )

  load_more_from : Option ℤ → Text → Hook D → Hook D × Option Request
  unfolding no_more send_more
  load_more_from none room_id h = (no_more h, none)
  load_more_from (some cursor) room_id h =
      if not (is_cursor cursor) then (no_more h, none) else send_more room_id cursor h

  -- `loadMore` up to its `await`.
  unfoldable pub load_more : Bool → Text → Hook D → Hook D × Option Request
  unfolding load_more_from
  load_more can_view room_id h =
      if not can_view || h.load_more_in_flight || h.state.loading_more || not h.state.has_more
      then (h, none)
      else load_more_from h.state.next_before room_id h

  -- The `finally` of `loadMore`.
  unfoldable pub end_load_more : ℕ → Hook D → Hook D
  end_load_more token h =
      if token == h.load_more_token then record h { load_more_in_flight = false } else h

  unfoldable pub more_loaded : ℕ → Text → ℕ → ℕ → RoomMessages → Hook D → Hook D
  unfolding end_load_more
  more_loaded max_length room_id id token payload h =
      if not (id == h.request_id)
      then end_load_more token h
      else end_load_more token (record h {
        state = record (h.state) {
          room_id = room_id;
          messages = dedupe_messages (sanitized ++ h.state.messages);
          loading_more = false;
          has_more = resolve_has_more payload sanitized;
          next_before = resolve_next_before payload sanitized;
        };
      })
    where
      sanitized : List Message
      sanitized = map (sanitize_message max_length) payload.messages

  unfoldable pub more_failed : Text → ℕ → ℕ → Hook D → Hook D
  unfolding end_load_more
  more_failed room_id id token h =
      if not (id == h.request_id)
      then end_load_more token h
      else end_load_more token
          (record h { state = record (h.state) { room_id = room_id; loading_more = false } })

  unfoldable pub set_messages : ℕ → (List Message → List Message) → Hook D → Hook D
  set_messages max_length updater h = record h {
    state = record (h.state) {
      messages = dedupe_messages (map (sanitize_message max_length) (updater h.state.messages));
    };
  }

  unfoldable pub set_error : Option Text → Hook D → Hook D
  set_error error h = record h { state = record (h.state) { error = error } }

  -- What the page sees: the state, if it is about the room that the page shows.
  unfoldable pub visible_state : Text → Hook D → ChatRoomState D
  unfolding create_initial_room_state
  visible_state room_id h =
      if h.state.room_id == room_id then h.state else create_initial_room_state room_id
