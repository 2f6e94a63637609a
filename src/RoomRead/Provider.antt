-- ===== src/RoomRead/Provider.antt =====
-- RoomReadStateProvider.tsx: the calls of the context, and the effect that publishes the counts.
use django_channels_chat_rea.Common.{
  ℕ, max, ltb, ℤ, int_eq, Text, text_eq, nat_eq, Option, none, some, List, [], Bool, true, false,
  not, ◌&&◌, ◌==◌, lookup, insert, if◌then◌else◌,
}
use django_channels_chat_rea.Message.{Message}
use django_channels_chat_rea.Number.{Number}
use django_channels_chat_rea.RoomRead.Refs.{RoomRef, normalize_room_key, normalize_cursor}
use django_channels_chat_rea.RoomRead.Projection.{
  RoomReadState, empty_room_read_state, RoomReadSnapshotInput, project_unread_state,
  apply_projection, or_null_count,
}

abbrev pub Rooms : Type 0
Rooms = List (Text × RoomReadState)

pub record RoomReadLocalInput : Type 0 where
  pub room_id : RoomRef
  pub last_read_message_id : Option Number
  pub messages : List Message
  pub current_actor_ref : Option Text

-- The provider's state and its two refs.
pub record Provider : Type 0 where
  pub rooms : Rooms
  pub authoritative_version : ℕ
  pub published_override_counts : List (Text × ℕ)

-- `prev[roomKey] ?? EMPTY_ROOM_READ_STATE`
abbrev pub entry_or_empty : Option RoomReadState → RoomReadState
entry_or_empty none = empty_room_read_state
entry_or_empty (some entry) = entry

abbrev pub same_count : Option ℕ → Option ℕ → Bool
same_count none none = true
same_count (some a) (some b) = a == b
same_count _ _ = false

abbrev pub same_id : Option ℤ → Option ℤ → Bool
same_id none none = true
same_id (some a) (some b) = a == b
same_id _ _ = false

abbrev pub same_flag : Bool → Bool → Bool
same_flag true b = b
same_flag false b = not b

-- The test of `initializeRoom` that nothing has changed.
abbrev pub is_unchanged : Option RoomReadState → RoomReadState → Bool
is_unchanged none next = false
is_unchanged (some prev) next =
    same_flag prev.initialized next.initialized
    && prev.unread_count == next.unread_count
    && prev.loaded_unread_count == next.loaded_unread_count
    && same_id prev.first_unread_message_id next.first_unread_message_id
    && prev.local_last_read_message_id == next.local_last_read_message_id
    && prev.server_last_read_message_id == next.server_last_read_message_id
    && same_count prev.pending_mark_read_message_id next.pending_mark_read_message_id

-- A call for a room whose reference has no key does nothing.
abbrev pub on_key : Option Text → (Text → Rooms → Rooms) → Rooms → Rooms
on_key none f rooms = rooms
on_key (some key) f rooms = f key rooms

-- An updater that asks whether the room has an entry.
abbrev pub on_entry : Option RoomReadState → (RoomReadState → Rooms) → Rooms → Rooms
on_entry none f rooms = rooms
on_entry (some entry) f rooms = f entry

module _ (lower : Text → Text) where
  unfoldable pub initialize_room_at : RoomReadSnapshotInput → Text → Rooms → Rooms
  unfolding apply_projection
  initialize_room_at input key rooms =
      let next = apply_projection lower (entry_or_empty (lookup key rooms)) input in
      if is_unchanged (lookup key rooms) next then rooms else insert key next rooms

  unfoldable pub initialize_room : RoomReadSnapshotInput → Rooms → Rooms
  unfolding initialize_room_at
  initialize_room input rooms =
      on_key (normalize_room_key input.room_id) (initialize_room_at input) rooms

  -- The entry after a local read up to `local`.
  unfoldable pub read_locally : RoomReadLocalInput → ℕ → RoomReadState → RoomReadState
  unfolding project_unread_state
  read_locally input local entry =
      let projection =
        project_unread_state lower input.current_actor_ref input.messages
          entry.server_last_read_message_id local entry.authoritative_unread_count in
      record entry {
        initialized = true;
        local_last_read_message_id = local;
        first_unread_message_id = projection.first_unread_message_id;
        unread_count = projection.unread_count;
        loaded_unread_count = projection.loaded_unread_count;
        divider_message_id =
            if ltb 0 projection.unread_count then entry.divider_message_id else none;
      }

  unfoldable pub apply_local_read_at : RoomReadLocalInput → ℕ → Text → Rooms → Rooms
  unfolding read_locally
  apply_local_read_at input last_read key rooms =
      let entry = entry_or_empty (lookup key rooms) in
      let local = max entry.local_last_read_message_id last_read in
      if local == entry.local_last_read_message_id
      then rooms
      else insert key (read_locally input local entry) rooms

  unfoldable pub apply_local_read : RoomReadLocalInput → Rooms → Rooms
  unfolding apply_local_read_at normalize_cursor
  apply_local_read input rooms =
      let last_read = normalize_cursor input.last_read_message_id in
      if ltb last_read 1
      then rooms
      else on_key (normalize_room_key input.room_id) (apply_local_read_at input last_read) rooms

unfoldable pub set_room_divider_at : Option ℤ → Text → Rooms → Rooms
set_room_divider_at divider key rooms =
    on_entry (lookup key rooms)
      (λ entry.
        if same_id entry.divider_message_id divider
        then rooms
        else insert key (record entry { divider_message_id = divider }) rooms)
      rooms

unfoldable pub set_room_divider : RoomRef → Option ℤ → Rooms → Rooms
unfolding set_room_divider_at
set_room_divider room_id divider rooms =
    on_key (normalize_room_key room_id) (set_room_divider_at divider) rooms

unfoldable pub set_pending_mark_read_at : Option ℕ → Text → Rooms → Rooms
set_pending_mark_read_at next key rooms =
    let entry = entry_or_empty (lookup key rooms) in
    if same_count entry.pending_mark_read_message_id next
    then rooms
    else insert key (record entry { pending_mark_read_message_id = next }) rooms

unfoldable pub set_pending_mark_read : RoomRef → Option Number → Rooms → Rooms
unfolding set_pending_mark_read_at normalize_cursor
set_pending_mark_read room_id message_id rooms =
    on_key (normalize_room_key room_id)
      (set_pending_mark_read_at (or_null_count (normalize_cursor message_id))) rooms

-- The entry once the server has acknowledged `message_id`.
unfoldable pub acknowledge : ℕ → RoomReadState → RoomReadState
acknowledge message_id entry =
    let server = max entry.server_last_read_message_id message_id in
    record entry {
      server_last_read_message_id = server;
      local_last_read_message_id = max entry.local_last_read_message_id server;
      pending_mark_read_message_id = none;
    }

abbrev pub is_acknowledged : RoomReadState → RoomReadState → Bool
is_acknowledged entry next =
    next.server_last_read_message_id == entry.server_last_read_message_id
    && next.local_last_read_message_id == entry.local_last_read_message_id
    && same_count entry.pending_mark_read_message_id none

unfoldable pub acknowledge_server_read_at : ℕ → Text → Rooms → Rooms
unfolding acknowledge
acknowledge_server_read_at message_id key rooms =
    on_entry (lookup key rooms)
      (λ entry.
        if is_acknowledged entry (acknowledge message_id entry)
        then rooms
        else insert key (acknowledge message_id entry) rooms)
      rooms

unfoldable pub acknowledge_server_read : RoomRef → Option Number → Rooms → Rooms
unfolding acknowledge_server_read_at normalize_cursor
acknowledge_server_read room_id message_id rooms =
    let id = normalize_cursor message_id in
    if ltb id 1
    then rooms
    else on_key (normalize_room_key room_id) (acknowledge_server_read_at id) rooms

-- The entry once the room is read to its end.
unfoldable pub fully_read : RoomReadState → RoomReadState
fully_read entry = record entry {
  authoritative_unread_count = some 0;
  unread_count = 0;
  loaded_unread_count = 0;
  first_unread_message_id = none;
  divider_message_id = none;
  pending_mark_read_message_id = none;
}

unfoldable pub mark_room_fully_read_at : Text → Rooms → Rooms
unfolding fully_read
mark_room_fully_read_at key rooms =
    insert key (fully_read (entry_or_empty (lookup key rooms))) rooms

unfoldable pub mark_room_fully_read : RoomRef → Rooms → Rooms
unfolding mark_room_fully_read_at
mark_room_fully_read room_id rooms =
    on_key (normalize_room_key room_id) mark_room_fully_read_at rooms

unfoldable pub reset_rooms : Provider → Provider
reset_rooms p = record p { rooms = []; published_override_counts = [] }
