-- ===== src/Realtime/Rooms.antt =====
-- useChatRoomPageRealtime.ts: events of other rooms, and events without a room.
use django_channels_chat_rea.Common.{
  ℕ, ℤ, Text, int_eq, Option, none, some, false, ◌≡◌, ◌≢◌, arith, eq_iff,
}
use django_channels_chat_rea.WsEvent.{
  ChatWsEvent, chat_message, typing, message_edit, message_delete, reaction_add, reaction_remove,
  read_receipt,
}
use django_channels_chat_rea.Realtime.{Context, Page, matches_room_id, handle_message}

-- The room that an event names.
abbrev pub event_room : ChatWsEvent → Option ℤ
event_room (chat_message m) = m.room_id
event_room (typing t) = t.room_id
event_room (message_edit e) = e.room_id
event_room (message_delete d) = d.room_id
event_room (reaction_add r) = r.room_id
event_room (reaction_remove r) = r.room_id
event_room (read_receipt r) = some r.room_id
event_room _ = none

matches_room_id_other :
    (c : Context) (e : Option ℤ) (room other : ℤ)
    → c.room_realtime_id ≡ some room
    → e ≡ some other
    → other ≢ room
    → matches_room_id c e ≡ false
unfolding matches_room_id
matches_room_id_other c e room other h k ne = ground (arith, eq_iff other room)

-- An event that names another room changes nothing of the page: not its messages, reactions, typists,
-- receipts or error, and calls nothing outside.
pub handle_message-other_room :
    (lower : Text → Text) (c : Context) (clock : ℕ) (now : Text) (e : ChatWsEvent) (p : Page)
    (room other : ℤ)
    → c.room_realtime_id ≡ some room
    → event_room e ≡ some other
    → other ≢ room
    → handle_message lower c clock now e p ≡ p
unfolding handle_message
handle_message-other_room lower c clock now (chat_message m) p room other h k ne =
    rw (matches_room_id_other c m.room_id room other h k ne)
handle_message-other_room lower c clock now (typing t) p room other h k ne =
    rw (matches_room_id_other c t.room_id room other h k ne)
handle_message-other_room lower c clock now (message_edit x) p room other h k ne =
    rw (matches_room_id_other c x.room_id room other h k ne)
handle_message-other_room lower c clock now (message_delete d) p room other h k ne =
    rw (matches_room_id_other c d.room_id room other h k ne)
handle_message-other_room lower c clock now (reaction_add r) p room other h k ne =
    rw (matches_room_id_other c r.room_id room other h k ne)
handle_message-other_room lower c clock now (reaction_remove r) p room other h k ne =
    rw (matches_room_id_other c r.room_id room other h k ne)
handle_message-other_room lower c clock now (read_receipt r) p room other h k ne =
    rw (matches_room_id_other c (some r.room_id) room other h k ne)
handle_message-other_room lower c clock now _ p room other h k ne = cc
