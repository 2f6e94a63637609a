-- ===== src/Inbox/Live.antt =====
-- DirectInboxProvider.tsx: what the socket's events do. `known` are the items of the render that made
-- the callback.
use django_channels_chat_rea.Common.{
  ℕ, Text, Option, none, some, List, Bool, true, false, not, if◌then◌else◌,
}
use django_channels_chat_rea.RoomRead.Snapshot.{apply_server_unread_snapshot}
use django_channels_chat_rea.Inbox.{
  DirectChatListItem, Counts, Inbox, InboxEvent, direct_unread_state, direct_inbox_item,
  direct_mark_read_ack, room_unread_state, forbidden_error, other_event, counts_of,
  apply_unread_state, load_failed, forbidden, connection_failed,
}
use django_channels_chat_rea.Inbox.Merging.{merge_item}

module _ (time_of : Text → Option ℕ) where
  abbrev merge_if_any : Option DirectChatListItem → Inbox → Inbox
  merge_if_any none s = s
  merge_if_any (some item) s = record s { items = merge_item time_of s.items item }

  abbrev apply_if_any :
      List DirectChatListItem → Option Counts → Option DirectChatListItem → Inbox → Inbox
  apply_if_any known none item s = s
  apply_if_any known (some next) item s =
      apply_unread_state time_of known next (record { ack_room_id = none; item = item }) s

  unfoldable pub handle_message : List DirectChatListItem → InboxEvent → Inbox → Inbox
  unfolding apply_unread_state merge_item
  handle_message known (direct_unread_state unread) s =
      apply_unread_state time_of known unread (record { ack_room_id = none; item = none }) s
  handle_message known (direct_inbox_item item unread) s =
      apply_if_any known unread item (merge_if_any item s)
  handle_message known (direct_mark_read_ack unread room_id) s =
      apply_unread_state time_of known unread (record { ack_room_id = room_id; item = none }) s
  handle_message known (room_unread_state counts) s = record s {
    room_unread_counts = counts;
    read_state = apply_server_unread_snapshot (counts_of counts) none s.read_state;
  }
  handle_message known forbidden_error s = record s { error = some forbidden }
  handle_message known other_event s = s

  -- The effect that applies the last unread state again, once the items have changed.
  unfoldable pub apply_again : Inbox → Inbox
  unfolding apply_unread_state
  apply_again s = apply_if_any s.items s.latest_direct_unread_state none s

-- `refresh`, cut at its await: a user is there, the answer, the failure.
unfoldable pub refresh : Bool → Inbox → Inbox
refresh has_user s = if not has_user then s else record s { loading = true; error = none }

unfoldable pub refreshed : List DirectChatListItem → Inbox → Inbox
refreshed items s = record s { items = items; loading = false }

unfoldable pub refresh_failed : Inbox → Inbox
refresh_failed s = record s { error = some load_failed; loading = false }

-- `onOpen`, and the effect of a socket that has failed.
unfoldable pub socket_opened : Inbox → Inbox
socket_opened s = record s { error = none }

unfoldable pub socket_failed : Inbox → Inbox
socket_failed s = record s { error = some connection_failed }
