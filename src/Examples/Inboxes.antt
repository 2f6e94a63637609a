-- ===== src/Examples/Inboxes.antt =====
-- DirectInboxProvider.tsx at work: chat 7 is read at the time 20, and its last message came at 10.
use django_channels_chat_rea.Common.{
  ℕ, nat_beq, nat_eq, Text, text_eq, text_beq, Option, none, some, List, [], ◌∷◌, Bool, true, false,
  not, any, ◌&&◌, ◌||◌, ◌≡◌, refl, trim, trim_start, show_ℕ, show_from, lookup, insert,
}
use django_channels_chat_rea.Number.{of_ℕ}
use django_channels_chat_rea.RoomRead.Refs.{of_number, missing, normalize_room_key}
use django_channels_chat_rea.RoomRead.Publishing.{get_room_unread_count}
use django_channels_chat_rea.Inbox.{
  DirectChatListItem, ApplyUnreadStateOptions, Inbox, apply_unread_state, mark_read,
  direct_last_message_timestamps, timestamps_into,
}
use django_channels_chat_rea.Inbox.Merging.{IsSorted, count_of, merge_item, merge_item-IsSorted}
use django_channels_chat_rea.Inbox.Reading.{mark_read-stays_read}

-- A date is a single unit here, and its time.
abbrev time_of : Text → Option ℕ
time_of [] = none
time_of (c ∷ s) = some c

abbrev chat : ℕ → ℕ → DirectChatListItem
chat room time = record {
  room_id = room;
  peer_public_ref = 98 ∷ [];
  last_message = [];
  last_message_at = time ∷ [];
}

abbrev inbox : Inbox
inbox = record {
  items = chat 7 10 ∷ [];
  loading = false;
  error = none;
  unread_counts = (55 ∷ [], 2) ∷ [];
  room_unread_counts = [];
  active_room = missing;
  pending_mark_read_at = [];
  latest_direct_unread_state = none;
  is_online = true;
  read_state = record { rooms = []; authoritative_version = 0; published_override_counts = [] };
  frames = [];
}

abbrev plain : ApplyUnreadStateOptions
plain = record { ack_room_id = none; item = none }

mark_read-stays_read_example :
    get_room_unread_count
      (of_number (of_ℕ 7))
      none
      (apply_unread_state time_of
        (chat 7 10 ∷ [])
        ((55 ∷ [], 2) ∷ [])
        plain
        (mark_read time_of (of_number (of_ℕ 7)) 20 inbox)).read_state.rooms
    ≡ 0
unfolding normalize_room_key trim trim_start show_ℕ show_from direct_last_message_timestamps
    timestamps_into lookup insert text_beq
mark_read-stays_read_example =
    mark_read-stays_read time_of 6 20 none (chat 7 10 ∷ []) ((55 ∷ [], 2) ∷ []) plain inbox
      (refl, tt) tt refl refl

abbrev prev : List DirectChatListItem
prev = chat 3 12 ∷ chat 7 10 ∷ []

abbrev is_3 : DirectChatListItem → Bool
is_3 item = nat_beq item.room_id 3

merge_item-IsSorted_example :
    IsSorted time_of (merge_item time_of prev (chat 7 15))
    × (count_of 7 (merge_item time_of prev (chat 7 15)) ≡ 1)
    × (any is_3 (merge_item time_of prev (chat 7 15))
        ≡ (is_3 (chat 7 15) || any (λ i. not (nat_beq i.room_id 7) && is_3 i) prev))
merge_item-IsSorted_example = merge_item-IsSorted time_of prev (chat 7 15) 7 is_3
