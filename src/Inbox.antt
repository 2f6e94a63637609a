-- ===== src/Inbox.antt =====
-- frontend/src/shared/directInbox/DirectInboxProvider.tsx: the list of direct chats and their unread
-- counts. `time_of` is `Date.parse`, none where it is NaN. A state update takes effect at once; a
-- callback has the items of the render that made it. `unreadRoomIds`, which nothing reads, and the pings
-- are left out.
pub mod Settling
pub mod Reading
pub mod Merging
pub mod Live
use django_channels_chat_rea.Common.{
  ℕ, zero, suc, ltb, nat_beq, Text, text_eq, nat_eq, trim, truthy, show_ℕ, is_digits, parse_digits,
  Option, none, some, List, [], ◌∷◌, ◌++◌, map, Bool, true, false, not, ◌&&◌, ◌||◌, ◌==◌, filter,
  has, lookup, insert, delete, keys, if◌then◌else◌,
}
use django_channels_chat_rea.Number.{Number, not_finite, finite, of_ℕ}
use django_channels_chat_rea.RoomRead.Refs.{RoomRef, of_number, of_text, missing}
use django_channels_chat_rea.RoomRead.Provider.{Provider, mark_room_fully_read, reset_rooms}
use django_channels_chat_rea.RoomRead.Snapshot.{apply_server_unread_snapshot}
use django_channels_chat_rea.RoomRead.Publishing.{get_room_unread_count}

pub record DirectChatListItem : Type 0 where
  pub room_id : ℕ
  pub peer_public_ref : Text
  pub last_message : Text
  pub last_message_at : Text

-- The frames that go out.
pub data Frame : Type 0 where
  set_active_room_frame : Option ℕ → Frame
  mark_read_frame : ℕ → Frame

-- The counts of `DirectUnreadState`, of which the code reads nothing else.
abbrev pub Counts : Type 0
Counts = List (Text × ℕ)

pub record ApplyUnreadStateOptions : Type 0 where
  pub ack_room_id : Option ℕ
  pub item : Option DirectChatListItem

-- The texts that the user is shown.
pub data InboxError : Type 0 where
  load_failed forbidden connection_failed : InboxError

pub record Inbox : Type 0 where
  pub items : List DirectChatListItem
  pub loading : Bool
  pub error : Option InboxError
  pub unread_counts : Counts
  pub room_unread_counts : Counts
  pub active_room : RoomRef
  pub pending_mark_read_at : List (Text × ℕ)
  pub latest_direct_unread_state : Option Counts
  pub is_online : Bool
  pub read_state : Provider
  pub frames : List Frame

-- What the socket hands over, decoded.
pub data InboxEvent : Type 0 where
  direct_unread_state : Counts → InboxEvent
  direct_inbox_item : Option DirectChatListItem → Option Counts → InboxEvent
  direct_mark_read_ack : Counts → Option ℕ → InboxEvent
  room_unread_state : Counts → InboxEvent
  forbidden_error other_event : InboxEvent

abbrev parse_digits_ref : Text → Option ℕ
parse_digits_ref s =
    if not (is_digits s)
    then none
    else if nat_beq (parse_digits 0 s) 0
    then none
    else some (parse_digits 0 s)

unfoldable pub parse_room_id_ref : RoomRef → Option ℕ
parse_room_id_ref missing = none
parse_room_id_ref (of_number not_finite) = none
parse_room_id_ref (of_number (finite negative whole fraction)) =
    if negative || (nat_beq whole 0 && nat_beq fraction 0) then none else some whole
parse_room_id_ref (of_text room_id) = parse_digits_ref (trim room_id)

-- `id ? String(id) : ""`
abbrev pub key_of : Option ℕ → Text
key_of none = []
key_of (some zero) = []
key_of (some (suc n)) = show_ℕ (suc n)

-- `if (key) delete dictionary[key]`
abbrev pub without : Text → List (Text × ℕ) → List (Text × ℕ)
without key dictionary = if truthy key then delete key dictionary else dictionary

abbrev pub id_of : Option DirectChatListItem → Option ℕ
id_of none = none
id_of (some item) = some item.room_id

abbrev pub counts_of : Counts → List (Text × Number)
counts_of counts = map (λ (e : Text × ℕ). (e.0, of_ℕ e.1)) counts

-- One round of the loop: the pending read goes, or the count does.
abbrev pub settle_one : Bool → Text → List (Text × ℕ) × Counts → List (Text × ℕ) × Counts
settle_one true room_key state = (delete room_key state.0, state.1)
settle_one false room_key state = (state.0, delete room_key state.1)

module _ (time_of : Text → Option ℕ) where
  abbrev add_timestamp : Text → Option ℕ → List (Text × ℕ) → List (Text × ℕ)
  add_timestamp key none timestamps = timestamps
  add_timestamp key (some timestamp) timestamps = insert key timestamp timestamps

  unfoldable pub timestamps_into : List DirectChatListItem → List (Text × ℕ) → List (Text × ℕ)
  timestamps_into [] timestamps = timestamps
  timestamps_into (item ∷ items) timestamps =
      timestamps_into items
        (add_timestamp (show_ℕ item.room_id) (time_of item.last_message_at) timestamps)

  unfoldable pub direct_last_message_timestamps : List DirectChatListItem → List (Text × ℕ)
  unfolding timestamps_into
  direct_last_message_timestamps items = timestamps_into items []

  abbrev item_time : Option DirectChatListItem → Option ℕ
  item_time none = none
  item_time (some item) = time_of item.last_message_at

  abbrev or_time : Bool → Option ℕ → Option ℕ → Option ℕ
  or_time false time known = known
  or_time true none known = known
  or_time true (some time) known = some time

  -- `latestKnownItemTimestamp` of a room.
  abbrev pub latest_known : List DirectChatListItem → Option DirectChatListItem → Text → Option ℕ
  latest_known known item room_key =
      or_time (room_key == key_of (id_of item)) (item_time item)
        (lookup room_key (direct_last_message_timestamps known))

  abbrev pub is_after : Option ℕ → ℕ → Bool
  is_after none marked_at = false
  is_after (some timestamp) marked_at = ltb marked_at timestamp

  module _ (known : List DirectChatListItem) (item : Option DirectChatListItem) where
    -- The loop over the entries of the pending reads: the pending reads and the counts.
    unfoldable pub settle : List (Text × ℕ) → List (Text × ℕ) × Counts → List (Text × ℕ) × Counts
    settle [] state = state
    settle ((room_key, marked_at) ∷ entries) state = settle entries (
        settle_one
          (is_after (latest_known known item room_key) marked_at || not (has room_key state.1))
          room_key state)

  unfoldable pub apply_unread_state :
      List DirectChatListItem → Counts → ApplyUnreadStateOptions → Inbox → Inbox
  unfolding settle
  apply_unread_state known next options s =
      let pending = without (key_of options.ack_room_id) s.pending_mark_read_at in
      let settled = settle known options.item pending (pending, next) in
      record s {
        latest_direct_unread_state = some next;
        pending_mark_read_at = settled.0;
        unread_counts = settled.1;
        read_state =
            apply_server_unread_snapshot (counts_of settled.1)
              (some (
                map of_text (
                  map (λ (i : DirectChatListItem). show_ℕ i.room_id) known
                  ++ keys next
                  ++ keys settled.0)))
              s.read_state;
      }

  abbrev pub marked : Option ℕ → ℕ → Inbox → Inbox
  marked none now s = s
  marked (some zero) now s = s
  marked (some (suc n)) now s =
      let room_key = show_ℕ (suc n) in
      record s {
        pending_mark_read_at = insert room_key now s.pending_mark_read_at;
        read_state = record s.read_state {
          rooms = mark_room_fully_read (of_text room_key) s.read_state.rooms;
        };
        unread_counts = delete room_key s.unread_counts;
        frames = if s.is_online then s.frames ++ mark_read_frame (suc n) ∷ [] else s.frames;
      }

  unfoldable pub mark_read : RoomRef → ℕ → Inbox → Inbox
  unfolding parse_room_id_ref
  mark_read room_ref now s = marked (parse_room_id_ref room_ref) now s

unfoldable pub set_active_room : RoomRef → Inbox → Inbox
unfolding parse_room_id_ref
set_active_room room_ref s =
    let bound = record s { active_room = room_ref } in
    if not s.is_online then bound else record bound {
      frames = s.frames ++ set_active_room_frame (parse_room_id_ref room_ref) ∷ [];
    }

-- The effect that runs when the socket comes online, but for the ping.
unfoldable pub go_online : Inbox → Inbox
unfolding parse_room_id_ref
go_online s = record s {
  is_online = true;
  frames = s.frames ++ set_active_room_frame (parse_room_id_ref s.active_room) ∷ [];
}

-- The effect of a user who is gone.
unfoldable pub sign_out : Inbox → Inbox
sign_out s = record s {
  items = [];
  loading = false;
  error = none;
  unread_counts = [];
  room_unread_counts = [];
  pending_mark_read_at = [];
  latest_direct_unread_state = none;
  read_state = reset_rooms s.read_state;
}

abbrev or_other : Option ℕ → Option ℕ → Option Number
or_other none none = none
or_other none (some count) = some (of_ℕ count)
or_other (some count) other = some (of_ℕ count)

-- The count that is told for an item.
abbrev pub told_count : DirectChatListItem → Inbox → ℕ
told_count item s =
    let room_key = show_ℕ item.room_id in
    get_room_unread_count (of_number (of_ℕ item.room_id))
      (or_other (lookup room_key s.unread_counts) (lookup room_key s.room_unread_counts))
      s.read_state.rooms

unfoldable pub unread_counts_into : List DirectChatListItem → Inbox → Counts → Counts
unread_counts_into [] s counts = counts
unread_counts_into (item ∷ items) s counts = unread_counts_into items s (
    if ltb 0 (told_count item s)
    then insert (show_ℕ item.room_id) (told_count item s) counts
    else counts)

unfoldable pub unread_counts_with_read_state : Inbox → Counts
unfolding unread_counts_into
unread_counts_with_read_state s = unread_counts_into s.items s []
