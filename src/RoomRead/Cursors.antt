-- ===== src/RoomRead/Cursors.antt =====
-- RoomReadStateProvider.tsx: the entries of the rooms through any calls.
use django_channels_chat_rea.Common.{◌+◌, ℤ, int_eq, Text, text_eq, nat_eq, Option, List, [], ◌∷◌}
use django_channels_chat_rea.Number.{Number}
use django_channels_chat_rea.RoomRead.Refs.{RoomRef}
use django_channels_chat_rea.RoomRead.Projection.{RoomReadSnapshotInput}
use django_channels_chat_rea.RoomRead.Entries.{
  entry_of, IsFurther, IsSettled, unchanged-Improves, Improves-trans,
}
use django_channels_chat_rea.RoomRead.Provider.{
  RoomReadLocalInput, Provider, initialize_room, apply_local_read, set_room_divider,
  set_pending_mark_read, acknowledge_server_read, mark_room_fully_read,
}
use django_channels_chat_rea.RoomRead.Snapshot.{
  normalize_unread_counts, snapshot_keys, apply_server_unread_snapshot,
}
use django_channels_chat_rea.RoomRead.Progress.{
  Progresses, initialize-Progresses, take_snapshots-Progresses, set_room_divider-Progresses,
  set_pending-Progresses, fully_read-Progresses, acknowledge_server_read-Progresses,
  apply_local_read-Progresses,
}

-- The calls of the context, but for `resetRooms`.
pub data Call : Type 0 where
  initializes : RoomReadSnapshotInput → Call
  reads : RoomReadLocalInput → Call
  gets_snapshot : List (Text × Number) → Option (List RoomRef) → Call
  sets_divider : RoomRef → Option ℤ → Call
  sets_pending : RoomRef → Option Number → Call
  acknowledges : RoomRef → Option Number → Call
  reads_fully : RoomRef → Call

module _ (lower : Text → Text) where
  unfoldable pub step : Call → Provider → Provider
  step (initializes input) p = record p { rooms = initialize_room lower input p.rooms }
  step (reads input) p = record p { rooms = apply_local_read lower input p.rooms }
  step (gets_snapshot counts room_ids) p = apply_server_unread_snapshot counts room_ids p
  step (sets_divider room_id divider) p = record p {
    rooms = set_room_divider room_id divider p.rooms;
  }
  step (sets_pending room_id id) p = record p { rooms = set_pending_mark_read room_id id p.rooms }
  step (acknowledges room_id id) p = record p { rooms = acknowledge_server_read room_id id p.rooms }
  step (reads_fully room_id) p = record p { rooms = mark_room_fully_read room_id p.rooms }

  unfoldable pub run : List Call → Provider → Provider
  unfolding step
  run [] p = p
  run (c ∷ cs) p = run cs (step c p)

module _ (lower : Text → Text) where
  step-Progresses : (c : Call) (p : Provider) → Progresses p.rooms (step lower c p).rooms
  unfolding step apply_server_unread_snapshot
  step-Progresses (initializes input) p = initialize-Progresses lower input p.rooms
  step-Progresses (reads input) p = apply_local_read-Progresses lower input p.rooms
  step-Progresses (gets_snapshot counts room_ids) p =
      let normalized = normalize_unread_counts counts in
      take_snapshots-Progresses (p.authoritative_version + 1) normalized
        (snapshot_keys room_ids p.rooms normalized) p.rooms
  step-Progresses (sets_divider room_id divider) p =
      set_room_divider-Progresses room_id divider p.rooms
  step-Progresses (sets_pending room_id id) p = set_pending-Progresses room_id id p.rooms
  step-Progresses (acknowledges room_id id) p =
      acknowledge_server_read-Progresses room_id id p.rooms
  step-Progresses (reads_fully room_id) p = fully_read-Progresses room_id p.rooms

  run-Progresses : (cs : List Call) (p : Provider) → Progresses p.rooms (run lower cs p).rooms
  unfolding run
  run-Progresses [] p key = unchanged-Improves (entry_of key p.rooms)
  run-Progresses (c ∷ cs) p key =
      Improves-trans (entry_of key p.rooms) (entry_of key (step lower c p).rooms)
        (entry_of key (run lower (c ∷ cs) p).rooms) (step-Progresses c p key)
        (run-Progresses cs (step lower c p) key)

  -- Whatever calls follow, short of a reset, neither the local nor the server's cursor of any room goes
  -- back.
  pub run-IsFurther :
      (cs : List Call) (p : Provider) (key : Text)
      → IsFurther (entry_of key p.rooms) (entry_of key (run lower cs p).rooms)
  run-IsFurther cs p key = (run-Progresses cs p key).0

  -- Whatever calls follow, short of a reset, a room stays settled once it is, as a room without an entry
  -- is: the server's cursor is not above the local one, there is no first unread message where none is
  -- unread, and an initialised room has no more unread than the server's count, where there is one,
  -- and any other room has none.
  pub run-IsSettled :
      (cs : List Call) (p : Provider) (key : Text)
      → IsSettled (entry_of key p.rooms)
      → IsSettled (entry_of key (run lower cs p).rooms)
  run-IsSettled cs p key = (run-Progresses cs p key).1
