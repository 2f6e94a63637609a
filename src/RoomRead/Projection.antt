-- ===== src/RoomRead/Projection.antt =====
-- RoomReadStateProvider.tsx: the entry of a room, and what it makes of the messages that are loaded.
use django_channels_chat_rea.Common.{
  ℕ, zero, suc, ◌+◌, ◌-◌, max, ltb, leb, nat_beq, ℤ, pos, leb_ℤ, Text, text_eq, trim, Option, none,
  some, List, [], ◌∷◌, Bool, true, false, not, ◌&&◌, ◌==◌, truthy, length, filter, nat_eq,
  if◌then◌else◌,
}
use django_channels_chat_rea.Message.{Message}
use django_channels_chat_rea.Number.{Number}
use django_channels_chat_rea.ActorRef.{drop_at}
use django_channels_chat_rea.RoomRead.Refs.{RoomRef, normalize_cursor}

pub record RoomReadState : Type 0 where
  pub initialized : Bool
  pub syncing : Bool
  pub server_last_read_message_id : ℕ
  pub local_last_read_message_id : ℕ
  pub first_unread_message_id : Option ℤ
  pub unread_count : ℕ
  pub loaded_unread_count : ℕ
  pub divider_message_id : Option ℤ
  pub pending_mark_read_message_id : Option ℕ
  pub last_authoritative_version : ℕ
  pub authoritative_unread_count : Option ℕ

-- `EMPTY_ROOM_READ_STATE`
abbrev pub empty_room_read_state : RoomReadState
empty_room_read_state = record {
  initialized = false;
  syncing = false;
  server_last_read_message_id = 0;
  local_last_read_message_id = 0;
  first_unread_message_id = none;
  unread_count = 0;
  loaded_unread_count = 0;
  divider_message_id = none;
  pending_mark_read_message_id = none;
  last_authoritative_version = 0;
  authoritative_unread_count = none;
}

pub record RoomReadSnapshotInput : Type 0 where
  pub room_id : RoomRef
  pub server_last_read_message_id : Option Number
  pub pending_mark_read_message_id : Option Number
  pub messages : List Message
  pub current_actor_ref : Option Text

pub record Projection : Type 0 where
  pub unread_count : ℕ
  pub loaded_unread_count : ℕ
  pub first_unread_message_id : Option ℤ

-- `messages[index]?.id ?? null`
abbrev pub id_at : List Message → ℕ → Option ℤ
id_at [] index = none
id_at (m ∷ ms) zero = some m.id
id_at (m ∷ ms) (suc index) = id_at ms index

abbrev pub or_zero : Option ℕ → ℕ
or_zero none = 0
or_zero (some n) = n

abbrev or_empty : Option Text → Text
or_empty none = []
or_empty (some value) = value

-- `value > 0 ? value : null`
abbrev pub or_null_count : ℕ → Option ℕ
or_null_count zero = none
or_null_count (suc n) = some (suc n)

-- `entry.dividerMessageId ?? projection.firstUnreadMessageId`
abbrev pub or_else_id : Option ℤ → Option ℤ → Option ℤ
or_else_id none other = other
or_else_id (some id) other = some id

module _ (lower : Text → Text) where
  -- `normalizeActorRef` of this file, which trims first and then looks for an empty text.
  unfoldable pub actor_ref : Option Text → Text
  actor_ref value = drop_at (lower (trim (or_empty value)))

  unfoldable pub is_foreign : Message → Option Text → Bool
  unfolding actor_ref
  is_foreign message current =
      if not (truthy (actor_ref current))
      then true
      else not (actor_ref (some message.public_ref) == actor_ref current)

  module _ (current : Option Text) where
    abbrev pub is_read_after : ℕ → ℕ → Message → Bool
    is_read_after server local message =
        not (leb_ℤ message.id (pos server))
        && leb_ℤ message.id (pos local)
        && is_foreign message current

    -- The loop of `countReadForeignMessagesAfterBaseline`.
    unfoldable pub count_read : ℕ → ℕ → ℕ → List Message → ℕ
    count_read server local count [] = count
    count_read server local count (message ∷ messages) =
        count_read server local (if is_read_after server local message then count + 1 else count)
          messages

    unfoldable pub count_read_foreign_messages_after_baseline : ℕ → ℕ → List Message → ℕ
    unfolding count_read
    count_read_foreign_messages_after_baseline server local messages =
        if leb local server then 0 else count_read server local 0 messages

    abbrev pub is_loaded_unread : ℕ → Message → Bool
    is_loaded_unread local message =
        not (leb_ℤ message.id (pos local)) && is_foreign message current

    unfoldable pub collect_loaded_foreign_unread_messages : ℕ → List Message → List Message
    collect_loaded_foreign_unread_messages local messages = filter (is_loaded_unread local) messages

    -- The rest of `projectUnreadState`, from the unread count on.
    unfoldable pub project_counted : ℕ → List Message → Projection
    project_counted unread_count loaded =
        if ltb unread_count 1
        then record {
          unread_count = 0;
          loaded_unread_count = length loaded;
          first_unread_message_id = none;
        }
        else if nat_beq (length loaded) 0
        then record {
          unread_count = unread_count;
          loaded_unread_count = length loaded;
          first_unread_message_id = none;
        }
        else record {
          unread_count = unread_count;
          loaded_unread_count = length loaded;
          first_unread_message_id =
              id_at loaded
                (if leb unread_count (length loaded) then length loaded - unread_count else 0);
        }

    unfoldable pub project_unread_state : List Message → ℕ → ℕ → Option ℕ → Projection
    unfolding project_counted count_read_foreign_messages_after_baseline
        collect_loaded_foreign_unread_messages
    project_unread_state messages server local none =
        let loaded = collect_loaded_foreign_unread_messages local messages in
        record {
          unread_count = length loaded;
          loaded_unread_count = length loaded;
          first_unread_message_id = id_at loaded 0;
        }
    project_unread_state messages server local (some authoritative) =
        project_counted
          (authoritative - count_read_foreign_messages_after_baseline server local messages)
          (collect_loaded_foreign_unread_messages local messages)

  unfoldable pub apply_projection : RoomReadState → RoomReadSnapshotInput → RoomReadState
  apply_projection entry input =
      let server =
        max entry.server_last_read_message_id
          (normalize_cursor input.server_last_read_message_id) in
      let pending =
        max (normalize_cursor input.pending_mark_read_message_id)
          (or_zero entry.pending_mark_read_message_id) in
      let local = max server (max entry.local_last_read_message_id pending) in
      let projection =
        project_unread_state input.current_actor_ref input.messages server local
          entry.authoritative_unread_count in
      record entry {
        initialized = true;
        syncing = false;
        server_last_read_message_id = server;
        local_last_read_message_id = local;
        pending_mark_read_message_id = or_null_count pending;
        first_unread_message_id = projection.first_unread_message_id;
        unread_count = projection.unread_count;
        loaded_unread_count = projection.loaded_unread_count;
        divider_message_id =
            if ltb 0 projection.unread_count
            then or_else_id entry.divider_message_id projection.first_unread_message_id
            else none;
      }
