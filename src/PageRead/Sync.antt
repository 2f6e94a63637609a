-- ===== src/PageRead/Sync.antt =====
-- useChatRoomPageReadState.ts: the read that is pending, and the requests that tell the server, without
-- their address and headers.
use django_channels_chat_rea.Common.{
  ℕ, ◌-◌, max, ltb, leb, ℤ, pos, leb_ℤ, Text, nat_eq, Option, none, some, List, [], ◌∷◌, Bool, true,
  not, ◌&&◌, ◌||◌, ◌==◌, if◌then◌else◌, truthy,
}
use mathlib.Core.List.{reverse}
use django_channels_chat_rea.Number.{of_ℕ}
use django_channels_chat_rea.Message.{Message}
use django_channels_chat_rea.ActorRef.{is_own_message}
use django_channels_chat_rea.RoomRead.Refs.{of_text}
use django_channels_chat_rea.RoomRead.Provider.{
  Rooms, initialize_room, apply_local_read, set_pending_mark_read, acknowledge_server_read,
}
use django_channels_chat_rea.PageRead.Storage.{
  SessionStorage, write_pending_read_to_storage, clear_pending_read_from_storage,
}

-- The room that the page is mounted for.
pub record Ids : Type 0 where
  pub room_id : Text
  pub room_id_for_requests : Text

-- What one render knows.
pub record Page : Type 0 where
  pub room_api_ref : Option Text
  -- `Boolean(user)`
  pub read_state_enabled : Bool
  pub room_data_ready : Bool
  -- `details?.kind === "direct"`
  pub is_direct : Bool
  pub resolved_room_id : Option ℕ
  pub current_actor_ref : Text
  -- `normalizeReadMessageId(details?.lastReadMessageId)`
  pub baseline : ℕ
  pub local_last_read_message_id : ℕ
  pub messages : List Message

pub record Sync : Type 0 where
  pub pending_read_flush : ℕ
  pub pending_read_floor : ℕ
  pub last_read_sent : ℕ
  -- What the timer will send, with the render that has set it.
  pub mark_read_timer : Option (Page × ℕ)
  pub storage : SessionStorage
  pub rooms : Rooms
  -- The calls of `chatController.markRead` that have not been answered, and the answered ones.
  pub in_flight : List ℕ
  pub acknowledged : List ℕ
  -- The calls of `markDirectRoomRead`, and what `navigator.sendBeacon` or `fetch` has sent.
  pub direct_rooms_read : List ℕ
  pub beacons : List ℕ

-- `navigator.sendBeacon` with what it returns, or none where there is no such function.
pub record Browser : Type 0 where
  pub send_beacon : Option Bool
  pub has_fetch : Bool

abbrev is_missing : Option Text → Bool
is_missing none = true
is_missing (some ref) = not (truthy ref)

-- One of the calls in flight has been answered.
unfoldable pub answered : ℕ → List ℕ → List ℕ
answered last_read [] = []
answered last_read (id ∷ ids) = if id == last_read then ids else id ∷ answered last_read ids

-- The id of the last of the messages, or 0.
abbrev latest_id : List Message → ℤ
latest_id [] = pos 0
latest_id (message ∷ []) = message.id
latest_id (message ∷ next ∷ messages) = latest_id (next ∷ messages)

abbrev pub tell_direct : Option ℕ → Bool → Sync → Sync
tell_direct none is_fully_read s = s
tell_direct (some room) is_fully_read s =
    if is_fully_read then record s { direct_rooms_read = room ∷ s.direct_rooms_read } else s

-- The cleanup of the page, which stops its timers.
unfoldable pub unmount : Sync → Sync
unmount s = record s { mark_read_timer = none }

module _ (ids : Ids) where
  unfoldable pub persist_pending_read : ℕ → Sync → Sync
  persist_pending_read last_read s =
      if ltb last_read 1 then s else if leb last_read s.pending_read_flush then s else record s {
        pending_read_flush = last_read;
        pending_read_floor = last_read;
        rooms =
            set_pending_mark_read (of_text ids.room_id_for_requests) (some (of_ℕ last_read))
              s.rooms;
        storage = write_pending_read_to_storage ids.room_id last_read s.storage;
      }

  unfoldable pub clear_pending_read : ℕ → Sync → Sync
  clear_pending_read up_to s = if ltb up_to s.pending_read_flush then s else record s {
    pending_read_flush = 0;
    pending_read_floor = 0;
    rooms =
        acknowledge_server_read (of_text ids.room_id_for_requests) (some (of_ℕ up_to))
          (set_pending_mark_read (of_text ids.room_id_for_requests) none s.rooms);
    storage = clear_pending_read_from_storage ids.room_id s.storage;
  }

  -- The call of `markRead`, for what has not been sent yet.
  unfoldable pub ask : ℕ → Sync → Sync
  ask last_read s =
      if leb last_read s.last_read_sent
      then s
      else record s { last_read_sent = last_read; in_flight = last_read ∷ s.in_flight }

  unfoldable pub send_mark_read_if_needed : Page → ℕ → Sync → Sync
  unfolding persist_pending_read ask
  send_mark_read_if_needed page last_read s =
      if not page.read_state_enabled || ltb last_read 1 || is_missing page.room_api_ref
      then s
      else ask last_read (persist_pending_read last_read s)

  -- The `then` of `markRead`.
  unfoldable pub mark_read_done : ℕ → Sync → Sync
  unfolding clear_pending_read answered
  mark_read_done last_read s = clear_pending_read last_read (record s {
    in_flight = answered last_read s.in_flight;
    acknowledged = last_read ∷ s.acknowledged;
  })

  -- The `catch` of `markRead`.
  unfoldable pub mark_read_failed : ℕ → Sync → Sync
  unfolding answered
  mark_read_failed last_read s = record s {
    in_flight = answered last_read s.in_flight;
    last_read_sent = if s.last_read_sent == last_read then last_read - 1 else s.last_read_sent;
  }

  unfoldable pub schedule_mark_read : Page → ℕ → Sync → Sync
  schedule_mark_read page last_read s =
      if not page.read_state_enabled || ltb last_read 1
      then s
      else record s { mark_read_timer = some (page, last_read) }

  abbrev is_sent : Option Bool → Bool → Bool
  is_sent none has_fetch = has_fetch
  is_sent (some sent) has_fetch = sent || has_fetch

  unfoldable pub flush_pending_read : Page → Browser → Sync → Sync
  unfolding persist_pending_read
  flush_pending_read page browser s =
      let candidate = max s.pending_read_flush page.local_last_read_message_id in
      if not page.read_state_enabled
        || ltb candidate 1
        || leb candidate page.baseline
        || is_missing page.room_api_ref
      then s
      else let persisted = persist_pending_read candidate s in
        record persisted {
          beacons =
              if is_sent browser.send_beacon browser.has_fetch
              then candidate ∷ persisted.beacons
              else persisted.beacons;
        }

  -- The cleanup of the effect that sends what is still pending.
  unfoldable pub send_what_is_pending : Page → Sync → Sync
  unfolding send_mark_read_if_needed
  send_what_is_pending page s =
      if not page.read_state_enabled || leb s.pending_read_flush page.baseline
      then s
      else send_mark_read_if_needed page s.pending_read_flush s

  -- The effect that sends the local cursor a little later.
  unfoldable pub schedule_local_read : Page → Bool → Sync → Sync
  unfolding schedule_mark_read
  schedule_local_read page is_settled s =
      if not is_settled
        || not page.read_state_enabled
        || ltb page.local_last_read_message_id 1
        || leb page.local_last_read_message_id page.baseline
      then s
      else schedule_mark_read page page.local_last_read_message_id s

  module _ (lower : Text → Text) where
    -- The loop of `isDirectRoomFullyRead`, over the messages from the last one on.
    unfoldable pub is_read_to : Text → ℕ → List Message → Bool
    is_read_to current last_read [] = true
    is_read_to current last_read (message ∷ earlier) =
        let rest = is_read_to current last_read earlier in
        if is_own_message lower message current then rest else leb_ℤ message.id (pos last_read)

    unfoldable pub is_direct_room_fully_read : Page → ℕ → List Message → Bool
    unfolding is_read_to
    is_direct_room_fully_read page last_read messages =
        page.read_state_enabled
        && page.is_direct
        && is_read_to page.current_actor_ref last_read (reverse messages)

    -- `markDirectRoomRead(resolvedRoomId)`, where the room has an id and is read to its end.
    unfoldable pub read_direct_room : Page → ℕ → List Message → Sync → Sync
    unfolding is_direct_room_fully_read
    read_direct_room page last_read messages s =
        tell_direct page.resolved_room_id (is_direct_room_fully_read page last_read messages) s

    abbrev pub on_timer : Option (Page × ℕ) → List Message → Sync → Sync
    on_timer none messages s = s
    on_timer (some (page, last_read)) messages s =
        read_direct_room page last_read messages
          (send_mark_read_if_needed page last_read (record s { mark_read_timer = none }))

    -- The timer of `scheduleMarkRead` goes off while the list holds `messages`.
    unfoldable pub fire_mark_read : List Message → Sync → Sync
    unfolding read_direct_room send_mark_read_if_needed
    fire_mark_read messages s = on_timer s.mark_read_timer messages s

    -- `applyRoomLocalRead` of the page.
    unfoldable pub apply_room_local_read : Page → ℕ → List Message → Sync → Sync
    apply_room_local_read page last_read messages s = record s {
      rooms =
          apply_local_read lower
            (record {
              room_id = of_text ids.room_id_for_requests;
              last_read_message_id = some (of_ℕ last_read);
              messages = messages;
              current_actor_ref = some page.current_actor_ref;
            })
            s.rooms;
    }

    -- The body of the condition of `applyViewportReadNow`.
    unfoldable pub tell_of_view : Page → ℕ → List Message → Sync → Sync
    unfolding apply_room_local_read send_mark_read_if_needed read_direct_room
    tell_of_view page last_read messages s =
        read_direct_room page last_read messages (
          send_mark_read_if_needed page last_read (apply_room_local_read page last_read messages s))

    -- `applyViewportReadNow`, where the tracker has returned `next_last_read`.
    unfoldable pub apply_viewport_read_now : Page → ℕ → List Message → Sync → Sync
    unfolding persist_pending_read tell_of_view
    apply_viewport_read_now page next_last_read messages s =
        let persisted = persist_pending_read next_last_read s in
        if ltb 0 next_last_read && leb_ℤ (pos next_last_read) (latest_id messages)
        then tell_of_view page next_last_read messages persisted
        else persisted

    -- The two effects that tell the store of the rooms what has been loaded and read.
    unfoldable pub initialize : Page → Sync → Sync
    initialize page s =
        if not page.read_state_enabled || not page.room_data_ready then s else record s {
          rooms =
              initialize_room lower
                (record {
                  room_id = of_text ids.room_id_for_requests;
                  server_last_read_message_id = some (of_ℕ page.baseline);
                  pending_mark_read_message_id = some (of_ℕ s.pending_read_flush);
                  messages = page.messages;
                  current_actor_ref = some page.current_actor_ref;
                })
                s.rooms;
        }

    unfoldable pub read_locally : Page → Sync → Sync
    unfolding apply_room_local_read
    read_locally page s =
        if not page.read_state_enabled
          || not page.room_data_ready
          || ltb page.local_last_read_message_id 1
        then s
        else apply_room_local_read page page.local_last_read_message_id page.messages s
