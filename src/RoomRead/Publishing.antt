-- ===== src/RoomRead/Publishing.antt =====
-- RoomReadStateProvider.tsx: what the provider tells, and the effect that publishes the counts.
use django_channels_chat_rea.Common.{
  ℕ, ltb, int_eq, Text, text_eq, nat_eq, Option, none, some, List, [], ◌∷◌, not, ◌||◌, lookup,
  insert, if◌then◌else◌,
}
use django_channels_chat_rea.Number.{Number, of_ℕ}
use django_channels_chat_rea.UnreadOverrides.{Store, set_unread_override}
use django_channels_chat_rea.RoomRead.Refs.{RoomRef, normalize_room_key, normalize_count}
use django_channels_chat_rea.RoomRead.Projection.{RoomReadState}
use django_channels_chat_rea.RoomRead.Provider.{Rooms, Provider, same_count}

-- `getRoomState`
unfoldable pub get_room_state_at : Option Text → Rooms → Option RoomReadState
get_room_state_at none rooms = none
get_room_state_at (some key) rooms = lookup key rooms

unfoldable pub get_room_state : RoomRef → Rooms → Option RoomReadState
unfolding get_room_state_at
get_room_state room_id rooms = get_room_state_at (normalize_room_key room_id) rooms

abbrev pub or_else_count : Option ℕ → ℕ → ℕ
or_else_count none other = other
or_else_count (some count) other = count

abbrev pub unread_of : Option RoomReadState → ℕ → ℕ
unread_of none fallback = fallback
unread_of (some room) fallback =
    if room.initialized
    then room.unread_count
    else or_else_count room.authoritative_unread_count fallback

unfoldable pub get_room_unread_count : RoomRef → Option Number → Rooms → ℕ
unfolding get_room_state
get_room_unread_count room_id fallback rooms =
    unread_of (get_room_state room_id rooms) (normalize_count fallback)

-- `unreadCounts`, of the rooms with a count above 0.
unfoldable pub unread_counts : Rooms → List (Text × ℕ)
unread_counts [] = []
unread_counts ((key, room) ∷ rooms) =
    let count = unread_of (some room) 0 in
    if ltb 0 count then (key, count) ∷ unread_counts rooms else unread_counts rooms

-- The loop of the effect, with `next` and the module of the overrides.
unfoldable pub publish_all :
    List (Text × ℕ) → Rooms → List (Text × ℕ) → Store → List (Text × ℕ) × Store
publish_all previous [] next store = (next, store)
publish_all previous ((key, room) ∷ rooms) next store =
    publish_all previous rooms
      (if room.initialized then insert key room.unread_count next else next)
      (if not room.initialized || same_count (lookup key previous) (some room.unread_count)
        then store
        else set_unread_override key (of_ℕ room.unread_count) store)

unfoldable pub publish_counts : Provider → Store → Provider × Store
unfolding publish_all
publish_counts p store =
    let published = publish_all p.published_override_counts p.rooms [] store in
    (record p { published_override_counts = published.0 }, published.1)
