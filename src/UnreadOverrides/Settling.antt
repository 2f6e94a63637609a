-- ===== src/UnreadOverrides/Settling.antt =====
-- shared/unreadOverrides/store.ts: which overrides a server snapshot takes down.
use django_channels_chat_rea.Common.{
  ℕ, Text, text_eq, trim, trim_idem, truthy, Option, none, some, not, ltb, List, [], ◌∷◌, Bool,
  true, false, ◌&&◌, ◌==◌, ◌≡◌, refl, arith, eq_iff, lookup, lookup-delete, any, if◌then◌else◌,
}
use django_channels_chat_rea.UnreadOverrides.{
  Store, delete_room, delete_rooms, is_settled, collect_settled_unread_override_room_ids,
  clear_unread_overrides_for_rooms, publish,
}

-- A room of the list is `key`, and not blank.
abbrev pub names : Text → List Text → Bool
names key = any (λ room_id. truthy (trim room_id) && trim room_id == key)

delete_room-lookup :
    (room_id key : Text) (state : List (Text × ℕ) × Bool)
    → lookup key (delete_room room_id state).0
      ≡ (if truthy (trim room_id) && trim room_id == key then none else lookup key state.0)
unfolding delete_room
delete_room-lookup room_id key state = ground (arith, lookup-delete (trim room_id) key state.0)

delete_rooms-lookup :
    (room_ids : List Text) (key : Text) (state : List (Text × ℕ) × Bool)
    → lookup key (delete_rooms room_ids state).0
      ≡ (if names key room_ids then none else lookup key state.0)
unfolding delete_rooms
delete_rooms-lookup [] key state = refl
delete_rooms-lookup (room_id ∷ room_ids) key state = ground (
  arith,
  delete_room-lookup room_id key state,
  delete_rooms-lookup room_ids key (delete_room room_id state),
)

is_settled-truthy :
    (m counts : List (Text × ℕ)) (key : Text) → is_settled m counts key ≡ true → truthy key ≡ true
unfolding is_settled
is_settled-truthy m counts key h = ground arith

names-collect :
    (room_ids : List Text) (counts : List (Text × ℕ)) (s : Store) (key : Text)
    → names key (collect_settled_unread_override_room_ids room_ids counts s)
      ≡ (any (λ room_id. trim room_id == key) room_ids && is_settled s.overrides counts key)
unfolding collect_settled_unread_override_room_ids
names-collect [] counts s key = refl
names-collect (room_id ∷ room_ids) counts s key = ground (
  arith,
  names-collect room_ids counts s key,
  trim_idem room_id,
  is_settled-truthy s.overrides counts (trim room_id),
  eq_iff (trim room_id) key,
)

-- A server's count, 0 where there is none, is at most the override.
abbrev pub covers : Option ℕ → Option ℕ → Bool
covers none count = false
covers (some override) none = true
covers (some override) (some count) = not (ltb override count)

is_settled-covers :
    (overrides counts : List (Text × ℕ)) (key : Text)
    → is_settled overrides counts key
      ≡ (truthy key && covers (lookup key overrides) (lookup key counts))
unfolding is_settled
is_settled-covers overrides counts key = ground arith

-- After a server snapshot has been settled, an override is gone exactly when its key is not empty, the
-- snapshot is about its room, and the server's count for it, 0 where it has none, is at most the
-- override; every other override stands as it was.
pub settle-lookup :
    (room_ids : List Text) (counts : List (Text × ℕ)) (s : Store) (key : Text)
    → let settled = collect_settled_unread_override_room_ids room_ids counts s in
      lookup key (clear_unread_overrides_for_rooms settled s).overrides ≡ (
        if any (λ room_id. trim room_id == key) room_ids
          && truthy key
          && covers (lookup key s.overrides) (lookup key counts)
        then none
        else lookup key s.overrides)
unfolding clear_unread_overrides_for_rooms publish
settle-lookup room_ids counts s key =
    let settled = collect_settled_unread_override_room_ids room_ids counts s in
    ground (
      arith,
      delete_rooms-lookup settled key (s.overrides, false),
      names-collect room_ids counts s key,
      is_settled-covers s.overrides counts key,
    )
