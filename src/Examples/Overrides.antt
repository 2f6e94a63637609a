-- ===== src/Examples/Overrides.antt =====
-- shared/unreadOverrides/store.ts at work, in a room "r" that is written with spaces.
use django_channels_chat_rea.Common.{
  Text, text_eq, trim, text_beq, truthy, none, List, [], ◌∷◌, any, lookup, ◌&&◌, ◌==◌, ◌≡◌, refl,
  if◌then◌else◌,
}
use django_channels_chat_rea.Number.{of_ℕ}
use django_channels_chat_rea.UnreadOverrides.{
  Store, clear_unread_overrides_for_rooms, collect_settled_unread_override_room_ids,
}
use django_channels_chat_rea.UnreadOverrides.Consistency.{
  Call, sets, clears_rooms, subscribes, run, start, IsConsistent, run-IsConsistent,
  start-IsConsistent,
}
use django_channels_chat_rea.UnreadOverrides.Settling.{covers, settle-lookup}

abbrev room : Text
room = 114 ∷ []

abbrev spaced : Text
spaced = 32 ∷ 114 ∷ 32 ∷ []

abbrev calls : List Call
calls =
    subscribes 1 ∷ sets spaced (of_ℕ 3) ∷ sets (32 ∷ []) (of_ℕ 1) ∷ clears_rooms (spaced ∷ []) ∷ []

run-IsConsistent_example : IsConsistent (run calls start)
run-IsConsistent_example = run-IsConsistent calls start start-IsConsistent

abbrev overridden : Store
overridden = record {
  overrides = (room, 3) ∷ [];
  snapshot = (room, 3) ∷ [];
  listeners = [];
  notified = [];
}

settle-lookup_example :
    lookup room
      (clear_unread_overrides_for_rooms
        (collect_settled_unread_override_room_ids (spaced ∷ []) ((room, 5) ∷ []) overridden)
        overridden).overrides
    ≡ (if any (λ room_id. trim room_id == room) (spaced ∷ [])
          && truthy room
          && covers (lookup room overridden.overrides) (lookup room ((room, 5) ∷ []))
        then none
        else lookup room overridden.overrides)
settle-lookup_example = settle-lookup (spaced ∷ []) ((room, 5) ∷ []) overridden room

-- The server counts more than the override: it stays.
override_stays :
    collect_settled_unread_override_room_ids (spaced ∷ []) ((room, 5) ∷ []) overridden ≡ []
unfolding collect_settled_unread_override_room_ids trim lookup text_beq
override_stays = refl
