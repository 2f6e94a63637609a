-- ===== src/UnreadOverrides.antt =====
-- frontend/src/shared/unreadOverrides/store.ts: the unread counts that the client knows better than
-- the server's last snapshot. The module's variables are one record; a listener is a number, and
-- `notified` is the sequence of the calls that `emit` has made.
pub mod Consistency
pub mod Changes
pub mod Settling
use django_channels_chat_rea.Common.{
  ℕ, leb, nat_beq, pos_part, Text, trim, truthy, Option, none, some, List, [], ◌∷◌, ◌++◌, Bool,
  true, false, not, ◌||◌, ◌==◌, text_eq, nat_eq, lookup, has, insert, delete, filter, any,
  if◌then◌else◌,
}
use django_channels_chat_rea.Number.{Number, not_finite, finite, trunc}

pub record Store : Type 0 where
  pub overrides : List (Text × ℕ)
  pub snapshot : List (Text × ℕ)
  pub listeners : List ℕ
  pub notified : List ℕ

emit : Store → Store
emit s = record s { notified = s.notified ++ s.listeners }

rebuild_snapshot : Store → Store
rebuild_snapshot s = record s { snapshot = s.overrides }

-- `rebuildSnapshot(); emit();` after the map has got new entries.
unfoldable pub publish : Store → List (Text × ℕ) → Store
unfolding emit rebuild_snapshot
publish s overrides = emit (rebuild_snapshot (record s { overrides = overrides }))

unfoldable pub normalize_unread_count : Number → ℕ
normalize_unread_count not_finite = 0
normalize_unread_count (finite negative whole fraction) = pos_part (trunc negative whole)

-- `prev === normalizedCount`, where `prev` may be undefined.
abbrev pub is_same : Option ℕ → ℕ → Bool
is_same none count = false
is_same (some prev) count = prev == count

unfoldable pub set_unread_override : Text → Number → Store → Store
unfolding publish normalize_unread_count
set_unread_override room_id unread_count s =
    if not (truthy (trim room_id))
    then s
    else if is_same (lookup (trim room_id) s.overrides) (normalize_unread_count unread_count)
    then s
    else publish s (insert (trim room_id) (normalize_unread_count unread_count) s.overrides)

unfoldable pub clear_unread_override : Text → Store → Store
unfolding publish
clear_unread_override room_id s =
    if not (truthy (trim room_id))
    then s
    else if not (has (trim room_id) s.overrides)
    then s
    else publish s (delete (trim room_id) s.overrides)

-- One round of the loop of `clearUnreadOverridesForRooms`: the map, and `changed`.
unfoldable pub delete_room : Text → List (Text × ℕ) × Bool → List (Text × ℕ) × Bool
delete_room room_id state =
    if not (truthy (trim room_id))
    then state
    else (delete (trim room_id) state.0, has (trim room_id) state.0 || state.1)

unfoldable pub delete_rooms : List Text → List (Text × ℕ) × Bool → List (Text × ℕ) × Bool
unfolding delete_room
delete_rooms [] state = state
delete_rooms (room_id ∷ room_ids) state = delete_rooms room_ids (delete_room room_id state)

abbrev publish_if_changed : Store → List (Text × ℕ) × Bool → Store
publish_if_changed s state =
    if not state.1 then record s { overrides = state.0 } else publish s state.0

unfoldable pub clear_unread_overrides_for_rooms : List Text → Store → Store
unfolding delete_rooms publish
clear_unread_overrides_for_rooms room_ids s =
    publish_if_changed s (delete_rooms room_ids (s.overrides, false))

abbrev pub or_zero : Option ℕ → ℕ
or_zero none = 0
or_zero (some n) = n

-- The test that one room of the snapshot is put to, its id trimmed.
unfoldable pub is_settled : List (Text × ℕ) → List (Text × ℕ) → Text → Bool
is_settled overrides counts room_id =
    if not (truthy room_id) then false else elim (lookup room_id overrides) [
      | none ↦ false
      | some local_override ↦ leb (or_zero (lookup room_id counts)) local_override
    ]

unfoldable pub collect_settled_unread_override_room_ids :
    List Text → List (Text × ℕ) → Store → List Text
unfolding is_settled
collect_settled_unread_override_room_ids [] counts s = []
collect_settled_unread_override_room_ids (room_id ∷ room_ids) counts s =
    if is_settled s.overrides counts (trim room_id)
    then trim room_id ∷ collect_settled_unread_override_room_ids room_ids counts s
    else collect_settled_unread_override_room_ids room_ids counts s

abbrev clear_all : List (Text × ℕ) → Store → Store
clear_all [] s = s
clear_all (entry ∷ entries) s = publish s []

unfoldable pub reset_unread_overrides : Store → Store
unfolding publish
reset_unread_overrides s = clear_all s.overrides s

-- `listeners.add(listener)`, and what the function that it returns does.
unfoldable pub subscribe : ℕ → Store → Store
subscribe listener s =
    if any (λ l. l == listener) s.listeners
    then s
    else record s { listeners = s.listeners ++ listener ∷ [] }

unfoldable pub unsubscribe : ℕ → Store → Store
unsubscribe listener s = record s { listeners = filter (λ l. not (l == listener)) s.listeners }
