-- ===== src/UnreadOverrides/Consistency.antt =====
-- shared/unreadOverrides/store.ts: the snapshot that React reads, and the map.
use django_channels_chat_rea.Common.{
  ℕ, Text, text_eq, trim, trim_idem, truthy, List, [], ◌∷◌, Bool, true, false, ◌≡◌, refl, ◌∙◌,
  arith, All, Distinct, insert, insert-Distinct, delete-Distinct, insert-All, delete-All,
  delete_absent, delete,
}
use django_channels_chat_rea.Number.{Number}
use django_channels_chat_rea.UnreadOverrides.{
  Store, set_unread_override, clear_unread_override, delete_room, delete_rooms,
  normalize_unread_count, clear_unread_overrides_for_rooms, reset_unread_overrides, clear_all,
  subscribe, unsubscribe, publish,
}

-- A key is never blank and never has space round it.
abbrev pub IsRoomKey : Text → Type 0
IsRoomKey key = (truthy key ≡ true) × (trim key ≡ key)

abbrev pub IsMap : List (Text × ℕ) → Type 0
IsMap m = Distinct m × All (λ (e : Text × ℕ). IsRoomKey e.0) m

pub record IsConsistent (s : Store) : Type 0 where
  pub in_step : s.snapshot ≡ s.overrides
  pub entries : IsMap s.overrides

-- The calls of the module's functions.
pub data Call : Type 0 where
  sets : Text → Number → Call
  clears : Text → Call
  clears_rooms : List Text → Call
  resets : Call
  subscribes unsubscribes : ℕ → Call

unfoldable pub step : Call → Store → Store
step (sets room_id count) s = set_unread_override room_id count s
step (clears room_id) s = clear_unread_override room_id s
step (clears_rooms room_ids) s = clear_unread_overrides_for_rooms room_ids s
step resets s = reset_unread_overrides s
step (subscribes listener) s = subscribe listener s
step (unsubscribes listener) s = unsubscribe listener s

unfoldable pub run : List Call → Store → Store
unfolding step
run [] s = s
run (c ∷ cs) s = run cs (step c s)

abbrev pub start : Store
start = record { overrides = []; snapshot = []; listeners = []; notified = [] }

insert-IsMap :
    (key : Text) (n : ℕ) (m : List (Text × ℕ)) → IsRoomKey key → IsMap m → IsMap (insert key n m)
insert-IsMap key n m k h = (insert-Distinct key n m h.0, insert-All IsRoomKey key n m k h.1)

delete-IsMap : (key : Text) (m : List (Text × ℕ)) → IsMap m → IsMap (delete key m)
delete-IsMap key m h = (delete-Distinct key m h.0, delete-All IsRoomKey key m h.1)

publish-IsConsistent : (s : Store) (m : List (Text × ℕ)) → IsMap m → IsConsistent (publish s m)
unfolding publish
publish-IsConsistent s m h = record { in_step = refl; entries = h }

set-IsConsistent :
    (room_id : Text) (count : Number) (s : Store)
    → IsConsistent s
    → IsConsistent (set_unread_override room_id count s)
unfolding set_unread_override publish
set-IsConsistent room_id count s h = ground (
  arith,
  insert-IsMap (trim room_id) (normalize_unread_count count) s.overrides,
  trim_idem room_id,
)

clear-IsConsistent :
    (room_id : Text) (s : Store) → IsConsistent s → IsConsistent (clear_unread_override room_id s)
unfolding clear_unread_override publish
clear-IsConsistent room_id s h = ground (arith, delete-IsMap (trim room_id) s.overrides)

delete_room-IsMap :
    (room_id : Text) (state : List (Text × ℕ) × Bool)
    → IsMap state.0
    → IsMap (delete_room room_id state).0
unfolding delete_room
delete_room-IsMap room_id state h = ground (arith, delete-IsMap (trim room_id) state.0)

delete_rooms-IsMap :
    (room_ids : List Text) (state : List (Text × ℕ) × Bool)
    → IsMap state.0
    → IsMap (delete_rooms room_ids state).0
unfolding delete_rooms
delete_rooms-IsMap [] state h = h
delete_rooms-IsMap (room_id ∷ room_ids) state h =
    delete_rooms-IsMap room_ids (delete_room room_id state) (delete_room-IsMap room_id state h)

delete_room_unchanged :
    (room_id : Text) (state : List (Text × ℕ) × Bool)
    → (delete_room room_id state).1 ≡ false
    → ((delete_room room_id state).0 ≡ state.0) × (state.1 ≡ false)
unfolding delete_room
delete_room_unchanged room_id state h = ground (arith, delete_absent (trim room_id) state.0)

-- Where the loop reports no change the map is as it was.
pub delete_rooms_unchanged :
    (room_ids : List Text) (state : List (Text × ℕ) × Bool)
    → (delete_rooms room_ids state).1 ≡ false
    → ((delete_rooms room_ids state).0 ≡ state.0) × (state.1 ≡ false)
unfolding delete_rooms
delete_rooms_unchanged [] state h = (refl, h)
delete_rooms_unchanged (room_id ∷ room_ids) state h =
    let later = delete_rooms_unchanged room_ids (delete_room room_id state) h in
    let first = delete_room_unchanged room_id state later.1 in (later.0 ∙ first.0, first.1)

clear_rooms-IsConsistent :
    (room_ids : List Text) (s : Store)
    → IsConsistent s
    → IsConsistent (clear_unread_overrides_for_rooms room_ids s)
unfolding clear_unread_overrides_for_rooms publish
clear_rooms-IsConsistent room_ids s h = ground (
  arith,
  delete_rooms-IsMap room_ids (s.overrides, false) h.entries,
  delete_rooms_unchanged room_ids (s.overrides, false),
)

clear_all-IsConsistent :
    (entries : List (Text × ℕ)) (s : Store) → IsConsistent s → IsConsistent (clear_all entries s)
clear_all-IsConsistent [] s h = h
clear_all-IsConsistent (entry ∷ entries) s h = publish-IsConsistent s [] (tt, tt)

-- Every call keeps the snapshot equal to the map, its keys distinct, trimmed and not empty.
pub step-IsConsistent : (c : Call) (s : Store) → IsConsistent s → IsConsistent (step c s)
unfolding step reset_unread_overrides subscribe unsubscribe
step-IsConsistent (sets room_id count) s h = set-IsConsistent room_id count s h
step-IsConsistent (clears room_id) s h = clear-IsConsistent room_id s h
step-IsConsistent (clears_rooms room_ids) s h = clear_rooms-IsConsistent room_ids s h
step-IsConsistent resets s h = clear_all-IsConsistent s.overrides s h
step-IsConsistent (subscribes listener) s h = ground arith
step-IsConsistent (unsubscribes listener) s h = ground arith

-- Whatever the calls, from a store where that holds, as it does when the module has been loaded:
-- the snapshot that React reads is the map of the overrides, and each of its keys is a trimmed
-- room id that is not empty and stands once.
pub run-IsConsistent : (cs : List Call) (s : Store) → IsConsistent s → IsConsistent (run cs s)
unfolding run
run-IsConsistent [] s h = h
run-IsConsistent (c ∷ cs) s h = run-IsConsistent cs (step c s) (step-IsConsistent c s h)

pub start-IsConsistent : IsConsistent start
start-IsConsistent = record { in_step = refl; entries = (tt, tt) }
