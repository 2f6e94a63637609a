-- ===== src/RoomRead/Keyed.antt =====
-- RoomReadStateProvider.tsx: which keys the dictionary of the rooms has.
use django_channels_chat_rea.Common.{
  ℕ, int_eq, Text, text_eq, nat_eq, Option, none, some, List, [], ◌∷◌, Bool, true, false, arith,
  lookup, insert, keys, Distinct, insert-Distinct, insert-All, All, All-append, if◌then◌else◌,
}
use django_channels_chat_rea.Number.{Number}
use django_channels_chat_rea.UnreadOverrides.Consistency.{IsRoomKey}
use django_channels_chat_rea.RoomRead.Refs.{
  RoomRef, of_text, normalize_room_key, normalize_count, normalize_cursor,
}
use django_channels_chat_rea.RoomRead.Keys.{IsKeyIfAny, normalize_room_key-IsKeyIfAny}
use django_channels_chat_rea.RoomRead.Projection.{RoomReadState}
use django_channels_chat_rea.RoomRead.Provider.{
  Rooms, Provider, initialize_room_at, initialize_room, apply_local_read_at, apply_local_read,
  set_room_divider_at, set_room_divider, set_pending_mark_read_at, set_pending_mark_read,
  acknowledge_server_read_at, acknowledge_server_read, mark_room_fully_read_at,
  mark_room_fully_read, on_key, on_entry, same_id, is_acknowledged, acknowledge,
}
use django_channels_chat_rea.RoomRead.Snapshot.{
  add_count, normalize_unread_counts_into, normalize_unread_counts, add_key, add_keys, add_scoped,
  scoped_keys, scope, snapshot_keys, take_snapshot_at, take_snapshots, apply_server_unread_snapshot,
}
use django_channels_chat_rea.RoomRead.Cursors.{
  Call, initializes, reads, gets_snapshot, sets_divider, sets_pending, acknowledges, reads_fully,
  step,
}

-- No key stands twice, and each is one that the overrides can have.
abbrev pub IsKeyed {ℓ} : {V : Type ℓ} → List (Text × V) → Type 0
IsKeyed dict = Distinct dict × All (λ entry. IsRoomKey entry.0) dict

insert-IsKeyed {ℓ} :
    {V : Type ℓ} (key : Text) (value : V) (dict : List (Text × V))
    → IsRoomKey key
    → IsKeyed dict
    → IsKeyed (insert key value dict)
insert-IsKeyed key value dict k h =
    (insert-Distinct key value dict h.0, insert-All IsRoomKey key value dict k h.1)

if-IsKeyed :
    (same : Bool) (key : Text) (next : RoomReadState) (rooms : Rooms)
    → IsRoomKey key
    → IsKeyed rooms
    → IsKeyed (if same then rooms else insert key next rooms)
if-IsKeyed true key next rooms k h = h
if-IsKeyed false key next rooms k h = insert-IsKeyed key next rooms k h

on_key-IsKeyed :
    (key : Option Text) (f : Text → Rooms → Rooms) (rooms : Rooms)
    → IsKeyIfAny key
    → ((key : Text) → IsRoomKey key → IsKeyed (f key rooms))
    → IsKeyed rooms
    → IsKeyed (on_key key f rooms)
on_key-IsKeyed none f rooms k g h = h
on_key-IsKeyed (some key) f rooms k g h = g key k

on_entry-IsKeyed :
    (key : Text) (found : Option RoomReadState) (unchanged : RoomReadState → Bool)
    (f : RoomReadState → RoomReadState) (rooms : Rooms)
    → IsRoomKey key
    → IsKeyed rooms
    → IsKeyed (
        on_entry found
          (λ entry. if unchanged entry then rooms else insert key (f entry) rooms)
          rooms)
on_entry-IsKeyed key none unchanged f rooms k h = h
on_entry-IsKeyed key (some entry) unchanged f rooms k h =
    if-IsKeyed (unchanged entry) key (f entry) rooms k h

-- The same for a list of keys.
add_keys-All :
    (more set : List Text)
    → All IsRoomKey more
    → All IsRoomKey set
    → All IsRoomKey (add_keys more set)
unfolding add_keys
add_keys-All [] set m h = h
add_keys-All (key ∷ more) set m h =
    add_keys-All more (add_key key set) m.1
      (ground (arith, h, All-append IsRoomKey set (key ∷ []) h (m.0, tt)))

add_scoped-All :
    (key : Option Text) (more : List Text)
    → IsKeyIfAny key
    → All IsRoomKey more
    → All IsRoomKey (add_scoped key more)
add_scoped-All none more k h = h
add_scoped-All (some key) more k h = (k, h)

scoped_keys-All : (refs : List RoomRef) → All IsRoomKey (scoped_keys refs)
unfolding scoped_keys
scoped_keys-All [] = tt
scoped_keys-All (ref ∷ refs) =
    add_scoped-All (normalize_room_key ref) (scoped_keys refs) (normalize_room_key-IsKeyIfAny ref)
      (scoped_keys-All refs)

keys-All {ℓ} :
    {V : Type ℓ} (dict : List (Text × V))
    → All (λ entry. IsRoomKey entry.0) dict
    → All IsRoomKey (keys dict)
keys-All [] h = tt
keys-All ((key, value) ∷ dict) h = (h.0, keys-All dict h.1)

add_count-IsKeyed :
    (key : Option Text) (count : ℕ) (counts : List (Text × ℕ))
    → IsKeyIfAny key
    → IsKeyed counts
    → IsKeyed (add_count key count counts)
add_count-IsKeyed none count counts k h = h
add_count-IsKeyed (some key) count counts k h =
    ground (arith, h, insert-IsKeyed key count counts k h)

normalized-IsKeyed :
    (entries : List (Text × Number)) (counts : List (Text × ℕ))
    → IsKeyed counts
    → IsKeyed (normalize_unread_counts_into entries counts)
unfolding normalize_unread_counts_into
normalized-IsKeyed [] counts h = h
normalized-IsKeyed ((room_id, count) ∷ entries) counts h = normalized-IsKeyed entries _ (
    add_count-IsKeyed (normalize_room_key (of_text room_id)) (normalize_count (some count)) counts
      (normalize_room_key-IsKeyIfAny (of_text room_id)) h)

scope-All :
    (room_ids : Option (List RoomRef)) (rooms : Rooms) (counts : List (Text × ℕ))
    → IsKeyed rooms
    → IsKeyed counts
    → All IsRoomKey (scope room_ids rooms counts)
scope-All none rooms counts h k =
    All-append IsRoomKey (keys rooms) (keys counts) (keys-All rooms h.1) (keys-All counts k.1)
scope-All (some refs) rooms counts h k = scoped_keys-All refs

take_snapshots-IsKeyed :
    (version : ℕ) (counts : List (Text × ℕ)) (more : List Text) (rooms : Rooms)
    → All IsRoomKey more
    → IsKeyed rooms
    → IsKeyed (take_snapshots version counts more rooms)
unfolding take_snapshots take_snapshot_at
take_snapshots-IsKeyed version counts [] rooms m h = h
take_snapshots-IsKeyed version counts (key ∷ more) rooms m h =
    take_snapshots-IsKeyed version counts more _ m.1 (if-IsKeyed _ key _ rooms m.0 h)

snapshot-IsKeyed :
    (counts : List (Text × Number)) (room_ids : Option (List RoomRef)) (p : Provider)
    → IsKeyed p.rooms
    → IsKeyed (apply_server_unread_snapshot counts room_ids p).rooms
unfolding apply_server_unread_snapshot normalize_unread_counts snapshot_keys
snapshot-IsKeyed counts room_ids p h =
    let normalized = normalize_unread_counts counts in
    let k = normalized-IsKeyed counts [] (tt, tt) in
    take_snapshots-IsKeyed _ normalized _ p.rooms
      (add_keys-All (keys normalized) _ (keys-All normalized k.1) (
        add_keys-All (scope room_ids p.rooms normalized) []
          (scope-All room_ids p.rooms normalized h k) tt))
      h

unless-IsKeyed :
    (idle : Bool) (rooms after : Rooms)
    → IsKeyed rooms
    → IsKeyed after
    → IsKeyed (if idle then rooms else after)
unless-IsKeyed true rooms after h g = h
unless-IsKeyed false rooms after h g = g

module _ (lower : Text → Text) where
  pub step-IsKeyed : (c : Call) (p : Provider) → IsKeyed p.rooms → IsKeyed (step lower c p).rooms
  unfolding step initialize_room initialize_room_at apply_local_read apply_local_read_at
      set_room_divider set_room_divider_at set_pending_mark_read set_pending_mark_read_at
      acknowledge_server_read acknowledge_server_read_at mark_room_fully_read
      mark_room_fully_read_at
  step-IsKeyed (initializes input) p h =
      on_key-IsKeyed (normalize_room_key input.room_id) _ p.rooms
        (normalize_room_key-IsKeyIfAny input.room_id) (λ key k. if-IsKeyed _ key _ p.rooms k h) h
  step-IsKeyed (reads input) p h = unless-IsKeyed _ p.rooms _ h (
      on_key-IsKeyed (normalize_room_key input.room_id) _ p.rooms
        (normalize_room_key-IsKeyIfAny input.room_id) (λ key k. if-IsKeyed _ key _ p.rooms k h) h)
  step-IsKeyed (gets_snapshot counts room_ids) p h = snapshot-IsKeyed counts room_ids p h
  step-IsKeyed (sets_divider room_id divider) p h =
      on_key-IsKeyed (normalize_room_key room_id) _ p.rooms (normalize_room_key-IsKeyIfAny room_id)
        (λ key k.
          on_entry-IsKeyed key (lookup key p.rooms)
            (λ entry. same_id entry.divider_message_id divider)
            (λ entry. record entry { divider_message_id = divider }) p.rooms k h)
        h
  step-IsKeyed (sets_pending room_id id) p h =
      on_key-IsKeyed (normalize_room_key room_id) _ p.rooms (normalize_room_key-IsKeyIfAny room_id)
        (λ key k. if-IsKeyed _ key _ p.rooms k h) h
  step-IsKeyed (acknowledges room_id id) p h = unless-IsKeyed _ p.rooms _ h (
      on_key-IsKeyed (normalize_room_key room_id) _ p.rooms (normalize_room_key-IsKeyIfAny room_id)
        (λ key k.
          on_entry-IsKeyed key (lookup key p.rooms)
            (λ entry. is_acknowledged entry (acknowledge (normalize_cursor id) entry))
            (acknowledge (normalize_cursor id)) p.rooms k h)
        h)
  step-IsKeyed (reads_fully room_id) p h =
      on_key-IsKeyed (normalize_room_key room_id) _ p.rooms (normalize_room_key-IsKeyIfAny room_id)
        (λ key k. insert-IsKeyed key _ p.rooms k h) h
