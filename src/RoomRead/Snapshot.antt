-- ===== src/RoomRead/Snapshot.antt =====
-- RoomReadStateProvider.tsx, `applyServerUnreadSnapshot`.
use django_channels_chat_rea.Common.{
  ℕ, ◌+◌, ltb, int_eq, Text, text_eq, nat_eq, Option, none, some, List, [], ◌∷◌, ◌++◌, Bool, ◌&&◌,
  ◌==◌, any, lookup, insert, keys, if◌then◌else◌,
}
use django_channels_chat_rea.Number.{Number}
use django_channels_chat_rea.RoomRead.Refs.{RoomRef, normalize_room_key, normalize_count, of_text}
use django_channels_chat_rea.RoomRead.Projection.{RoomReadState, or_zero}
use django_channels_chat_rea.RoomRead.Provider.{
  Rooms, Provider, entry_or_empty, same_count, same_id,
}

-- One entry of `normalizeUnreadCounts`.
abbrev pub add_count : Option Text → ℕ → List (Text × ℕ) → List (Text × ℕ)
add_count none count counts = counts
add_count (some key) count counts = if ltb 0 count then insert key count counts else counts

unfoldable pub normalize_unread_counts_into :
    List (Text × Number) → List (Text × ℕ) → List (Text × ℕ)
normalize_unread_counts_into [] counts = counts
normalize_unread_counts_into ((room_id, count) ∷ entries) counts =
    normalize_unread_counts_into entries
      (add_count (normalize_room_key (of_text room_id)) (normalize_count (some count)) counts)

unfoldable pub normalize_unread_counts : List (Text × Number) → List (Text × ℕ)
unfolding normalize_unread_counts_into
normalize_unread_counts entries = normalize_unread_counts_into entries []

-- A `Set` of keys, in the order of insertion.
abbrev pub add_key : Text → List Text → List Text
add_key key set = if any (λ other. other == key) set then set else set ++ key ∷ []

unfoldable pub add_keys : List Text → List Text → List Text
add_keys [] set = set
add_keys (key ∷ more) set = add_keys more (add_key key set)

abbrev pub add_scoped : Option Text → List Text → List Text
add_scoped none more = more
add_scoped (some key) more = key ∷ more

unfoldable pub scoped_keys : List RoomRef → List Text
scoped_keys [] = []
scoped_keys (ref ∷ refs) = add_scoped (normalize_room_key ref) (scoped_keys refs)

abbrev pub scope : Option (List RoomRef) → Rooms → List (Text × ℕ) → List Text
scope none rooms counts = keys rooms ++ keys counts
scope (some refs) rooms counts = scoped_keys refs

-- The keys that a snapshot of the server is about.
unfoldable pub snapshot_keys : Option (List RoomRef) → Rooms → List (Text × ℕ) → List Text
unfolding scoped_keys add_keys
snapshot_keys room_ids rooms counts =
    add_keys (keys counts) (add_keys (scope room_ids rooms counts) [])

-- `nextEntry` of `applyServerUnreadSnapshot`.
unfoldable pub take_snapshot : ℕ → ℕ → RoomReadState → RoomReadState
take_snapshot version authoritative entry =
    let keeps_local =
      entry.initialized
      && ltb entry.server_last_read_message_id entry.local_last_read_message_id
      && ltb entry.unread_count authoritative in
    let unread = if keeps_local then entry.unread_count else authoritative in
    record entry {
      authoritative_unread_count = some authoritative;
      last_authoritative_version = version;
      unread_count = if entry.initialized then unread else entry.unread_count;
      first_unread_message_id =
          if entry.initialized && ltb unread 1 then none else entry.first_unread_message_id;
      divider_message_id =
          if entry.initialized && ltb unread 1 then none else entry.divider_message_id;
    }

abbrev pub is_same_snapshot : RoomReadState → RoomReadState → Bool
is_same_snapshot entry next =
    same_count entry.authoritative_unread_count next.authoritative_unread_count
    && entry.last_authoritative_version == next.last_authoritative_version
    && entry.unread_count == next.unread_count
    && same_id entry.first_unread_message_id next.first_unread_message_id
    && same_id entry.divider_message_id next.divider_message_id

unfoldable pub take_snapshot_at : ℕ → List (Text × ℕ) → Text → Rooms → Rooms
unfolding take_snapshot
take_snapshot_at version counts key rooms =
    let entry = entry_or_empty (lookup key rooms) in
    let next = take_snapshot version (or_zero (lookup key counts)) entry in
    if is_same_snapshot entry next then rooms else insert key next rooms

unfoldable pub take_snapshots : ℕ → List (Text × ℕ) → List Text → Rooms → Rooms
unfolding take_snapshot_at
take_snapshots version counts [] rooms = rooms
take_snapshots version counts (key ∷ more) rooms =
    take_snapshots version counts more (take_snapshot_at version counts key rooms)

unfoldable pub apply_server_unread_snapshot :
    List (Text × Number) → Option (List RoomRef) → Provider → Provider
unfolding take_snapshots normalize_unread_counts snapshot_keys
apply_server_unread_snapshot counts room_ids p =
    let normalized = normalize_unread_counts counts in
    let version = p.authoritative_version + 1 in
    record p {
      authoritative_version = version;
      rooms = take_snapshots version normalized (snapshot_keys room_ids p.rooms normalized) p.rooms;
    }
