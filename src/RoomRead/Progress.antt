-- ===== src/RoomRead/Progress.antt =====
-- RoomReadStateProvider.tsx: what one call makes of the entry of any room.
use django_channels_chat_rea.Common.{
  ℕ, ℤ, int_eq, Text, text_eq, nat_eq, Option, none, some, List, [], ◌∷◌, Bool, true, false, ap,
  sym, subst, ◌==◌, ◌≡◌, refl, arith, eq_iff, eq_refl, lookup, insert, lookup-insert, Bool-cases,
  max, inl, inr, if◌then◌else◌,
}
use django_channels_chat_rea.Number.{Number}
use django_channels_chat_rea.RoomRead.Refs.{RoomRef, normalize_room_key, normalize_cursor}
use django_channels_chat_rea.RoomRead.Projection.{
  RoomReadState, RoomReadSnapshotInput, apply_projection, or_zero, or_null_count,
}
use django_channels_chat_rea.RoomRead.Entries.{
  entry_of, Improves, apply_projection-Improves, read_locally-Improves, take_snapshot-Improves,
  acknowledge-Improves, unchanged-Improves, fully_read-Improves, with_divider-Improves,
  with_pending-Improves, Improves-trans,
}
use django_channels_chat_rea.RoomRead.Provider.{
  Rooms, RoomReadLocalInput, entry_or_empty, initialize_room_at, initialize_room, read_locally,
  apply_local_read_at, apply_local_read, set_room_divider_at, set_room_divider,
  set_pending_mark_read_at, set_pending_mark_read, acknowledge, acknowledge_server_read_at,
  acknowledge_server_read, mark_room_fully_read_at, mark_room_fully_read, on_key, on_entry, same_id,
  is_acknowledged,
}
use django_channels_chat_rea.RoomRead.Snapshot.{take_snapshot_at, take_snapshots}

-- The entry of every room goes on from `before` to `after`.
abbrev pub Progresses : Rooms → Rooms → Type 0
Progresses before after = (key : Text) → Improves (entry_of key before) (entry_of key after)

entry_of-insert :
    (key : Text) (next : RoomReadState) (rooms : Rooms)
    → entry_of key (insert key next rooms) ≡ next
entry_of-insert key next rooms = ground (arith, lookup-insert key key next rooms, eq_refl key)

entry_of-insert_other :
    (key other : Text) (next : RoomReadState) (rooms : Rooms)
    → (key == other) ≡ false
    → entry_of other (insert key next rooms) ≡ entry_of other rooms
entry_of-insert_other key other next rooms h = ground (arith, lookup-insert key other next rooms)

insert-Progresses :
    (key : Text) (next : RoomReadState) (rooms : Rooms)
    → Improves (entry_of key rooms) next
    → Progresses rooms (insert key next rooms)
insert-Progresses key next rooms h other = elim (Bool-cases (key == other)) [
  | inl found ↦
      subst (λ k. Improves (entry_of k rooms) (entry_of k (insert key next rooms)))
        ((eq_iff key other).0 found)
        (subst (Improves (entry_of key rooms)) (sym (entry_of-insert key next rooms)) h)
  | inr other_key ↦
      subst (Improves (entry_of other rooms))
        (sym (entry_of-insert_other key other next rooms other_key))
        (unchanged-Improves (entry_of other rooms))
]

if-Progresses :
    (same : Bool) (key : Text) (next : RoomReadState) (rooms : Rooms)
    → Improves (entry_of key rooms) next
    → Progresses rooms (if same then rooms else insert key next rooms)
if-Progresses true key next rooms h other = unchanged-Improves (entry_of other rooms)
if-Progresses false key next rooms h other = insert-Progresses key next rooms h other

on_key-Progresses :
    (key : Option Text) (f : Text → Rooms → Rooms) (rooms : Rooms)
    → ((key : Text) → Progresses rooms (f key rooms))
    → Progresses rooms (on_key key f rooms)
on_key-Progresses none f rooms h other = unchanged-Improves (entry_of other rooms)
on_key-Progresses (some key) f rooms h other = h key other

on_entry-Progresses :
    (key : Text) (found : Option RoomReadState) (unchanged : RoomReadState → Bool)
    (f : RoomReadState → RoomReadState) (rooms : Rooms)
    → lookup key rooms ≡ found
    → ((entry : RoomReadState) → Improves entry (f entry))
    → Progresses rooms (
        on_entry found
          (λ entry. if unchanged entry then rooms else insert key (f entry) rooms)
          rooms)
on_entry-Progresses key none unchanged f rooms eq h other =
    unchanged-Improves (entry_of other rooms)
on_entry-Progresses key (some entry) unchanged f rooms eq h other =
    if-Progresses (unchanged entry) key (f entry) rooms
      (subst (λ held. Improves held (f entry)) (sym (ap entry_or_empty eq)) (h entry)) other

module _ (lower : Text → Text) where
  pub initialize-Progresses :
      (input : RoomReadSnapshotInput) (rooms : Rooms)
      → Progresses rooms (initialize_room lower input rooms)
  unfolding initialize_room initialize_room_at
  initialize-Progresses input rooms =
      on_key-Progresses (normalize_room_key input.room_id) (initialize_room_at lower input) rooms
        (λ key.
          if-Progresses _ key (apply_projection lower (entry_of key rooms) input) rooms
            (apply_projection-Improves lower (entry_of key rooms) input))

  read_at-Progresses :
      (input : RoomReadLocalInput) (last_read : ℕ) (key : Text) (rooms : Rooms)
      → Progresses rooms (apply_local_read_at lower input last_read key rooms)
  unfolding apply_local_read_at
  read_at-Progresses input last_read key rooms =
      let entry = entry_of key rooms in
      let local = max entry.local_last_read_message_id last_read in
      if-Progresses _ key (read_locally lower input local entry) rooms
        (read_locally-Improves lower input local entry (omega arith))

pub take_snapshots-Progresses :
    (version : ℕ) (counts : List (Text × ℕ)) (more : List Text) (rooms : Rooms)
    → Progresses rooms (take_snapshots version counts more rooms)
unfolding take_snapshots take_snapshot_at
take_snapshots-Progresses version counts [] rooms other = unchanged-Improves (entry_of other rooms)
take_snapshots-Progresses version counts (key ∷ more) rooms other =
    let entry = entry_of key rooms in
    let between = take_snapshot_at version counts key rooms in
    Improves-trans (entry_of other rooms) (entry_of other between) _
      (if-Progresses _ key _ rooms
        (take_snapshot-Improves version (or_zero (lookup key counts)) entry) other)
      (take_snapshots-Progresses version counts more between other)

pub set_room_divider-Progresses :
    (room_id : RoomRef) (divider : Option ℤ) (rooms : Rooms)
    → Progresses rooms (set_room_divider room_id divider rooms)
unfolding set_room_divider set_room_divider_at
set_room_divider-Progresses room_id divider rooms =
    on_key-Progresses (normalize_room_key room_id) (set_room_divider_at divider) rooms (λ key.
      on_entry-Progresses key (lookup key rooms) (λ entry. same_id entry.divider_message_id divider)
        (λ entry. record entry { divider_message_id = divider }) rooms refl
        (λ entry. with_divider-Improves entry divider))

pub set_pending-Progresses :
    (room_id : RoomRef) (id : Option Number) (rooms : Rooms)
    → Progresses rooms (set_pending_mark_read room_id id rooms)
unfolding set_pending_mark_read set_pending_mark_read_at
set_pending-Progresses room_id id rooms =
    let next = or_null_count (normalize_cursor id) in
    on_key-Progresses (normalize_room_key room_id) (set_pending_mark_read_at next) rooms
      (λ key. if-Progresses _ key _ rooms (with_pending-Improves (entry_of key rooms) next))

acknowledge-Progresses :
    (id : ℕ) (room_id : RoomRef) (rooms : Rooms)
    → Progresses rooms (on_key (normalize_room_key room_id) (acknowledge_server_read_at id) rooms)
unfolding acknowledge_server_read_at
acknowledge-Progresses id room_id rooms =
    on_key-Progresses (normalize_room_key room_id) (acknowledge_server_read_at id) rooms (λ key.
      on_entry-Progresses key (lookup key rooms)
        (λ entry. is_acknowledged entry (acknowledge id entry)) (acknowledge id) rooms refl
        (acknowledge-Improves id))

unless-Progresses :
    (idle : Bool) (rooms after : Rooms)
    → Progresses rooms after
    → Progresses rooms (if idle then rooms else after)
unless-Progresses true rooms after h other = unchanged-Improves (entry_of other rooms)
unless-Progresses false rooms after h other = h other

pub fully_read-Progresses :
    (room_id : RoomRef) (rooms : Rooms) → Progresses rooms (mark_room_fully_read room_id rooms)
unfolding mark_room_fully_read mark_room_fully_read_at
fully_read-Progresses room_id rooms =
    on_key-Progresses (normalize_room_key room_id) mark_room_fully_read_at rooms
      (λ key. insert-Progresses key _ rooms (fully_read-Improves (entry_of key rooms)))

pub acknowledge_server_read-Progresses :
    (room_id : RoomRef) (id : Option Number) (rooms : Rooms)
    → Progresses rooms (acknowledge_server_read room_id id rooms)
unfolding acknowledge_server_read
acknowledge_server_read-Progresses room_id id rooms =
    unless-Progresses _ rooms _ (acknowledge-Progresses (normalize_cursor id) room_id rooms)

pub apply_local_read-Progresses :
    (lower : Text → Text) (input : RoomReadLocalInput) (rooms : Rooms)
    → Progresses rooms (apply_local_read lower input rooms)
unfolding apply_local_read
apply_local_read-Progresses lower input rooms =
    let last_read = normalize_cursor input.last_read_message_id in
    unless-Progresses _ rooms _ (
      on_key-Progresses (normalize_room_key input.room_id)
        (apply_local_read_at lower input last_read) rooms
        (λ key. read_at-Progresses lower input last_read key rooms))
