-- ===== src/Inbox/Reading.antt =====
-- DirectInboxProvider.tsx with RoomReadStateProvider.tsx: a chat that has been read, when the server
-- still counts it.
use django_channels_chat_rea.Common.{
  ℕ, suc, ◌+◌, Text, text_eq, nat_eq, trim-digits, show_ℕ, show_ℕ-digits, Option, none, some, List,
  [], ◌∷◌, Bool, true, false, not, ◌==◌, ◌≡◌, refl, sym, subst, ap, ◌∙◌, arith, eq_iff, eq_refl,
  All, lookup, lookup-insert, insert, delete-All, lookup-delete, Distinct, insert-Distinct,
  delete-Distinct, keys, Bool-cases, inl, inr, if◌then◌else◌,
}
use django_channels_chat_rea.Number.{Number, of_ℕ}
use django_channels_chat_rea.RoomRead.Refs.{
  RoomRef, of_number, of_text, normalize_room_key, normalize_count,
}
use django_channels_chat_rea.RoomRead.Keys.{key_of_digits-show}
use django_channels_chat_rea.RoomRead.Projection.{RoomReadState, or_zero}
use django_channels_chat_rea.RoomRead.Provider.{
  Rooms, Provider, entry_or_empty, mark_room_fully_read, mark_room_fully_read_at, fully_read,
}
use django_channels_chat_rea.RoomRead.Snapshot.{
  add_count, normalize_unread_counts_into, normalize_unread_counts, take_snapshot, take_snapshot_at,
  take_snapshots, apply_server_unread_snapshot, snapshot_keys, is_same_snapshot,
}
use django_channels_chat_rea.RoomRead.Publishing.{unread_of, get_room_state, get_room_unread_count}
use django_channels_chat_rea.Inbox.{
  DirectChatListItem, Counts, ApplyUnreadStateOptions, Inbox, counts_of, without, key_of,
  latest_known, is_after, settle_one, settle, apply_unread_state, marked, mark_read,
  parse_room_id_ref,
}
use django_channels_chat_rea.Inbox.Settling.{covers, settle-counts}

-- The room has an entry, and none of its messages is unread.
abbrev IsRead : Option RoomReadState → Type 0
IsRead entry = unread_of entry 1 ≡ 0

IsRead-unread_of :
    (entry : Option RoomReadState) (fallback : ℕ) → IsRead entry → unread_of entry fallback ≡ 0
IsRead-unread_of none fallback h = ground (arith, h)
IsRead-unread_of (some room) fallback h = ground (arith, h)

fully_read-IsRead : (room : RoomReadState) → IsRead (some (fully_read room))
unfolding fully_read
fully_read-IsRead room = ground arith

take_snapshot-IsRead :
    (version : ℕ) (room : RoomReadState)
    → IsRead (some room)
    → IsRead (some (take_snapshot version 0 room))
unfolding take_snapshot
take_snapshot-IsRead version room h = ground (arith, h)

insert-IsRead :
    (key other : Text) (next : RoomReadState) (rooms : Rooms)
    → (other ≡ key → IsRead (some next))
    → IsRead (lookup key rooms)
    → IsRead (lookup key (insert other next rooms))
insert-IsRead key other next rooms n h = elim (Bool-cases (other == key)) [
  | inl same ↦ rw (lookup-insert other key next rooms, same) (n ((eq_iff other key).0 same))
  | inr elsewhere ↦ rw (lookup-insert other key next rooms, elsewhere) h
]

entry-IsRead : (found : Option RoomReadState) → IsRead found → IsRead (some (entry_or_empty found))
entry-IsRead none h = ground (arith, h)
entry-IsRead (some room) h = h

unless-IsRead :
    (key : Text) (same : Bool) (rooms after : Rooms)
    → IsRead (lookup key rooms)
    → IsRead (lookup key after)
    → IsRead (lookup key (if same then rooms else after))
unless-IsRead key true rooms after h g = h
unless-IsRead key false rooms after h g = g

at_key :
    (version : ℕ) (counts : List (Text × ℕ)) (key other : Text) (rooms : Rooms)
    → other ≡ key
    → lookup key counts ≡ none
    → IsRead (lookup key rooms)
    → IsRead (
        some (
          take_snapshot version
            (or_zero (lookup other counts))
            (entry_or_empty (lookup other rooms))))
at_key version counts key other rooms same c h =
    let entry = entry_or_empty (lookup key rooms) in
    subst
      (λ k. IsRead (
        some (take_snapshot version (or_zero (lookup k counts)) (entry_or_empty (lookup k rooms)))))
      (sym same)
      (subst (λ count. IsRead (some (take_snapshot version (or_zero count) entry))) (sym c)
        (take_snapshot-IsRead version entry (entry-IsRead (lookup key rooms) h)))

take_snapshots-IsRead :
    (version : ℕ) (counts : List (Text × ℕ)) (key : Text) (more : List Text) (rooms : Rooms)
    → lookup key counts ≡ none
    → IsRead (lookup key rooms)
    → IsRead (lookup key (take_snapshots version counts more rooms))
unfolding take_snapshots take_snapshot_at
take_snapshots-IsRead version counts key [] rooms c h = h
take_snapshots-IsRead version counts key (other ∷ more) rooms c h =
    let entry = entry_or_empty (lookup other rooms) in
    let next = take_snapshot version (or_zero (lookup other counts)) entry in
    take_snapshots-IsRead version counts key more (take_snapshot_at version counts other rooms) c (
      unless-IsRead key (is_same_snapshot entry next) rooms (insert other next rooms) h (
        insert-IsRead key other next rooms (λ same. at_key version counts key other rooms same c h)
          h))

-- The keys of the counts are those of rooms.
abbrev pub AreRoomKeys : Counts → Type 0
AreRoomKeys = All (λ (e : Text × ℕ). normalize_room_key (of_text e.0) ≡ some e.0)

added-absent :
    (key other : Text) (room_key : Option Text) (count : ℕ) (into : Counts)
    → room_key ≡ some other
    → (other == key) ≡ false
    → lookup key into ≡ none
    → lookup key (add_count room_key count into) ≡ none
added-absent key other room_key count into e n i =
    subst (λ k. lookup key (add_count k count into) ≡ none) (sym e)
      (ground (arith, n, i, lookup-insert other key count into))

normalized-absent :
    (key : Text) (counts into : Counts)
    → AreRoomKeys counts
    → lookup key counts ≡ none
    → lookup key into ≡ none
    → lookup key (normalize_unread_counts_into (counts_of counts) into) ≡ none
unfolding normalize_unread_counts_into lookup
normalized-absent key [] into n h i = i
normalized-absent key ((other, count) ∷ counts) into n h i =
    normalized-absent key counts _ n.1 (ground (arith, h)) (
      added-absent key other (normalize_room_key (of_text other))
        (normalize_count (some (of_ℕ count))) into n.0 (ground (arith, h)) i)

round-AreRoomKeys :
    (dropped : Bool) (key : Text) (state : List (Text × ℕ) × Counts)
    → AreRoomKeys state.1
    → AreRoomKeys (settle_one dropped key state).1
round-AreRoomKeys true key state h = h
round-AreRoomKeys false key state h =
    delete-All (λ k. normalize_room_key (of_text k) ≡ some k) key state.1 h

settle-AreRoomKeys :
    (time_of : Text → Option ℕ) (known : List DirectChatListItem) (item : Option DirectChatListItem)
    (entries : List (Text × ℕ)) (state : List (Text × ℕ) × Counts)
    → AreRoomKeys state.1
    → AreRoomKeys (settle time_of known item entries state).1
unfolding settle
settle-AreRoomKeys time_of known item [] state h = h
settle-AreRoomKeys time_of known item ((key, marked_at) ∷ entries) state h =
    settle-AreRoomKeys time_of known item entries _ (round-AreRoomKeys _ key state h)

room_key-normal : (n : ℕ) → normalize_room_key (of_text (show_ℕ (suc n))) ≡ some (show_ℕ (suc n))
unfolding normalize_room_key
room_key-normal n =
    rw (trim-digits (show_ℕ (suc n)) (show_ℕ-digits (suc n)))
      (key_of_digits-show (suc n) (ground arith))

marked-IsRead :
    (n : ℕ) (rooms : Rooms)
    → IsRead (lookup (show_ℕ (suc n)) (mark_room_fully_read (of_text (show_ℕ (suc n))) rooms))
unfolding mark_room_fully_read mark_room_fully_read_at
marked-IsRead n rooms =
    let key = show_ℕ (suc n) in
    rw
      (
        room_key-normal n,
        lookup-insert key key (fully_read (entry_or_empty (lookup key rooms))) rooms,
        eq_refl key,
      )
      (fully_read-IsRead (entry_or_empty (lookup key rooms)))

snapshot-IsRead :
    (counts : List (Text × Number)) (room_ids : Option (List RoomRef)) (key : Text) (p : Provider)
    → lookup key (normalize_unread_counts counts) ≡ none
    → IsRead (lookup key p.rooms)
    → IsRead (lookup key (apply_server_unread_snapshot counts room_ids p).rooms)
unfolding apply_server_unread_snapshot
snapshot-IsRead counts room_ids key p absent h =
    let normalized = normalize_unread_counts counts in
    take_snapshots-IsRead (p.authoritative_version + 1) normalized key
      (snapshot_keys room_ids p.rooms normalized) p.rooms absent h

module _ (time_of : Text → Option ℕ) where
  state-IsRead :
      (known : List DirectChatListItem) (next : Counts) (options : ApplyUnreadStateOptions)
      (key : Text) (s : Inbox)
      → AreRoomKeys next
      → lookup key (apply_unread_state time_of known next options s).unread_counts ≡ none
      → IsRead (lookup key s.read_state.rooms)
      → IsRead (lookup key (apply_unread_state time_of known next options s).read_state.rooms)
  unfolding apply_unread_state normalize_unread_counts lookup
  state-IsRead known next options key s n absent h =
      let pending = without (key_of options.ack_room_id) s.pending_mark_read_at in
      let settled = settle time_of known options.item pending (pending, next) in
      snapshot-IsRead (counts_of settled.1) _ key s.read_state
        (normalized-absent key settled.1 []
          (settle-AreRoomKeys time_of known options.item pending (pending, next) n) absent refl)
        h

  -- The counts of the server, without the rooms whose read covers them.
  apply_unread_state-counts :
      (known : List DirectChatListItem) (next : Counts) (options : ApplyUnreadStateOptions)
      (key : Text) (s : Inbox)
      → Distinct (without (key_of options.ack_room_id) s.pending_mark_read_at)
      → lookup key (apply_unread_state time_of known next options s).unread_counts ≡ (
          if covers time_of known options.item key
            (lookup key (without (key_of options.ack_room_id) s.pending_mark_read_at))
          then none
          else lookup key next)
  unfolding apply_unread_state
  apply_unread_state-counts known next options key s d =
      let pending = without (key_of options.ack_room_id) s.pending_mark_read_at in
      settle-counts time_of known options.item key pending pending next d

  kept_pending :
      (ack key : Text) (now : ℕ) (pending : List (Text × ℕ))
      → (ack == key) ≡ false
      → lookup key (without ack (insert key now pending)) ≡ some now
  kept_pending ack key now pending h = ground (
    arith,
    h,
    lookup-delete ack key (insert key now pending),
    lookup-insert key key now pending,
    eq_refl key,
  )

  without-Distinct :
      (ack : Text) (pending : List (Text × ℕ)) → Distinct pending → Distinct (without ack pending)
  without-Distinct ack pending d = ground (arith, d, delete-Distinct ack pending d)

  number-key : (n : ℕ) → normalize_room_key (of_number (of_ℕ (suc n))) ≡ some (show_ℕ (suc n))
  unfolding normalize_room_key
  number-key n = ground arith

  told-IsRead :
      (n : ℕ) (fallback : Option Number) (rooms : Rooms)
      → IsRead (lookup (show_ℕ (suc n)) rooms)
      → get_room_unread_count (of_number (of_ℕ (suc n))) fallback rooms ≡ 0
  unfolding get_room_unread_count get_room_state
  told-IsRead n fallback rooms h =
      rw (number-key n)
        (IsRead-unread_of (lookup (show_ℕ (suc n)) rooms) (normalize_count fallback) h)

  mark_read-marked :
      (n now : ℕ) (s : Inbox)
      → mark_read time_of (of_number (of_ℕ (suc n))) now s ≡ marked time_of (some (suc n)) now s
  unfolding mark_read parse_room_id_ref
  mark_read-marked n now s =
      let chat = of_number (of_ℕ (suc n)) in
      let parsed : parse_room_id_ref chat ≡ some (suc n) = ground arith in
      ap (λ id. marked time_of id now s) parsed

  marked-stays_read :
      (n now : ℕ) (fallback : Option Number) (known : List DirectChatListItem) (next : Counts)
      (options : ApplyUnreadStateOptions) (s : Inbox)
      → AreRoomKeys next
      → Distinct s.pending_mark_read_at
      → (key_of options.ack_room_id == show_ℕ (suc n)) ≡ false
      → is_after time_of (latest_known time_of known options.item (show_ℕ (suc n))) now ≡ false
      → get_room_unread_count
          (of_number (of_ℕ (suc n)))
          fallback
          (apply_unread_state time_of known next options
            (marked time_of (some (suc n)) now s)).read_state.rooms
        ≡ 0
  marked-stays_read n now fallback known next options s keys d ack fresh =
      let key = show_ℕ (suc n) in
      let after = marked time_of (some (suc n)) now s in
      let pending = kept_pending (key_of options.ack_room_id) key now s.pending_mark_read_at ack in
      let counts = apply_unread_state-counts known next options key after (
        without-Distinct (key_of options.ack_room_id) after.pending_mark_read_at
          (insert-Distinct key now s.pending_mark_read_at d)) in
      let covered =
        ap
          (λ (found : Option ℕ).
            if covers time_of known options.item key found then none else lookup key next)
          pending
        ∙ ap (λ (b : Bool). if not b then none else lookup key next) fresh in
      told-IsRead n fallback _ (
        state-IsRead known next options key after keys (counts ∙ covered)
          (marked-IsRead n s.read_state.rooms))

  -- Where the keys of the server's counts are those of rooms, no pending read stands twice, the server
  -- acknowledges no read of this chat, and no message in it is known that came after the time `now`: a
  -- chat that is marked as read at `now` has no unread messages after the server's next unread state,
  -- whatever that counts.
  pub mark_read-stays_read :
      (n now : ℕ) (fallback : Option Number) (known : List DirectChatListItem) (next : Counts)
      (options : ApplyUnreadStateOptions) (s : Inbox)
      → AreRoomKeys next
      → Distinct s.pending_mark_read_at
      → (key_of options.ack_room_id == show_ℕ (suc n)) ≡ false
      → is_after time_of (latest_known time_of known options.item (show_ℕ (suc n))) now ≡ false
      → let chat = of_number (of_ℕ (suc n)) in
        get_room_unread_count chat fallback
          (apply_unread_state time_of known next options
            (mark_read time_of chat now s)).read_state.rooms
        ≡ 0
  mark_read-stays_read n now fallback known next options s keys d ack fresh =
      subst
        (λ after.
          get_room_unread_count (of_number (of_ℕ (suc n))) fallback
            (apply_unread_state time_of known next options after).read_state.rooms
          ≡ 0)
        (sym (mark_read-marked n now s))
        (marked-stays_read n now fallback known next options s keys d ack fresh)
