-- ===== src/UnreadOverrides/Changes.antt =====
-- shared/unreadOverrides/store.ts: what a write does to the map, and whom it tells.
use django_channels_chat_rea.Common.{
  Text, text_eq, trim, truthy, some, true, ◌==◌, ◌++◌, ◌≡◌, arith, eq_iff, lookup, lookup-insert,
  if◌then◌else◌,
}
use django_channels_chat_rea.Number.{Number}
use django_channels_chat_rea.UnreadOverrides.{
  Store, set_unread_override, normalize_unread_count, is_same, publish,
}

-- A write for a room whose id is not blank leaves the normalised count under the trimmed id and the
-- other rooms alone, and calls every listener once, or none where the count was that already.
pub set_unread_override-lookup :
    (room_id other : Text) (count : Number) (s : Store)
    → truthy (trim room_id) ≡ true
    → let n = normalize_unread_count count in
      let after = set_unread_override room_id count s in
      (lookup other after.overrides
        ≡ (if other == trim room_id then some n else lookup other s.overrides))
      × (after.notified ≡ (
          if is_same (lookup (trim room_id) s.overrides) n
          then s.notified
          else s.notified ++ s.listeners))
unfolding set_unread_override publish
set_unread_override-lookup room_id other count s h =
    let key = trim room_id in
    let n = normalize_unread_count count in
    (
      ground (arith, lookup-insert key other n s.overrides, eq_iff key other, eq_iff other key),
      ground arith,
    )
