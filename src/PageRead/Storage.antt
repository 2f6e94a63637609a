-- ===== src/PageRead/Storage.antt =====
-- frontend/src/pages/chatRoomPage/utils.ts: the pending read of a room in the session storage.
-- `to_number` is JavaScript's `Number` of a text.
use django_channels_chat_rea.Common.{
  ℕ, ltb, Text, text_eq, trim, truthy, Option, none, some, List, ◌++◌, codes, show_ℕ, pos_part,
  lookup, insert, delete, if◌then◌else◌,
}
use django_channels_chat_rea.Number.{Number, not_finite, finite, trunc}

-- A `sessionStorage`; none where the browser refuses access to it, so that each call throws.
abbrev pub SessionStorage : Type 0
SessionStorage = Option (List (Text × Text))

-- `normalizeReadMessageId` of a number.
unfoldable pub normalize_number : Number → ℕ
normalize_number not_finite = 0
normalize_number (finite negative whole fraction) = pos_part (trunc negative whole)

unfoldable pub pending_read_storage_key : Text → Text
pending_read_storage_key room_id = codes "chat.pendingRead." ++ room_id

module _ (to_number : Text → Number) where
  -- `normalizeReadMessageId` of what `getItem` returns.
  unfoldable pub normalize_item : Option Text → ℕ
  unfolding normalize_number
  normalize_item none = 0
  normalize_item (some value) =
      if truthy (trim value) then normalize_number (to_number value) else 0

  unfoldable pub read_pending_read_from_storage : Text → SessionStorage → ℕ
  unfolding normalize_item
  read_pending_read_from_storage room_id none = 0
  read_pending_read_from_storage room_id (some items) =
      normalize_item (lookup (pending_read_storage_key room_id) items)

unfoldable pub write_pending_read_to_storage : Text → ℕ → SessionStorage → SessionStorage
write_pending_read_to_storage room_id last_read none = none
write_pending_read_to_storage room_id last_read (some items) =
    if ltb last_read 1
    then some (delete (pending_read_storage_key room_id) items)
    else some (insert (pending_read_storage_key room_id) (show_ℕ last_read) items)

unfoldable pub clear_pending_read_from_storage : Text → SessionStorage → SessionStorage
clear_pending_read_from_storage room_id none = none
clear_pending_read_from_storage room_id (some items) =
    some (delete (pending_read_storage_key room_id) items)
