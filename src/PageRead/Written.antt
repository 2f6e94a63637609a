-- ===== src/PageRead/Written.antt =====
-- frontend/src/pages/chatRoomPage/utils.ts: a pending read is read back from the session storage.
use django_channels_chat_rea.Common.{
  ℕ, ltb, Text, text_eq, text_beq, truthy-trim-show, show_ℕ, Option, none, some, List, Bool, true,
  false, ◌==◌, ◌≡◌, refl, arith, Bool-cases, inl, inr, lookup-insert, lookup-delete, if◌then◌else◌,
}
use django_channels_chat_rea.Number.{Number, of_ℕ}
use django_channels_chat_rea.PageRead.Storage.{
  pending_read_storage_key, normalize_number, normalize_item, read_pending_read_from_storage,
  write_pending_read_to_storage,
}

same_key :
    (room_id other : Text)
    → (pending_read_storage_key room_id == pending_read_storage_key other) ≡ (room_id == other)
unfolding pending_read_storage_key text_beq
same_key room_id other = refl

module _ (to_number : Text → Number)
    (number_of_show : (n : ℕ) → to_number (show_ℕ n) ≡ of_ℕ n) where
  pub normalize_item-show : (n : ℕ) → normalize_item to_number (some (show_ℕ n)) ≡ n
  unfolding normalize_item normalize_number
  normalize_item-show n = rw (truthy-trim-show n, number_of_show n) refl

  normalize_none : (n : ℕ) → ltb n 1 ≡ true → normalize_item to_number none ≡ n
  unfolding normalize_item
  normalize_none n h = ground (arith, h)

  normalize-chosen :
      (same : Bool) (written held : Option Text) (n : ℕ)
      → normalize_item to_number written ≡ n
      → normalize_item to_number (if same then written else held)
        ≡ (if same then n else normalize_item to_number held)
  normalize-chosen true written held n h = h
  normalize-chosen false written held n h = refl

  -- Where `to_number` reads what `String` has written, and there is a storage: after a pending read has
  -- been written for a room, that read is read for the room, 0 included, and what was read before for
  -- every other room.
  pub read-write :
      (room_id other : Text) (n : ℕ) (items : List (Text × Text))
      → read_pending_read_from_storage to_number other
          (write_pending_read_to_storage room_id n (some items))
        ≡ (if room_id == other
            then n
            else read_pending_read_from_storage to_number other (some items))
  unfolding read_pending_read_from_storage write_pending_read_to_storage
  read-write room_id other n items = elim (Bool-cases (ltb n 1)) [
    | inl nothing ↦
        rw
          (
            nothing,
            lookup-delete (pending_read_storage_key room_id) (pending_read_storage_key other) items,
            same_key room_id other,
          )
          (normalize-chosen (room_id == other) none _ n (normalize_none n nothing))
    | inr positive ↦
        rw
          (
            positive,
            lookup-insert (pending_read_storage_key room_id) (pending_read_storage_key other)
                (show_ℕ n) items,
            same_key room_id other,
          )
          (normalize-chosen (room_id == other) (some (show_ℕ n)) _ n (normalize_item-show n))
  ]
