-- ===== src/ReadTracker/Unread.antt =====
-- readTracker.ts: `computeUnreadStats` counts the messages of others above the last read id.
use django_channels_chat_rea.Common.{
  ℕ, ◌+◌, ◌≤◌, ℤ, pos, leb_ℤ, Text, Option, some, none, List, [], ◌∷◌, Bool, ◌&&◌, not, ◌≡◌, arith,
  filter, length,
}
use django_channels_chat_rea.Message.{Message}
use django_channels_chat_rea.Number.{Number, of_ℕ, normalize_last_read_message_id}
use django_channels_chat_rea.ReadTracker.{
  UnreadStats, is_foreign_message, count_message, count_all, compute_unread_stats,
}

module _ (lower : Text → Text) (actor : Option Text) where
  -- Above the last read id and not written by the reader.
  abbrev pub is_unread : ℕ → Message → Bool
  is_unread last_read m = not (leb_ℤ m.id (pos last_read)) && is_foreign_message lower m actor

  abbrev pub first_id : List Message → Option ℤ
  first_id [] = none
  first_id (m ∷ ms) = some m.id

  abbrev or_first : Option ℤ → Option ℤ → Option ℤ
  or_first none later = later
  or_first (some id) later = some id

  count_all-filter :
      (last_read : ℕ) (s : UnreadStats) (ms : List Message)
      → count_all lower actor last_read s ms ≡ record {
        first_unread_message_id =
            or_first s.first_unread_message_id (first_id (filter (is_unread last_read) ms));
        unread_count = s.unread_count + length (filter (is_unread last_read) ms);
      }
  unfolding count_all count_message
  count_all-filter last_read s [] = ground arith
  count_all-filter last_read s (m ∷ ms) = ground (
    arith,
    count_all-filter last_read s ms,
    count_all-filter last_read (count_message lower actor last_read s m) ms,
  )

  -- The unread count is the number of unread messages and the divider stands at the first of them,
  -- so that there is no divider exactly when the count is 0.
  pub compute_unread_stats-filter :
      (last_read : Number) (ms : List Message)
      → let unread = filter (is_unread (normalize_last_read_message_id (some last_read))) ms in
        compute_unread_stats lower actor ms last_read
        ≡ record { first_unread_message_id = first_id unread; unread_count = length unread }
  unfolding compute_unread_stats
  compute_unread_stats-filter last_read ms = ground (
    arith,
    count_all-filter (normalize_last_read_message_id (some last_read))
        (record { first_unread_message_id = none; unread_count = 0 }) ms,
  )

  filter_mono :
      (m n : ℕ) (ms : List Message)
      → m ≤ n
      → length (filter (is_unread n) ms) ≤ length (filter (is_unread m) ms)
  filter_mono m n [] h = omega arith
  filter_mono m n (x ∷ ms) h = ground (arith, filter_mono m n ms h)

  -- Reading further never raises the unread count.
  pub compute_unread_stats_mono :
      (m n : ℕ) (ms : List Message)
      → m ≤ n
      → (compute_unread_stats lower actor ms (of_ℕ n)).unread_count
        ≤ (compute_unread_stats lower actor ms (of_ℕ m)).unread_count
  unfolding normalize_last_read_message_id
  compute_unread_stats_mono m n ms h =
      rw (compute_unread_stats-filter (of_ℕ n) ms, compute_unread_stats-filter (of_ℕ m) ms)
        (filter_mono m n ms h)
