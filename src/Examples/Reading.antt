-- ===== src/Examples/Reading.antt =====
-- readTracker.ts at work: a viewport over messages of Ann, who reads, and of Bob.
use django_channels_chat_rea.Common.{
  trim, text_beq, ◌≤◌, ◌⊎◌, pos, ◌≤ℤ◌, int_eq, text_eq, some, List, [], ◌∷◌, All, filter, length,
  true, ◌≡◌, refl, arith,
}
use django_channels_chat_rea.ActorRef.{normalize_actor_ref}
use django_channels_chat_rea.Message.{Message}
use django_channels_chat_rea.Number.{of_ℕ, normalize_last_read_message_id}
use django_channels_chat_rea.ReadTracker.{
  Viewport, Tracker, compute_next_last_read_message_id, is_foreign_message, compute_unread_stats,
  apply_viewport_read,
}
use django_channels_chat_rea.ReadTracker.Advance.{
  IsIdOf, is_read_now, compute_next_last_read_message_id-max,
}
use django_channels_chat_rea.ReadTracker.Unread.{is_unread, first_id, compute_unread_stats-filter}
use django_channels_chat_rea.ReadTracker.Session.{
  Keeps, apply_viewport_read-Keeps, apply_viewport_read-reads,
}
use django_channels_chat_rea.Examples.Data.{ascii_lower, from_bob, from_ann, ann}

abbrev page : List Message
page = from_bob ∷ from_ann ∷ []

abbrev tracker : Tracker
tracker = record {
  messages = page;
  current_actor_ref = some ann;
  server_last_read_message_id = some (of_ℕ 2);
  enabled = true;
  reset_key = 114 ∷ [];
  progress_by_key = [];
}

abbrev viewport : Viewport
viewport = record {
  bottom = pos 100;
  articles = record { message_id = some (of_ℕ 5); bottom = pos 90 } ∷ [];
}

compute_next_last_read_message_id-max_example :
    (normalize_last_read_message_id (some (of_ℕ 2))
      ≤ compute_next_last_read_message_id ascii_lower (some ann) page (of_ℕ 2) (of_ℕ 5 ∷ []))
    × All
        (λ m.
          m.id
          ≤ℤ pos (
              compute_next_last_read_message_id ascii_lower (some ann) page (of_ℕ 2) (of_ℕ 5 ∷ [])))
        (filter (is_read_now ascii_lower (some ann) (of_ℕ 5 ∷ [])) page)
    × ((compute_next_last_read_message_id ascii_lower (some ann) page (of_ℕ 2) (of_ℕ 5 ∷ [])
          ≡ normalize_last_read_message_id (some (of_ℕ 2)))
        ⊎ IsIdOf ascii_lower
            (some ann)
            (of_ℕ 5 ∷ [])
            (compute_next_last_read_message_id ascii_lower (some ann) page (of_ℕ 2) (of_ℕ 5 ∷ []))
            page)
compute_next_last_read_message_id-max_example =
    compute_next_last_read_message_id-max ascii_lower (some ann) (of_ℕ 5 ∷ []) page (of_ℕ 2)

apply_viewport_read-Keeps_example :
    Keeps ascii_lower tracker (apply_viewport_read ascii_lower tracker (some viewport))
apply_viewport_read-Keeps_example = apply_viewport_read-Keeps ascii_lower tracker (some viewport)

apply_viewport_read-reads_example : 5 ≤ (apply_viewport_read ascii_lower tracker (some viewport)).1
unfolding is_foreign_message normalize_actor_ref trim text_beq
apply_viewport_read-reads_example =
    apply_viewport_read-reads ascii_lower tracker (pos 100) []
      (record { message_id = some (of_ℕ 5); bottom = pos 90 }) [] [] from_bob (from_ann ∷ []) 4 refl
      refl refl refl refl (omega arith)

compute_unread_stats-filter_example :
    compute_unread_stats ascii_lower (some ann) page (of_ℕ 2) ≡ record {
      first_unread_message_id = first_id ascii_lower (some ann) (
          filter
            (is_unread ascii_lower (some ann) (normalize_last_read_message_id (some (of_ℕ 2))))
            page);
      unread_count = length (
          filter
            (is_unread ascii_lower (some ann) (normalize_last_read_message_id (some (of_ℕ 2))))
            page);
    }
compute_unread_stats-filter_example =
    compute_unread_stats-filter ascii_lower (some ann) (of_ℕ 2) page
