-- ===== src/Examples/RoomReads.antt =====
-- RoomReadStateProvider.tsx at work, in room 7, where Ann reads.
use django_channels_chat_rea.Common.{
  Text, text_eq, text_beq, trim, trim_start, none, some, true, List, [], ◌∷◌, lookup, has, length,
  ◌≡◌, ◌==◌, refl, Bool-cases, inl, inr,
}
use django_channels_chat_rea.Number.{of_ℕ, not_finite}
use django_channels_chat_rea.Message.{Message}
use django_channels_chat_rea.UnreadOverrides.{Store}
use django_channels_chat_rea.RoomRead.Refs.{of_number, of_text}
use django_channels_chat_rea.RoomRead.Projection.{
  RoomReadSnapshotInput, empty_room_read_state, project_unread_state,
}
use django_channels_chat_rea.RoomRead.Provider.{Provider, RoomReadLocalInput}
use django_channels_chat_rea.RoomRead.Published.{shown, or_else, Agrees}
use django_channels_chat_rea.RoomRead.Refinement.{
  Move, calls, publishes, IsLinked, move, play, play_then_publish,
}
use django_channels_chat_rea.RoomRead.Reference.{
  expected_count, still_unread, first_of_last, project_unread_state-expected,
}
use django_channels_chat_rea.RoomRead.Entries.{entry_of, IsFurther, IsSettled, empty-IsSettled}
use django_channels_chat_rea.RoomRead.Cursors.{
  Call, initializes, reads, gets_snapshot, acknowledges, sets_pending, reads_fully, run,
  run-IsFurther, run-IsSettled,
}
use django_channels_chat_rea.Examples.Data.{ascii_lower, ann, bob, message}

abbrev key : Text
key = 55 ∷ []

abbrev loaded : List Message
loaded =
    message 3 none none bob []
    ∷ message 5 none none ann []
    ∷ message 6 none none bob []
    ∷ message 8 none none bob []
    ∷ []

abbrev opened : RoomReadSnapshotInput
opened = record {
  room_id = of_number (of_ℕ 7);
  server_last_read_message_id = some (of_ℕ 2);
  pending_mark_read_message_id = none;
  messages = loaded;
  current_actor_ref = some ann;
}

abbrev read_to_6 : RoomReadLocalInput
read_to_6 = record {
  room_id = of_text (32 ∷ key);
  last_read_message_id = some (of_ℕ 6);
  messages = loaded;
  current_actor_ref = some ann;
}

abbrev fresh : Provider
fresh = record { rooms = []; authoritative_version = 0; published_override_counts = [] }

abbrev call_list : List Call
call_list =
    initializes opened
    ∷ gets_snapshot ((key, of_ℕ 4) ∷ []) none
    ∷ reads read_to_6
    ∷ acknowledges (of_number (of_ℕ 7)) (some (of_ℕ 4))
    ∷ sets_pending (of_number (of_ℕ 7)) (some not_finite)
    ∷ []

run-IsFurther_example :
    IsFurther (entry_of key fresh.rooms) (entry_of key (run ascii_lower call_list fresh).rooms)
run-IsFurther_example = run-IsFurther ascii_lower call_list fresh key

run-IsSettled_example : IsSettled (entry_of key (run ascii_lower call_list fresh).rooms)
unfolding lookup
run-IsSettled_example = run-IsSettled ascii_lower call_list fresh key empty-IsSettled

-- Of the four that the server counts, two of Bob's have been read since, and the divider stands at the
-- last one that is loaded.
project_unread_state-expected_example :
    project_unread_state ascii_lower (some ann) loaded 2 6 (some 4) ≡ record {
      unread_count = expected_count ascii_lower (some ann) loaded 2 6 (some 4);
      loaded_unread_count = length (still_unread ascii_lower (some ann) 6 loaded);
      first_unread_message_id =
          first_of_last ascii_lower
            (some ann)
            (expected_count ascii_lower (some ann) loaded 2 6 (some 4))
            (still_unread ascii_lower (some ann) 6 loaded);
    }
project_unread_state-expected_example =
    project_unread_state-expected ascii_lower (some ann) loaded 2 6 (some 4)

abbrev shown_rooms : Provider
shown_rooms = record {
  rooms = (key, record empty_room_read_state { initialized = true; unread_count = 2 }) ∷ [];
  authoritative_version = 1;
  published_override_counts = (key, 3) ∷ [];
}

abbrev overridden : Store
overridden = record {
  overrides = (key, 3) ∷ [];
  snapshot = (key, 3) ∷ [];
  listeners = [];
  notified = [];
}

same_entry :
    (other : Text)
    → Agrees
        (lookup other shown_rooms.published_override_counts)
        (lookup other overridden.overrides)
unfolding lookup
same_entry other = elim (Bool-cases (key == other)) [
  | inl found ↦ rw found refl
  | inr absent ↦ rw absent tt
]

linked : IsLinked shown_rooms overridden
unfolding lookup has trim trim_start text_beq
linked = record { keyed = ((refl, tt), ((refl, refl), tt)); agrees = λ other. same_entry other }

abbrev moves : List Move
moves =
    calls (gets_snapshot ((key, of_ℕ 4) ∷ []) none)
    ∷ publishes
    ∷ calls (reads_fully (of_number (of_ℕ 7)))
    ∷ []

play_then_publish_example :
    lookup key
      (move ascii_lower publishes (play ascii_lower moves (shown_rooms, overridden))).1.overrides
    ≡ or_else
        (shown (lookup key (play ascii_lower moves (shown_rooms, overridden)).0.rooms))
        (lookup key (play ascii_lower moves (shown_rooms, overridden)).1.overrides)
play_then_publish_example = play_then_publish ascii_lower moves (shown_rooms, overridden) key linked
