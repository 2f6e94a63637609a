-- ===== src/RoomRead/Reference.antt =====
-- RoomReadStateProvider.tsx: `projectUnreadState` against a description without branches.
use django_channels_chat_rea.Common.{
  ℕ, zero, suc, ◌+◌, ◌-◌, ◌≤◌, ℤ, pos, pos_part, leb_ℤ, ltb, ◌&&◌, Text, Option, none, some, List,
  [], ◌∷◌, ◌≡◌, refl, arith, length, filter, drop,
}
use django_channels_chat_rea.Message.{Message}
use django_channels_chat_rea.RoomRead.Projection.{
  is_foreign, id_at, count_read, count_read_foreign_messages_after_baseline,
  collect_loaded_foreign_unread_messages, project_counted, project_unread_state,
}

module _ (lower : Text → Text) (current : Option Text) where
  -- The messages of others that stand above the server's cursor and not above the local one.
  abbrev pub read_since : ℕ → ℕ → List Message → List Message
  read_since server local =
      filter
        (λ m. is_foreign lower m current && ltb server (pos_part m.id) && leb_ℤ m.id (pos local))

  -- The messages of others above the local cursor.
  abbrev pub still_unread : ℕ → List Message → List Message
  still_unread local = filter (λ m. is_foreign lower m current && ltb local (pos_part m.id))

  -- What the server counts less what has been read since; without a count of the server, what is
  -- loaded.
  abbrev pub expected_count : List Message → ℕ → ℕ → Option ℕ → ℕ
  expected_count messages server local none = length (still_unread local messages)
  expected_count messages server local (some authoritative) =
      authoritative - length (read_since server local messages)

  -- The first of the last so many messages.
  abbrev pub first_of_last : ℕ → List Message → Option ℤ
  first_of_last zero messages = none
  first_of_last (suc n) messages = id_at (drop (length messages - suc n) messages) 0

  count_read-filter :
      (server local count : ℕ) (ms : List Message)
      → count_read lower current server local count ms ≡ count + length (read_since server local ms)
  unfolding count_read
  count_read-filter server local count [] = ground arith
  count_read-filter server local count (m ∷ ms) = ground (
    arith,
    count_read-filter server local count ms,
    count_read-filter server local (count + 1) ms,
  )

  nothing_between :
      (server local : ℕ) (ms : List Message)
      → local ≤ server
      → length (read_since server local ms) ≡ 0
  nothing_between server local [] h = refl
  nothing_between server local (m ∷ ms) h = ground (arith, nothing_between server local ms h)

  count-filter :
      (server local : ℕ) (ms : List Message)
      → count_read_foreign_messages_after_baseline lower current server local ms
        ≡ length (read_since server local ms)
  unfolding count_read_foreign_messages_after_baseline
  count-filter server local ms =
      ground (arith, nothing_between server local ms, count_read-filter server local 0 ms)

  loaded-filter :
      (local : ℕ) (ms : List Message)
      → collect_loaded_foreign_unread_messages lower current local ms ≡ still_unread local ms
  unfolding collect_loaded_foreign_unread_messages
  loaded-filter local [] = refl
  loaded-filter local (m ∷ ms) = ground (arith, loaded-filter local ms)

  id_at-drop : (ms : List Message) (n : ℕ) → id_at ms n ≡ id_at (drop n ms) 0
  id_at-drop [] zero = refl
  id_at-drop [] (suc n) = refl
  id_at-drop (m ∷ ms) zero = refl
  id_at-drop (m ∷ ms) (suc n) = id_at-drop ms n

  first_at_count : (ms : List Message) → id_at ms 0 ≡ first_of_last (length ms) ms
  first_at_count [] = refl
  first_at_count (m ∷ ms) = ground (arith)

  project_counted-first :
      (count : ℕ) (ms : List Message)
      → project_counted lower current count ms ≡ record {
        unread_count = count;
        loaded_unread_count = length ms;
        first_unread_message_id = first_of_last count ms;
      }
  unfolding project_counted
  project_counted-first zero ms = ground arith
  project_counted-first (suc n) [] = ground arith
  project_counted-first (suc n) (m ∷ ms) =
      ground (arith, id_at-drop (m ∷ ms) (length (m ∷ ms) - suc n), id_at-drop (m ∷ ms) 0)

  -- The unread count is what the server counts less the loaded messages of others that have been read
  -- since, or without a count of the server the number of those that are loaded and not read; the
  -- divider stands at the first of the last so many loaded unread messages, at the first of them all
  -- where fewer are loaded, and nowhere where the count is 0.
  pub project_unread_state-expected :
      (messages : List Message) (server local : ℕ) (authoritative : Option ℕ)
      → let count = expected_count messages server local authoritative in
        let loaded = still_unread local messages in
        project_unread_state lower current messages server local authoritative ≡ record {
          unread_count = count;
          loaded_unread_count = length loaded;
          first_unread_message_id = first_of_last count loaded;
        }
  unfolding project_unread_state
  project_unread_state-expected messages server local none =
      simp (loaded-filter local messages)
        (ground (arith, first_at_count (still_unread local messages)))
  project_unread_state-expected messages server local (some authoritative) =
      simp (count-filter server local messages, loaded-filter local messages)
        (project_counted-first (authoritative - length (read_since server local messages))
          (still_unread local messages))
