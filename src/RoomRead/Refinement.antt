-- ===== src/RoomRead/Refinement.antt =====
-- RoomReadStateProvider.tsx with shared/unreadOverrides/store.ts: the calls and the effect that
-- publishes, in any order, where nothing else writes the overrides.
use django_channels_chat_rea.Common.{
  ℕ, Text, text_eq, Option, none, some, List, [], ◌∷◌, ◌≡◌, refl, sym, subst, lookup,
}
use django_channels_chat_rea.UnreadOverrides.{Store}
use django_channels_chat_rea.RoomRead.Provider.{Rooms, Provider, reset_rooms}
use django_channels_chat_rea.RoomRead.Snapshot.{apply_server_unread_snapshot}
use django_channels_chat_rea.RoomRead.Publishing.{publish_counts}
use django_channels_chat_rea.RoomRead.Published.{
  shown, or_else, Agrees, IsReady, publish_counts-lookup,
}
use django_channels_chat_rea.RoomRead.Cursors.{
  Call, initializes, reads, gets_snapshot, sets_divider, sets_pending, acknowledges, reads_fully,
  step,
}
use django_channels_chat_rea.RoomRead.Keyed.{IsKeyed, step-IsKeyed}

pub data Move : Type 0 where
  calls : Call → Move
  resets publishes : Move

-- The overrides hold what was published, and the rooms have keys that they can have.
pub record IsLinked (p : Provider) (store : Store) : Type 0 where
  pub keyed : IsKeyed p.rooms
  pub agrees :
      (key : Text) → Agrees (lookup key p.published_override_counts) (lookup key store.overrides)

ready :
    (previous : List (Text × ℕ)) (rooms : Rooms) (overrides : List (Text × ℕ))
    → IsKeyed rooms
    → ((key : Text) → Agrees (lookup key previous) (lookup key overrides))
    → IsReady previous rooms overrides
ready previous [] overrides k h = tt
ready previous ((key, room) ∷ rooms) overrides k h =
    (k.0.0, k.1.0, h key, ready previous rooms overrides (k.0.1, k.1.1) h)

Agrees-or_else : (published held : Option ℕ) → Agrees published (or_else published held)
Agrees-or_else none held = tt
Agrees-or_else (some n) held = refl

module _ (lower : Text → Text) where
  unfoldable pub move : Move → Provider × Store → Provider × Store
  unfolding step publish_counts reset_rooms
  move (calls c) system = (step lower c system.0, system.1)
  move resets system = (reset_rooms system.0, system.1)
  move publishes system = publish_counts system.0 system.1

  unfoldable pub play : List Move → Provider × Store → Provider × Store
  unfolding move
  play [] system = system
  play (m ∷ ms) system = play ms (move m system)

  step-published :
      (c : Call) (p : Provider)
      → (step lower c p).published_override_counts ≡ p.published_override_counts
  unfolding step apply_server_unread_snapshot
  step-published (initializes input) p = refl
  step-published (reads input) p = refl
  step-published (gets_snapshot counts room_ids) p = refl
  step-published (sets_divider room_id divider) p = refl
  step-published (sets_pending room_id id) p = refl
  step-published (acknowledges room_id id) p = refl
  step-published (reads_fully room_id) p = refl

  publish-IsLinked :
      (p : Provider) (store : Store)
      → IsLinked p store
      → IsLinked (publish_counts p store).0 (publish_counts p store).1
  unfolding publish_counts
  publish-IsLinked p store h = record {
    keyed = h.keyed;
    agrees = λ key.
        let after = publish_counts-lookup p store key (ready _ p.rooms _ h.keyed h.agrees) in
        subst
          (λ held. Agrees (lookup key (publish_counts p store).0.published_override_counts) held)
          (sym after.1)
          (subst
            (λ published.
              Agrees published (or_else (shown (lookup key p.rooms)) (lookup key store.overrides)))
            (sym after.0)
            (Agrees-or_else (shown (lookup key p.rooms)) (lookup key store.overrides)));
  }

  move-IsLinked :
      (m : Move) (system : Provider × Store)
      → IsLinked system.0 system.1
      → IsLinked (move m system).0 (move m system).1
  unfolding move reset_rooms lookup
  move-IsLinked (calls c) system h = record {
    keyed = step-IsKeyed lower c system.0 h.keyed;
    agrees = λ key.
        subst (λ published. Agrees (lookup key published) (lookup key system.1.overrides))
          (sym (step-published c system.0)) (h.agrees key);
  }
  move-IsLinked resets system h = record { keyed = (tt, tt); agrees = λ key. tt }
  move-IsLinked publishes system h = publish-IsLinked system.0 system.1 h

  play-IsLinked :
      (ms : List Move) (system : Provider × Store)
      → IsLinked system.0 system.1
      → IsLinked (play ms system).0 (play ms system).1
  unfolding play
  play-IsLinked [] system h = h
  play-IsLinked (m ∷ ms) system h = play-IsLinked ms (move m system) (move-IsLinked m system h)

  -- Whatever calls, resets and runs of the effect there are, from a state where the keys of the rooms
  -- are ones that the overrides can have, none of them twice, and the overrides hold what was
  -- published: when the effect runs next, it leaves the unread count of every initialised room in the
  -- overrides, and there alone changes them.
  pub play_then_publish :
      (ms : List Move) (system : Provider × Store) (key : Text)
      → IsLinked system.0 system.1
      → let before = play ms system in
        lookup key (move publishes before).1.overrides
        ≡ or_else (shown (lookup key before.0.rooms)) (lookup key before.1.overrides)
  unfolding move
  play_then_publish ms system key h =
      let before = play ms system in
      let linked = play-IsLinked ms system h in
      (publish_counts-lookup before.0 before.1 key
        (ready _ before.0.rooms _ linked.keyed linked.agrees)).1
