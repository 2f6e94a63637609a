-- ===== src/RoomRead/Entries.antt =====
-- RoomReadStateProvider.tsx: what each call makes of the entry of a room.
use django_channels_chat_rea.Common.{
  ℕ, zero, suc, ◌≤◌, ℤ, int_eq, Text, text_eq, nat_eq, Option, none, some, List, Bool, true, false,
  ◌≡◌, refl, sym, subst, arith, lookup,
}
use django_channels_chat_rea.Message.{Message}
use django_channels_chat_rea.RoomRead.Projection.{
  Projection, project_unread_state, RoomReadState, empty_room_read_state, RoomReadSnapshotInput,
  apply_projection,
}
use django_channels_chat_rea.RoomRead.Provider.{
  Rooms, RoomReadLocalInput, entry_or_empty, read_locally, acknowledge, fully_read,
}
use django_channels_chat_rea.RoomRead.Snapshot.{take_snapshot}
use django_channels_chat_rea.RoomRead.Reference.{
  project_unread_state-expected, expected_count, first_of_last, still_unread,
}

-- The entry of a room, or the empty one.
abbrev pub entry_of : Text → Rooms → RoomReadState
entry_of key rooms = entry_or_empty (lookup key rooms)

-- The cursors of `after` are where those of `before` are, or further on.
abbrev pub IsFurther : RoomReadState → RoomReadState → Type 0
IsFurther before after =
    (before.local_last_read_message_id ≤ after.local_last_read_message_id)
    × (before.server_last_read_message_id ≤ after.server_last_read_message_id)

-- There is no first unread message where none is unread.
abbrev pub HasFirstIfAny : ℕ → Option ℤ → Type 0
HasFirstIfAny zero none = Unit
HasFirstIfAny zero (some id) = ⊥
HasFirstIfAny (suc n) first = Unit

-- The count of an initialised room is at most that of the server, and another room has none.
abbrev pub IsCapped : Bool → Option ℕ → ℕ → Type 0
IsCapped false authoritative count = count ≡ 0
IsCapped true none count = Unit
IsCapped true (some authoritative) count = count ≤ authoritative

pub record IsSettled (entry : RoomReadState) : Type 0 where
  pub ordered : entry.server_last_read_message_id ≤ entry.local_last_read_message_id
  pub first : HasFirstIfAny entry.unread_count entry.first_unread_message_id
  pub capped : IsCapped entry.initialized entry.authoritative_unread_count entry.unread_count

pub empty-IsSettled : IsSettled empty_room_read_state
empty-IsSettled = record { ordered = omega arith; first = tt; capped = refl }

first_of_last-HasFirstIfAny :
    (lower : Text → Text) (current : Option Text) (n : ℕ) (ms : List Message)
    → HasFirstIfAny n (first_of_last lower current n ms)
first_of_last-HasFirstIfAny lower current zero ms = tt
first_of_last-HasFirstIfAny lower current (suc n) ms = tt

-- The entry goes on, and stays settled if it is.
abbrev pub Improves : RoomReadState → RoomReadState → Type 0
Improves before after = IsFurther before after × (IsSettled before → IsSettled after)

module _ (lower : Text → Text) (current : Option Text) where
  project_unread_state-first :
      (messages : List Message) (server local : ℕ) (authoritative : Option ℕ)
      → let projection = project_unread_state lower current messages server local authoritative in
        HasFirstIfAny projection.unread_count projection.first_unread_message_id
  project_unread_state-first messages server local authoritative =
      subst
        (λ (projection : Projection).
          HasFirstIfAny projection.unread_count projection.first_unread_message_id)
        (sym (project_unread_state-expected lower current messages server local authoritative))
        (first_of_last-HasFirstIfAny lower current
          (expected_count lower current messages server local authoritative)
          (still_unread lower current local messages))

  project_unread_state-IsCapped :
      (messages : List Message) (server local : ℕ) (authoritative : Option ℕ)
      → let projection = project_unread_state lower current messages server local authoritative in
        IsCapped true authoritative projection.unread_count
  project_unread_state-IsCapped messages server local none = tt
  project_unread_state-IsCapped messages server local (some authoritative) = ground (
    arith,
    project_unread_state-expected lower current messages server local (some authoritative),
  )

module _ (lower : Text → Text) where
  pub apply_projection-Improves :
      (entry : RoomReadState) (input : RoomReadSnapshotInput)
      → Improves entry (apply_projection lower entry input)
  unfolding apply_projection
  apply_projection-Improves entry input = (
    (omega arith, omega arith),
    λ h. record {
      ordered = omega arith;
      first =
          project_unread_state-first lower input.current_actor_ref input.messages _ _
            entry.authoritative_unread_count;
      capped =
          project_unread_state-IsCapped lower input.current_actor_ref input.messages _ _
            entry.authoritative_unread_count;
    },
  )

  pub read_locally-Improves :
      (input : RoomReadLocalInput) (local : ℕ) (entry : RoomReadState)
      → entry.local_last_read_message_id ≤ local
      → Improves entry (read_locally lower input local entry)
  unfolding read_locally
  read_locally-Improves input local entry l = (
    (l, omega arith),
    λ h. record {
      ordered = ground (arith, h.ordered);
      first =
          project_unread_state-first lower input.current_actor_ref input.messages _ _
            entry.authoritative_unread_count;
      capped =
          project_unread_state-IsCapped lower input.current_actor_ref input.messages _ _
            entry.authoritative_unread_count;
    },
  )

pub take_snapshot-Improves :
    (version authoritative : ℕ) (entry : RoomReadState)
    → Improves entry (take_snapshot version authoritative entry)
unfolding take_snapshot
take_snapshot-Improves version authoritative entry = (
  (omega arith, omega arith),
  λ h. record {
    ordered = h.ordered;
    first = ground (arith, h.first, h.capped);
    capped = ground (arith, h.first, h.capped);
  },
)

pub acknowledge-Improves : (id : ℕ) (entry : RoomReadState) → Improves entry (acknowledge id entry)
unfolding acknowledge
acknowledge-Improves id entry = (
  (omega arith, omega arith),
  λ h. record { ordered = omega arith; first = h.first; capped = h.capped },
)

pub unchanged-Improves : (entry : RoomReadState) → Improves entry entry
unchanged-Improves entry = ((omega arith, omega arith), λ h. h)

pub Improves-trans :
    (before between after : RoomReadState)
    → Improves before between
    → Improves between after
    → Improves before after
Improves-trans before between after g h = ((omega arith, omega arith), λ settled. h.1 (g.1 settled))

pub with_divider-Improves :
    (entry : RoomReadState) (divider : Option ℤ)
    → Improves entry (record entry { divider_message_id = divider })
with_divider-Improves entry divider = (
  (omega arith, omega arith),
  λ h. record { ordered = h.ordered; first = h.first; capped = h.capped },
)

pub with_pending-Improves :
    (entry : RoomReadState) (pending : Option ℕ)
    → Improves entry (record entry { pending_mark_read_message_id = pending })
with_pending-Improves entry pending = (
  (omega arith, omega arith),
  λ h. record { ordered = h.ordered; first = h.first; capped = h.capped },
)

pub fully_read-Improves : (entry : RoomReadState) → Improves entry (fully_read entry)
unfolding fully_read
fully_read-Improves entry = (
  (omega arith, omega arith),
  λ h. record { ordered = h.ordered; first = tt; capped = ground arith },
)
