-- ===== src/RoomRead/Published.antt =====
-- RoomReadStateProvider.tsx and shared/unreadOverrides/store.ts: what the overrides hold after the effect.
use django_channels_chat_rea.Common.{
  ℕ, Text, text_eq, nat_eq, truthy, Option, none, some, List, [], ◌∷◌, true, false, not, ◌||◌, ◌==◌,
  ◌≡◌, refl, sym, ◌∙◌, subst, arith, eq_iff, has, lookup, insert, lookup-insert, lookup_absent,
  if◌then◌else◌,
}
use django_channels_chat_rea.Number.{of_ℕ}
use django_channels_chat_rea.UnreadOverrides.{Store, set_unread_override, normalize_unread_count}
use django_channels_chat_rea.UnreadOverrides.Consistency.{IsRoomKey}
use django_channels_chat_rea.UnreadOverrides.Changes.{set_unread_override-lookup}
use django_channels_chat_rea.RoomRead.Projection.{RoomReadState}
use django_channels_chat_rea.RoomRead.Provider.{Rooms, Provider, same_count}
use django_channels_chat_rea.RoomRead.Publishing.{publish_all, publish_counts}

-- The count of an initialised room.
abbrev pub shown : Option RoomReadState → Option ℕ
shown none = none
shown (some room) = if room.initialized then some room.unread_count else none

abbrev pub or_else : Option ℕ → Option ℕ → Option ℕ
or_else none other = other
or_else (some n) other = some n

or_else-none : (o : Option ℕ) → or_else o none ≡ o
or_else-none none = refl
or_else-none (some n) = refl

-- What was published for the room is still what the store holds.
abbrev pub Agrees : Option ℕ → Option ℕ → Type 0
Agrees none held = Unit
Agrees (some n) held = held ≡ some n

abbrev publish_one : List (Text × ℕ) → Text → RoomReadState → Store → Store
publish_one previous key room store =
    if not room.initialized || same_count (lookup key previous) (some room.unread_count)
    then store
    else set_unread_override key (of_ℕ room.unread_count) store

normalize_of_ℕ : (n : ℕ) → normalize_unread_count (of_ℕ n) ≡ n
unfolding normalize_unread_count
normalize_of_ℕ n = refl

set-lookup :
    (key other : Text) (n : ℕ) (store : Store)
    → IsRoomKey key
    → lookup other (set_unread_override key (of_ℕ n) store).overrides
      ≡ (if key == other then some n else lookup other store.overrides)
set-lookup key other n store k = ground (
  arith,
  k.0,
  k.1,
  normalize_of_ℕ n,
  (set_unread_override-lookup key other (of_ℕ n) store
      (subst (λ t. truthy t ≡ true) (sym k.1) k.0)).0,
  eq_iff key other,
  eq_iff other key,
)

-- An entry that is published already is held already.
held_already :
    (published held : Option ℕ) (n : ℕ)
    → Agrees published held
    → same_count published (some n) ≡ true
    → held ≡ some n
held_already none held n h same = ground arith
held_already (some m) held n h same = ground (arith, h)

publish_one-lookup :
    (previous : List (Text × ℕ)) (key other : Text) (room : RoomReadState) (store : Store)
    → IsRoomKey key
    → Agrees (lookup key previous) (lookup key store.overrides)
    → lookup other (publish_one previous key room store).overrides ≡ (
        if key == other
        then or_else (shown (some room)) (lookup other store.overrides)
        else lookup other store.overrides)
publish_one-lookup previous key other room store k h = ground (
  arith,
  eq_iff key other,
  held_already (lookup key previous) (lookup key store.overrides) room.unread_count h,
  set-lookup key other room.unread_count store k,
)

-- No room stands twice, each key is one that the overrides can have, and they hold what was published.
abbrev pub IsReady : List (Text × ℕ) → Rooms → List (Text × ℕ) → Type 0
IsReady previous [] overrides = Unit
IsReady previous ((key, room) ∷ rooms) overrides =
    (has key rooms ≡ false)
    × IsRoomKey key
    × Agrees (lookup key previous) (lookup key overrides)
    × IsReady previous rooms overrides

-- A change of the overrides at a key that no room has does not matter.
IsReady-elsewhere :
    (previous : List (Text × ℕ)) (key : Text) (rooms : Rooms) (overrides after : List (Text × ℕ))
    → has key rooms ≡ false
    → ((other : Text) → (key == other) ≡ false → lookup other after ≡ lookup other overrides)
    → IsReady previous rooms overrides
    → IsReady previous rooms after
unfolding has
IsReady-elsewhere previous key [] overrides after absent same h = tt
IsReady-elsewhere previous key ((other, room) ∷ rooms) overrides after absent same h =
    let elsewhere : (key == other) ≡ false =
      ground (arith, absent, eq_iff key other, eq_iff other key) in
    (
      h.0,
      h.1,
      subst (Agrees (lookup other previous)) (sym (same other elsewhere)) h.2,
      IsReady-elsewhere previous key rooms overrides after (ground (arith, absent)) same h.3,
    )

publish_all-lookup :
    (previous : List (Text × ℕ)) (rooms : Rooms) (next : List (Text × ℕ)) (store : Store)
    (other : Text)
    → IsReady previous rooms store.overrides
    → (lookup other (publish_all previous rooms next store).0
        ≡ or_else (shown (lookup other rooms)) (lookup other next))
      × (lookup other (publish_all previous rooms next store).1.overrides
          ≡ or_else (shown (lookup other rooms)) (lookup other store.overrides))
unfolding publish_all lookup
publish_all-lookup previous [] next store other h = (refl, refl)
publish_all-lookup previous ((key, room) ∷ rooms) next store other (fresh, named, agrees, more) =
    let published = if room.initialized then insert key room.unread_count next else next in
    let after = publish_one previous key room store in
    let one = λ (name : Text). publish_one-lookup previous key name room store named agrees in
    let still =
      IsReady-elsewhere previous key rooms store.overrides after.overrides fresh
        (λ name elsewhere. ground (arith, one name, elsewhere)) more in
    let rest = publish_all-lookup previous rooms published after other still in
    (
      ground (
        arith,
        rest.0,
        lookup-insert key other room.unread_count next,
        eq_iff key other,
        lookup_absent key rooms fresh,
      ),
      ground (arith, rest.1, one other, eq_iff key other, lookup_absent key rooms fresh),
    )

-- Where no room stands twice, each key is one that the overrides can have, and the overrides hold what
-- was published before: after the effect the provider remembers the count of every initialised room and
-- nothing else, and the overrides hold those counts and are what they were for any other room.
pub publish_counts-lookup :
    (p : Provider) (store : Store) (other : Text)
    → IsReady p.published_override_counts p.rooms store.overrides
    → let after = publish_counts p store in
      (lookup other after.0.published_override_counts ≡ shown (lookup other p.rooms))
      × (lookup other after.1.overrides
          ≡ or_else (shown (lookup other p.rooms)) (lookup other store.overrides))
unfolding publish_counts lookup
publish_counts-lookup p store other h =
    let all = publish_all-lookup p.published_override_counts p.rooms [] store other h in
    (all.0 ∙ or_else-none (shown (lookup other p.rooms)), all.1)
