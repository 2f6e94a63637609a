-- ===== src/Inbox/Merging.antt =====
-- DirectInboxProvider.tsx, `mergeItem`. `sort` is stable, and is one by insertion here.
use django_channels_chat_rea.Common.{
  ℕ, suc, ◌≤◌, leb, nat_eq, Text, Option, none, some, List, [], ◌∷◌, Bool, true, false, not, ◌&&◌,
  ◌||◌, ◌==◌, ◌≡◌, refl, arith, any, filter, All, Bool-cases, inl, inr, if◌then◌else◌,
}
use django_channels_chat_rea.Inbox.{DirectChatListItem}

-- How many items are of the room.
abbrev pub count_of : ℕ → List DirectChatListItem → ℕ
count_of room [] = 0
count_of room (item ∷ items) =
    if item.room_id == room then suc (count_of room items) else count_of room items

-- The comparison puts the first of the two no later: the later message first, and no date last.
abbrev pub is_before : Option ℕ → Option ℕ → Bool
is_before none none = true
is_before none (some b) = false
is_before (some a) none = true
is_before (some a) (some b) = leb b a

-- The time `a` stands no later in the list than `b`: it is not earlier, and no time stands last.
abbrev pub IsNotAfter : Option ℕ → Option ℕ → Type 0
IsNotAfter (some a) (some b) = b ≤ a
IsNotAfter (some a) none = Unit
IsNotAfter none none = Unit
IsNotAfter none (some b) = ⊥

is_before-IsNotAfter : (a b : Option ℕ) → is_before a b ≡ true → IsNotAfter a b
is_before-IsNotAfter a b h = ground (arith, h)

is_before-IsNotAfter_flip : (a b : Option ℕ) → is_before a b ≡ false → IsNotAfter b a
is_before-IsNotAfter_flip a b h = ground (arith, h)

IsNotAfter-trans : (a b c : Option ℕ) → IsNotAfter a b → IsNotAfter b c → IsNotAfter a c
IsNotAfter-trans a b c g h = ground (arith, g, h)

module _ (time_of : Text → Option ℕ) where
  abbrev time : DirectChatListItem → Option ℕ
  time item = time_of item.last_message_at

  abbrev pub insert_sorted : DirectChatListItem → List DirectChatListItem → List DirectChatListItem
  insert_sorted item [] = item ∷ []
  insert_sorted item (other ∷ items) =
      let rest = insert_sorted item items in
      if is_before (time item) (time other) then item ∷ other ∷ items else other ∷ rest

  unfoldable pub sort : List DirectChatListItem → List DirectChatListItem
  sort [] = []
  sort (item ∷ items) = insert_sorted item (sort items)

  unfoldable pub merge_item : List DirectChatListItem → DirectChatListItem → List DirectChatListItem
  unfolding sort
  merge_item prev incoming =
      sort (incoming ∷ filter (λ item. not (item.room_id == incoming.room_id)) prev)

  -- Each item is before all that follow it.
  abbrev pub IsSorted : List DirectChatListItem → Type 0
  IsSorted [] = Unit
  IsSorted (item ∷ items) =
      All (λ other. IsNotAfter (time item) (time other)) items × IsSorted items

  All-before :
      (a b : Option ℕ) (items : List DirectChatListItem)
      → IsNotAfter a b
      → All (λ other. IsNotAfter b (time other)) items
      → All (λ other. IsNotAfter a (time other)) items
  All-before a b [] l h = tt
  All-before a b (item ∷ items) l h =
      (IsNotAfter-trans a b (time item) l h.0, All-before a b items l h.1)

  insert-All :
      (a : Option ℕ) (item : DirectChatListItem) (items : List DirectChatListItem)
      → IsNotAfter a (time item)
      → All (λ other. IsNotAfter a (time other)) items
      → All (λ other. IsNotAfter a (time other)) (insert_sorted item items)
  insert-All a item [] l h = (l, tt)
  insert-All a item (other ∷ items) l h = elim (Bool-cases (is_before (time item) (time other))) [
    | inl before ↦ rw before (l, h)
    | inr after ↦ rw after (h.0, insert-All a item items l h.1)
  ]

  insert-IsSorted :
      (item : DirectChatListItem) (items : List DirectChatListItem)
      → IsSorted items
      → IsSorted (insert_sorted item items)
  insert-IsSorted item [] h = (tt, tt)
  insert-IsSorted item (other ∷ items) h = elim (Bool-cases (is_before (time item) (time other))) [
    | inl before ↦
        let first = is_before-IsNotAfter (time item) (time other) before in
        rw before ((first, All-before (time item) (time other) items first h.0), h)
    | inr after ↦ rw after (
      insert-All (time other) item items (is_before-IsNotAfter_flip (time item) (time other) after)
          h.0,
      insert-IsSorted item items h.1,
    )
  ]

  sort-IsSorted : (items : List DirectChatListItem) → IsSorted (sort items)
  unfolding sort
  sort-IsSorted [] = tt
  sort-IsSorted (item ∷ items) = insert-IsSorted item (sort items) (sort-IsSorted items)

  insert-count :
      (room : ℕ) (item : DirectChatListItem) (items : List DirectChatListItem)
      → count_of room (insert_sorted item items) ≡ count_of room (item ∷ items)
  insert-count room item [] = refl
  insert-count room item (other ∷ items) = ground (arith, insert-count room item items)

  sort-count :
      (room : ℕ) (items : List DirectChatListItem)
      → count_of room (sort items) ≡ count_of room items
  unfolding sort
  sort-count room [] = refl
  sort-count room (item ∷ items) =
      ground (arith, insert-count room item (sort items), sort-count room items)

  insert-any :
      (p : DirectChatListItem → Bool) (item : DirectChatListItem) (items : List DirectChatListItem)
      → any p (insert_sorted item items) ≡ (p item || any p items)
  insert-any p item [] = refl
  insert-any p item (other ∷ items) = ground (arith, insert-any p item items)

  sort-any :
      (p : DirectChatListItem → Bool) (items : List DirectChatListItem)
      → any p (sort items) ≡ any p items
  unfolding sort
  sort-any p [] = refl
  sort-any p (item ∷ items) = ground (arith, insert-any p item (sort items), sort-any p items)

  filtered-count :
      (room out : ℕ) (items : List DirectChatListItem)
      → count_of room (filter (λ item. not (item.room_id == out)) items)
        ≡ (if out == room then 0 else count_of room items)
  filtered-count room out [] = ground arith
  filtered-count room out (item ∷ items) = ground (arith, filtered-count room out items)

  filtered-any :
      (p q : DirectChatListItem → Bool) (items : List DirectChatListItem)
      → any p (filter q items) ≡ any (λ item. q item && p item) items
  filtered-any p q [] = refl
  filtered-any p q (item ∷ items) = ground (arith, filtered-any p q items)

  -- The merged list goes from the latest last message to the earliest, those without a date last; it has
  -- the incoming item, its room once, each other room as often as before, and of the items before it
  -- those of other rooms.
  pub merge_item-IsSorted :
      (prev : List DirectChatListItem) (incoming : DirectChatListItem) (room : ℕ)
      (p : DirectChatListItem → Bool)
      → let merged = merge_item prev incoming in
        IsSorted merged
        × (count_of room merged ≡ (if incoming.room_id == room then 1 else count_of room prev))
        × (any p merged
            ≡ (p incoming || any (λ item. not (item.room_id == incoming.room_id) && p item) prev))
  unfolding merge_item
  merge_item-IsSorted prev incoming room p =
      let others =
        filter (λ (item : DirectChatListItem). not (item.room_id == incoming.room_id)) prev in
      (
        sort-IsSorted (incoming ∷ others),
        ground
            (arith, sort-count room (incoming ∷ others), filtered-count room incoming.room_id prev),
        ground (
          arith,
          sort-any p (incoming ∷ others),
          filtered-any p (λ item. not (item.room_id == incoming.room_id)) prev,
        ),
      )
