-- ===== src/ChatRoom/Dedupe.antt =====
-- useChatRoom.ts: `dedupeMessages` keeps the first message of each key.
use django_channels_chat_rea.Common.{
  Text, text_eq, List, [], ◌∷◌, Bool, true, false, ◌||◌, ◌==◌, ◌≡◌, refl, arith, eq_iff, eq_refl,
  any, All, Bool-cases, inl, inr,
}
use django_channels_chat_rea.Message.{Message}
use django_channels_chat_rea.ChatRoom.{message_key, is_seen, dedupe_from, dedupe_messages}

-- A message of the list has the key.
abbrev pub has_key : Text → List Message → Bool
has_key key = any (λ m. message_key m == key)

-- No two messages have the same key.
abbrev pub DistinctKeys : List Message → Type 0
DistinctKeys [] = Unit
DistinctKeys (m ∷ ms) = (has_key (message_key m) ms ≡ false) × DistinctKeys ms

dedupe_from-seen :
    (seen : List Text) (ms : List Message) (key : Text)
    → is_seen key seen ≡ true
    → has_key key (dedupe_from seen ms) ≡ false
unfolding dedupe_from
dedupe_from-seen seen [] key h = refl
dedupe_from-seen seen (m ∷ ms) key h = ground (
  arith,
  eq_iff (message_key m) key,
  dedupe_from-seen seen ms key,
  dedupe_from-seen (message_key m ∷ seen) ms key,
)

dedupe_from-DistinctKeys :
    (seen : List Text) (ms : List Message) → DistinctKeys (dedupe_from seen ms)
unfolding dedupe_from
dedupe_from-DistinctKeys seen [] = tt
dedupe_from-DistinctKeys seen (m ∷ ms) = elim (Bool-cases (is_seen (message_key m) seen)) [
  | inl old ↦ simp old (dedupe_from-DistinctKeys seen ms)
  | inr new ↦ simp new (
    dedupe_from-seen (message_key m ∷ seen) ms (message_key m)
        (ground (arith, eq_refl (message_key m))),
    dedupe_from-DistinctKeys (message_key m ∷ seen) ms,
  )
]

dedupe_from-has_key :
    (seen : List Text) (ms : List Message) (key : Text)
    → (is_seen key seen || has_key key (dedupe_from seen ms)) ≡ (is_seen key seen || has_key key ms)
unfolding dedupe_from
dedupe_from-has_key seen [] key = refl
dedupe_from-has_key seen (m ∷ ms) key = ground (
  arith,
  eq_iff (message_key m) key,
  dedupe_from-has_key seen ms key,
  dedupe_from-has_key (message_key m ∷ seen) ms key,
)

-- No key of the list has been seen.
abbrev Unseen : List Text → List Message → Type 0
Unseen seen ms = All (λ m. is_seen (message_key m) seen ≡ false) ms

Unseen-cons :
    (key : Text) (seen : List Text) (ms : List Message)
    → has_key key ms ≡ false
    → Unseen seen ms
    → Unseen (key ∷ seen) ms
Unseen-cons key seen [] h u = tt
Unseen-cons key seen (m ∷ ms) h u =
    ground (arith, eq_iff (message_key m) key, eq_iff key (message_key m), Unseen-cons key seen ms)

dedupe_from_distinct :
    (seen : List Text) (ms : List Message)
    → DistinctKeys ms
    → Unseen seen ms
    → dedupe_from seen ms ≡ ms
unfolding dedupe_from
dedupe_from_distinct seen [] d u = refl
dedupe_from_distinct seen (m ∷ ms) d u = ground (
  arith,
  Unseen-cons (message_key m) seen ms d.0 u.1,
  dedupe_from_distinct (message_key m ∷ seen) ms d.1,
)

Unseen-nil : (ms : List Message) → Unseen [] ms
Unseen-nil [] = tt
Unseen-nil (m ∷ ms) = (refl, Unseen-nil ms)

-- Afterwards no key stands twice, a key is there exactly if it was there before, and deduping again
-- changes nothing.
pub dedupe_messages-DistinctKeys :
    (ms : List Message) (key : Text)
    → DistinctKeys (dedupe_messages ms)
      × (has_key key (dedupe_messages ms) ≡ has_key key ms)
      × (dedupe_messages (dedupe_messages ms) ≡ dedupe_messages ms)
unfolding dedupe_messages
dedupe_messages-DistinctKeys ms key =
    let once = dedupe_messages ms in
    let distinct = dedupe_from-DistinctKeys [] ms in
    (
      distinct,
      dedupe_from-has_key [] ms key,
      dedupe_from_distinct [] once distinct (Unseen-nil once),
    )

module _ {κ} (P : Message → Type κ) where
  dedupe_from-All : (seen : List Text) (ms : List Message) → All P ms → All P (dedupe_from seen ms)
  unfolding dedupe_from
  dedupe_from-All seen [] h = tt
  dedupe_from-All seen (m ∷ ms) h = elim (Bool-cases (is_seen (message_key m) seen)) [
    | inl old ↦ simp old (dedupe_from-All seen ms h.1)
    | inr new ↦ simp new (h.0, dedupe_from-All (message_key m ∷ seen) ms h.1)
  ]

  pub dedupe_messages-All : (ms : List Message) → All P ms → All P (dedupe_messages ms)
  unfolding dedupe_messages
  dedupe_messages-All ms h = dedupe_from-All [] ms h
