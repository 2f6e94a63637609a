-- ===== src/Realtime/Reactions.antt =====
-- useChatRoomPageRealtime.ts: the reactions under a message.
use django_channels_chat_rea.Common.{
  ℕ, ◌<◌, ℤ, Text, text_eq, int_eq, some, List, [], ◌∷◌, ◌++◌, map, Bool, true, false, ◌==◌, ◌≡◌,
  refl, arith, eq_iff, eq_refl, filter, ltb, All, Bool-cases, inl, inr,
}
use django_channels_chat_rea.Message.{Message, ReactionSummary}
use django_channels_chat_rea.ActorRef.{normalize_actor_ref}
use django_channels_chat_rea.WsEvent.{reaction_add, reaction_remove, Reacted}
use django_channels_chat_rea.Realtime.{
  Context, Page, has_emoji, add_one, take_one, add_reaction, remove_reaction, on_reactions,
  handle_message, matches_room_id,
}

-- Every reaction that is shown has been given by somebody.
abbrev pub ArePositive : List ReactionSummary → Type 0
ArePositive = All (λ r. 0 < r.count)

-- The reader has no reaction with the emoji.
abbrev pub NotMine : Text → List ReactionSummary → Type 0
NotMine emoji = All (λ r. (r.emoji == emoji) ≡ true → r.me ≡ false)

map-undone :
    (emoji : Text) (is_me : Bool) (rs : List ReactionSummary)
    → ArePositive rs
    → (is_me ≡ true → NotMine emoji rs)
    → filter (λ r. ltb 0 r.count) (map (take_one emoji is_me) (map (add_one emoji is_me) rs)) ≡ rs
unfolding add_one take_one
map-undone emoji is_me [] h n = refl
map-undone emoji true (r ∷ rs) h n =
    let mine = (n refl).0 in ground (arith, mine, map-undone emoji true rs h.1 (λ e. (n refl).1))
map-undone emoji false (r ∷ rs) h n =
    ground (arith, map-undone emoji false rs h.1 (λ e. absurd (cc)))

concat-undone :
    (emoji : Text) (is_me : Bool) (rs : List ReactionSummary) (new : ReactionSummary)
    → has_emoji emoji rs ≡ false
    → ArePositive rs
    → new.emoji ≡ emoji
    → new.count ≡ 1
    → filter (λ r. ltb 0 r.count) (map (take_one emoji is_me) (rs ++ new ∷ [])) ≡ rs
unfolding take_one
concat-undone emoji is_me [] new a h e c = ground (arith, eq_refl emoji)
concat-undone emoji is_me (r ∷ rs) new a h e c = ground (arith, concat-undone emoji is_me rs new)

remove_reaction-add_reaction :
    (emoji : Text) (is_me : Bool) (rs : List ReactionSummary)
    → ArePositive rs
    → (is_me ≡ true → NotMine emoji rs)
    → remove_reaction emoji is_me (add_reaction emoji is_me rs) ≡ rs
unfolding remove_reaction add_reaction
remove_reaction-add_reaction emoji is_me rs h n = elim (Bool-cases (has_emoji emoji rs)) [
  | inl e ↦ simp e (map-undone emoji is_me rs h n)
  | inr e ↦
      simp e (
        concat-undone emoji is_me rs (record { emoji = emoji; count = 1; me = is_me }) e h refl
          refl)
]

remove_reaction-ArePositive :
    (emoji : Text) (is_me : Bool) (rs : List ReactionSummary)
    → ArePositive (remove_reaction emoji is_me rs)
unfolding remove_reaction
remove_reaction-ArePositive emoji is_me [] = tt
remove_reaction-ArePositive emoji is_me (r ∷ rs) =
    ground (arith, remove_reaction-ArePositive emoji is_me rs)

map-add_one-ArePositive :
    (emoji : Text) (is_me : Bool) (rs : List ReactionSummary)
    → ArePositive rs
    → ArePositive (map (add_one emoji is_me) rs)
unfolding add_one
map-add_one-ArePositive emoji is_me [] h = tt
map-add_one-ArePositive emoji is_me (r ∷ rs) h =
    ground (arith, map-add_one-ArePositive emoji is_me rs h.1)

-- The reactions of the message with the id.
abbrev pub Reactions : ℤ → (List ReactionSummary → Type 0) → List Message → Type 0
Reactions id P = All (λ m. m.id ≡ id → P m.reactions)

on_reactions-undone :
    (id : ℤ) (emoji : Text) (is_me : Bool) (ms : List Message)
    → Reactions id ArePositive ms
    → (is_me ≡ true → Reactions id (NotMine emoji) ms)
    → map
        (on_reactions id (remove_reaction emoji is_me))
        (map (on_reactions id (add_reaction emoji is_me)) ms)
      ≡ ms
unfolding on_reactions
on_reactions-undone id emoji is_me [] h n = refl
on_reactions-undone id emoji is_me (m ∷ ms) h n = elim (Bool-cases (m.id == id)) [
  | inl e ↦
      let same = (eq_iff m.id id).0 e in
      let rest = on_reactions-undone id emoji is_me ms h.1 (λ e. (n e).1) in
      let here =
        remove_reaction-add_reaction emoji is_me m.reactions (h.0 same) (λ e. (n e).0 same) in
      ground (arith, rest, here)
  | inr e ↦
      let rest = on_reactions-undone id emoji is_me ms h.1 (λ e. (n e).1) in ground (arith, rest)
]

-- A reaction that somebody adds and takes back leaves every message as it was, also where it was the
-- first with its emoji: if the counts under the message are positive and, where it is the reader's
-- own, the reader had not reacted with the emoji before.
pub reaction_remove-reaction_add :
    (lower : Text → Text) (c : Context) (clock : ℕ) (now : Text) (r : Reacted) (p : Page)
    → Reactions r.message_id ArePositive p.messages
    → ((normalize_actor_ref lower (some r.public_ref) == c.current_actor_ref) ≡ true
        → Reactions r.message_id (NotMine r.emoji) p.messages)
    → handle_message lower c clock now
        (reaction_remove r)
        (handle_message lower c clock now (reaction_add r) p)
      ≡ p
unfolding handle_message
reaction_remove-reaction_add lower c clock now r p h n =
    elim (Bool-cases (matches_room_id c r.room_id)) [
      | inl e ↦ simp (e, on_reactions-undone r.message_id r.emoji _ p.messages h n)
      | inr e ↦ simp e
    ]
