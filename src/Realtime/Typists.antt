-- ===== src/Realtime/Typists.antt =====
-- useChatRoomPageRealtime.ts: who is typing, in two maps that are shown together.
use django_channels_chat_rea.Common.{
  ℕ, Text, text_eq, some, List, [], ◌∷◌, ◌++◌, Bool, false, not, ◌==◌, ◌≡◌, refl, sym, subst, arith,
  eq_iff, eq_refl, any, any-append, filter, keys, lookup, insert, delete, keys-insert, keys-delete,
}
use django_channels_chat_rea.ActorRef.{normalize_actor_ref}
use django_channels_chat_rea.WsEvent.{ChatWsEvent, Typing, IncomingMessage, chat_message, typing}
use django_channels_chat_rea.Realtime.{
  Context, Page, handle_message, receive_message, show_typing, expire_typing, is_fresh,
  is_fresh_entry,
}

-- Somebody of the list.
abbrev pub is_among : Text → List Text → Bool
is_among actor = any (λ other. other == actor)

-- No one stands twice.
abbrev pub Once : List Text → Type 0
Once [] = Unit
Once (actor ∷ actors) = (is_among actor actors ≡ false) × Once actors

pub record IsInStep (c : Context) (p : Page) : Type 0 where
  pub named : keys p.typing_users ≡ keys p.typing_display_names
  pub once : Once (keys p.typing_users)
  pub others : is_among c.current_actor_ref (keys p.typing_users) ≡ false

concat-Once :
    (actor : Text) (actors : List Text)
    → is_among actor actors ≡ false
    → Once actors
    → Once (actors ++ actor ∷ [])
concat-Once actor [] h o = (refl, tt)
concat-Once actor (x ∷ xs) h o = ground (
  arith,
  eq_iff x actor,
  eq_iff actor x,
  any-append (λ other. other == x) xs (actor ∷ []),
  concat-Once actor xs,
)

filter-among :
    (p : Text → Bool) (actor : Text) (actors : List Text)
    → is_among actor actors ≡ false
    → is_among actor (filter p actors) ≡ false
filter-among p actor [] h = refl
filter-among p actor (x ∷ xs) h = ground (arith, filter-among p actor xs)

filter-Once : (p : Text → Bool) (actors : List Text) → Once actors → Once (filter p actors)
filter-Once p [] o = tt
filter-Once p (x ∷ xs) o = ground (arith, filter-among p x xs, filter-Once p xs o.1)

-- One typist more, in both maps.
insert-IsInStep :
    (c : Context) (actor : Text) (ts : ℕ) (name : Text) (p : Page)
    → (actor == c.current_actor_ref) ≡ false
    → IsInStep c p
    → IsInStep c (record p {
      typing_users = insert actor ts p.typing_users;
      typing_display_names = insert actor name p.typing_display_names;
    })
insert-IsInStep c actor ts name p ne s = ground (
  arith,
  keys-insert actor ts p.typing_users,
  keys-insert actor name p.typing_display_names,
  concat-Once actor (keys p.typing_users),
  any-append (λ other. other == c.current_actor_ref) (keys p.typing_users) (actor ∷ []),
)

delete-IsInStep :
    (c : Context) (actor : Text) (p : Page)
    → IsInStep c p
    → IsInStep c (record p {
      typing_users = delete actor p.typing_users;
      typing_display_names = delete actor p.typing_display_names;
    })
delete-IsInStep c actor p s = ground (
  arith,
  keys-delete actor p.typing_users,
  keys-delete actor p.typing_display_names,
  filter-Once (λ j. not (j == actor)) (keys p.typing_users),
  filter-among (λ j. not (j == actor)) c.current_actor_ref (keys p.typing_users),
)

abbrev pub Users : Type 0
Users = List (Text × ℕ)

abbrev fresh_names : ℕ → Users → List (Text × Text) → List (Text × Text)
fresh_names clock users = filter (λ entry. is_fresh_entry clock (lookup entry.0 users))

fresh_names-skip :
    (clock : ℕ) (actor : Text) (ts : ℕ) (users : Users) (names : List (Text × Text))
    → is_among actor (keys names) ≡ false
    → fresh_names clock ((actor, ts) ∷ users) names ≡ fresh_names clock users names
unfolding lookup
fresh_names-skip clock actor ts users [] h = refl
fresh_names-skip clock actor ts users ((name, label) ∷ names) h =
    ground
      (arith, eq_iff actor name, eq_iff name actor, fresh_names-skip clock actor ts users names)

fresh_names-keys :
    (clock : ℕ) (users : Users) (names : List (Text × Text))
    → keys users ≡ keys names
    → Once (keys users)
    → keys (filter (λ entry. is_fresh clock entry.1) users) ≡ keys (fresh_names clock users names)
unfolding lookup
fresh_names-keys clock [] [] h o = refl
fresh_names-keys clock [] (n ∷ names) h o = cc
fresh_names-keys clock (u ∷ users) [] h o = cc
fresh_names-keys clock ((actor, ts) ∷ users) ((name, label) ∷ names) h o =
    let same : actor ≡ name = cc in
    let rest : keys users ≡ keys names = cc in
    ground (
      arith,
      eq_refl name,
      fresh_names-skip clock actor ts users names,
      fresh_names-keys clock users names rest o.1,
    )

filter_users-among :
    (q : Text × ℕ → Bool) (actor : Text) (users : Users)
    → is_among actor (keys users) ≡ false
    → is_among actor (keys (filter q users)) ≡ false
filter_users-among q actor [] h = refl
filter_users-among q actor (u ∷ users) h = ground (arith, filter_users-among q actor users)

filter_users-Once :
    (q : Text × ℕ → Bool) (users : Users) → Once (keys users) → Once (keys (filter q users))
filter_users-Once q [] o = tt
filter_users-Once q (u ∷ users) o =
    ground (arith, filter_users-among q u.0 users o.0, filter_users-Once q users o.1)

expire_typing-IsInStep :
    (c : Context) (clock : ℕ) (p : Page)
    → IsInStep c p
    → IsInStep c (expire_typing clock p.typing_users p)
unfolding expire_typing
expire_typing-IsInStep c clock p s = record {
  named = fresh_names-keys clock p.typing_users p.typing_display_names s.named s.once;
  once = filter_users-Once (λ entry. is_fresh clock entry.1) p.typing_users s.once;
  others =
      filter_users-among (λ entry. is_fresh clock entry.1) c.current_actor_ref p.typing_users
        s.others;
}

module _ (lower : Text → Text) (c : Context) where
  show_typing-IsInStep :
      (clock : ℕ) (t : Typing) (p : Page)
      → IsInStep c p
      → IsInStep c (show_typing lower c clock t p)
  unfolding show_typing
  show_typing-IsInStep clock t p s = ground (
    arith,
    insert-IsInStep c (normalize_actor_ref lower (some t.public_ref)) clock t.display_name p,
  )

  receive_message-IsInStep :
      (now : Text) (m : IncomingMessage) (p : Page)
      → IsInStep c p
      → IsInStep c (receive_message lower c now m p)
  unfolding receive_message
  receive_message-IsInStep now m p s =
      ground (arith, delete-IsInStep c (normalize_actor_ref lower (some m.public_ref)) p s)

  handle_message-IsInStep :
      (clock : ℕ) (now : Text) (e : ChatWsEvent) (p : Page)
      → IsInStep c p
      → IsInStep c (handle_message lower c clock now e p)
  unfolding handle_message
  handle_message-IsInStep clock now (chat_message m) p s =
      ground (arith, receive_message-IsInStep now m p s)
  handle_message-IsInStep clock now (typing t) p s =
      ground (arith, show_typing-IsInStep clock t p s)
  handle_message-IsInStep clock now _ p s = ground arith

-- What reaches the page: an event with the two clocks, or the interval, with the typists of the render
-- that has set it.
pub data Tick : Type 0 where
  receives : (clock : ℕ) (now : Text) → ChatWsEvent → Tick
  expires : (clock : ℕ) (seen : Users) → Tick

pub run : (Text → Text) → Context → List Tick → Page → Page
run lower c [] p = p
run lower c (receives clock now e ∷ ticks) p =
    run lower c ticks (handle_message lower c clock now e p)
run lower c (expires clock seen ∷ ticks) p = run lower c ticks (expire_typing clock seen p)

-- When the interval fires, its effect has run for the typists that there are then.
abbrev pub AreRendered : (Text → Text) → Context → List Tick → Page → Type 0
AreRendered lower c [] p = Unit
AreRendered lower c (receives clock now e ∷ ticks) p =
    AreRendered lower c ticks (handle_message lower c clock now e p)
AreRendered lower c (expires clock seen ∷ ticks) p =
    (seen ≡ p.typing_users) × AreRendered lower c ticks (expire_typing clock seen p)

-- From a page where the two maps of typists name the same people in the same order, each once,
-- and not the reader, they do so after any events and expiries, where each expiry comes after the render
-- and the effect of the typists that there are then.
pub run-IsInStep :
    (lower : Text → Text) (c : Context) (ticks : List Tick) (p : Page)
    → AreRendered lower c ticks p
    → IsInStep c p
    → IsInStep c (run lower c ticks p)
unfolding run
run-IsInStep lower c [] p r s = s
run-IsInStep lower c (receives clock now e ∷ ticks) p r s =
    run-IsInStep lower c ticks (handle_message lower c clock now e p) r
      (handle_message-IsInStep lower c clock now e p s)
run-IsInStep lower c (expires clock seen ∷ ticks) p r s =
    run-IsInStep lower c ticks (expire_typing clock seen p) r.1 (
      subst (λ users. IsInStep c (expire_typing clock users p)) (sym r.0)
        (expire_typing-IsInStep c clock p s))
