-- ===== src/Realtime/Delivery.antt =====
-- useChatRoomPageRealtime.ts: messages that arrive, arrive again, are refused or deleted.
use django_channels_chat_rea.Common.{
  ℕ, ℤ, Text, text_eq, int_eq, truthy, Option, none, some, List, [], ◌∷◌, true, false, not, ◌&&◌,
  ◌||◌, ◌≡◌, ◌≢◌, refl, arith, any, filter, Bool-cases, inl, inr,
}
use django_channels_chat_rea.ActorRef.{normalize_actor_ref}
use django_channels_chat_rea.Message.{Message}
use django_channels_chat_rea.Sanitize.{sanitize_text}
use django_channels_chat_rea.Optimistic.{
  has_message, has_client_id, is_optimistic_message, remove_optimistic_message,
  reconcile_optimistic_message,
}
use django_channels_chat_rea.Optimistic.Confirmed.{
  reconcile_optimistic_message-has, reconcile_optimistic_message_idem,
}
use django_channels_chat_rea.Optimistic.Drafts.{remove_optimistic_message-confirmed}
use django_channels_chat_rea.WsEvent.{
  IncomingMessage, rate_limited, message_too_long, forbidden, slow_mode, chat_message,
}
use django_channels_chat_rea.Realtime.{
  Context, Page, handle_message, receive_message, receive_with, to_message, matches_room_id,
  is_empty,
}

to_message-clock :
    (now later : Text) (id : ℤ) (content : Text) (m : IncomingMessage) (t : Text)
    → m.created_at ≡ some t
    → to_message later id content m ≡ to_message now id content m
unfolding to_message
to_message-clock now later id content m t h = simp h

to_message-sent :
    (now : Text) (id : ℤ) (content : Text) (m : IncomingMessage)
    → (to_message now id content m).delivery_status ≡ none
unfolding to_message
to_message-sent now id content m = refl

reconcile-clock :
    (now later : Text) (id : ℤ) (content : Text) (m : IncomingMessage) (t : Text)
    (ms qs : List Message)
    → m.created_at ≡ some t
    → qs ≡ reconcile_optimistic_message ms (to_message now id content m)
    → reconcile_optimistic_message qs (to_message later id content m)
      ≡ reconcile_optimistic_message ms (to_message now id content m)
reconcile-clock now later id content m t ms qs h e =
    simp (e, to_message-clock now later id content m t h)
      (reconcile_optimistic_message_idem ms (to_message now id content m)
        (to_message-sent now id content m))

receive_with-twice :
    (c : Context) (id : Option ℤ) (now later content actor : Text) (m : IncomingMessage) (t : Text)
    (p q : Page)
    → m.created_at ≡ some t
    → q.messages ≡ (receive_with id c now content actor m p).messages
    → (receive_with id c later content actor m q).messages
      ≡ (receive_with id c now content actor m p).messages
unfolding receive_with
receive_with-twice c none now later content actor m t p q h e = e
receive_with-twice c (some id) now later content actor m t p q h e =
    reconcile-clock now later id content m t p.messages q.messages h e

-- Nothing is pending under the client id, what was confirmed is there in its order, and there is an
-- error to show.
abbrev pub IsRefused : Text → Page → Page → Type 0
IsRefused id p after =
    (any (λ m. has_client_id id m && is_optimistic_message m) after.messages ≡ false)
    × (filter (λ m. not (is_optimistic_message m)) after.messages
        ≡ filter (λ m. not (is_optimistic_message m)) p.messages)
    × (after.room_error ≢ none)

module _ (lower : Text → Text) (c : Context) where
  receive_message-twice :
      (now later : Text) (m : IncomingMessage) (t : Text) (p q : Page)
      → m.created_at ≡ some t
      → q.messages ≡ (receive_message lower c now m p).messages
      → (receive_message lower c later m q).messages ≡ (receive_message lower c now m p).messages
  unfolding receive_message
  receive_message-twice now later m t p q h e = ground (
    arith,
    receive_with-twice c m.id now later (sanitize_text m.content c.max_message_length)
        (normalize_actor_ref lower (some m.public_ref)) m t p q h,
  )

  -- A message with a creation time that the server delivers twice is shown once: whatever the
  -- clocks, the second delivery leaves the messages as the first one made them.
  chat_message-twice :
      (clock clock' : ℕ) (now now' : Text) (m : IncomingMessage) (t : Text) (p : Page)
      → m.created_at ≡ some t
      → let once = handle_message lower c clock now (chat_message m) p in
        (handle_message lower c clock' now' (chat_message m) once).messages ≡ once.messages
  unfolding handle_message
  chat_message-twice clock clock' now now' m t p h =
      elim (Bool-cases (matches_room_id c m.room_id)) [
        | inl e ↦
            simp e (receive_message-twice now now' m t p (receive_message lower c now m p) h refl)
        | inr e ↦ simp e
      ]

  -- A message for the room that has an id, and text left after the cleaning or an attachment, is in
  -- the list afterwards.
  pub chat_message-has :
      (clock : ℕ) (now : Text) (m : IncomingMessage) (id : ℤ) (p : Page)
      → matches_room_id c m.room_id ≡ true
      → m.id ≡ some id
      → (truthy (sanitize_text m.content c.max_message_length) || not (is_empty m.attachments))
        ≡ true
      → has_message id (handle_message lower c clock now (chat_message m) p).messages ≡ true
  unfolding handle_message receive_message to_message
  chat_message-has clock now m id p r i s = ground (
    arith,
    reconcile_optimistic_message-has p.messages
        (to_message now id (sanitize_text m.content c.max_message_length) m),
  )

  none_pending :
      (id : Text) (ms : List Message)
      → truthy id ≡ true
      → any
          (λ m. has_client_id id m && is_optimistic_message m)
          (remove_optimistic_message ms (some id))
        ≡ false
  unfolding remove_optimistic_message
  none_pending id [] t = ground arith
  none_pending id (m ∷ ms) t = ground (arith, none_pending id ms t)

  -- A refusal, of any of the four kinds, that names a client id which is not empty takes down
  -- what was pending under it, keeps all that is confirmed in its order, and sets an error.
  pub refusal-drops :
      (clock : ℕ) (now : Text) (id : Text) (retry : Option ℤ) (p : Page)
      → truthy id ≡ true
      → IsRefused id p (handle_message lower c clock now (rate_limited retry (some id)) p)
        × IsRefused id p (handle_message lower c clock now (message_too_long (some id)) p)
        × IsRefused id p (handle_message lower c clock now (forbidden (some id)) p)
        × IsRefused id p (handle_message lower c clock now (slow_mode (some id)) p)
  unfolding handle_message
  refusal-drops clock now id retry p t =
      let gone = none_pending id p.messages t in
      let kept = remove_optimistic_message-confirmed p.messages (some id) in
      ground (arith, gone, kept)
