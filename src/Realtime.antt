-- ===== src/Realtime.antt =====
-- frontend/src/pages/chatRoomPage/useChatRoomPageRealtime.ts: what the events of the socket do to the
-- page of a room. `lower` is `String.prototype.toLowerCase`. The updates of the messages are those
-- handed to `setMessages`; what that does with them is in ChatRoom.
pub mod Rooms
pub mod Reactions
pub mod Typists
pub mod Delivery
use django_channels_chat_rea.Common.{
  ℕ, ◌+◌, ◌-◌, ℤ, Text, text_eq, int_eq, nat_eq, trim, truthy, String, Option, none, some, List, [],
  ◌∷◌, ◌++◌, map, Bool, true, false, not, ◌&&◌, ◌||◌, ◌==◌, any, filter, length, ltb, has, lookup,
  insert, delete, if◌then◌else◌,
}
use django_channels_chat_rea.Message.{Message, ReactionSummary}
use django_channels_chat_rea.ActorRef.{normalize_actor_ref}
use django_channels_chat_rea.Sanitize.{sanitize_text}
use django_channels_chat_rea.Optimistic.{
  or_default, remove_optimistic_message, reconcile_optimistic_message,
}
use django_channels_chat_rea.WsEvent.{
  ChatWsEvent, IncomingMessage, Typing, Edit, Deletion, Reacted, Receipt, rate_limited,
  message_too_long, forbidden, slow_mode, chat_message, typing, message_edit, message_delete,
  reaction_add, reaction_remove, read_receipt, unknown,
}

pub record ReadReceipt : Type 0 where
  pub user_id : ℤ
  pub public_ref : Text
  pub username : Text
  pub display_name : Text
  pub last_read_message_id : ℤ
  pub last_read_at : Option Text

-- What the page shows when something goes wrong.
pub data RoomError : Type 0 where
  not_sent no_rights in_slow_mode connection_lost connection_failed : RoomError
  too_long : (max_message_length : ℕ) → RoomError

-- Calls out of the hook: to the cache manager and `onIncomingForeignMessage`.
pub data Effect : Type 0 where
  invalidate_room_messages : Text → Effect
  invalidate_direct_chats : Effect
  incoming_foreign_message : ℤ → Effect

-- The hook's arguments.
pub record Context : Type 0 where
  pub room_realtime_id : Option ℤ
  pub room_id_for_requests : Text
  pub is_direct : Bool
  pub max_message_length : ℕ
  pub current_actor_ref : Text
  pub read_state_enabled : Bool

pub record Page : Type 0 where
  pub messages : List Message
  pub room_error : Option RoomError
  pub typing_users : List (Text × ℕ)
  pub typing_display_names : List (Text × Text)
  pub read_receipts : List (ℤ × ReadReceipt)
  pub effects : List Effect

abbrev pub typing_timeout_ms : ℕ
typing_timeout_ms = 5000

abbrev is_room : Option ℤ → ℤ → Bool
is_room none room = true
is_room (some id) room = id == room

abbrev matches_room_id_by : Option ℤ → Option ℤ → Bool
matches_room_id_by none event_room_id = false
matches_room_id_by (some room) event_room_id = is_room event_room_id room

unfoldable pub matches_room_id : Context → Option ℤ → Bool
matches_room_id c event_room_id = matches_room_id_by c.room_realtime_id event_room_id

unfoldable pub reject_optimistic_message : Option Text → List Message → List Message
unfolding remove_optimistic_message
reject_optimistic_message none messages = messages
reject_optimistic_message (some id) messages =
    if not (truthy id) then messages else remove_optimistic_message messages (some id)

-- A refusal of the server: `rate_limited` and its kin.
refused : Option Text → RoomError → Page → Page
refused client_message_id room_error p = record p {
  messages = reject_optimistic_message client_message_id p.messages;
  room_error = some room_error;
}

-- `value || null`.
abbrev non_empty : Option Text → Option Text
non_empty none = none
non_empty (some s) = if truthy s then some s else none

-- The message that is handed to `reconcileOptimisticMessage`; `now` is `new Date().toISOString()`.
unfoldable pub to_message : Text → ℤ → Text → IncomingMessage → Message
to_message now id content m = record {
  id = id;
  client_message_id = m.client_message_id;
  delivery_status = none;
  public_ref = m.public_ref;
  username = m.username;
  display_name = some m.display_name;
  content = content;
  profile_pic = non_empty m.profile_pic;
  avatar_crop = m.avatar_crop;
  created_at = or_default m.created_at now;
  edited_at = none;
  is_deleted = false;
  reply_to = m.reply_to;
  attachments = m.attachments;
  reactions = [];
}

abbrev pub is_empty {ℓ} : {A : Type ℓ} → List A → Bool
is_empty [] = true
is_empty (x ∷ xs) = false

invalidations : Context → List Effect
invalidations c =
    invalidate_room_messages c.room_id_for_requests
    ∷ (if c.is_direct then invalidate_direct_chats ∷ [] else [])

-- The rest of `chat_message` once the message has an id and something to show.
take_in : Context → Text → ℤ → Text → Text → IncomingMessage → Page → Page
unfolding invalidations to_message
take_in c now id content actor m p =
    let foreign = not (truthy actor && actor == c.current_actor_ref) in
    record p {
      messages = reconcile_optimistic_message p.messages (to_message now id content m);
      effects =
          p.effects
          ++ invalidations c
          ++ (if foreign then incoming_foreign_message id ∷ [] else []);
      typing_users = if truthy actor then delete actor p.typing_users else p.typing_users;
      typing_display_names =
          if truthy actor then delete actor p.typing_display_names else p.typing_display_names;
    }

receive_with : Option ℤ → Context → Text → Text → Text → IncomingMessage → Page → Page
unfolding take_in
receive_with none c now content actor m p = p
receive_with (some id) c now content actor m p = take_in c now id content actor m p

unfoldable pub show_edit : Edit → Message → Message
show_edit e msg =
    if msg.id == e.message_id
    then record msg { content = e.content; edited_at = some e.edited_at }
    else msg

-- `existing`: a reaction with the emoji.
abbrev pub has_emoji : Text → List ReactionSummary → Bool
has_emoji emoji = any (λ reaction. reaction.emoji == emoji)

add_one : Text → Bool → ReactionSummary → ReactionSummary
add_one emoji is_me reaction =
    if reaction.emoji == emoji
    then record reaction { count = reaction.count + 1; me = reaction.me || is_me }
    else reaction

unfoldable pub add_reaction : Text → Bool → List ReactionSummary → List ReactionSummary
unfolding add_one
add_reaction emoji is_me reactions =
    if has_emoji emoji reactions
    then map (add_one emoji is_me) reactions
    else reactions ++ record { emoji = emoji; count = 1; me = is_me } ∷ []

-- Subtraction stops at 0 here, and below 0 there: both fail the test for a count above 0.
take_one : Text → Bool → ReactionSummary → ReactionSummary
take_one emoji is_me reaction =
    if reaction.emoji == emoji
    then record reaction { count = reaction.count - 1; me = if is_me then false else reaction.me }
    else reaction

unfoldable pub remove_reaction : Text → Bool → List ReactionSummary → List ReactionSummary
unfolding take_one
remove_reaction emoji is_me reactions =
    filter (λ reaction. ltb 0 reaction.count) (map (take_one emoji is_me) reactions)

-- `prev.map((msg) => msg.id !== id ? msg : …)` on the reactions of one message.
unfoldable pub on_reactions : ℤ → (List ReactionSummary → List ReactionSummary) → Message → Message
on_reactions id f msg = if msg.id == id then record msg { reactions = f msg.reactions } else msg

module _ (lower : Text → Text) where
  unfoldable pub receive_message : Context → Text → IncomingMessage → Page → Page
  unfolding receive_with
  receive_message c now m p =
      let content = sanitize_text m.content c.max_message_length in
      if not (truthy content) && is_empty m.attachments
      then p
      else receive_with m.id c now content (normalize_actor_ref lower (some m.public_ref)) m p

  -- `clock` is `Date.now()`.
  unfoldable pub show_typing : Context → ℕ → Typing → Page → Page
  show_typing c clock t p =
      let actor = normalize_actor_ref lower (some t.public_ref) in
      if actor == c.current_actor_ref || not (truthy actor) then p else record p {
        typing_users = insert actor clock p.typing_users;
        typing_display_names = insert actor t.display_name p.typing_display_names;
      }

  abbrev is_me : Context → Reacted → Bool
  is_me c r = normalize_actor_ref lower (some r.public_ref) == c.current_actor_ref

  abbrev in_room : Context → Option ℤ → Page → Page → Page
  in_room c event_room_id after p = if not (matches_room_id c event_room_id) then p else after

  -- `handleMessage` on a decoded event.
  unfoldable pub handle_message : Context → ℕ → Text → ChatWsEvent → Page → Page
  unfolding matches_room_id receive_message show_typing refused reject_optimistic_message
  handle_message c clock now (rate_limited retry id) p = refused id not_sent p
  handle_message c clock now (message_too_long id) p = refused id (too_long c.max_message_length) p
  handle_message c clock now (forbidden id) p = refused id no_rights p
  handle_message c clock now (slow_mode id) p = refused id in_slow_mode p
  handle_message c clock now (chat_message m) p = in_room c m.room_id (receive_message c now m p) p
  handle_message c clock now (typing t) p = in_room c t.room_id (show_typing c clock t p) p
  handle_message c clock now (message_edit e) p =
      in_room c e.room_id (record p { messages = map (show_edit e) p.messages }) p
  handle_message c clock now (message_delete d) p =
      in_room c d.room_id
        (record p { messages = filter (λ msg. not (msg.id == d.message_id)) p.messages }) p
  handle_message c clock now (reaction_add r) p =
      in_room c r.room_id
        (record p {
          messages = map (on_reactions r.message_id (add_reaction r.emoji (is_me c r))) p.messages;
        })
        p
  handle_message c clock now (reaction_remove r) p =
      in_room c r.room_id
        (record p {
          messages =
              map (on_reactions r.message_id (remove_reaction r.emoji (is_me c r))) p.messages;
        })
        p
  handle_message c clock now (read_receipt r) p =
      in_room c (some r.room_id)
        (record p {
          read_receipts =
              insert r.user_id
                (record {
                  user_id = r.user_id;
                  public_ref = r.public_ref;
                  username = r.username;
                  display_name = r.display_name;
                  last_read_message_id = r.last_read_message_id;
                  last_read_at = r.last_read_at;
                })
                p.read_receipts;
        })
        p
  handle_message c clock now unknown p = p

-- `ts > cutoff`, with `cutoff = clock - TYPING_TIMEOUT_MS`.
abbrev pub is_fresh : ℕ → ℕ → Bool
is_fresh clock ts = ltb clock (ts + typing_timeout_ms)

abbrev pub is_fresh_entry : ℕ → Option ℕ → Bool
is_fresh_entry clock none = false
is_fresh_entry clock (some ts) = is_fresh clock ts

-- The interval that takes down who has stopped typing. `seen` is `typingUsers` of the render whose
-- effect has set the interval; the names go by it.
unfoldable pub expire_typing : ℕ → (seen : List (Text × ℕ)) → Page → Page
expire_typing clock seen p = record p {
  typing_users = filter (λ entry. is_fresh clock entry.1) p.typing_users;
  typing_display_names =
      filter (λ entry. is_fresh_entry clock (lookup entry.0 seen)) p.typing_display_names;
}

-- `onOpen`, `onClose` with the close event's code, and `onError` of the room's connection.
unfoldable pub handle_open : Page → Page
handle_open p = record p { room_error = none }

unfoldable pub handle_close : ℕ → Page → Page
handle_close code p =
    if not (code == 1000) && not (code == 1001) && not (code == 4001)
    then record p { room_error = some connection_lost }
    else p

unfoldable pub handle_error : Page → Page
handle_error p = record p { room_error = some connection_failed }

unfoldable pub visible_read_receipts : Context → Page → List (ℤ × ReadReceipt)
visible_read_receipts c p = if c.read_state_enabled then p.read_receipts else []
