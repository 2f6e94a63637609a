-- ===== src/Optimistic.antt =====
-- frontend/src/pages/chatRoomPage/optimisticMessages.ts: messages that are shown before the server
-- has confirmed them. The random client id is the caller's; lists are new arrays or the old one,
-- which the model does not tell apart.
pub mod Confirmed
pub mod Ids
pub mod Drafts
use django_channels_chat_rea.Common.{
  ℕ, ℤ, Text, text_eq, int_eq, trim, truthy, or_text, Option, none, some, List, [], ◌∷◌, ◌++◌, Bool,
  true, false, not, ◌&&◌, ◌==◌, any, filter, if◌then◌else◌,
}
use django_channels_chat_rea.Message.{Message, ReplyTo, UserProfile, MessageDeliveryStatus, pending}

-- `text || null`.
abbrev pub or_null : Text → Option Text
or_null [] = none
or_null (c ∷ s) = some (c ∷ s)

-- `value ?? other`.
abbrev pub or_default {ℓ} : {A : Type ℓ} → Option A → A → A
or_default none other = other
or_default (some value) other = value

to_reply_quote : Option Message → Option ReplyTo
to_reply_quote none = none
to_reply_quote (some message) = some (record {
  id = message.id;
  public_ref = or_null message.public_ref;
  username = or_null message.username;
  display_name = some (or_default message.display_name message.username);
  content = message.content;
})

pub record Draft : Type 0 where
  pub id : ℤ
  pub client_message_id : Text
  pub content : Text
  pub user : UserProfile
  pub current_actor_ref : Text
  pub reply_to : Option Message
  pub created_at : Text

unfoldable pub create_optimistic_text_message : Draft → Message
unfolding to_reply_quote
create_optimistic_text_message d = record {
  id = d.id;
  client_message_id = some d.client_message_id;
  delivery_status = some pending;
  public_ref = or_text d.user.public_ref d.current_actor_ref;
  username = d.user.username;
  display_name = some (or_text (trim d.user.name) d.user.username);
  content = d.content;
  profile_pic = d.user.profile_image;
  avatar_crop = d.user.avatar_crop;
  created_at = d.created_at;
  edited_at = none;
  is_deleted = false;
  reply_to = to_reply_quote d.reply_to;
  attachments = [];
  reactions = [];
}

abbrev is_pending : Option MessageDeliveryStatus → Bool
is_pending none = false
is_pending (some pending) = true

abbrev pub is_optimistic_message : Message → Bool
is_optimistic_message message = is_pending message.delivery_status

abbrev equals : Option Text → Text → Bool
equals none client_message_id = false
equals (some id) client_message_id = id == client_message_id

-- `message.clientMessageId === clientMessageId`.
abbrev pub has_client_id : Text → Message → Bool
has_client_id client_message_id message = equals message.client_message_id client_message_id

unfoldable pub remove_optimistic_message : List Message → Option Text → List Message
remove_optimistic_message messages none = messages
remove_optimistic_message messages (some client_message_id) =
    if not (truthy client_message_id)
    then messages
    else filter
        (λ message. not (has_client_id client_message_id message && is_optimistic_message message))
        messages

-- `messages.some((message) => message.id === id)`.
abbrev pub has_message : ℤ → List Message → Bool
has_message id = any (λ message. message.id == id)

abbrev pub confirmed : Message → Message
confirmed server_message = record server_message { delivery_status = none }

-- The callback of `flatMap`, with the list for the messages after this one.
replace_one : Text → Message → Bool → Message → List Message → List Message
replace_one client_message_id server_message server_message_exists message rest =
    if not (has_client_id client_message_id message)
    then message ∷ rest
    else if server_message_exists && not (message.id == server_message.id)
    then rest
    else confirmed server_message ∷ rest

unfoldable pub replace_all : Text → Message → Bool → List Message → List Message
unfolding replace_one
replace_all client_message_id server_message server_message_exists [] = []
replace_all client_message_id server_message server_message_exists (message ∷ messages) =
    replace_one client_message_id server_message server_message_exists message
      (replace_all client_message_id server_message server_message_exists messages)

-- What happens where no message was replaced.
unfoldable pub append_new : List Message → Message → List Message
append_new messages server_message =
    if has_message server_message.id messages then messages else messages ++ server_message ∷ []

reconcile_by : Option Text → List Message → Message → List Message
unfolding append_new replace_all
reconcile_by none messages server_message = append_new messages server_message
reconcile_by (some client_message_id) messages server_message =
    if truthy client_message_id && any (has_client_id client_message_id) messages
    then replace_all client_message_id server_message (has_message server_message.id messages)
        messages
    else append_new messages server_message

unfoldable pub reconcile_optimistic_message : List Message → Message → List Message
unfolding reconcile_by
reconcile_optimistic_message messages server_message =
    reconcile_by server_message.client_message_id messages server_message
