-- ===== src/WsEvent.antt =====
-- frontend/src/dto/ws/chat.ts: the events of the chat's WebSocket after decoding.
use django_channels_chat_rea.Common.{ℤ, Text, Option, List}
use django_channels_chat_rea.Message.{AvatarCrop, ReplyTo, Attachment}

pub record IncomingMessage : Type 0 where
  pub id : Option ℤ
  pub client_message_id : Option Text
  pub content : Text
  pub public_ref : Text
  pub username : Text
  pub display_name : Text
  pub profile_pic : Option Text
  pub avatar_crop : Option AvatarCrop
  pub room_id : Option ℤ
  pub created_at : Option Text
  pub reply_to : Option ReplyTo
  pub attachments : List Attachment

pub record Typing : Type 0 where
  pub room_id : Option ℤ
  pub public_ref : Text
  pub username : Text
  pub display_name : Text
  pub user_id : ℤ

pub record Edit : Type 0 where
  pub message_id : ℤ
  pub room_id : Option ℤ
  pub content : Text
  pub edited_at : Text
  pub edited_by : Text

pub record Deletion : Type 0 where
  pub message_id : ℤ
  pub room_id : Option ℤ
  pub deleted_by : Text

pub record Reacted : Type 0 where
  pub message_id : ℤ
  pub room_id : Option ℤ
  pub emoji : Text
  pub user_id : ℤ
  pub public_ref : Text
  pub username : Text
  pub display_name : Text

pub record Receipt : Type 0 where
  pub user_id : ℤ
  pub public_ref : Text
  pub username : Text
  pub display_name : Text
  pub last_read_message_id : ℤ
  pub last_read_at : Option Text
  pub room_id : ℤ

pub data ChatWsEvent : Type 0 where
  rate_limited : (retry_after_seconds : Option ℤ) (client_message_id : Option Text) → ChatWsEvent
  message_too_long forbidden slow_mode : (client_message_id : Option Text) → ChatWsEvent
  chat_message : IncomingMessage → ChatWsEvent
  typing : Typing → ChatWsEvent
  message_edit : Edit → ChatWsEvent
  message_delete : Deletion → ChatWsEvent
  reaction_add reaction_remove : Reacted → ChatWsEvent
  read_receipt : Receipt → ChatWsEvent
  unknown : ChatWsEvent
