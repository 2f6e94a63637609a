-- ===== src/Message.antt =====
-- frontend/src/entities/message/types.ts: a chat message and what hangs on it. A field that may be
-- absent, `null` or `undefined` is an `Option`; the crop's fractions of the picture's sides are
-- numbers in some fixed small unit, which the modelled code only copies and compares.
use django_channels_chat_rea.Common.{ℕ, ℤ, Text, Option, List, Bool, nat_eq}

pub record AvatarCrop : Type 0 where
  pub x : ℕ
  pub y : ℕ
  pub width : ℕ
  pub height : ℕ

pub record Attachment : Type 0 where
  pub id : ℤ
  pub original_filename : Text
  pub content_type : Text
  pub file_size : ℕ
  pub url : Option Text
  pub thumbnail_url : Option Text
  pub width : Option ℕ
  pub height : Option ℕ

pub record ReactionSummary : Type 0 where
  pub emoji : Text
  pub count : ℕ
  pub me : Bool

pub data MessageDeliveryStatus : Type 0 where
  pending : MessageDeliveryStatus

pub record ReplyTo : Type 0 where
  pub id : ℤ
  pub public_ref : Option Text
  pub username : Option Text
  pub display_name : Option Text
  pub content : Text

pub record Message : Type 0 where
  pub id : ℤ
  pub client_message_id : Option Text
  pub delivery_status : Option MessageDeliveryStatus
  pub public_ref : Text
  pub username : Text
  pub display_name : Option Text
  pub content : Text
  pub profile_pic : Option Text
  pub avatar_crop : Option AvatarCrop
  pub created_at : Text
  pub edited_at : Option Text
  pub is_deleted : Bool
  pub reply_to : Option ReplyTo
  pub attachments : List Attachment
  pub reactions : List ReactionSummary

-- The fields of a signed-in user that the modelled code reads (entities/user/types.ts).
pub record UserProfile : Type 0 where
  pub public_ref : Text
  pub public_id : Option Text
  pub username : Text
  pub name : Text
  pub profile_image : Option Text
  pub avatar_crop : Option AvatarCrop
