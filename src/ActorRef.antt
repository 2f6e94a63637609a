-- ===== src/ActorRef.antt =====
-- frontend/src/pages/chatRoomPage/utils.ts: who wrote a message, by a reference that is compared
-- without case and without a leading "@". `lower` is `String.prototype.toLowerCase`.
use django_channels_chat_rea.Common.{
  Text, Option, none, some, [], ◌∷◌, Bool, ◌&&◌, ◌==◌, text_eq, nat_beq, trim, truthy, or_text,
  if◌then◌else◌,
}
use django_channels_chat_rea.Message.{Message, UserProfile}

abbrev pub drop_at : Text → Text
drop_at [] = []
drop_at (c ∷ s) = if nat_beq c b'@' then s else c ∷ s

module _ (lower : Text → Text) where
  unfoldable pub normalize_actor_ref : Option Text → Text
  normalize_actor_ref none = []
  normalize_actor_ref (some value) = if truthy value then drop_at (lower (trim value)) else []

  unfoldable pub resolve_current_actor_ref : Option UserProfile → Text
  unfolding normalize_actor_ref
  resolve_current_actor_ref none = []
  resolve_current_actor_ref (some user) =
      or_text (normalize_actor_ref (some user.public_ref))
        (or_text (normalize_actor_ref (some user.username)) (normalize_actor_ref user.public_id))

  unfoldable pub resolve_message_actor_ref : Message → Text
  unfolding normalize_actor_ref
  resolve_message_actor_ref message = normalize_actor_ref (some message.public_ref)

  unfoldable pub is_own_message : Message → Text → Bool
  unfolding resolve_message_actor_ref
  is_own_message message current_actor_ref =
      truthy current_actor_ref && resolve_message_actor_ref message == current_actor_ref
