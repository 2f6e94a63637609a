-- ===== src/Examples/Data.antt =====
-- Messages and people for the examples.
use django_channels_chat_rea.Common.{
  ℕ, ◌+◌, leb, pos, Text, Option, none, some, List, [], ◌∷◌, map, false, ◌&&◌, if◌then◌else◌,
}
use django_channels_chat_rea.Message.{
  Message, MessageDeliveryStatus, pending, UserProfile, ReactionSummary,
}
use django_channels_chat_rea.Optimistic.{Draft}

-- Lower case, for the letters of ASCII.
abbrev pub ascii_lower : Text → Text
ascii_lower s = map (λ c. if leb 65 c && leb c 90 then c + 32 else c) s

abbrev pub message :
    ℕ → Option Text → Option MessageDeliveryStatus → Text → List ReactionSummary → Message
message id client status author reactions = record {
  id = pos id;
  client_message_id = client;
  delivery_status = status;
  public_ref = author;
  username = author;
  display_name = none;
  content = 104 ∷ 105 ∷ [];
  profile_pic = none;
  avatar_crop = none;
  created_at = 50 ∷ [];
  edited_at = none;
  is_deleted = false;
  reply_to = none;
  attachments = [];
  reactions = reactions;
}

abbrev pub ann : Text
ann = 97 ∷ []

abbrev pub bob : Text
bob = 98 ∷ []

-- "@B", which is Bob too.
abbrev pub at_bob : Text
at_bob = 64 ∷ 66 ∷ []

abbrev pub c_1 : Text
c_1 = 99 ∷ 49 ∷ []

abbrev pub from_bob : Message
from_bob = message 5 none none at_bob []

abbrev pub from_ann : Message
from_ann = message 7 none none ann []

abbrev pub draft_shown : Message
draft_shown = message 100 (some c_1) (some pending) ann []

abbrev pub confirmation : Message
confirmation = message 9 (some c_1) none ann []

abbrev pub ann_profile : UserProfile
ann_profile = record {
  public_ref = ann;
  public_id = none;
  username = ann;
  name = [];
  profile_image = none;
  avatar_crop = none;
}

abbrev pub draft : Draft
draft = record {
  id = pos 100;
  client_message_id = c_1;
  content = 104 ∷ 105 ∷ [];
  user = ann_profile;
  current_actor_ref = ann;
  reply_to = some from_bob;
  created_at = 51 ∷ [];
}
