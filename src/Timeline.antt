-- ===== src/Timeline.antt =====
-- frontend/src/pages/chatRoomPage/utils.ts, `buildTimeline`, and the divider's place in
-- useChatRoomPageReadState.ts. A date is known by its text: `day_key` is the local day of it, none
-- where it is no date, and `day_label` the label that `formatDayLabel` gives it at the time of the call.
pub mod Contents
pub mod Days
pub mod Divider
use django_channels_chat_rea.Common.{
  ℕ, ℤ, pos, int_eq, Text, text_eq, truthy, Option, none, some, List, [], ◌∷◌, ◌++◌, Bool, true,
  false, not, ◌&&◌, ◌||◌, ◌==◌, if◌then◌else◌,
}
use django_channels_chat_rea.Message.{Message}

pub record UnreadDividerRenderTarget : Type 0 where
  pub message_id : Option ℤ
  pub insert_at_top : Bool

pub data TimelineItem : Type 0 where
  day : (key label : Text) → TimelineItem
  message : Message → TimelineItem
  unread : TimelineItem

-- `unreadDividerId && msg.id === unreadDividerId`, where 0 counts as no id.
abbrev pub is_target : Option ℤ → Message → Bool
is_target none m = false
is_target (some id) m = not (id == pos 0) && m.id == id

-- The divider, where it stands before this message.
abbrev pub divider_if : Bool → List TimelineItem
divider_if true = unread ∷ []
divider_if false = []

abbrev pub same_key : Text → Option Text → Bool
same_key key none = false
same_key key (some last) = key == last

module _ (day_key : Text → Option Text) (day_label : Text → Text) where
  -- The day's header before a message of `created_at`, and the key of the last header then.
  abbrev pub header : Option Text → Text → Option Text → List TimelineItem × Option Text
  header none created_at last = ([], last)
  header (some key) created_at last =
      if same_key key last || not (truthy (day_label created_at))
      then ([], last)
      else (day key (day_label created_at) ∷ [], some key)

  module _ (divider : Option ℤ) where
    -- The loop of `buildTimeline`, with what it pushes from here on.
    unfoldable pub build_from : Bool → Option Text → List Message → List TimelineItem
    build_from inserted last [] = []
    build_from inserted last (m ∷ messages) =
        let here = not inserted && is_target divider m in
        let headed = header (day_key m.created_at) m.created_at last in
        let without = build_from (inserted || here) last messages in
        let after = build_from (inserted || here) headed.1 messages in
        if m.is_deleted
        then divider_if here ++ without
        else divider_if here ++ (headed.0 ++ message m ∷ after)

  unfoldable pub build_timeline : List Message → UnreadDividerRenderTarget → List TimelineItem
  unfolding build_from
  build_timeline messages target =
      divider_if target.insert_at_top
      ++ build_from target.message_id target.insert_at_top none messages
