-- ===== src/Timeline/Divider.antt =====
-- useChatRoomPageReadState.ts: where the divider of the unread messages goes.
use django_channels_chat_rea.Common.{
  ℕ, ltb, ℤ, pos, int_eq, Text, Option, none, some, List, [], ◌∷◌, Bool, true, false, not, ◌&&◌,
  ◌||◌, ◌==◌, ◌≡◌, refl, ◌∙◌, ap, arith, any, if◌then◌else◌,
}
use mathlib.Core.List.{reverse}
use django_channels_chat_rea.Message.{Message}
use django_channels_chat_rea.ActorRef.{is_own_message}
use django_channels_chat_rea.Timeline.{UnreadDividerRenderTarget, is_target, build_timeline}
use django_channels_chat_rea.Timeline.Contents.{dividers, build_timeline-dividers}

-- What the memo of `unreadDividerRenderTarget` reads beside the messages.
pub record Reading : Type 0 where
  pub room_data_ready : Bool
  pub unread_divider_anchor_id : Option ℤ
  pub is_initial_positioning_settled : Bool
  pub show_scroll_fab : Bool
  pub local_unread_count : ℕ
  pub first_unread_message_id : Option ℤ

abbrev pub nowhere : UnreadDividerRenderTarget
nowhere = record { message_id = none; insert_at_top = false }

abbrev pub has_message : List Message → ℤ → Bool
has_message messages id = any (λ m. m.id == id) messages

-- `messages.length > 0`
abbrev pub has_any : List Message → Bool
has_any [] = false
has_any (m ∷ messages) = true

-- Without an anchor, at the first unread message or at the top.
abbrev pub fallback : Bool → Option ℤ → List Message → UnreadDividerRenderTarget
fallback allowed none messages = record {
  message_id = none;
  insert_at_top = allowed && has_any messages;
}
fallback allowed (some id) messages =
    if allowed && not (id == pos 0) && has_message messages id
    then record { message_id = some id; insert_at_top = false }
    else record { message_id = none; insert_at_top = allowed && has_any messages }

-- `unreadDividerRenderTarget`, by the anchor.
abbrev pub render_at : Reading → List Message → Option ℤ → UnreadDividerRenderTarget
render_at r messages (some anchor) =
    if has_message messages anchor
    then record { message_id = some anchor; insert_at_top = false }
    else record { message_id = none; insert_at_top = has_any messages }
render_at r messages none =
    if not r.room_data_ready
    then nowhere
    else if ltb r.local_unread_count 1
    then nowhere
    else fallback (not r.is_initial_positioning_settled || r.show_scroll_fab)
        r.first_unread_message_id messages

unfoldable pub unread_divider_render_target : Reading → List Message → UnreadDividerRenderTarget
unread_divider_render_target r messages = render_at r messages r.unread_divider_anchor_id

module _ (lower : Text → Text) where
  -- The loop of `shouldStartUnreadEntryFromBottom`, over the messages from the last one on.
  unfoldable pub is_last_of_others : Text → ℤ → List Message → Bool
  is_last_of_others current first_unread [] = false
  is_last_of_others current first_unread (m ∷ earlier) =
      let rest = is_last_of_others current first_unread earlier in
      if is_own_message lower m current then rest else m.id == first_unread

  abbrev starts_at : Text → Option ℤ → List Message → Bool
  starts_at current none messages = false
  starts_at current (some id) messages =
      not (id == pos 0) && is_last_of_others current id (reverse messages)

  unfoldable pub should_start_unread_entry_from_bottom : Bool → Text → Reading → List Message → Bool
  unfolding is_last_of_others
  should_start_unread_entry_from_bottom enabled current r messages =
      if not enabled || ltb r.local_unread_count 1
      then false
      else starts_at current r.first_unread_message_id messages

-- The divider is asked for: an anchor holds it where there are messages, and without one there is
-- something unread in a room that is ready, while the page positions itself or is scrolled up.
abbrev pub wants_divider : Reading → List Message → Option ℤ → Bool
wants_divider r messages (some anchor) = has_any messages
wants_divider r messages none =
    r.room_data_ready
    && not (ltb r.local_unread_count 1)
    && (not r.is_initial_positioning_settled || r.show_scroll_fab)
    && has_any messages

abbrev pub is_zero : Option ℤ → Bool
is_zero none = false
is_zero (some id) = id == pos 0

abbrev is_shown : UnreadDividerRenderTarget → List Message → Bool
is_shown target messages = target.insert_at_top || any (is_target target.message_id) messages

any_target :
    (id : ℤ) (messages : List Message)
    → any (is_target (some id)) messages ≡ (not (id == pos 0) && has_message messages id)
any_target id [] = ground arith
any_target id (m ∷ messages) = ground (arith, any_target id messages)

any_nothing : (messages : List Message) → any (is_target none) messages ≡ false
any_nothing [] = refl
any_nothing (m ∷ messages) = any_nothing messages

has_message-has_any :
    (id : ℤ) (messages : List Message) → has_message messages id ≡ true → has_any messages ≡ true
has_message-has_any id [] h = h
has_message-has_any id (m ∷ messages) h = refl

fallback_shown :
    (allowed : Bool) (first : Option ℤ) (messages : List Message)
    → is_shown (fallback allowed first messages) messages ≡ (allowed && has_any messages)
fallback_shown allowed none messages = ground (arith, any_nothing messages)
fallback_shown allowed (some id) messages =
    ground (arith, any_nothing messages, any_target id messages, has_message-has_any id messages)

render_at-shown :
    (r : Reading) (messages : List Message) (anchor : Option ℤ)
    → is_zero anchor ≡ false
    → is_shown (render_at r messages anchor) messages ≡ wants_divider r messages anchor
render_at-shown r messages none h = ground (
  arith,
  any_nothing messages,
  fallback_shown (not r.is_initial_positioning_settled || r.show_scroll_fab)
      r.first_unread_message_id messages,
)
render_at-shown r messages (some anchor) h = ground (
  arith,
  h,
  any_nothing messages,
  any_target anchor messages,
  has_message-has_any anchor messages,
)

-- Where the anchor is not 0: the timeline of the page has one divider where it is asked for, and
-- otherwise none.
pub page_dividers :
    (day_key : Text → Option Text) (day_label : Text → Text) (r : Reading) (messages : List Message)
    → is_zero r.unread_divider_anchor_id ≡ false
    → dividers (build_timeline day_key day_label messages (unread_divider_render_target r messages))
      ≡ (if wants_divider r messages r.unread_divider_anchor_id then 1 else 0)
unfolding unread_divider_render_target
page_dividers day_key day_label r messages h =
    build_timeline-dividers day_key day_label messages
      (render_at r messages r.unread_divider_anchor_id)
    ∙ ap (λ (shown : Bool). if shown then 1 else 0)
        (render_at-shown r messages r.unread_divider_anchor_id h)
