-- ===== src/Examples/Timelines.antt =====
-- `buildTimeline` and the shared socket at work.
use django_channels_chat_rea.Common.{
  ℕ, pos, int_eq, Text, text_eq, text_beq, Option, none, some, List, [], ◌∷◌, Bool, true, false,
  not, filter, ◌≡◌, refl, if◌then◌else◌,
}
use django_channels_chat_rea.Message.{Message}
use django_channels_chat_rea.Timeline.{UnreadDividerRenderTarget, build_timeline}
use django_channels_chat_rea.Timeline.Contents.{messages_of, dividers, build_timeline-messages}
use django_channels_chat_rea.Timeline.Days.{AreUnderDays, build_timeline-AreUnderDays}
use django_channels_chat_rea.Timeline.Divider.{
  Reading, wants_divider, unread_divider_render_target, page_dividers,
}
use django_channels_chat_rea.Hub.{
  Signal, Hub, room_effect, room_cleanup, opened, closed, register_listener,
}
use django_channels_chat_rea.Hub.Following.{
  Event, opens, closes, mounts, shows, leaves, IsFollowed, told, bound_room, holder_after, run,
  run-follows,
}
use django_channels_chat_rea.Examples.Data.{from_bob, from_ann, ann, bob}

abbrev shown : List Message
shown = from_bob ∷ record from_ann { is_deleted = true } ∷ from_ann ∷ []

abbrev to_ann : UnreadDividerRenderTarget
to_ann = record { message_id = some (pos 7); insert_at_top = false }

-- Each date is a day of its own, with itself as its label.
abbrev day_key : Text → Option Text
day_key created_at = some created_at

abbrev day_label : Text → Text
day_label created_at = created_at

build_timeline-messages_example :
    messages_of (build_timeline day_key day_label shown to_ann)
    ≡ filter (λ m. not m.is_deleted) shown
build_timeline-messages_example = build_timeline-messages day_key day_label shown to_ann

build_timeline-AreUnderDays_example :
    AreUnderDays day_key day_label none (build_timeline day_key day_label shown to_ann)
build_timeline-AreUnderDays_example = build_timeline-AreUnderDays day_key day_label shown to_ann

abbrev reading : Reading
reading = record {
  room_data_ready = true;
  unread_divider_anchor_id = some (pos 7);
  is_initial_positioning_settled = true;
  show_scroll_fab = false;
  local_unread_count = 0;
  first_unread_message_id = none;
}

page_dividers_example :
    dividers (build_timeline day_key day_label shown (unread_divider_render_target reading shown))
    ≡ (if wants_divider reading shown (some (pos 7)) then 1 else 0)
page_dividers_example = page_dividers day_key day_label reading shown refl

abbrev hub : Hub
hub = record { listeners = []; active_binding = none; is_online = false; sent = []; delivered = [] }

-- Bob's page is shown before Ann's is left.
abbrev events : List Event
events =
    opens
    ∷ mounts 1
    ∷ shows ann true (some 3)
    ∷ closes
    ∷ shows bob true (some 4)
    ∷ leaves ann true (some 3)
    ∷ opens
    ∷ []

abbrev handles : ℕ → Signal → Bool
handles listener signal = true

hub-IsFollowed : IsFollowed hub
hub-IsFollowed = record { follows = λ online. refl }

run-follows_example :
    told (run handles events hub).sent ≡ bound_room (holder_after events hub.active_binding)
unfolding run opened closed room_cleanup room_effect register_listener text_beq
run-follows_example = run-follows handles events hub hub-IsFollowed refl
