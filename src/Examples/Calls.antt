-- ===== src/Examples/Calls.antt =====
-- ChatController.ts at work: two rooms, asked for while a request is in flight.
use django_channels_chat_rea.Common.{
  pos, Text, text_eq, text_beq, show_ℤ, none, some, List, [], ◌∷◌, ◌≡◌, refl,
}
use django_channels_chat_rea.Requests.{
  Controller, RoomMessagesParams, build_room_messages_key, get_room_details,
}
use django_channels_chat_rea.Requests.Sharing.{
  Event, asks_details, asks_messages, asks_direct, details_settle, direct_settle, run,
  get_room_details-run,
}

abbrev room : Text
room = 114 ∷ []

abbrev other_room : Text
other_room = 115 ∷ []

abbrev idle : Controller
idle = record {
  direct_chats_in_flight = none;
  room_details_in_flight = [];
  room_messages_in_flight = [];
  requested = 0;
}

abbrev page : RoomMessagesParams
page = record { limit = some (pos 50); before_id = none }

-- "r|limit=50|before="
page-key :
    build_room_messages_key room page
    ≡ 114 ∷ 124 ∷ 108 ∷ 105 ∷ 109 ∷ 105 ∷ 116 ∷ 61 ∷ 53 ∷ 48 ∷ 124 ∷ 98 ∷ 101 ∷ 102 ∷ 111 ∷ 114
      ∷ 101 ∷ 61 ∷ []
unfolding build_room_messages_key show_ℤ
page-key = refl

abbrev meanwhile : List Event
meanwhile =
    asks_details other_room
    ∷ asks_direct
    ∷ asks_messages room page
    ∷ details_settle other_room
    ∷ direct_settle
    ∷ []

get_room_details-run_example :
    get_room_details room (run meanwhile (get_room_details room idle).0)
    ≡ (run meanwhile (get_room_details room idle).0, (get_room_details room idle).1)
unfolding text_beq
get_room_details-run_example = get_room_details-run room meanwhile idle refl
