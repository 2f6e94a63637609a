-- ===== src/Requests.antt =====
-- Models frontend/src/controllers/ChatController.ts where it shares the requests in flight: a promise is the
-- number of the API request that it stands for. What only forwards to the API service is left out.
pub mod Sharing
use django_channels_chat_rea.Common.{
  ℕ, ◌+◌, ℤ, Text, text_eq, codes, show_ℤ, Option, none, some, List, [], ◌∷◌, ◌++◌, lookup, insert,
  delete,
}

-- The variables of the module, and how many requests the API service has been asked for.
pub record Controller : Type 0 where
  pub direct_chats_in_flight : Option ℕ
  pub room_details_in_flight : List (Text × ℕ)
  pub room_messages_in_flight : List (Text × ℕ)
  pub requested : ℕ

-- `RoomMessagesParams`; where there are no params both are missing.
pub record RoomMessagesParams : Type 0 where
  pub limit : Option ℤ
  pub before_id : Option ℤ

abbrev or_blank : Option ℤ → Text
or_blank none = []
or_blank (some n) = show_ℤ n

unfoldable pub build_room_messages_key : Text → RoomMessagesParams → Text
build_room_messages_key room_id params =
    room_id
    ++ codes "|limit="
    ++ or_blank params.limit
    ++ codes "|before="
    ++ or_blank params.before_id

get_room_details_by : Option ℕ → Text → Controller → Controller × ℕ
get_room_details_by (some in_flight) room_id s = (s, in_flight)
get_room_details_by none room_id s = (
  record s {
    room_details_in_flight = insert room_id s.requested s.room_details_in_flight;
    requested = s.requested + 1;
  },
  s.requested,
)

-- The controller afterwards, and the promise that the caller gets.
unfoldable pub get_room_details : Text → Controller → Controller × ℕ
unfolding get_room_details_by
get_room_details room_id s = get_room_details_by (lookup room_id s.room_details_in_flight) room_id s

get_room_messages_by : Option ℕ → Text → Controller → Controller × ℕ
get_room_messages_by (some in_flight) cache_key s = (s, in_flight)
get_room_messages_by none cache_key s = (
  record s {
    room_messages_in_flight = insert cache_key s.requested s.room_messages_in_flight;
    requested = s.requested + 1;
  },
  s.requested,
)

unfoldable pub get_room_messages : Text → RoomMessagesParams → Controller → Controller × ℕ
unfolding get_room_messages_by build_room_messages_key
get_room_messages room_id params s =
    let cache_key = build_room_messages_key room_id params in
    get_room_messages_by (lookup cache_key s.room_messages_in_flight) cache_key s

get_direct_chats_by : Option ℕ → Controller → Controller × ℕ
get_direct_chats_by (some in_flight) s = (s, in_flight)
get_direct_chats_by none s = (
  record s { direct_chats_in_flight = some s.requested; requested = s.requested + 1 },
  s.requested,
)

unfoldable pub get_direct_chats : Controller → Controller × ℕ
unfolding get_direct_chats_by
get_direct_chats s = get_direct_chats_by s.direct_chats_in_flight s

-- The callbacks of `finally`, when a request has settled either way.
unfoldable pub room_details_settled : Text → Controller → Controller
room_details_settled room_id s = record s {
  room_details_in_flight = delete room_id s.room_details_in_flight;
}

unfoldable pub room_messages_settled : Text → Controller → Controller
room_messages_settled cache_key s = record s {
  room_messages_in_flight = delete cache_key s.room_messages_in_flight;
}

unfoldable pub direct_chats_settled : Controller → Controller
direct_chats_settled s = record s { direct_chats_in_flight = none }
