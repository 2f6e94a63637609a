-- ===== src/Requests/Sharing.antt =====
-- ChatController.ts: callers that ask for the same while a request is in flight.
use django_channels_chat_rea.Common.{
  ℕ, Text, text_eq, Option, none, some, List, [], ◌∷◌, Bool, false, ◌==◌, ◌≡◌, refl, arith, any,
  eq_iff, eq_refl, lookup, lookup-insert, lookup-delete,
}
use django_channels_chat_rea.Requests.{
  Controller, RoomMessagesParams, build_room_messages_key, get_room_details_by, get_room_details,
  get_room_messages_by, get_room_messages, get_direct_chats_by, get_direct_chats,
  room_details_settled, room_messages_settled, direct_chats_settled,
}

-- The calls of the controller, and the requests that settle.
pub data Event : Type 0 where
  asks_details : Text → Event
  asks_messages : Text → RoomMessagesParams → Event
  asks_direct : Event
  details_settle : Text → Event
  messages_settle : (cache_key : Text) → Event
  direct_settle : Event

unfoldable pub step : Event → Controller → Controller
unfolding get_room_details get_room_messages get_direct_chats room_details_settled
    room_messages_settled direct_chats_settled
step (asks_details room_id) s = (get_room_details room_id s).0
step (asks_messages room_id params) s = (get_room_messages room_id params s).0
step asks_direct s = (get_direct_chats s).0
step (details_settle room_id) s = room_details_settled room_id s
step (messages_settle cache_key) s = room_messages_settled cache_key s
step direct_settle s = direct_chats_settled s

unfoldable pub run : List Event → Controller → Controller
unfolding step
run [] s = s
run (e ∷ es) s = run es (step e s)

-- The event is the settling of the room's details.
abbrev pub settles_details : Text → Event → Bool
settles_details room_id (asks_details other) = false
settles_details room_id (asks_messages other params) = false
settles_details room_id asks_direct = false
settles_details room_id (details_settle other) = other == room_id
settles_details room_id (messages_settle cache_key) = false
settles_details room_id direct_settle = false

-- The event is the settling of the messages under the key.
abbrev pub settles_messages : Text → Event → Bool
settles_messages key (asks_details other) = false
settles_messages key (asks_messages other params) = false
settles_messages key asks_direct = false
settles_messages key (details_settle other) = false
settles_messages key (messages_settle cache_key) = cache_key == key
settles_messages key direct_settle = false

details_by-messages :
    (found : Option ℕ) (room_id : Text) (s : Controller)
    → (get_room_details_by found room_id s).0.room_messages_in_flight ≡ s.room_messages_in_flight
unfolding get_room_details_by
details_by-messages none room_id s = refl
details_by-messages (some p) room_id s = refl

messages_by-details :
    (found : Option ℕ) (key : Text) (s : Controller)
    → (get_room_messages_by found key s).0.room_details_in_flight ≡ s.room_details_in_flight
unfolding get_room_messages_by
messages_by-details none key s = refl
messages_by-details (some p) key s = refl

direct_by-both :
    (found : Option ℕ) (s : Controller)
    → ((get_direct_chats_by found s).0.room_details_in_flight ≡ s.room_details_in_flight)
      × ((get_direct_chats_by found s).0.room_messages_in_flight ≡ s.room_messages_in_flight)
unfolding get_direct_chats_by
direct_by-both none s = (refl, refl)
direct_by-both (some p) s = (refl, refl)

details_by-lookup :
    (found : Option ℕ) (room_id other : Text) (s : Controller) (p : ℕ)
    → lookup room_id s.room_details_in_flight ≡ found
    → lookup other s.room_details_in_flight ≡ some p
    → lookup other (get_room_details_by found room_id s).0.room_details_in_flight ≡ some p
unfolding get_room_details_by
details_by-lookup none room_id other s p e h =
    ground (
      arith,
      eq_iff room_id other,
      lookup-insert room_id other s.requested s.room_details_in_flight,
    )
details_by-lookup (some q) room_id other s p e h = h

messages_by-lookup :
    (found : Option ℕ) (key other : Text) (s : Controller) (p : ℕ)
    → lookup key s.room_messages_in_flight ≡ found
    → lookup other s.room_messages_in_flight ≡ some p
    → lookup other (get_room_messages_by found key s).0.room_messages_in_flight ≡ some p
unfolding get_room_messages_by
messages_by-lookup none key other s p e h =
    ground (arith, eq_iff key other, lookup-insert key other s.requested s.room_messages_in_flight)
messages_by-lookup (some q) key other s p e h = h

step-details :
    (e : Event) (room_id : Text) (s : Controller) (p : ℕ)
    → settles_details room_id e ≡ false
    → lookup room_id s.room_details_in_flight ≡ some p
    → lookup room_id (step e s).room_details_in_flight ≡ some p
unfolding step
step-details (asks_details other) room_id s p n h =
    details_by-lookup (lookup other s.room_details_in_flight) other room_id s p refl h
step-details (asks_messages other params) room_id s p n h =
    let key = build_room_messages_key other params in
    simp (messages_by-details (lookup key s.room_messages_in_flight) key s) h
step-details asks_direct room_id s p n h = simp ((direct_by-both s.direct_chats_in_flight s).0) h
step-details (details_settle other) room_id s p n h =
    ground (arith, lookup-delete other room_id s.room_details_in_flight)
step-details (messages_settle cache_key) room_id s p n h = h
step-details direct_settle room_id s p n h = h

step-messages :
    (e : Event) (key : Text) (s : Controller) (p : ℕ)
    → settles_messages key e ≡ false
    → lookup key s.room_messages_in_flight ≡ some p
    → lookup key (step e s).room_messages_in_flight ≡ some p
unfolding step
step-messages (asks_details other) key s p n h =
    simp (details_by-messages (lookup other s.room_details_in_flight) other s) h
step-messages (asks_messages other params) key s p n h =
    let asked = build_room_messages_key other params in
    messages_by-lookup (lookup asked s.room_messages_in_flight) asked key s p refl h
step-messages asks_direct key s p n h = simp ((direct_by-both s.direct_chats_in_flight s).1) h
step-messages (details_settle other) key s p n h = h
step-messages (messages_settle cache_key) key s p n h =
    ground (arith, lookup-delete cache_key key s.room_messages_in_flight)
step-messages direct_settle key s p n h = h

run-details :
    (es : List Event) (room_id : Text) (s : Controller) (p : ℕ)
    → any (settles_details room_id) es ≡ false
    → lookup room_id s.room_details_in_flight ≡ some p
    → lookup room_id (run es s).room_details_in_flight ≡ some p
unfolding run
run-details [] room_id s p n h = h
run-details (e ∷ es) room_id s p n h =
    run-details es room_id (step e s) p (ground arith) (step-details e room_id s p (ground arith) h)

run-messages :
    (es : List Event) (key : Text) (s : Controller) (p : ℕ)
    → any (settles_messages key) es ≡ false
    → lookup key s.room_messages_in_flight ≡ some p
    → lookup key (run es s).room_messages_in_flight ≡ some p
unfolding run
run-messages [] key s p n h = h
run-messages (e ∷ es) key s p n h =
    run-messages es key (step e s) p (ground arith) (step-messages e key s p (ground arith) h)

asked_details :
    (found : Option ℕ) (room_id : Text) (s : Controller)
    → lookup room_id s.room_details_in_flight ≡ found
    → lookup room_id (get_room_details_by found room_id s).0.room_details_in_flight
      ≡ some (get_room_details_by found room_id s).1
unfolding get_room_details_by
asked_details none room_id s e =
    ground
      (arith, eq_refl room_id, lookup-insert room_id room_id s.requested s.room_details_in_flight)
asked_details (some p) room_id s e = e

asked_messages :
    (found : Option ℕ) (key : Text) (s : Controller)
    → lookup key s.room_messages_in_flight ≡ found
    → lookup key (get_room_messages_by found key s).0.room_messages_in_flight
      ≡ some (get_room_messages_by found key s).1
unfolding get_room_messages_by
asked_messages none key s e =
    ground (arith, eq_refl key, lookup-insert key key s.requested s.room_messages_in_flight)
asked_messages (some p) key s e = e

-- Whoever asks for the details of a room shares the request with all who ask for them later, until it
-- settles: whatever else the controller does in between, a later call sends nothing and gets the
-- same promise.
pub get_room_details-run :
    (room_id : Text) (es : List Event) (s : Controller)
    → any (settles_details room_id) es ≡ false
    → let asked = get_room_details room_id s in
      get_room_details room_id (run es asked.0) ≡ (run es asked.0, asked.1)
unfolding get_room_details get_room_details_by
get_room_details-run room_id es s n =
    let found = lookup room_id s.room_details_in_flight in
    let asked = get_room_details_by found room_id s in
    simp (run-details es room_id asked.0 asked.1 n (asked_details found room_id s refl)) refl

-- Whoever asks for messages of a room shares the request with all who ask later for the same room
-- with the same parameters, until it settles: whatever else the controller does in between, a later
-- call sends nothing and gets the same promise.
pub get_room_messages-run :
    (room_id : Text) (params : RoomMessagesParams) (es : List Event) (s : Controller)
    → any (settles_messages (build_room_messages_key room_id params)) es ≡ false
    → let asked = get_room_messages room_id params s in
      get_room_messages room_id params (run es asked.0) ≡ (run es asked.0, asked.1)
unfolding get_room_messages get_room_messages_by
get_room_messages-run room_id params es s n =
    let key = build_room_messages_key room_id params in
    let found = lookup key s.room_messages_in_flight in
    let asked = get_room_messages_by found key s in
    simp (run-messages es key asked.0 asked.1 n (asked_messages found key s refl)) refl
