-- ===== src/Examples/Rooms.antt =====
-- useChatRoom.ts at work: a room that loads, asks for older messages twice and is reloaded.
use django_channels_chat_rea.Common.{
  pos, Text, text_eq, nat_eq, none, some, List, [], ◌∷◌, true, ◌≡◌, refl,
}
use django_channels_chat_rea.ChatRoom.{
  more, RoomMessages, before, dedupe_messages, load_more, load_initial, initial_loaded,
  resolve_has_more, resolve_next_before, set_messages, set_error,
}
use django_channels_chat_rea.ChatRoom.Dedupe.{DistinctKeys, has_key, dedupe_messages-DistinctKeys}
use django_channels_chat_rea.ChatRoom.System.{
  loaded, failed, Event, reloads, asks_more, answers, edits, reports, deliver, step, run, mounted,
}
use django_channels_chat_rea.ChatRoom.Invariant.{IsSound, run-IsSound}
use django_channels_chat_rea.ChatRoom.Stale.{load_more-sends}
use django_channels_chat_rea.Examples.Data.{from_bob, from_ann}

abbrev room : Text
room = 114 ∷ []

abbrev payload : RoomMessages
payload = record {
  messages = from_bob ∷ from_ann ∷ [];
  has_more = some true;
  next_before = before (pos 5);
}

abbrev events : List (Event Unit)
events =
    reloads true room
    ∷ answers 0 (loaded tt payload)
    ∷ asks_more true room
    ∷ asks_more true room
    ∷ reloads true room
    ∷ answers 1 (failed [])
    ∷ []

run-IsSound_example : IsSound (run 100 events (mounted room))
run-IsSound_example = run-IsSound 100 room events

-- A room that has loaded, and what happens while its next page is on the way.
abbrev first_page : List (Event Unit)
first_page = reloads true room ∷ answers 0 (loaded tt payload) ∷ []

abbrev meanwhile : List (Event Unit)
meanwhile = edits (λ ms. ms) ∷ asks_more true room ∷ reports none ∷ answers 3 (failed []) ∷ []

load_more-sends_example :
    let asked = step 100 (asks_more true room) (run 100 first_page (mounted room)) in
    let after = (run 100 meanwhile asked).hook in
    (after.load_more_in_flight ≡ true)
    × (after.state.loading_more ≡ true)
    × (after.request_id ≡ asked.hook.request_id)
    × ((load_more true room after).1 ≡ none)
unfolding run step mounted load_initial deliver initial_loaded load_more set_messages set_error
    resolve_has_more resolve_next_before
load_more-sends_example =
    load_more-sends 100 room room room true true first_page meanwhile (more room 2 2 (pos 5)) refl
      (refl, tt)

dedupe_messages-DistinctKeys_example :
    DistinctKeys (dedupe_messages (from_bob ∷ from_ann ∷ from_bob ∷ []))
    × (has_key room (dedupe_messages (from_bob ∷ from_ann ∷ from_bob ∷ []))
        ≡ has_key room (from_bob ∷ from_ann ∷ from_bob ∷ []))
    × (dedupe_messages (dedupe_messages (from_bob ∷ from_ann ∷ from_bob ∷ []))
        ≡ dedupe_messages (from_bob ∷ from_ann ∷ from_bob ∷ []))
dedupe_messages-DistinctKeys_example =
    dedupe_messages-DistinctKeys (from_bob ∷ from_ann ∷ from_bob ∷ []) room
