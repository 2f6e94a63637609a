-- ===== src/Examples/Searches.antt =====
-- The global search of ConversationListProvider.tsx at work: "ab" is answered after "abc" is typed.
use django_channels_chat_rea.Common.{
  nat_beq, nat_eq, Text, text_eq, text_beq, none, some, List, [], ◌∷◌, true, false, not, ◌&&◌, ◌≡◌,
  refl, arith, if◌then◌else◌,
}
use django_channels_chat_rea.Conversations.Searching.{
  GlobalSearch, Event, changes, fires, answers, step, run, IsWatched, run-IsWatched, answer-shown,
}

abbrev idle : GlobalSearch
idle = record {
  current = 0;
  query = [];
  timer_set = false;
  in_flight = [];
  global_loading = false;
  global_results = [];
  shown_for = none;
}

abbrev ab : Text
ab = 97 ∷ 98 ∷ []

abbrev events : List Event
events =
    changes true ab
    ∷ fires
    ∷ changes true (97 ∷ 98 ∷ 99 ∷ [])
    ∷ answers 1 ab (some (4 ∷ []))
    ∷ fires
    ∷ []

idle-IsWatched : IsWatched idle
idle-IsWatched = record { requests = tt; spinner = refl }

run-IsWatched_example : IsWatched (run events idle)
run-IsWatched_example = run-IsWatched events idle idle-IsWatched

abbrev asked : GlobalSearch
asked = record idle { current = 1; query = ab; in_flight = (1, ab) ∷ []; global_loading = true }

asked-IsWatched : IsWatched asked
unfolding text_beq
asked-IsWatched = record { requests = (omega arith, refl, tt); spinner = refl }

answer-shown_example :
    ((step (answers 1 ab (some (4 ∷ []))) asked).shown_for
      ≡ (if nat_beq 1 asked.current then some asked.query else asked.shown_for))
    × ((step (answers 1 ab (some (4 ∷ []))) asked).global_results
        ≡ (if nat_beq 1 asked.current then 4 ∷ [] else asked.global_results))
    × ((step (answers 1 ab (some (4 ∷ []))) asked).global_loading
        ≡ (not (nat_beq 1 asked.current) && asked.global_loading))
unfolding text_beq
answer-shown_example = answer-shown 1 ab (4 ∷ []) asked asked-IsWatched refl
