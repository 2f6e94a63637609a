-- ===== src/Examples/Pages.antt =====
-- useChatRoomPageReadState.ts at work, in Ann's room 7.
use django_channels_chat_rea.Common.{
  ℕ, zero, suc, ◌≤◌, max, pos, int_eq, Text, none, some, List, [], ◌∷◌, true, false, ◌≡◌, ◌⊎◌, refl,
  ap, arith, show_ℕ, parse_digits, parse-show, lookup,
}
use django_channels_chat_rea.Number.{Number, of_ℕ}
use django_channels_chat_rea.PageRead.Storage.{read_pending_read_from_storage, normalize_item}
use django_channels_chat_rea.PageRead.Sync.{Ids, Page, Sync}
use django_channels_chat_rea.PageRead.Events.{
  unmounts, Event, answers, fails, flushes, leaves, views, initializes, run,
}
use django_channels_chat_rea.PageRead.Pacing.{IsPaced, run-IsPaced}
use django_channels_chat_rea.PageRead.Keeping.{IsKept, largest}
use django_channels_chat_rea.PageRead.Kept.{run-IsKept, run_forgets_nothing}
use django_channels_chat_rea.PageRead.History.{
  History, same_oldest, look_back, search, ensure_message_loaded,
}
use django_channels_chat_rea.PageRead.Jump.{
  oldest, HasStalled, ensure_message_loaded-finds, ensure_message_loaded-fails,
}
use django_channels_chat_rea.Examples.Data.{ascii_lower, ann, from_bob, from_ann}

abbrev seven : Text
seven = 55 ∷ []

abbrev room : Ids
room = record { room_id = seven; room_id_for_requests = seven }

abbrev page : Page
page = record {
  room_api_ref = some seven;
  read_state_enabled = true;
  room_data_ready = true;
  is_direct = true;
  resolved_room_id = some 7;
  current_actor_ref = ann;
  baseline = 2;
  local_last_read_message_id = 6;
  messages = from_bob ∷ from_ann ∷ [];
}

abbrev start : Sync
start = record {
  pending_read_flush = 0;
  pending_read_floor = 0;
  last_read_sent = 0;
  mark_read_timer = none;
  storage = some [];
  rooms = [];
  in_flight = [];
  acknowledged = [];
  direct_rooms_read = [];
  beacons = [];
}

abbrev events : List Event
events =
    initializes page
    ∷ views page 5 page.messages
    ∷ fails 5
    ∷ views page 5 page.messages
    ∷ answers 5
    ∷ flushes page (record { send_beacon = some false; has_fetch = true })
    ∷ unmounts
    ∷ leaves page
    ∷ []

run-IsPaced_example : IsPaced (run room ascii_lower events start)
run-IsPaced_example = run-IsPaced room ascii_lower events start (record { calls = tt })

-- `Number` of a text of digits.
abbrev to_number : Text → Number
to_number s = of_ℕ (parse_digits 0 s)

number_of_show : (n : ℕ) → to_number (show_ℕ n) ≡ of_ℕ n
number_of_show n = ap of_ℕ (parse-show n)

start-IsKept : IsKept to_number room start
unfolding read_pending_read_from_storage normalize_item lookup
start-IsKept = record { floor = refl; stored = refl; within = tt }

run-IsKept_example : IsKept to_number room (run room ascii_lower events start)
run-IsKept_example = run-IsKept to_number number_of_show room ascii_lower events start start-IsKept

run_forgets_nothing_example :
    start.pending_read_flush
    ≤ max
        (run room ascii_lower events start).pending_read_flush
        (largest (run room ascii_lower events start).acknowledged)
run_forgets_nothing_example =
    run_forgets_nothing to_number number_of_show room ascii_lower events start start-IsKept

-- A page of the history per wait, down to message 1.
abbrev pages : ℕ → History
pages zero = record { message_ids = pos 9 ∷ []; has_more = true; loading_more = false }
pages (suc zero) = record { message_ids = pos 5 ∷ pos 9 ∷ []; has_more = true; loading_more = true }
pages (suc (suc n)) = record {
  message_ids = pos 1 ∷ pos 5 ∷ pos 9 ∷ [];
  has_more = false;
  loading_more = false;
}

pages_before : (n : ℕ) → suc n ≤ 2 → (pages n).has_more ≡ true
pages_before zero l = refl
pages_before (suc zero) l = refl
pages_before (suc (suc n)) l = ground (arith, l)

moves_before :
    (n : ℕ)
    → suc n ≤ 2
    → same_oldest (oldest (pos 1) pages (suc n)) (oldest (pos 1) pages n) ≡ false
moves_before zero l = refl
moves_before (suc zero) l = refl
moves_before (suc (suc n)) l = ground (arith, l)

ensure_message_loaded-finds_example : ensure_message_loaded (pos 1) pages ≡ true
ensure_message_loaded-finds_example =
    ensure_message_loaded-finds (pos 1) pages 2 (omega arith) refl pages_before moves_before

-- No page comes.
abbrev stuck : ℕ → History
stuck n = record { message_ids = pos 9 ∷ []; has_more = true; loading_more = false }

ensure_message_loaded-fails_example :
    ((stuck (search (pos 1) stuck).attempts).has_more ≡ false)
    ⊎ ((search (pos 1) stuck).attempts ≡ 60)
    ⊎ HasStalled (pos 1) stuck (search (pos 1) stuck).attempts
unfolding ensure_message_loaded search look_back
ensure_message_loaded-fails_example = ensure_message_loaded-fails (pos 1) stuck refl
