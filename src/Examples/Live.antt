-- ===== src/Examples/Live.antt =====
-- useChatRoomPageRealtime.ts at work: Ann's page of room 1, where Bob writes, types and reacts.
use django_channels_chat_rea.Common.{
  pos, text_eq, text_beq, lookup, trim, insert, int_eq, none, some, List, [], ◌∷◌, true, false, ◌≡◌,
  refl, arith,
}
use django_channels_chat_rea.ActorRef.{normalize_actor_ref}
use django_channels_chat_rea.WsEvent.{
  IncomingMessage, Reacted, Typing, rate_limited, message_too_long, forbidden, slow_mode, typing,
  reaction_add, reaction_remove,
}
use django_channels_chat_rea.Realtime.{Context, Page, handle_message, show_typing, expire_typing}
use django_channels_chat_rea.Realtime.Reactions.{reaction_remove-reaction_add}
use django_channels_chat_rea.Realtime.Typists.{IsInStep, Tick, receives, expires, run, run-IsInStep}
use django_channels_chat_rea.Realtime.Delivery.{refusal-drops, IsRefused}
use django_channels_chat_rea.Examples.Data.{
  ascii_lower, message, ann, bob, at_bob, draft_shown, c_1,
}

abbrev context : Context
context = record {
  room_realtime_id = some (pos 1);
  room_id_for_requests = 49 ∷ [];
  is_direct = true;
  max_message_length = 100;
  current_actor_ref = ann;
  read_state_enabled = true;
}

abbrev page : Page
page = record {
  messages =
      message 5 none none at_bob (record { emoji = 43 ∷ []; count = 1; me = false } ∷ [])
      ∷ draft_shown
      ∷ [];
  room_error = none;
  typing_users = [];
  typing_display_names = [];
  read_receipts = [];
  effects = [];
}

abbrev incoming : IncomingMessage
incoming = record {
  id = some (pos 8);
  client_message_id = none;
  content = 104 ∷ 105 ∷ [];
  public_ref = at_bob;
  username = bob;
  display_name = bob;
  profile_pic = none;
  avatar_crop = none;
  room_id = some (pos 1);
  created_at = some (52 ∷ []);
  reply_to = none;
  attachments = [];
}

abbrev reacted : Reacted
reacted = record {
  message_id = pos 5;
  room_id = some (pos 1);
  emoji = 43 ∷ [];
  user_id = pos 2;
  public_ref = at_bob;
  username = bob;
  display_name = bob;
}

abbrev types : Typing
types = record {
  room_id = some (pos 1);
  public_ref = at_bob;
  username = bob;
  display_name = bob;
  user_id = pos 2;
}

reaction_remove-reaction_add_example :
    handle_message ascii_lower context 10 []
      (reaction_remove reacted)
      (handle_message ascii_lower context 10 [] (reaction_add reacted) page)
    ≡ page
reaction_remove-reaction_add_example =
    reaction_remove-reaction_add ascii_lower context 10 [] reacted page
      (λ e. (omega arith, tt), (λ e. tt, tt)) (λ e. (λ f. (λ g. refl, tt), (λ f. tt, tt)))

-- Bob types at 1000, and the interval fires twice, the second time too late for him.
abbrev ticks : List Tick
ticks =
    receives 1000 [] (typing types)
    ∷ expires 3000 ((bob, 1000) ∷ [])
    ∷ expires 9000 ((bob, 1000) ∷ [])
    ∷ []

run-IsInStep_example : IsInStep context (run ascii_lower context ticks page)
unfolding handle_message show_typing expire_typing text_beq normalize_actor_ref trim insert lookup
run-IsInStep_example =
    run-IsInStep ascii_lower context ticks page (refl, (refl, tt))
      (record { named = refl; once = tt; others = refl })

-- Bob types after Carl, and the interval of the render before fires first: his name is taken down, and he
-- still types.
abbrev carl_types : Page
carl_types = record page {
  typing_users = (c_1, 500) ∷ (bob, 1000) ∷ [];
  typing_display_names = (c_1, c_1) ∷ (bob, bob) ∷ [];
}

name_lost :
    ((expire_typing 2000 ((c_1, 500) ∷ []) carl_types).typing_users ≡ (c_1, 500) ∷ (bob, 1000) ∷ [])
    × ((expire_typing 2000 ((c_1, 500) ∷ []) carl_types).typing_display_names ≡ (c_1, c_1) ∷ [])
unfolding expire_typing lookup text_beq
name_lost = (refl, refl)

refusal-drops_example :
    IsRefused c_1 page
      (handle_message ascii_lower context 10 [] (rate_limited (some (pos 3)) (some c_1)) page)
    × IsRefused c_1 page
        (handle_message ascii_lower context 10 [] (message_too_long (some c_1)) page)
    × IsRefused c_1 page (handle_message ascii_lower context 10 [] (forbidden (some c_1)) page)
    × IsRefused c_1 page (handle_message ascii_lower context 10 [] (slow_mode (some c_1)) page)
refusal-drops_example = refusal-drops ascii_lower context 10 [] c_1 (some (pos 3)) page refl
