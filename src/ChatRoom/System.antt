-- ===== src/ChatRoom/System.antt =====
-- useChatRoom.ts: the hook together with the requests on the wire, whose answers come in any order.
use django_channels_chat_rea.Common.{
  ℕ, zero, suc, Text, text_eq, nat_eq, Option, none, some, List, [], ◌∷◌, Bool, false,
}
use django_channels_chat_rea.Message.{Message}
use django_channels_chat_rea.ChatRoom.{
  Hook, Request, initial, more, RoomMessages, create_initial_room_state, load_initial,
  initial_loaded, initial_failed, load_more, more_loaded, more_failed, set_messages, set_error,
}

pub record System (D : Type 0) : Type 0 where
  pub hook : Hook D
  pub outstanding : List Request

-- The server's answer to a request: both parts of it, of which a page request takes the second, or
-- a failure with the text that the hook stores for one.
pub data Answer (D : Type 0) : Type 0 where
  loaded : D → RoomMessages → Answer D
  failed : Text → Answer D

pub data Event (D : Type 0) : Type 0 where
  reloads : (can_view : Bool) (room_id : Text) → Event D
  asks_more : (can_view : Bool) (room_id : Text) → Event D
  answers : (index : ℕ) → Answer D → Event D
  edits : (List Message → List Message) → Event D
  reports : Option Text → Event D

module _ {ℓ} {A : Type ℓ} where
  abbrev pub get_elem? : List A → ℕ → Option A
  get_elem? [] i = none
  get_elem? (x ∷ xs) zero = some x
  get_elem? (x ∷ xs) (suc i) = get_elem? xs i

  abbrev pub remove_at : List A → ℕ → List A
  remove_at [] i = []
  remove_at (x ∷ xs) zero = xs
  remove_at (x ∷ xs) (suc i) = x ∷ remove_at xs i

module _ {D : Type 0} where
  -- The request that a call has sent goes on the wire.
  abbrev pub sent : System D → Hook D × Option Request → System D
  sent s (h, none) = record s { hook = h }
  sent s (h, some r) = record { hook = h; outstanding = r ∷ s.outstanding }

module _ {D : Type 0} (max_length : ℕ) where
  unfoldable pub deliver : Request → Answer D → Hook D → Hook D
  deliver (initial room_id id) (loaded info payload) h =
      initial_loaded max_length room_id id info payload h
  deliver (initial room_id id) (failed text) h = initial_failed room_id id text h
  deliver (more room_id id token cursor) (loaded info payload) h =
      more_loaded max_length room_id id token payload h
  deliver (more room_id id token cursor) (failed text) h = more_failed room_id id token h

  abbrev pub deliver_at : Option Request → ℕ → Answer D → System D → System D
  deliver_at none index answer s = s
  deliver_at (some r) index answer s = record {
    hook = deliver r answer s.hook;
    outstanding = remove_at s.outstanding index;
  }

  unfoldable pub step : Event D → System D → System D
  unfolding deliver
  step (reloads can_view room_id) s = sent s (load_initial can_view room_id s.hook)
  step (asks_more can_view room_id) s = sent s (load_more can_view room_id s.hook)
  step (answers index answer) s = deliver_at (get_elem? s.outstanding index) index answer s
  step (edits updater) s = record s { hook = set_messages max_length updater s.hook }
  step (reports error) s = record s { hook = set_error error s.hook }

  unfoldable pub run : List (Event D) → System D → System D
  run [] s = s
  run (e ∷ es) s = run es (step e s)

module _ {D : Type 0} where
  -- The hook as it is mounted for a room, before its first effect.
  unfoldable pub mounted : Text → System D
  mounted room_id = record {
    hook = record {
      state = create_initial_room_state room_id;
      request_id = 0;
      load_more_in_flight = false;
      load_more_token = 0;
    };
    outstanding = [];
  }
