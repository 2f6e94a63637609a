-- ===== src/Hub.antt =====
-- frontend/src/shared/chatRealtime/ChatRealtimeProvider.tsx and useChatRealtimeRoom.ts: one socket for
-- the whole page, the listeners that share it, and the room that the server is told is open. A
-- listener is a number, an owner the text of `useId`. The socket counts as online from its `open`
-- event to its `close` event; the frames of the heartbeat are left out.
pub mod Following
use django_channels_chat_rea.Common.{
  ℕ, Text, text_eq, nat_eq, Option, none, some, List, [], ◌∷◌, ◌++◌, Bool, true, false, not, ◌&&◌,
  ◌||◌, ◌==◌, any, filter, if◌then◌else◌,
}

-- The keys of `ChatRealtimeListener`.
pub data Signal : Type 0 where
  on_message on_open on_close on_error : Signal

pub record Binding : Type 0 where
  pub owner_id : Text
  pub room_id : Option ℕ

pub record Hub : Type 0 where
  pub listeners : List ℕ
  pub active_binding : Option Binding
  pub is_online : Bool
  -- The room ids of the `set_active_room` frames that have gone out on this connection, the last first.
  pub sent : List (Option ℕ)
  -- The calls of the listeners' handlers.
  pub delivered : List (ℕ × Signal)

abbrev pub same_room : Option ℕ → Option ℕ → Bool
same_room none none = true
same_room (some a) (some b) = a == b
same_room _ _ = false

-- `send` hands nothing over where the socket is not open.
unfoldable pub send_set_active_room : Option ℕ → Hub → Hub
send_set_active_room room_id hub =
    if hub.is_online then record hub { sent = room_id ∷ hub.sent } else hub

abbrev pub is_bound : Option Binding → Text → Option ℕ → Bool
is_bound none owner_id room_id = false
is_bound (some current) owner_id room_id =
    current.owner_id == owner_id && same_room current.room_id room_id

unfoldable pub activate_room : Text → Option ℕ → Hub → Hub
unfolding send_set_active_room
activate_room owner_id room_id hub =
    if is_bound hub.active_binding owner_id room_id
    then hub
    else send_set_active_room room_id
        (record hub { active_binding = some (record { owner_id = owner_id; room_id = room_id }) })

abbrev pub is_owned : Option Binding → Text → Bool
is_owned none owner_id = false
is_owned (some current) owner_id = current.owner_id == owner_id

unfoldable pub release_room : Text → Hub → Hub
unfolding send_set_active_room
release_room owner_id hub =
    if is_owned hub.active_binding owner_id
    then send_set_active_room none (record hub { active_binding = none })
    else hub

-- A `Set` keeps one of each listener, in the order in which they came.
unfoldable pub register_listener : ℕ → Hub → Hub
register_listener listener hub =
    if any (λ other. other == listener) hub.listeners
    then hub
    else record hub { listeners = hub.listeners ++ listener ∷ [] }

unfoldable pub unregister_listener : ℕ → Hub → Hub
unregister_listener listener hub = record hub {
  listeners = filter (λ other. not (other == listener)) hub.listeners;
}

module _ (handles : ℕ → Signal → Bool) where
  -- The loop of `dispatchListeners`, over those that have a handler for the signal.
  unfoldable pub calls : Signal → List ℕ → List (ℕ × Signal)
  calls signal [] = []
  calls signal (listener ∷ listeners) =
      let rest = calls signal listeners in
      if handles listener signal then (listener, signal) ∷ rest else rest

  unfoldable pub dispatch_listeners : Signal → Hub → Hub
  unfolding calls
  dispatch_listeners signal hub = record hub {
    delivered = hub.delivered ++ calls signal hub.listeners;
  }

  abbrev pub resend : Option Binding → Hub → Hub
  resend none hub = hub
  resend (some binding) hub = send_set_active_room binding.room_id hub

  -- The socket has opened, for a server that knows of no room yet.
  unfoldable pub opened : Hub → Hub
  unfolding dispatch_listeners send_set_active_room
  opened hub =
      dispatch_listeners on_open
        (resend hub.active_binding (record hub { is_online = true; sent = [] }))

  unfoldable pub closed : Hub → Hub
  unfolding dispatch_listeners
  closed hub = dispatch_listeners on_close (record hub { is_online = false })

-- The effect of `useChatRealtimeRoom`, and its cleanup.
unfoldable pub room_effect : Text → Bool → Option ℕ → Hub → Hub
unfolding activate_room release_room
room_effect owner_id enabled none hub = release_room owner_id hub
room_effect owner_id enabled (some room_id) hub =
    if enabled then activate_room owner_id (some room_id) hub else release_room owner_id hub

unfoldable pub room_cleanup : Text → Bool → Option ℕ → Hub → Hub
unfolding release_room
room_cleanup owner_id enabled none hub = hub
room_cleanup owner_id enabled (some room_id) hub =
    if enabled then release_room owner_id hub else hub
