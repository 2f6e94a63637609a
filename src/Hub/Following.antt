-- ===== src/Hub/Following.antt =====
-- ChatRealtimeProvider.tsx and useChatRealtimeRoom.ts: the room that the server takes to be open.
use django_channels_chat_rea.Common.{
  ℕ, Text, text_eq, nat_eq, Option, none, some, List, [], ◌∷◌, Bool, true, false, ◌==◌, ◌≡◌, refl,
  sym, ap, ◌∙◌, arith, eq_iff, if◌then◌else◌,
}
use django_channels_chat_rea.Hub.{
  Signal, Binding, Hub, send_set_active_room, activate_room, release_room, register_listener,
  unregister_listener, is_bound, resend, dispatch_listeners, opened, closed, room_effect,
  room_cleanup,
}

pub data Event : Type 0 where
  opens closes : Event
  signals : Signal → Event
  mounts unmounts : ℕ → Event
  shows leaves : Text → Bool → Option ℕ → Event

-- What the server has been told last on a connection; it starts without a room.
abbrev pub told : List (Option ℕ) → Option ℕ
told [] = none
told (room_id ∷ earlier) = room_id

abbrev pub bound_room : Option Binding → Option ℕ
bound_room none = none
bound_room (some binding) = binding.room_id

abbrev pub give_up : Text → Option Binding → Option Binding
give_up owner none = none
give_up owner (some holder) = if holder.owner_id == owner then none else some holder

-- While the socket is online the server's room is that of the binding.
pub record IsFollowed (hub : Hub) : Type 0 where
  pub follows : hub.is_online ≡ true → told hub.sent ≡ bound_room hub.active_binding

activate-IsFollowed :
    (owner : Text) (room : Option ℕ) (hub : Hub)
    → IsFollowed hub
    → IsFollowed (activate_room owner room hub)
unfolding activate_room send_set_active_room
activate-IsFollowed owner room hub h = ground (arith, h)

release-IsFollowed :
    (owner : Text) (hub : Hub) → IsFollowed hub → IsFollowed (release_room owner hub)
unfolding release_room send_set_active_room
release-IsFollowed owner hub h = ground (arith, h)

effect-IsFollowed :
    (owner : Text) (enabled : Bool) (room : Option ℕ) (hub : Hub)
    → IsFollowed hub
    → IsFollowed (room_effect owner enabled room hub)
unfolding room_effect
effect-IsFollowed owner enabled none hub h = release-IsFollowed owner hub h
effect-IsFollowed owner true (some room) hub h = activate-IsFollowed owner (some room) hub h
effect-IsFollowed owner false (some room) hub h = release-IsFollowed owner hub h

cleanup-IsFollowed :
    (owner : Text) (enabled : Bool) (room : Option ℕ) (hub : Hub)
    → IsFollowed hub
    → IsFollowed (room_cleanup owner enabled room hub)
unfolding room_cleanup
cleanup-IsFollowed owner enabled none hub h = h
cleanup-IsFollowed owner true (some room) hub h = release-IsFollowed owner hub h
cleanup-IsFollowed owner false (some room) hub h = h

resent-IsFollowed :
    (handles : ℕ → Signal → Bool) (binding : Option Binding) (hub : Hub)
    → told (resend handles binding (record hub { is_online = true; sent = [] })).sent
      ≡ bound_room binding
unfolding send_set_active_room
resent-IsFollowed handles none hub = refl
resent-IsFollowed handles (some binding) hub = refl

resent-binding :
    (handles : ℕ → Signal → Bool) (binding : Option Binding) (hub : Hub)
    → (resend handles binding hub).active_binding ≡ hub.active_binding
unfolding send_set_active_room
resent-binding handles none hub = refl
resent-binding handles (some binding) hub = ground arith

open-IsFollowed : (handles : ℕ → Signal → Bool) (hub : Hub) → IsFollowed (opened handles hub)
unfolding opened dispatch_listeners
open-IsFollowed handles hub = record {
  follows = λ online.
      resent-IsFollowed handles hub.active_binding hub
      ∙ sym (
          ap bound_room (
            resent-binding handles hub.active_binding
              (record hub { is_online = true; sent = [] })));
}

-- Who holds the room, whatever the socket does: the owner that has shown a room last, until it leaves
-- that room or shows none. Then nobody does, also where another owner still shows a room from before.
abbrev pub claim : Event → Option Binding → Option Binding
claim (shows owner true (some room)) holder =
    some (record { owner_id = owner; room_id = some room })
claim (shows owner enabled room) holder = give_up owner holder
claim (leaves owner true (some room)) holder = give_up owner holder
claim _ holder = holder

unfoldable pub holder_after : List Event → Option Binding → Option Binding
holder_after [] holder = holder
holder_after (e ∷ es) holder = holder_after es (claim e holder)

bound_same :
    (held : Option Binding) (owner : Text) (room : Option ℕ)
    → is_bound held owner room ≡ true
    → held ≡ some (record { owner_id = owner; room_id = room })
bound_same none owner room h = ground arith
bound_same (some current) owner room h = ground (arith, h, eq_iff current.owner_id owner)

activate-holder :
    (owner : Text) (room : Option ℕ) (hub : Hub)
    → (activate_room owner room hub).active_binding
      ≡ some (record { owner_id = owner; room_id = room })
unfolding activate_room send_set_active_room
activate-holder owner room hub = ground (arith, bound_same hub.active_binding owner room)

release-holder :
    (owner : Text) (hub : Hub)
    → (release_room owner hub).active_binding ≡ give_up owner hub.active_binding
unfolding release_room send_set_active_room
release-holder owner hub = ground arith

module _ (handles : ℕ → Signal → Bool) where
  unfoldable pub step : Event → Hub → Hub
  step opens hub = opened handles hub
  step closes hub = closed handles hub
  step (signals signal) hub = dispatch_listeners handles signal hub
  step (mounts listener) hub = register_listener listener hub
  step (unmounts listener) hub = unregister_listener listener hub
  step (shows owner enabled room) hub = room_effect owner enabled room hub
  step (leaves owner enabled room) hub = room_cleanup owner enabled room hub

  unfoldable pub run : List Event → Hub → Hub
  unfolding step
  run [] hub = hub
  run (e ∷ es) hub = run es (step e hub)

  step-IsFollowed : (e : Event) (hub : Hub) → IsFollowed hub → IsFollowed (step e hub)
  unfolding step opened closed dispatch_listeners send_set_active_room register_listener
      unregister_listener
  step-IsFollowed opens hub h = open-IsFollowed handles hub
  step-IsFollowed closes hub h = ground arith
  step-IsFollowed (signals signal) hub h = record { follows = h.follows }
  step-IsFollowed (mounts listener) hub h = ground (arith, h)
  step-IsFollowed (unmounts listener) hub h = record { follows = h.follows }
  step-IsFollowed (shows owner enabled room) hub h = effect-IsFollowed owner enabled room hub h
  step-IsFollowed (leaves owner enabled room) hub h = cleanup-IsFollowed owner enabled room hub h

  run-IsFollowed : (es : List Event) (hub : Hub) → IsFollowed hub → IsFollowed (run es hub)
  unfolding run
  run-IsFollowed [] hub h = h
  run-IsFollowed (e ∷ es) hub h = run-IsFollowed es (step e hub) (step-IsFollowed e hub h)

  step-holder : (e : Event) (hub : Hub) → (step e hub).active_binding ≡ claim e hub.active_binding
  unfolding step opened closed dispatch_listeners send_set_active_room register_listener
      unregister_listener room_effect room_cleanup activate_room release_room
  step-holder opens hub = resent-binding handles hub.active_binding _
  step-holder closes hub = refl
  step-holder (signals signal) hub = refl
  step-holder (mounts listener) hub = ground arith
  step-holder (unmounts listener) hub = refl
  step-holder (shows owner true none) hub = release-holder owner hub
  step-holder (shows owner false none) hub = release-holder owner hub
  step-holder (shows owner true (some room)) hub = activate-holder owner (some room) hub
  step-holder (shows owner false (some room)) hub = release-holder owner hub
  step-holder (leaves owner true none) hub = refl
  step-holder (leaves owner false none) hub = refl
  step-holder (leaves owner true (some room)) hub = release-holder owner hub
  step-holder (leaves owner false (some room)) hub = refl

  run-holder :
      (es : List Event) (hub : Hub)
      → (run es hub).active_binding ≡ holder_after es hub.active_binding
  unfolding run holder_after
  run-holder [] hub = refl
  run-holder (e ∷ es) hub = run-holder es (step e hub) ∙ ap (holder_after es) (step-holder e hub)

  -- Whatever rooms are shown and left, by whom, and however often the socket opens and closes, from a
  -- state where that holds, as it does before the socket has opened: while the socket is online, the
  -- room that the server has been told last on the connection is the one that was shown last, by any
  -- owner, as long as this owner has not left it and has not come to show none; from then until a room
  -- is shown again it is none, also where another owner still shows a room from before. The binding at
  -- the start counts as a room shown before all others.
  pub run-follows :
      (es : List Event) (hub : Hub)
      → IsFollowed hub
      → (run es hub).is_online ≡ true
      → told (run es hub).sent ≡ bound_room (holder_after es hub.active_binding)
  run-follows es hub h online =
      (run-IsFollowed es hub h).follows online ∙ ap bound_room (run-holder es hub)
