-- ===== src/PageRead/Kept.antt =====
-- useChatRoomPageReadState.ts: the pending read through everything that happens to it.
use django_channels_chat_rea.Common.{
  ℕ, ◌≤◌, max, Text, text_eq, nat_eq, show_ℕ, Option, none, some, List, [], ◌∷◌, Bool, true, false,
  ◌≡◌, arith, if◌then◌else◌,
}
use django_channels_chat_rea.Number.{Number, of_ℕ}
use django_channels_chat_rea.Message.{Message}
use django_channels_chat_rea.RoomRead.Provider.{Rooms}
use django_channels_chat_rea.PageRead.Sync.{
  unmount, Ids, Page, Sync, persist_pending_read, send_mark_read_if_needed, read_direct_room,
  is_direct_room_fully_read, tell_direct, on_timer, tell_of_view, apply_room_local_read,
  fire_mark_read, apply_viewport_read_now, initialize, read_locally,
}
use django_channels_chat_rea.PageRead.Events.{
  unmounts, Event, answers, fails, schedules, fires, flushes, leaves, views, initializes, reads,
  step, run,
}
use django_channels_chat_rea.PageRead.Keeping.{
  largest, IsKept, Keeps, unless-Keeps, persist-Keeps, send-Keeps, done-Keeps, failed-Keeps,
  schedule-Keeps, flush-Keeps, leave-Keeps,
}

module _ (to_number : Text → Number) (number_of_show : (n : ℕ) → to_number (show_ℕ n) ≡ of_ℕ n)
    (ids : Ids) (lower : Text → Text) where
  Keeps-trans :
      (before between after : Sync)
      → Keeps to_number ids before between
      → Keeps to_number ids between after
      → Keeps to_number ids before after
  Keeps-trans before between after g h = (omega (arith, g.0, h.0), h.1)

  -- Fields that the pending read does not depend on.
  rooms-Keeps :
      (s : Sync) (rooms : Rooms)
      → IsKept to_number ids s
      → Keeps to_number ids s (record s { rooms = rooms })
  rooms-Keeps s rooms h =
      (omega arith, record { floor = h.floor; stored = h.stored; within = h.within })

  told-Keeps :
      (room : Option ℕ) (full : Bool) (s : Sync)
      → IsKept to_number ids s
      → Keeps to_number ids s (tell_direct room full s)
  told-Keeps none full s h = (omega arith, h)
  told-Keeps (some room) true s h =
      (omega arith, record { floor = h.floor; stored = h.stored; within = h.within })
  told-Keeps (some room) false s h = (omega arith, h)

  if-Keeps :
      (busy : Bool) (before after : Sync)
      → IsKept to_number ids before
      → Keeps to_number ids before after
      → Keeps to_number ids before (if busy then after else before)
  if-Keeps true before after h g = g
  if-Keeps false before after h g = (omega arith, h)

  direct-Keeps :
      (page : Page) (n : ℕ) (messages : List Message) (s : Sync)
      → IsKept to_number ids s
      → Keeps to_number ids s (read_direct_room ids lower page n messages s)
  unfolding read_direct_room
  direct-Keeps page n messages s h =
      told-Keeps page.resolved_room_id (is_direct_room_fully_read ids lower page n messages) s h

  tell-Keeps :
      (page : Page) (n : ℕ) (messages : List Message) (s : Sync)
      → IsKept to_number ids s
      → Keeps to_number ids s (tell_of_view ids lower page n messages s)
  unfolding tell_of_view apply_room_local_read
  tell-Keeps page n messages s h =
      let read = apply_room_local_read ids lower page n messages s in
      let told = rooms-Keeps s read.rooms h in
      let sent = send-Keeps to_number number_of_show ids page n read told.1 in
      let direct = direct-Keeps page n messages (send_mark_read_if_needed ids page n read) sent.1 in
      (omega (arith, told.0, sent.0, direct.0), direct.1)

  on_timer-Keeps :
      (timer : Option (Page × ℕ)) (messages : List Message) (s : Sync)
      → IsKept to_number ids s
      → Keeps to_number ids s (on_timer ids lower timer messages s)
  on_timer-Keeps none messages s h = (omega arith, h)
  on_timer-Keeps (some (page, n)) messages s h =
      let idle = record s { mark_read_timer = none } in
      let sent =
        send-Keeps to_number number_of_show ids page n idle
          (record { floor = h.floor; stored = h.stored; within = h.within }) in
      let direct = direct-Keeps page n messages (send_mark_read_if_needed ids page n idle) sent.1 in
      (omega (arith, sent.0, direct.0), direct.1)

  view-Keeps :
      (page : Page) (n : ℕ) (messages : List Message) (s : Sync)
      → IsKept to_number ids s
      → Keeps to_number ids s (apply_viewport_read_now ids lower page n messages s)
  unfolding apply_viewport_read_now
  view-Keeps page n messages s h =
      let persisted = (persist-Keeps to_number number_of_show ids n s h).0 in
      let between = persist_pending_read ids n s in
      Keeps-trans s between _ persisted
        (if-Keeps _ between _ persisted.1 (tell-Keeps page n messages between persisted.1))

  step-Keeps :
      (e : Event) (s : Sync) → IsKept to_number ids s → Keeps to_number ids s (step ids lower e s)
  unfolding step unmount initialize read_locally apply_room_local_read fire_mark_read
  step-Keeps (answers n) s h = if-Keeps _ s _ h (done-Keeps to_number number_of_show ids n s h)
  step-Keeps (fails n) s h = if-Keeps _ s _ h (failed-Keeps to_number number_of_show ids n s h)
  step-Keeps (schedules page settled) s h =
      schedule-Keeps to_number number_of_show ids page settled s h
  step-Keeps (fires messages) s h = on_timer-Keeps s.mark_read_timer messages s h
  step-Keeps (flushes page browser) s h = flush-Keeps to_number number_of_show ids page browser s h
  step-Keeps (leaves page) s h = leave-Keeps to_number number_of_show ids page s h
  step-Keeps (views page n messages) s h = view-Keeps page n messages s h
  step-Keeps (initializes page) s h = unless-Keeps to_number _ s _ h (rooms-Keeps s _ h)
  step-Keeps unmounts s h =
      (omega arith, record { floor = h.floor; stored = h.stored; within = h.within })
  step-Keeps (reads page) s h = unless-Keeps to_number _ s _ h (rooms-Keeps s _ h)

  run-Keeps :
      (es : List Event) (s : Sync)
      → IsKept to_number ids s
      → Keeps to_number ids s (run ids lower es s)
  unfolding run
  run-Keeps [] s h = (omega arith, h)
  run-Keeps (e ∷ es) s h =
      let first = step-Keeps e s h in
      Keeps-trans s (step ids lower e s) _ first (run-Keeps es (step ids lower e s) first.1)

  -- Where `to_number` reads what `String` has written: whatever happens, from a state where that holds,
  -- as it does at first, the two copies of the pending read in the page and the one in the storage,
  -- where there is a storage, agree, and no call of `markRead` in flight is for more than the greater of
  -- what is pending and what has been acknowledged. It says nothing of beacons.
  pub run-IsKept :
      (es : List Event) (s : Sync)
      → IsKept to_number ids s
      → IsKept to_number ids (run ids lower es s)
  run-IsKept es s h = (run-Keeps es s h).1

  -- Where `to_number` reads what `String` has written: whatever happens to a page from such a state, the
  -- pending read falls only once the server has acknowledged a read as high.
  pub run_forgets_nothing :
      (es : List Event) (s : Sync)
      → IsKept to_number ids s
      → let after = run ids lower es s in
        s.pending_read_flush ≤ max after.pending_read_flush (largest after.acknowledged)
  run_forgets_nothing es s h = omega (arith, (run-Keeps es s h).0)
