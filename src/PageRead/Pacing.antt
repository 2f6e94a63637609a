-- ===== src/PageRead/Pacing.antt =====
-- useChatRoomPageReadState.ts: the calls of `markRead` that are in flight.
use django_channels_chat_rea.Common.{
  ℕ, suc, ◌-◌, ◌≤◌, max, leb, Text, nat_eq, Option, none, some, List, [], ◌∷◌, Bool, true, false,
  ◌==◌, ◌≡◌, refl, arith, eq_iff, any, Bool-cases, inl, inr,
}
use django_channels_chat_rea.Message.{Message}
use django_channels_chat_rea.PageRead.Sync.{
  unmount, Ids, Page, Sync, Browser, answered, ask, persist_pending_read, clear_pending_read,
  send_mark_read_if_needed, mark_read_done, mark_read_failed, send_what_is_pending,
  schedule_mark_read, schedule_local_read, flush_pending_read, read_direct_room,
  is_direct_room_fully_read, tell_direct, on_timer, tell_of_view, apply_room_local_read,
  fire_mark_read, apply_viewport_read_now, initialize, read_locally,
}
use django_channels_chat_rea.PageRead.Events.{
  unmounts, Event, answers, fails, schedules, fires, flushes, leaves, views, initializes, reads,
  step, run,
}

-- No id stands twice, and each is between 1 and `last`.
abbrev pub AreWithin : ℕ → List ℕ → Type 0
AreWithin last [] = Unit
AreWithin last (id ∷ ids) =
    (any (λ other. other == id) ids ≡ false) × (1 ≤ id) × (id ≤ last) × AreWithin last ids

pub record IsPaced (s : Sync) : Type 0 where
  pub calls : AreWithin s.last_read_sent s.in_flight

answered-any :
    (id other : ℕ) (ids : List ℕ)
    → any (λ x. x == other) ids ≡ false
    → any (λ x. x == other) (answered id ids) ≡ false
unfolding answered
answered-any id other [] h = h
answered-any id other (x ∷ ids) h = ground (arith, answered-any id other ids)

answered-AreWithin :
    (id last : ℕ) (ids : List ℕ) → AreWithin last ids → AreWithin last (answered id ids)
unfolding answered
answered-AreWithin id last [] h = tt
answered-AreWithin id last (x ∷ ids) h =
    ground (arith, h, answered-AreWithin id last ids h.3, answered-any id x ids h.0)

AreWithin-weaken : (a b : ℕ) (ids : List ℕ) → a ≤ b → AreWithin a ids → AreWithin b ids
AreWithin-weaken a b [] l h = tt
AreWithin-weaken a b (x ∷ ids) l h = (h.0, h.1, omega arith, AreWithin-weaken a b ids l h.3)

AreWithin-below :
    (id : ℕ) (ids : List ℕ)
    → any (λ x. x == id) ids ≡ false
    → AreWithin id ids
    → AreWithin (id - 1) ids
AreWithin-below id [] absent h = tt
AreWithin-below id (x ∷ ids) absent h =
    (h.0, h.1, ground (arith, h.2, absent), AreWithin-below id ids (ground (arith, absent)) h.3)

-- What was in flight once is not any more.
answered-absent :
    (id last : ℕ) (ids : List ℕ) → AreWithin last ids → any (λ x. x == id) (answered id ids) ≡ false
unfolding answered
answered-absent id last [] h = refl
answered-absent id last (x ∷ ids) h =
    ground (arith, h.0, answered-absent id last ids h.3, eq_iff x id)

above-absent :
    (id last : ℕ) (ids : List ℕ)
    → suc last ≤ id
    → AreWithin last ids
    → any (λ x. x == id) ids ≡ false
above-absent id last [] l h = refl
above-absent id last (x ∷ ids) l h = ground (arith, h.2, above-absent id last ids l h.3)

told-IsPaced :
    (room : Option ℕ) (full : Bool) (s : Sync) → IsPaced s → IsPaced (tell_direct room full s)
told-IsPaced none full s h = h
told-IsPaced (some room) true s h = record { calls = h.calls }
told-IsPaced (some room) false s h = h

module _ (ids : Ids) where
  persist-IsPaced : (n : ℕ) (s : Sync) → IsPaced s → IsPaced (persist_pending_read ids n s)
  unfolding persist_pending_read
  persist-IsPaced n s h = ground (arith, h)

  clear-IsPaced : (n : ℕ) (s : Sync) → IsPaced s → IsPaced (clear_pending_read ids n s)
  unfolding clear_pending_read
  clear-IsPaced n s h = ground (arith, h)

  ask-IsPaced : (n : ℕ) (s : Sync) → 1 ≤ n → IsPaced s → IsPaced (ask ids n s)
  unfolding ask
  ask-IsPaced n s l h = elim (Bool-cases (leb n s.last_read_sent)) [
    | inl sent ↦ rw sent h
    | inr fresh ↦ rw fresh (record {
      calls = (
        above-absent n s.last_read_sent s.in_flight (ground (arith, fresh)) h.calls,
        l,
        omega arith,
        AreWithin-weaken s.last_read_sent n s.in_flight (ground (arith, fresh)) h.calls,
      );
    })
  ]

  send-IsPaced :
      (page : Page) (n : ℕ) (s : Sync) → IsPaced s → IsPaced (send_mark_read_if_needed ids page n s)
  unfolding send_mark_read_if_needed
  send-IsPaced page n s h =
      ground (arith, h, ask-IsPaced n (persist_pending_read ids n s), persist-IsPaced n s h)

  done-IsPaced : (n : ℕ) (s : Sync) → IsPaced s → IsPaced (mark_read_done ids n s)
  unfolding mark_read_done
  done-IsPaced n s h =
      clear-IsPaced n _
        (record { calls = answered-AreWithin n s.last_read_sent s.in_flight h.calls })

  failed-IsPaced : (n : ℕ) (s : Sync) → IsPaced s → IsPaced (mark_read_failed ids n s)
  unfolding mark_read_failed
  failed-IsPaced n s h = ground (
    arith,
    answered-AreWithin n s.last_read_sent s.in_flight h.calls,
    answered-absent n s.last_read_sent s.in_flight h.calls,
    AreWithin-below n (answered n s.in_flight),
    eq_iff s.last_read_sent n,
  )

  schedule-IsPaced :
      (page : Page) (settled : Bool) (s : Sync)
      → IsPaced s
      → IsPaced (schedule_local_read ids page settled s)
  unfolding schedule_local_read schedule_mark_read
  schedule-IsPaced page settled s h = ground (arith, h)

  flush-IsPaced :
      (page : Page) (browser : Browser) (s : Sync)
      → IsPaced s
      → IsPaced (flush_pending_read ids page browser s)
  unfolding flush_pending_read
  flush-IsPaced page browser s h =
      ground
        (arith, h, persist-IsPaced (max s.pending_read_flush page.local_last_read_message_id) s h)

  leave-IsPaced : (page : Page) (s : Sync) → IsPaced s → IsPaced (send_what_is_pending ids page s)
  unfolding send_what_is_pending
  leave-IsPaced page s h = ground (arith, h, send-IsPaced page s.pending_read_flush s h)

  module _ (lower : Text → Text) where
    direct-IsPaced :
        (page : Page) (n : ℕ) (messages : List Message) (s : Sync)
        → IsPaced s
        → IsPaced (read_direct_room ids lower page n messages s)
    unfolding read_direct_room
    direct-IsPaced page n messages s h =
        told-IsPaced page.resolved_room_id (is_direct_room_fully_read ids lower page n messages) s h

    on_timer-IsPaced :
        (timer : Option (Page × ℕ)) (messages : List Message) (s : Sync)
        → IsPaced s
        → IsPaced (on_timer ids lower timer messages s)
    on_timer-IsPaced none messages s h = h
    on_timer-IsPaced (some (page, n)) messages s h =
        direct-IsPaced page n messages _ (send-IsPaced page n _ (record { calls = h.calls }))

    fire-IsPaced :
        (messages : List Message) (s : Sync)
        → IsPaced s
        → IsPaced (fire_mark_read ids lower messages s)
    unfolding fire_mark_read
    fire-IsPaced messages s h = on_timer-IsPaced s.mark_read_timer messages s h

    tell-IsPaced :
        (page : Page) (n : ℕ) (messages : List Message) (s : Sync)
        → IsPaced s
        → IsPaced (tell_of_view ids lower page n messages s)
    unfolding tell_of_view apply_room_local_read
    tell-IsPaced page n messages s h =
        direct-IsPaced page n messages _ (send-IsPaced page n _ (record { calls = h.calls }))

    view-IsPaced :
        (page : Page) (n : ℕ) (messages : List Message) (s : Sync)
        → IsPaced s
        → IsPaced (apply_viewport_read_now ids lower page n messages s)
    unfolding apply_viewport_read_now
    view-IsPaced page n messages s h =
        ground (
          arith,
          persist-IsPaced n s h,
          tell-IsPaced page n messages (persist_pending_read ids n s),
        )

    step-IsPaced : (e : Event) (s : Sync) → IsPaced s → IsPaced (step ids lower e s)
    unfolding step unmount initialize read_locally apply_room_local_read
    step-IsPaced (answers n) s h = ground (arith, h, done-IsPaced n s h)
    step-IsPaced (fails n) s h = ground (arith, h, failed-IsPaced n s h)
    step-IsPaced (schedules page settled) s h = schedule-IsPaced page settled s h
    step-IsPaced (fires messages) s h = fire-IsPaced messages s h
    step-IsPaced (flushes page browser) s h = flush-IsPaced page browser s h
    step-IsPaced (leaves page) s h = leave-IsPaced page s h
    step-IsPaced (views page n messages) s h = view-IsPaced page n messages s h
    step-IsPaced (initializes page) s h = ground (arith, h)
    step-IsPaced unmounts s h = record { calls = h.calls }
    step-IsPaced (reads page) s h = ground (arith, h)

    -- Whatever happens, from a state where that holds, as it does at first: the ids that `markRead` has
    -- been called with and that are not answered are different, at least 1, and at most the id that
    -- was sent last. The beacons of `flushPendingRead` are not among them.
    pub run-IsPaced : (es : List Event) (s : Sync) → IsPaced s → IsPaced (run ids lower es s)
    unfolding run
    run-IsPaced [] s h = h
    run-IsPaced (e ∷ es) s h = run-IsPaced es (step ids lower e s) (step-IsPaced e s h)
