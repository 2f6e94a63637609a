-- ===== src/PageRead/Events.antt =====
-- useChatRoomPageReadState.ts: what happens to the pending read of a page, and when.
use django_channels_chat_rea.Common.{ℕ, Text, nat_eq, List, [], ◌∷◌, Bool, ◌==◌, any, if◌then◌else◌}
use django_channels_chat_rea.Message.{Message}
use django_channels_chat_rea.PageRead.Sync.{
  unmount, Ids, Page, Sync, Browser, mark_read_done, mark_read_failed, send_what_is_pending,
  schedule_local_read, flush_pending_read, fire_mark_read, apply_viewport_read_now, initialize,
  read_locally,
}

pub data Event : Type 0 where
  answers fails : ℕ → Event
  schedules : Page → Bool → Event
  fires : List Message → Event
  flushes : Page → Browser → Event
  leaves : Page → Event
  views : Page → ℕ → List Message → Event
  initializes reads : Page → Event
  unmounts : Event

module _ (ids : Ids) (lower : Text → Text) where
  -- Only a call in flight is answered.
  unfoldable pub step : Event → Sync → Sync
  step (answers last_read) s =
      if any (λ id. id == last_read) s.in_flight then mark_read_done ids last_read s else s
  step (fails last_read) s =
      if any (λ id. id == last_read) s.in_flight then mark_read_failed ids last_read s else s
  step (schedules page is_settled) s = schedule_local_read ids page is_settled s
  step (fires messages) s = fire_mark_read ids lower messages s
  step (flushes page browser) s = flush_pending_read ids page browser s
  step (leaves page) s = send_what_is_pending ids page s
  step (views page next_last_read messages) s =
      apply_viewport_read_now ids lower page next_last_read messages s
  step (initializes page) s = initialize ids lower page s
  step unmounts s = unmount s
  step (reads page) s = read_locally ids lower page s

  unfoldable pub run : List Event → Sync → Sync
  unfolding step
  run [] s = s
  run (e ∷ es) s = run es (step e s)
