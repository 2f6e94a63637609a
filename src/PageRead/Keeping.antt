-- ===== src/PageRead/Keeping.antt =====
-- useChatRoomPageReadState.ts: the pending read and its copy in the session storage. The hypothesis on
-- `to_number` says that `Number` reads what `String` has written.
use django_channels_chat_rea.Common.{
  ℕ, ◌≤◌, max, ltb, leb, Text, text_eq, nat_eq, show_ℕ, none, some, List, [], ◌∷◌, Bool, true,
  false, ◌≡◌, refl, ap, arith, eq_refl, Bool-cases, inl, inr, All, lookup, lookup-insert,
  lookup-delete, insert, delete, if◌then◌else◌,
}
use django_channels_chat_rea.Number.{Number, of_ℕ}
use django_channels_chat_rea.PageRead.Storage.{
  SessionStorage, pending_read_storage_key, normalize_item, read_pending_read_from_storage,
  write_pending_read_to_storage, clear_pending_read_from_storage,
}
use django_channels_chat_rea.PageRead.Written.{normalize_item-show}
use django_channels_chat_rea.PageRead.Sync.{
  Ids, Page, Sync, Browser, answered, ask, persist_pending_read, clear_pending_read,
  send_mark_read_if_needed, mark_read_done, mark_read_failed, send_what_is_pending,
  schedule_mark_read, schedule_local_read, flush_pending_read,
}

abbrev pub largest : List ℕ → ℕ
largest [] = 0
largest (id ∷ ids) = max id (largest ids)

-- How far the reads go that are pending or that the server has acknowledged.
abbrev pub reach : Sync → ℕ
reach s = max s.pending_read_flush (largest s.acknowledged)

lookup_inserted :
    (key value : Text) (items : List (Text × Text))
    → lookup key (insert key value items) ≡ some value
lookup_inserted key value items = ground (arith, lookup-insert key key value items, eq_refl key)

lookup_deleted : (key : Text) (items : List (Text × Text)) → lookup key (delete key items) ≡ none
lookup_deleted key items = ground (arith, lookup-delete key key items, eq_refl key)

answered-All :
    (bound n : ℕ) (ids : List ℕ)
    → All (λ id. id ≤ bound) ids
    → All (λ id. id ≤ bound) (answered n ids)
unfolding answered
answered-All bound n [] h = tt
answered-All bound n (id ∷ ids) h = ground (arith, h, answered-All bound n ids h.1)

All-weaken : (a b : ℕ) (ids : List ℕ) → a ≤ b → All (λ id. id ≤ a) ids → All (λ id. id ≤ b) ids
All-weaken a b [] l h = tt
All-weaken a b (id ∷ ids) l h = (omega (arith, h.0), All-weaken a b ids l h.1)

module _ (to_number : Text → Number) where
  -- The storage, where there is one, holds `pending` for the room.
  abbrev pub IsStored : Text → ℕ → SessionStorage → Type 0
  IsStored room_id pending none = Unit
  IsStored room_id pending (some items) =
      read_pending_read_from_storage to_number room_id (some items) ≡ pending

  clear-IsStored :
      (room_id : Text) (storage : SessionStorage)
      → IsStored room_id 0 (clear_pending_read_from_storage room_id storage)
  unfolding read_pending_read_from_storage clear_pending_read_from_storage normalize_item
  clear-IsStored room_id none = tt
  clear-IsStored room_id (some items) =
      ap (normalize_item to_number) (lookup_deleted (pending_read_storage_key room_id) items)

  pub record IsKept (ids : Ids) (s : Sync) : Type 0 where
    pub floor : s.pending_read_floor ≡ s.pending_read_flush
    pub stored : IsStored ids.room_id s.pending_read_flush s.storage
    pub within : All (λ id. id ≤ reach s) s.in_flight

  abbrev pub Keeps : Ids → Sync → Sync → Type 0
  Keeps ids before after = (reach before ≤ reach after) × IsKept ids after

  pub unless-Keeps :
      (idle : Bool) {ids : Ids} (before after : Sync)
      → IsKept ids before
      → Keeps ids before after
      → Keeps ids before (if idle then before else after)
  unless-Keeps true before after h g = (omega arith, h)
  unless-Keeps false before after h g = g

  module _ (number_of_show : (n : ℕ) → to_number (show_ℕ n) ≡ of_ℕ n) where
    write-IsStored :
        (room_id : Text) (n : ℕ) (storage : SessionStorage)
        → ltb n 1 ≡ false
        → IsStored room_id n (write_pending_read_to_storage room_id n storage)
    unfolding read_pending_read_from_storage write_pending_read_to_storage
    write-IsStored room_id n none l = tt
    write-IsStored room_id n (some items) l =
        let key = pending_read_storage_key room_id in
        rw (l, lookup_inserted key (show_ℕ n) items)
          (normalize_item-show to_number number_of_show n)

    module _ (ids : Ids) where
      pub persist-Keeps :
          (n : ℕ) (s : Sync)
          → IsKept ids s
          → Keeps ids s (persist_pending_read ids n s) × (n ≤ reach (persist_pending_read ids n s))
      unfolding persist_pending_read
      persist-Keeps n s h = elim (Bool-cases (ltb n 1)) [
        | inl nothing ↦ rw nothing ((omega arith, h), ground (arith, nothing))
        | inr positive ↦ elim (Bool-cases (leb n s.pending_read_flush)) [
          | inl old ↦ rw (positive, old) ((omega arith, h), ground (arith, old))
          | inr fresh ↦
              rw (positive, fresh)
                (
                  (
                    ground (arith, fresh),
                    record {
                      floor = refl;
                      stored = write-IsStored ids.room_id n s.storage positive;
                      within =
                          All-weaken (reach s) (max n (largest s.acknowledged)) s.in_flight
                            (ground (arith, fresh)) h.within;
                    },
                  ),
                  omega arith,
                )
        ]
      ]

      ask-IsKept : (n : ℕ) (s : Sync) → n ≤ reach s → IsKept ids s → Keeps ids s (ask ids n s)
      unfolding ask
      ask-IsKept n s l h = elim (Bool-cases (leb n s.last_read_sent)) [
        | inl sent ↦ rw sent (omega arith, h)
        | inr fresh ↦
            rw fresh
              (omega arith, record { floor = h.floor; stored = h.stored; within = (l, h.within) })
      ]

      pub send-Keeps :
          (page : Page) (n : ℕ) (s : Sync)
          → IsKept ids s
          → Keeps ids s (send_mark_read_if_needed ids page n s)
      unfolding send_mark_read_if_needed
      send-Keeps page n s h =
          let persisted = persist-Keeps n s h in
          let asked = ask-IsKept n (persist_pending_read ids n s) persisted.1 persisted.0.1 in
          unless-Keeps _ s _ h (omega (arith, persisted.0.0, asked.0), asked.1)

      clear-Keeps :
          (n : ℕ) (s : Sync)
          → n ≤ largest s.acknowledged
          → IsKept ids s
          → Keeps ids s (clear_pending_read ids n s)
      unfolding clear_pending_read
      clear-Keeps n s l h = elim (Bool-cases (ltb n s.pending_read_flush)) [
        | inl higher ↦ rw higher (omega arith, h)
        | inr covered ↦ rw covered (
          ground (arith, covered, l),
          record {
            floor = refl;
            stored = clear-IsStored ids.room_id s.storage;
            within =
                All-weaken (reach s) (max 0 (largest s.acknowledged)) s.in_flight
                  (ground (arith, covered, l)) h.within;
          },
        )
      ]

      pub done-Keeps : (n : ℕ) (s : Sync) → IsKept ids s → Keeps ids s (mark_read_done ids n s)
      unfolding mark_read_done
      done-Keeps n s h =
          let told = record s {
            in_flight = answered n s.in_flight;
            acknowledged = n ∷ s.acknowledged;
          } in
          let cleared = clear-Keeps n told (omega arith) (record {
            floor = h.floor;
            stored = h.stored;
            within =
                answered-All (reach told) n s.in_flight
                  (All-weaken (reach s) (reach told) s.in_flight (omega arith) h.within);
          }) in
          (omega (arith, cleared.0), cleared.1)

      pub failed-Keeps : (n : ℕ) (s : Sync) → IsKept ids s → Keeps ids s (mark_read_failed ids n s)
      unfolding mark_read_failed
      failed-Keeps n s h = (
        omega arith,
        record {
          floor = h.floor;
          stored = h.stored;
          within = answered-All (reach s) n s.in_flight h.within;
        },
      )

      pub schedule-Keeps :
          (page : Page) (settled : Bool) (s : Sync)
          → IsKept ids s
          → Keeps ids s (schedule_local_read ids page settled s)
      unfolding schedule_local_read schedule_mark_read
      schedule-Keeps page settled s h = unless-Keeps _ s _ h (
          unless-Keeps _ s _ h
            (omega arith, record { floor = h.floor; stored = h.stored; within = h.within }))

      pub flush-Keeps :
          (page : Page) (browser : Browser) (s : Sync)
          → IsKept ids s
          → Keeps ids s (flush_pending_read ids page browser s)
      unfolding flush_pending_read
      flush-Keeps page browser s h =
          let kept =
            (persist-Keeps (max s.pending_read_flush page.local_last_read_message_id) s h).0 in
          unless-Keeps _ s _ h (
            kept.0,
            record { floor = kept.1.floor; stored = kept.1.stored; within = kept.1.within },
          )

      pub leave-Keeps :
          (page : Page) (s : Sync) → IsKept ids s → Keeps ids s (send_what_is_pending ids page s)
      unfolding send_what_is_pending
      leave-Keeps page s h = unless-Keeps _ s _ h (send-Keeps page s.pending_read_flush s h)
