-- ===== src/ChatRoom/Invariant.antt =====
-- useChatRoom.ts: what holds of the hook whatever the order of calls and answers.
use django_channels_chat_rea.Common.{
  ℕ, zero, suc, ◌+◌, ℤ, Text, text_eq, nat_eq, Option, none, some, List, [], ◌∷◌, ◌++◌, map, Bool,
  true, false, ◌||◌, ◌==◌, ◌≡◌, refl, arith, subst, any, ltb, All, All-append,
}
use mathlib.Core.Option.{some-injective}
use django_channels_chat_rea.Message.{Message}
use django_channels_chat_rea.Sanitize.Output.{has_tag, sanitize_text-IsClean}
use django_channels_chat_rea.ChatRoom.{
  Request, initial, more, RoomMessages, sanitize_message, dedupe_messages,
  create_initial_room_state, load_initial, initial_loaded, initial_failed, load_more, more_loaded,
  more_failed, set_messages, set_error,
}
use django_channels_chat_rea.ChatRoom.Dedupe.{
  DistinctKeys, dedupe_messages-DistinctKeys, dedupe_messages-All,
}
use django_channels_chat_rea.ChatRoom.System.{
  System, Answer, loaded, failed, Event, reloads, asks_more, answers, edits, reports, get_elem?,
  remove_at, deliver, deliver_at, step, run, sent, mounted,
}

abbrev pub HasNoTag : Message → Type 0
HasNoTag m = has_tag m.content ≡ false

-- What the page shows: no message twice, and no text with a tag in it.
abbrev pub IsShowable : List Message → Type 0
IsShowable ms = DistinctKeys ms × All HasNoTag ms

abbrev pub is_initial : ℕ → Request → Bool
is_initial id (initial room_id n) = n == id
is_initial id (more room_id n token cursor) = false

abbrev pub is_more : ℕ → Request → Bool
is_more id (initial room_id n) = false
is_more id (more room_id n token cursor) = n == id

-- Ids and tokens are counted up together.
abbrev pub IsPaired : Request → Type 0
IsPaired (initial room_id n) = Unit
IsPaired (more room_id n token cursor) = n ≡ token

-- The request has a later id than `n`.
abbrev pub is_newer : ℕ → Request → Bool
is_newer n (initial room_id id) = ltb n id
is_newer n (more room_id id token cursor) = ltb n id

pub record IsSound {D : Type 0} (s : System D) : Type 0 where
  pub showable : IsShowable s.hook.state.messages
  pub counted : s.hook.request_id ≡ s.hook.load_more_token
  pub paired : All IsPaired s.outstanding
  pub numbered : any (is_newer s.hook.request_id) s.outstanding ≡ false
  pub pages_settled :
      any (is_more s.hook.request_id) s.outstanding ≡ true → s.hook.state.loading ≡ false
  pub spins : s.hook.state.loading_more ≡ true → s.hook.load_more_in_flight ≡ true
  pub awaits_more :
      s.hook.load_more_in_flight ≡ true → any (is_more s.hook.request_id) s.outstanding ≡ true
  pub awaits_initial :
      s.hook.state.loading ≡ true
      → (s.hook.request_id == 0 || any (is_initial s.hook.request_id) s.outstanding) ≡ true
  pub starts_unpaged : s.hook.state.loading ≡ true → s.hook.state.next_before ≡ none

map-HasNoTag : (n : ℕ) (ms : List Message) → All HasNoTag (map (sanitize_message n) ms)
unfolding sanitize_message
map-HasNoTag n [] = tt
map-HasNoTag n (m ∷ ms) = ((sanitize_text-IsClean m.content n).1, map-HasNoTag n ms)

dedupe-IsShowable : (ms : List Message) → All HasNoTag ms → IsShowable (dedupe_messages ms)
dedupe-IsShowable ms h = ((dedupe_messages-DistinctKeys ms []).0, dedupe_messages-All HasNoTag ms h)

module _ {ℓ} {A : Type ℓ} where
  any-remove_at :
      (p : A → Bool) (xs : List A) (i : ℕ) (r : A)
      → get_elem? xs i ≡ some r
      → p r ≡ false
      → any p xs ≡ true
      → any p (remove_at xs i) ≡ true
  any-remove_at p [] i r g n h = h
  any-remove_at p (x ∷ xs) zero r g n h = ground arith
  any-remove_at p (x ∷ xs) (suc i) r g n h = ground (arith, any-remove_at p xs i r g n)

  All-remove_at {κ} : (P : A → Type κ) (xs : List A) (i : ℕ) → All P xs → All P (remove_at xs i)
  All-remove_at P [] i h = tt
  All-remove_at P (x ∷ xs) zero h = h.1
  All-remove_at P (x ∷ xs) (suc i) h = (h.0, All-remove_at P xs i h.1)

  any-remove_at_le :
      (p : A → Bool) (xs : List A) (i : ℕ) → any p (remove_at xs i) ≡ true → any p xs ≡ true
  any-remove_at_le p [] i h = h
  any-remove_at_le p (x ∷ xs) zero h = ground arith
  any-remove_at_le p (x ∷ xs) (suc i) h = ground (arith, any-remove_at_le p xs i)

  any-get_elem? :
      (p : A → Bool) (xs : List A) (i : ℕ) (r : A)
      → get_elem? xs i ≡ some r
      → p r ≡ true
      → any p xs ≡ true
  any-get_elem? p [] i r g h = absurd (cc)
  any-get_elem? p (x ∷ xs) zero r g h = ground arith
  any-get_elem? p (x ∷ xs) (suc i) r g h = ground (arith, any-get_elem? p xs i r g h)

  pub All-get_elem? {κ} :
      (P : A → Type κ) (xs : List A) (i : ℕ) (r : A) → All P xs → get_elem? xs i ≡ some r → P r
  All-get_elem? P [] i r h g = absurd (cc)
  All-get_elem? P (x ∷ xs) zero r h g = subst P (some-injective x r g) h.0
  All-get_elem? P (x ∷ xs) (suc i) r h g = All-get_elem? P xs i r h.1 g

newer_mono :
    (n : ℕ) (rs : List Request) → any (is_newer n) rs ≡ false → any (is_newer (n + 1)) rs ≡ false
newer_mono n [] h = refl
newer_mono n (initial room_id id ∷ rs) h = ground (arith, newer_mono n rs)
newer_mono n (more room_id id token cursor ∷ rs) h = ground (arith, newer_mono n rs)

none_newer :
    (n : ℕ) (rs : List Request) → any (is_newer n) rs ≡ false → any (is_more (n + 1)) rs ≡ false
none_newer n [] h = refl
none_newer n (initial room_id id ∷ rs) h = ground (arith, none_newer n rs)
none_newer n (more room_id id token cursor ∷ rs) h = ground (arith, none_newer n rs)

module _ {D : Type 0} where
  load_initial-IsSound :
      (can_view : Bool) (room_id : Text) (s : System D)
      → IsSound s
      → IsSound (sent s (load_initial can_view room_id s.hook))
  unfolding load_initial
  load_initial-IsSound can_view room_id s h = ground (
    arith,
    newer_mono s.hook.request_id s.outstanding h.numbered,
    none_newer s.hook.request_id s.outstanding h.numbered,
  )

  load_more-IsSound :
      (can_view : Bool) (room_id : Text) (s : System D)
      → IsSound s
      → IsSound (sent s (load_more can_view room_id s.hook))
  unfolding load_more
  load_more-IsSound can_view room_id s h =
      ground (arith, newer_mono s.hook.request_id s.outstanding h.numbered)

  module _ (n : ℕ) (s : System D) (index : ℕ) (h : IsSound s) where
    initial_loaded-IsSound :
        (room_id : Text) (id : ℕ) (info : D) (payload : RoomMessages)
        → get_elem? s.outstanding index ≡ some (initial room_id id)
        → IsSound (record {
          hook = initial_loaded n room_id id info payload s.hook;
          outstanding = remove_at s.outstanding index;
        })
    unfolding initial_loaded
    initial_loaded-IsSound room_id id info payload g = ground (
      arith,
      dedupe-IsShowable (map (sanitize_message n) payload.messages)
          (map-HasNoTag n payload.messages),
      All-remove_at IsPaired s.outstanding index h.paired,
      any-remove_at_le (is_newer s.hook.request_id) s.outstanding index,
      any-remove_at_le (is_more s.hook.request_id) s.outstanding index,
      any-remove_at (is_more s.hook.request_id) s.outstanding index (initial room_id id) g,
      any-remove_at (is_initial s.hook.request_id) s.outstanding index (initial room_id id) g,
    )

    initial_failed-IsSound :
        (room_id : Text) (id : ℕ) (text : Text)
        → get_elem? s.outstanding index ≡ some (initial room_id id)
        → IsSound (record {
          hook = initial_failed room_id id text s.hook;
          outstanding = remove_at s.outstanding index;
        })
    unfolding initial_failed
    initial_failed-IsSound room_id id text g = ground (
      arith,
      All-remove_at IsPaired s.outstanding index h.paired,
      any-remove_at_le (is_newer s.hook.request_id) s.outstanding index,
      any-remove_at_le (is_more s.hook.request_id) s.outstanding index,
      any-remove_at (is_more s.hook.request_id) s.outstanding index (initial room_id id) g,
      any-remove_at (is_initial s.hook.request_id) s.outstanding index (initial room_id id) g,
    )

    more_loaded-IsSound :
        (room_id : Text) (id token : ℕ) (cursor : ℤ) (payload : RoomMessages)
        → get_elem? s.outstanding index ≡ some (more room_id id token cursor)
        → IsSound (record {
          hook = more_loaded n room_id id token payload s.hook;
          outstanding = remove_at s.outstanding index;
        })
    unfolding more_loaded
    more_loaded-IsSound room_id id token cursor payload g = ground (
      arith,
      dedupe-IsShowable (map (sanitize_message n) payload.messages ++ s.hook.state.messages) (
          All-append HasNoTag (map (sanitize_message n) payload.messages) s.hook.state.messages
            (map-HasNoTag n payload.messages) h.showable.1),
      All-remove_at IsPaired s.outstanding index h.paired,
      any-remove_at_le (is_newer s.hook.request_id) s.outstanding index,
      any-remove_at_le (is_more s.hook.request_id) s.outstanding index,
      any-get_elem? (is_more s.hook.request_id) s.outstanding index (more room_id id token cursor)
          g,
      All-get_elem? IsPaired s.outstanding index (more room_id id token cursor) h.paired g,
      any-remove_at (is_more s.hook.request_id) s.outstanding index (more room_id id token cursor)
          g,
      any-remove_at (is_initial s.hook.request_id) s.outstanding index
          (more room_id id token cursor) g,
    )

    more_failed-IsSound :
        (room_id : Text) (id token : ℕ) (cursor : ℤ)
        → get_elem? s.outstanding index ≡ some (more room_id id token cursor)
        → IsSound (record {
          hook = more_failed room_id id token s.hook;
          outstanding = remove_at s.outstanding index;
        })
    unfolding more_failed
    more_failed-IsSound room_id id token cursor g = ground (
      arith,
      All-remove_at IsPaired s.outstanding index h.paired,
      any-remove_at_le (is_newer s.hook.request_id) s.outstanding index,
      any-remove_at_le (is_more s.hook.request_id) s.outstanding index,
      any-get_elem? (is_more s.hook.request_id) s.outstanding index (more room_id id token cursor)
          g,
      All-get_elem? IsPaired s.outstanding index (more room_id id token cursor) h.paired g,
      any-remove_at (is_more s.hook.request_id) s.outstanding index (more room_id id token cursor)
          g,
      any-remove_at (is_initial s.hook.request_id) s.outstanding index
          (more room_id id token cursor) g,
    )

module _ {D : Type 0} (n : ℕ) where
  deliver_at-IsSound :
      (found : Option Request) (index : ℕ) (answer : Answer D) (s : System D)
      → get_elem? s.outstanding index ≡ found
      → IsSound s
      → IsSound (deliver_at n found index answer s)
  unfolding deliver
  deliver_at-IsSound none index answer s g h = h
  deliver_at-IsSound (some (initial room_id id)) index (loaded info payload) s g h =
      initial_loaded-IsSound n s index h room_id id info payload g
  deliver_at-IsSound (some (initial room_id id)) index (failed text) s g h =
      initial_failed-IsSound n s index h room_id id text g
  deliver_at-IsSound (some (more room_id id token cursor)) index (loaded info payload) s g h =
      more_loaded-IsSound n s index h room_id id token cursor payload g
  deliver_at-IsSound (some (more room_id id token cursor)) index (failed text) s g h =
      more_failed-IsSound n s index h room_id id token cursor g

  edits-IsSound :
      (updater : List Message → List Message) (s : System D)
      → IsSound s
      → IsSound (record s { hook = set_messages n updater s.hook })
  unfolding set_messages
  edits-IsSound updater s h = record {
    showable =
        dedupe-IsShowable (map (sanitize_message n) (updater s.hook.state.messages))
          (map-HasNoTag n (updater s.hook.state.messages));
    counted = h.counted;
    paired = h.paired;
    numbered = h.numbered;
    pages_settled = h.pages_settled;
    spins = h.spins;
    awaits_more = h.awaits_more;
    awaits_initial = h.awaits_initial;
    starts_unpaged = h.starts_unpaged;
  }

  reports-IsSound :
      (error : Option Text) (s : System D)
      → IsSound s
      → IsSound (record s { hook = set_error error s.hook })
  unfolding set_error
  reports-IsSound error s h = ground arith

  -- Every call and every answer keeps the invariant.
  pub step-IsSound : (e : Event D) (s : System D) → IsSound s → IsSound (step n e s)
  unfolding step
  step-IsSound (reloads can_view room_id) s h = load_initial-IsSound can_view room_id s h
  step-IsSound (asks_more can_view room_id) s h = load_more-IsSound can_view room_id s h
  step-IsSound (answers index answer) s h =
      deliver_at-IsSound (get_elem? s.outstanding index) index answer s refl h
  step-IsSound (edits updater) s h = edits-IsSound updater s h
  step-IsSound (reports error) s h = reports-IsSound error s h

  run-IsSound_from : (es : List (Event D)) (s : System D) → IsSound s → IsSound (run n es s)
  unfolding run
  run-IsSound_from [] s h = h
  run-IsSound_from (e ∷ es) s h = run-IsSound_from es (step n e s) (step-IsSound e s h)

mounted-IsSound : {D : Type 0} (room_id : Text) → IsSound (mounted {D = D} room_id)
unfolding mounted create_initial_room_state
mounted-IsSound room_id = ground arith

-- From the mounting on, through any calls of the hook and any order of answers and failures, of the
-- state that the hook keeps: the messages have distinct keys and no tags; while it says that older
-- messages load, a page is on the way whose answer will be taken; and while it says that the room loads,
-- the answer to the last request, a first load, is on the way, or no request has been sent at all, as
-- where the viewer may not view the room. No request on the way has a later id than the last, and page
-- requests have equal ids and tokens.
pub run-IsSound :
    {D : Type 0} (n : ℕ) (room_id : Text) (es : List (Event D))
    → IsSound (run n es (mounted room_id))
run-IsSound n room_id es = run-IsSound_from n es (mounted room_id) (mounted-IsSound room_id)
