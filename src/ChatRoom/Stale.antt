-- ===== src/ChatRoom/Stale.antt =====
-- useChatRoom.ts: answers to requests that a later one has replaced, and the guard of `loadMore`.
use django_channels_chat_rea.Common.{
  ℕ, Text, nat_eq, Option, none, some, List, [], ◌∷◌, Bool, true, false, not, ◌||◌, ◌≡◌, refl, sym,
  ap, ◌∙◌, subst, arith,
}
use django_channels_chat_rea.ChatRoom.{
  Hook, Request, initial, more, load_more, end_load_more, set_messages, set_error, initial_loaded,
  initial_failed, more_loaded, more_failed,
}
use django_channels_chat_rea.ChatRoom.System.{
  System, Answer, loaded, failed, Event, reloads, asks_more, answers, edits, reports, get_elem?,
  deliver, deliver_at, step, run, sent, mounted,
}
use django_channels_chat_rea.ChatRoom.Invariant.{
  is_initial, is_more, IsSound, IsPaired, All-get_elem?, step-IsSound, run-IsSound,
}

abbrev pub is_current : ℕ → Request → Bool
is_current id r = is_initial id r || is_more id r

-- The answer to a request that is not the last one sent, loaded or failed, leaves the whole state of
-- the room alone, whichever room it was for.
pub deliver-stale :
    {D : Type 0} (n : ℕ) (r : Request) (answer : Answer D) (h : Hook D)
    → is_current h.request_id r ≡ false
    → (deliver n r answer h).state ≡ h.state
unfolding deliver initial_loaded initial_failed more_loaded more_failed
deliver-stale n (initial room_id id) (loaded info payload) h s = ground arith
deliver-stale n (initial room_id id) (failed text) h s = ground arith
deliver-stale n (more room_id id token cursor) (loaded info payload) h s = ground arith
deliver-stale n (more room_id id token cursor) (failed text) h s = ground arith

-- The answer is not to the last request sent.
abbrev pub is_late : ℕ → Option Request → Bool
is_late id none = true
is_late id (some r) = not (is_current id r)

module _ {D : Type 0} (n : ℕ) where
  -- The room is not loaded anew, and what is answered is not the last request.
  abbrev pub AreLate : List (Event D) → System D → Type 0
  AreLate [] s = Unit
  AreLate (reloads can_view room_id ∷ es) s = ⊥
  AreLate (answers index answer ∷ es) s =
      (is_late s.hook.request_id (get_elem? s.outstanding index) ≡ true)
      × AreLate es (step n (answers index answer) s)
  AreLate (e ∷ es) s = AreLate es (step n e s)

-- The last request has the id and is a page's, for which the flag and the spinner are set.
pub record IsPaging {D : Type 0} (id : ℕ) (s : System D) : Type 0 where
  pub sound : IsSound s
  pub asked : s.hook.request_id ≡ id
  pub in_flight : s.hook.load_more_in_flight ≡ true
  pub spins : s.hook.state.loading_more ≡ true

load_more-none :
    {D : Type 0} (can_view : Bool) (room_id : Text) (h : Hook D)
    → h.load_more_in_flight ≡ true
    → load_more can_view room_id h ≡ (h, none)
unfolding load_more
load_more-none can_view room_id h f = ground (arith, f)

-- An answer that is not to the last request leaves the whole hook alone.
deliver-late :
    {D : Type 0} (n : ℕ) (r : Request) (answer : Answer D) (h : Hook D)
    → h.request_id ≡ h.load_more_token
    → IsPaired r
    → is_current h.request_id r ≡ false
    → deliver n r answer h ≡ h
unfolding deliver initial_loaded initial_failed more_loaded more_failed end_load_more
deliver-late n (initial room_id id) (loaded info payload) h c p s = ground (arith, s)
deliver-late n (initial room_id id) (failed text) h c p s = ground (arith, s)
deliver-late n (more room_id id token cursor) (loaded info payload) h c p s =
    ground (arith, c, p, s)
deliver-late n (more room_id id token cursor) (failed text) h c p s = ground (arith, c, p, s)

module _ {D : Type 0} (n id : ℕ) where
  answer-hook :
      (found : Option Request) (index : ℕ) (answer : Answer D) (s : System D)
      → get_elem? s.outstanding index ≡ found
      → is_late s.hook.request_id found ≡ true
      → IsSound s
      → (deliver_at n found index answer s).hook ≡ s.hook
  answer-hook none index answer s g l h = refl
  answer-hook (some r) index answer s g l h =
      deliver-late n r answer s.hook h.counted
        (All-get_elem? IsPaired s.outstanding index r h.paired g) (ground (arith, l))

  answers-IsPaging :
      (index : ℕ) (answer : Answer D) (s : System D)
      → is_late s.hook.request_id (get_elem? s.outstanding index) ≡ true
      → IsPaging id s
      → IsPaging id (step n (answers index answer) s)
  unfolding step
  answers-IsPaging index answer s l h =
      let same = answer-hook (get_elem? s.outstanding index) index answer s refl l h.sound in
      record {
        sound = step-IsSound n (answers index answer) s h.sound;
        asked = ap (λ k. k.request_id) same ∙ h.asked;
        in_flight = ap (λ k. k.load_more_in_flight) same ∙ h.in_flight;
        spins = ap (λ k. k.state.loading_more) same ∙ h.spins;
      }

  asks-IsPaging :
      (can_view : Bool) (room_id : Text) (s : System D)
      → IsPaging id s
      → IsPaging id (step n (asks_more can_view room_id) s)
  unfolding step
  asks-IsPaging can_view room_id s h =
      subst (λ p. IsPaging id (sent s p)) (sym (load_more-none can_view room_id s.hook h.in_flight))
        h

  run-IsPaging :
      (es : List (Event D)) (s : System D)
      → AreLate n es s
      → IsPaging id s
      → IsPaging id (run n es s)
  unfolding run step set_messages set_error
  run-IsPaging [] s l h = h
  run-IsPaging (reloads can_view room_id ∷ es) s l h = absurd l
  run-IsPaging (asks_more can_view room_id ∷ es) s l h =
      run-IsPaging es (step n (asks_more can_view room_id) s) l (asks-IsPaging can_view room_id s h)
  run-IsPaging (answers index answer ∷ es) s l h =
      run-IsPaging es (step n (answers index answer) s) l.1 (answers-IsPaging index answer s l.0 h)
  run-IsPaging (edits updater ∷ es) s l h = run-IsPaging es (step n (edits updater) s) l (record {
    sound = step-IsSound n (edits updater) s h.sound;
    asked = h.asked;
    in_flight = h.in_flight;
    spins = h.spins;
  })
  run-IsPaging (reports error ∷ es) s l h = run-IsPaging es (step n (reports error) s) l (record {
    sound = step-IsSound n (reports error) s h.sound;
    asked = h.asked;
    in_flight = h.in_flight;
    spins = h.spins;
  })

load_more-starts :
    {D : Type 0} (can_view : Bool) (room_id : Text) (h : Hook D) (r : Request)
    → (load_more can_view room_id h).1 ≡ some r
    → ((load_more can_view room_id h).0.load_more_in_flight ≡ true)
      × ((load_more can_view room_id h).0.state.loading_more ≡ true)
unfolding load_more
load_more-starts can_view room_id h r e = (ground (arith, e), ground (arith, e))

sent-IsPaging :
    {D : Type 0} (p : Hook D × Option Request) (s : System D)
    → IsSound (sent s p)
    → p.0.load_more_in_flight ≡ true
    → p.0.state.loading_more ≡ true
    → IsPaging p.0.request_id (sent s p)
sent-IsPaging (h, none) s sound f l = record {
  sound = sound;
  asked = refl;
  in_flight = f;
  spins = l;
}
sent-IsPaging (h, some r) s sound f l = record {
  sound = sound;
  asked = refl;
  in_flight = f;
  spins = l;
}

sent-hook : {D : Type 0} (p : Hook D × Option Request) (s : System D) → (sent s p).hook ≡ p.0
sent-hook (h, none) s = refl
sent-hook (h, some r) s = refl

-- Once a page of older messages has been asked for, at any time after the mounting, then through any
-- further calls but a loading of the room anew, and through answers and failures of any requests but
-- this one, the spinner for older messages stays, and `loadMore` sends nothing.
pub load_more-sends :
    {D : Type 0} (n : ℕ) (mounted_room room_id other : Text) (can_view can_view' : Bool)
    (before es : List (Event D)) (r : Request)
    → let s = run n before (mounted mounted_room) in
      let asked = step n (asks_more can_view room_id) s in
      (load_more can_view room_id s.hook).1 ≡ some r
      → AreLate n es asked
      → let after = (run n es asked).hook in
        (after.load_more_in_flight ≡ true)
        × (after.state.loading_more ≡ true)
        × (after.request_id ≡ asked.hook.request_id)
        × ((load_more can_view' other after).1 ≡ none)
unfolding step
load_more-sends n mounted_room room_id other can_view can_view' before es r e l =
    let s = run n before (mounted mounted_room) in
    let call = load_more can_view room_id s.hook in
    let starts = load_more-starts can_view room_id s.hook r e in
    let sound = step-IsSound n (asks_more can_view room_id) s (run-IsSound n mounted_room before) in
    let kept =
      run-IsPaging n call.0.request_id es (sent s call) l
        (sent-IsPaging call s sound starts.0 starts.1) in
    (
      kept.in_flight,
      kept.spins,
      kept.asked ∙ sym (ap (λ h. h.request_id) (sent-hook call s)),
      ap (λ p. p.1) (load_more-none can_view' other (run n es (sent s call)).hook kept.in_flight),
    )
