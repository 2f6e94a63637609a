-- ===== src/Optimistic/Confirmed.antt =====
-- optimisticMessages.ts: the message that the server confirms, and the list after `reconcile`.
use django_channels_chat_rea.Common.{
  Text, text_eq, int_eq, truthy, Option, none, some, List, [], ◌∷◌, ◌++◌, Bool, true, false, not,
  ◌&&◌, ◌||◌, ◌==◌, ◌≡◌, refl, arith, eq_refl, any, any-append, any-and, filter, filter-append,
  Bool-cases, inl, inr,
}
use mathlib.Core.List.{append-nil}
use django_channels_chat_rea.Message.{Message}
use django_channels_chat_rea.Optimistic.{
  has_message, has_client_id, is_optimistic_message, confirmed, replace_all, append_new,
  reconcile_by, reconcile_optimistic_message,
}

module _ (c : Text) (s : Message) where
  replace_all-has_known :
      (ms : List Message)
      → has_message s.id ms ≡ true
      → has_message s.id (replace_all c s true ms) ≡ true
  unfolding replace_all
  replace_all-has_known [] h = h
  replace_all-has_known (m ∷ ms) h = ground (arith, eq_refl s.id, replace_all-has_known ms)

  replace_all-has_new :
      (ms : List Message)
      → any (has_client_id c) ms ≡ true
      → has_message s.id (replace_all c s false ms) ≡ true
  unfolding replace_all
  replace_all-has_new [] h = absurd (cc)
  replace_all-has_new (m ∷ ms) h = ground (arith, eq_refl s.id, replace_all-has_new ms)

  replace_all-has :
      (b : Bool) (ms : List Message)
      → has_message s.id ms ≡ b
      → any (has_client_id c) ms ≡ true
      → has_message s.id (replace_all c s b ms) ≡ true
  replace_all-has true ms h k = replace_all-has_known ms h
  replace_all-has false ms h k = replace_all-has_new ms k

  replace_all_absent :
      (b : Bool) (ms ys : List Message)
      → any (has_client_id c) ms ≡ false
      → replace_all c s b (ms ++ ys) ≡ ms ++ replace_all c s b ys
  unfolding replace_all
  replace_all_absent b [] ys h = refl
  replace_all_absent b (m ∷ ms) ys h = ground (arith, replace_all_absent b ms ys)

  replace_all-settled :
      (b : Bool) (ms : List Message)
      → has_client_id c s ≡ true
      → replace_all c s true (replace_all c s b ms) ≡ replace_all c s b ms
  unfolding replace_all
  replace_all-settled b [] h = refl
  replace_all-settled b (m ∷ ms) h = ground (arith, eq_refl s.id, replace_all-settled b ms h)

  replace_all-pending :
      (b : Bool) (ms : List Message)
      → any (λ m. has_client_id c m && is_optimistic_message m) (replace_all c s b ms) ≡ false
  unfolding replace_all
  replace_all-pending b [] = refl
  replace_all-pending b (m ∷ ms) = ground (arith, replace_all-pending b ms)

  -- Neither the client's message nor one with the server's id.
  abbrev pub is_other : Message → Bool
  is_other m = not (has_client_id c m) && not (m.id == s.id)

  replace_all-others :
      (b : Bool) (ms : List Message) → filter is_other (replace_all c s b ms) ≡ filter is_other ms
  unfolding replace_all
  replace_all-others b [] = refl
  replace_all-others b (m ∷ ms) = ground (arith, eq_refl s.id, replace_all-others b ms)

append_new-has : (ms : List Message) (s : Message) → has_message s.id (append_new ms s) ≡ true
unfolding append_new
append_new-has ms s =
    ground (arith, any-append (λ (m : Message). m.id == s.id) ms (s ∷ []), eq_refl s.id)

reconcile_by-has :
    (id : Option Text) (ms : List Message) (s : Message)
    → has_message s.id (reconcile_by id ms s) ≡ true
unfolding reconcile_by
reconcile_by-has none ms s = append_new-has ms s
reconcile_by-has (some c) ms s =
    ground (arith, append_new-has ms s, replace_all-has c s (has_message s.id ms) ms refl)

-- After a server message has come in, the list has a message with its id, on every branch.
pub reconcile_optimistic_message-has :
    (ms : List Message) (s : Message) → has_message s.id (reconcile_optimistic_message ms s) ≡ true
unfolding reconcile_optimistic_message
reconcile_optimistic_message-has ms s = reconcile_by-has s.client_message_id ms s

append_new-pending :
    (c : Text) (ms : List Message) (s : Message)
    → any (has_client_id c) ms ≡ false
    → s.delivery_status ≡ none
    → any (λ m. has_client_id c m && is_optimistic_message m) (append_new ms s) ≡ false
unfolding append_new
append_new-pending c ms s h d =
    let gone = λ (m : Message). has_client_id c m && is_optimistic_message m in
    ground
      (arith, any-and (has_client_id c) is_optimistic_message ms h, any-append gone ms (s ∷ []))

-- If a message of the server, which is not marked as pending, names a client id that is not
-- empty, then nothing that the client sent under that id is pending once it has come in.
pub reconcile_optimistic_message-pending :
    (c : Text) (ms : List Message) (s : Message)
    → truthy c ≡ true
    → s.client_message_id ≡ some c
    → s.delivery_status ≡ none
    → any (λ m. has_client_id c m && is_optimistic_message m) (reconcile_optimistic_message ms s)
      ≡ false
unfolding reconcile_optimistic_message reconcile_by
reconcile_optimistic_message-pending c ms s t h d =
    ground (arith, append_new-pending c ms s, replace_all-pending c s (has_message s.id ms) ms)

append_new-settled :
    (ms : List Message) (s : Message) → append_new (append_new ms s) s ≡ append_new ms s
unfolding append_new
append_new-settled ms s =
    ground (arith, any-append (λ (m : Message). m.id == s.id) ms (s ∷ []), eq_refl s.id)

confirmed_lem : (s : Message) → s.delivery_status ≡ none → confirmed s ≡ s
confirmed_lem s d = ground arith

replaced_twice :
    (c : Text) (ms : List Message) (s : Message)
    → s.client_message_id ≡ some c
    → (truthy c && any (has_client_id c) ms) ≡ true
    → reconcile_by (some c) (replace_all c s (has_message s.id ms) ms) s
      ≡ replace_all c s (has_message s.id ms) ms
unfolding reconcile_by append_new
replaced_twice c ms s h here = ground (
  arith,
  eq_refl c,
  replace_all-has c s (has_message s.id ms) ms refl,
  replace_all-settled c s (has_message s.id ms) ms,
)

appended_twice :
    (c : Text) (ms : List Message) (s : Message)
    → s.client_message_id ≡ some c
    → s.delivery_status ≡ none
    → (truthy c && any (has_client_id c) ms) ≡ false
    → reconcile_by (some c) (append_new ms s) s ≡ append_new ms s
unfolding reconcile_by append_new
appended_twice c ms s h d away = ground (
  arith,
  eq_refl c,
  eq_refl s.id,
  any-append (λ (m : Message). m.id == s.id) ms (s ∷ []),
  any-append (has_client_id c) ms (s ∷ []),
  replace_all_absent c s true ms (s ∷ []),
  confirmed_lem s d,
)

reconcile_by_idem :
    (id : Option Text) (ms : List Message) (s : Message)
    → s.client_message_id ≡ id
    → s.delivery_status ≡ none
    → reconcile_by id (reconcile_by id ms s) s ≡ reconcile_by id ms s
unfolding reconcile_by
reconcile_by_idem none ms s h d = append_new-settled ms s
reconcile_by_idem (some c) ms s h d = elim (Bool-cases (truthy c && any (has_client_id c) ms)) [
  | inl here ↦ simp here (replaced_twice c ms s h here)
  | inr away ↦ simp away (appended_twice c ms s h d away)
]

-- A message of the server, which is not marked as pending, may come in again: the second time
-- changes nothing.
pub reconcile_optimistic_message_idem :
    (ms : List Message) (s : Message)
    → s.delivery_status ≡ none
    → reconcile_optimistic_message (reconcile_optimistic_message ms s) s
      ≡ reconcile_optimistic_message ms s
unfolding reconcile_optimistic_message
reconcile_optimistic_message_idem ms s d = reconcile_by_idem s.client_message_id ms s refl d

append_new-others :
    (p : Message → Bool) (ms : List Message) (s : Message)
    → p s ≡ false
    → filter p (append_new ms s) ≡ filter p ms
unfolding append_new
append_new-others p ms s h = ground (arith, filter-append p ms (s ∷ []), append-nil (filter p ms))

abbrev names_client : Option Text → Message → Bool
names_client none m = false
names_client (some c) m = truthy c && has_client_id c m

-- The message has the server's id, or the client id that the server confirms.
abbrev pub concerns : Message → Message → Bool
concerns s m = m.id == s.id || names_client s.client_message_id m

replace_all-unconcerned :
    (c : Text) (s : Message) (b : Bool) (ms : List Message)
    → s.client_message_id ≡ some c
    → truthy c ≡ true
    → filter (λ m. not (concerns s m)) (replace_all c s b ms) ≡ filter (λ m. not (concerns s m)) ms
unfolding replace_all
replace_all-unconcerned c s b [] h t = refl
replace_all-unconcerned c s b (m ∷ ms) h t =
    ground (arith, eq_refl s.id, replace_all-unconcerned c s b ms h t)

reconcile_by-others :
    (id : Option Text) (ms : List Message) (s : Message)
    → s.client_message_id ≡ id
    → filter (λ m. not (concerns s m)) (reconcile_by id ms s) ≡ filter (λ m. not (concerns s m)) ms
unfolding reconcile_by
reconcile_by-others none ms s h =
    ground (arith, eq_refl s.id, append_new-others (λ m. not (concerns s m)) ms s)
reconcile_by-others (some c) ms s h = ground (
  arith,
  eq_refl s.id,
  append_new-others (λ m. not (concerns s m)) ms s,
  replace_all-unconcerned c s (has_message s.id ms) ms h,
)

-- All messages that have neither the id nor the client id of the message of the server stay, in
-- their order.
pub reconcile_optimistic_message-others :
    (ms : List Message) (s : Message)
    → filter (λ m. not (concerns s m)) (reconcile_optimistic_message ms s)
      ≡ filter (λ m. not (concerns s m)) ms
unfolding reconcile_optimistic_message
reconcile_optimistic_message-others ms s = reconcile_by-others s.client_message_id ms s refl
