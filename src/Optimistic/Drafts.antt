-- ===== src/Optimistic/Drafts.antt =====
-- optimisticMessages.ts: the life of a draft, from its sending to its confirmation or refusal.
use django_channels_chat_rea.Common.{
  Text, text_eq, int_eq, truthy, Option, none, some, List, [], ◌∷◌, ◌++◌, true, false, not, ◌&&◌,
  ◌≡◌, refl, arith, eq_refl, any, any-append, filter,
}
use django_channels_chat_rea.Message.{Message}
use django_channels_chat_rea.Optimistic.{
  Draft, create_optimistic_text_message, remove_optimistic_message, has_client_id,
  is_optimistic_message, has_message, replace_all, reconcile_by, reconcile_optimistic_message,
}

filter_drafted :
    (c : Text) (m : Message) (ms : List Message)
    → any (has_client_id c) ms ≡ false
    → has_client_id c m ≡ true
    → is_optimistic_message m ≡ true
    → filter (λ x. not (has_client_id c x && is_optimistic_message x)) (ms ++ m ∷ []) ≡ ms
filter_drafted c m [] h k o = ground arith
filter_drafted c m (x ∷ ms) h k o = ground (arith, filter_drafted c m ms)

-- A refused draft leaves no trace: if its client id is not empty and no message has it, sending
-- and then removing gives the list before.
pub remove-create :
    (ms : List Message) (d : Draft)
    → truthy d.client_message_id ≡ true
    → any (has_client_id d.client_message_id) ms ≡ false
    → remove_optimistic_message
        (ms ++ create_optimistic_text_message d ∷ [])
        (some d.client_message_id)
      ≡ ms
unfolding remove_optimistic_message create_optimistic_text_message
remove-create ms d t h = ground (
  arith,
  eq_refl d.client_message_id,
  filter_drafted d.client_message_id (create_optimistic_text_message d) ms,
)

replace_drafted :
    (c : Text) (s m : Message) (ms : List Message)
    → any (has_client_id c) ms ≡ false
    → has_client_id c m ≡ true
    → s.delivery_status ≡ none
    → replace_all c s false (ms ++ m ∷ []) ≡ ms ++ s ∷ []
unfolding replace_all
replace_drafted c s m [] h k n = ground arith
replace_drafted c s m (x ∷ ms) h k n = ground (arith, replace_drafted c s m ms)

-- A draft is replaced where it stands: if its client id is not empty and no message has it, and
-- the message of the server names it, is not marked as pending and has an id that is new, the
-- list is the one before the sending with the message of the server behind it, as if the draft
-- had never been shown.
pub reconcile-create :
    (ms : List Message) (d : Draft) (s : Message)
    → truthy d.client_message_id ≡ true
    → any (has_client_id d.client_message_id) ms ≡ false
    → has_message s.id (ms ++ create_optimistic_text_message d ∷ []) ≡ false
    → s.client_message_id ≡ some d.client_message_id
    → s.delivery_status ≡ none
    → reconcile_optimistic_message (ms ++ create_optimistic_text_message d ∷ []) s ≡ ms ++ s ∷ []
unfolding reconcile_optimistic_message reconcile_by create_optimistic_text_message
reconcile-create ms d s t h fresh k n =
    let c = d.client_message_id in
    let m = create_optimistic_text_message d in
    ground (arith, eq_refl c, any-append (has_client_id c) ms (m ∷ []), replace_drafted c s m ms)

-- A refusal concerns drafts only: what has been confirmed stays, in its order.
pub remove_optimistic_message-confirmed :
    (ms : List Message) (id : Option Text)
    → filter (λ m. not (is_optimistic_message m)) (remove_optimistic_message ms id)
      ≡ filter (λ m. not (is_optimistic_message m)) ms
unfolding remove_optimistic_message
remove_optimistic_message-confirmed ms none = refl
remove_optimistic_message-confirmed [] (some c) = ground arith
remove_optimistic_message-confirmed (m ∷ ms) (some c) =
    ground (arith, remove_optimistic_message-confirmed ms (some c))
