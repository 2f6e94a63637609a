-- ===== src/ReadTracker.antt =====
-- frontend/src/shared/chat/readTracker.ts: how far the reader has got in a room, from the articles
-- that stand in the viewport. `lower` is `String.prototype.toLowerCase`.

pub mod Advance
pub mod Unread
pub mod Session
use django_channels_chat_rea.Common.{
  ℕ, suc, ◌+◌, max, ℤ, pos, pos_part, neg_part, leb, leb_ℤ, Text, Option, none, some, List, [], ◌∷◌,
  Bool, true, false, not, any, ◌==◌, text_eq, truthy, lookup, insert, if◌then◌else◌,
}
use django_channels_chat_rea.Message.{Message}
use django_channels_chat_rea.Number.{
  Number, not_finite, finite, of_ℕ, is_below_one, is_id, normalize_last_read_message_id,
}
use django_channels_chat_rea.ActorRef.{normalize_actor_ref}

-- An `article[data-message-id]`: `Number` of its attribute, or `none` where that is missing or
-- empty, and the lower edge of its box in half pixels.
pub record Article : Type 0 where
  pub message_id : Option Number
  pub bottom : ℤ

-- The list element: its own lower edge, and its articles.
pub record Viewport : Type 0 where
  pub bottom : ℤ
  pub articles : List Article

pub record UnreadStats : Type 0 where
  pub first_unread_message_id : Option ℤ
  pub unread_count : ℕ

-- `bottom <= viewportBottom + 0.5`.
abbrev is_above_edge : ℤ → ℤ → Bool
is_above_edge bottom edge =
    leb (pos_part bottom + neg_part edge) (pos_part edge + neg_part bottom + 1)

visible_id : ℤ → Option Number → ℤ → List Number → List Number
visible_id edge none bottom ids = ids
visible_id edge (some not_finite) bottom ids = ids
visible_id edge (some (finite negative whole fraction)) bottom ids =
    if is_below_one negative whole
    then ids
    else if is_above_edge bottom edge
    then finite negative whole fraction ∷ ids
    else ids

unfoldable pub collect_visible_message_ids_by_bottom_edge : ℤ → List Article → List Number
unfolding visible_id
collect_visible_message_ids_by_bottom_edge edge [] = []
collect_visible_message_ids_by_bottom_edge edge (node ∷ nodes) =
    visible_id edge node.message_id node.bottom
      (collect_visible_message_ids_by_bottom_edge edge nodes)

-- `visibleMessageIds.has(id)`.
abbrev pub has_id : ℤ → List Number → Bool
has_id id = any (is_id id)

module _ (lower : Text → Text) where
  unfoldable pub is_foreign_message : Message → Option Text → Bool
  is_foreign_message message none = true
  is_foreign_message message (some ref) =
      if truthy ref
      then not (
          normalize_actor_ref lower (some message.public_ref)
          == normalize_actor_ref lower (some ref))
      else true

  module _ (current_actor_ref : Option Text) where
    -- One round of the loop of `computeNextLastReadMessageId`. An id above `next` is positive, so
    -- its positive part is the id.
    unfoldable pub advance : List Number → ℕ → Message → ℕ
    advance visible next message =
        if leb_ℤ message.id (pos next)
        then next
        else if not (is_foreign_message message current_actor_ref)
        then next
        else if not (has_id message.id visible)
        then next
        else pos_part message.id

    unfoldable pub advance_all : List Number → ℕ → List Message → ℕ
    unfolding advance
    advance_all visible next [] = next
    advance_all visible next (message ∷ messages) =
        advance_all visible (advance visible next message) messages

    unfoldable pub compute_next_last_read_message_id : List Message → Number → List Number → ℕ
    unfolding advance_all normalize_last_read_message_id
    compute_next_last_read_message_id messages previous visible =
        advance_all visible (normalize_last_read_message_id (some previous)) messages

    abbrev or_else : Option ℤ → ℤ → Option ℤ
    or_else none id = some id
    or_else (some first) id = some first

    -- One round of the loop of `computeUnreadStats`.
    unfoldable pub count_message : ℕ → UnreadStats → Message → UnreadStats
    count_message last_read stats message =
        if leb_ℤ message.id (pos last_read)
        then stats
        else if not (is_foreign_message message current_actor_ref)
        then stats
        else record {
          first_unread_message_id = or_else stats.first_unread_message_id message.id;
          unread_count = stats.unread_count + 1;
        }

    unfoldable pub count_all : ℕ → UnreadStats → List Message → UnreadStats
    unfolding count_message
    count_all last_read stats [] = stats
    count_all last_read stats (message ∷ messages) =
        count_all last_read (count_message last_read stats message) messages

    unfoldable pub compute_unread_stats : List Message → Number → UnreadStats
    unfolding count_all normalize_last_read_message_id
    compute_unread_stats messages last_read =
        count_all (normalize_last_read_message_id (some last_read))
          (record { first_unread_message_id = none; unread_count = 0 }) messages

-- The hook's arguments beside the messages, and its state `progressByKey`.
pub record Tracker : Type 0 where
  pub messages : List Message
  pub current_actor_ref : Option Text
  pub server_last_read_message_id : Option Number
  pub enabled : Bool
  pub reset_key : Text
  pub progress_by_key : List (Text × Number)

unfoldable pub local_last_read_message_id : Tracker → ℕ
unfolding normalize_last_read_message_id
local_last_read_message_id t =
    max (normalize_last_read_message_id t.server_last_read_message_id)
      (normalize_last_read_message_id (lookup t.reset_key t.progress_by_key))

-- The updater given to `setProgressByKey`.
unfoldable pub store_progress : Text → ℕ → List (Text × Number) → List (Text × Number)
unfolding normalize_last_read_message_id
store_progress key next prev =
    if leb next (normalize_last_read_message_id (lookup key prev))
    then prev
    else insert key (of_ℕ next) prev

module _ (lower : Text → Text) where
  abbrev next_in_view : Tracker → Viewport → ℕ
  next_in_view t list =
      compute_next_last_read_message_id lower t.current_actor_ref t.messages
        (of_ℕ (local_last_read_message_id t))
        (collect_visible_message_ids_by_bottom_edge list.bottom list.articles)

  read_to : Tracker → ℕ → Tracker × ℕ
  read_to t next =
      if leb next (local_last_read_message_id t)
      then (t, local_last_read_message_id t)
      else (record t { progress_by_key = store_progress t.reset_key next t.progress_by_key }, next)

  read_articles : Tracker → ℤ → List Article → Tracker × ℕ
  read_articles t bottom [] = (t, local_last_read_message_id t)
  read_articles t bottom (node ∷ nodes) =
      read_to t (next_in_view t (record { bottom = bottom; articles = node ∷ nodes }))

  -- `applyViewportRead`: the tracker after the state update, and the value returned.
  unfoldable pub apply_viewport_read : Tracker → Option Viewport → Tracker × ℕ
  unfolding read_articles read_to
  apply_viewport_read t none = (t, local_last_read_message_id t)
  apply_viewport_read t (some list) =
      if not t.enabled
      then (t, local_last_read_message_id t)
      else read_articles t list.bottom list.articles

  -- `unreadStats`: what the hook returns for the badge and the divider.
  unfoldable pub unread_stats : Tracker → UnreadStats
  unread_stats t =
      compute_unread_stats lower t.current_actor_ref t.messages
        (of_ℕ (local_last_read_message_id t))
