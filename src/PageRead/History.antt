-- ===== src/PageRead/History.antt =====
-- useChatRoomPageReadState.ts: loading back to a message. `at n` is what the refs hold once the loop has
-- waited n times; the messages are there by their ids.
use django_channels_chat_rea.Common.{
  ℕ, zero, suc, ◌+◌, leb, ℤ, int_eq, Option, none, some, List, Bool, true, false, not, ◌||◌, ◌==◌,
  any, head?, if◌then◌else◌,
}

pub record History : Type 0 where
  pub message_ids : List ℤ
  pub has_more : Bool
  pub loading_more : Bool

abbrev pub max_history_jump_attempts : ℕ
max_history_jump_attempts = 60

abbrev pub max_history_no_progress_attempts : ℕ
max_history_no_progress_attempts = 2

abbrev pub is_loaded : ℤ → History → Bool
is_loaded message_id history = any (λ id. id == message_id) history.message_ids

abbrev pub same_oldest : Option ℤ → Option ℤ → Bool
same_oldest none none = true
same_oldest (some a) (some b) = a == b
same_oldest _ _ = false

-- What the loop leaves: how often it has waited, and how often it has called `loadMore`.
pub record Search : Type 0 where
  pub attempts : ℕ
  pub loads : ℕ

module _ (message_id : ℤ) (at : ℕ → History) where
  -- The loop of `ensureMessageLoaded`; `left` is how many attempts there are yet.
  unfoldable pub look_back : (left attempts loads no_progress : ℕ) → Option ℤ → Search
  look_back zero attempts loads no_progress previous = record { attempts = attempts; loads = loads }
  look_back (suc left) attempts loads no_progress previous =
      let history = at attempts in
      let oldest = head? (at (suc attempts)).message_ids in
      let loaded = if history.loading_more then loads else loads + 1 in
      let stuck = same_oldest oldest previous in
      let stalled = look_back left (suc attempts) loaded (no_progress + 1) previous in
      let moved = look_back left (suc attempts) loaded 0 oldest in
      if is_loaded message_id history || not history.has_more
      then record { attempts = attempts; loads = loads }
      else if not stuck
      then moved
      else if leb max_history_no_progress_attempts (no_progress + 1)
      then record { attempts = suc attempts; loads = loaded }
      else stalled

  unfoldable pub search : Search
  unfolding look_back
  search = look_back max_history_jump_attempts 0 0 0 (head? (at 0).message_ids)

  unfoldable pub ensure_message_loaded : Bool
  unfolding search
  ensure_message_loaded = is_loaded message_id (at search.attempts)
