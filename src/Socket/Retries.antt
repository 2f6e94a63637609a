-- ===== src/Socket/Retries.antt =====
-- useReconnectingWebSocket.ts: how long and how often a lost connection is tried again.
use native.Mathlib.Nat.{pow-suc}
use django_channels_chat_rea.Common.{
  ℕ, suc, ◌+◌, ◌≤◌, ◌<◌, none, some, List, [], ◌∷◌, Bool, true, ◌≡◌, arith, length, nat_eq,
}
use django_channels_chat_rea.Socket.{
  Hook, Options, error, reconnect_limit, retry_delay, connect, handle_close,
}
use django_channels_chat_rea.Socket.Events.{closes, retry_fires, step, is_set}

-- The retry timer fires, and the connection that it makes is refused.
refuse : Options → ℕ → Hook → Hook
refuse o jitter h = step o (closes h.created true jitter) (step o (retry_fires true) h)

-- One refusal after the other, each with its jitter.
pub refuse_all : Options → List ℕ → Hook → Hook
unfolding refuse
refuse_all o [] h = h
refuse_all o (jitter ∷ jitters) h = refuse_all o jitters (refuse o jitter h)

pub record IsRetrying (o : Options) (h : Hook) : Type 0 where
  pub has_url : o.has_url ≡ true
  pub active : h.active ≡ true
  pub retry_set : is_set h.retry_timer ≡ true

-- While attempts are left, a refusal schedules the next one.
refuse-IsRetrying :
    (o : Options) (jitter : ℕ) (h : Hook)
    → IsRetrying o h
    → h.attempt < o.max_retries
    → IsRetrying o (refuse o jitter h)
      × ((refuse o jitter h).attempt ≡ h.attempt + 1)
      × ((refuse o jitter h).retry_timer ≡ some (retry_delay o h.attempt jitter))
unfolding refuse step connect handle_close
refuse-IsRetrying o jitter h r l = ground arith

-- With none left, it is the end.
refuse_last :
    (o : Options) (jitter : ℕ) (h : Hook)
    → IsRetrying o h
    → h.attempt ≡ o.max_retries
    → let after = refuse o jitter h in
      (after.status ≡ error)
      × (after.last_error ≡ some reconnect_limit)
      × (after.retry_timer ≡ none)
unfolding refuse step connect handle_close
refuse_last o jitter h r l = ground arith

refuse_all-attempt :
    (o : Options) (jitters : List ℕ) (h : Hook)
    → IsRetrying o h
    → h.attempt + length jitters ≤ o.max_retries
    → IsRetrying o (refuse_all o jitters h)
      × ((refuse_all o jitters h).attempt ≡ h.attempt + length jitters)
unfolding refuse_all
refuse_all-attempt o [] h r l = (r, omega arith)
refuse_all-attempt o (jitter ∷ jitters) h r l =
    let (r', counted, _) = refuse-IsRetrying o jitter h r (omega arith) in
    let (again, total) = refuse_all-attempt o jitters (refuse o jitter h) r' (omega arith) in
    (again, omega arith)

-- If a retry is on the clock, as many connections as there are attempts left are refused and then
-- one more, then the hook has tried until the limit and no longer: the status is "error", the
-- error is the limit's, and the firing of a retry timer changes nothing any more.
pub refuse_all_then_stop :
    (o : Options) (jitters : List ℕ) (last : ℕ) (h : Hook) (is_online : Bool)
    → IsRetrying o h
    → h.attempt + length jitters ≡ o.max_retries
    → let before = refuse_all o jitters h in
      let after = refuse_all o (last ∷ []) before in
      (is_set before.retry_timer ≡ true)
      × (before.attempt ≡ o.max_retries)
      × (after.status ≡ error)
      × (after.last_error ≡ some reconnect_limit)
      × (step o (retry_fires is_online) after ≡ after)
unfolding refuse_all step
refuse_all_then_stop o jitters last h is_online r l =
    let (again, total) = refuse_all-attempt o jitters h r (omega arith) in
    let (s, f, t) = refuse_last o last (refuse_all o jitters h) again (omega arith) in
    (again.retry_set, omega arith, s, f, rw t)

-- The wait doubles with every attempt up to the greatest delay: for the same jitter it
-- never falls from one attempt to the next, and it is at most that delay and the jitter.
pub retry_delay_bounds :
    (o : Options) (n jitter : ℕ)
    → (retry_delay o n jitter ≤ o.max_delay_ms + jitter)
      × (retry_delay o n jitter ≤ retry_delay o (suc n) jitter)
unfolding retry_delay
retry_delay_bounds o n jitter = (omega arith, rw (pow-suc 2 n) (omega arith))
