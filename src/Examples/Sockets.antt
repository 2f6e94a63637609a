-- ===== src/Examples/Sockets.antt =====
-- useReconnectingWebSocket.ts at work: two retries at most, from half a second up to five.
use django_channels_chat_rea.Common.{some, List, [], ◌∷◌, Bool, true, false, ◌≡◌, refl, arith}
use django_channels_chat_rea.Socket.{
  Hook, Options, initial, error, closed, lost, reconnect_limit, handle_error, handle_close,
  handle_offline, connect, mark_lost, publish_connection_notice,
}
use django_channels_chat_rea.Socket.Events.{
  Event, opens, errors, closes, reconnects, retry_fires, startup_fires, goes_offline, starts,
  is_set, step, run,
}
use django_channels_chat_rea.Socket.Invariant.{IsSteady, run-IsSteady}
use django_channels_chat_rea.Socket.Notices.{IsAnnounced, loss_told_once}
use django_channels_chat_rea.Socket.Retries.{refuse_all, refuse_all_then_stop}

abbrev options : Options
options = record { has_url = true; max_retries = 2; base_delay_ms = 500; max_delay_ms = 5000 }

abbrev events : List (Bool × Event)
events =
    (true, starts)
    ∷ (true, startup_fires true)
    ∷ (true, opens 1)
    ∷ (true, closes 1 true 7)
    ∷ (true, retry_fires true)
    ∷ (true, opens 2)
    ∷ (true, goes_offline)
    ∷ []

run-IsSteady_example : IsSteady options (run options events initial)
run-IsSteady_example =
    run-IsSteady options events (tt, (tt, (tt, (omega arith, (tt, (tt, (tt, tt)))))))

-- A connection that was lost for the first time, with a retry on the clock.
abbrev hook : Hook
hook = record initial {
  status = closed;
  connection_notice = some (record { id = 1; type = lost; message = "" });
  socket = some (record { number = 1; is_open = false });
  created = 1;
  attempt = 1;
  retry_timer = some 507;
  startup_timer = false;
  active = true;
  has_opened = true;
  reconnecting_after_open = true;
  notice_type = some lost;
  notice_id = 1;
}

refuse_all_then_stop_example :
    (is_set (refuse_all options (7 ∷ []) hook).retry_timer ≡ true)
    × ((refuse_all options (7 ∷ []) hook).attempt ≡ options.max_retries)
    × ((refuse_all options (9 ∷ []) (refuse_all options (7 ∷ []) hook)).status ≡ error)
    × ((refuse_all options (9 ∷ []) (refuse_all options (7 ∷ []) hook)).last_error
        ≡ some reconnect_limit)
    × (step options
          (retry_fires true)
          (refuse_all options (9 ∷ []) (refuse_all options (7 ∷ []) hook))
        ≡ refuse_all options (9 ∷ []) (refuse_all options (7 ∷ []) hook))
refuse_all_then_stop_example =
    refuse_all_then_stop options (7 ∷ []) 9 hook true
      (record { has_url = refl; active = refl; retry_set = refl }) refl

-- The socket closes again, the browser goes offline, a retry finds it offline, and the next socket fails.
abbrev failures : List (Bool × Event)
failures =
    (true, errors 1)
    ∷ (true, closes 1 true 7)
    ∷ (true, goes_offline)
    ∷ (true, reconnects false)
    ∷ (true, reconnects true)
    ∷ (true, closes 2 false 9)
    ∷ []

loss_told_once_example : IsAnnounced 1 hook.connection_notice (run options failures hook)
unfolding step handle_error handle_close handle_offline connect mark_lost publish_connection_notice
loss_told_once_example =
    loss_told_once options 1 hook.connection_notice failures hook
      (refl, tt, (refl, refl, (refl, tt, (refl, tt, (refl, tt, (refl, refl, tt))))))
      (record {
        told = refl;
        pending = refl;
        opened = refl;
        untimed = refl;
        same_id = refl;
        same_notice = refl;
      })
