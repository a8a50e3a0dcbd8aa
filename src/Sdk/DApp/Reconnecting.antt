-- ===== src/Sdk/DApp/Reconnecting.antt =====
-- dapp-session.ts: automatic reconnection, the lifetime of a session and its heartbeat.
use walletpair.Common.{
  ℕ, ◌+◌, ◌-◌, String, Bool, true, false, ◌&&◌, ◌||◌, Option, none, some, ltb, leb, ◌==◌,
  if◌then◌else◌,
}
use walletpair.Sdk.Types.{connected, disconnected, closed}
use walletpair.Sdk.DApp.State.{
  Crypto, Options, Session, Payload, ping, connects, disconnects, reconnect_exhausted, logged, emit,
  set_phase, same_phase, stop_heartbeat, clear_persistence, send_raw,
}
use walletpair.Sdk.DApp.Closing.{
  reject_all_pending, stop_reconnect, clear_pending_accept_timer, can_reconnect,
}

module _ (o : Options) where
  unfoldable pub is_exhausted : ℕ → Session → Bool
  is_exhausted now s =
      (ltb 0 o.max_reconnect_attempts && leb o.max_reconnect_attempts s.reconnect_attempt)
      || (ltb 0 o.max_reconnect_duration_ms
          && ltb 0 s.reconnect_started_at
          && leb (s.reconnect_started_at + o.max_reconnect_duration_ms) now)

  unfoldable pub give_up_reconnect : Session → Session
  unfolding stop_reconnect reject_all_pending clear_persistence set_phase
  give_up_reconnect s =
      let s' = record (stop_reconnect s) { reconnecting = false } in
      let s'' = clear_persistence o (
        reject_all_pending "Reconnect failed: exhausted reconnect attempts"
          (emit (logged "reconnect_failed" (some "reconnect_exhausted") false) s')) in
      set_phase closed
        (emit (reconnect_exhausted s.reconnect_attempt) (record s'' { intentional_close = true }))

  -- The delay of the timer, which no decision depends on, is left out.
  unfoldable pub schedule_reconnect : ℕ → Session → Session
  unfolding is_exhausted give_up_reconnect stop_reconnect
  schedule_reconnect now s =
      let s' : Session = record s {
        reconnect_started_at = if s.reconnect_started_at == 0 then now else s.reconnect_started_at;
      } in
      if s.intentional_close || same_phase s.phase closed
      then s
      else if is_exhausted now s'
      then give_up_reconnect s'
      else record (stop_reconnect s') { reconnect_timer = true }

  unfoldable pub start_reconnect : ℕ → Session → Session
  unfolding clear_pending_accept_timer set_phase schedule_reconnect
  start_reconnect now s =
      let s' =
        set_phase disconnected (clear_pending_accept_timer (record s { reconnecting = true })) in
      schedule_reconnect now (
        if s.reconnecting
        then s'
        else record s' { reconnect_attempt = 0; reconnect_started_at = 0 })

  -- With the reason that the transport gives.
  unfoldable pub handle_transport_close : ℕ → Option String → Session → Session
  unfolding can_reconnect start_reconnect
  handle_transport_close now reason s =
      let s' = emit (logged "transport_close" reason (can_reconnect s)) s in
      if can_reconnect s then start_reconnect now s' else s'

  -- doReconnectAttempt, up to the end of `await connect()`, then what follows it.
  unfoldable pub begin_attempt : Session → Session
  begin_attempt s = if s.intentional_close || same_phase s.phase closed then s else emit connects s

  unfoldable pub attempt_failed : ℕ → Session → Session
  unfolding can_reconnect schedule_reconnect
  attempt_failed now s =
      schedule_reconnect now (emit (logged "reconnect_failed" none (can_reconnect s)) s)

  -- The callback of the reconnect timer.
  unfoldable pub reconnect_timer_fires : Session → Session
  unfolding begin_attempt
  reconnect_timer_fires s =
      let s' = begin_attempt s in record s' { reconnect_attempt = s'.reconnect_attempt + 1 }

  unfoldable pub reconnect : Session → Session
  unfolding stop_reconnect set_phase begin_attempt
  reconnect s =
      let s' = set_phase disconnected (stop_reconnect (record s { intentional_close = false })) in
      begin_attempt (record s' { reconnect_attempt = 0 })

  unfoldable pub start_heartbeat : Session → Session
  unfolding stop_heartbeat
  start_heartbeat s =
      if o.heartbeat_interval == 0
      then stop_heartbeat s
      else record (stop_heartbeat s) { heartbeat_timer = true }

  unfoldable pub liveness_timer_fires : ℕ → Session → Session
  unfolding can_reconnect handle_transport_close
  liveness_timer_fires now s =
      let s' : Session = record s { liveness_timer = false } in
      handle_transport_close now (some "heartbeat_timeout") (
        emit disconnects
          (emit (logged "transport_close" (some "heartbeat_timeout") (can_reconnect s')) s'))

  -- `remaining` is the rest of the lifetime, and not below 0.
  unfoldable pub start_session_ttl : ℕ → Session → Session
  start_session_ttl now s =
      let start : ℕ = elim s.session_start_time [ none ↦ now | some t ↦ t ] in
      record s {
        session_start_time = some start;
        session_ttl_timer = some ((o.session_ttl + start) - now);
      }

module _ (k : Crypto) where
  unfoldable pub attempt_succeeded : Session → Session
  unfolding send_raw
  attempt_succeeded s = send_raw k Payload.create s

  unfoldable pub heartbeat_tick : Session → Session
  unfolding send_raw
  heartbeat_tick s =
      if same_phase s.phase connected
      then record (send_raw k ping s) { liveness_timer = true }
      else s
