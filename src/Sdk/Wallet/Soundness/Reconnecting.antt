-- ===== src/Sdk/Wallet/Soundness/Reconnecting.antt =====
-- Soundness and reconnection, the lifetime of a session and its heartbeat.
use walletpair.Common.{
  ℕ, String, true, false, ◌||◌, Option, none, some, ◌≡◌, refl, arith, ◌==◌, ltb, if◌then◌else◌,
  Bool-cases, inl, inr,
}
use walletpair.Sdk.Wallet.State.{
  Crypto, Options, Session, join, ping, waiting_accept, connected, closed, disconnected,
  disconnects, connects, logged, emit, set_phase, same_phase, send_raw, persist_snapshot,
  stop_heartbeat,
}
use walletpair.Sdk.Wallet.Closing.{stop_reconnect, clear_requests, can_reconnect}
use walletpair.Sdk.Wallet.Reconnecting.{
  is_exhausted, give_up_reconnect, schedule_reconnect, start_reconnect, handle_transport_close,
  begin_attempt, attempt_failed, reconnect_timer_fires, reconnect, start_heartbeat,
  liveness_timer_fires, start_session_ttl, sealed_join, send_join, transport_connected, send_ping,
  heartbeat_tick,
}
use walletpair.Sdk.Wallet.Soundness.{
  Sound, if-Sound, set_phase-Sound, send_raw-Sound, clear_requests-Sound, persist_snapshot-Sound,
  clear_persistence-Sound,
}

module _ {n : ℕ} {m : Option ℕ} (o : Options) where
  give_up_reconnect-Sound : (s : Session) → Sound n m s → Sound n m (give_up_reconnect o s)
  unfolding give_up_reconnect stop_reconnect
  give_up_reconnect-Sound s v =
      let s' : Session =
        emit (logged "reconnect_failed" (some "reconnect_exhausted") false)
          (record (stop_reconnect s) { reconnecting = false }) in
      set_phase-Sound closed _
        (clear_persistence-Sound o (clear_requests s') (clear_requests-Sound s' v))

  schedule_reconnect-Sound :
      (now : ℕ) (s : Session) → Sound n m s → Sound n m (schedule_reconnect o now s)
  unfolding schedule_reconnect stop_reconnect
  schedule_reconnect-Sound now s v =
      let s' : Session = record s {
        reconnect_started_at = if s.reconnect_started_at == 0 then now else s.reconnect_started_at;
      } in
      let waits : Session = record (stop_reconnect s') { reconnect_timer = true } in
      if-Sound (s.intentional_close || same_phase s.phase closed) s
        (if is_exhausted o now s' then give_up_reconnect o s' else waits) v
        (if-Sound (is_exhausted o now s') (give_up_reconnect o s') waits
          (give_up_reconnect-Sound s' v) v)

  pub start_reconnect-Sound :
      (now : ℕ) (s : Session) → Sound n m s → Sound n m (start_reconnect o now s)
  unfolding start_reconnect
  start_reconnect-Sound now s v =
      let s' : Session = set_phase disconnected (record s { reconnecting = true }) in
      let first : Session = record s' { reconnect_attempt = 0; reconnect_started_at = 0 } in
      let w : Sound n m s' = set_phase-Sound disconnected (record s { reconnecting = true }) v in
      schedule_reconnect-Sound now (if s.reconnecting then s' else first)
        (if-Sound s.reconnecting s' first w w)

  pub handle_transport_close-Sound :
      (now : ℕ) (reason : Option String) (s : Session)
      → Sound n m s
      → Sound n m (handle_transport_close o now reason s)
  unfolding handle_transport_close
  handle_transport_close-Sound now reason s v =
      let s' : Session = emit (logged "transport_close" reason (can_reconnect s)) s in
      if-Sound (can_reconnect s) (start_reconnect o now s') s' (start_reconnect-Sound now s' v) v

  pub begin_attempt-Sound : (s : Session) → Sound n m s → Sound n m (begin_attempt o s)
  unfolding begin_attempt
  begin_attempt-Sound s v =
      if-Sound (s.intentional_close || same_phase s.phase closed) s (emit connects s) v v

  pub attempt_failed-Sound :
      (now : ℕ) (s : Session) → Sound n m s → Sound n m (attempt_failed o now s)
  unfolding attempt_failed
  attempt_failed-Sound now s v =
      schedule_reconnect-Sound now (emit (logged "reconnect_failed" none (can_reconnect s)) s) v

  pub reconnect_timer_fires-Sound :
      (s : Session) → Sound n m s → Sound n m (reconnect_timer_fires o s)
  unfolding reconnect_timer_fires
  reconnect_timer_fires-Sound s v = begin_attempt-Sound s v

  pub reconnect-Sound : (s : Session) → Sound n m s → Sound n m (reconnect o s)
  unfolding reconnect stop_reconnect
  reconnect-Sound s v =
      begin_attempt-Sound _
        (set_phase-Sound disconnected (stop_reconnect (record s { intentional_close = false })) v)

  pub liveness_timer_fires-Sound :
      (now : ℕ) (s : Session) → Sound n m s → Sound n m (liveness_timer_fires o now s)
  unfolding liveness_timer_fires
  liveness_timer_fires-Sound now s v =
      let s' : Session = record s { liveness_timer = false } in
      handle_transport_close-Sound now (some "heartbeat_timeout")
        (emit disconnects
          (emit (logged "transport_close" (some "heartbeat_timeout") (can_reconnect s')) s'))
        (record {
          sent_from = v.sent_from;
          sent_to = v.sent_to;
          received_from = v.received_from;
          pending_within = v.pending_within;
          cached_within = v.cached_within;
          broadcast_within = v.broadcast_within;
          resting = let r = v.resting in ground arith;
        })

  pub start_session_ttl-Sound :
      (now : ℕ) (s : Session) → Sound n m s → Sound n m (start_session_ttl o now s)
  unfolding start_session_ttl
  start_session_ttl-Sound now s v = v

  pub start_heartbeat-Sound :
      (s : Session) → s.phase ≡ connected → Sound n m s → Sound n m (start_heartbeat o s)
  unfolding start_heartbeat stop_heartbeat
  start_heartbeat-Sound s e v =
      if-Sound (o.heartbeat_interval == 0) (stop_heartbeat s)
        (record (stop_heartbeat s) { heartbeat_timer = true })
        (record {
          sent_from = v.sent_from;
          sent_to = v.sent_to;
          received_from = v.received_from;
          pending_within = v.pending_within;
          cached_within = v.cached_within;
          broadcast_within = v.broadcast_within;
          resting = refl;
        })
        (record {
          sent_from = v.sent_from;
          sent_to = v.sent_to;
          received_from = v.received_from;
          pending_within = v.pending_within;
          cached_within = v.cached_within;
          broadcast_within = v.broadcast_within;
          resting = rw e refl;
        })

module _ {n : ℕ} {m : Option ℕ} (k : Crypto) (o : Options) where
  pub transport_connected-Sound :
      (s : Session) → Sound n m s → Sound n m (transport_connected k o s)
  unfolding transport_connected send_join
  transport_connected-Sound s v =
      let s' : Session = set_phase waiting_accept s in
      send_raw-Sound k (join (sealed_join k o s'.session_key s'))
        (persist_snapshot o (record s' { session_key = none }))
        (persist_snapshot-Sound o (record s' { session_key = none })
          (set_phase-Sound waiting_accept s v))

  pub send_ping-Sound : (s : Session) → Sound n m s → Sound n m (send_ping k o s)
  unfolding send_ping
  send_ping-Sound s v =
      if-Sound (same_phase s.phase connected) (send_raw k ping s) s (send_raw-Sound k ping s v) v

  pub heartbeat_tick-Sound : (s : Session) → Sound n m s → Sound n m (heartbeat_tick k o s)
  unfolding heartbeat_tick send_ping send_raw
  heartbeat_tick-Sound s v = elim (Bool-cases (same_phase s.phase connected)) [
    | inl e ↦ elim (Bool-cases (ltb 65536 (k.wire_size s.channel_id s.pub_key ping))) [
      | inl f ↦ rw (e, f) (awaits e)
      | inr f ↦ rw (e, f) (awaits e)
    ]
    | inr e ↦ rw e v
  ]
    where
      awaits : same_phase s.phase connected ≡ true → Sound n m (record s { liveness_timer = true })
      awaits e = record {
        sent_from = v.sent_from;
        sent_to = v.sent_to;
        received_from = v.received_from;
        pending_within = v.pending_within;
        cached_within = v.cached_within;
        broadcast_within = v.broadcast_within;
        resting = ground arith;
      }
