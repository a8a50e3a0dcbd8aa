-- ===== src/Sdk/DApp/Soundness/Reconnecting.antt =====
-- Soundness and reconnection, with the timers.
use walletpair.Common.{
  ℕ, String, true, false, ◌||◌, Option, some, ◌≡◌, refl, arith, ◌==◌, if◌then◌else◌,
}
use walletpair.Sdk.Types.{connected, closed, disconnected}
use walletpair.Sdk.DApp.State.{
  Crypto, Options, Session, Payload, connects, disconnects, same_phase, stop_heartbeat, send_raw,
}
use walletpair.Sdk.DApp.Closing.{can_reconnect, stop_reconnect}
use walletpair.Sdk.DApp.Reconnecting.{
  is_exhausted, give_up_reconnect, schedule_reconnect, start_reconnect, handle_transport_close,
  begin_attempt, attempt_failed, reconnect_timer_fires, reconnect, start_heartbeat,
  liveness_timer_fires, start_session_ttl, attempt_succeeded, heartbeat_tick,
}
use walletpair.Sdk.DApp.Soundness.{
  Sound, emit-Sound, if-Sound, set_phase-Sound, send_raw-Sound, clear_persistence-Sound,
  reject_all_pending-Sound, clear_pending_accept_timer-Sound, intentional-Sound,
}

-- What Sound reads.
pub record Alike (s s' : Session) : Type 0 where
  pub sent : s'.send_seq ≡ s.send_seq
  pub received : s'.recv_seq ≡ s.recv_seq
  pub pending : s'.pending_requests ≡ s.pending_requests
  pub phase : s'.phase ≡ s.phase
  pub heartbeat : s'.heartbeat_timer ≡ s.heartbeat_timer
  pub liveness : s'.liveness_timer ≡ s.liveness_timer

module _ {n : ℕ} {m : Option ℕ} where
  pub Alike-Sound : {s s' : Session} → Alike s s' → Sound n m s → Sound n m s'
  Alike-Sound a v = record {
    sent_from = rw a.sent v.sent_from;
    sent_to = rw a.sent v.sent_to;
    received_from = rw a.received v.received_from;
    pending = rw a.pending v.pending;
    resting = rw (a.heartbeat, a.liveness, a.phase) v.resting;
  }

  module _ (o : Options) where
    give_up_reconnect-Sound : (s : Session) → Sound n m s → Sound n m (give_up_reconnect o s)
    unfolding give_up_reconnect stop_reconnect
    give_up_reconnect-Sound s v = set_phase-Sound closed _ (
        emit-Sound _ _ (
          intentional-Sound _ (
            clear_persistence-Sound o _ (
              reject_all_pending-Sound _ _ (
                emit-Sound _ _ (
                  Alike-Sound
                    (record {
                      sent = refl;
                      received = refl;
                      pending = refl;
                      phase = refl;
                      heartbeat = refl;
                      liveness = refl;
                    })
                    v))))))

    schedule_reconnect-Sound :
        (now : ℕ) (s : Session) → Sound n m s → Sound n m (schedule_reconnect o now s)
    unfolding schedule_reconnect stop_reconnect
    schedule_reconnect-Sound now s v =
        let s' : Session = record s {
          reconnect_started_at =
              if s.reconnect_started_at == 0 then now else s.reconnect_started_at;
        } in
        let w : Sound n m s' =
          Alike-Sound {s = s} {s' = s'}
            (record {
              sent = refl;
              received = refl;
              pending = refl;
              phase = refl;
              heartbeat = refl;
              liveness = refl;
            })
            v in
        if-Sound (s.intentional_close || same_phase s.phase closed) v (
          if-Sound (is_exhausted o now s') (give_up_reconnect-Sound s' w) (
            Alike-Sound {s = s'} {s' = record (stop_reconnect s') { reconnect_timer = true }}
              (record {
                sent = refl;
                received = refl;
                pending = refl;
                phase = refl;
                heartbeat = refl;
                liveness = refl;
              })
              w))

    pub start_reconnect-Sound :
        (now : ℕ) (s : Session) → Sound n m s → Sound n m (start_reconnect o now s)
    unfolding start_reconnect
    start_reconnect-Sound now s v =
        let w =
          Alike-Sound {s = s} {s' = record s { reconnecting = true }}
            (record {
              sent = refl;
              received = refl;
              pending = refl;
              phase = refl;
              heartbeat = refl;
              liveness = refl;
            })
            v in
        let w' = set_phase-Sound disconnected _ (clear_pending_accept_timer-Sound _ w) in
        schedule_reconnect-Sound now _ (
          if-Sound s.reconnecting w' (
            Alike-Sound
              (record {
                sent = refl;
                received = refl;
                pending = refl;
                phase = refl;
                heartbeat = refl;
                liveness = refl;
              })
              w'))

    pub handle_transport_close-Sound :
        (now : ℕ) (reason : Option String) (s : Session)
        → Sound n m s
        → Sound n m (handle_transport_close o now reason s)
    unfolding handle_transport_close
    handle_transport_close-Sound now reason s v =
        if-Sound (can_reconnect s) (start_reconnect-Sound now _ (emit-Sound _ s v))
          (emit-Sound _ s v)

    begin_attempt-Sound : (s : Session) → Sound n m s → Sound n m (begin_attempt o s)
    unfolding begin_attempt
    begin_attempt-Sound s v =
        if-Sound (s.intentional_close || same_phase s.phase closed) v (emit-Sound connects s v)

    pub attempt_failed-Sound :
        (now : ℕ) (s : Session) → Sound n m s → Sound n m (attempt_failed o now s)
    unfolding attempt_failed
    attempt_failed-Sound now s v = schedule_reconnect-Sound now _ (emit-Sound _ s v)

    pub reconnect_timer_fires-Sound :
        (s : Session) → Sound n m s → Sound n m (reconnect_timer_fires o s)
    unfolding reconnect_timer_fires
    reconnect_timer_fires-Sound s v =
        Alike-Sound
          (record {
            sent = refl;
            received = refl;
            pending = refl;
            phase = refl;
            heartbeat = refl;
            liveness = refl;
          })
          (begin_attempt-Sound s v)

    pub reconnect-Sound : (s : Session) → Sound n m s → Sound n m (reconnect o s)
    unfolding reconnect stop_reconnect
    reconnect-Sound s v =
        let w =
          Alike-Sound {s = s} {s' = stop_reconnect (record s { intentional_close = false })}
            (record {
              sent = refl;
              received = refl;
              pending = refl;
              phase = refl;
              heartbeat = refl;
              liveness = refl;
            })
            v in
        begin_attempt-Sound _ (
          Alike-Sound
            (record {
              sent = refl;
              received = refl;
              pending = refl;
              phase = refl;
              heartbeat = refl;
              liveness = refl;
            })
            (set_phase-Sound disconnected _ w))

    pub liveness_timer_fires-Sound :
        (now : ℕ) (s : Session) → Sound n m s → Sound n m (liveness_timer_fires o now s)
    unfolding liveness_timer_fires
    liveness_timer_fires-Sound now s v =
        let s' : Session = record s { liveness_timer = false } in
        let w : Sound n m s' = record {
          sent_from = v.sent_from;
          sent_to = v.sent_to;
          received_from = v.received_from;
          pending = v.pending;
          resting = let r = v.resting in ground arith;
        } in
        handle_transport_close-Sound now (some "heartbeat_timeout") _
          (emit-Sound disconnects _ (emit-Sound _ s' w))

    pub start_session_ttl-Sound :
        (now : ℕ) (s : Session) → Sound n m s → Sound n m (start_session_ttl o now s)
    unfolding start_session_ttl
    start_session_ttl-Sound now s v =
        Alike-Sound
          (record {
            sent = refl;
            received = refl;
            pending = refl;
            phase = refl;
            heartbeat = refl;
            liveness = refl;
          })
          v

    pub start_heartbeat-Sound :
        (s : Session) → s.phase ≡ connected → Sound n m s → Sound n m (start_heartbeat o s)
    unfolding start_heartbeat stop_heartbeat
    start_heartbeat-Sound s e v =
        if-Sound (o.heartbeat_interval == 0)
          (record {
            sent_from = v.sent_from;
            sent_to = v.sent_to;
            received_from = v.received_from;
            pending = v.pending;
            resting = refl;
          })
          (record {
            sent_from = v.sent_from;
            sent_to = v.sent_to;
            received_from = v.received_from;
            pending = v.pending;
            resting = rw e refl;
          })

  module _ (k : Crypto) where
    pub attempt_succeeded-Sound : (s : Session) → Sound n m s → Sound n m (attempt_succeeded k s)
    unfolding attempt_succeeded
    attempt_succeeded-Sound s v = send_raw-Sound k Payload.create s v

    pub heartbeat_tick-Sound : (s : Session) → Sound n m s → Sound n m (heartbeat_tick k s)
    unfolding heartbeat_tick send_raw
    heartbeat_tick-Sound s v = ground (arith, v.resting)
