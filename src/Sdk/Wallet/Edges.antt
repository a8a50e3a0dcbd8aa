-- ===== src/Sdk/Wallet/Edges.antt =====
-- Sessions of a wallet that have ended.
use walletpair.Common.{
  ℕ, ◌=s◌, String, true, false, ◌∙◌, List, [], ◌∷◌, All, Option, none, some, ltb, ◌≡◌, refl, arith,
  Bool-cases, inl, inr,
}
use walletpair.Json.{JsNumber, num}
use walletpair.Sdk.Wallet.State.{
  Crypto, Options, Payload, Session, waiting_accept, connected, closed, emit, set_phase,
  stop_heartbeat, disconnects, logged, clear_persistence, persist_snapshot, send_raw, join,
}
use walletpair.Sdk.Wallet.Closing.{can_reconnect, clear_requests, end_session, stop_reconnect}
use walletpair.Sdk.Wallet.Reconnecting.{
  schedule_reconnect, handle_transport_close, begin_attempt, attempt_failed, reconnect_timer_fires,
  liveness_timer_fires, heartbeat_tick, transport_connected, send_join, sealed_join,
}
use walletpair.Sdk.Wallet.Incoming.{WalletBody, WalletMessage}
use walletpair.Sdk.Wallet.Messages.{handle_message, handle_body, handle_close, handle_ready}
use walletpair.Sdk.Wallet.Lifecycle.{
  Event, transport_closed, attempt_lost, retry_due, heartbeat_due, liveness_due, transport_opened,
  step, run,
}

-- The close of the transport, a failed attempt, and the timers but that of the lifetime; not a
-- transport that opens.
pub data IsBackground : Event → Type 0 where
  by_close : (reason : Option String) → IsBackground (transport_closed reason)
  by_failure : IsBackground attempt_lost
  by_retry : IsBackground retry_due
  by_heartbeat : IsBackground heartbeat_due
  by_liveness : IsBackground liveness_due

can_reconnect-ended : (s : Session) → s.intentional_close ≡ true → can_reconnect s ≡ false
unfolding can_reconnect
can_reconnect-ended s q = ground arith

schedule_reconnect-ended :
    (o : Options) (now : ℕ) (s : Session)
    → s.intentional_close ≡ true
    → schedule_reconnect o now s ≡ s
unfolding schedule_reconnect
schedule_reconnect-ended o now s q = simp q refl

handle_transport_close-rests :
    (o : Options) (now : ℕ) (reason : Option String) (s : Session)
    → s.phase ≡ closed
    → s.intentional_close ≡ true
    → ((handle_transport_close o now reason s).phase ≡ closed)
      × ((handle_transport_close o now reason s).intentional_close ≡ true)
      × ((handle_transport_close o now reason s).reconnect_timer ≡ s.reconnect_timer)
unfolding handle_transport_close
handle_transport_close-rests o now reason s p q =
    rw (can_reconnect-ended s q, handle_transport_close) (p, q, refl)

module _ (k : Crypto) (o : Options) where
  heartbeat_tick-closed : (s : Session) → s.phase ≡ closed → heartbeat_tick k o s ≡ s
  unfolding heartbeat_tick
  heartbeat_tick-closed s p = simp p refl

  background-rests :
      (now : ℕ) (e : Event) (s : Session)
      → IsBackground e
      → s.phase ≡ closed
      → s.intentional_close ≡ true
      → ((step k o now e s).phase ≡ closed)
        × ((step k o now e s).intentional_close ≡ true)
        × ((step k o now e s).reconnect_timer ≡ s.reconnect_timer)
  unfolding step attempt_failed reconnect_timer_fires begin_attempt liveness_timer_fires
  background-rests now _ s (by_close reason) p q = handle_transport_close-rests o now reason s p q
  background-rests now _ s by_failure p q =
      rw
        (schedule_reconnect-ended o now (emit (logged "reconnect_failed" none (can_reconnect s)) s)
          q)
        (p, q, refl)
  background-rests now _ s by_retry p q = simp (p, q) (refl, refl, refl)
  background-rests now _ s by_heartbeat p q = rw (heartbeat_tick-closed s p) (p, q, refl)
  background-rests now _ s by_liveness p q =
      handle_transport_close-rests o now (some "heartbeat_timeout")
        (emit disconnects (
          emit
            (logged "transport_close" (some "heartbeat_timeout")
              (can_reconnect (record s { liveness_timer = false })))
            (record s { liveness_timer = false })))
        p q

  run-rests :
      (es : List (ℕ × Event)) (s : Session)
      → All (λ e. IsBackground e.1) es
      → s.phase ≡ closed
      → s.intentional_close ≡ true
      → ((run k o es s).phase ≡ closed)
        × ((run k o es s).intentional_close ≡ true)
        × ((run k o es s).reconnect_timer ≡ s.reconnect_timer)
  unfolding run
  run-rests [] s h p q = (p, q, refl)
  run-rests ((now, e) ∷ es) s h p q =
      let (p', q', t) = background-rests now e s h.0 p q in
      let (p'', q'', t') = run-rests es (step k o now e s) h.1 p' q' in (p'', q'', t' ∙ t)

  send_raw-phase :
      (x : Payload) (s : Session)
      → ((send_raw k x s).phase ≡ s.phase)
        × ((send_raw k x s).intentional_close ≡ s.intentional_close)
  unfolding send_raw
  send_raw-phase x s = elim (Bool-cases (ltb 65536 (k.wire_size s.channel_id s.pub_key x))) [
    | inl e ↦ rw e (refl, refl)
    | inr e ↦ rw e (refl, refl)
  ]

  persist_snapshot-phase :
      (s : Session)
      → ((persist_snapshot o s).phase ≡ s.phase)
        × ((persist_snapshot o s).intentional_close ≡ s.intentional_close)
  unfolding persist_snapshot
  persist_snapshot-phase s = elim (Bool-cases o.persists) [
    | inl e ↦ rw e (refl, refl)
    | inr e ↦ rw e (refl, refl)
  ]

  send_join-phase :
      (s : Session)
      → ((send_join k o s).phase ≡ s.phase)
        × ((send_join k o s).intentional_close ≡ s.intentional_close)
  unfolding send_join
  send_join-phase s =
      let s' : Session = record s { session_key = none } in
      let a = send_raw-phase (join (sealed_join k o s.session_key s)) (persist_snapshot o s') in
      let b = persist_snapshot-phase s' in (a.0 ∙ b.0, a.1 ∙ b.1)

  waits :
      (s : Session)
      → s.phase ≡ closed
      → ((set_phase waiting_accept s).phase ≡ waiting_accept)
        × ((set_phase waiting_accept s).intentional_close ≡ s.intentional_close)
  unfolding set_phase stop_heartbeat
  waits s p = simp p (refl, refl)

  opened-waits :
      (now : ℕ) (s : Session)
      → s.phase ≡ closed
      → ((step k o now transport_opened s).phase ≡ waiting_accept)
        × ((step k o now transport_opened s).intentional_close ≡ s.intentional_close)
  unfolding step transport_connected
  opened-waits now s p =
      let a = send_join-phase (set_phase waiting_accept s) in
      let b = waits s p in (a.0 ∙ b.0, a.1 ∙ b.1)

  -- A session that is closed and marked as closed on purpose stays closed, and arms no new
  -- reconnection, through any closes of its transport, failed attempts and timers but that of its
  -- lifetime. If then a transport that was connecting opens, it is in `waiting_accept`, though it is
  -- still marked as closed on purpose.
  pub ended_session_rests :
      (es : List (ℕ × Event)) (now : ℕ) (s : Session)
      → All (λ e. IsBackground e.1) es
      → s.phase ≡ closed
      → s.intentional_close ≡ true
      → ((run k o es s).phase ≡ closed)
        × ((run k o es s).intentional_close ≡ true)
        × ((run k o es s).reconnect_timer ≡ s.reconnect_timer)
        × ((step k o now transport_opened (run k o es s)).phase ≡ waiting_accept)
        × ((step k o now transport_opened (run k o es s)).intentional_close ≡ true)
  ended_session_rests es now s h p q =
      let (p', q', t) = run-rests es s h p q in
      let (w, r) = opened-waits now (run k o es s) p' in (p', q', t, w, r ∙ q')

  abbrev pub message : String → WalletBody → WalletMessage
  message from body = record { v = some (num (JsNumber.whole 1)); from = from; body = body }

  -- A wallet's session that its peer has closed while it was connected is in the phase
  -- `waiting_accept` after a ready for the state `waiting`, though it is marked as closed on purpose.
  pub ended_wallet_reopens :
      (now later : ℕ) (from : String) (remote : Option String) (s : Session)
      → (from =s "_adapter") ≡ false
      → s.phase ≡ connected
      → let s' = handle_message k o now (message from WalletBody.close) s in
        let s'' =
          handle_message k o later
            (message "_adapter" (WalletBody.ready (some "waiting") remote))
            s' in
        (s'.phase ≡ closed)
        × (s'.intentional_close ≡ true)
        × (s''.phase ≡ waiting_accept)
        × (s''.intentional_close ≡ true)
  unfolding handle_message handle_body handle_close end_session handle_ready stop_reconnect
      clear_requests clear_persistence set_phase stop_heartbeat
  ended_wallet_reopens now later from remote s e p = elim (Bool-cases o.persists) [
    | inl f ↦ simp (e, p, f) (refl, refl, refl, refl)
    | inr f ↦ simp (e, p, f) (refl, refl, refl, refl)
  ]
