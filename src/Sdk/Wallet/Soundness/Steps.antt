-- ===== src/Sdk/Wallet/Soundness/Steps.antt =====
-- Soundness and every event of a wallet's session.
use walletpair.Common.{
  ℕ, String, true, false, not, ◌&&◌, ◌||◌, Option, List, [], ◌∷◌, ◌≡◌, refl, arith, ◌=s◌, is_just,
  if◌then◌else◌, Bool-cases, inl, inr,
}
use walletpair.Sdk.Types.{is_recoverable_close_reason}
use walletpair.Sdk.DApp.Messages.{is_version_1}
use walletpair.Sdk.Wallet.State.{
  WalletPhase, idle, waiting, waiting_accept, connected, disconnected, closed, Crypto, Options,
  Session, connects, disconnects, error, logged, pong, emit, set_phase, same_phase,
}
use walletpair.Sdk.Wallet.Closing.{close, end_session, can_reconnect, stop_reconnect}
use walletpair.Sdk.Wallet.Reconnecting.{start_reconnect, start_heartbeat, start_session_ttl}
use walletpair.Sdk.Wallet.Incoming.{WalletBody, WalletMessage, is_from_adapter}
use walletpair.Sdk.Wallet.Messages.{
  is_expected, on_connected, handle_ready, handle_close, handle_terminate, handle_body,
  handle_message,
}
use walletpair.Sdk.Wallet.Lifecycle.{
  Event, received, approves, rejects, pushes, confirms, pings, reconnects, closes, transport_opened,
  transport_closed, attempt_lost, retry_due, heartbeat_due, liveness_due, lifetime_over,
  confirm_join, step, run,
}
use walletpair.Sdk.Wallet.Soundness.{
  Sound, if-Sound, set_phase-Sound, send_raw-Sound, persist_snapshot-Sound, close-Sound,
  end_session-Sound,
}
use walletpair.Sdk.Wallet.Soundness.Responses.{approve-Sound, reject-Sound, push_event-Sound}
use walletpair.Sdk.Wallet.Soundness.Requests.{handle_req-Sound}
use walletpair.Sdk.Wallet.Soundness.Reconnecting.{
  start_reconnect-Sound, handle_transport_close-Sound, attempt_failed-Sound,
  reconnect_timer_fires-Sound, reconnect-Sound, start_heartbeat-Sound, liveness_timer_fires-Sound,
  transport_connected-Sound, send_ping-Sound, heartbeat_tick-Sound,
}

same_phase-connected : (p : WalletPhase) → same_phase p connected ≡ true → p ≡ connected
same_phase-connected connected e = refl
same_phase-connected idle e = cc
same_phase-connected waiting e = cc
same_phase-connected waiting_accept e = cc
same_phase-connected disconnected e = cc
same_phase-connected closed e = cc

set_phase-connected : (s : Session) → (set_phase connected s).phase ≡ connected
unfolding set_phase
set_phase-connected s = elim (Bool-cases (same_phase s.phase connected)) [
  | inl e ↦ rw e (same_phase-connected s.phase e)
  | inr e ↦ rw e refl
]

module _ {n : ℕ} {m : Option ℕ} (k : Crypto) (o : Options) where
  on_connected-Sound : (now : ℕ) (s : Session) → Sound n m s → Sound n m (on_connected k o now s)
  unfolding on_connected start_session_ttl
  on_connected-Sound now s v =
      let s' : Session = record s {
        reconnecting = false;
        reconnect_attempt = 0;
        reconnect_started_at = 0;
      } in
      let s'' : Session = start_session_ttl o now (set_phase connected s') in
      persist_snapshot-Sound o (start_heartbeat o s'')
        (start_heartbeat-Sound o s'' (set_phase-connected s') (set_phase-Sound connected s' v))

  handle_ready-Sound :
      (now : ℕ) (state remote : Option String) (s : Session)
      → Sound n m s
      → Sound n m (handle_ready k o now state remote s)
  unfolding handle_ready stop_reconnect
  handle_ready-Sound now state remote s v =
      let s' : Session = stop_reconnect s in
      let stray : Session = emit (error "Connected remote does not match paired dApp") s' in
      elim (Bool-cases (is_just "connected" state)) [
        | inl e ↦ rw e (
            if-Sound (is_expected k o remote s.remote_pub_key) (on_connected k o now s')
              (close k o "normal" stray) (on_connected-Sound now s' v)
              (close-Sound k o "normal" stray v))
        | inr e ↦ rw e (
            if-Sound (is_just "waiting" state) (set_phase waiting_accept s') s'
              (set_phase-Sound waiting_accept s' v) v)
      ]

  handle_terminate-Sound :
      (now : ℕ) (reason : Option String) (s : Session)
      → Sound n m s
      → Sound n m (handle_terminate k o now reason s)
  unfolding handle_terminate
  handle_terminate-Sound now reason s v =
      let s' : Session =
        emit (logged "terminate" reason (is_recoverable_close_reason reason && can_reconnect s))
          s in
      let retries : Session = start_reconnect o now (emit disconnects s') in
      if-Sound (s.intentional_close || same_phase s.phase closed) s'
        (if is_recoverable_close_reason reason then retries else end_session k o s') v
        (if-Sound (is_recoverable_close_reason reason) retries (end_session k o s')
          (start_reconnect-Sound o now (emit disconnects s') v) (end_session-Sound k o s' v))

  handle_body-Sound :
      (now : ℕ) (from : String) (b : WalletBody) (s : Session)
      → Sound n m s
      → Sound n m (handle_body k o now from b s)
  unfolding handle_body handle_close
  handle_body-Sound now from (WalletBody.ready state remote) s v =
      handle_ready-Sound now state remote s v
  handle_body-Sound now from (WalletBody.req id sealed) s v =
      handle_req-Sound k o from id sealed s v
  handle_body-Sound now from WalletBody.ping s v = send_raw-Sound k pong s v
  handle_body-Sound now from WalletBody.pong s v = record {
    sent_from = v.sent_from;
    sent_to = v.sent_to;
    received_from = v.received_from;
    pending_within = v.pending_within;
    cached_within = v.cached_within;
    broadcast_within = v.broadcast_within;
    resting = let r = v.resting in ground arith;
  }
  handle_body-Sound now from WalletBody.close s v =
      if-Sound (same_phase s.phase disconnected) s (end_session k o s) v (end_session-Sound k o s v)
  handle_body-Sound now from (WalletBody.terminate reason) s v =
      handle_terminate-Sound now reason s v
  handle_body-Sound now from WalletBody.other s v = v

  handle_message-Sound :
      (now : ℕ) (msg : WalletMessage) (s : Session)
      → Sound n m s
      → Sound n m (handle_message k o now msg s)
  unfolding handle_message
  handle_message-Sound now msg s v =
      let spoofed : Session = emit (error "Rejected message with spoofed _adapter from") s in
      let handled : Session = handle_body k o now msg.from msg.body s in
      if-Sound (not (is_from_adapter msg.body) && msg.from =s "_adapter") spoofed
        (if not (is_version_1 msg.v) then close k o "unsupported_version" s else handled) v
        (if-Sound (not (is_version_1 msg.v)) (close k o "unsupported_version" s) handled
          (close-Sound k o "unsupported_version" s v) (handle_body-Sound now msg.from msg.body s v))

  step-Sound : (now : ℕ) (e : Event) (s : Session) → Sound n m s → Sound n m (step k o now e s)
  unfolding step confirm_join
  step-Sound now (received msg) s v = handle_message-Sound now msg s v
  step-Sound now (approves id result) s v = approve-Sound k o id result s v
  step-Sound now (rejects id code message) s v = reject-Sound k o id code message s v
  step-Sound now (pushes name value) s v = push_event-Sound k o name value s v
  step-Sound now confirms s v = if-Sound _ s (emit connects s) v v
  step-Sound now pings s v = send_ping-Sound k o s v
  step-Sound now reconnects s v = reconnect-Sound o s v
  step-Sound now (closes reason) s v = close-Sound k o reason s v
  step-Sound now transport_opened s v = transport_connected-Sound k o s v
  step-Sound now (transport_closed reason) s v = handle_transport_close-Sound o now reason s v
  step-Sound now attempt_lost s v = attempt_failed-Sound o now s v
  step-Sound now retry_due s v = reconnect_timer_fires-Sound o s v
  step-Sound now heartbeat_due s v = heartbeat_tick-Sound k o s v
  step-Sound now liveness_due s v = liveness_timer_fires-Sound o now s v
  step-Sound now lifetime_over s v =
      close-Sound k o "timeout" (emit (error "Session lifetime expired") s) v

-- Over any run of events of a wallet's session, neither the next number to send nor the last one
-- received goes back, and the first stays within 2^31; at most 32 requests are pending, at most
-- 1,024 responses are kept and at most 256 of transactions, none of them under an empty id; and no
-- heartbeat runs unless the session is connected.
pub run-Fine :
    (k : Crypto) (o : Options) (n : ℕ) (m : Option ℕ) (es : List (ℕ × Event)) (s : Session)
    → Sound n m s
    → Sound n m (run k o es s)
unfolding run
run-Fine k o n m [] s v = v
run-Fine k o n m ((now, e) ∷ es) s v =
    run-Fine k o n m es (step k o now e s) (step-Sound k o now e s v)
