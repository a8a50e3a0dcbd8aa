-- ===== src/Sdk/DApp/Soundness/Handlers.antt =====
-- Soundness and the handlers of the messages, but the join.
use walletpair.Common.{
  ℕ, String, true, false, not, ◌&&◌, ◌||◌, Option, none, some, ◌≡◌, refl, arith, ◌=s◌, is_just,
  Bool-cases, inl, inr,
}
use walletpair.Sdk.Types.{
  DAppPhase, waiting, connected, disconnected, closed, pending_accept, Body, ProtocolMessage,
  is_recoverable_close_reason,
}
use walletpair.Sdk.DApp.State.{
  Bytes, Crypto, Options, PendingRequest, Session, pong, error, rejected, logged, disconnects,
  set_phase, same_phase,
}
use walletpair.Sdk.DApp.Closing.{can_reconnect, stop_reconnect}
use walletpair.Sdk.DApp.Reconnecting.{start_session_ttl}
use walletpair.Sdk.DApp.Requests.{find_pending, delete_pending}
use walletpair.Sdk.DApp.Messages.{
  on_connected, handle_ready, unseal, open_response, response_to, handle_res, open_event,
  handle_evt, handle_close, handle_terminate, handle_body, handle_message, given_text, is_stranger,
  is_paired_with, is_version_1, is_from_relay,
}
use walletpair.Sdk.DApp.Soundness.{
  Sound, emit-Sound, if-Sound, set_phase-Sound, send_raw-Sound, persist_snapshot-Sound,
  stop_reconnect-Sound, close-Sound, end_session-Sound,
}
use walletpair.Sdk.DApp.Soundness.Reconnecting.{
  Alike-Sound, start_reconnect-Sound, start_session_ttl-Sound, start_heartbeat-Sound,
}
use walletpair.Sdk.DApp.Soundness.Messages.{
  resend_pending-Sound, receive_response-Sound, receive_event-Sound, delete_pending-shorter,
}
use walletpair.Sdk.DApp.Soundness.Joining.{handle_join-Sound}

same_phase-connected : (p : DAppPhase) → same_phase p connected ≡ true → p ≡ connected
same_phase-connected connected e = refl
same_phase-connected DAppPhase.idle e = cc
same_phase-connected waiting e = cc
same_phase-connected pending_accept e = cc
same_phase-connected disconnected e = cc
same_phase-connected closed e = cc

set_phase-connected : (s : Session) → (set_phase connected s).phase ≡ connected
unfolding set_phase
set_phase-connected s = elim (Bool-cases (same_phase s.phase connected)) [
  | inl e ↦ rw e (same_phase-connected s.phase e)
  | inr e ↦ rw e refl
]

module _ {n : ℕ} {m : Option ℕ} (k : Crypto) (o : Options) where
  on_connected-Sound : (now : ℕ) (s : Session) → Sound n m s → Sound n m (on_connected k o now s)
  unfolding on_connected start_session_ttl
  on_connected-Sound now s h =
      let s0 : Session = record s {
        reconnecting = false;
        reconnect_attempt = 0;
        reconnect_started_at = 0;
      } in
      let h0 : Sound n m s0 =
        Alike-Sound {s = s} {s' = s0}
          (record {
            sent = refl;
            received = refl;
            pending = refl;
            phase = refl;
            heartbeat = refl;
            liveness = refl;
          })
          h in
      let s1 : Session = start_session_ttl o now (set_phase connected s0) in
      let h1 : Sound n m s1 = start_session_ttl-Sound o now _ (set_phase-Sound connected s0 h0) in
      let h2 =
        persist_snapshot-Sound o _ (start_heartbeat-Sound o s1 (set_phase-connected s0) h1) in
      if-Sound (s.reconnecting && o.resend_on_reconnect) (resend_pending-Sound k o _ h2) h2

  handle_ready-Sound :
      (now : ℕ) (state remote : Option String) (s : Session)
      → Sound n m s
      → Sound n m (handle_ready k o now state remote s)
  unfolding handle_ready
  handle_ready-Sound now state remote s h =
      let h' = stop_reconnect-Sound s h in
      if-Sound (is_just "connected" state)
        (if-Sound (is_paired_with k o remote s.remote_pub_key)
          (on_connected-Sound now (stop_reconnect s) h')
          (close-Sound k o "normal" _
            (emit-Sound (error "Connected remote does not match paired wallet") _ h')))
        (if-Sound (is_just "waiting" state) (set_phase-Sound waiting _ h') h')

  open_response-Sound :
      (sealed : Option String) (key : Option Bytes) (from id : String) (s : Session)
      → Sound n m s
      → Sound n m (open_response k o sealed key from id s)
  unfolding open_response
  open_response-Sound (some sealed) (some key) from id s h =
      receive_response-Sound k o id (unseal k o "res" from id sealed key s) s h
  open_response-Sound (some sealed) none from id s h =
      emit-Sound (rejected id "Response must be encrypted") s h
  open_response-Sound none (some key) from id s h =
      emit-Sound (rejected id "Response must be encrypted") s h
  open_response-Sound none none from id s h =
      emit-Sound (rejected id "Response must be encrypted") s h

  response_to-Sound :
      (r : Option PendingRequest) (sealed : Option String) (from id : String) (s : Session)
      → Sound n m s
      → Sound n m (response_to k o r sealed from id s)
  response_to-Sound none sealed from id s h = h
  response_to-Sound (some r) sealed from id s h =
      open_response-Sound (given_text sealed) s.recv_key from id
        (record s { pending_requests = delete_pending id s.pending_requests })
        (record {
          sent_from = h.sent_from;
          sent_to = h.sent_to;
          received_from = h.received_from;
          pending = omega (arith, h.pending, delete_pending-shorter id s.pending_requests);
          resting = h.resting;
        })

  handle_res-Sound :
      (from : String) (id sealed : Option String) (s : Session)
      → Sound n m s
      → Sound n m (handle_res k o from id sealed s)
  unfolding handle_res
  handle_res-Sound from id sealed s h =
      if-Sound (not (same_phase s.phase connected) || is_stranger k o from s.remote_pub_key) h
        (go (given_text id))
    where
      go :
          (t : Option String)
          → Sound n m (elim t [
            | none ↦ s
            | some id' ↦ response_to k o (find_pending id' s.pending_requests) sealed from id' s
          ])
      go none = h
      go (some id') = response_to-Sound (find_pending id' s.pending_requests) sealed from id' s h

  open_event-Sound :
      (id sealed : Option String) (key : Option Bytes) (from : String) (s : Session)
      → Sound n m s
      → Sound n m (open_event k o id sealed key from s)
  open_event-Sound (some id) (some sealed) (some key) from s h =
      receive_event-Sound k o (unseal k o "evt" from id sealed key s) s h
  open_event-Sound (some id) (some sealed) none from s h = h
  open_event-Sound (some id) none key from s h = h
  open_event-Sound none sealed key from s h = h

  handle_evt-Sound :
      (from : String) (id sealed : Option String) (s : Session)
      → Sound n m s
      → Sound n m (handle_evt k o from id sealed s)
  unfolding handle_evt
  handle_evt-Sound from id sealed s h =
      if-Sound (not (same_phase s.phase connected) || is_stranger k o from s.remote_pub_key) h
        (open_event-Sound (given_text id) (given_text sealed) s.recv_key from s h)

  handle_terminate-Sound :
      (now : ℕ) (reason : Option String) (s : Session)
      → Sound n m s
      → Sound n m (handle_terminate k o now reason s)
  unfolding handle_terminate
  handle_terminate-Sound now reason s h =
      let h' =
        emit-Sound
          (logged "terminate" reason (is_recoverable_close_reason reason && can_reconnect s)) s h in
      if-Sound (s.intentional_close || same_phase s.phase closed) h' (
        if-Sound (is_recoverable_close_reason reason)
          (start_reconnect-Sound o now _ (emit-Sound disconnects _ h'))
          (end_session-Sound k o "Session terminated" _ h'))

  handle_body-Sound :
      (now : ℕ) (from : String) (b : Body) (s : Session)
      → Sound n m s
      → Sound n m (handle_body k o now from b s)
  unfolding handle_body handle_close
  handle_body-Sound now from (Body.ready state remote) s h = handle_ready-Sound now state remote s h
  handle_body-Sound now from (Body.join sealed_join) s h =
      handle_join-Sound k o from sealed_join s h
  handle_body-Sound now from (Body.res id sealed) s h = handle_res-Sound from id sealed s h
  handle_body-Sound now from (Body.evt id sealed) s h = handle_evt-Sound from id sealed s h
  handle_body-Sound now from Body.ping s h = send_raw-Sound k pong s h
  handle_body-Sound now from Body.pong s h = record {
    sent_from = h.sent_from;
    sent_to = h.sent_to;
    received_from = h.received_from;
    pending = h.pending;
    resting = let r = h.resting in ground arith;
  }
  handle_body-Sound now from Body.close s h =
      if-Sound (same_phase s.phase disconnected) h
        (end_session-Sound k o "Session closed by peer" s h)
  handle_body-Sound now from (Body.terminate reason) s h = handle_terminate-Sound now reason s h
  handle_body-Sound now from Body.other s h = h

  pub handle_message-Sound :
      (now : ℕ) (msg : ProtocolMessage) (s : Session)
      → Sound n m s
      → Sound n m (handle_message k o now msg s)
  unfolding handle_message
  handle_message-Sound now msg s h =
      if-Sound (not (is_from_relay k o msg.body) && msg.from =s "_adapter")
        (emit-Sound (error "Rejected message with spoofed _adapter from") s h)
        (if-Sound (not (is_version_1 msg.v)) (close-Sound k o "unsupported_version" s h)
          (handle_body-Sound now msg.from msg.body s h))
