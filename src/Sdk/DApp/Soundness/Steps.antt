-- ===== src/Sdk/DApp/Soundness/Steps.antt =====
-- Soundness and every event of a session.
use walletpair.Common.{
  ℕ, ◌+◌, ◌≤◌, ◌=s◌, String, Option, none, some, List, [], ◌∷◌, ◌≡◌, refl, arith, leb, length,
  Option-cases, Bool-cases, inl, inr,
}
use walletpair.Json.{Json}
use walletpair.Sdk.Types.{waiting, connected, pending_accept}
use walletpair.Sdk.DApp.State.{
  Bytes, Crypto, Options, PendingRequest, Session, Payload, ping, same_phase, send_raw,
  persist_snapshot,
}
use walletpair.Sdk.DApp.Closing.{close, end_session, can_reconnect, stop_reconnect}
use walletpair.Sdk.DApp.Requests.{
  find_pending, delete_pending, set_pending, request_timer_fires, next_send_seq, request_with,
  request, max_send_seq, max_pending_requests, request_id,
}
use walletpair.Sdk.DApp.Joining.{
  do_accept, accept_wallet, reject_wallet, pending_accept_timer_fires,
}
use walletpair.Sdk.DApp.Lifecycle.{
  Event, received, requests, accepts, rejects, pings, reconnects, closes, request_due,
  transport_opened, transport_closed, attempt_done, attempt_lost, retry_due, heartbeat_due,
  liveness_due, accept_due, lifetime_over, step, run, send_ping, transport_connected,
}
use walletpair.Sdk.DApp.Soundness.{
  Sound, emit-Sound, if-Sound, set_phase-Sound, send_raw-Sound, persist_snapshot-Sound,
  clear_pending_accept_timer-Sound, close-Sound,
}
use walletpair.Sdk.DApp.Soundness.Reconnecting.{
  Alike-Sound, handle_transport_close-Sound, attempt_failed-Sound, reconnect_timer_fires-Sound,
  reconnect-Sound, liveness_timer_fires-Sound, attempt_succeeded-Sound, heartbeat_tick-Sound,
}
use walletpair.Sdk.DApp.Soundness.Messages.{delete_pending-shorter}
use walletpair.Sdk.DApp.Soundness.Joining.{do_accept-Sound}
use walletpair.Sdk.DApp.Soundness.Handlers.{handle_message-Sound}

persist_snapshot-pending :
    (o : Options) (s : Session) → (persist_snapshot o s).pending_requests ≡ s.pending_requests
unfolding persist_snapshot
persist_snapshot-pending o s = ground arith

set_pending-longer :
    (p : PendingRequest) (rs : List PendingRequest) → length (set_pending p rs) ≤ length rs + 1
unfolding set_pending
set_pending-longer p [] = omega arith
set_pending-longer p (r ∷ rs) = elim (Bool-cases (r.id =s p.id)) [
  | inl e ↦ rw e (omega arith)
  | inr e ↦ rw e (omega (arith, set_pending-longer p rs))
]

module _ {n : ℕ} {m : Option ℕ} (k : Crypto) (o : Options) where
  request_with-Sound :
      (key : Option Bytes) (method : String) (params : Option Json) (s : Session)
      → Sound n m s
      → Sound n m (request_with k o key method params s).0
  unfolding next_send_seq
  request_with-Sound none method params s h = h
  request_with-Sound (some key) method params s h =
      let s' : Session = record s { req_counter = s.req_counter + 1 } in
      let r : PendingRequest = record {
        id = request_id (s.req_counter + 1);
        method = method;
        params = params;
      } in
      let s'' : Session = persist_snapshot o (record s' { send_seq = s.send_seq + 1 }) in
      elim (Bool-cases (leb max_pending_requests (length s.pending_requests))) [
        | inl e ↦ rw e h
        | inr e ↦ elim (Bool-cases (leb max_send_seq s.send_seq)) [
          | inl f ↦
              rw (e, f)
                (close-Sound k o "normal" _ (
                  emit-Sound _ _ (
                    Alike-Sound {s = s} {s' = s'}
                      (record {
                        sent = refl;
                        received = refl;
                        pending = refl;
                        phase = refl;
                        heartbeat = refl;
                        liveness = refl;
                      })
                      h)))
          | inr f ↦
              let h' : Sound n m s'' = persist_snapshot-Sound o _ (record {
                sent_from = omega (arith, h.sent_from);
                sent_to = ground (arith, h.sent_to);
                received_from = h.received_from;
                pending = h.pending;
                resting = h.resting;
              }) in
              rw (e, f)
                (send_raw-Sound k _
                  (record s'' { pending_requests = set_pending r s''.pending_requests })
                  (record {
                    sent_from = h'.sent_from;
                    sent_to = h'.sent_to;
                    received_from = h'.received_from;
                    pending =
                        rw (persist_snapshot-pending o (record s' { send_seq = s.send_seq + 1 }))
                          (ground (arith, set_pending-longer r s.pending_requests));
                    resting = h'.resting;
                  }))
        ]
      ]

  pub request-Sound :
      (method : String) (params : Option Json) (s : Session)
      → Sound n m s
      → Sound n m (request k o method params s).0
  unfolding request
  request-Sound method params s h = elim (Bool-cases (same_phase s.phase connected)) [
    | inl e ↦ rw e (request_with-Sound s.send_key method params s h)
    | inr e ↦ rw e h
  ]

  request_timer_fires-Sound :
      (id : String) (s : Session) → Sound n m s → Sound n m (request_timer_fires id s)
  unfolding request_timer_fires
  request_timer_fires-Sound id s h = elim (Option-cases (find_pending id s.pending_requests)) [
    | inl e ↦ rw (e, request_timer_fires) h
    | inr (r, e) ↦
        rw (e, request_timer_fires)
          (emit-Sound _ (record s { pending_requests = delete_pending id s.pending_requests })
            (record {
              sent_from = h.sent_from;
              sent_to = h.sent_to;
              received_from = h.received_from;
              pending = omega (arith, h.pending, delete_pending-shorter id s.pending_requests);
              resting = h.resting;
            }))
  ]

  accept_wallet-Sound : (s : Session) → Sound n m s → Sound n m (accept_wallet k o s)
  unfolding accept_wallet
  accept_wallet-Sound s h = if-Sound (same_phase s.phase pending_accept) (go s.remote_pub_key) h
    where
      go :
          (r : Option Bytes)
          → Sound n m (elim r [
            | none ↦ s
            | some remote ↦
                do_accept k o remote (walletpair.Sdk.DApp.Closing.clear_pending_accept_timer s)
          ])
      go none = h
      go (some remote) = do_accept-Sound k o remote _ (clear_pending_accept_timer-Sound s h)

  reject_wallet-Sound : (s : Session) → Sound n m s → Sound n m (reject_wallet k o s)
  unfolding reject_wallet
  reject_wallet-Sound s h = go s.remote_pub_key
    where
      go :
          (r : Option Bytes)
          → Sound n m (elim r [
            | none ↦ s
            | some remote ↦ close k o "normal" (send_raw k (Payload.close "user_rejected") s)
          ])
      go none = h
      go (some remote) = close-Sound k o "normal" _ (send_raw-Sound k _ s h)

  pub step-Sound : (now : ℕ) (e : Event) (s : Session) → Sound n m s → Sound n m (step k o now e s)
  unfolding step send_ping transport_connected pending_accept_timer_fires
  step-Sound now (received msg) s h = handle_message-Sound k o now msg s h
  step-Sound now (requests method params) s h = request-Sound method params s h
  step-Sound now accepts s h = accept_wallet-Sound s h
  step-Sound now rejects s h = reject_wallet-Sound s h
  step-Sound now pings s h = if-Sound (same_phase s.phase connected) (send_raw-Sound k ping s h) h
  step-Sound now reconnects s h = reconnect-Sound o s h
  step-Sound now (closes reason) s h = close-Sound k o reason s h
  step-Sound now (request_due id) s h = request_timer_fires-Sound id s h
  step-Sound now transport_opened s h =
      send_raw-Sound k Payload.create _ (set_phase-Sound waiting s h)
  step-Sound now (transport_closed reason) s h = handle_transport_close-Sound o now reason s h
  step-Sound now attempt_done s h = attempt_succeeded-Sound k s h
  step-Sound now attempt_lost s h = attempt_failed-Sound o now s h
  step-Sound now retry_due s h = reconnect_timer_fires-Sound o s h
  step-Sound now heartbeat_due s h = heartbeat_tick-Sound k s h
  step-Sound now liveness_due s h = liveness_timer_fires-Sound o now s h
  step-Sound now accept_due s h = close-Sound k o "timeout" _ (emit-Sound _ s h)
  step-Sound now lifetime_over s h = close-Sound k o "timeout" _ (emit-Sound _ s h)

-- Over any run of events between a pairing and the next, the numbers of a session never go back:
-- neither the next one to send, which stays within 2^31, nor the last one received. At most 32
-- requests are pending, and no heartbeat runs unless the session is connected.
pub run-Sound :
    (k : Crypto) (o : Options) (n : ℕ) (m : Option ℕ) (es : List (ℕ × Event)) (s : Session)
    → Sound n m s
    → Sound n m (run k o es s)
unfolding run
run-Sound k o n m [] s h = h
run-Sound k o n m ((now, e) ∷ es) s h =
    run-Sound k o n m es (step k o now e s) (step-Sound k o now e s h)
