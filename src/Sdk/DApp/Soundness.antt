-- ===== src/Sdk/DApp/Soundness.antt =====
-- What a session keeps between a pairing and the next, over every event.
pub mod Reconnecting
pub mod Joining
pub mod Messages
pub mod Handlers
pub mod Steps
use walletpair.Common.{
  ℕ, ◌+◌, ◌≤◌, String, Bool, true, false, not, ◌&&◌, ◌||◌, Option, none, some, List, [], ◌∷◌, ◌≡◌,
  refl, arith, length, if◌then◌else◌, leb, ltb, Bool-cases, Option-cases, inl, inr,
}
use walletpair.Sdk.Types.{DAppPhase, connected, closed, disconnected}
use walletpair.Sdk.DApp.State.{
  Crypto, Options, Session, Payload, PendingRequest, Output, emit, set_phase, same_phase, send_raw,
  persist_snapshot, clear_persistence, stop_heartbeat,
}
use walletpair.Sdk.DApp.Closing.{
  reject_each, reject_all_pending, wind_down, close, end_session, stop_reconnect,
  clear_pending_accept_timer, clear_session_ttl,
}
use walletpair.Sdk.DApp.Requests.{max_send_seq, max_pending_requests}

-- The number received last is that one or a later one.
abbrev pub not_before : Option ℕ → Option ℕ → Bool
not_before none last = true
not_before (some m) none = false
not_before (some m) (some last) = leb m last

-- The next number to send is `n` or above and within the limit; the last that was received is `m`
-- or above; at most 32 requests are pending; and no heartbeat runs unless the session is connected.
pub record Sound (n : ℕ) (m : Option ℕ) (s : Session) : Type 0 where
  pub sent_from : n ≤ s.send_seq
  pub sent_to : s.send_seq ≤ max_send_seq
  pub received_from : not_before m s.recv_seq ≡ true
  pub pending : length s.pending_requests ≤ max_pending_requests
  pub resting :
      ((s.heartbeat_timer || s.liveness_timer) && not (same_phase s.phase connected)) ≡ false

module _ {n : ℕ} {m : Option ℕ} where
  pub emit-Sound : (x : Output) (s : Session) → Sound n m s → Sound n m (emit x s)
  emit-Sound x s v = record {
    sent_from = v.sent_from;
    sent_to = v.sent_to;
    received_from = v.received_from;
    pending = v.pending;
    resting = v.resting;
  }

  pub if-Sound :
      (b : Bool) {x y : Session} → Sound n m x → Sound n m y → Sound n m (if b then x else y)
  if-Sound true v w = v
  if-Sound false v w = w

  pub set_phase-Sound : (p : DAppPhase) (s : Session) → Sound n m s → Sound n m (set_phase p s)
  unfolding set_phase stop_heartbeat
  set_phase-Sound p s v =
      if-Sound (same_phase s.phase p) v (emit-Sound _ _ (turned (same_phase p connected) refl))
    where
      turned :
          (b : Bool)
          → same_phase p connected ≡ b
          → Sound n m
              (if b then record s { phase = p } else stop_heartbeat (record s { phase = p }))
      turned true e = record {
        sent_from = v.sent_from;
        sent_to = v.sent_to;
        received_from = v.received_from;
        pending = v.pending;
        resting = ground arith;
      }
      turned false e = record {
        sent_from = v.sent_from;
        sent_to = v.sent_to;
        received_from = v.received_from;
        pending = v.pending;
        resting = refl;
      }

  pub send_raw-Sound :
      (k : Crypto) (p : Payload) (s : Session) → Sound n m s → Sound n m (send_raw k p s)
  unfolding send_raw
  send_raw-Sound k p s v =
      if-Sound (ltb 65536 (k.wire_size s.channel_id s.pub_key p)) (emit-Sound _ s v)
        (emit-Sound _ s v)

  pub persist_snapshot-Sound :
      (o : Options) (s : Session) → Sound n m s → Sound n m (persist_snapshot o s)
  unfolding persist_snapshot
  persist_snapshot-Sound o s v = if-Sound o.persists (emit-Sound _ s v) v

  pub clear_persistence-Sound :
      (o : Options) (s : Session) → Sound n m s → Sound n m (clear_persistence o s)
  unfolding clear_persistence
  clear_persistence-Sound o s v = if-Sound o.persists (emit-Sound _ s v) v

  reject_each-Sound :
      (rs : List PendingRequest) (message : String) (s : Session)
      → Sound n m s
      → Sound n m (reject_each rs message s)
  unfolding reject_each
  reject_each-Sound [] message s v = v
  reject_each-Sound (r ∷ rs) message s v = reject_each-Sound rs message _ (emit-Sound _ s v)

  pub reject_all_pending-Sound :
      (message : String) (s : Session) → Sound n m s → Sound n m (reject_all_pending message s)
  unfolding reject_all_pending
  reject_all_pending-Sound message s v =
      let w = reject_each-Sound s.pending_requests message s v in
      record {
        sent_from = w.sent_from;
        sent_to = w.sent_to;
        received_from = w.received_from;
        pending = omega arith;
        resting = w.resting;
      }

  pub stop_reconnect-Sound : (s : Session) → Sound n m s → Sound n m (stop_reconnect s)
  unfolding stop_reconnect
  stop_reconnect-Sound s v = record {
    sent_from = v.sent_from;
    sent_to = v.sent_to;
    received_from = v.received_from;
    pending = v.pending;
    resting = v.resting;
  }

  pub clear_pending_accept_timer-Sound :
      (s : Session) → Sound n m s → Sound n m (clear_pending_accept_timer s)
  unfolding clear_pending_accept_timer
  clear_pending_accept_timer-Sound s v = record {
    sent_from = v.sent_from;
    sent_to = v.sent_to;
    received_from = v.received_from;
    pending = v.pending;
    resting = v.resting;
  }

  pub intentional-Sound :
      (s : Session) → Sound n m s → Sound n m (record s { intentional_close = true })
  intentional-Sound s v = record {
    sent_from = v.sent_from;
    sent_to = v.sent_to;
    received_from = v.received_from;
    pending = v.pending;
    resting = v.resting;
  }

  module _ (k : Crypto) (o : Options) where
    wind_down-Sound : (s : Session) → Sound n m s → Sound n m (wind_down k o s)
    unfolding wind_down stop_reconnect clear_session_ttl clear_pending_accept_timer
    wind_down-Sound s v = reject_all_pending-Sound "Session closed" _ (record {
      sent_from = v.sent_from;
      sent_to = v.sent_to;
      received_from = v.received_from;
      pending = v.pending;
      resting = v.resting;
    })

    pub close-Sound : (reason : String) (s : Session) → Sound n m s → Sound n m (close k o reason s)
    unfolding close
    close-Sound reason s v =
        let w = wind_down-Sound _ (emit-Sound _ s v) in
        set_phase-Sound closed _ (
          emit-Sound _ _ (
            clear_persistence-Sound o _
              (if-Sound _ w (send_raw-Sound k (Payload.close reason) _ w))))

    pub end_session-Sound :
        (message : String) (s : Session) → Sound n m s → Sound n m (end_session k o message s)
    unfolding end_session
    end_session-Sound message s v = intentional-Sound _ (
        set_phase-Sound closed _
          (clear_persistence-Sound o _ (reject_all_pending-Sound message s v)))
