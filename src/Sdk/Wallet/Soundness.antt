-- ===== src/Sdk/Wallet/Soundness.antt =====
-- What a wallet's session keeps once its pairing URI has been read, over every event.
pub mod Responses
pub mod Requests
pub mod Reconnecting
pub mod Steps
use walletpair.Common.{
  ℕ, ◌+◌, ◌≤◌, String, Bool, true, false, not, ◌&&◌, ◌||◌, Option, none, some, List, [], ◌≡◌, refl,
  arith, length, if◌then◌else◌, leb, Bool-cases, inl, inr, ◌=s◌,
}
use walletpair.Sdk.Maps.{has}
use walletpair.Sdk.DApp.Soundness.{not_before}
use walletpair.Sdk.Wallet.State.{
  WalletPhase, Crypto, Options, PendingRequestRecord, CachedRequestResponse, Session, Payload,
  connected, closed, disconnects, error, logged, emit, set_phase, same_phase, send_raw,
  persist_snapshot, clear_persistence, stop_heartbeat,
}
use walletpair.Sdk.Wallet.Closing.{
  close, end_session, next_send_seq, clear_requests, stop_reconnect, clear_session_ttl,
  max_send_seq,
}
use walletpair.Sdk.Wallet.Responses.{idempotency_cache_limit, broadcast_cache_limit}
use walletpair.Sdk.Wallet.Requests.{max_pending_requests}

-- The part of a session that its bounds are about.
pub record Vital : Type 0 where
  pub phase : WalletPhase
  pub send_seq : ℕ
  pub recv_seq : Option ℕ
  pub pending : List (String × PendingRequestRecord)
  pub cached : List (String × CachedRequestResponse)
  pub broadcast : List (String × CachedRequestResponse)
  pub heartbeat : Bool
  pub liveness : Bool

abbrev pub vital : Session → Vital
vital s = record {
  phase = s.phase;
  send_seq = s.send_seq;
  recv_seq = s.recv_seq;
  pending = s.pending_request_records;
  cached = s.idempotency_cache;
  broadcast = s.broadcast_response_cache;
  heartbeat = s.heartbeat_timer;
  liveness = s.liveness_timer;
}

-- A map that is within its limit, and has no entry under an empty id.
pub record Within {A : Type 0} (limit : ℕ) (m : List (String × A)) : Type 0 where
  pub size : length m ≤ limit
  pub named : has "" m ≡ false

-- The next number to send is `n` or above and within the limit; the last that was received is `m`
-- or above; the three maps are within their limits; and no heartbeat runs unless the session is
-- connected.
pub record Fine (n : ℕ) (m : Option ℕ) (v : Vital) : Type 0 where
  pub sent_from : n ≤ v.send_seq
  pub sent_to : v.send_seq ≤ max_send_seq
  pub received_from : not_before m v.recv_seq ≡ true
  pub pending_within : Within max_pending_requests v.pending
  pub cached_within : Within idempotency_cache_limit v.cached
  pub broadcast_within : Within broadcast_cache_limit v.broadcast
  pub resting : ((v.heartbeat || v.liveness) && not (same_phase v.phase connected)) ≡ false

abbrev pub Sound : ℕ → Option ℕ → Session → Type 0
Sound n m s = Fine n m (vital s)

pub nil-Within : {A : Type 0} (limit : ℕ) → Within {A = A} limit []
unfolding has
nil-Within limit = record { size = omega arith; named = refl }

module _ {n : ℕ} {m : Option ℕ} where
  pub if-Sound :
      (b : Bool) (x y : Session) → Sound n m x → Sound n m y → Sound n m (if b then x else y)
  if-Sound true x y v w = v
  if-Sound false x y v w = w

  pub set_phase-Sound : (p : WalletPhase) (s : Session) → Sound n m s → Sound n m (set_phase p s)
  unfolding set_phase stop_heartbeat
  set_phase-Sound p s v = elim (Bool-cases (same_phase s.phase p)) [
    | inl e ↦ rw e v
    | inr e ↦ elim (Bool-cases (same_phase p connected)) [
      | inl f ↦
          rw (e, f)
            (record {
              sent_from = v.sent_from;
              sent_to = v.sent_to;
              received_from = v.received_from;
              pending_within = v.pending_within;
              cached_within = v.cached_within;
              broadcast_within = v.broadcast_within;
              resting = rw f (ground arith);
            })
      | inr f ↦
          rw (e, f)
            (record {
              sent_from = v.sent_from;
              sent_to = v.sent_to;
              received_from = v.received_from;
              pending_within = v.pending_within;
              cached_within = v.cached_within;
              broadcast_within = v.broadcast_within;
              resting = refl;
            })
    ]
  ]

  pub send_raw-Sound :
      (k : Crypto) (p : Payload) (s : Session) → Sound n m s → Sound n m (send_raw k p s)
  unfolding send_raw
  send_raw-Sound k p s v = if-Sound _ (emit _ s) (emit _ s) v v

  pub clear_requests-Sound : (s : Session) → Sound n m s → Sound n m (clear_requests s)
  unfolding clear_requests
  clear_requests-Sound s v = record {
    sent_from = v.sent_from;
    sent_to = v.sent_to;
    received_from = v.received_from;
    pending_within = nil-Within max_pending_requests;
    cached_within = nil-Within idempotency_cache_limit;
    broadcast_within = nil-Within broadcast_cache_limit;
    resting = v.resting;
  }

  module _ (o : Options) where
    pub persist_snapshot-Sound : (s : Session) → Sound n m s → Sound n m (persist_snapshot o s)
    unfolding persist_snapshot
    persist_snapshot-Sound s v = if-Sound o.persists (emit _ s) s v v

    pub clear_persistence-Sound : (s : Session) → Sound n m s → Sound n m (clear_persistence o s)
    unfolding clear_persistence
    clear_persistence-Sound s v = if-Sound o.persists (emit _ s) s v v

  module _ (k : Crypto) (o : Options) where
    pub close-Sound : (reason : String) (s : Session) → Sound n m s → Sound n m (close k o reason s)
    unfolding close stop_reconnect clear_session_ttl
    close-Sound reason s v =
        let s' : Session = clear_requests (
          clear_session_ttl (
            stop_reconnect (record (emit (logged "session_close" (some reason) false) s) {
              intentional_close = true;
            }))) in
        let w : Sound n m s' =
          clear_requests-Sound
            (clear_session_ttl (
              stop_reconnect (record (emit (logged "session_close" (some reason) false) s) {
                intentional_close = true;
              })))
            v in
        let s'' : Session =
          if s'.channel_id =s "" then s' else send_raw k (Payload.close reason) s' in
        let w' : Sound n m s'' =
          if-Sound (s'.channel_id =s "") s' (send_raw k (Payload.close reason) s') w
            (send_raw-Sound k (Payload.close reason) s' w) in
        set_phase-Sound closed (emit disconnects (clear_persistence o s''))
          (clear_persistence-Sound o s'' w')

    pub end_session-Sound : (s : Session) → Sound n m s → Sound n m (end_session k o s)
    unfolding end_session
    end_session-Sound s v =
        set_phase-Sound closed (clear_persistence o (clear_requests s))
          (clear_persistence-Sound o (clear_requests s) (clear_requests-Sound s v))

    pub next_send_seq-Sound : (s : Session) → Sound n m s → Sound n m (next_send_seq k o s).0
    unfolding next_send_seq
    next_send_seq-Sound s v = elim (Bool-cases (leb max_send_seq s.send_seq)) [
      | inl e ↦ rw e (
          close-Sound "normal"
            (emit (error "Send sequence overflow/limit reached — session invalidated") s) v)
      | inr e ↦ rw e (
          persist_snapshot-Sound o (record s { send_seq = s.send_seq + 1 })
            (record {
              sent_from = omega (arith, v.sent_from);
              sent_to = ground (arith, v.sent_to);
              received_from = v.received_from;
              pending_within = v.pending_within;
              cached_within = v.cached_within;
              broadcast_within = v.broadcast_within;
              resting = v.resting;
            }))
    ]
