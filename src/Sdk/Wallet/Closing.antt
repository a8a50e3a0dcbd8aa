-- ===== src/Sdk/Wallet/Closing.antt =====
-- wallet-session.ts: close, nextSendSeq, and the end that a peer or the relay announces.
use walletpair.Common.{
  ℕ, ◌+◌, String, Bool, true, false, not, ◌&&◌, Option, none, some, [], ◌=s◌, leb, if◌then◌else◌,
}
use walletpair.Sdk.Wallet.State.{
  Crypto, Options, Session, Payload, closed, disconnects, error, logged, emit, set_phase,
  same_phase, persist_snapshot, clear_persistence, send_raw,
}

abbrev pub max_send_seq : ℕ
max_send_seq = 2147483648

unfoldable pub stop_reconnect : Session → Session
stop_reconnect s = record s { reconnect_timer = false }

unfoldable pub clear_session_ttl : Session → Session
clear_session_ttl s = record s { session_ttl_timer = none }

-- The three maps, which end with a session.
unfoldable pub clear_requests : Session → Session
clear_requests s = record s {
  pending_request_records = [];
  idempotency_cache = [];
  broadcast_response_cache = [];
}

unfoldable pub can_reconnect : Session → Bool
can_reconnect s = not s.intentional_close && not (same_phase s.phase closed)

module _ (k : Crypto) (o : Options) where
  unfoldable pub close : String → Session → Session
  unfolding stop_reconnect clear_session_ttl clear_requests send_raw clear_persistence set_phase
  close reason s =
      let s' = emit (logged "session_close" (some reason) false) s in
      let s'' =
        clear_requests
          (clear_session_ttl (stop_reconnect (record s' { intentional_close = true }))) in
      let s3 : Session =
        if s''.channel_id =s "" then s'' else send_raw k (Payload.close reason) s'' in
      set_phase closed (emit disconnects (clear_persistence o s3))

  -- The transport is left open.
  unfoldable pub end_session : Session → Session
  unfolding clear_requests clear_persistence set_phase
  end_session s =
      let s' = set_phase closed (clear_persistence o (clear_requests s)) in
      record s' { intentional_close = true }

  -- The next number, or none if the session ends instead.
  unfoldable pub next_send_seq : Session → Session × Option ℕ
  unfolding close persist_snapshot
  next_send_seq s =
      if leb max_send_seq s.send_seq
      then (
        close "normal"
            (emit (error "Send sequence overflow/limit reached — session invalidated") s),
        none,
      )
      else (persist_snapshot o (record s { send_seq = s.send_seq + 1 }), some s.send_seq)
