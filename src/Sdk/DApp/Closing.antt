-- ===== src/Sdk/DApp/Closing.antt =====
-- dapp-session.ts: close and rejectAllPending, and the timers that they clear.
use walletpair.Common.{
  String, Bool, true, false, not, ◌&&◌, none, some, List, [], ◌∷◌, ◌=s◌, if◌then◌else◌,
}
use walletpair.Sdk.Types.{closed}
use walletpair.Sdk.DApp.State.{
  Crypto, Options, PendingRequest, Session, Payload, disconnects, rejected, logged, emit, set_phase,
  clear_persistence, send_raw, same_phase,
}

unfoldable pub reject_each : List PendingRequest → String → Session → Session
reject_each [] message s = s
reject_each (r ∷ rs) message s = reject_each rs message (emit (rejected r.id message) s)

unfoldable pub reject_all_pending : String → Session → Session
unfolding reject_each
reject_all_pending message s = record (reject_each s.pending_requests message s) {
  pending_requests = [];
}

unfoldable pub stop_reconnect : Session → Session
stop_reconnect s = record s { reconnect_timer = false }

unfoldable pub clear_pending_accept_timer : Session → Session
clear_pending_accept_timer s = record s { pending_accept_timer = false }

unfoldable pub clear_session_ttl : Session → Session
clear_session_ttl s = record s { session_ttl_timer = none }

unfoldable pub can_reconnect : Session → Bool
can_reconnect s = not s.intentional_close && not (same_phase s.phase closed)

module _ (k : Crypto) (o : Options) where
  -- Before it is persisted that nothing is left: the timers and the pending requests.
  unfoldable pub wind_down : Session → Session
  unfolding clear_pending_accept_timer clear_session_ttl stop_reconnect reject_all_pending
  wind_down s = reject_all_pending "Session closed" (
      stop_reconnect
        (clear_session_ttl (clear_pending_accept_timer (record s { intentional_close = true }))))

  unfoldable pub close : String → Session → Session
  unfolding wind_down send_raw clear_persistence set_phase
  close reason s =
      let s' = wind_down (emit (logged "session_close" (some reason) false) s) in
      let s'' : Session =
        if s'.channel_id =s "" then s' else send_raw k (Payload.close reason) s' in
      set_phase closed (emit disconnects (clear_persistence o s''))

  -- The end that a peer or the relay announces: the transport is left open.
  unfoldable pub end_session : String → Session → Session
  unfolding reject_all_pending clear_persistence set_phase
  end_session message s =
      let s' = set_phase closed (clear_persistence o (reject_all_pending message s)) in
      record s' { intentional_close = true }
