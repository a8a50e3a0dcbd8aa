-- ===== src/Sdk/Wallet/Messages.antt =====
-- wallet-session.ts: handleMessage.
use walletpair.Common.{
  ℕ, String, Bool, false, not, ◌&&◌, ◌||◌, Option, none, some, ◌=s◌, if◌then◌else◌, is_just,
}
use walletpair.Sdk.Types.{is_recoverable_close_reason}
use walletpair.Sdk.DApp.State.{Bytes}
use walletpair.Sdk.DApp.Messages.{is_version_1}
use walletpair.Sdk.Wallet.State.{
  Crypto, Options, Session, waiting_accept, connected, disconnected, closed, error, logged,
  disconnects, pong, emit, set_phase, same_phase, persist_snapshot, send_raw,
}
use walletpair.Sdk.Wallet.Incoming.{WalletBody, WalletMessage, is_from_adapter}
use walletpair.Sdk.Wallet.Closing.{close, end_session, can_reconnect, stop_reconnect}
use walletpair.Sdk.Wallet.Reconnecting.{start_reconnect, start_heartbeat, start_session_ttl}
use walletpair.Sdk.Wallet.Requests.{handle_req}

module _ (k : Crypto) (o : Options) where
  -- The dApp that the relay names is the one of the pairing URI.
  abbrev pub is_expected : Option String → Option Bytes → Bool
  is_expected remote none = false
  is_expected remote (some key) =
      not (k.b64url_encode key =s "") && is_just (k.b64url_encode key) remote

  unfoldable pub on_connected : ℕ → Session → Session
  unfolding set_phase start_session_ttl start_heartbeat persist_snapshot
  on_connected now s =
      let s' : Session = record s {
        reconnecting = false;
        reconnect_attempt = 0;
        reconnect_started_at = 0;
      } in
      persist_snapshot o (start_heartbeat o (start_session_ttl o now (set_phase connected s')))

  unfoldable pub handle_ready : ℕ → Option String → Option String → Session → Session
  unfolding stop_reconnect close set_phase on_connected
  handle_ready now state remote s =
      let s' = stop_reconnect s in
      if is_just "connected" state
      then (if is_expected remote s.remote_pub_key
          then on_connected now s'
          else close k o "normal" (emit (error "Connected remote does not match paired dApp") s'))
      else if is_just "waiting" state
      then set_phase waiting_accept s'
      else s'

  unfoldable pub handle_close : Session → Session
  unfolding end_session
  handle_close s = if same_phase s.phase disconnected then s else end_session k o s

  unfoldable pub handle_terminate : ℕ → Option String → Session → Session
  unfolding is_recoverable_close_reason can_reconnect start_reconnect end_session
  handle_terminate now reason s =
      let s' =
        emit (logged "terminate" reason (is_recoverable_close_reason reason && can_reconnect s))
          s in
      if s.intentional_close || same_phase s.phase closed
      then s'
      else if is_recoverable_close_reason reason
      then start_reconnect o now (emit disconnects s')
      else end_session k o s'

  unfoldable pub handle_body : ℕ → String → WalletBody → Session → Session
  unfolding handle_ready handle_req send_raw handle_close handle_terminate
  handle_body now from (WalletBody.ready state remote) s = handle_ready now state remote s
  handle_body now from (WalletBody.req id sealed) s = handle_req k o from id sealed s
  handle_body now from WalletBody.ping s = send_raw k pong s
  handle_body now from WalletBody.pong s = record s { liveness_timer = false }
  handle_body now from WalletBody.close s = handle_close s
  handle_body now from (WalletBody.terminate reason) s = handle_terminate now reason s
  handle_body now from WalletBody.other s = s

  unfoldable pub handle_message : ℕ → WalletMessage → Session → Session
  unfolding close handle_body
  handle_message now m s =
      if not (is_from_adapter m.body) && m.from =s "_adapter"
      then emit (error "Rejected message with spoofed _adapter from") s
      else if not (is_version_1 m.v)
      then close k o "unsupported_version" s
      else handle_body now m.from m.body s
