-- ===== src/Sdk/DApp/Lifecycle.antt =====
-- dapp-session.ts: createPairing, connectTransport, restore, ping and destroy, and what a session
-- goes through between a pairing and the next.
use walletpair.Common.{
  ℕ, String, Bool, true, false, not, ◌||◌, ◌=s◌, is_some, Option, none, some, List, [], ◌∷◌,
  if◌then◌else◌,
}
use walletpair.Json.{Json}
use walletpair.Sdk.Types.{waiting, connected, ProtocolMessage}
use walletpair.Sdk.DApp.State.{
  Bytes, Crypto, Options, Session, Snapshot, Payload, ping, connects, emit, set_phase, same_phase,
  send_raw,
}
use walletpair.Sdk.DApp.Closing.{close, clear_session_ttl}
use walletpair.Sdk.DApp.Reconnecting.{
  handle_transport_close, attempt_succeeded, attempt_failed, reconnect_timer_fires, reconnect,
  heartbeat_tick, liveness_timer_fires,
}
use walletpair.Sdk.DApp.Requests.{request, request_timer_fires}
use walletpair.Sdk.DApp.Joining.{accept_wallet, reject_wallet, pending_accept_timer_fires}
use walletpair.Sdk.DApp.Messages.{handle_message}

-- What createPairing resets, with the new keys and the new channel id, which are random. Building
-- the pairing URI and the fingerprint is left out.
unfoldable pub reset_pairing : Bytes → String → String → Session → Session
unfolding clear_session_ttl
reset_pairing priv_key pub_key channel_id s = record (clear_session_ttl s) {
  intentional_close = false;
  priv_key = priv_key;
  pub_key = pub_key;
  channel_id = channel_id;
  send_seq = 0;
  recv_seq = none;
  remote_pub_key = none;
  send_key = none;
  recv_key = none;
  session_start_time = none;
  approved_capabilities = none;
  approved_wallet_meta = none;
  approved_wallet_pub_key = none;
  approved_scope_recorded = false;
  req_counter = 0;
  paired = false;
}

abbrev pub is_empty : Bytes → Bool
is_empty [] = true
is_empty (b ∷ bytes) = false

abbrev pub or_else {ℓ} : {A : Type ℓ} → Option A → Option A → Option A
or_else none b = b
or_else (some a) b = some a

module _ (k : Crypto) (o : Options) where
  -- connectTransport, after `await connect()`.
  unfoldable pub transport_connected : Session → Session
  unfolding set_phase send_raw
  transport_connected s = send_raw k Payload.create (set_phase waiting s)

  abbrev encoded : Option Bytes → Option String
  encoded none = none
  encoded (some key) = some (k.b64url_encode key)

  -- What `restore` reads of a snapshot that passes its checks.
  unfoldable pub load : Snapshot → Session → Session
  load d s = record s {
    channel_id = d.channel_id;
    priv_key = d.priv_key;
    pub_key = d.pub_key;
    remote_pub_key = d.remote_pub_key;
    send_key = d.send_key;
    recv_key = d.recv_key;
    send_seq = d.send_seq;
    recv_seq = d.recv_seq;
    req_counter = d.req_counter;
    paired = d.paired;
    approved_scope_recorded = d.approved_scope_recorded;
    approved_capabilities = d.approved_capabilities;
    approved_wallet_meta = d.approved_wallet_meta;
    approved_wallet_pub_key = or_else d.approved_wallet_pub_key (encoded d.remote_pub_key);
    wallet_capabilities = d.approved_capabilities;
    wallet_meta = d.approved_wallet_meta;
    session_start_time = d.session_start_time;
  }

  unfoldable pub restore_snapshot : Snapshot → Session → Session
  unfolding load set_phase
  restore_snapshot d s = set_phase connected (load d s)

  -- `!d.channelId || !d.privKey`
  abbrev pub lacks_pairing : Snapshot → Bool
  lacks_pairing d = d.channel_id =s "" || is_empty d.priv_key

  abbrev pub lacks_keys : Snapshot → Bool
  lacks_keys d = not (is_some d.send_key) || not (is_some d.recv_key)

  -- What is read before the keys are looked at.
  abbrev pub load_keys : Snapshot → Session → Session
  load_keys d s = record s {
    channel_id = d.channel_id;
    priv_key = d.priv_key;
    pub_key = d.pub_key;
    remote_pub_key = d.remote_pub_key;
    send_key = d.send_key;
    recv_key = d.recv_key;
  }

  -- `restore`, of a text whose signature has been checked and whose JSON has been read, and its
  -- result.
  unfoldable pub restore : Snapshot → Session → Session × Bool
  unfolding restore_snapshot
  restore d s =
      if lacks_pairing d
      then (s, false)
      else if lacks_keys d
      then (load_keys d s, false)
      else (restore_snapshot d s, true)

  unfoldable pub send_ping : Session → Session
  unfolding send_raw
  send_ping s = if same_phase s.phase connected then send_raw k ping s else s

  unfoldable pub destroy : Session → Session
  unfolding close
  destroy s = record (close k o "normal" s) { send_key = none; recv_key = none }

-- A call of the application, a message, a timer, or an answer of the transport.
pub data Event : Type 0 where
  received : ProtocolMessage → Event
  requests : String → Option Json → Event
  accepts rejects pings reconnects : Event
  closes request_due : String → Event
  transport_opened : Event
  transport_closed : Option String → Event
  attempt_done attempt_lost retry_due heartbeat_due liveness_due accept_due lifetime_over : Event

module _ (k : Crypto) (o : Options) where
  unfoldable pub step : ℕ → Event → Session → Session
  unfolding handle_message request request_timer_fires accept_wallet reject_wallet send_ping
      reconnect close transport_connected handle_transport_close attempt_succeeded attempt_failed
      reconnect_timer_fires heartbeat_tick liveness_timer_fires pending_accept_timer_fires
  step now (received m) s = handle_message k o now m s
  step now (requests method params) s = (request k o method params s).0
  step now accepts s = accept_wallet k o s
  step now rejects s = reject_wallet k o s
  step now pings s = send_ping k o s
  step now reconnects s = reconnect o s
  step now (closes reason) s = close k o reason s
  step now (request_due id) s = request_timer_fires id s
  step now transport_opened s = transport_connected k o s
  step now (transport_closed reason) s = handle_transport_close o now reason s
  step now attempt_done s = attempt_succeeded k s
  step now attempt_lost s = attempt_failed o now s
  step now retry_due s = reconnect_timer_fires o s
  step now heartbeat_due s = heartbeat_tick k s
  step now liveness_due s = liveness_timer_fires o now s
  step now accept_due s = pending_accept_timer_fires k o s
  step now lifetime_over s =
      close k o "timeout" (emit (walletpair.Sdk.DApp.State.error "Session lifetime expired") s)

  unfoldable pub run : List (ℕ × Event) → Session → Session
  unfolding step
  run [] s = s
  run ((now, e) ∷ es) s = run es (step now e s)
