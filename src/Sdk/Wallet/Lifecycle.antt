-- ===== src/Sdk/Wallet/Lifecycle.antt =====
-- wallet-session.ts: prepareJoin, confirmJoin, restore and destroy, and what a session goes through
-- after its pairing URI has been read.
use walletpair.Common.{
  ℕ, String, Bool, true, false, not, ◌&&◌, ◌||◌, Option, none, some, List, [], ◌∷◌, ◌=s◌,
  if◌then◌else◌, is_some,
}
use walletpair.Json.{Json}
use walletpair.Sdk.DApp.State.{Bytes, SessionCryptoContext}
use walletpair.Sdk.Wallet.State.{
  Crypto, Options, effective_capabilities, PairingUri, Session, Snapshot, connected, connects,
  error, fingerprint_is, emit, set_phase,
}
use walletpair.Sdk.DApp.Lifecycle.{is_empty}
use walletpair.Sdk.Wallet.Closing.{close, clear_requests}
use walletpair.Sdk.Wallet.Responses.{approve, reject, push_event, value_or_null}
use walletpair.Sdk.Wallet.Reconnecting.{
  handle_transport_close, attempt_failed, reconnect_timer_fires, reconnect, transport_connected,
  send_ping, heartbeat_tick, liveness_timer_fires,
}
use walletpair.Sdk.Wallet.Incoming.{WalletMessage}
use walletpair.Sdk.Wallet.Messages.{handle_message}

abbrev pub text_or_empty : Option String → String
text_or_empty none = ""
text_or_empty (some t) = t

-- What prepareJoin resets, with the parsed URI and the new keys, which are random.
unfoldable pub reset_join : PairingUri → Bytes → String → Session → Session
unfolding clear_requests
reset_join uri priv_key pub_key s = clear_requests (record s {
  intentional_close = false;
  channel_id = uri.ch;
  remote_pub_key = some uri.pubkey;
  relay_url = text_or_empty uri.relay;
  dapp_name = uri.name;
  send_seq = 0;
  recv_seq = none;
  send_key = none;
  recv_key = none;
  priv_key = priv_key;
  pub_key = pub_key;
})

module _ (k : Crypto) (o : Options) where
  abbrev pub join_context : PairingUri → String → SessionCryptoContext
  join_context uri pub_key = record {
    dapp_pub_key = k.b64url_encode uri.pubkey;
    wallet_pub_key = pub_key;
    capabilities = effective_capabilities o;
    wallet_meta = value_or_null o.meta;
  }

  -- The keys of the session; without a root key, its derivation has thrown.
  abbrev pub join_keys : Option Bytes → PairingUri → Session → Session
  join_keys none uri s = s
  join_keys (some root) uri s =
      let (to_wallet, to_dapp) =
        k.directional_keys root s.channel_id (join_context uri s.pub_key) in
      let code = k.session_fingerprint s.channel_id (k.b64url_encode uri.pubkey) in
      record (emit (fingerprint_is code) s) {
        send_key = some to_dapp;
        recv_key = some to_wallet;
        session_fingerprint = code;
        session_key = some (k.join_encryption_key root s.channel_id);
      }

  abbrev pub join_parsed : Option PairingUri → Bytes → String → Session → Session
  join_parsed none priv_key pub_key s = s
  join_parsed (some uri) priv_key pub_key s =
      let s' = reset_join uri priv_key pub_key s in
      join_keys (k.root_key priv_key uri.pubkey uri.ch) uri s'

  unfoldable pub prepare_join : String → Bytes → String → Session → Session
  unfolding reset_join
  prepare_join uri priv_key pub_key s = join_parsed (k.parse_pairing_uri uri) priv_key pub_key s

  -- Up to `await connect()`; without keys, an exception.
  unfoldable pub confirm_join : Session → Session
  confirm_join s =
      if s.channel_id =s "" || not (is_some s.send_key) || not (is_some s.recv_key)
      then s
      else emit connects s

  -- The fields that `restore` has read before it compares the capabilities.
  unfoldable pub load : Snapshot → Session → Session
  load d s = record s {
    channel_id = d.channel_id;
    priv_key = d.priv_key;
    pub_key = d.pub_key;
    remote_pub_key = d.remote_pub_key;
    send_key = d.send_key;
    recv_key = d.recv_key;
    send_seq = d.send_seq;
    recv_seq = d.recv_seq;
    relay_url = d.relay_url;
  }

  unfoldable pub same_scope : Snapshot → Bool
  same_scope d =
      (k.canonical_json d.capabilities =s k.canonical_json o.capabilities)
      && (k.canonical_json (value_or_null d.meta) =s k.canonical_json (value_or_null o.meta))

  -- What `restore` does with a snapshot that has a channel and the keys, and its result.
  unfoldable pub restore_snapshot : Snapshot → Session → Session × Bool
  unfolding load same_scope set_phase
  restore_snapshot d s =
      let s' = load d s in
      if same_scope d
      then (
        set_phase connected
            (record s' { dapp_name = d.dapp_name; session_start_time = d.session_start_time }),
        true,
      )
      else (s', false)

  -- `!d.channelId || !d.privKey`
  abbrev pub lacks_pairing : Snapshot → Bool
  lacks_pairing d = d.channel_id =s "" || is_empty d.priv_key

  abbrev pub lacks_keys : Snapshot → Bool
  lacks_keys d = not (is_some d.send_key) || not (is_some d.recv_key)

  -- What is read before the keys are looked at.
  abbrev pub load_keys : Snapshot → Session → Session
  load_keys d s = record s {
    channel_id = d.channel_id;
    priv_key = d.priv_key;
    pub_key = d.pub_key;
    remote_pub_key = d.remote_pub_key;
    send_key = d.send_key;
    recv_key = d.recv_key;
  }

  -- `restore`, of a text whose signature has been checked and whose JSON has been read, and its
  -- result.
  unfoldable pub restore : Snapshot → Session → Session × Bool
  unfolding restore_snapshot
  restore d s =
      if lacks_pairing d
      then (s, false)
      else if lacks_keys d
      then (load_keys d s, false)
      else restore_snapshot d s

  unfoldable pub destroy : Session → Session
  unfolding close clear_requests
  destroy s = record (clear_requests (close k o "normal" s)) {
    session_key = none;
    send_key = none;
    recv_key = none;
  }

-- A call of the application, a message, a timer, or an answer of the transport.
pub data Event : Type 0 where
  received : WalletMessage → Event
  -- The id and the result.
  approves : String → Option Json → Event
  -- The id, the code and the message.
  rejects : String → String → String → Event
  pushes : String → Option Json → Event
  confirms pings reconnects : Event
  closes : String → Event
  transport_opened : Event
  transport_closed : Option String → Event
  attempt_lost retry_due heartbeat_due liveness_due lifetime_over : Event

module _ (k : Crypto) (o : Options) where
  unfoldable pub step : ℕ → Event → Session → Session
  unfolding handle_message approve reject push_event confirm_join send_ping reconnect close
      transport_connected handle_transport_close attempt_failed reconnect_timer_fires heartbeat_tick
      liveness_timer_fires
  step now (received m) s = handle_message k o now m s
  step now (approves id result) s = (approve k o id result s).0
  step now (rejects id code message) s = (reject k o id code message s).0
  step now (pushes name value) s = (push_event k o name value s).0
  step now confirms s = confirm_join k o s
  step now pings s = send_ping k o s
  step now reconnects s = reconnect o s
  step now (closes reason) s = close k o reason s
  step now transport_opened s = transport_connected k o s
  step now (transport_closed reason) s = handle_transport_close o now reason s
  step now attempt_lost s = attempt_failed o now s
  step now retry_due s = reconnect_timer_fires o s
  step now heartbeat_due s = heartbeat_tick k o s
  step now liveness_due s = liveness_timer_fires o now s
  step now lifetime_over s = close k o "timeout" (emit (error "Session lifetime expired") s)

  unfoldable pub run : List (ℕ × Event) → Session → Session
  unfolding step
  run [] s = s
  run ((now, e) ∷ es) s = run es (step now e s)
