-- ===== src/Sdk/Wallet/State.antt =====
-- wallet-session.ts: the fields of `WalletSession`, its snapshot, setPhase and sendRaw. `out`
-- records what the session does to the world, newest first. Timers are kept as whether they are
-- armed. A snapshot is saved at once, where the session has a place for it. The URL that the
-- transport is given is left out.
use walletpair.Common.{
  ℕ, String, Bool, true, false, Option, none, some, List, ◌∷◌, ltb, if◌then◌else◌,
}
use walletpair.Json.{Json, obj, Fields, end, field, get}
use walletpair.Sdk.DApp.State.{Bytes, AadHeader, SessionCryptoContext, given}

pub data WalletPhase : Type 0 where
  idle waiting waiting_accept connected disconnected closed : WalletPhase

-- What the session adds to a message, by its type.
pub data Payload : Type 0 where
  -- `sealed_join`
  join : Option String → Payload
  -- The id and the sealed payload.
  res evt : String → String → Payload
  ping pong : Payload
  close : String → Payload

-- What parsePairingUri makes of a URI, as far as the session reads it.
pub record PairingUri : Type 0 where
  pub ch : String
  pub pubkey : Bytes
  pub relay : Option String
  pub name : Option String

-- The functions of crypto.ts that the session calls. `none` stands for an exception.
pub record Crypto : Type 0 where
  pub b64url_encode : Bytes → String
  pub parse_pairing_uri : String → Option PairingUri
  -- computeSharedSecret, then deriveSessionKey.
  pub root_key : Bytes → Bytes → String → Option Bytes
  -- deriveDirectionalSessionKeys: from the dApp to the wallet, and back.
  pub directional_keys : Bytes → String → SessionCryptoContext → Bytes × Bytes
  pub join_encryption_key : Bytes → String → Bytes
  pub session_fingerprint : String → String → String
  pub seal_join : Bytes → String → Json → Option Json → String
  pub seal_payload : Bytes → String → ℕ → Json → AadHeader → String
  -- The number, the value, and the plaintext that it was read from.
  pub unseal_payload : Bytes → String → String → AadHeader → Option (ℕ × Json × Bytes)
  pub sha256_hex : Bytes → String
  pub canonical_json : Json → String
  -- The bytes of a value in JSON.
  pub json_size : Json → ℕ
  -- The bytes of a message of the channel and the sender in JSON.
  pub wire_size : String → String → Payload → ℕ

-- The options of the constructor; a limit of 0 is none.
pub record Options : Type 0 where
  -- As JSON, and the methods in it.
  pub capabilities : Json
  pub methods : List String
  pub meta : Option Json
  pub heartbeat_interval : ℕ
  pub max_reconnect_attempts : ℕ
  pub max_reconnect_duration_ms : ℕ
  pub session_ttl : ℕ
  -- There is a `persistence`.
  pub persists : Bool

-- A property where it is neither undefined nor null.
abbrev pub copy_given : String → Fields → Fields → Fields
copy_given key f rest = elim (given (get key f)) [ none ↦ rest | some v ↦ field key v rest ]

-- A property, null included; undefined is left out of the object.
abbrev pub copy : String → Fields → Fields → Fields
copy key f rest = elim (get key f) [ none ↦ rest | some v ↦ field key v rest ]

-- What computeScopeIntersection grants.
unfoldable pub compute_scope_intersection : Json → Json
unfolding get
compute_scope_intersection (obj f) = obj (
    copy "methods" f (
      copy "events" f (
        copy "chains" f (
          copy_given "version" f (
            copy_given "rpcUrls" f
              (copy_given "walletCapabilities" f (copy_given "contractBytecode" f end)))))))
compute_scope_intersection v = v

-- `effectiveCapabilities` from prepareJoin on; before, nothing that depends on more than the
-- methods reads them.
abbrev pub effective_capabilities : Options → Json
effective_capabilities o = compute_scope_intersection o.capabilities

pub record PendingRequestRecord : Type 0 where
  pub params_hash : String
  pub method : String

pub record CachedRequestResponse : Type 0 where
  pub params_hash : String
  pub method : String
  pub ok : Bool
  pub result : Option Json
  pub too_large : Bool

-- What `serialize` writes.
pub record Snapshot : Type 0 where
  pub channel_id : String
  pub priv_key : Bytes
  pub pub_key : String
  pub remote_pub_key : Option Bytes
  pub send_key : Option Bytes
  pub recv_key : Option Bytes
  pub send_seq : ℕ
  pub recv_seq : Option ℕ
  pub relay_url : String
  pub capabilities : Json
  pub meta : Option Json
  pub dapp_name : Option String
  pub session_start_time : Option ℕ

pub data Output : Type 0 where
  -- With the channel and the sender.
  sends : String → String → Payload → Output
  connects disconnects : Output
  phase_is : WalletPhase → Output
  error : String → Output
  fingerprint_is : String → Output
  -- The id, the method and the parameters.
  request : String → String → Json → Output
  reconnect_exhausted : ℕ → Output
  saved : Snapshot → Output
  cleared : Output
  -- A kind, a reason, and whether the session will reconnect.
  logged : String → Option String → Bool → Output

pub record Session : Type 0 where
  pub phase : WalletPhase
  pub channel_id : String
  pub session_fingerprint : String
  pub priv_key : Bytes
  pub pub_key : String
  pub remote_pub_key : Option Bytes
  -- For the first join, which erases it.
  pub session_key : Option Bytes
  pub send_key : Option Bytes
  pub recv_key : Option Bytes
  pub send_seq : ℕ
  -- `none` stands for -1.
  pub recv_seq : Option ℕ
  pub relay_url : String
  pub dapp_name : Option String
  pub intentional_close : Bool
  pub evt_counter : ℕ
  pub pending_request_records : List (String × PendingRequestRecord)
  pub idempotency_cache : List (String × CachedRequestResponse)
  pub broadcast_response_cache : List (String × CachedRequestResponse)
  pub reconnecting : Bool
  pub reconnect_attempt : ℕ
  -- 0 stands for no streak.
  pub reconnect_started_at : ℕ
  pub session_start_time : Option ℕ
  pub reconnect_timer : Bool
  pub heartbeat_timer : Bool
  pub liveness_timer : Bool
  -- After how long it fires.
  pub session_ttl_timer : Option ℕ
  pub out : List Output

abbrev pub same_phase : WalletPhase → WalletPhase → Bool
same_phase idle idle = true
same_phase waiting waiting = true
same_phase waiting_accept waiting_accept = true
same_phase connected connected = true
same_phase disconnected disconnected = true
same_phase closed closed = true
same_phase _ _ = false

abbrev pub emit : Output → Session → Session
emit o s = record s { out = o ∷ s.out }

unfoldable pub stop_heartbeat : Session → Session
stop_heartbeat s = record s { heartbeat_timer = false; liveness_timer = false }

unfoldable pub set_phase : WalletPhase → Session → Session
unfolding stop_heartbeat
set_phase p s =
    if same_phase s.phase p
    then s
    else emit (phase_is p) (
        if same_phase p connected
        then record s { phase = p }
        else stop_heartbeat (record s { phase = p }))

module _ (o : Options) where
  unfoldable pub serialize : Session → Snapshot
  serialize s = record {
    channel_id = s.channel_id;
    priv_key = s.priv_key;
    pub_key = s.pub_key;
    remote_pub_key = s.remote_pub_key;
    send_key = s.send_key;
    recv_key = s.recv_key;
    send_seq = s.send_seq;
    recv_seq = s.recv_seq;
    relay_url = s.relay_url;
    capabilities = o.capabilities;
    meta = o.meta;
    dapp_name = s.dapp_name;
    session_start_time = s.session_start_time;
  }

  unfoldable pub persist_snapshot : Session → Session
  unfolding serialize
  persist_snapshot s = if o.persists then emit (saved (serialize s)) s else s

  unfoldable pub clear_persistence : Session → Session
  clear_persistence s = if o.persists then emit cleared s else s

module _ (k : Crypto) where
  unfoldable pub send_raw : Payload → Session → Session
  send_raw p s =
      if ltb 65536 (k.wire_size s.channel_id s.pub_key p)
      then emit (error "Message exceeds 64 KB limit") s
      else emit (sends s.channel_id s.pub_key p) s
