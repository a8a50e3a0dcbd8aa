-- ===== src/Sdk/DApp/State.antt =====
-- dapp-session.ts: the fields of `DAppSession`, its snapshot, setPhase and sendRaw. `out` records
-- what the session does to the world, newest first. Timers are kept as whether they are armed.
-- A snapshot is saved at once, where the session has a place for it.
use walletpair.Common.{
  none, some, ℕ, String, Bool, true, false, Option, List, ◌∷◌, ltb, if◌then◌else◌,
}
use walletpair.Json.{Json, null, Fields}
use walletpair.Sdk.Types.{DAppPhase, idle, waiting, pending_accept, connected, disconnected, closed}

abbrev pub Bytes : Type 0
Bytes = List ℕ

-- What the session adds to a message, by its type.
pub data Payload : Type 0 where
  create : Payload
  accept : String → Payload
  close : String → Payload
  -- The id and the sealed parameters.
  req : String → String → Payload
  ping pong : Payload

-- `type`, `from` and `id`, which a sealed payload is bound to.
pub record AadHeader : Type 0 where
  pub kind : String
  pub from : String
  pub id : String

pub record SessionCryptoContext : Type 0 where
  pub dapp_pub_key : String
  pub wallet_pub_key : String
  pub capabilities : Json
  pub wallet_meta : Json

-- The functions of crypto.ts that the session calls. `none` stands for an exception.
pub record Crypto : Type 0 where
  pub b64url_decode : String → Option Bytes
  pub b64url_encode : Bytes → String
  -- computeSharedSecret, then deriveSessionKey.
  pub root_key : Bytes → Bytes → String → Option Bytes
  -- deriveJoinEncryptionKey, then unsealJoin.
  pub unseal_join : Bytes → String → String → Option Fields
  -- deriveDirectionalSessionKeys: from the dApp to the wallet, and back.
  pub directional_keys : Bytes → String → SessionCryptoContext → Bytes × Bytes
  pub seal_payload : Bytes → String → ℕ → Json → AadHeader → String
  pub unseal_payload : Bytes → String → String → AadHeader → Option (ℕ × Json)
  pub canonical_json : Json → String
  -- The bytes of a message of the channel and the sender in JSON.
  pub wire_size : String → String → Payload → ℕ

-- The options of the constructor; a limit of 0 is none.
pub record Options : Type 0 where
  pub declared_methods : List String
  pub declared_chains : List String
  pub auto_accept : Bool
  pub resend_on_reconnect : Bool
  pub heartbeat_interval : ℕ
  pub max_reconnect_attempts : ℕ
  pub max_reconnect_duration_ms : ℕ
  pub session_ttl : ℕ
  -- There is a `persistence`.
  pub persists : Bool

pub record PendingRequest : Type 0 where
  pub id : String
  pub method : String
  pub params : Option Json

-- What `serialize` writes, without the dApp's metadata.
pub record Snapshot : Type 0 where
  pub channel_id : String
  pub priv_key : Bytes
  pub pub_key : String
  pub remote_pub_key : Option Bytes
  pub send_key : Option Bytes
  pub recv_key : Option Bytes
  pub send_seq : ℕ
  pub recv_seq : Option ℕ
  pub req_counter : ℕ
  pub paired : Bool
  pub approved_scope_recorded : Bool
  pub approved_capabilities : Option Json
  pub approved_wallet_meta : Option Json
  pub approved_wallet_pub_key : Option String
  pub session_start_time : Option ℕ

pub data Output : Type 0 where
  -- With the channel and the sender.
  sends : String → String → Payload → Output
  connects disconnects : Output
  phase_is : DAppPhase → Output
  error : String → Output
  wallet_joined : Option Json → Option Json → Output
  resolved : String → Option Json → Output
  rejected : String → String → Output
  -- With the code and the message of the wallet.
  declined : String → Option Json → Option Json → Output
  event : Json → Json → Output
  reconnect_exhausted : ℕ → Output
  saved : Snapshot → Output
  cleared : Output
  -- A kind, a reason, and whether the session will reconnect.
  logged : String → Option String → Bool → Output

pub record Session : Type 0 where
  pub phase : DAppPhase
  pub channel_id : String
  pub priv_key : Bytes
  pub pub_key : String
  pub remote_pub_key : Option Bytes
  pub send_key : Option Bytes
  pub recv_key : Option Bytes
  pub send_seq : ℕ
  -- `none` stands for -1.
  pub recv_seq : Option ℕ
  pub req_counter : ℕ
  pub paired : Bool
  pub intentional_close : Bool
  pub wallet_capabilities : Option Json
  pub wallet_meta : Option Json
  pub approved_scope_recorded : Bool
  pub approved_capabilities : Option Json
  pub approved_wallet_meta : Option Json
  pub approved_wallet_pub_key : Option String
  pub pending_requests : List PendingRequest
  pub reconnecting : Bool
  pub reconnect_attempt : ℕ
  -- 0 stands for no streak.
  pub reconnect_started_at : ℕ
  pub session_start_time : Option ℕ
  pub pending_accept_timer : Bool
  pub reconnect_timer : Bool
  pub heartbeat_timer : Bool
  pub liveness_timer : Bool
  -- After how long it fires.
  pub session_ttl_timer : Option ℕ
  pub out : List Output

abbrev pub same_phase : DAppPhase → DAppPhase → Bool
same_phase idle idle = true
same_phase waiting waiting = true
same_phase pending_accept pending_accept = true
same_phase connected connected = true
same_phase disconnected disconnected = true
same_phase closed closed = true
same_phase _ _ = false

abbrev pub emit : Output → Session → Session
emit o s = record s { out = o ∷ s.out }

unfoldable pub stop_heartbeat : Session → Session
stop_heartbeat s = record s { heartbeat_timer = false; liveness_timer = false }

unfoldable pub set_phase : DAppPhase → Session → Session
unfolding stop_heartbeat
set_phase p s =
    if same_phase s.phase p
    then s
    else emit (phase_is p) (
        if same_phase p connected
        then record s { phase = p }
        else stop_heartbeat (record s { phase = p }))

-- `null` and `undefined` count as none.
abbrev pub given : Option Json → Option Json
given none = none
given (some null) = none
given (some v) = some v

unfoldable pub serialize : Session → Snapshot
serialize s = record {
  channel_id = s.channel_id;
  priv_key = s.priv_key;
  pub_key = s.pub_key;
  remote_pub_key = s.remote_pub_key;
  send_key = s.send_key;
  recv_key = s.recv_key;
  send_seq = s.send_seq;
  recv_seq = s.recv_seq;
  req_counter = s.req_counter;
  paired = s.paired;
  approved_scope_recorded = s.approved_scope_recorded;
  approved_capabilities = given s.approved_capabilities;
  approved_wallet_meta = given s.approved_wallet_meta;
  approved_wallet_pub_key = s.approved_wallet_pub_key;
  session_start_time = s.session_start_time;
}

module _ (o : Options) where
  unfoldable pub persist_snapshot : Session → Session
  unfolding serialize
  persist_snapshot s = if o.persists then emit (saved (serialize s)) s else s

  unfoldable pub clear_persistence : Session → Session
  clear_persistence s = if o.persists then emit cleared s else s

module _ (k : Crypto) where
  unfoldable pub send_raw : Payload → Session → Session
  send_raw p s =
      if ltb 65536 (k.wire_size s.channel_id s.pub_key p)
      then emit (error "Message exceeds 64 KB limit") s
      else emit (sends s.channel_id s.pub_key p) s
