-- ===== src/Relay/Channel/State.antt =====
-- The fields of `ChannelDO`, the sockets, the storage and the alarm of its context, and the helper
-- methods (channel.ts: fields, findPeerWs to ensureInitialized). `sent` records what goes out on
-- the sockets, newest first. Console output is left out.
use walletpair.Common.{
  ℕ, ◌*◌, String, Bool, true, false, not, ◌&&◌, ◌||◌, Option, none, some, List, [], ◌∷◌, ◌++◌, ◌==◌,
  ◌=s◌, if◌then◌else◌,
}
use walletpair.Relay.Types.{
  Role, dapp, wallet, ChannelState, no_channel, WsAttachment, PersistedChannelState,
}
use walletpair.Relay.Protocol.{AdapterMessage}

abbrev pub max_message_bytes : ℕ
max_message_bytes = 65536

abbrev pub pending_request_limit : ℕ
pending_request_limit = 256

abbrev pub unpaired_ttl_ms : ℕ
unpaired_ttl_ms = 5 * 60 * 1000

abbrev pub connected_ttl_ms : ℕ
connected_ttl_ms = 24 * 60 * 60 * 1000

-- 0 connecting, 1 open, 2 closing, 3 closed.
pub record Socket : Type 0 where
  pub id : ℕ
  pub ready_state : ℕ
  pub attachment : Option WsAttachment

pub data Frame : Type 0 where
  built : AdapterMessage → Frame
  raw_text : String → Frame

pub data Output : Type 0 where
  sends : ℕ → Frame → Output
  closes : ℕ → String → Output

pub record Channel : Type 0 where
  pub channel_state : ChannelState
  pub channel_id : Option String
  pub dapp_peer_id : Option String
  pub wallet_peer_id : Option String
  pub is_reconnect : Bool
  pub pending_requests : List String
  pub initialized : Bool
  pub sockets : List Socket
  pub storage : Option PersistedChannelState
  pub alarm_at : Option ℕ
  pub sent : List Output

-- A method that sends outside a `try` may end in an exception.
pub data Flow : Type 0 where
  returned thrown : Flow

-- A string is true unless it is empty; null is false.
abbrev pub truthy : Option String → Bool
truthy none = false
truthy (some s) = not (s =s "")

abbrev pub or_empty : Option String → String
or_empty none = ""
or_empty (some s) = s

-- `s || null`
abbrev pub or_null : String → Option String
or_null s = if s =s "" then none else some s

-- The operations of a `Set` of strings, kept in the order of insertion.
unfoldable pub has : String → List String → Bool
has x [] = false
has x (y ∷ ys) = x =s y || has x ys

unfoldable pub add : List String → String → List String
unfolding has
add s x = if has x s then s else s ++ x ∷ []

unfoldable pub delete : List String → String → List String
delete [] x = []
delete (y ∷ ys) x = if x =s y then ys else y ∷ delete ys x

unfoldable pub set_of : List String → List String → List String
unfolding add
set_of s [] = s
set_of s (x ∷ xs) = set_of (add s x) xs

unfoldable pub socket_at : ℕ → List Socket → Option Socket
socket_at id [] = none
socket_at id (s ∷ ss) = if s.id == id then some s else socket_at id ss

unfoldable pub update : ℕ → (Socket → Socket) → List Socket → List Socket
update id f [] = []
update id f (s ∷ ss) = (if s.id == id then f s else s) ∷ update id f ss

abbrev attachment_of : Option Socket → Option WsAttachment
attachment_of none = none
attachment_of (some s) = s.attachment

unfoldable pub get_attachment : ℕ → List Socket → Option WsAttachment
unfolding socket_at
get_attachment id sockets = attachment_of (socket_at id sockets)

unfoldable pub set_attachment : ℕ → WsAttachment → List Socket → List Socket
unfolding update
set_attachment id a sockets = update id (λ s. record s { attachment = some a }) sockets

abbrev pub same_role : Role → Role → Bool
same_role dapp dapp = true
same_role wallet wallet = true
same_role _ _ = false

abbrev pub has_role : Role → Option WsAttachment → Bool
has_role r none = false
has_role r (some a) = same_role a.role r

-- The first open socket of the role.
unfoldable pub find_peer_ws : Role → List Socket → Option Socket
find_peer_ws r [] = none
find_peer_ws r (s ∷ ss) =
    if has_role r s.attachment && s.ready_state == 1 then some s else find_peer_ws r ss

-- `ws.close` on a socket that is already closing or closed does nothing.
abbrev pub closing : Socket → Socket
closing s = if s.ready_state == 3 then s else record s { ready_state = 2 }

unfoldable pub close_ws : ℕ → String → Channel → Channel
unfolding update
close_ws id reason c = record c {
  sockets = update id closing c.sockets;
  sent = closes id reason ∷ c.sent;
}

-- Whether `ws.send` throws is up to the platform, which may look at the socket.
module _ (throws : Socket → Bool) where
  abbrev send_to : Option Socket → Frame → Channel → Option Channel
  send_to none frame c = none
  send_to (some s) frame c =
      if throws s then none else some (record c { sent = sends s.id frame ∷ c.sent })

  unfoldable pub send : ℕ → Frame → Channel → Option Channel
  unfolding socket_at
  send id frame c = send_to (socket_at id c.sockets) frame c

  -- `try { ws.send(frame); ws.close(1000, reason) } catch {}`
  unfoldable pub send_then_close : ℕ → Frame → String → Channel → Channel
  unfolding send close_ws
  send_then_close id frame reason c = elim (send id frame c) [
    | none ↦ c
    | some c' ↦ close_ws id reason c'
  ]

  unfoldable pub send_and_close : ℕ → AdapterMessage → Channel → Channel
  unfolding send_then_close
  send_and_close id message c = send_then_close id (built message) "rejected" c

unfoldable pub snapshot : Channel → PersistedChannelState
snapshot c = record {
  state = c.channel_state;
  dapp_peer_id = or_empty c.dapp_peer_id;
  wallet_peer_id = c.wallet_peer_id;
  is_reconnect = c.is_reconnect;
  pending_requests = c.pending_requests;
}

unfoldable pub persist_state : Channel → Channel
unfolding snapshot
persist_state c = if truthy c.channel_id then record c { storage = some (snapshot c) } else c

-- `setAlarm` and `deleteAlarm`.
abbrev pub arm_alarm : ℕ → Channel → Channel
arm_alarm t c = record c { alarm_at = some t }

abbrev pub delete_alarm : Channel → Channel
delete_alarm c = record c { alarm_at = none }

unfoldable pub restore : Option PersistedChannelState → Channel → Channel
unfolding set_of
restore none c = c
restore (some stored) c = record c {
  channel_state = stored.state;
  dapp_peer_id = or_null stored.dapp_peer_id;
  wallet_peer_id = stored.wallet_peer_id;
  is_reconnect = stored.is_reconnect;
  pending_requests = set_of [] stored.pending_requests;
}

abbrev channel_id_of : Option WsAttachment → Option String
channel_id_of none = none
channel_id_of (some a) = some a.channel_id

-- The channel of the first attachment that names one.
unfoldable pub attached_channel : List Socket → Option String
attached_channel [] = none
attached_channel (s ∷ ss) =
    if truthy (channel_id_of s.attachment) then channel_id_of s.attachment else attached_channel ss

abbrev pub id_or : Option String → Option String → Option String
id_or known found = if truthy known then known else (if truthy found then found else known)

unfoldable pub ensure_initialized : Channel → Channel
unfolding restore attached_channel
ensure_initialized c =
    let r = restore c.storage (record c { initialized = true }) in
    if c.initialized
    then c
    else record r { channel_id = id_or r.channel_id (attached_channel r.sockets) }

-- The platform takes the object out of memory: what is left are the sockets with their
-- attachments, the storage and the alarm.
unfoldable pub hibernate : Channel → Channel
hibernate c = record c {
  channel_state = no_channel;
  channel_id = none;
  dapp_peer_id = none;
  wallet_peer_id = none;
  is_reconnect = false;
  pending_requests = [];
  initialized = false;
}
