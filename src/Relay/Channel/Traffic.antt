-- ===== src/Relay/Channel/Traffic.antt =====
-- channel.ts: handleData, handleClose and handleDisconnect.
use walletpair.Common.{
  ℕ, ◌+◌, String, Bool, true, false, not, ◌&&◌, Option, none, some, List, leb, is_just,
  if◌then◌else◌, length,
}
use walletpair.Relay.Types.{
  Role, dapp, wallet, ChannelState, waiting, pending_accept, connected, closed, WsAttachment,
  CloseReasonString, channel_not_found, invalid_state, invalid_role, rate_limited,
}
use walletpair.Relay.Protocol.{terminate, MessageType, t_req, t_res, t_evt, state_allows_message}
use walletpair.Relay.Channel.State.{
  pending_request_limit, unpaired_ttl_ms, Socket, built, raw_text, Channel, truthy, or_empty, add,
  delete, get_attachment, find_peer_ws, send, send_then_close, send_and_close, close_ws,
  persist_state, arm_alarm, delete_alarm,
}

abbrev pub other_role : Role → Role
other_role dapp = wallet
other_role wallet = dapp

-- `expectedPeerId`
unfoldable pub expected_peer_id : Role → Channel → Option String
expected_peer_id dapp c = c.dapp_peer_id
expected_peer_id wallet c = c.wallet_peer_id

-- A message of data: `req`, `res` and `evt` carry an id, which `ping` and `pong` do not.
pub data DataMessage : Type 0 where
  a_req a_res a_evt : String → DataMessage
  a_ping a_pong : DataMessage

abbrev pub type_of : DataMessage → MessageType
type_of (a_req id) = t_req
type_of (a_res id) = t_res
type_of (a_evt id) = t_evt
type_of a_ping = MessageType.t_ping
type_of a_pong = MessageType.t_pong

abbrev is_sealed : DataMessage → Bool
is_sealed (a_req id) = true
is_sealed (a_res id) = true
is_sealed (a_evt id) = true
is_sealed _ = false

abbrev pub is_connected : ChannelState → Bool
is_connected connected = true
is_connected _ = false

-- The reason that a message which the state does not allow is refused for.
unfoldable pub data_refusal : ChannelState → DataMessage → CloseReasonString
data_refusal state m =
    if is_sealed m && not (is_connected state) then invalid_state else invalid_role

-- The pending set after the message, or none if it has no room.
unfoldable pub track : DataMessage → List String → Option (List String)
unfolding add delete
track (a_req id) pending =
    if leb pending_request_limit (length pending) then none else some (add pending id)
track (a_res id) pending = some (delete pending id)
track _ pending = some pending

abbrev pub persist_if_tracked : DataMessage → Channel → Channel
persist_if_tracked (a_req id) c = persist_state c
persist_if_tracked (a_res id) c = persist_state c
persist_if_tracked _ c = c

-- The wallet is gone before it was accepted: the channel waits for another.
unfoldable pub wallet_gone : ℕ → Channel → Channel
unfolding persist_state
wallet_gone now c = persist_state (
    arm_alarm (now + unpaired_ttl_ms)
      (record c { wallet_peer_id = none; is_reconnect = false; channel_state = waiting }))

module _ (throws : Socket → Bool) where
  -- The frame is dropped if the peer is absent or its socket fails.
  unfoldable pub forward : Role → String → Channel → Channel
  unfolding find_peer_ws send
  forward r raw c = elim (find_peer_ws r c.sockets) [
    | none ↦ c
    | some s ↦ elim (send throws s.id (raw_text raw) c) [ none ↦ c | some c' ↦ c' ]
  ]

  -- The pending set is written back and the message forwarded, unless the set is full.
  unfoldable pub admit :
      ℕ → String → String → DataMessage → Role → Option (List String) → Channel → Channel
  unfolding forward send_and_close persist_state
  admit id raw ch m sender_role none c = send_and_close throws id (terminate ch rate_limited) c
  admit id raw ch m sender_role (some pending) c =
      persist_if_tracked m
        (forward (other_role sender_role) raw (record c { pending_requests = pending }))

  unfoldable pub handle_data : ℕ → String → String → String → DataMessage → Role → Channel → Channel
  unfolding expected_peer_id state_allows_message data_refusal track admit send_and_close
  handle_data id raw ch from m sender_role c =
      if not (is_just from (expected_peer_id sender_role c))
      then send_and_close throws id (terminate ch invalid_role) c
      else if not (state_allows_message c.channel_state (type_of m) sender_role)
      then send_and_close throws id (terminate ch (data_refusal c.channel_state m)) c
      else admit id raw ch m sender_role (track m c.pending_requests) c

  unfoldable pub close_peer : Role → String → Channel → Channel
  unfolding find_peer_ws send_then_close
  close_peer r raw c = elim (find_peer_ws r c.sockets) [
    | none ↦ c
    | some s ↦ send_then_close throws s.id (raw_text raw) "peer_closed" c
  ]

  unfoldable pub handle_close : ℕ → String → String → String → Role → Channel → Channel
  unfolding expected_peer_id send_and_close close_peer close_ws persist_state
  handle_close id raw ch from sender_role c =
      if not (is_just from (expected_peer_id sender_role c))
      then send_and_close throws id (terminate ch invalid_role) c
      else let c' = close_ws id "closed" (close_peer (other_role sender_role) raw c) in
        delete_alarm (persist_state (record c' { channel_state = closed }))

  -- The dApp is gone before the pairing is complete: the wallet is sent away, the channel closed.
  unfoldable pub dapp_gone : String → Channel → Channel
  unfolding find_peer_ws send_then_close persist_state
  dapp_gone ch c =
      let c' : Channel = elim (find_peer_ws wallet c.sockets) [
        | none ↦ c
        | some s ↦
            send_then_close throws s.id (built (terminate ch channel_not_found)) "dapp_disconnected"
              c
      ] in
      delete_alarm (persist_state (record c' { channel_state = closed }))

  unfoldable pub disconnect_in : ChannelState → Role → ℕ → String → Channel → Channel
  unfolding dapp_gone wallet_gone
  disconnect_in waiting dapp now ch c = dapp_gone ch c
  disconnect_in pending_accept dapp now ch c = dapp_gone ch c
  disconnect_in pending_accept wallet now ch c = wallet_gone now c
  disconnect_in _ _ now ch c = c

  abbrev disconnect_of : Option WsAttachment → ℕ → Channel → Channel
  disconnect_of none now c = c
  disconnect_of (some a) now c =
      if truthy c.channel_id
      then disconnect_in c.channel_state a.role now (or_empty c.channel_id) c
      else c

  unfoldable pub handle_disconnect : ℕ → ℕ → Channel → Channel
  unfolding get_attachment disconnect_in
  handle_disconnect now id c = disconnect_of (get_attachment id c.sockets) now c
