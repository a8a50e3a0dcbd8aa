-- ===== src/Relay/Types.antt =====
-- walletpair-websocket-relay-cf-worker/src/types.ts: the types that the worker's files share.
use walletpair.Common.{String, Bool, Option, List}

pub data Role : Type 0 where
  dapp wallet : Role

pub data ChannelState : Type 0 where
  no_channel waiting pending_accept connected closed : ChannelState

-- Stored in the attachment of a WebSocket.
pub record WsAttachment : Type 0 where
  pub role : Role
  pub peer_id : String
  pub channel_id : String

-- What storage keeps of a channel.
pub record PersistedChannelState : Type 0 where
  pub state : ChannelState
  pub dapp_peer_id : String
  pub wallet_peer_id : Option String
  pub is_reconnect : Bool
  pub pending_requests : List String

pub data CloseReasonString : Type 0 where
  normal user_rejected unsupported_capability channel_not_found channel_exists : CloseReasonString
  already_connected invalid_state invalid_role timeout rate_limited : CloseReasonString
  payload_too_large protocol_error unsupported_version decryption_failed : CloseReasonString
