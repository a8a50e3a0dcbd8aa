-- ===== src/Relay/Tests.antt =====
-- A pairing on a channel, message by message, and the theorems of the worker at its states.
mod Runs
mod Messages
use walletpair.Common.{
  ℕ, String, Bool, true, false, Option, none, some, List, [], ◌∷◌, ◌≡◌, refl, inl, inr, ◌⊎◌, ◌==◌,
  ◌=s◌, if◌then◌else◌, every, codes, length, not,
}
use walletpair.Json.{Json, JsNumber, whole}
use walletpair.Relay.Types.{
  dapp, wallet, ChannelState, no_channel, waiting, pending_accept, connected, closed, WsAttachment,
  PersistedChannelState,
}
use walletpair.Relay.Protocol.{
  ClientMessage, create, join, accept, req, res, Parsed, ok, fail, ch_of, from_of, parse_message,
  parse_value, parse_body, validate_channel_id, validate_peer_id, must_not_send, is_b64url, is_hex,
}
use walletpair.Relay.Protocol.Parsing.{
  encode, parse_message-IsValid, parse_value-encode, parse_body_adapter, TargetIsValid,
}
use walletpair.Relay.Channel.State.{
  Socket, Channel, Flow, returned, ensure_initialized, hibernate, get_attachment,
}
use walletpair.Relay.Channel.Events.{Message, text, web_socket_message}
use walletpair.Relay.Channel.Runs.{
  Request, Event, requested, received, closed_by_peer, timed_out, evicted, step, run, new_channel,
}

abbrev pub channel : String
channel = "0123456789abcdef0123456789abcdef0123456789abcdef0123456789abcdef"

abbrev pub dapp_key : String
dapp_key = "AAAAAAAAAAAAAAAAAAAAAAAAAAAAAAAAAAAAAAAAAAA"

abbrev pub wallet_key : String
wallet_key = "BBBBBBBBBBBBBBBBBBBBBBBBBBBBBBBBBBBBBBBBBBB"

-- A JSON parser that knows the texts of one pairing.
abbrev pub read_json : String → Option Json
unfolding encode
read_json raw =
    if raw =s "create"
    then some (encode (whole 1) (create channel dapp_key))
    else if raw =s "join"
    then some (encode (whole 2) (join channel wallet_key false))
    else if raw =s "accept"
    then some (encode (whole 3) (accept channel dapp_key wallet_key))
    else if raw =s "req"
    then some (encode (whole 4) (req channel dapp_key "r1"))
    else none

-- A send throws on a socket that is not open.
abbrev pub throws_unless_open : Socket → Bool
throws_unless_open s = not (s.ready_state == 1)

abbrev pub upgrade_request : Request
upgrade_request = record {
  upgrade = some "WebSocket";
  protocols = some "chat, walletpair.v1";
  ch = some channel;
}

abbrev pub on : Event → (Socket → Bool) × Event
on e = (throws_unless_open, e)

-- The dApp on socket 1, the wallet on socket 2.
abbrev pub waiting_history : List ((Socket → Bool) × Event)
waiting_history = on (requested 1 upgrade_request) ∷ on (received 10 1 (text "create")) ∷ []

abbrev pub pairing : List ((Socket → Bool) × Event)
pairing =
    on (requested 1 upgrade_request)
    ∷ on (received 10 1 (text "create"))
    ∷ on (requested 2 upgrade_request)
    ∷ on (received 20 2 (text "join"))
    ∷ []

-- A channel after the accept, as it is in memory.
abbrev pub dapp_socket : Socket
dapp_socket = record {
  id = 1;
  ready_state = 1;
  attachment = some (record { role = dapp; peer_id = dapp_key; channel_id = channel });
}

abbrev pub wallet_socket : Socket
wallet_socket = record {
  id = 2;
  ready_state = 1;
  attachment = some (record { role = wallet; peer_id = wallet_key; channel_id = channel });
}

abbrev pub stored : ChannelState → Option String → PersistedChannelState
stored state w = record {
  state = state;
  dapp_peer_id = dapp_key;
  wallet_peer_id = w;
  is_reconnect = false;
  pending_requests = [];
}

abbrev pub channel_in : ChannelState → Option String → List Socket → Channel
channel_in state w sockets = record {
  channel_state = state;
  channel_id = some channel;
  dapp_peer_id = some dapp_key;
  wallet_peer_id = w;
  is_reconnect = false;
  pending_requests = [];
  initialized = true;
  sockets = sockets;
  storage = some (stored state w);
  alarm_at = some 86400000;
  sent = [];
}

abbrev pub connected_channel : Channel
connected_channel = channel_in connected (some wallet_key) (dapp_socket ∷ wallet_socket ∷ [])
