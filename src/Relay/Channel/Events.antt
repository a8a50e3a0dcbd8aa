-- ===== src/Relay/Channel/Events.antt =====
-- channel.ts: webSocketMessage, webSocketClose, webSocketError, alarm, handleFirstMessage and
-- handleMessage. A handler runs to its end before the next event, since the platform delivers none
-- while it waits for storage.
use walletpair.Common.{
  ℕ, String, Bool, not, ◌&&◌, Option, none, some, List, [], ◌∷◌, ltb, is_just, if◌then◌else◌, units,
  codes,
}
use walletpair.Json.{Json}
use walletpair.Relay.Types.{
  Role, WsAttachment, CloseReasonString, closed, invalid_state, invalid_role, timeout,
  payload_too_large, protocol_error,
}
use walletpair.Relay.Protocol.{
  ClientMessage, create, join, accept, req, res, evt, ping, pong, close, ch_of, Parsed, ok, fail,
  parse_message, parse_error_to_close_reason, terminate,
}
use walletpair.Relay.Channel.State.{
  max_message_bytes, Socket, built, Channel, Flow, returned, truthy, or_empty, get_attachment,
  send_then_close, send_and_close, persist_state, ensure_initialized,
}
use walletpair.Relay.Channel.Pairing.{handle_create, handle_join, handle_accept}
use walletpair.Relay.Channel.Traffic.{
  a_req, a_res, a_evt, a_ping, a_pong, handle_data, handle_close, handle_disconnect,
}

pub data Message : Type 0 where
  text : String → Message
  binary : Message

-- `this.channelId ?? "unknown"`
abbrev pub id_or_unknown : Option String → String
id_or_unknown none = "unknown"
id_or_unknown (some ch) = ch

module _ (throws : Socket → Bool) where
  unfoldable pub handle_first_message : ℕ → ℕ → ClientMessage → String → Channel → Channel × Flow
  unfolding handle_create handle_join ch_of send_and_close
  handle_first_message now id (create ch from) raw c = handle_create throws now id ch from c
  handle_first_message now id (join ch from sealed_join_null) raw c =
      handle_join throws id ch from sealed_join_null raw c
  handle_first_message now id msg raw c =
      (send_and_close throws id (terminate (ch_of msg) invalid_state) c, returned)

  -- A create on a socket that has a role: from the stored dApp only, if there is one.
  unfoldable pub recreate : ℕ → ℕ → String → String → Channel → Channel × Flow
  unfolding handle_create send_and_close
  recreate now id ch from c =
      if truthy c.dapp_peer_id && not (is_just from c.dapp_peer_id)
      then (send_and_close throws id (terminate ch invalid_role) c, returned)
      else handle_create throws now id ch from c

  unfoldable pub handle_message : ℕ → ℕ → Role → ClientMessage → String → Channel → Channel × Flow
  unfolding recreate send_and_close handle_accept handle_data handle_close
  handle_message now id role (create ch from) raw c = recreate now id ch from c
  handle_message now id role (join ch from b) raw c =
      (send_and_close throws id (terminate ch invalid_state) c, returned)
  handle_message now id role (accept ch from target) raw c =
      (handle_accept throws now id ch from target role c, returned)
  handle_message now id role (req ch from n) raw c =
      (handle_data throws id raw ch from (a_req n) role c, returned)
  handle_message now id role (res ch from n) raw c =
      (handle_data throws id raw ch from (a_res n) role c, returned)
  handle_message now id role (evt ch from n) raw c =
      (handle_data throws id raw ch from (a_evt n) role c, returned)
  handle_message now id role (ping ch from) raw c =
      (handle_data throws id raw ch from a_ping role c, returned)
  handle_message now id role (pong ch from) raw c =
      (handle_data throws id raw ch from a_pong role c, returned)
  handle_message now id role (close ch from reason) raw c =
      (handle_close throws id raw ch from role c, returned)

  abbrev pub dispatch :
      Option WsAttachment → ℕ → ℕ → ClientMessage → String → Channel → Channel × Flow
  dispatch none now id msg raw c = handle_first_message now id msg raw c
  dispatch (some a) now id msg raw c = handle_message now id a.role msg raw c

  abbrev pub reject_frame : ℕ → CloseReasonString → Channel → Channel × Flow
  reject_frame id reason c =
      (send_and_close throws id (terminate (id_or_unknown c.channel_id) reason) c, returned)

  -- A message whose `ch` is not this channel's is refused.
  unfoldable pub deliver : ℕ → ℕ → Parsed ClientMessage → String → Channel → Channel × Flow
  unfolding ch_of parse_error_to_close_reason send_and_close get_attachment handle_first_message
      handle_message
  deliver now id (fail e) raw c = reject_frame id (parse_error_to_close_reason e) c
  deliver now id (ok msg) raw c =
      if not (is_just (ch_of msg) c.channel_id)
      then (send_and_close throws id (terminate (ch_of msg) protocol_error) c, returned)
      else dispatch (get_attachment id c.sockets) now id msg raw c

  module _ (parse_json : String → Option Json) where
    unfoldable pub receive : ℕ → ℕ → Message → Channel → Channel × Flow
    unfolding deliver send_and_close parse_message
    receive now id binary c = reject_frame id protocol_error c
    receive now id (text raw) c =
        if ltb max_message_bytes (units (codes raw))
        then reject_frame id payload_too_large c
        else deliver now id (parse_message parse_json raw) raw c

    unfoldable pub web_socket_message : ℕ → ℕ → Message → Channel → Channel × Flow
    unfolding ensure_initialized receive
    web_socket_message now id message c = receive now id message (ensure_initialized c)

  -- webSocketClose and webSocketError differ in what they log.
  unfoldable pub web_socket_close : ℕ → ℕ → Channel → Channel
  unfolding ensure_initialized handle_disconnect
  web_socket_close now id c = handle_disconnect throws now id (ensure_initialized c)

  -- The loop of `alarm` over the sockets.
  unfoldable pub time_out : List Socket → String → Channel → Channel
  unfolding send_then_close
  time_out [] ch c = c
  time_out (s ∷ ss) ch c =
      time_out ss ch (send_then_close throws s.id (built (terminate ch timeout)) "timeout" c)

  unfoldable pub expire : Channel → Channel
  unfolding time_out persist_state
  expire c =
      if truthy c.channel_id
      then persist_state
          (record (time_out c.sockets (or_empty c.channel_id) c) { channel_state = closed })
      else c

  unfoldable pub alarm : Channel → Channel
  unfolding ensure_initialized expire
  alarm c = expire (ensure_initialized c)
